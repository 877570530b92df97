-- ===== src/LinkedList/Ends.antt =====
-- The functions of linked_list.c that work at the ends of a list: `list_first`, `list_push`,
-- `list_insert`, `list_append` and `lists_concatenate`.
use psis_project.Base.{
  ◌≡◌, ◌≢◌, refl, ◌∙◌, sym, true, false, some, none, [], ◌∷◌, ◌++◌, arith, ◌==◌, ne→==, ℕ, zero,
  suc, ◌≤◌, ◌<◌, ◌⊎◌, inl, inr, Bool-cases, length, negsuc,
}
use psis_project.Machine.{Run, ok, exited}
use psis_project.Machine.Returns.{Returns, returns}
use psis_project.Heap.{
  Ptr, null, Heap, Block, write, write_self, write_other, load-ok, modify-ok, malloc,
}
use psis_project.Cells.{
  Cells, owns, Apart, SameOutside, first, last, owns_left, owns_right, first-owned, last-owned,
  owned-ne, Distinct-append,
}
use psis_project.LinkedList.{
  Item, item, last_loop, list_first, list_push, list_insert, list_append, lists_concatenate,
}
use psis_project.LinkedList.Linked.{
  Linked, IsList, Linked-write, Linked-join, Linked-last, not-owned_of_none,
}

module _ {D : Type 0} where
  abbrev pub Dropped : Heap (Item D) → Ptr × D → Cells D → Ptr × Ptr → Heap (Item D) → Type 0
  Dropped h b bs (out, root') g =
      (out ≡ b.0) × (g b.0 ≡ some (item b.1 null)) × IsList g root' bs × SameOutside (b ∷ []) h g

  -- `list_first` on a well-formed list that is not empty takes the first node out and returns
  -- it with its link cleared; the list keeps the others in their order, and only that node is
  -- written to.
  pub list_first-Dropped :
      (h : Heap (Item D)) (root : Ptr) (b : Ptr × D) (bs : Cells D)
      → IsList h root (b ∷ bs)
      → Returns (Dropped h b bs) (list_first root h)
  unfolding list_first
  list_first-Dropped h root b bs (e, (ne, eb, ch), (out, dist)) =
      rw (e, ne→== b.0 null ne, load-ok h ne eb, modify-ok h ne eb _)
        (returns (
          refl,
          write_self h b.0 _,
          (refl, Linked-write h bs null b.0 (some (item b.1 null)) ch out, dist),
          λ a o. write_other h b.0 a _ (ground arith),
        ))

  -- On an empty list `list_first` returns `NULL` and changes nothing.
  pub list_first-nil :
      (h : Heap (Item D)) (root : Ptr) → IsList h root [] → list_first root h ≡ ok (null, null) h
  unfolding list_first
  list_first-nil h root (e, _, _) = rw e

  -- What is left once the node `c` is in front of a list.
  abbrev pub Pushed : Heap (Item D) → Ptr × D → Cells D → Ptr → Heap (Item D) → Type 0
  Pushed h c xs root' g = (root' ≡ c.0) × IsList g root' (c ∷ xs) × SameOutside (c ∷ []) h g

  -- `list_push` puts a node that is in no list in front of the list, and writes to it only.
  pub list_push-Pushed :
      (h : Heap (Item D)) (root : Ptr) (xs : Cells D) (other : Ptr) (n : Item D)
      → IsList h root xs
      → other ≢ null
      → h other ≡ some n
      → owns xs other ≡ false
      → Returns (Pushed h (other, n.K) xs) (list_push root other h)
  unfolding list_push
  list_push-Pushed h root xs other n (e, ch, dist) ne holds out =
      rw (e, ne→== other null ne, modify-ok h ne holds _)
        (returns (
          refl,
          (
            refl,
            (
              ne,
              write_self h other _,
              Linked-write h xs null other (some (item n.K (first xs null))) ch out,
            ),
            (out, dist),
          ),
          λ a o. write_other h other a _ (ground arith),
        ))

  abbrev pub Inserted : Heap (Item D) → Cells D → Ptr → D → Run (Heap (Item D)) Ptr → Type 0
  Inserted h xs fresh k r =
      ((fresh ≡ null) × (r ≡ exited (negsuc 0) h)) ⊎ Returns (Pushed h (fresh, k) xs) r

  -- `list_insert` puts a new node that holds `K`, at an address not in use, in front of a
  -- well-formed list, and writes to it only; where `malloc` returns `NULL` the process exits
  -- with -1 and nothing is written.
  pub list_insert-Inserted :
      (h : Heap (Item D)) (root : Ptr) (xs : Cells D) (block : Block (Item D)) (k : D)
      → IsList h root xs
      → h block.address ≡ none
      → Inserted h xs block.address k (list_insert block root k h)
  unfolding list_insert malloc
  list_insert-Inserted h root xs block k (e, ch, dist) free =
      elim (Bool-cases (block.address == null)) [
        | inl q ↦ inl (ground arith, rw q refl)
        | inr q ↦
            let p = block.address in
            let ne : p ≢ null = ground arith in
            let n = block.contents in
            let h0 = write h p (some n) in
            let h1 = write h0 p (some (item k n.next)) in
            let out = not-owned_of_none h xs null p ch free in
            let ch1 =
              Linked-write h1 xs null p (some (item k (first xs null)))
                (Linked-write h0 xs null p (some (item k n.next))
                  (Linked-write h xs null p (some n) ch out) out)
                out in
            inr (
              rw
                (
                  e,
                  q,
                  q,
                  modify-ok h0 ne (write_self h p _) _,
                  modify-ok h1 ne (write_self h0 p _) _,
                )
                (returns (
                  refl,
                  (refl, (ne, write_self h1 p _, ch1), (out, dist)),
                  λ a o.
                      let away : a ≢ p = ground arith in
                      write_other h1 p a _ away
                      ∙ write_other h0 p a _ away
                      ∙ write_other h p a _ away,
                )))
      ]

  last_loop-last :
      (fuel : ℕ) (h : Heap (Item D)) (c : Ptr × D) (cs : Cells D)
      → Linked h (c ∷ cs) null
      → length cs < fuel
      → last_loop fuel c.0 h ≡ ok (last c.0 cs) h
  unfolding last_loop
  last_loop-last zero h c cs ch enough = absurd (omega arith)
  last_loop-last (suc fuel) h c [] (ne, e, ch) enough = rw (load-ok h ne e)
  last_loop-last (suc fuel) h c (d ∷ ds) (ne, e, ch) enough =
      rw (load-ok h ne e, ne→== d.0 null ch.0) (last_loop-last fuel h d ds ch (omega arith))

  -- `list_append` puts a node that is in no list at the end of a well-formed list, keeps the
  -- order of the others, and writes to that node and to the list's only. The fuel is at least
  -- the number of nodes.
  pub list_append-snoc :
      (fuel : ℕ) (h : Heap (Item D)) (root : Ptr) (xs : Cells D) (other : Ptr) (n : Item D)
      → IsList h root xs
      → other ≢ null
      → h other ≡ some n
      → owns xs other ≡ false
      → length xs ≤ fuel
      → Returns
          (λ root' g.
            IsList g root' (xs ++ (other, n.K) ∷ []) × SameOutside (xs ++ (other, n.K) ∷ []) h g)
          (list_append fuel root other h)
  unfolding list_append
  list_append-snoc fuel h root [] other n (e, ch, dist) ne holds out enough =
      rw (e, ne→== other null ne, modify-ok h ne holds _)
        (returns (
          (refl, (ne, write_self h other _, tt), (refl, tt)),
          λ a o. write_other h other a _ (ground arith),
        ))
  list_append-snoc fuel h root (c ∷ cs) other n (e, ch, dist) ne holds out enough =
      let l = last c.0 cs in
      let (nl, m, hl, _, relink) = Linked-last h c cs null ch dist in
      let apart : other ≢ l = (λ q. owned-ne (c ∷ cs) l other (last-owned c cs) out (sym q)) in
      let h1 = write h l (some (record m { next = other })) in
      let h2 = write h1 other (some (item n.K null)) in
      let oh = write_other h l other (some (record m { next = other })) apart ∙ holds in
      let whole = c ∷ cs ++ (other, n.K) ∷ [] in
      rw
        (
          e,
          ne→== other null ne,
          ne→== c.0 null ch.0,
          last_loop-last fuel h c cs ch (omega arith),
          modify-ok h nl hl _,
          modify-ok h1 ne oh _,
        )
        (returns (
          (
            refl,
            Linked-join h2 (c ∷ cs) ((other, n.K) ∷ []) null
                (Linked-write h1 (c ∷ cs) other other (some (item n.K null)) (relink other) out)
                (ne, write_self h1 other _, tt),
            Distinct-append (c ∷ cs) ((other, n.K) ∷ []) dist (refl, tt)
                (λ a i. rw (ne→== a other (owned-ne (c ∷ cs) a other i out))),
          ),
          λ a o.
              let away =
                λ (p : Ptr) (i : owns whole p ≡ true) (q : a ≡ p). owned-ne whole p a i o (sym q) in
              write_other h1 other a _ (
                away other
                  (owns_right (c ∷ cs) ((other, n.K) ∷ []) other (first-owned (other, n.K) [])))
              ∙ write_other h l a _
                  (away l (owns_left (c ∷ cs) ((other, n.K) ∷ []) l (last-owned c cs))),
        ))

  -- `lists_concatenate` makes one well-formed list of two that share no node, the second
  -- behind the first, and returns its root; it writes to the first list's nodes only. The fuel
  -- is at least the number of nodes of the first.
  pub lists_concatenate-append :
      (fuel : ℕ) (h : Heap (Item D)) (list1 list2 : Ptr) (xs ys : Cells D)
      → IsList h list1 xs
      → IsList h list2 ys
      → Apart xs ys
      → length xs ≤ fuel
      → Returns
          (λ root g. IsList g root (xs ++ ys) × SameOutside xs h g)
          (lists_concatenate fuel list1 list2 h)
  unfolding lists_concatenate
  lists_concatenate-append fuel h p q [] ys (e, _, _) is2 apart enough =
      rw e (returns (is2, λ a o. refl))
  lists_concatenate-append fuel h p q (c ∷ cs) ys (e, ch, dx) (e', chy, dy) apart enough =
      let l = last c.0 cs in
      let (nl, m, hl, _, relink) = Linked-last h c cs null ch dx in
      let h1 = write h l (some (record m { next = first ys null })) in
      rw
        (
          e,
          e',
          ne→== c.0 null ch.0,
          last_loop-last fuel h c cs ch (omega arith),
          modify-ok h nl hl _,
        )
        (returns (
          (
            refl,
            Linked-join h1 (c ∷ cs) ys null (relink (first ys null)) (
                Linked-write h ys null l (some (record m { next = first ys null })) chy
                  (apart l (last-owned c cs))),
            Distinct-append (c ∷ cs) ys dx dy apart,
          ),
          λ a o. write_other h l a _ (λ i. owned-ne (c ∷ cs) l a (last-owned c cs) o (sym i)),
        ))
