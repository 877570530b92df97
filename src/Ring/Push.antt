-- ===== src/Ring/Push.antt =====
-- `ring_push` and `ring_append`: a node is put at the end of the ring.
use psis_project.Base.{
  ◌≡◌, ◌≢◌, refl, ◌∙◌, sym, ap, true, false, some, none, [], ◌∷◌, ◌++◌, arith, ◌⊎◌, inl, inr,
  Bool-cases, ◌==◌, ne→==, negsuc,
}
use psis_project.Machine.{Run, exited}
use psis_project.Machine.Returns
use psis_project.Machine.Returns.{Returns, returns}
use psis_project.Heap.{
  Ptr, null, Heap, Block, write, write_self, write_other, malloc, load-ok, modify-ok,
}
use psis_project.Ring.{Item, item, ring_push, ring_append}
use psis_project.Cells.{Cells, owns, SameOutside, first, last, owns-append, last-owned, owned-ne}
use psis_project.Ring.Chain.{Chain, IsRing}
use psis_project.Ring.Circle.{Chain-write, Chain-write-first, Chain-last, Circle-snoc, IsRing-write}

module _ {D : Type 0} where
  -- What `ring_push` leaves: the ring with one more node at its end.
  abbrev pub Pushed : Heap (Item D) → Cells D → Ptr × D → Ptr → Heap (Item D) → Type 0
  Pushed h xs c root' g = IsRing g root' (xs ++ c ∷ []) × SameOutside (xs ++ c ∷ []) h g

  push-Pushed :
      (h : Heap (Item D)) (root : Ptr) (xs : Cells D) (other : Ptr) (n : Item D)
      → IsRing h root xs
      → other ≢ null
      → h other ≡ some n
      → owns xs other ≡ false
      → Returns (Pushed h xs (other, n.K)) (ring_push root other h)
  unfolding ring_push write
  push-Pushed h root [] other n (e, _) ne holds out =
      rw (e, modify-ok h ne holds _, modify-ok _ ne (write_self h other _) _)
        (returns
          ((refl, ((ne, write_self (write h other _) other _, tt), (refl, tt))), ground arith))
  push-Pushed h root (c ∷ cs) other n (e, (ch, dist)) ne holds out =
      let (nr, er, _) = ch in
      let l = last c.0 cs in
      let apart : other ≢ l = (λ q. owned-ne (c ∷ cs) l other (last-owned c cs) out (sym q)) in
      let h1 = write h other (some (item n.K n.next l)) in
      let ch1 = Chain-write h l (c ∷ cs) c.0 other (some (item n.K n.next l)) ch out in
      let (nl, ln, lh, ls, relink) = Chain-last h1 l c cs c.0 ch1 dist in
      let h2 = write h1 l (some (record ln { next = other })) in
      let oh =
        write_other h1 l other (some (record ln { next = other })) apart ∙ write_self h other _ in
      let h3 = write h2 other (some (item n.K c.0 l)) in
      let ch3 = Chain-write h2 l (c ∷ cs) other other (some (item n.K c.0 l)) (relink other) out in
      rw
        (
          e,
          ne→== c.0 null nr,
          load-ok h nr er,
          modify-ok h ne holds _,
          load-ok h1 nr ch1.1,
          modify-ok h1 nl lh _,
          modify-ok h2 ne oh _,
          modify-ok h3 nr ch3.1 _,
        )
        (returns (
          (
            refl,
            Circle-snoc (write h3 c.0 (some (item c.1 (first cs other) other))) c cs (other, n.K)
                (Chain-write-first h3 l c cs other other ch3 dist) ne
                (write_other h3 c.0 other _
                    (λ q. owned-ne (c ∷ cs) c.0 other (ground arith) out (sym q))
                  ∙ write_self h2 other _)
                dist out,
          ),
          λ a o.
              let whole = c ∷ cs ++ (other, n.K) ∷ [] in
              let joined = owns-append (c ∷ cs) ((other, n.K) ∷ []) in
              let away =
                λ (p : Ptr) (i : owns whole p ≡ true) (q : a ≡ p). owned-ne whole p a i o (sym q) in
              let other_away = away other (ground (arith, joined other)) in
              write_other h3 c.0 a _ (away c.0 (ground arith))
              ∙ write_other h2 other a _ other_away
              ∙ write_other h1 l a _ (away l (ground (arith, joined l, last-owned c cs)))
              ∙ write_other h other a _ other_away,
        ))

  -- `ring_push` puts a node that is in no ring at the end of the ring, keeps the order of the others
  -- and the root (unless the ring was empty), and writes to no other node.
  pub ring_push-append :
      (h : Heap (Item D)) (root : Ptr) (xs : Cells D) (other : Ptr) (n : Item D)
      → IsRing h root xs
      → other ≢ null
      → h other ≡ some n
      → owns xs other ≡ false
      → Returns (Pushed h xs (other, n.K)) (ring_push root other h)
  ring_push-append = push-Pushed

  not-owned_of_none :
      (h : Heap (Item D)) (b : Ptr) (xs : Cells D) (s a : Ptr)
      → Chain h b xs s
      → h a ≡ none
      → owns xs a ≡ false
  not-owned_of_none h b [] s a ch free = refl
  not-owned_of_none h b (c ∷ cs) s a (ne, e, ch) free =
      rw (ne→== a c.0 (λ q. ground (arith, ap h q))) (not-owned_of_none h c.0 cs s a ch free)

  pub Ring-not-owned :
      (h : Heap (Item D)) (root : Ptr) (xs : Cells D) (a : Ptr)
      → IsRing h root xs
      → h a ≡ none
      → owns xs a ≡ false
  Ring-not-owned h root [] a is free = refl
  Ring-not-owned h root (c ∷ cs) a is free = not-owned_of_none h _ (c ∷ cs) c.0 a is.1.0 free

  -- What `ring_append` does: with memory left, the ring has one more node that holds `K` at its
  -- end; with none, the process exits and nothing was written.
  abbrev pub Appended : Heap (Item D) → Cells D → Ptr → D → Run (Heap (Item D)) Ptr → Type 0
  Appended h xs fresh k r =
      ((fresh ≡ null) × (r ≡ exited (negsuc 0) h)) ⊎ Returns (Pushed h xs (fresh, k)) r

  -- `ring_append` on a well-formed ring: with memory left, at an address not in use, the ring
  -- has one more node at its end that holds `K`, the others keep their order, and no other
  -- node is written to; where `malloc` returns `NULL`, the process exits with -1 and nothing
  -- is written.
  pub ring_append-Appended :
      (h : Heap (Item D)) (root : Ptr) (xs : Cells D) (block : Block (Item D)) (k : D)
      → IsRing h root xs
      → h block.address ≡ none
      → Appended h xs block.address k (ring_append block root k h)
  unfolding ring_append malloc
  ring_append-Appended h root xs block k is free = elim (Bool-cases (block.address == null)) [
    | inl e ↦ inl (ground arith, rw e refl)
    | inr e ↦
        let p = block.address in
        let ne : p ≢ null = ground arith in
        let n = block.contents in
        let h0 = write h p (some n) in
        let h1 = write h0 p (some (record n { K = k })) in
        let out = Ring-not-owned h root xs p is free in
        let is1 =
          IsRing-write h0 root xs p (some (record n { K = k }))
            (IsRing-write h root xs p (some n) is out) out in
        let away = λ (a : Ptr) (o : owns (xs ++ (p, k) ∷ []) a ≡ false) (q : a ≡ p).
          owned-ne (xs ++ (p, k) ∷ []) p a (ground (arith, owns-append xs ((p, k) ∷ []) p)) o
            (sym q) in
        inr (
          rw (e, e, modify-ok h0 ne (write_self h p _) _)
            (Returns.mono
              (ring_push-append h1 root xs p (record n { K = k }) is1 ne (write_self h0 p _) out)
              λ root' g (ring, same). (
                ring,
                λ a o. same a o ∙ write_other h0 p a _ (away a o) ∙ write_other h p a _ (away a o),
              )))
  ]
