-- ===== src/LinkedList/Remove.antt =====
-- `list_remove`: the first node whose data equal `K` is taken out and freed.
use psis_project.Base.{
  ◌≡◌, refl, ◌∙◌, sym, Bool, true, false, some, none, [], ◌∷◌, ◌++◌, arith, if◌then◌else◌, subst,
  ne→==, ℕ, zero, suc, ◌≤◌, ◌<◌, inl, inr, Bool-cases, length,
}
use mathlib.Core.List.{append_assoc}
use psis_project.Machine.Returns
use psis_project.Machine.Returns.{Returns, returns}
use psis_project.Heap.{Ptr, null, Heap, write, write_self, write_other, load-ok, modify-ok, free-ok}
use psis_project.Cells.{
  Cells, owns, Distinct, Apart, SameOutside, first, last, owns_left, owns_right, first-owned,
  last-snoc, last-owned, owned-ne, Distinct-append, Distinct-split, contains, erase, freed_at,
  Apart-sym,
}
use psis_project.Machine.{pure, ◌>>◌}
use psis_project.Heap.{free}
use psis_project.LinkedList.{set_next, Item, remove_loop, list_remove}
use psis_project.LinkedList.Linked.{
  Linked, IsList, Linked-write, Linked-split, Linked-join, Linked-last,
}

module _ {D : Type 0} (equal : D → D → Bool) where
  -- The node that `erase` drops is no longer allocated; the result says whether there was one.
  abbrev pub Removed : Heap (Item D) → Cells D → D → ℕ × Ptr → Heap (Item D) → Type 0
  Removed h xs k (found, root') g =
      (found ≡ (if contains equal k xs then 1 else 0))
      × IsList g root' (erase equal k xs)
      × ((a : Ptr) → owns xs a ≡ true → owns (erase equal k xs) a ≡ false → g a ≡ none)
      × SameOutside xs h g

  -- The same of the walk, where the nodes `front` have been passed and `xs` lie ahead.
  abbrev Passed : Heap (Item D) → Cells D → Cells D → D → ℕ → Heap (Item D) → Type 0
  Passed h front xs k found g =
      (found ≡ (if contains equal k xs then 1 else 0))
      × Linked g (front ++ erase equal k xs) null
      × Distinct (front ++ erase equal k xs)
      × ((a : Ptr) → owns xs a ≡ true → owns (erase equal k xs) a ≡ false → g a ≡ none)
      × SameOutside (front ++ xs) h g

  miss-Passed :
      (h : Heap (Item D)) (k : D) (c : Ptr × D) (cs : Cells D) (b : Ptr × D) (rest : Cells D)
      → equal b.1 k ≡ false
      → owns rest b.0 ≡ false
      → (n : ℕ) (g : Heap (Item D)) → Passed h (c ∷ cs ++ b ∷ []) rest k n g
      → Passed h (c ∷ cs) (b ∷ rest) k n g
  miss-Passed h k c cs b rest miss out n g (found, chain, dist, freed, same) = rw miss (
    found,
    rw append_assoc at chain,
    rw append_assoc at dist,
    λ a o gone. freed a (ground arith) (ground arith),
    λ a o. same a (rw append_assoc o),
  )

  -- The end of the loop, where `aux_seg = b` is the node to take out.
  hit-Passed :
      (h : Heap (Item D)) (k : D) (c : Ptr × D) (cs : Cells D) (b : Ptr × D) (rest : Cells D)
      → Linked h (c ∷ cs ++ b ∷ rest) null
      → Distinct (c ∷ cs ++ b ∷ rest)
      → equal b.1 k ≡ true
      → Returns
          (Passed h (c ∷ cs) (b ∷ rest) k)
          ((do set_next (last c.0 cs) (first rest null); free b.0; pure 1) h)
  hit-Passed h k c cs b rest chain dist hit =
      let l = last c.0 cs in
      let (left, (nb, eb, right)) = Linked-split h (c ∷ cs) (b ∷ rest) null chain in
      let (front, (out, tail), apart) = Distinct-split (c ∷ cs) (b ∷ rest) dist in
      let (nl, n, hl, _, relink) = Linked-last h c cs b.0 left front in
      let n' = record n { next = first rest null } in
      let h1 = write h l (some n') in
      let off = owned-ne (b ∷ rest) b.0 l (first-owned b rest) (apart l (last-owned c cs)) in
      let apart_rest : Apart (c ∷ cs) rest = (λ a i. ground (arith, apart a i)) in
      let not_front : owns (c ∷ cs) b.0 ≡ false =
        Apart-sym (c ∷ cs) (b ∷ rest) apart b.0 (first-owned b rest) in
      rw (modify-ok h nl hl _, free-ok h1 nb (write_other h l b.0 (some n') off ∙ eb))
        (returns (
          rw hit (
            refl,
            Linked-join (write h1 b.0 none) (c ∷ cs) rest null
                (Linked-write h1 (c ∷ cs) (first rest null) b.0 none (relink (first rest null))
                  not_front)
                (Linked-write h1 rest null b.0 none
                  (Linked-write h rest null l (some n') right (apart_rest l (last-owned c cs)))
                  out),
            Distinct-append (c ∷ cs) rest front tail apart_rest,
            λ a. freed_at (write h1 b.0 none) b.0 a rest (write_self h1 b.0 none),
            λ a o.
                let whole = c ∷ cs ++ b ∷ rest in
                let away = λ (p : Ptr) (i : owns whole p ≡ true) (q : a ≡ p).
                  owned-ne whole p a i o (sym q) in
                write_other h1 b.0 a none
                  (away b.0 (owns_right (c ∷ cs) (b ∷ rest) b.0 (first-owned b rest)))
                ∙ write_other h l a _ (away l (owns_left (c ∷ cs) (b ∷ rest) l (last-owned c cs))),
          )))

  -- The loop of `list_remove` at `aux_seg = b`, the nodes `c ∷ cs` before it.
  remove_loop-Passed :
      (fuel : ℕ) (h : Heap (Item D)) (k : D) (c : Ptr × D) (cs : Cells D) (b : Ptr × D)
      (rest : Cells D)
      → Linked h (c ∷ cs ++ b ∷ rest) null
      → Distinct (c ∷ cs ++ b ∷ rest)
      → length rest < fuel
      → Returns (Passed h (c ∷ cs) (b ∷ rest) k) (remove_loop equal fuel (last c.0 cs) b.0 k h)
  unfolding remove_loop
  remove_loop-Passed zero h k c cs b rest chain dist enough = absurd (omega arith)
  remove_loop-Passed (suc fuel) h k c cs b [] chain dist enough =
      let (left, (nb, eb, _)) = Linked-split h (c ∷ cs) (b ∷ []) null chain in
      rw (load-ok h nb eb) (elim (Bool-cases (equal b.1 k)) [
        | inl hit ↦ rw hit (hit-Passed h k c cs b [] chain dist hit)
        | inr miss ↦ rw miss (returns (rw miss (refl, chain, dist, λ a o out. cc, λ a o. refl)))
      ])
  remove_loop-Passed (suc fuel) h k c cs b (d ∷ ds) chain dist enough =
      let (left, (nb, eb, right)) = Linked-split h (c ∷ cs) (b ∷ d ∷ ds) null chain in
      let (front, (out, _), _) = Distinct-split (c ∷ cs) (b ∷ d ∷ ds) dist in
      let (nl, n, hl, en, _) = Linked-last h c cs b.0 left front in
      let step =
        subst
          (λ aux.
            Returns (Passed h (c ∷ cs ++ b ∷ []) (d ∷ ds) k) (remove_loop equal fuel aux d.0 k h))
          (last-snoc c.0 cs b)
          (remove_loop-Passed fuel h k c (cs ++ b ∷ []) d ds (rw append_assoc chain)
            (rw append_assoc dist) (omega arith)) in
      rw (load-ok h nb eb) (elim (Bool-cases (equal b.1 k)) [
        | inl hit ↦ rw hit (hit-Passed h k c cs b (d ∷ ds) chain dist hit)
        | inr miss ↦
            rw (miss, ne→== d.0 null right.0, load-ok h nl hl, en)
              (Returns.mono step (miss-Passed h k c cs b (d ∷ ds) miss out))
      ])

  -- `list_remove` on a well-formed list takes out and frees the first node whose data equal
  -- `K`, keeps the others in their order and returns 1; with no such node it returns 0 and
  -- keeps all. It writes to nodes of the list only. The fuel is at least the number of nodes.
  pub list_remove-Removed :
      (fuel : ℕ) (h : Heap (Item D)) (root : Ptr) (xs : Cells D) (k : D)
      → IsList h root xs
      → length xs ≤ fuel
      → Returns (Removed h xs k) (list_remove equal fuel root k h)
  unfolding list_remove
  list_remove-Removed fuel h root [] k (e, _, _) enough =
      rw e (returns (refl, (refl, tt, tt), λ a o out. cc, λ a o. refl))
  list_remove-Removed fuel h root (b ∷ []) k (e, (nb, eb, _), dist) enough =
      rw (e, ne→== b.0 null nb, load-ok h nb eb)
        (elim (Bool-cases (equal b.1 k)) [
          | inl hit ↦
              rw (hit, free-ok h nb eb)
                (returns (
                  rw hit (
                    refl,
                    (refl, tt, tt),
                    λ a. freed_at {D = D} (write h b.0 none) b.0 a [] (write_self h b.0 none),
                    λ a o. write_other h b.0 a none (ground arith),
                  )))
          | inr miss ↦
              rw miss
                (returns (rw miss (refl, (refl, (nb, eb, tt), dist), λ a o out. cc, λ a o. refl)))
        ])
  list_remove-Removed fuel h root (b ∷ c ∷ cs) k (e, chain, (out, dist)) enough =
      let (nb, eb, ch) = chain in
      rw (e, ne→== b.0 null nb, load-ok h nb eb)
        (elim (Bool-cases (equal b.1 k)) [
          | inl hit ↦
              rw (hit, free-ok h nb eb)
                (returns (
                  rw hit (
                    refl,
                    (refl, Linked-write h (c ∷ cs) null b.0 none ch out, dist),
                    λ a. freed_at (write h b.0 none) b.0 a (c ∷ cs) (write_self h b.0 none),
                    λ a o. write_other h b.0 a none (ground arith),
                  )))
          | inr miss ↦
              rw (miss, ne→== c.0 null ch.0)
                (Returns.bind
                  (remove_loop-Passed fuel h k b [] c cs chain (out, dist) (omega arith))
                  λ n g (found, chain', dist', freed, same). returns (
                    rw miss (
                      found,
                      (refl, chain', dist'),
                      λ a o gone. freed a (ground arith) (ground arith),
                      same,
                    )))
        ])
