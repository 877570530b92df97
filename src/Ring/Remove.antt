-- ===== src/Ring/Remove.antt =====
-- `ring_remove`: the first node whose data equal `K` is taken out and freed.
use psis_project.Base.{
  ◌≡◌, ◌≢◌, refl, ◌∙◌, Bool, true, false, none, [], ◌∷◌, ◌++◌, arith, if◌then◌else◌, subst, ne→==,
  eq→==, ℕ, zero, suc, ◌≤◌, ◌<◌, inl, inr, Bool-cases, length,
}
use mathlib.Core.List.{append_assoc}
use psis_project.Machine.Returns
use psis_project.Machine.Returns.{Returns, returns}
use psis_project.Heap.{Ptr, null, Heap, write, write_self, write_other, load-ok, free-ok}
use psis_project.Ring.{Item, remove_root, unlink, remove_loop, ring_remove}
use psis_project.Cells.{
  Cells, owns, SameOutside, last, owns-swap, last-append, last-snoc, owned-ne, Distinct-split,
  contains, erase, freed_at,
}
use psis_project.Ring.Chain.{Circle, IsRing, Chain-split}
use psis_project.Ring.Circle.{Chain-last, Circle-rotate}
use psis_project.Ring.Unlink.{Freed, remove_root-Freed, unlink-Freed}

module _ {D : Type 0} (equal_data_r : D → D → Bool) where
  -- The node that `erase` drops is no longer allocated; the result says whether there was one.
  abbrev pub Removed : Heap (Item D) → Cells D → D → ℕ × Ptr → Heap (Item D) → Type 0
  Removed h xs k (found, root') g =
      (found ≡ (if contains equal_data_r k xs then 1 else 0))
      × IsRing g root' (erase equal_data_r k xs)
      × ((a : Ptr) → owns xs a ≡ true → owns (erase equal_data_r k xs) a ≡ false → g a ≡ none)
      × SameOutside xs h g

  -- The same of the walk, where the nodes `front` have been passed and `xs` lie ahead.
  abbrev Passed : Heap (Item D) → Cells D → Cells D → D → ℕ → Heap (Item D) → Type 0
  Passed h front xs k found g =
      (found ≡ (if contains equal_data_r k xs then 1 else 0))
      × Circle g (front ++ erase equal_data_r k xs)
      × ((a : Ptr) → owns xs a ≡ true → owns (erase equal_data_r k xs) a ≡ false → g a ≡ none)
      × SameOutside (front ++ xs) h g

  -- `unlink` at the node `b` behind the nodes `c ∷ cs`.
  unlink-Passed :
      (h : Heap (Item D)) (k : D) (c : Ptr × D) (cs : Cells D) (b : Ptr × D) (rest : Cells D)
      → Circle h (b ∷ rest ++ c ∷ cs)
      → Returns (λ n g. (n ≡ 1) × Freed h b (rest ++ c ∷ cs) g) (unlink (last c.0 cs) b.0 h)
  unlink-Passed h k c cs b [] circle = unlink-Freed h b c cs circle
  unlink-Passed h k c cs b (d ∷ ds) circle =
      rw (← last-append d.0 ds (c ∷ cs)) (unlink-Freed h b d (ds ++ c ∷ cs) circle)

  hit-Passed :
      (h : Heap (Item D)) (k : D) (c : Ptr × D) (cs : Cells D) (b : Ptr × D) (rest : Cells D)
      → Circle h (c ∷ cs ++ b ∷ rest)
      → equal_data_r b.1 k ≡ true
      → Returns (Passed h (c ∷ cs) (b ∷ rest) k) (unlink (last c.0 cs) b.0 h)
  hit-Passed h k c cs b rest circle hit =
      Returns.mono (unlink-Passed h k c cs b rest (Circle-rotate h (c ∷ cs) (b ∷ rest) circle))
        λ n g (one, (freed, (ring, same))). rw hit (
          one,
          Circle-rotate g rest (c ∷ cs) ring,
          λ a. freed_at g b.0 a rest freed,
          λ a o. same a (owns-swap (b ∷ rest) (c ∷ cs) a ∙ o),
        )

  -- One more node is passed.
  miss-Passed :
      (h : Heap (Item D)) (k : D) (c : Ptr × D) (cs : Cells D) (b : Ptr × D) (rest : Cells D)
      → equal_data_r b.1 k ≡ false
      → owns rest b.0 ≡ false
      → (n : ℕ) (g : Heap (Item D)) → Passed h (c ∷ cs ++ b ∷ []) rest k n g
      → Passed h (c ∷ cs) (b ∷ rest) k n g
  miss-Passed h k c cs b rest miss out n g (found, ring, freed, same) = rw miss (
    found,
    rw append_assoc at ring,
    λ a o gone. freed a (ground arith) (ground arith),
    λ a o. same a (rw append_assoc o),
  )

  -- The loop of `ring_remove` at `aux_seg = b`, the nodes `c ∷ cs` behind it.
  remove_loop-Passed :
      (fuel : ℕ) (h : Heap (Item D)) (k : D) (c : Ptr × D) (cs : Cells D) (b : Ptr × D)
      (rest : Cells D)
      → Circle h (c ∷ cs ++ b ∷ rest)
      → length rest < fuel
      → Returns
          (Passed h (c ∷ cs) (b ∷ rest) k)
          (remove_loop equal_data_r fuel c.0 (last c.0 cs) b.0 k h)
  unfolding remove_loop
  remove_loop-Passed zero h k c cs b rest circle enough = absurd (omega arith)
  remove_loop-Passed (suc fuel) h k c cs b [] circle enough =
      let (left, (nb, eb, _)) = Chain-split h _ (c ∷ cs) (b ∷ []) c.0 circle.0 in
      rw (load-ok h nb eb) (elim (Bool-cases (equal_data_r b.1 k)) [
        | inl hit ↦ rw hit (hit-Passed h k c cs b [] circle hit)
        | inr miss ↦
            rw (miss, eq→== c.0 c.0 refl)
              (returns (rw miss (refl, circle, λ a o out. cc, λ a o. refl)))
      ])
  remove_loop-Passed (suc fuel) h k c cs b (d ∷ ds) circle enough =
      let (chain, dist) = circle in
      let (left, (nb, eb, _)) = Chain-split h _ (c ∷ cs) (b ∷ d ∷ ds) c.0 chain in
      let (front, tail, apart) = Distinct-split (c ∷ cs) (b ∷ d ∷ ds) dist in
      let (na, n, ea, en, _) = Chain-last h _ c cs b.0 left front in
      let on : d.0 ≢ c.0 =
        owned-ne (b ∷ d ∷ ds) d.0 c.0 (ground arith) (apart c.0 (ground arith)) in
      let next =
        remove_loop-Passed fuel h k c (cs ++ b ∷ []) d ds (rw append_assoc circle) (omega arith) in
      let step =
        subst
          (λ aux.
            Returns (Passed h (c ∷ cs ++ b ∷ []) (d ∷ ds) k)
              (remove_loop equal_data_r fuel c.0 aux d.0 k h))
          (last-snoc c.0 cs b) next in
      rw (load-ok h nb eb) (elim (Bool-cases (equal_data_r b.1 k)) [
        | inl hit ↦ rw hit (hit-Passed h k c cs b (d ∷ ds) circle hit)
        | inr miss ↦
            rw (miss, ne→== d.0 c.0 on, load-ok h na ea, en)
              (Returns.mono step (miss-Passed h k c cs b (d ∷ ds) miss tail.0))
      ])

  -- `ring_remove` on a well-formed ring takes out and frees the first node whose data equal
  -- `K`, keeps the others in their order, moves the root on if it was the root, and returns 1;
  -- with no such node it returns 0 and keeps all. It writes to nodes of the ring only. The
  -- fuel is at least the number of nodes.
  pub ring_remove-Removed :
      (fuel : ℕ) (h : Heap (Item D)) (root : Ptr) (xs : Cells D) (k : D)
      → IsRing h root xs
      → length xs ≤ fuel
      → Returns (Removed h xs k) (ring_remove equal_data_r fuel root k h)
  unfolding ring_remove
  ring_remove-Removed fuel h root [] k (e, _) enough =
      rw e (returns (refl, (refl, tt), λ a o out. cc, λ a o. refl))
  ring_remove-Removed fuel h root (b ∷ []) k (e, circle) enough =
      let ((nb, eb, _), _) = circle in
      rw (e, ne→== b.0 null nb, load-ok h nb eb)
        (elim (Bool-cases (equal_data_r b.1 k)) [
          | inl hit ↦
              rw (hit, remove_root, eq→== b.0 b.0 refl, free-ok h nb eb)
                (returns (
                  rw hit (
                    refl,
                    (refl, tt),
                    λ a. freed_at {D = D} (write h b.0 none) b.0 a [] (write_self h b.0 none),
                    λ a o. write_other h b.0 a none (ground arith),
                  )))
          | inr miss ↦
              rw (miss, eq→== b.0 b.0 refl)
                (returns (rw miss (refl, (refl, circle), λ a o out. cc, λ a o. refl)))
        ])
  ring_remove-Removed fuel h root (b ∷ c ∷ cs) k (e, circle) enough =
      let ((nb, eb, _), (out, _)) = circle in
      let apart : c.0 ≢ b.0 = owned-ne (c ∷ cs) c.0 b.0 (ground arith) out in
      rw (e, ne→== b.0 null nb, load-ok h nb eb)
        (elim (Bool-cases (equal_data_r b.1 k)) [
          | inl hit ↦ rw hit (
              Returns.mono (remove_root-Freed h b c cs circle)
                λ (n, root') g (one, er, (freed, (ring, same))).
                  rw hit (one, (er, ring), λ a. freed_at g b.0 a (c ∷ cs) freed, same))
          | inr miss ↦
              rw (miss, ne→== c.0 b.0 apart)
                (Returns.bind (remove_loop-Passed fuel h k b [] c cs circle (omega arith))
                  λ n g (found, ring, freed, same). returns (
                    rw miss (
                      found,
                      (refl, ring),
                      λ a o gone. freed a (ground arith) (ground arith),
                      same,
                    )))
        ])
