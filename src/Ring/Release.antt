-- ===== src/Ring/Release.antt =====
-- `ring_dering` and `ring_free`.
use psis_project.Base.{
  ◌≡◌, refl, ◌∙◌, sym, some, none, [], ◌∷◌, arith, ne→==, ℕ, zero, suc, ◌<◌, length,
}
use psis_project.Machine.Returns
use psis_project.Machine.Returns.{Returns, returns}
use psis_project.Heap.{Ptr, null, Heap, write, write_other, load-ok, modify-ok, free-ok}
use psis_project.Ring.{Item, ring_dering, free_loop, ring_free}
use psis_project.Cells.{Without, Cells, Distinct, SameOutside, first, last, last-owned, owned-ne}
use psis_project.Ring.Chain.{Chain, IsRing}
use psis_project.Ring.Circle.{Chain-write, Chain-write-first, Chain-last}

module _ {D : Type 0} where
  -- `ring_dering` cuts a well-formed ring open between its last node and its root: the same
  -- nodes in the same order become a doubly linked list that begins and ends with `NULL`, and
  -- no other node is written to.
  pub ring_dering-Chain :
      (h : Heap (Item D)) (root : Ptr) (xs : Cells D)
      → IsRing h root xs
      → Returns
          (λ p g. (p ≡ first xs null) × Chain g null xs null × Distinct xs × SameOutside xs h g)
          (ring_dering root h)
  unfolding ring_dering
  ring_dering-Chain h root [] (e, _) = rw e (returns (refl, tt, tt, λ a o. refl))
  ring_dering-Chain h root (c ∷ cs) (e, (ch, dist)) =
      let l = last c.0 cs in
      let (nl, n, lh, _, relink) = Chain-last h l c cs c.0 ch dist in
      let h1 = write h l (some (record n { next = null })) in
      let ch1 = relink null in
      rw
        (
          e,
          ne→== c.0 null ch.0,
          load-ok h ch.0 ch.1,
          modify-ok h nl lh _,
          modify-ok h1 ch1.0 ch1.1 _,
        )
        (returns (
          refl,
          Chain-write-first h1 l c cs null null ch1 dist,
          dist,
          λ a o.
              write_other h1 c.0 a _ (λ q. owned-ne (c ∷ cs) c.0 a (ground arith) o (sym q))
              ∙ write_other h l a _ (λ q. owned-ne (c ∷ cs) l a (last-owned c cs) o (sym q)),
        ))

  free_loop-Without :
      (fuel : ℕ) (h : Heap (Item D)) (b : Ptr) (xs : Cells D)
      → Chain h b xs null
      → Distinct xs
      → length xs < fuel
      → Returns (λ _ g. Without xs h g) (free_loop fuel (first xs null) h)
  unfolding free_loop write
  free_loop-Without zero h b xs ch dist enough = absurd (omega arith)
  free_loop-Without (suc fuel) h b [] ch dist enough = returns (λ a. refl)
  free_loop-Without (suc fuel) h b (c ∷ cs) (ne, e, ch) (out, dist) enough =
      rw (ne→== c.0 null ne, load-ok h ne e, free-ok h ne e)
        (Returns.mono
          (free_loop-Without fuel (write h c.0 none) c.0 cs
            (Chain-write h c.0 cs null c.0 none ch out) dist (omega arith))
          λ _ g gone a. ground (arith, gone a))

  -- `ring_free` on a well-formed ring frees every node of the ring, no other, and touches no
  -- other; it does not follow a freed node. The fuel exceeds the number of nodes.
  pub ring_free-Without :
      (fuel : ℕ) (h : Heap (Item D)) (root : Ptr) (xs : Cells D)
      → IsRing h root xs
      → length xs < fuel
      → Returns (λ _ g. Without xs h g) (ring_free fuel root h)
  unfolding ring_free
  ring_free-Without fuel h root xs is enough =
      Returns.bind (ring_dering-Chain h root xs is) λ p g (e, ch, dist, same). rw e (
        Returns.mono (free_loop-Without fuel g null xs ch dist enough)
          λ _ g' gone a. ground (arith, gone a, same a))
