-- ===== src/Msgs/Transfer.antt =====
-- The peer list goes over the network unchanged: `send_ring_udp` and `recv_ring_udp`.
use psis_project.Base.{
  ℕ, suc, ◌≤◌, ◌≡◌, refl, ◌∙◌, ap, ℤ, pos, negsuc, Bool, true, none, some, List, [], ◌∷◌, ◌++◌,
  if◌then◌else◌, length, arith, inl, inr, ne→==, subst,
}
use mathlib.Core.List.{append_assoc, append-nil}
use psis_project.Machine.{ok}
use psis_project.Machine.Returns
use psis_project.Machine.Returns.{Returns, returns}
use psis_project.Heap.{IsFresh, Ptr, null, Heap, Block, load-ok}
use psis_project.Cells.{Cells, first, contents, owns-append}
use psis_project.Ring.{Item}
use psis_project.Ring.Chain.{Chain, IsRing}
use psis_project.Ring.Push.{ring_append-Appended, Ring-not-owned}
use psis_project.Ring.Walk.{ring_count-length}
use psis_project.Msgs.{RingSent, vector_loop, send_ring_udp, append_loop, recv_ring_udp}

module _ {D : Type 0} where
  vector_loop-contents :
      (h : Heap (Item D)) (b : Ptr) (xs : Cells D) (s : Ptr)
      → Chain h b xs s
      → vector_loop (length xs) (first xs s) h ≡ ok (contents xs) h
  unfolding vector_loop
  vector_loop-contents h b [] s ch = refl
  vector_loop-contents h b (c ∷ cs) s (ne, e, ch) =
      rw (load-ok h ne e, vector_loop-contents h c.0 cs s ch)

  -- What `send_ring_udp` sends of a ring: the number of its nodes, and all their data in order.
  abbrev pub image : Cells D → RingSent D
  image [] = record { size = 0; array = none }
  image (c ∷ cs) = record { size = length (c ∷ cs); array = some (contents (c ∷ cs)) }

  abbrev pub result_of : Bool → Cells D → ℤ
  result_of sent [] = pos 0
  result_of sent (c ∷ cs) = if sent then pos 0 else negsuc 0

  -- `send_ring_udp` sends the number of nodes and, if that is not 0, the data of all nodes from the
  -- root on; it changes nothing, and returns -1 exactly where there is an array whose `sendto` fails.
  pub send_ring_udp-image :
      (sent : Bool) (fuel : ℕ) (h : Heap (Item D)) (root : Ptr) (xs : Cells D)
      → IsRing h root xs
      → length xs ≤ fuel
      → send_ring_udp sent fuel root h ≡ ok (result_of sent xs, image xs) h
  unfolding send_ring_udp
  send_ring_udp-image sent fuel h root [] is enough =
      rw (ring_count-length fuel h root [] is enough)
  send_ring_udp-image sent fuel h root (c ∷ cs) is enough = rw (
    ring_count-length fuel h root (c ∷ cs) is enough,
    ne→== (suc (length cs)) 0 (omega arith),
    is.0,
    vector_loop-contents h _ (c ∷ cs) c.0 is.1.0,
  )

  -- The received data at the addresses that `malloc` returned.
  abbrev pub placed : (ℕ → Block (Item D)) → List D → Cells D
  placed blocks [] = []
  placed blocks (d ∷ ds) = ((blocks 0).address, d) ∷ placed (λ i. blocks (suc i)) ds

  pub contents-placed :
      (blocks : ℕ → Block (Item D)) (ds : List D) → contents (placed blocks ds) ≡ ds
  contents-placed blocks [] = refl
  contents-placed blocks (d ∷ ds) = ap (◌∷◌ d) (contents-placed (λ i. blocks (suc i)) ds)

  pub length-contents : (xs : Cells D) → length (contents xs) ≡ length xs
  length-contents [] = refl
  length-contents (c ∷ cs) = ap suc (length-contents cs)

  append_loop-placed :
      (ds : List D) (blocks : ℕ → Block (Item D)) (h : Heap (Item D)) (root : Ptr) (xs : Cells D)
      → IsRing h root xs
      → IsFresh h blocks
      → Returns
          (λ root' g. IsRing g root' (xs ++ placed blocks ds))
          (append_loop (length ds) ds blocks root h)
  unfolding append_loop
  append_loop-placed [] blocks h root xs is fresh = returns (rw append-nil is)
  append_loop-placed (d ∷ ds) blocks h root xs is fresh =
      elim (ring_append-Appended h root xs (blocks 0) d is (fresh.unused 0)) [
        | inl (none_left, _) ↦ absurd (fresh.not_null 0 none_left)
        | inr pushed ↦ Returns.bind pushed λ root' g (ring, same).
            let c : Ptr × D = ((blocks 0).address, d) in
            let unowned = λ (i : ℕ).
              Ring-not-owned h root xs (blocks (suc i)).address is (fresh.unused (suc i)) in
            let other = λ (i : ℕ) (e : (blocks (suc i)).address ≡ (blocks 0).address).
              fresh.different (suc i) 0 e in
            Returns.mono
              (append_loop-placed ds (λ i. blocks (suc i)) g root' (xs ++ c ∷ []) ring
                (record {
                  not_null = λ i. fresh.not_null (suc i);
                  unused = λ i.
                      same (blocks (suc i)).address (
                        rw (
                          owns-append,
                          unowned i,
                          ne→== (blocks (suc i)).address (blocks 0).address
                              (λ e. absurd (omega (arith, other i e))),
                        ))
                      ∙ fresh.unused (suc i);
                  different = λ i j e. omega (arith, fresh.different (suc i) (suc j) e);
                }))
              λ r g' ring'. rw append_assoc at ring'
      ]

  pub recv_ring_udp-image :
      (g : Heap (Item D)) (xs : Cells D) (blocks : ℕ → Block (Item D))
      → IsFresh g blocks
      → Returns
          (λ (result', root') g'. (result' ≡ pos 0) × IsRing g' root' (placed blocks (contents xs)))
          (recv_ring_udp blocks (some (image xs).size) (image xs).array null g)
  unfolding recv_ring_udp
  recv_ring_udp-image g [] blocks fresh = returns (refl, (refl, tt))
  recv_ring_udp-image g (c ∷ cs) blocks fresh = rw (ne→== (suc (length cs)) 0 (omega arith)) (
      Returns.bind
        (subst
          (λ n.
            Returns (λ root' g'. IsRing g' root' (placed blocks (contents (c ∷ cs))))
              (append_loop n (contents (c ∷ cs)) blocks null g))
          (length-contents (c ∷ cs))
          (append_loop-placed (contents (c ∷ cs)) blocks g null [] (refl, tt) fresh))
        λ root' g' ring. returns (refl, ring))

  -- What the gateway sends of its well-formed ring by `send_ring_udp`, a peer with an empty
  -- list receives by `recv_ring_udp`: a ring with the same data in the same order, whatever
  -- new addresses its nodes get; both return 0, and the gateway's ring is unchanged. The fuel
  -- is at least the number of nodes.
  pub recv_ring_udp-send_ring_udp :
      (fuel : ℕ) (h g : Heap (Item D)) (root : Ptr) (xs : Cells D) (blocks : ℕ → Block (Item D))
      → IsRing h root xs
      → length xs ≤ fuel
      → IsFresh g blocks
      → Returns
          (λ (result, message) h'.
            (result ≡ pos 0)
            × (h' ≡ h)
            × Returns
                (λ (result', root') g'.
                  (result' ≡ pos 0)
                  × (ys : Cells D) × IsRing g' root' ys
                  × (contents ys ≡ contents xs))
                (recv_ring_udp blocks (some message.size) message.array null g))
          (send_ring_udp true fuel root h)
  recv_ring_udp-send_ring_udp fuel h g root xs blocks is enough fresh =
      rw (send_ring_udp-image true fuel h root xs is enough) (
        returns (
          result_sent xs,
          refl,
          Returns.mono (recv_ring_udp-image g xs blocks fresh) λ (result', root') g' (e, ring).
              (e, placed blocks (contents xs), ring, contents-placed blocks (contents xs)),
        ))
    where
      result_sent : (xs : Cells D) → result_of true xs ≡ pos 0
      result_sent [] = refl
      result_sent (c ∷ cs) = refl
