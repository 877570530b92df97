-- ===== src/Peer/Enter.antt =====
-- A peer enters the system: what the gateway sends it becomes its own list of peers.
use psis_project.Base.{
  ℕ, suc, ◌≤◌, ◌<◌, ◌≡◌, ◌≢◌, refl, sym, ◌∙◌, ap, subst, pos, Bool, true, false, some, List, [],
  ◌∷◌, ◌++◌, if◌then◌else◌, length, arith,
}
use psis_project.Machine.{ok, exited}
use psis_project.Machine.Returns
use psis_project.Heap.{IsFresh, Ptr, null, Heap, Block, load-ok}
use psis_project.Cells.{Cells, contents, first, last-snoc}
use psis_project.Ring.{Item, item}
use psis_project.Ring.Chain.{IsRing}
use psis_project.Ring.Circle.{Circle-rotate}
use psis_project.Ring.Walk.{ring_print-printed}
use psis_project.Msgs.{recv_ring_udp, DataR}
use psis_project.Msgs.Transfer.{image, placed, length-contents, recv_ring_udp-image}
use psis_project.Peer.{
  Peer, Answers, Sent, gateway_message, emit, port_of, lock_peers, unlock_peers, print_peers,
}
use psis_project.Peer.Connection.{join_system}

-- The last one of the received peers, at its own address.
placed-snoc :
    (blocks : ℕ → Block (Item DataR)) (ds : List DataR) (d : DataR)
    → (zs : Cells DataR) × (q : Ptr) × (placed blocks (ds ++ d ∷ []) ≡ zs ++ (q, d) ∷ [])
      × (contents zs ≡ ds)
placed-snoc blocks [] d = ([], (blocks 0).address, refl, refl)
placed-snoc blocks (e ∷ ds) d =
    let (zs, q, here, same) = placed-snoc (λ i. blocks (suc i)) ds d in
    (
      ((blocks 0).address, e) ∷ zs,
      q,
      ap (λ rest. ((blocks 0).address, e) ∷ rest) here,
      ap (λ rest. e ∷ rest) same,
    )

contents-snoc :
    (xs : Cells DataR) (c : Ptr × DataR) → contents (xs ++ c ∷ []) ≡ contents xs ++ c.1 ∷ []
contents-snoc [] c = refl
contents-snoc (x ∷ xs) c = ap (λ rest. x.1 ∷ rest) (contents-snoc xs c)

-- The root's predecessor is the last node.
before_root :
    (h : Heap (Item DataR)) (p : Ptr) (zs : Cells DataR) (c : Ptr × DataR)
    → IsRing h p (zs ++ c ∷ [])
    → (p ≢ null) × (k : DataR) × (n : Ptr) × (h p ≡ some (item k n c.0))
before_root h p [] c (e, ((ne, holds, _), _)) =
    (λ q. ne (sym e ∙ q), c.1, c.0, subst (λ a. h a ≡ some (item c.1 c.0 c.0)) (sym e) holds)
before_root h p (z ∷ zs) c (e, ((ne, holds, _), _)) =
    let n = first (zs ++ c ∷ []) z.0 in
    (
      λ q. ne (sym e ∙ q),
      z.1,
      n,
      subst (λ a. h a ≡ some (item z.1 n c.0)) (sym e)
          (subst (λ b. h z.0 ≡ some (item z.1 n b)) (last-snoc z.0 zs c) holds),
    )

pub sent_or_exit :
    (b : Bool) (m : Sent) (s : Peer)
    → b ≡ true
    → (if b then emit m else exited (pos 1)) s ≡ ok tt (record s { out = s.out ++ m ∷ [] })
sent_or_exit b m s e = rw e

module _ (fuel : ℕ) (net : Answers) where
  pub print_peers-free :
      (s : Peer) (xs : Cells DataR)
      → IsRing s.peers s.peer_list xs
      → s.peer_lock ≡ false
      → length xs ≤ fuel
      → print_peers fuel net s ≡ ok tt (record s { peer_lock = false })
  unfolding print_peers lock_peers unlock_peers
  print_peers-free s xs is free enough =
      rw (free, ring_print-printed fuel s.peers s.peer_list xs is enough)

  pub join_system_self :
      (s : Peer) (xs : Cells DataR) (c : Ptr × DataR) (blocks : ℕ → Block (Item DataR))
      → s.peer_list ≡ null
      → s.peer_lock ≡ false
      → IsFresh s.peers blocks
      → net.report_sent ≡ true
      → length xs < fuel
      → let m = image (xs ++ c ∷ []) in
        (h : Heap (Item DataR)) × (q : Ptr) × (zs : Cells DataR) × (join_system fuel net blocks
            (some m.size)
            m.array
            s
          ≡ ok tt (record s {
            peers = h;
            peer_list = q;
            peer_lock = false;
            out = s.out ++ gateway_message [] (port_of net) (pos 0) ∷ [];
          }))
        × IsRing h q ((q, c.1) ∷ zs)
        × (contents zs ≡ contents xs)
  unfolding join_system
  join_system_self s xs c blocks empty free fresh sent enough =
      let m = image (xs ++ c ∷ []) in
      let ((result, p), g, run, (good, ring)) =
        Returns.outcome (recv_ring_udp-image s.peers (xs ++ c ∷ []) blocks fresh) in
      let run' =
        subst (λ r. recv_ring_udp blocks (some m.size) m.array r s.peers ≡ ok (result, p) g)
          (sym empty) run in
      let (zs, q, here, same) = placed-snoc blocks (contents xs) c.1 in
      let ring' : IsRing g p (zs ++ (q, c.1) ∷ []) =
        subst (IsRing g p) (ap (placed blocks) (contents-snoc xs c) ∙ here) ring in
      let (ne, k, n, holds) = before_root g p zs (q, c.1) ring' in
      let turned : IsRing g q ((q, c.1) ∷ zs) =
        (refl, Circle-rotate g zs ((q, c.1) ∷ []) ring'.1) in
      let announced = gateway_message [] (port_of net) (pos 0) in
      let s1 = record s { peers = g; peer_list = q; out = s.out ++ announced ∷ [] } in
      let few : length ((q, c.1) ∷ zs) ≤ fuel =
        omega (arith, ap length same, length-contents xs, length-contents zs) in
      (
        g,
        q,
        zs,
        rw (
          sent_or_exit net.report_sent announced s sent,
          run',
          good,
          load-ok g ne holds,
          print_peers-free s1 ((q, c.1) ∷ zs) turned free few,
        ),
        turned,
        same,
      )
