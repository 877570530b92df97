-- ===== src/Gateway/Races.antt =====
-- Two interleavings of the threads of the gateway that go wrong.
use psis_project.Base.{
  ℕ, ◌≡◌, ◌≢◌, ◌<◌, ◌≤◌, refl, ap, ◌∙◌, subst, Bool-cases, pos, negsuc, true, false, some, none, [],
  ◌∷◌, ◌++◌, length, length-append, arith, inl, inr, ne→==,
}
use psis_project.Machine.{ok, fault}
use psis_project.Machine.Returns
use psis_project.Heap.{Ptr, null, load, load-ok}
use psis_project.Cells.{Cells, first}
use psis_project.Ring.Chain.{IsRing}
use psis_project.Ring.Push.{ring_append-Appended}
use psis_project.Msgs.{DataR, data_r, MessageGw, equal_data_r}
use psis_project.Msgs.Network.{IsDecided, online, is_online-online}
use psis_project.Msgs.Transfer.{image, send_ring_udp-image}
use psis_project.Text.{print_peer}
use psis_project.Gateway.{Source, peers, Gateway, Answers, lock, unlock}
use psis_project.Gateway.Prune.{
  remove_peer-removed, prune-survivors, answering, survivors-snoc, length-answering-le,
}
use psis_project.Gateway.Requests.{IsServing, is_error-sent}
use psis_project.Gateway.Clients.{next_peer, next-node, at_root, turned}
use psis_project.Gateway.Threads.{
  Request, peer_waiting, pruning, printing, testing, turning, replying, receive, peer_section,
  client_section,
}

load-null : (s : Gateway) → load null s.heap ≡ fault
unfolding load
load-null s = refl

module _ (fuel : ℕ) (net : Answers) where
  -- A race of the two threads: the thread of the clients has found the list not empty, and
  -- before it takes the mutex the only peer leaves. Then the list is empty, and the thread of
  -- the clients follows `NULL`. (The list is well formed with this one peer, the mutex was
  -- free, and there is fuel for one round.)
  pub emptied-fault :
      (s : Gateway) (c : Ptr × DataR) (r : Request) (buff answer : MessageGw) (from to : Source)
      → IsServing s (c ∷ [])
      → r.buff.type ≡ negsuc 0
      → equal_data_r c.1 (data_r r.from.ip r.buff.port) ≡ true
      → 0 < fuel
      → (t : Gateway) × (client_section fuel net buff from (testing answer to) s
          ≡ ok (turning answer to) s)
        × (peer_section fuel net r peer_waiting s
            ≡ ok (printing (some (print_peer r.from.ip r.buff.port, none))) t)
        × IsServing t []
        × (client_section fuel net buff from (turning answer to) t ≡ fault)
  unfolding client_section peer_section receive lock unlock
  emptied-fault s c r buff answer from to is leaves itself enough =
      let (root_ne, b, root_holds) = at_root s.heap s.peer_list c [] is.ring in
      let k = data_r r.from.ip r.buff.port in
      let (h, p, run, ring) =
        remove_peer-removed fuel net (record s { list_lock = true }) (c ∷ []) k is.ring
          (omega arith) in
      let gone : IsRing h p [] = rw itself at ring in
      let t = record s { heap = h; peer_list = p; list_lock = false } in
      (
        t,
        rw (ne→== s.peer_list null root_ne) refl,
        rw (leaves, is.free, run) refl,
        record { ring = gone; free = refl },
        rw (gone.0, load-null t) refl,
      )

-- A peer that does not answer is not among those that do.
answering-snoc :
    (net : Answers) (cs : Cells DataR) (c : Ptr × DataR)
    → online net.connect c.1 ≡ false
    → answering net (cs ++ c ∷ []) ≡ answering net cs
answering-snoc net [] c silent = rw silent refl
answering-snoc net (x ∷ xs) c silent = elim (Bool-cases (online net.connect x.1)) [
  | inl up ↦ rw up (ap (λ r. x ∷ r) (answering-snoc net xs c silent))
  | inr down ↦ rw down (answering-snoc net xs c silent)
]

module _ (fuel : ℕ) (net : Answers) (decided : IsDecided net.connect) where
  -- The section in front of the list that is sent, when the list ends with another peer than the new one.
  pruning-survivors :
      (s : Gateway) (ys : Cells DataR) (c : Ptr × DataR) (r : Request) (from : Source)
      → IsServing s (ys ++ c ∷ [])
      → net.list_sent ≡ true
      → length ys < fuel
      → let zs = answering net ys ++ c ∷ [] in
        (t : Gateway) × (peer_section fuel net r (pruning from) s ≡ ok (printing none) t)
        × IsServing t zs
        × (t.out ≡ s.out ++ peers from (image zs) ∷ [])
  unfolding peer_section lock unlock
  pruning-survivors s ys c r from is sent enough =
      let zs = answering net ys ++ c ∷ [] in
      let s1 = record s { list_lock = true } in
      let (h, p, run, ring) = prune-survivors fuel net decided s1 ys c is.ring enough in
      let ring' : IsRing h p zs = subst (IsRing h p) (survivors-snoc net ys c) ring in
      let size = length-append {0} (answering net ys) (c ∷ []) in
      let few : length zs ≤ fuel = omega (arith, size, length-answering-le net ys, enough) in
      (
        record s {
          heap = h;
          peer_list = p;
          list_lock = false;
          out = s.out ++ peers from (image zs) ∷ [];
        },
        rw
            (
              is.free,
              run,
              send_ring_udp-image net.list_sent fuel h p zs ring' few,
              is_error-sent net.list_sent zs sent,
            )
            refl,
        record { ring = ring'; free = refl },
        refl,
      )

  -- The turn of a client.
  turning-next :
      (s : Gateway) (c : Ptr × DataR) (cs : Cells DataR) (buff answer : MessageGw)
      (from to : Source)
      → IsServing s (c ∷ cs)
      → online net.connect (next_peer c cs) ≡ true
      → let k = next_peer c cs in
        (t : Gateway) × (client_section fuel net buff from (turning answer to) s
          ≡ ok (replying (record { type = pos 0; addr = k.addr; port = k.port }) to) t)
        × IsServing t (cs ++ c ∷ [])
        × (t.out ≡ s.out)
  unfolding client_section lock unlock
  turning-next s c cs buff answer from to is up =
      let (root_ne, b, root_holds) = at_root s.heap s.peer_list c cs is.ring in
      let (ne, q, b', holds) = next-node s.heap c cs is.ring.1 in
      let s1 = record s { peer_list = first cs c.0; list_lock = true } in
      let (fd, told, zero_iff) = is_online-online net.connect (next_peer c cs) s1 decided in
      (
        record s { peer_list = first cs c.0; list_lock = false },
        rw (is.free, load-ok s.heap root_ne root_holds, load-ok s.heap ne holds, told, zero_iff, up)
            refl,
        record { ring = turned s.heap c cs is.ring.1; free = refl },
        refl,
      )

  -- The first section for a new peer.
  receive-appended :
      (s : Gateway) (xs : Cells DataR) (r : Request)
      → IsServing s xs
      → r.buff.type ≡ pos 0
      → r.block.address ≢ null
      → s.heap r.block.address ≡ none
      → (t : Gateway) × (peer_section fuel net r peer_waiting s ≡ ok (pruning r.from) t)
        × IsServing t (xs ++ (r.block.address, data_r r.from.ip r.buff.port) ∷ [])
        × (t.out ≡ s.out)
  unfolding peer_section receive lock unlock
  receive-appended s xs r is enters ne unused =
      elim (ring_append-Appended s.heap s.peer_list xs r.block (data_r r.from.ip r.buff.port)
        is.ring unused) [
          | inl (none_left, _) ↦ absurd (ne none_left)
          | inr pushed ↦
              let (p, h, run, (ring, _)) = Returns.outcome pushed in
              (
                record s { heap = h; peer_list = p; list_lock = false },
                rw (enters, is.free, run) refl,
                record { ring = ring; free = refl },
                refl,
              )
        ]

  -- A race of the two threads: a client gets its turn between the section that appends a new
  -- peer and the one that prunes the list. The new peer is not the last one of the list then,
  -- and if it does not accept connections yet, it is taken out of the list, and the list that
  -- it is sent does not have it, but ends with the peer that was the root. (The list is well
  -- formed and has two peers or more, the mutex was free, `malloc` gives a new address, the
  -- peer behind the root is online, each `connect` reaches a peer, with a descriptor other
  -- than 0, or is refused, the network takes the list, and the fuel exceeds the number of
  -- peers.)
  pub entered-pruned :
      (s : Gateway) (c d : Ptr × DataR) (ds : Cells DataR) (r : Request) (buff answer : MessageGw)
      (from to : Source)
      → IsServing s (c ∷ d ∷ ds)
      → r.buff.type ≡ pos 0
      → r.block.address ≢ null
      → s.heap r.block.address ≡ none
      → online net.connect d.1 ≡ true
      → online net.connect (data_r r.from.ip r.buff.port) ≡ false
      → net.list_sent ≡ true
      → length (c ∷ d ∷ ds) < fuel
      → let zs = answering net (d ∷ ds) ++ c ∷ [] in
        (s1 s2 s3 : Gateway) × (peer_section fuel net r peer_waiting s ≡ ok (pruning r.from) s1)
        × (client_section fuel net buff from (turning answer to) s1
            ≡ ok (replying (record { type = pos 0; addr = d.1.addr; port = d.1.port }) to) s2)
        × (peer_section fuel net r (pruning r.from) s2 ≡ ok (printing none) s3)
        × IsServing s3 zs
        × (s3.out ≡ s.out ++ peers r.from (image zs) ∷ [])
  entered-pruned s c d ds r buff answer from to is enters ne unused up silent sent enough =
      let new : Ptr × DataR = (r.block.address, data_r r.from.ip r.buff.port) in
      let (s1, entered, is1, out1) = receive-appended s (c ∷ d ∷ ds) r is enters ne unused in
      let (s2, turns, is2, out2) =
        turning-next s1 c (d ∷ ds ++ new ∷ []) buff answer from to is1 up in
      let size = length-append {0} (d ∷ ds) (new ∷ []) in
      let (s3, sends, is3, out3) =
        pruning-survivors s2 (d ∷ ds ++ new ∷ []) c r r.from is2 sent (omega (arith, size)) in
      let gone = answering-snoc net (d ∷ ds) new silent in
      (
        s1,
        s2,
        s3,
        entered,
        turns,
        sends,
        subst (λ l. IsServing s3 (l ++ c ∷ [])) gone is3,
        subst (λ l. s3.out ≡ s.out ++ peers r.from (image (l ++ c ∷ [])) ∷ []) gone
            (out3
              ∙ ap
                  (λ o.
                    o ++ peers r.from (image (answering net (d ∷ ds ++ new ∷ []) ++ c ∷ [])) ∷ [])
                  (out2 ∙ out1)),
      )
