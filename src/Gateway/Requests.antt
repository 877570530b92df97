-- ===== src/Gateway/Requests.antt =====
-- What each request of a peer does to the gateway.
use psis_project.Base.{
  negsuc, ℕ, ◌+◌, ◌%◌, ◌^◌, ◌≡◌, ◌≢◌, ◌<◌, ◌≤◌, refl, sym, ◌∙◌, ap, pos, Bool, true, false, none,
  List, [], ◌∷◌, ◌++◌, length, arith, inl, inr,
}
use mathlib.Core.List.{append_assoc, append-nil}
use psis_project.Machine.{ok, Cmd, pure, ◌>>◌}
use psis_project.Machine.Returns
use psis_project.Machine.Returns.{Returns, returns}
use psis_project.Heap.{Ptr, null, Heap, Block}
use psis_project.Cells.{Cells}
use psis_project.Ring.{Item}
use psis_project.Ring.Chain.{IsRing}
use psis_project.Text.{print_peer}
use psis_project.Msgs.{DataR, data_r, MessageGw, equal_data_r}
use psis_project.Gateway.{
  peer_request, peer_dispatch, Source, Sent, peers, photo_id_to, Gateway, Answers, lock, unlock,
  print_peers, register, leave, fetch_id,
}
use psis_project.Base.{length-append}
use psis_project.Cells.{length-erase-le}
use psis_project.Ring.Walk.{ring_print-printed}
use psis_project.Ring.Push.{ring_append-Appended}
use psis_project.Msgs.Transfer.{image, result_of, send_ring_udp-image}
use psis_project.Gateway.{is_error}
use psis_project.Msgs.Network.{IsDecided, removed}
use psis_project.Gateway.Broadcast.{notices, mentions, broadcast_peers-notices}
use psis_project.Gateway.Prune.{
  with_list, remove_peer-removed, survivors, prune-survivors, length-survivors-le,
}

-- The list holds the peers `xs`, and no thread holds the mutex.
pub record IsServing (s : Gateway) (xs : Cells DataR) : Type 0 where
  pub ring : IsRing s.heap s.peer_list xs
  pub free : s.list_lock ≡ false

-- The state that serves another list, with messages sent.
abbrev pub serving : Gateway → Heap (Item DataR) → Ptr → List Sent → Gateway
serving s h p sent = record s { heap = h; peer_list = p; list_lock = false; out = s.out ++ sent }

module _ (fuel : ℕ) (net : Answers) where
  pub print_peers-free :
      (s : Gateway) (xs : Cells DataR)
      → IsRing s.heap s.peer_list xs
      → s.list_lock ≡ false
      → length xs ≤ fuel
      → print_peers fuel net s ≡ ok tt (record s { list_lock = false })
  unfolding print_peers lock unlock
  print_peers-free s xs is free enough =
      rw (free, ring_print-printed fuel s.heap s.peer_list xs is enough)

pub is_error-sent :
    (b : Bool) {D : Type 0} (xs : Cells D) → b ≡ true → is_error (result_of b xs) ≡ false
is_error-sent b [] e = refl
is_error-sent b (c ∷ cs) e = rw e

module _ (fuel : ℕ) (net : Answers) (decided : IsDecided net.connect) where
  -- `connection_peer` for a peer that leaves (type -1): the first entry with its address and
  -- port is taken out of the list, and then every peer that is still in it and online is told
  -- once, in the order of the list; the mutex is free again. (The list is well formed, the
  -- mutex was free, each `connect` reaches a peer, with a descriptor other than 0, or is
  -- refused, and the fuel is at least the number of peers.)
  pub leave-removed :
      (s : Gateway) (xs : Cells DataR) (buff : MessageGw) (from : Source)
      → IsServing s xs
      → length xs ≤ fuel
      → let left = removed (data_r from.ip buff.port) xs in
        (h : Heap (Item DataR)) × (p : Ptr) × (leave fuel net buff from s
          ≡ ok tt (serving s h p (notices net (print_peer from.ip buff.port) (pos 12) left)))
        × IsRing h p left
  unfolding leave lock unlock
  leave-removed s xs buff from is enough =
      let k = data_r from.ip buff.port in
      let (h, p, run, ring) =
        remove_peer-removed fuel net (record s { list_lock = true }) xs k is.ring enough in
      let s1 = record (with_list s h p) { list_lock = false } in
      let few : length (removed k xs) ≤ fuel = omega (arith, length-erase-le equal_data_r k xs) in
      (
        h,
        p,
        rw (
          is.free,
          run,
          print_peers-free fuel net s1 (removed k xs) ring refl few,
          broadcast_peers-notices net decided (print_peer from.ip buff.port) (pos 12) none fuel s1
              (removed k xs) ring refl (nobody (removed k xs)) few,
        ),
        ring,
      )
    where
      nobody : (xs : Cells DataR) → mentions none xs ≡ false
      nobody [] = refl
      nobody (c ∷ cs) = nobody cs

  -- `connection_peer` for a new peer (type 0): the peer is appended to the list; then every
  -- other peer that does not answer is taken out, and the new peer is sent the list that is
  -- left, in its order and with itself at its end; the mutex is free again. (The list is well
  -- formed, the mutex was free, `malloc` gives a new address, the network takes the list, each
  -- `connect` reaches a peer, with a descriptor other than 0, or is refused, and the fuel
  -- exceeds the number of peers.)
  pub register-survivors :
      (s : Gateway) (xs : Cells DataR) (block : Block (Item DataR)) (buff : MessageGw)
      (from : Source)
      → IsServing s xs
      → block.address ≢ null
      → s.heap block.address ≡ none
      → net.list_sent ≡ true
      → length xs < fuel
      → let ys = survivors net (xs ++ (block.address, data_r from.ip buff.port) ∷ []) in
        (h : Heap (Item DataR)) × (p : Ptr) × (register fuel net block buff from s
          ≡ ok tt (serving s h p (peers from (image ys) ∷ [])))
        × IsRing h p ys
  unfolding register lock unlock
  register-survivors s xs block buff from is ne unused sent enough =
      elim (ring_append-Appended s.heap s.peer_list xs block (data_r from.ip buff.port) is.ring
        unused) [
          | inl (none_left, _) ↦ absurd (ne none_left)
          | inr pushed ↦
              let c : Ptr × DataR = (block.address, data_r from.ip buff.port) in
              let ys = survivors net (xs ++ c ∷ []) in
              let (p1, h1, run1, (ring1, _)) = Returns.outcome pushed in
              let s1 = record (with_list s h1 p1) { list_lock = true } in
              let (h, p, run, ring) = prune-survivors fuel net decided s1 xs c ring1 enough in
              let few : length ys ≤ fuel =
                omega
                  (arith, length-survivors-le net (xs ++ c ∷ []), length-append {0} xs (c ∷ [])) in
              let s2 = serving s h p (peers from (image ys) ∷ []) in
              (
                h,
                p,
                rw
                    (
                      is.free,
                      run1,
                      run,
                      send_ring_udp-image net.list_sent fuel h p ys ring few,
                      is_error-sent net.list_sent ys sent,
                    )
                    (print_peers-free fuel net s2 ys ring refl few),
                ring,
              )
        ]

-- The type of the message chooses the handler.
pub dispatch-leave :
    (fuel : ℕ) (net : Answers) (block : Block (Item DataR)) (old : DataR) (buff : MessageGw)
    (from : Source) (s : Gateway)
    → buff.type ≡ negsuc 0
    → peer_request fuel net block old buff from s ≡ leave fuel net buff from s
unfolding peer_request peer_dispatch
dispatch-leave fuel net block old buff from s is_leave = rw is_leave refl

-- The ids that a row of requests gets, from the last one that was given.
abbrev pub numbered : ℕ → List Source → List Sent
numbered last_id [] = []
numbered last_id (f ∷ fs) = photo_id_to f (last_id + 1) ∷ numbered (last_id + 1) fs

-- A row of requests for ids.
abbrev pub fetch_ids : List Source → Cmd Gateway (Unit {0})
fetch_ids [] = pure tt
fetch_ids (f ∷ fs) = fetch_id f >> fetch_ids fs

-- A row of requests for photo ids (type 1) is answered with the ids that follow the last one
-- given, each one more than the one before, and `photo_id` ends at the last of them. (They fit
-- 32 bits.)
pub fetch_ids-numbered :
    (s : Gateway) (froms : List Source)
    → s.photo_id + length froms < 2 ^ 32
    → fetch_ids froms s
      ≡ ok tt (record s {
        photo_id = s.photo_id + length froms;
        out = s.out ++ numbered s.photo_id froms;
      })
unfolding fetch_id
fetch_ids-numbered s [] small =
    let p : s.photo_id ≡ s.photo_id + 0 = omega arith in
    let q : s.out ≡ s.out ++ [] = sym (append-nil s.out) in
    λ i. ok tt (record s { photo_id = p i; out = q i })
fetch_ids-numbered s (f ∷ fs) small =
    let next : (s.photo_id + 1) % 2 ^ 32 ≡ s.photo_id + 1 = omega arith in
    let s1 = record s {
      photo_id = s.photo_id + 1;
      out = s.out ++ photo_id_to f (s.photo_id + 1) ∷ [];
    } in
    let total : s1.photo_id + length fs ≡ s.photo_id + length (f ∷ fs) = omega arith in
    let sent =
      append_assoc s.out (photo_id_to f (s.photo_id + 1) ∷ []) (numbered (s.photo_id + 1) fs) in
    ap (λ n. fetch_ids fs (record s { photo_id = n; out = s.out ++ photo_id_to f n ∷ [] })) next
    ∙ fetch_ids-numbered s1 fs (omega arith)
    ∙ (λ i. ok tt (record s { photo_id = total i; out = sent i }))
