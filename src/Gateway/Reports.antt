-- ===== src/Gateway/Reports.antt =====
-- What the report of a peer about another one does to the gateway.
use psis_project.Base.{ℕ, ◌≡◌, ◌≤◌, refl, ◌∙◌, subst, pos, true, false, some, ◌∷◌, length, arith}
use psis_project.Machine.{ok, out_of_fuel}
use psis_project.Heap.{Ptr, Heap}
use psis_project.Cells.{Cells}
use psis_project.Ring.{Item}
use psis_project.Ring.Chain.{IsRing}
use psis_project.Text.{scan_peer}
use psis_project.Msgs.{DataR, data_r, MessageGw, equal_data_r}
use psis_project.Gateway.{Source, Gateway, Answers, lock, unlock, excluded, broadcast_peers, report}
use psis_project.Cells.{length-erase-le}
use psis_project.Msgs.Network.{IsDecided, removed}
use psis_project.Gateway.Broadcast.{
  notices, mentions, broadcast_peers-notices, broadcast_peers-stuck,
}
use psis_project.Gateway.Prune.{with_list, remove_peer-removed}
use psis_project.Gateway.Requests.{IsServing, serving, print_peers-free}

-- The peer that a report names.
abbrev pub reported : DataR → MessageGw → DataR
reported old buff = let k = scan_peer buff.addr (old.addr, old.port) in data_r k.0 k.1

module _ (fuel : ℕ) (net : Answers) (decided : IsDecided net.connect) where
  -- Behind the removal that a report asks for, the list goes to `broadcastPeers`.
  report-removed :
      (s : Gateway) (xs : Cells DataR) (old : DataR) (buff : MessageGw) (from : Source)
      → IsServing s xs
      → length xs ≤ fuel
      → (h : Heap (Item DataR)) × (p : Ptr) × (report fuel net old buff from s
          ≡ broadcast_peers fuel net buff.addr
              (pos 12)
              (some (data_r from.ip buff.port))
              (record (with_list s h p) { list_lock = false }))
        × IsRing h p (removed (reported old buff) xs)
  unfolding report lock unlock
  report-removed s xs old buff from is enough =
      let k = reported old buff in
      let (h, p, run, ring) =
        remove_peer-removed fuel net (record s { list_lock = true }) xs k is.ring enough in
      let s1 = record (with_list s h p) { list_lock = false } in
      let few : length (removed k xs) ≤ fuel = omega (arith, length-erase-le equal_data_r k xs) in
      (h, p, rw (is.free, run, print_peers-free fuel net s1 (removed k xs) ring refl few), ring)

  -- A peer that is not in the list itself reports another one (type -2): that one is taken out
  -- of the list, all that are left and online are told once, in the order of the list, and the
  -- mutex is free again. (The list is well formed, the mutex was free, each `connect` reaches
  -- a peer, with a descriptor other than 0, or is refused, and the fuel is at least the number
  -- of peers.)
  pub report-told :
      (s : Gateway) (xs : Cells DataR) (old : DataR) (buff : MessageGw) (from : Source)
      → IsServing s xs
      → length xs ≤ fuel
      → mentions (some (data_r from.ip buff.port)) (removed (reported old buff) xs) ≡ false
      → (h : Heap (Item DataR)) × (p : Ptr) × (report fuel net old buff from s
          ≡ ok tt (serving s h p (notices net buff.addr (pos 12) (removed (reported old buff) xs))))
        × IsRing h p (removed (reported old buff) xs)
  report-told s xs old buff from is enough absent =
      let (h, p, run, ring) = report-removed s xs old buff from is enough in
      let left = removed (reported old buff) xs in
      let few : length left ≤ fuel =
        omega (arith, length-erase-le equal_data_r (reported old buff) xs) in
      let s1 = record (with_list s h p) { list_lock = false } in
      let sender = some (data_r from.ip buff.port) in
      (
        h,
        p,
        run
            ∙ broadcast_peers-notices net decided buff.addr (pos 12) sender fuel s1 left ring refl
                absent few,
        ring,
      )

  -- A peer reports another one (type -2) and is itself, when that one has been taken out, in
  -- the list that is left and not at its root: the handler does not come back, whatever fuel
  -- of at least the number of peers it is given. (The list is well formed, the mutex was free,
  -- and each `connect` reaches a peer, with a descriptor other than 0, or is refused.)
  pub report-stuck :
      (s : Gateway) (xs : Cells DataR) (old : DataR) (buff : MessageGw) (from : Source)
      (c : Ptr × DataR) (cs : Cells DataR)
      → IsServing s xs
      → length xs ≤ fuel
      → removed (reported old buff) xs ≡ c ∷ cs
      → excluded (some (data_r from.ip buff.port)) c.1 ≡ false
      → mentions (some (data_r from.ip buff.port)) cs ≡ true
      → report fuel net old buff from s ≡ out_of_fuel
  report-stuck s xs old buff from c cs is enough left other met =
      let (h, p, run, ring) = report-removed s xs old buff from is enough in
      let s1 = record (with_list s h p) { list_lock = false } in
      let sender = some (data_r from.ip buff.port) in
      run
      ∙ broadcast_peers-stuck net decided buff.addr (pos 12) sender fuel s1 c cs
          (subst (IsRing h p) left ring) refl other met
