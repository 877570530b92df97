-- ===== src/Gateway/Serving.antt =====
-- Rows of requests of peers and clients to the gateway, one after the other, and the states that they
-- lead to.
use psis_project.Base.{
  ◌%◌, ◌^◌, ℕ, zero, suc, ◌≡◌, ◌≢◌, ◌<◌, ◌≤◌, refl, sym, ◌∙◌, ap, subst, pos, negsuc, true, false,
  none, some, [], ◌∷◌, ◌++◌, length, arith,
}
use psis_project.Machine.{Run, ok, exited, fault, blocked, out_of_fuel}
use psis_project.Heap.{Ptr, null, Block}
use psis_project.Cells.{Cells, first}
use psis_project.Ring.{Item}
use psis_project.Ring.Chain.{IsRing}
use psis_project.Msgs.{DataR, data_r, MessageGw}
use psis_project.Msgs.Network.{IsDecided, online, removed}
use psis_project.Gateway.{
  Source, Gateway, Answers, reply, peer_dispatch, peer_request, client_request, fetch_id,
}
use psis_project.Gateway.Broadcast.{mentions}
use psis_project.Gateway.Prune.{survivors}
use psis_project.Gateway.Requests.{IsServing, leave-removed, register-survivors}
use psis_project.Gateway.Reports.{reported, report-told}
use psis_project.Gateway.Clients.{next_peer, client_request-next}

module _ (fuel : ℕ) (net : Answers) where
  -- One request, and what it makes of the list of peers and of the last id.
  pub data Step (s : Gateway) (xs : Cells DataR) : Gateway → Cells DataR → Type 0 where
    entered :
        (t : Gateway) (block : Block (Item DataR)) (old : DataR) (buff : MessageGw) (from : Source)
        → buff.type ≡ pos 0
        → block.address ≢ null
        → s.heap block.address ≡ none
        → net.list_sent ≡ true
        → length xs < fuel
        → peer_request fuel net block old buff from s ≡ ok tt t
        → Step s xs t (survivors net (xs ++ (block.address, data_r from.ip buff.port) ∷ []))
    left :
        (t : Gateway) (block : Block (Item DataR)) (old : DataR) (buff : MessageGw) (from : Source)
        → buff.type ≡ negsuc 0
        → length xs ≤ fuel
        → peer_request fuel net block old buff from s ≡ ok tt t
        → Step s xs t (removed (data_r from.ip buff.port) xs)
    lost :
        (t : Gateway) (block : Block (Item DataR)) (old : DataR) (buff : MessageGw) (from : Source)
        → buff.type ≡ negsuc 1
        → length xs ≤ fuel
        → mentions (some (data_r from.ip buff.port)) (removed (reported old buff) xs) ≡ false
        → peer_request fuel net block old buff from s ≡ ok tt t
        → Step s xs t (removed (reported old buff) xs)
    numbered :
        (t : Gateway) (block : Block (Item DataR)) (old : DataR) (buff : MessageGw) (from : Source)
        → buff.type ≡ pos 1
        → peer_request fuel net block old buff from s ≡ ok tt t
        → Step s xs t xs
    served :
        (t : Gateway) (c : Ptr × DataR) (cs : Cells DataR) (buff : MessageGw) (from : Source)
        → xs ≡ c ∷ cs
        → 0 < fuel
        → online net.connect (next_peer c cs) ≡ true
        → net.reply_sent ≡ true
        → client_request fuel net buff from s ≡ ok tt t
        → Step s xs t (cs ++ c ∷ [])

-- A row of requests. The network answers anew at each of them.
pub data Reach (s : Gateway) (xs : Cells DataR) : Gateway → Cells DataR → Type 0 where
  start : Reach s xs s xs
  later :
      (fuel : ℕ) (net : Answers) {t u : Gateway} {ys zs : Cells DataR}
      → Reach s xs t ys
      → IsDecided net.connect
      → Step fuel net t ys u zs
      → Reach s xs u zs

-- The state that a run ends in, `s` where it does not end with a result.
abbrev ends_in : Gateway → Run Gateway (Unit {0}) → Gateway
ends_in s (ok a t) = t
ends_in s (exited code t) = s
ends_in s fault = s
ends_in s blocked = s
ends_in s out_of_fuel = s

-- A run that ends in a state that serves `ys` ends in no other one.
ends-IsServing :
    (s t : Gateway) (r : Run Gateway (Unit {0})) (ys : Cells DataR) (u : Gateway)
    → r ≡ ok tt t
    → r ≡ ok tt u
    → IsServing u ys
    → IsServing t ys
ends-IsServing s t r ys u e q is = subst (λ v. IsServing v ys) (ap (ends_in s) (sym q ∙ e)) is

module _ (fuel : ℕ) (net : Answers) (decided : IsDecided net.connect) where
  served_next :
      (rounds : ℕ) (s : Gateway) (c : Ptr × DataR) (cs : Cells DataR) (buff : MessageGw)
      (from : Source)
      → IsServing s (c ∷ cs)
      → 0 < rounds
      → online net.connect (next_peer c cs) ≡ true
      → net.reply_sent ≡ true
      → let k = next_peer c cs in
        let p = first cs c.0 in
        (client_request rounds net buff from s
          ≡ ok tt (record s {
            peer_list = p;
            list_lock = false;
            out =
                s.out
                ++ reply from (record { type = pos 0; addr = k.addr; port = k.port % 2 ^ 16 }) ∷ [];
          }))
        × IsRing s.heap p (cs ++ c ∷ [])
  served_next zero s c cs buff from is some_fuel up sent = absurd (omega (arith, some_fuel))
  served_next (suc rounds) s c cs buff from is some_fuel up sent =
      client_request-next rounds net decided s c cs buff from is up sent

  Step-IsServing :
      {s t : Gateway} {xs ys : Cells DataR}
      → Step fuel net s xs t ys
      → IsServing s xs
      → IsServing t ys
  unfolding peer_request peer_dispatch fetch_id
  Step-IsServing {s} {xs = xs} (entered t block old buff from kind ne unused sent enough e) is =
      let (h, p, run, ring) =
        register-survivors fuel net decided s xs block buff from is ne unused sent enough in
      ends-IsServing s t _ _ _ e
        (ap (λ k. peer_dispatch fuel net k block old buff from s) kind ∙ run)
        (record { ring = ring; free = refl })
  Step-IsServing {s} {xs = xs} (left t block old buff from kind enough e) is =
      let (h, p, run, ring) = leave-removed fuel net decided s xs buff from is enough in
      ends-IsServing s t _ _ _ e
        (ap (λ k. peer_dispatch fuel net k block old buff from s) kind ∙ run)
        (record { ring = ring; free = refl })
  Step-IsServing {s} {xs = xs} (lost t block old buff from kind enough absent e) is =
      let (h, p, run, ring) = report-told fuel net decided s xs old buff from is enough absent in
      ends-IsServing s t _ _ _ e
        (ap (λ k. peer_dispatch fuel net k block old buff from s) kind ∙ run)
        (record { ring = ring; free = refl })
  Step-IsServing {s} {xs = xs} (numbered t block old buff from kind e) is =
      ends-IsServing s t _ _ _ e (ap (λ k. peer_dispatch fuel net k block old buff from s) kind)
        (record { ring = is.ring; free = is.free })
  Step-IsServing {s} {xs = xs} (served t c cs buff from same some_fuel up sent e) is =
      let (run, ring) =
        served_next fuel s c cs buff from (subst (IsServing s) same is) some_fuel up sent in
      ends-IsServing s t _ _ _ e run (record { ring = ring; free = refl })

-- After any row of requests of peers (entering, leaving, reporting another peer, asking for an
-- id) and of clients, the gateway's list is well formed, the mutex is free, and the peers in the
-- list are the ones that the requests one after the other make of those before. What the network
-- answers, and the fuel, are given anew at each request. (Each step comes to its end, and in it
-- `malloc` gives a new address and the network takes what is sent where a peer enters, the
-- sender of a report is not in the list that is left, and the next peer answers where a client
-- asks; the fuel exceeds the number of peers; each `connect` reaches a peer, with a descriptor
-- other than 0, or is refused.)
pub Reach-IsServing :
    {s : Gateway} {xs : Cells DataR} {t : Gateway} {ys : Cells DataR}
    → Reach s xs t ys
    → IsServing s xs
    → IsServing t ys
Reach-IsServing start is = is
Reach-IsServing (later fuel net row decided step) is =
    Step-IsServing fuel net decided step (Reach-IsServing row is)
