-- ===== src/Gateway/Sound.antt =====
-- What each section of the threads of gateway.c leaves behind.
use psis_project.Base.{
  ℕ, zero, suc, ◌≡◌, ◌≢◌, ◌<◌, ◌≤◌, refl, sym, ap, subst, ℤ, pos, negsuc, true, Option, none, some,
  [], ◌∷◌, ◌++◌, ◌==◌, if◌then◌else◌, length, length-append, arith, Bool-cases, inl, inr,
}
use psis_project.Machine.{Run, ok, exited, fault, blocked, out_of_fuel, Cmd, pure, and_then, ◌>>◌}
use psis_project.Machine.Returns
use psis_project.Heap.{Ptr, null, Heap, load, load-ok}
use psis_project.Cells.{Cells, first}
use psis_project.Ring.{Item}
use psis_project.Ring.Chain.{IsRing}
use psis_project.Ring.Push.{ring_append-Appended}
use psis_project.Text.{Text}
use psis_project.Msgs.{DataR, data_r, MessageGw}
use psis_project.Msgs.Network.{IsDecided, is_online-online}
use psis_project.Msgs.Transfer.{result_of, send_ring_udp-image}
use psis_project.Gateway.{
  Source, Gateway, Answers, lock, unlock, is_error, fetch_id, broadcast_loop, broadcast_peers,
  print_peers, remove_peer, prune_loop,
}
use psis_project.Gateway.Prune.{
  remove_peer-removed, survivors, prune-survivors, length-survivors-le,
}
use psis_project.Gateway.Requests.{IsServing, print_peers-free}
use psis_project.Gateway.Clients.{next_peer, next-node, at_root, turned}
use psis_project.Gateway.Threads.{
  Request, PeerPc, peer_waiting, pruning, printing, telling, ClientPc, client_waiting, testing,
  turning, replying, receive, peer_section, client_section,
}
use psis_project.Gateway.Quiet.{Sends, Quiet-if, broadcast_loop-Quiet}

-- The gateway's list is well formed, whatever peers it holds, and no thread holds the mutex.
abbrev pub IsSound : Gateway → Type 0
IsSound s = (xs : Cells DataR) × IsServing s xs

-- A run that ends with a result ends in a sound state.
abbrev pub Sound : {A : Type 0} → Run Gateway A → Type 0
Sound (ok a t) = IsSound t
Sound (exited code t) = Unit {0}
Sound fault = Unit {0}
Sound blocked = Unit {0}
Sound out_of_fuel = Unit {0}

-- A quiet run in a section of the mutex.
section-Sound :
    {A : Type 0} (s : Gateway) (xs : Cells DataR) (r : Run Gateway (Unit {0})) (pc : A)
    → IsRing s.heap s.peer_list xs
    → Sends s r
    → Sound (and_then (and_then r (λ _. unlock)) (λ _. pure pc))
unfolding unlock
section-Sound s xs (ok a t) pc ring (heap, root, held) = (
  xs,
  record {
    ring =
        subst (λ h. IsRing h t.peer_list xs) (sym heap)
          (subst (λ p. IsRing s.heap p xs) (sym root) ring);
    free = refl;
  },
)
section-Sound s xs (exited code t) pc ring quiet = tt
section-Sound s xs fault pc ring quiet = tt
section-Sound s xs blocked pc ring quiet = tt
section-Sound s xs out_of_fuel pc ring quiet = tt

-- `broadcastPeers` keeps the list, whatever it tells and whether it comes back.
broadcast_peers-Sound :
    {A : Type 0} (fuel : ℕ) (net : Answers) (message : Text) (type : ℤ) (exc : Option DataR)
    (pc : A) (s : Gateway)
    → IsSound s
    → Sound ((do broadcast_peers fuel net message type exc; pure pc) s)
unfolding broadcast_peers lock unlock
broadcast_peers-Sound fuel net message type exc pc s (xs, is) =
    let s1 = record s { list_lock = true } in
    let body : Cmd Gateway (Unit {0}) =
      if s.peer_list == null
      then pure tt
      else broadcast_loop net fuel s.peer_list message type exc in
    rw is.free (
      section-Sound s1 xs (body s1) pc is.ring (
        Quiet-if (s.peer_list == null) (pure tt)
          (broadcast_loop net fuel s.peer_list message type exc) (λ t. (refl, refl, refl))
          (broadcast_loop-Quiet net message type exc fuel s.peer_list) s1))

module _ (fuel : ℕ) (net : Answers) (s : Gateway) (xs : Cells DataR) (is : IsServing s xs) where
  print_peers-Sound :
      {A : Type 0} (pc : A) → length xs < fuel → Sound ((do print_peers fuel net; pure pc) s)
  print_peers-Sound pc enough =
      rw (print_peers-free fuel net s xs is.ring is.free (omega arith))
        (xs, record { ring = is.ring; free = refl })

  remove_peer-Sound :
      {A : Type 0} (k : DataR) (pc : A)
      → length xs < fuel
      → Sound ((do lock; remove_peer fuel net k; unlock; pure pc) s)
  unfolding lock unlock
  remove_peer-Sound k pc enough =
      let (h, p, run, ring) =
        remove_peer-removed fuel net (record s { list_lock = true }) xs k is.ring (omega arith) in
      rw (is.free, run) (_, record { ring = ring; free = refl })

  receive-Sound :
      (type : ℤ) (r : Request)
      → length xs < fuel
      → r.block.address ≢ null
      → s.heap r.block.address ≡ none
      → Sound (receive fuel net type r s)
  unfolding receive lock unlock fetch_id
  receive-Sound (pos zero) r enough ne unused =
      elim (ring_append-Appended s.heap s.peer_list xs r.block (data_r r.from.ip r.buff.port)
        is.ring unused) [
          | inl (none_left, _) ↦ absurd (ne none_left)
          | inr pushed ↦
              let (p, h, run, (ring, _)) = Returns.outcome pushed in
              rw (is.free, run) (_, record { ring = ring; free = refl })
        ]
  receive-Sound (pos (suc zero)) r enough ne unused =
      (xs, record { ring = is.ring; free = is.free })
  receive-Sound (pos (suc (suc n))) r enough ne unused = (xs, is)
  receive-Sound (negsuc zero) r enough ne unused = remove_peer-Sound _ _ enough
  receive-Sound (negsuc (suc zero)) r enough ne unused = remove_peer-Sound _ _ enough
  receive-Sound (negsuc (suc (suc n))) r enough ne unused = (xs, is)

snoc-view :
    (c : Ptr × DataR) (cs : Cells DataR)
    → (ys : Cells DataR) × (d : Ptr × DataR) × (c ∷ cs ≡ ys ++ d ∷ [])
snoc-view c [] = ([], c, refl)
snoc-view c (d ∷ ds) = let (ys, e, same) = snoc-view d ds in (c ∷ ys, e, ap (λ r. c ∷ r) same)

-- Without peers the loop follows `NULL`.
prune-empty :
    {A : Type 0} (fuel rounds : ℕ) (net : Answers) (s : Gateway) (p : Ptr)
    (k : Unit {0} → Cmd Gateway A)
    → p ≡ null
    → Sound (and_then (prune_loop fuel net rounds p s) k)
unfolding prune_loop load
prune-empty fuel zero net s p k e = tt
prune-empty fuel (suc rounds) net s p k e = rw e tt

pruning-Sound :
    (fuel : ℕ) (net : Answers) (decided : IsDecided net.connect) (s : Gateway) (xs : Cells DataR)
    (r : Request) (from : Source)
    → IsServing s xs
    → length xs < fuel
    → Sound (peer_section fuel net r (pruning from) s)
unfolding peer_section lock unlock
pruning-Sound fuel net decided s [] r from is enough =
    rw is.free (prune-empty fuel fuel net (record s { list_lock = true }) s.peer_list _ is.ring.0)
pruning-Sound fuel net decided s (c ∷ cs) r from is enough =
    let (ys, d, same) = snoc-view c cs in
    let s1 = record s { list_lock = true } in
    let ring1 = subst (IsRing s.heap s.peer_list) same is.ring in
    let size = length-append {0} ys (d ∷ []) in
    let total = ap length same in
    let zs = survivors net (ys ++ d ∷ []) in
    let (h, p, run, ring) =
      prune-survivors fuel net decided s1 ys d ring1 (omega (arith, size, total)) in
    let few : length zs ≤ fuel =
      omega (arith, size, total, length-survivors-le net (ys ++ d ∷ [])) in
    rw (is.free, run, send_ring_udp-image net.list_sent fuel h p zs ring few)
      (elim (Bool-cases (is_error (result_of net.list_sent zs))) [
        | inl failed_to_send ↦ rw failed_to_send tt
        | inr list_sent ↦ rw list_sent (zs, record { ring = ring; free = refl })
      ])

pub peer_section-Sound :
    (fuel : ℕ) (net : Answers) (decided : IsDecided net.connect) (s : Gateway) (xs : Cells DataR)
    (r : Request) (pc : PeerPc)
    → IsServing s xs
    → length xs < fuel
    → r.block.address ≢ null
    → s.heap r.block.address ≡ none
    → Sound (peer_section fuel net r pc s)
unfolding peer_section
peer_section-Sound fuel net decided s xs r peer_waiting is enough ne unused =
    receive-Sound fuel net s xs is r.buff.type r enough ne unused
peer_section-Sound fuel net decided s xs r (pruning from) is enough ne unused =
    pruning-Sound fuel net decided s xs r from is enough
peer_section-Sound fuel net decided s xs r (printing none) is enough ne unused =
    print_peers-Sound fuel net s xs is peer_waiting enough
peer_section-Sound fuel net decided s xs r (printing (some (message, exc))) is enough ne unused =
    print_peers-Sound fuel net s xs is (telling message exc) enough
peer_section-Sound fuel net decided s xs r (telling message exc) is enough ne unused =
    broadcast_peers-Sound fuel net message (pos 12) exc peer_waiting s (xs, is)

load-null : (h : Heap (Item DataR)) → load null h ≡ fault
unfolding load
load-null h = refl

turning-Sound :
    (fuel : ℕ) (net : Answers) (decided : IsDecided net.connect) (s : Gateway) (xs : Cells DataR)
    (buff answer : MessageGw) (from to : Source)
    → IsServing s xs
    → Sound (client_section fuel net buff from (turning answer to) s)
unfolding client_section lock unlock broadcast_peers
turning-Sound fuel net decided s [] buff answer from to is =
    rw (is.free, is.ring.0, load-null s.heap) tt
turning-Sound fuel net decided s (c ∷ cs) buff answer from to is =
    let (root_ne, b, root_holds) = at_root s.heap s.peer_list c cs is.ring in
    let (ne, q, b', holds) = next-node s.heap c cs is.ring.1 in
    let s1 = record s { peer_list = first cs c.0; list_lock = true } in
    let (fd, told, zero_iff) = is_online-online net.connect (next_peer c cs) s1 decided in
    rw (is.free, load-ok s.heap root_ne root_holds, load-ok s.heap ne holds, told)
      (elim (Bool-cases (fd == 0)) [
        | inl down ↦ rw down tt
        | inr up ↦ rw up (_, record { ring = turned s.heap c cs is.ring.1; free = refl })
      ])

pub client_section-Sound :
    (fuel : ℕ) (net : Answers) (decided : IsDecided net.connect) (s : Gateway) (xs : Cells DataR)
    (buff : MessageGw) (from : Source) (pc : ClientPc)
    → IsServing s xs
    → Sound (client_section fuel net buff from pc s)
unfolding client_section
client_section-Sound fuel net decided s xs buff from client_waiting is = (xs, is)
client_section-Sound fuel net decided s xs buff from (testing answer to) is = (xs, is)
client_section-Sound fuel net decided s xs buff from (turning answer to) is =
    turning-Sound fuel net decided s xs buff answer from to is
client_section-Sound fuel net decided s xs buff from (replying answer to) is =
    elim (Bool-cases net.reply_sent) [
      | inl sent ↦ rw sent (xs, record { ring = is.ring; free = is.free })
      | inr failed_to_send ↦ rw failed_to_send tt
    ]
