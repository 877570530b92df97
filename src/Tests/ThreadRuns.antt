-- ===== src/Tests/ThreadRuns.antt =====
-- The threads of the gateway: clients in turn, an empty datagram, and interleavings.
use psis_project.Base.{
  ◌≡◌, refl, sym, pos, negsuc, true, none, some, List, [], ◌∷◌, ◌++◌, arith, inl,
}
use psis_project.Machine.{ok, fault}
use psis_project.Heap.{Heap, Block, write, load}
use psis_project.Ring.{Item, item, ring_append}
use psis_project.Text.{print_peer}
use psis_project.Msgs.{DataR, data_r, equal_data_r, accepted, is_online}
use psis_project.Msgs.Network.{IsDecided, AllOnline}
use psis_project.Msgs.Transfer.{image}
use psis_project.Gateway.{Gateway, Answers, peers, lock, unlock}
use psis_project.Gateway.Prune.{answering}
use psis_project.Gateway.Requests.{IsServing}
use psis_project.Gateway.Threads.{
  Request, peer_waiting, pruning, printing, client_waiting, testing, turning, replying, receive,
  peer_section, client_section,
}
use psis_project.Gateway.Sound.{IsSound}
use psis_project.Gateway.Interleaving.{
  IsEnough, peer_step, client_step, Interleaved, start, later, Interleaved-IsSound,
}
use psis_project.Gateway.Races.{emptied-fault, entered-pruned}
use psis_project.Gateway.Process.{
  Datagram, recv_message, recv_empty, PeerDatagram, Setup, client_loop, connection_peer,
  connection_peer-repeated,
}
use psis_project.Gateway.Fairness.{Asking, asking, handed, client_loop-handed}
use psis_project.Tests.GatewayRuns.{
  addr, net, decided, s, xs, k1, k2, k3, request, block, from_k3, unused, s-IsServing, stranger,
}

-- All peers answer.
abbrev all_up : Answers
all_up = record { connect = λ k. accepted 4; list_sent = true; reply_sent = true }

all_up-IsDecided : IsDecided all_up.connect
all_up-IsDecided k = inl (3, refl)

abbrev a_client : Asking
a_client = record { message = request; source = stranger; net = all_up }

abbrev clients : List Asking
clients = a_client ∷ a_client ∷ a_client ∷ []

client_loop-handed_example :
    client_loop 1 (asking clients) request from_k3 s
    ≡ ok tt (record s { out = handed clients (k3 ∷ k2 ∷ k1 ∷ []) })
client_loop-handed_example =
    let up : AllOnline all_up.connect xs = (refl, (refl, (refl, tt))) in
    client_loop-handed 0 s (10, k1) ((20, k3) ∷ (30, k2) ∷ []) clients request from_k3 s-IsServing
      (all_up-IsDecided, up, refl, (all_up-IsDecided, up, refl, (all_up-IsDecided, up, refl, tt)))

abbrev leaving : Request
leaving = record {
  buff = record { type = negsuc 0; addr = []; port = 3003 };
  from = from_k3;
  block = block;
  old = data_r [] 0;
}

abbrev setup : Setup
setup = record { socket_made = true; bound = true }

abbrev datagram : Datagram → PeerDatagram
datagram d = record { datagram = d; net = net; block = block; old = data_r [] 0 }

connection_peer-repeated_example :
    let first = datagram (recv_message leaving.buff from_k3) in
    connection_peer 4 setup (first ∷ datagram (recv_empty stranger) ∷ []) request from_k3
    ≡ connection_peer 4 setup
        (first ∷ datagram (recv_message leaving.buff stranger) ∷ [])
        request
        from_k3
connection_peer-repeated_example =
    connection_peer-repeated 4 setup [] leaving.buff from_k3 stranger
      (datagram (recv_message leaving.buff from_k3)) (datagram (recv_empty stranger)) [] request
      from_k3 refl refl

-- A new peer that does not listen yet.
abbrev entering : Request
entering = record {
  buff = record { type = pos 0; addr = []; port = 3002 };
  from = stranger;
  block = block;
  old = data_r [] 0;
}

entered-pruned_example :
    let zs = answering net ((20, k3) ∷ (30, k2) ∷ []) ++ (10, k1) ∷ [] in
    (s1 s2 s3 : Gateway) × (peer_section 4 net entering peer_waiting s ≡ ok (pruning stranger) s1)
    × (client_section 4 net request stranger (turning request stranger) s1
        ≡ ok (replying (record { type = pos 0; addr = addr; port = 3003 }) stranger) s2)
    × (peer_section 4 net entering (pruning stranger) s2 ≡ ok (printing none) s3)
    × IsServing s3 zs
    × (s3.out ≡ peers stranger (image zs) ∷ [])
entered-pruned_example =
    entered-pruned 4 net decided s (10, k1) (20, k3) ((30, k2) ∷ []) entering request request
      stranger stranger s-IsServing refl (ground arith) unused refl refl refl (omega arith)

-- One peer.
abbrev alone : Gateway
alone = record s { heap = write (λ x. none) 10 (some (item k3 10 10)) }

alone-IsServing : IsServing alone ((10, k3) ∷ [])
unfolding write
alone-IsServing = record { ring = (refl, ((ground arith, refl, tt), (refl, tt))); free = refl }

itself : equal_data_r k3 k3 ≡ true
unfolding equal_data_r
itself = refl

emptied-fault_example :
    (t : Gateway) × (client_section 1 net request stranger (testing request stranger) alone
      ≡ ok (turning request stranger) alone)
    × (peer_section 1 net leaving peer_waiting alone
        ≡ ok (printing (some (print_peer addr 3003, none))) t)
    × IsServing t []
    × (client_section 1 net request stranger (turning request stranger) t ≡ fault)
emptied-fault_example =
    emptied-fault 1 net alone (10, k3) leaving request request stranger stranger alone-IsServing
      refl itself (omega arith)

-- No peers; then one enters, and gets its turn before the list is pruned.
abbrev empty : Gateway
empty = record s { heap = λ x. none; peer_list = 0 }

-- What `ring_append` writes to the new node.
abbrev written : List (Item DataR) → Heap (Item DataR)
written [] = λ x. none
written (n ∷ ns) = write (written ns) 40 (some n)

abbrev one : Gateway
one = record empty {
  heap = written (item k3 40 40 ∷ item k3 40 0 ∷ item k3 0 0 ∷ item k1 0 0 ∷ []);
  peer_list = 40;
}

empty-IsEnough : IsEnough 4 empty
empty-IsEnough [] is = omega arith
empty-IsEnough (c ∷ cs) is = absurd (is.ring.1.0.0 (sym is.ring.0))

abbrev entering_k3 : Request
entering_k3 = record { buff = request; from = from_k3; block = block; old = data_r [] 0 }

enters : peer_section 4 all_up entering_k3 peer_waiting empty ≡ ok (pruning from_k3) one
unfolding peer_section receive lock unlock ring_append write load psis_project.Heap.malloc
    psis_project.Heap.modify psis_project.Ring.ring_push
enters = refl

tests :
    client_section 4 all_up request stranger (testing request stranger) one
    ≡ ok (turning request stranger) one
unfolding client_section
tests = refl

turns :
    client_section 4 all_up request stranger (turning request stranger) one
    ≡ ok (replying (record { type = pos 0; addr = addr; port = 3003 }) stranger) one
unfolding client_section lock unlock load is_online write
turns = refl

waits :
    client_section 4 all_up request stranger client_waiting empty
    ≡ ok (testing request stranger) empty
unfolding client_section
waits = refl

row :
    Interleaved
      (record { gateway = empty; peer = peer_waiting; client = client_waiting })
      (record {
        gateway = one;
        peer = pruning from_k3;
        client = replying (record { type = pos 0; addr = addr; port = 3003 }) stranger;
      })
row =
    later
      (later
        (later
          (later start (
            client_step 4 all_up request stranger (testing request stranger) empty all_up-IsDecided
              waits))
          (peer_step 4 all_up entering_k3 (pruning from_k3) one all_up-IsDecided empty-IsEnough
            (ground arith) refl enters))
        (client_step 4 all_up request stranger (turning request stranger) one all_up-IsDecided
          tests))
      (client_step 4 all_up request stranger _ one all_up-IsDecided turns)

Interleaved-IsSound_example : IsSound one
Interleaved-IsSound_example =
    Interleaved-IsSound row ([], record { ring = (refl, tt); free = refl })
