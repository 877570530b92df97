-- ===== src/Tests/EnteringRuns.antt =====
-- The gateway of GatewayRuns with a new peer, and with a row of requests.
use psis_project.Base.{ℕ, ◌+◌, ◌≡◌, refl, pos, false, some, none, [], ◌∷◌, ◌++◌, arith}
use psis_project.Machine.{ok}
use psis_project.Heap.{IsFresh, Ptr, Heap, Block}
use psis_project.Cells.{Cells, contents}
use psis_project.Ring.{Item, item}
use psis_project.Ring.Chain.{IsRing}
use psis_project.Msgs.{DataR, data_r, MessageGw}
use psis_project.Msgs.Transfer.{image}
use psis_project.Gateway.{Gateway, peers, photo_id_to, reply, peer_request, fetch_id}
use psis_project.Gateway.Requests.{IsServing, serving}
use psis_project.Gateway.Clients.{client_request-next}
use psis_project.Gateway.Serving.{Reach, start, later, numbered, served, Reach-IsServing}
use psis_project.Peer.{Peer, gateway_message, port_of}
use psis_project.Peer.Connection.{join_system}
use psis_project.Gateway.Prune.{answering}
use psis_project.System.Entering.{register-join_system}
use psis_project.Gateway.{register}
use psis_project.Tests.GatewayRuns.{
  addr, net, decided, s, xs, k1, k2, k3, request, block, from_k3, unused, s-IsServing, stranger,
}
use psis_project.Tests.PeerRuns

-- A peer that has just started.
abbrev t : Peer
t = record {
  photos = λ a. none;
  photo_list = 0;
  photo_lock = false;
  peers = λ a. none;
  peer_list = 0;
  peer_lock = false;
  files = λ name. none;
  out = [];
}

abbrev blocks : ℕ → Block (Item DataR)
blocks i = record { address = 1 + i; contents = item k1 0 0 }

fresh : IsFresh t.peers blocks
fresh = record { not_null = λ i. omega arith; unused = λ i. refl; different = λ i j e. omega arith }

register-join_system_example :
    let self = data_r addr 3003 in
    let m = image (answering net xs ++ (40, self) ∷ []) in
    (h : Heap (Item DataR)) × (p : Ptr) × (g : Heap (Item DataR)) × (q : Ptr) × (zs : Cells DataR)
    × (register 4 net block request from_k3 s ≡ ok tt (serving s h p (peers from_k3 m ∷ [])))
    × (join_system 4 PeerRuns.net blocks (some m.size) m.array t
        ≡ ok tt (record t {
          peers = g;
          peer_list = q;
          peer_lock = false;
          out = gateway_message [] (port_of PeerRuns.net) (pos 0) ∷ [];
        }))
    × IsRing g q ((q, self) ∷ zs)
    × (contents zs ≡ contents (answering net xs))
register-join_system_example =
    register-join_system 4 net decided PeerRuns.net s xs block request from_k3 t blocks s-IsServing
      (ground arith) unused refl (omega arith) refl refl fresh refl

-- The gateway after it has given out an id.
abbrev s1 : Gateway
s1 = record s { photo_id = 8; out = photo_id_to stranger 8 ∷ [] }

abbrev id_request : MessageGw
id_request = record { type = pos 1; addr = []; port = 9000 }

asked : peer_request 4 net block (data_r [] 0) id_request stranger s ≡ ok tt s1
unfolding peer_request fetch_id
asked = refl

-- After that a client has got a peer.
abbrev s2 : Gateway
s2 = record s1 {
  peer_list = 20;
  list_lock = false;
  out = s1.out ++ reply stranger (record { type = pos 0; addr = addr; port = 3003 }) ∷ [];
}

s1-IsServing : IsServing s1 xs
s1-IsServing = record { ring = s-IsServing.ring; free = s-IsServing.free }

row : Reach s xs s2 ((20, k3) ∷ (30, k2) ∷ (10, k1) ∷ [])
row =
    later 4 net
      (later 4 net start decided (numbered s1 block (data_r [] 0) id_request stranger refl asked))
      decided
      (served s2 (10, k1) ((20, k3) ∷ (30, k2) ∷ []) request stranger refl (omega arith) refl refl
        (client_request-next 3 net decided s1 (10, k1) ((20, k3) ∷ (30, k2) ∷ []) request stranger
          s1-IsServing refl refl).0)

Reach-IsServing_example : IsServing s2 ((20, k3) ∷ (30, k2) ∷ (10, k1) ∷ [])
Reach-IsServing_example = Reach-IsServing row s-IsServing
