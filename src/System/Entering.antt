-- ===== src/System/Entering.antt =====
-- A new peer asks the gateway for the list of peers: `connection_peer` of gateway.c sends it, and
-- `join_system` of peer.c receives it.
use psis_project.Base.{
  ℕ, ◌<◌, ◌≡◌, ◌≢◌, subst, true, false, some, none, [], ◌∷◌, ◌++◌, length, arith, pos,
}
use psis_project.Machine.{ok}
use psis_project.Heap.{IsFresh, Ptr, null, Heap, Block}
use psis_project.Cells.{Cells, contents}
use psis_project.Ring.{Item}
use psis_project.Ring.Chain.{IsRing}
use psis_project.Msgs.{DataR, data_r, MessageGw}
use psis_project.Msgs.Transfer.{image}
use psis_project.Msgs.Network.{IsDecided}
use psis_project.Gateway
use psis_project.Gateway.{Gateway, Source, register, peers}
use psis_project.Gateway.Prune.{answering, survivors-snoc, length-answering-le}
use psis_project.Gateway.Requests.{IsServing, serving, register-survivors}
use psis_project.Peer.{Peer, gateway_message, port_of}
use psis_project.Peer
use psis_project.Peer.Connection.{join_system}
use psis_project.Peer.Enter.{join_system_self}

module _ (fuel : ℕ) (net : Gateway.Answers) (decided : IsDecided net.connect)
    (mine : Peer.Answers) where
  -- A new peer enters: `connection_peer` of the gateway handles its message (type 0), and the
  -- array that the gateway sends is what `main` of the peer receives. Then the peer's ring is
  -- well formed, has the peer itself at its root and behind it the peers of the gateway's list
  -- that answer, in the gateway's order. (The gateway's list is well formed, its mutex was
  -- free, `malloc` gives new addresses at both, the network takes the list and the peer's
  -- message, each `connect` reaches a peer, with a descriptor other than 0, or is refused, the
  -- peer's list was empty and its mutex free, and the fuel exceeds the number of peers.)
  pub register-join_system :
      (s : Gateway) (xs : Cells DataR) (block : Block (Item DataR)) (buff : MessageGw)
      (from : Source) (t : Peer) (blocks : ℕ → Block (Item DataR))
      → IsServing s xs
      → block.address ≢ null
      → s.heap block.address ≡ none
      → net.list_sent ≡ true
      → length xs < fuel
      → t.peer_list ≡ null
      → t.peer_lock ≡ false
      → IsFresh t.peers blocks
      → mine.report_sent ≡ true
      → let self = data_r from.ip buff.port in
        let m = image (answering net xs ++ (block.address, self) ∷ []) in
        (h : Heap (Item DataR)) × (p : Ptr) × (g : Heap (Item DataR)) × (q : Ptr) × (zs : Cells
          DataR)
        × (register fuel net block buff from s ≡ ok tt (serving s h p (peers from m ∷ [])))
        × (join_system fuel mine blocks (some m.size) m.array t
            ≡ ok tt (record t {
              peers = g;
              peer_list = q;
              peer_lock = false;
              out = t.out ++ gateway_message [] (port_of mine) (pos 0) ∷ [];
            }))
        × IsRing g q ((q, self) ∷ zs)
        × (contents zs ≡ contents (answering net xs))
  register-join_system s xs block buff from t blocks is ne unused listed enough empty free fresh
        sent =
      let c : Ptr × DataR = (block.address, data_r from.ip buff.port) in
      let (h, p, run, ring) =
        register-survivors fuel net decided s xs block buff from is ne unused listed enough in
      let few : length (answering net xs) < fuel = omega (arith, length-answering-le net xs) in
      let (g, q, zs, joined, ring', same) =
        join_system_self fuel mine t (answering net xs) c blocks empty free fresh sent few in
      (
        h,
        p,
        g,
        q,
        zs,
        subst
            (λ ys.
              register fuel net block buff from s
              ≡ ok tt (serving s h p (peers from (image ys) ∷ [])))
            (survivors-snoc net xs c) run,
        joined,
        ring',
        same,
      )
