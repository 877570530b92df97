-- ===== src/System/Leaving.antt =====
-- A peer ends and leaves the system: `kill_server` of peer.c, `connection_peer` of gateway.c.
use psis_project.Base.{
  some, ℕ, ◌≡◌, ◌≢◌, ◌<◌, ◌≤◌, refl, sym, ◌∙◌, subst, true, false, ltb, pos, negsuc, List, [], ◌∷◌,
  ◌++◌, length, arith,
}
use psis_project.Machine.{ok, exited}
use psis_project.Machine.Returns
use psis_project.Heap.{Ptr, null, Heap, Block, load-ok}
use psis_project.Cells.{Cells, Without, first, last}
use psis_project.Ring.{Item, item}
use psis_project.Ring.Chain.{IsRing}
use psis_project.LinkedList
use psis_project.LinkedList.Linked.{IsList}
use psis_project.LinkedList.Walk.{list_free-Without}
use psis_project.Text.{print_peer}
use psis_project.Msgs.{DataR, data_r, MessageGw}
use psis_project.Msgs.Network.{IsDecided, removed}
use psis_project.Photos.{Data}
use psis_project.Gateway
use psis_project.Gateway.{Gateway, Source, peer_request}
use psis_project.Gateway.Broadcast.{notices}
use psis_project.Gateway.Requests.{IsServing, serving, leave-removed, dispatch-leave}
use psis_project.Peer
use psis_project.Peer.{Peer, Sent, gateway_message, port_of, lock_photos, unlock_photos}
use psis_project.Peer.Connection.{kill_server}

-- What the gateway receives of what the peer sent.
abbrev pub request_of : List Sent → MessageGw
request_of (gateway_message addr port type ∷ rest) = record {
  type = type;
  addr = addr;
  port = port;
}
request_of other = record { type = pos 0; addr = []; port = 0 }

-- The root of the ring, as `peer_list` names it.
root-node :
    (s : Peer) (self : Ptr × DataR) (xs : Cells DataR)
    → IsRing s.peers s.peer_list (self ∷ xs)
    → (s.peer_list ≢ null)
      × (s.peers s.peer_list ≡ some (item self.1 (first xs self.0) (last self.0 xs)))
root-node s self xs (e, ((ne, holds, _), _)) = (
  λ q. ne (sym e ∙ q),
  subst (λ a. s.peers a ≡ some (item self.1 (first xs self.0) (last self.0 xs))) (sym e) holds,
)

kill_server-Without :
    (fuel : ℕ) (mine : Peer.Answers) (s : Peer) (photos : Cells Data) (self : Ptr × DataR)
    (xs : Cells DataR)
    → IsRing s.peers s.peer_list (self ∷ xs)
    → IsList s.photos s.photo_list photos
    → s.photo_lock ≡ false
    → mine.report_sent ≡ true
    → length self.1.addr < 30
    → length photos < fuel
    → (h : Heap (LinkedList.Item Data)) × (kill_server fuel mine {A = Unit {0}} s
        ≡ exited (pos 0) (record s {
          photos = h;
          photo_lock = false;
          out = s.out ++ gateway_message self.1.addr (port_of mine) (negsuc 0) ∷ [];
        }))
      × Without photos s.photos h
unfolding kill_server lock_photos unlock_photos
kill_server-Without fuel mine s photos self xs ring list free sent fits enough =
    let (root_ne, holds) = root-node s self xs ring in
    let short : ltb (length self.1.addr) 30 ≡ true = ground arith in
    let (_, h, run, gone) =
      Returns.outcome (list_free-Without fuel s.photos s.photo_list photos list enough) in
    (h, rw (load-ok s.peers root_ne holds, short, sent, free, run) refl, gone)

-- A peer ends: `kill_server` of the peer sends one message to the gateway, of type -1 with its
-- own address and port, and no other, frees every node of its list of photos and no other, and
-- exits with 0; `connection_peer` of the gateway, which gets that message, takes the first entry
-- with the sender's address and port out of its list, tells each peer that is still in it and
-- online once, in the order of the list, and its mutex is free again. (The lists are well
-- formed, the mutexes were free, the message can be sent and the peer's own address has fewer
-- than 30 characters, each `connect` reaches a peer, with a descriptor other than 0, or is
-- refused, the fuel exceeds the number of photos and is at least the number of peers.)
pub kill_server-leave :
    (fuel : ℕ) (net : Gateway.Answers) (decided : IsDecided net.connect) (mine : Peer.Answers)
    (s : Peer) (photos : Cells Data) (self : Ptr × DataR) (others : Cells DataR) (g : Gateway)
    (xs : Cells DataR) (from : Source) (block : Block (Item DataR)) (old : DataR)
    → IsRing s.peers s.peer_list (self ∷ others)
    → IsList s.photos s.photo_list photos
    → s.photo_lock ≡ false
    → mine.report_sent ≡ true
    → length self.1.addr < 30
    → length photos < fuel
    → IsServing g xs
    → length xs ≤ fuel
    → let left = removed (data_r from.ip (port_of mine)) xs in
      let sent = gateway_message self.1.addr (port_of mine) (negsuc 0) ∷ [] in
      (h : Heap (LinkedList.Item Data)) × (k : Heap (Item DataR)) × (p : Ptr) × (kill_server fuel
          mine {A = Unit {0}} s
        ≡ exited (pos 0) (record s { photos = h; photo_lock = false; out = s.out ++ sent }))
      × Without photos s.photos h
      × (peer_request fuel net block old (request_of sent) from g
          ≡ ok tt (serving g k p (notices net (print_peer from.ip (port_of mine)) (pos 12) left)))
      × IsRing k p left
kill_server-leave fuel net decided mine s photos self others g xs from block old ring list free sent
      fits enough is few =
    let (h, run, gone) =
      kill_server-Without fuel mine s photos self others ring list free sent fits enough in
    let m = gateway_message self.1.addr (port_of mine) (negsuc 0) in
    let (k, p, told, ring') =
      leave-removed fuel net decided g xs (request_of (m ∷ [])) from is few in
    (
      h,
      k,
      p,
      run,
      gone,
      dispatch-leave fuel net block old (request_of (m ∷ [])) from g refl ∙ told,
      ring',
    )
