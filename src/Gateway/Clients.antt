-- ===== src/Gateway/Clients.antt =====
-- What a request of a client does to the gateway.
use psis_project.Base.{
  ◌%◌, ◌^◌, ℕ, suc, ◌≡◌, ◌≢◌, refl, sym, ◌∙◌, subst, pos, true, false, some, [], ◌∷◌, ◌++◌, ne→==,
  eq→==,
}
use psis_project.Machine.{ok, blocked}
use psis_project.Heap.{Ptr, null, Heap, load-ok}
use psis_project.Cells.{Cells, first, last}
use psis_project.Ring.{Item, item}
use psis_project.Ring.Chain.{Circle, IsRing}
use psis_project.Ring.Circle.{Circle-rotate}
use psis_project.Msgs.{DataR, MessageGw}
use psis_project.Msgs.Network.{IsDecided, online, is_online-online}
use psis_project.Gateway.{
  streamed, Source, reply, Gateway, Answers, lock, unlock, broadcast_peers, find_peer,
  client_request,
}
use psis_project.Gateway.Requests.{IsServing}

-- The peer behind the root, which is the root where it is alone.
abbrev pub next_peer : Ptr × DataR → Cells DataR → DataR
next_peer c [] = c.1
next_peer c (d ∷ ds) = d.1

-- The node behind the root.
pub next-node :
    (h : Heap (Item DataR)) (c : Ptr × DataR) (cs : Cells DataR)
    → Circle h (c ∷ cs)
    → (first cs c.0 ≢ null) × (q b : Ptr) × (h (first cs c.0) ≡ some (item (next_peer c cs) q b))
next-node h c [] ((ne, e, _), _) = (ne, c.0, c.0, e)
next-node h c (d ∷ ds) ((_, _, (ne, e, _)), _) = (ne, first ds c.0, c.0, e)

module _ (fuel : ℕ) (net : Answers) where
  -- Without peers the client is told so.
  pub client_request-none :
      (s : Gateway) (buff : MessageGw) (from : Source)
      → s.peer_list ≡ null
      → net.reply_sent ≡ true
      → client_request (suc fuel) net buff from s
        ≡ ok tt
            (record s { out = s.out ++ reply from (streamed (record buff { type = pos 1 })) ∷ [] })
  unfolding client_request find_peer
  client_request-none s buff from empty sent = rw (eq→== s.peer_list null empty, sent)

-- The root, as `peer_list` names it.
pub at_root :
    (h : Heap (Item DataR)) (p : Ptr) (c : Ptr × DataR) (cs : Cells DataR)
    → IsRing h p (c ∷ cs)
    → (p ≢ null) × (b : Ptr) × (h p ≡ some (item c.1 (first cs c.0) b))
at_root h p c cs (e, ((ne, holds, _), _)) = (
  λ q. ne (sym e ∙ q),
  last c.0 cs,
  subst (λ a. h a ≡ some (item c.1 (first cs c.0) (last c.0 cs))) (sym e) holds,
)

pub turned :
    (h : Heap (Item DataR)) (c : Ptr × DataR) (cs : Cells DataR)
    → Circle h (c ∷ cs)
    → IsRing h (first cs c.0) (cs ++ c ∷ [])
turned h c [] circle = (refl, circle)
turned h c (d ∷ ds) circle = (refl, Circle-rotate h (c ∷ []) (d ∷ ds) circle)

module _ (fuel : ℕ) (net : Answers) (decided : IsDecided net.connect) where
  -- The search ends with the peer behind the root, if that is online.
  pub find_peer-next :
      (s : Gateway) (c : Ptr × DataR) (cs : Cells DataR) (buff : MessageGw)
      → IsServing s (c ∷ cs)
      → online net.connect (next_peer c cs) ≡ true
      → let k = next_peer c cs in
        find_peer (suc fuel) net (suc fuel) buff s
        ≡ ok
            (record { type = pos 0; addr = k.addr; port = k.port })
            (record s { peer_list = first cs c.0; list_lock = false })
  unfolding find_peer lock unlock
  find_peer-next s c cs buff is up =
      let (root_ne, b, root_holds) = at_root s.heap s.peer_list c cs is.ring in
      let (ne, q, b', holds) = next-node s.heap c cs is.ring.1 in
      let s1 = record s { peer_list = first cs c.0; list_lock = true } in
      let (fd, told, zero_iff) = is_online-online net.connect (next_peer c cs) s1 decided in
      rw (
        ne→== s.peer_list null root_ne,
        is.free,
        load-ok s.heap root_ne root_holds,
        load-ok s.heap ne holds,
        told,
        zero_iff,
        up,
      )

  -- `connection_client` where the peer behind the root is online: the client gets that peer's
  -- address and its port modulo 2^16, as `stream_and_send_gw` takes it, and the ring is
  -- turned, so that the next client gets the peer after it; the mutex is free again. (The list
  -- is well formed and not empty, the mutex was free, the reply can be sent, each `connect`
  -- reaches a peer, with a descriptor other than 0, or is refused, and there is fuel for one
  -- round.)
  pub client_request-next :
      (s : Gateway) (c : Ptr × DataR) (cs : Cells DataR) (buff : MessageGw) (from : Source)
      → IsServing s (c ∷ cs)
      → online net.connect (next_peer c cs) ≡ true
      → net.reply_sent ≡ true
      → let k = next_peer c cs in
        let p = first cs c.0 in
        (client_request (suc fuel) net buff from s
          ≡ ok tt (record s {
            peer_list = p;
            list_lock = false;
            out =
                s.out
                ++ reply from (record { type = pos 0; addr = k.addr; port = k.port % 2 ^ 16 }) ∷ [];
          }))
        × IsRing s.heap p (cs ++ c ∷ [])
  unfolding client_request
  client_request-next s c cs buff from is up sent =
      (rw (find_peer-next s c cs buff is up, sent), turned s.heap c cs is.ring.1)

  -- `connection_client` where the peer behind the root is not online: the handler waits for
  -- ever for the mutex that it holds itself. (The list is well formed and not empty, the mutex
  -- was free, each `connect` reaches a peer, with a descriptor other than 0, or is refused,
  -- and there is fuel for one round.)
  pub client_request-blocked :
      (s : Gateway) (c : Ptr × DataR) (cs : Cells DataR) (buff : MessageGw) (from : Source)
      → IsServing s (c ∷ cs)
      → online net.connect (next_peer c cs) ≡ false
      → client_request (suc fuel) net buff from s ≡ blocked
  unfolding client_request find_peer broadcast_peers lock unlock
  client_request-blocked s c cs buff from is down =
      let (root_ne, b, root_holds) = at_root s.heap s.peer_list c cs is.ring in
      let (ne, q, b', holds) = next-node s.heap c cs is.ring.1 in
      let s1 = record s { peer_list = first cs c.0; list_lock = true } in
      let (fd, told, zero_iff) = is_online-online net.connect (next_peer c cs) s1 decided in
      rw (
        ne→== s.peer_list null root_ne,
        is.free,
        load-ok s.heap root_ne root_holds,
        load-ok s.heap ne holds,
        told,
        zero_iff,
        down,
      )
