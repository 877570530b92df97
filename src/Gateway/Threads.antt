-- ===== src/Gateway/Threads.antt =====
-- The two threads of gateway.c, one section of the mutex at a time: `connection_peer` and
-- `connection_client` between two calls of `pthread_mutex_lock`, with what each thread does outside the
-- mutex. Other than the test `peer_list != NULL`, no thread looks at the list without the mutex.
use psis_project.Base.{ℕ, zero, suc, ℤ, pos, negsuc, Option, none, some, ◌==◌, if◌then◌else◌}
use psis_project.Machine.{Cmd, pure, exited, ◌>>=◌, ◌>>◌}
use psis_project.Heap.{null, Block, load}
use psis_project.Ring.{Item, ring_append}
use psis_project.Text.{Text, print_peer, scan_peer}
use psis_project.Msgs.{DataR, data_r, MessageGw, is_online, send_ring_udp}
use psis_project.Gateway.{
  streamed, Source, peers, reply, Gateway, Answers, on_heap, get_peer_list, set_peer_list, emit,
  lock, unlock, is_error, fetch_id, broadcast_peers, print_peers, remove_peer, prune_loop,
}

-- A datagram from a peer with what `malloc` returns for it and what the stack holds.
pub record Request : Type 0 where
  pub buff : MessageGw
  pub from : Source
  pub block : Block (Item DataR)
  pub old : DataR

-- Where the thread of the peers stands: before a message arrives; in front of the second section for a
-- new peer; in front of `printPeers`, and what to tell the peers behind it; in front of
-- `broadcastPeers`.
pub data PeerPc : Type 0 where
  peer_waiting : PeerPc
  pruning : Source → PeerPc
  printing : Option (Text × Option DataR) → PeerPc
  telling : Text → Option DataR → PeerPc

-- Where the thread of the clients stands: before a message arrives; in front of the test of the list;
-- in front of the mutex; in front of the answer.
pub data ClientPc : Type 0 where
  client_waiting : ClientPc
  testing : MessageGw → Source → ClientPc
  turning : MessageGw → Source → ClientPc
  replying : MessageGw → Source → ClientPc

module _ (fuel : ℕ) (net : Answers) where
  -- The first section of a message of each type.
  unfoldable pub receive : ℤ → Request → Cmd Gateway PeerPc
  receive (pos zero) r = do
    lock
    root ← get_peer_list
    root' ← on_heap (ring_append r.block root (data_r r.from.ip r.buff.port))
    set_peer_list root'
    unlock
    pure (pruning r.from)
  receive (pos (suc zero)) r = do fetch_id r.from; pure peer_waiting
  receive (pos (suc (suc n))) r = pure peer_waiting
  receive (negsuc zero) r = do
    lock
    remove_peer fuel net (data_r r.from.ip r.buff.port)
    unlock
    pure (printing (some (print_peer r.from.ip r.buff.port, none)))
  receive (negsuc (suc zero)) r = do
    lock
    let k = scan_peer r.buff.addr (r.old.addr, r.old.port)
    remove_peer fuel net (data_r k.0 k.1)
    unlock
    pure (printing (some (r.buff.addr, some (data_r r.from.ip r.buff.port))))
  receive (negsuc (suc (suc n))) r = pure peer_waiting

  -- The next section of the thread of the peers; `r` is the message that arrives if it waits for one.
  unfoldable pub peer_section : Request → PeerPc → Cmd Gateway PeerPc
  unfolding receive
  peer_section r peer_waiting = receive r.buff.type r
  peer_section r (pruning from) = do
    lock
    aux ← get_peer_list
    prune_loop fuel net fuel aux
    root ← get_peer_list
    (result, message) ← on_heap (send_ring_udp net.list_sent fuel root)
    emit (peers from message)
    if is_error result then exited (pos 1) else (do unlock; pure (printing none))
  peer_section r (printing none) = do print_peers fuel net; pure peer_waiting
  peer_section r (printing (some (message, exc))) = do
    print_peers fuel net
    pure (telling message exc)
  peer_section r (telling message exc) = do
    broadcast_peers fuel net message (pos 12) exc
    pure peer_waiting

  -- The next section of the thread of the clients. Where the next peer is not online, the broadcast
  -- waits for the mutex that the thread holds.
  unfoldable pub client_section : MessageGw → Source → ClientPc → Cmd Gateway ClientPc
  client_section buff from client_waiting = pure (testing buff from)
  client_section buff from (testing answer to) = do
    root ← get_peer_list
    pure (if root == null then replying (record answer { type = pos 1 }) to else turning answer to)
  client_section buff from (turning answer to) = do
    lock
    root ← get_peer_list
    r ← on_heap (load root)
    set_peer_list r.next
    n ← on_heap (load r.next)
    fd ← is_online (net.connect n.K)
    if fd == 0
        then (do
          broadcast_peers fuel net (print_peer n.K.addr n.K.port) (pos 12) none
          print_peers fuel net
          pure (testing answer to))
        else (do
          unlock
          pure (replying (record { type = pos 0; addr = n.K.addr; port = n.K.port }) to))
  client_section buff from (replying answer to) = do
    emit (reply to (streamed answer))
    if net.reply_sent then pure client_waiting else exited (pos 1)

-- The gateway with its threads.
pub record Threads : Type 0 where
  pub gateway : Gateway
  pub peer : PeerPc
  pub client : ClientPc
