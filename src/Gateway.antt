-- ===== src/Gateway.antt =====
-- gateway.c: the list of online peers behind its mutex, the photo ids, and what one request of a
-- peer or of a client does. The two threads share the record `Gateway`; a request is run as one
-- step, which finds the mutex free and holds it as the code does; Gateway/Threads has its sections one
-- by one. What the network answers during a
-- request is the record `Answers`. Output to the terminal is left out.
pub mod Broadcast
pub mod Prune
pub mod Requests
pub mod Reports
pub mod Clients
pub mod Serving
pub mod Quiet
pub mod Sound
pub mod Threads
pub mod Process
pub mod Fairness
pub mod Interleaving
pub mod Races
use psis_project.Base.{
  ℕ, zero, suc, ◌+◌, ◌%◌, ◌^◌, ◌≡◌, ℤ, pos, negsuc, Bool, true, false, not, ◌&&◌, Option, none,
  some, List, [], ◌∷◌, ◌++◌, ◌==◌, ltb, if◌then◌else◌, length, arith,
}
use psis_project.Machine.{Run, ok, Cmd, pure, fault, exited, blocked, out_of_fuel, ◌>>=◌, ◌>>◌}
use psis_project.Heap.{Ptr, null, Heap, Block, load}
use psis_project.Ring.{Item, ring_append, ring_remove, ring_count, ring_print}
use psis_project.Text.{Text, print_peer, scan_peer}
use psis_project.Msgs.{
  DataR, data_r, MessageGw, equal_data_r, Connect, is_online, RingSent, send_ring_udp,
}

-- Where a datagram came from: the address as `inet_ntoa` writes it, and the UDP port.
pub record Source : Type 0 where
  pub ip : Text
  pub udp_port : ℕ

-- What is handed to the network: a `message_photo` over a new connection to a peer; the peer list; a photo id; a
-- `message_gw`.
pub data Sent : Type 0 where
  photo_message : (to : DataR) → (buffer : Text) → (type : ℤ) → Sent
  peers : (to : Source) → RingSent DataR → Sent
  photo_id_to : (to : Source) → ℕ → Sent
  reply : (to : Source) → MessageGw → Sent

pub record Gateway : Type 0 where
  pub heap : Heap (Item DataR)
  pub peer_list : Ptr
  pub photo_id : ℕ
  pub list_lock : Bool
  -- in the order of sending
  pub out : List Sent

-- The answers of the network: `connect` to each peer, and whether `sendto` succeeds for the array of
-- peers and for the reply to a client.
pub record Answers : Type 0 where
  pub connect : DataR → Connect
  pub list_sent : Bool
  pub reply_sent : Bool

-- What `stream_and_send_gw` sends of the address, the port and the type: the port is an `in_port_t`.
abbrev pub streamed : MessageGw → MessageGw
streamed m = record m { port = m.port % 2 ^ 16 }

abbrev pub on_heap_run : {A : Type 0} → Gateway → Run (Heap (Item DataR)) A → Run Gateway A
on_heap_run s (ok a h) = ok a (record s { heap = h })
on_heap_run s (exited code h) = exited code (record s { heap = h })
on_heap_run s fault = fault
on_heap_run s blocked = blocked
on_heap_run s out_of_fuel = out_of_fuel

abbrev pub on_heap : {A : Type 0} → Cmd (Heap (Item DataR)) A → Cmd Gateway A
on_heap c s = on_heap_run s (c s.heap)

abbrev pub get_peer_list : Cmd Gateway Ptr
get_peer_list s = ok s.peer_list s

abbrev pub set_peer_list : Ptr → Cmd Gateway (Unit {0})
set_peer_list p s = ok tt (record s { peer_list = p })

abbrev pub emit : Sent → Cmd Gateway (Unit {0})
emit m s = ok tt (record s { out = s.out ++ m ∷ [] })

-- `pthread_mutex_lock(&list_lock)`: a thread that holds the mutex already waits for itself.
unfoldable pub lock : Cmd Gateway (Unit {0})
lock s = if s.list_lock then blocked else ok tt (record s { list_lock = true })

unfoldable pub unlock : Cmd Gateway (Unit {0})
unlock s = ok tt (record s { list_lock = false })

-- `exc` is the peer to leave out, `none` for `NULL`.
abbrev pub excluded : Option DataR → DataR → Bool
excluded none k = false
excluded (some exc) k = equal_data_r k exc

-- `== -1`
abbrev pub is_error : ℤ → Bool
is_error (pos n) = false
is_error (negsuc zero) = true
is_error (negsuc (suc n)) = false

module _ (net : Answers) where
  -- `do { … } while(aux != peer_list);`
  pub broadcast_loop : ℕ → Ptr → Text → ℤ → Option DataR → Cmd Gateway (Unit {0})
  broadcast_loop zero aux message type exc = λ _. out_of_fuel
  broadcast_loop (suc rounds) aux message type exc = do
    n ← on_heap (load aux)
    aux' ← if excluded exc n.K then pure aux else (do
      fd ← is_online (net.connect n.K)
      if fd == 0 then pure tt else emit (photo_message n.K message type)
      pure n.next)
    root ← get_peer_list
    if aux' == root then pure tt else broadcast_loop rounds aux' message type exc

-- `type == 1`: the next photo id, a `uint32_t`.
unfoldable pub fetch_id : Source → Cmd Gateway (Unit {0})
fetch_id from s =
    let next = (s.photo_id + 1) % 2 ^ 32 in
    ok tt (record s { photo_id = next; out = s.out ++ photo_id_to from next ∷ [] })

-- Fuel of the loops over the ring. `net` is what the network answers.
module _ (fuel : ℕ) (net : Answers) where
  unfoldable pub broadcast_peers : Text → ℤ → Option DataR → Cmd Gateway (Unit {0})
  unfolding broadcast_loop
  broadcast_peers message type exc = do
    lock
    root ← get_peer_list
    if root == null then pure tt else broadcast_loop net fuel root message type exc
    unlock

  unfoldable pub print_peers : Cmd Gateway (Unit {0})
  print_peers = do lock; root ← get_peer_list; on_heap (ring_print fuel root); unlock

  -- `ring_remove(&peer_list, K)`, its result not used.
  unfoldable pub remove_peer : DataR → Cmd Gateway (Unit {0})
  remove_peer k = do
    root ← get_peer_list
    (found, root') ← on_heap (ring_remove equal_data_r fuel root k)
    set_peer_list root'

  -- The loop that takes the peers that are not online out of the list.
  pub prune_loop : ℕ → Ptr → Cmd Gateway (Unit {0})
  prune_loop zero aux = λ _. out_of_fuel
  prune_loop (suc rounds) aux = do
    n ← on_heap (load aux)
    root ← get_peer_list
    if n.next == root then pure tt else do
      fd ← is_online (net.connect n.K)
      stop ←
          if fd == 0
          then (do
            a ← on_heap (load n.next)
            p ← on_heap (load a.prev)
            remove_peer p.K
            root' ← get_peer_list
            pure (root' == null))
          else pure false
      if stop then pure tt else prune_loop rounds n.next

  -- `type == 0`: a new peer is appended, the list is pruned and sent to it.
  unfoldable pub register : Block (Item DataR) → MessageGw → Source → Cmd Gateway (Unit {0})
  unfolding prune_loop
  register block buff from = do
    lock
    root ← get_peer_list
    root' ← on_heap (ring_append block root (data_r from.ip buff.port))
    set_peer_list root'
    unlock
    lock
    aux ← get_peer_list
    prune_loop fuel aux
    root ← get_peer_list
    (result, message) ← on_heap (send_ring_udp net.list_sent fuel root)
    emit (peers from message)
    if is_error result then exited (pos 1) else (do unlock; print_peers)

  -- `type == -1`: the sender leaves; all others are told.
  unfoldable pub leave : MessageGw → Source → Cmd Gateway (Unit {0})
  leave buff from = do
    lock
    remove_peer (data_r from.ip buff.port)
    unlock
    print_peers
    broadcast_peers (print_peer from.ip buff.port) (pos 12) none

  -- `type == -2`: the sender reports another peer; the others are to be told, without the sender.
  -- `K` is what the variable holds before `sscanf` writes it.
  unfoldable pub report : DataR → MessageGw → Source → Cmd Gateway (Unit {0})
  report old buff from = do
    lock
    let k = scan_peer buff.addr (old.addr, old.port)
    remove_peer (data_r k.0 k.1)
    unlock
    print_peers
    broadcast_peers buff.addr (pos 12) (some (data_r from.ip buff.port))

  -- One round of `connection_peer`: a request `buff` that came from `from`. `block` is what `malloc`
  -- returns, `old` what the stack holds.
  peer_dispatch : ℤ → Block (Item DataR) → DataR → MessageGw → Source → Cmd Gateway (Unit {0})
  peer_dispatch (pos zero) block old buff from = register block buff from
  peer_dispatch (pos (suc zero)) block old buff from = fetch_id from
  peer_dispatch (pos (suc (suc n))) block old buff from = pure tt
  peer_dispatch (negsuc zero) block old buff from = leave buff from
  peer_dispatch (negsuc (suc zero)) block old buff from = report old buff from
  peer_dispatch (negsuc (suc (suc n))) block old buff from = pure tt

  unfoldable pub peer_request :
      Block (Item DataR) → DataR → MessageGw → Source → Cmd Gateway (Unit {0})
  unfolding peer_dispatch
  peer_request block old buff from = peer_dispatch buff.type block old buff from

  -- The search for the first online peer in `connection_client`: the answer for the client.
  pub find_peer : ℕ → MessageGw → Cmd Gateway MessageGw
  find_peer zero buff = λ _. out_of_fuel
  find_peer (suc rounds) buff = do
    root ← get_peer_list
    if root == null then pure (record buff { type = pos 1 }) else do
      lock
      r ← on_heap (load root)
      set_peer_list r.next
      n ← on_heap (load r.next)
      fd ← is_online (net.connect n.K)
      if fd == 0
          then (do
            broadcast_peers (print_peer n.K.addr n.K.port) (pos 12) none
            print_peers
            find_peer rounds buff)
          else (do unlock; pure (record { type = pos 0; addr = n.K.addr; port = n.K.port }))

  -- One round of `connection_client`.
  unfoldable pub client_request : MessageGw → Source → Cmd Gateway (Unit {0})
  unfolding find_peer
  client_request buff from = do
    answer ← find_peer fuel buff
    emit (reply from (streamed answer))
    if net.reply_sent then pure tt else exited (pos 1)
