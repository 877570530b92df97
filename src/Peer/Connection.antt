-- ===== src/Peer/Connection.antt =====
-- peer.c: how a peer enters the system, the messages of one connection, and its end.
use psis_project.Base.{
  ℕ, zero, suc, ℤ, pos, negsuc, Bool, true, false, Option, none, some, List, [], ◌∷◌, ◌==◌,
  if◌then◌else◌,
}
use psis_project.Machine.{Cmd, pure, fault, exited, out_of_fuel, ◌>>=◌, ◌>>◌}
use psis_project.Heap.{Ptr, Block, load}
use psis_project.Ring
use psis_project.Ring.{ring_count}
use psis_project.LinkedList
use psis_project.LinkedList.{list_free}
use psis_project.Text.{Text, print_peer_int}
use psis_project.Msgs.{
  DataR, MessagePhoto, Connect, no_socket, accepted, refused, failed, strcpy, recv_ring_udp,
}
use psis_project.Photos.{Data}
use psis_project.Peer.{
  is_pos, Peer, Answers, photo_message, gateway_message, on_photos, on_peers, get_photo_list,
  get_peer_list, set_peer_list, emit, port_of, lock_photos, unlock_photos, print_peers,
  broadcast_peers_and_notify, add_keyword, search_photo, delete_photo, send_photo_name,
  register_peer, delete_peer,
}
use psis_project.Sockets.{RecvAll, all_error, all_closed, all_overflow, all_received}
use psis_project.Peer.Transfer.{
  Upload, add_replica, add_photo, send_photo, photo_replication, send_all_photos,
}

-- What `errno` says behind a message: `EAGAIN` or `EWOULDBLOCK`; `EPIPE`; anything else.
pub data Errno : Type 0 where
  timed_out : Errno
  broken_pipe : Errno
  other_errno : Errno

-- The result, and the new `errno`.
abbrev pub check_gw_state : Errno → ℤ × Errno
check_gw_state timed_out = (pos 1, other_errno)
check_gw_state broken_pipe = (negsuc 0, other_errno)
check_gw_state other_errno = (pos 0, other_errno)

-- A message on a connection with what goes with it: what the stack holds before each `sscanf`, what
-- `malloc` returns, the id that the gateway sends, the data that follow, and `errno` behind it.
pub record Request : Type 0 where
  pub message : MessagePhoto
  pub old_id : ℕ
  pub old_text : Text
  pub old_peer : DataR
  pub blocks : ℕ → Block (LinkedList.Item Data)
  pub peer_block : Block (Ring.Item DataR)
  pub fetched : Option ℕ
  pub upload : Upload
  pub next : Option MessagePhoto
  pub errno : Errno

-- Whether the thread goes on with the connection.
pub data Flow : Type 0 where
  go_on : Flow
  thread_exit : Flow

-- `is_neg n k` tests `k == -n`.
abbrev pub is_neg : ℕ → ℤ → Bool
is_neg n (pos m) = false
is_neg n (negsuc m) = suc m == n

-- The message in the buffer behind `recv_and_unstream_photo`.
abbrev pub arrived : MessagePhoto → Option MessagePhoto → MessagePhoto
arrived msg none = msg
arrived msg (some next) = next

-- How often a loop up to an `int` runs.
abbrev pub count : ℤ → ℕ
count (pos n) = n
count (negsuc n) = 0

module _ (fuel : ℕ) (net : Answers) where
  -- The gateway is told, and the photos are freed; the ring of peers is not. (Where the peer runs on a
  -- signal, the mutex may be held: then it waits for itself.)
  unfoldable pub kill_server : {A : Type 0} → Cmd Peer A
  kill_server = do
    root ← get_peer_list
    n ← on_peers (load root)
    addr ← strcpy 30 n.K.addr
    if net.report_sent then emit (gateway_message addr (port_of net) (negsuc 0)) else exited (pos 1)
    lock_photos
    list ← get_photo_list
    on_photos (list_free fuel list)
    unlock_photos
    exited (pos 0)

  -- The `switch` of `connection`.
  unfoldable pub dispatch : Request → Cmd Peer Flow
  unfolding kill_server
  dispatch r =
      if is_pos 1 r.message.type
      then (do add_photo fuel net r.fetched r.upload r.message; pure go_on)
      else if is_pos 2 r.message.type
      then (do add_keyword fuel net (r.old_id, r.old_text) r.message; pure go_on)
      else if is_pos 3 r.message.type
      then (do search_photo fuel net r.blocks r.message; pure go_on)
      else if is_pos 4 r.message.type
      then (do delete_photo fuel net r.old_id r.message; pure go_on)
      else if is_pos 5 r.message.type
      then (do send_photo_name fuel net r.old_id r.message; pure go_on)
      else if is_pos 6 r.message.type
      then (do send_photo fuel net r.old_id r.message; pure go_on)
      else if is_neg 1 r.message.type
      then pure thread_exit
      else if is_pos 7 r.message.type
      then (do register_peer fuel net r.peer_block r.old_text r.message; pure go_on)
      else if is_pos 8 r.message.type
      then (do
        register_peer fuel net r.peer_block r.old_text r.message
        send_all_photos fuel net
        pure go_on)
      else if is_pos 9 r.message.type
      then (do photo_replication fuel net r.next r.upload r.message; pure go_on)
      else if is_pos 10 r.message.type
      then (do add_keyword fuel net (r.old_id, r.old_text) r.message; pure go_on)
      else if is_pos 11 r.message.type
      then (do delete_photo fuel net r.old_id r.message; pure go_on)
      else if is_pos 12 r.message.type
      then (do delete_peer fuel net r.old_peer r.message; pure go_on)
      else if is_neg 2 r.message.type
      then kill_server
      else pure go_on

  -- `checkGWState` behind a message: a broken pipe ends the connection, a timeout the peer.
  unfoldable pub after_message : Errno → Cmd Peer Flow
  unfolding kill_server
  after_message errno =
      if is_neg 1 (check_gw_state errno).0
      then pure thread_exit
      else if is_pos 1 (check_gw_state errno).0
      then (do broadcast_peers_and_notify fuel net [] (negsuc 1) none; kill_server)
      else pure go_on

  -- `connection`, for the messages that arrive until the connection ends.
  pub connection : List Request → Cmd Peer (Unit {0})
  connection [] = pure tt
  connection (r ∷ rs) = do
    flow ← dispatch r
    next ← elim flow [ thread_exit ↦ pure thread_exit | go_on ↦ after_message r.errno ]
    let rest = connection rs
    elim next [ thread_exit ↦ pure tt | go_on ↦ rest ]

  -- `connect_peer`: any failure ends the process.
  abbrev pub connect_peer : Connect → Cmd Peer (Unit {0})
  connect_peer no_socket = exited (negsuc 0)
  connect_peer (accepted fd) = pure tt
  connect_peer refused = exited (negsuc 0)
  connect_peer failed = exited (negsuc 0)

  -- The photos that arrive, from the one at `i` on; a message that does not arrive leaves `msg`.
  unfoldable pub copies_loop :
      (left i : ℕ) → (ℕ → Option MessagePhoto × Upload) → MessagePhoto → Cmd Peer (Unit {0})
  copies_loop zero i copies msg = pure tt
  copies_loop (suc left) i copies msg = do
    let next = arrived msg (copies i).0
    add_replica fuel net (copies i).1 next
    copies_loop left (suc i) copies next

  -- The first peer that is told also sends its photos.
  unfoldable pub ask_photos :
      RecvAll ℤ → (ℕ → Option MessagePhoto × Upload) → MessagePhoto → Cmd Peer ℤ
  unfolding copies_loop
  ask_photos all_error copies msg = pure (negsuc 0)
  ask_photos all_closed copies msg = pure (pos 0)
  ask_photos all_overflow copies msg = λ _. fault
  ask_photos (all_received size) copies msg = do copies_loop (count size) 0 copies msg; pure (pos 0)

  -- The loop of `notify_and_recv_photos`.
  unfoldable pub enter_loop :
      ℕ
      → Ptr
      → Text
      → Bool
      → RecvAll ℤ
      → (ℕ → Option MessagePhoto × Upload)
      → MessagePhoto
      → Cmd Peer ℤ
  unfolding ask_photos
  enter_loop zero aux buffer has_photos size copies msg = λ _. out_of_fuel
  enter_loop (suc rounds) aux buffer has_photos size copies msg = do
    root ← get_peer_list
    if aux == root then pure (pos 0) else do
      n ← on_peers (load aux)
      connect_peer (net.connect n.K)
      if net.header_sent
          then (do
            emit (photo_message n.K buffer (if has_photos then pos 7 else pos 8))
            result ← if has_photos then pure (pos 0) else ask_photos size copies msg
            if is_neg 1 result
                then pure result
                else enter_loop rounds n.next buffer true size copies msg)
          else pure (negsuc 0)

  unfoldable pub notify_and_recv_photos :
      RecvAll ℤ → (ℕ → Option MessagePhoto × Upload) → MessagePhoto → Cmd Peer ℤ
  unfolding enter_loop
  notify_and_recv_photos size copies msg = do
    root ← get_peer_list
    peers ← on_peers (ring_count fuel root)
    if peers == 1 then pure (pos 0) else do
      n ← on_peers (load root)
      buffer ← strcpy 100 (print_peer_int n.K.addr n.K.port)
      enter_loop fuel n.next buffer false size copies msg

  -- The exchange with the gateway in `main`: the list of peers arrives in two datagrams, and the root
  -- becomes the node before it, which is this peer's own.
  unfoldable pub join_system :
      (ℕ → Block (Ring.Item DataR))
      → (first : Option ℕ) (second : Option (List DataR)) → Cmd Peer (Unit {0})
  join_system blocks first second = do
    if net.report_sent then emit (gateway_message [] (port_of net) (pos 0)) else exited (pos 1)
    root ← get_peer_list
    (result, root') ← on_peers (recv_ring_udp blocks first second root)
    set_peer_list root'
    if is_neg 1 result then exited (pos 1) else pure tt
    n ← on_peers (load root')
    set_peer_list n.prev
    print_peers fuel net

  -- `main` up to the first connection.
  unfoldable pub start_peer :
      (ℕ → Block (Ring.Item DataR))
      → (first : Option ℕ) (second : Option (List DataR)) → RecvAll ℤ
      → (ℕ → Option MessagePhoto × Upload)
      → MessagePhoto
      → Cmd Peer (Unit {0})
  unfolding join_system notify_and_recv_photos
  start_peer blocks first second size copies msg = do
    join_system blocks first second
    result ← notify_and_recv_photos size copies msg
    if is_neg 1 result then exited (pos 1) else pure tt
