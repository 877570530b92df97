-- ===== src/Peer.antt =====
-- peer.c: what one message of a client or of another peer about keywords, photos and peers does. A
-- handler is run as one step, which finds the mutexes free and holds them as the code does.
mod State
mod Sending
unfoldable pub use State.*
unfoldable pub use Sending.*
pub mod Keywords
pub mod Notify
pub mod Delete
pub mod Bounds
pub mod Transfer
pub mod Replica
pub mod Connection
pub mod Enter
pub mod Greet
pub mod Process
pub mod Adding
pub mod Keying
pub mod Matches
pub mod Search
pub mod Parts
use psis_project.Base.{
  ℕ, zero, suc, ◌+◌, ◌%◌, ◌^◌, ◌≡◌, ℤ, pos, negsuc, Bool, true, false, Option, none, some, List, [],
  ◌∷◌, ◌++◌, ◌==◌, ltb, if◌then◌else◌, length,
}
use psis_project.Machine.{Run, ok, Cmd, pure, fault, exited, blocked, out_of_fuel, ◌>>=◌, ◌>>◌}
use psis_project.Heap.{Ptr, null, Heap, Block, load, modify, free}
use psis_project.Ring
use psis_project.Ring.{ring_append}
use psis_project.LinkedList
use psis_project.LinkedList.{list_init, list_insert, list_first, list_remove, list_search}
use psis_project.Text.{Text, decimal, scan_peer, scan_peer_int, scan_keyword, scan_id}
use psis_project.Msgs.{DataR, data_r, MessagePhoto, strcpy, set_data_r}
use psis_project.Photos.{Data, set_data, equal_data, search_keyword, store_keyword}

-- Fuel of the loops over the lists. `net` is what the network answers.
module _ (fuel : ℕ) (net : Answers) where
  -- Clients are answered, and a success is broadcast; other peers are not.
  unfoldable pub broadcast_change : Text → ℤ → Cmd Peer (Unit {0})
  broadcast_change message type = do
    offline ← broadcast_peers_and_notify fuel net message type none
    if offline == 0 then pure tt else print_peers fuel net

  -- The search and the insertion of `add_keyword`: the value of `success`.
  unfoldable pub insert_keyword : ℕ → Text → Cmd Peer ℤ
  insert_keyword id keyword = do
    lock_photos
    list ← get_photo_list
    aux ← on_photos (list_search equal_data fuel list (key id))
    unlock_photos
    if aux == null then pure (negsuc 1) else do
      n ← on_photos (load aux)
      if ltb n.K.n_keywords 20
          then (if search_keyword n.K keyword then pure (negsuc 2) else do
            lock_photos
            on_photos (modify (λ m. record m { K = store_keyword keyword m.K }) aux)
            unlock_photos
            print_photos fuel net
            pure (pos 1))
          else pure (negsuc 0)

  -- `old` is what the stack holds before `sscanf`.
  unfoldable pub add_keyword : ℕ × Text → MessagePhoto → Cmd Peer (Unit {0})
  add_keyword old msg = do
    let parsed = scan_keyword msg.buffer old
    success ← insert_keyword parsed.0 parsed.1
    if is_pos 10 msg.type then pure tt else do
      emit (int_sent success)
      if is_pos 1 success then broadcast_change msg.buffer (pos 10) else pure tt

  -- The loop of `search_photo` over the photos: the list of matches, and how many there are.
  -- `blocks` are the results of `malloc`.
  unfoldable pub match_loop :
      ℕ → (ℕ → Block (LinkedList.Item Data)) → Ptr → Text → Ptr → ℕ → Cmd Peer (Ptr × ℕ)
  match_loop zero blocks photo keyword list n_photos = λ _. out_of_fuel
  match_loop (suc rounds) blocks photo keyword list n_photos =
      if photo == null then pure (list, n_photos) else do
        n ← on_photos (load photo)
        if search_keyword n.K keyword
            then (do
              k ← set_data [] n.K.id
              list' ← on_photos (list_insert (blocks 0) list k)
              match_loop rounds (λ i. blocks (suc i)) n.next keyword list' (n_photos + 1))
            else match_loop rounds blocks n.next keyword list n_photos

  -- The loop that moves the matches into an array.
  unfoldable pub array_loop : ℕ → Ptr → Cmd Peer (List ℕ)
  array_loop zero list = pure []
  array_loop (suc n) list = do
    (aux, list') ← on_photos (list_first list)
    node ← on_photos (load aux)
    on_photos (free aux)
    rest ← array_loop n list'
    pure (node.K.id ∷ rest)

  unfoldable pub search_photo :
      (ℕ → Block (LinkedList.Item Data)) → MessagePhoto → Cmd Peer (Unit {0})
  unfolding match_loop array_loop
  search_photo blocks msg = do
    keyword ← strcpy 100 msg.buffer
    lock_photos
    photo ← get_photo_list
    (list, n_photos) ← match_loop fuel blocks photo keyword list_init 0
    unlock_photos
    if net.count_sent then emit (int_sent (pos n_photos)) else pure tt
    if net.count_sent
        then (if n_photos == 0
            then pure tt
            else do id_photos ← array_loop n_photos list; emit (ids_sent id_photos))
        else pure tt

  unfoldable pub delete_photo : ℕ → MessagePhoto → Cmd Peer (Unit {0})
  delete_photo old msg = do
    let id = scan_id msg.buffer old
    lock_photos
    list ← get_photo_list
    (found, list') ← on_photos (list_remove equal_data fuel list (key id))
    set_photo_list list'
    unlock_photos
    if found == 0 then pure tt else (do unlink_file (decimal id); print_photos fuel net)
    if is_pos 11 msg.type then pure tt else do
      emit (int_sent (pos found))
      if found == 0 then pure tt else broadcast_change msg.buffer (pos 11)

  unfoldable pub send_photo_name : ℕ → MessagePhoto → Cmd Peer (Unit {0})
  send_photo_name old msg = do
    k ← set_data [] (scan_id msg.buffer old)
    lock_photos
    list ← get_photo_list
    aux ← on_photos (list_search equal_data fuel list k)
    unlock_photos
    if aux == null then emit (int_sent (pos 0)) else do
      n ← on_photos (load aux)
      emit (int_sent (pos (length n.K.name + 1)))
      emit (text_sent n.K.name)

  -- `old` is what the stack holds of `addr`; `port` starts at 0.
  unfoldable pub register_peer : Block (Ring.Item DataR) → Text → MessagePhoto → Cmd Peer (Unit {0})
  register_peer block old msg = do
    let k = scan_peer_int msg.buffer (old, 0)
    entry ← set_data_r k.0 k.1
    lock_peers
    root ← get_peer_list
    root' ← on_peers (ring_append block root entry)
    set_peer_list root'
    unlock_peers
    print_peers fuel net

  unfoldable pub delete_peer : DataR → MessagePhoto → Cmd Peer (Unit {0})
  delete_peer old msg = do
    let k = scan_peer msg.buffer (old.addr, old.port)
    lock_peers
    remove_peer fuel net (data_r k.0 k.1)
    unlock_peers
    print_peers fuel net
