-- ===== src/Peer/Transfer.antt =====
-- peer.c: photos that arrive, from a client or as a replica from another peer, and photos that are sent.
use psis_project.Base.{
  ℕ, zero, suc, ◌*◌, ℤ, pos, negsuc, not, ◌&&◌, Option, none, some, List, [], ◌==◌, ltb,
  if◌then◌else◌, length,
}
use psis_project.Machine.{Cmd, pure, fault, blocked, exited, out_of_fuel, ◌>>=◌, ◌>>◌}
use psis_project.Heap.{Ptr, null, Block, load}
use psis_project.LinkedList
use psis_project.LinkedList.{list_insert, list_search, list_count}
use psis_project.Text.{Text, decimal, scan_id, scan_file, scan_photo, int_of}
use psis_project.Msgs.{MessagePhoto}
use psis_project.Sockets.{
  Received, RecvAll, all_error, all_closed, all_overflow, all_received, take, fill_buffer,
  is_positive,
}
use psis_project.Photos.{Data, set_data, equal_data, store_words, split_words}
use psis_project.Peer.{
  Peer, Answers, int_sent, id_sent, long_sent, bytes_sent, gateway_message, on_photos,
  get_photo_list, set_photo_list, emit, read_file, write_file, port_of, lock_photos, unlock_photos,
  print_photos, print_peers, send_replica, broadcast_peers_and_notify,
}

-- What `malloc` returns for the node, what the stack holds of `name`, and what arrives behind the
-- message: the array of the keywords, by its size and the string in it, and the bytes of the photo.
pub record Upload : Type 0 where
  pub block : Block (LinkedList.Item Data)
  pub name : Text
  pub keywords : RecvAll (ℕ × Text)
  pub photo : List Received

-- The keywords of a replica. They are received into room for 20, which more would overflow; of an array
-- that is larger than what was asked for the first characters are taken, one that is smaller is waited for.
-- An array that was not written is empty.
unfoldable pub receive_keywords : ℤ → RecvAll (ℕ × Text) → Data → Cmd Peer Data
receive_keywords (negsuc n) keywords K = pure K
receive_keywords (pos zero) keywords K = pure K
receive_keywords (pos (suc n)) all_error K = exited (pos 1)
receive_keywords (pos (suc n)) all_closed K = store_words (split_words []) K
receive_keywords (pos (suc n)) all_overflow K = λ _. fault
receive_keywords (pos (suc n)) (all_received (size, keywords)) K =
    if ltb 20 (suc n)
    then (λ _. fault)
    else if ltb size (suc n * 100)
    then (λ _. blocked)
    else store_words (split_words (take (suc n * 100) keywords)) K

-- `list_insert(&photo_list, photo)` behind the mutex.
unfoldable pub insert_photo : Block (LinkedList.Item Data) → Data → Cmd Peer (Unit {0})
insert_photo block photo = do
  lock_photos
  list ← get_photo_list
  list' ← on_photos (list_insert block list photo)
  set_photo_list list'
  unlock_photos

-- An id that could not be all_received is 0.
abbrev pub fetched_id : Option ℕ → ℕ
fetched_id none = 0
fetched_id (some id) = id

module _ (fuel : ℕ) (net : Answers) where
  -- The photo's bytes, `size` of them, go to the file that has its id as name.
  unfoldable pub save_photo : (id size : ℕ) → List Received → Cmd Peer (Unit {0})
  save_photo id size photo = fill_buffer photo size λ bytestream result.
      if is_positive result
      then (if net.file_opened then write_file (decimal id) bytestream else exited (negsuc 0))
      else exited (pos 1)

  -- `add_photo(fd, msg, 1)`: a replica.
  unfoldable pub add_replica : Upload → MessagePhoto → Cmd Peer ℤ
  add_replica up msg = do
    let header = scan_photo msg.buffer up.name
    blank ← set_data header.name header.id
    photo ← receive_keywords header.n_keywords up.keywords blank
    insert_photo up.block photo
    save_photo header.id header.size up.photo
    print_photos fuel net
    pure (int_of header.id)

  -- `add_photo(fd, msg, 0)`: a photo of a client. `fetched` is the id that the gateway sends, `none`
  -- where receiving it fails.
  unfoldable pub add_photo : Option ℕ → Upload → MessagePhoto → Cmd Peer ℤ
  add_photo fetched up msg = do
    let header = (scan_file msg.buffer up.name).0
    let id = fetched_id fetched
    if net.report_sent then emit (gateway_message [] (port_of net) (pos 1)) else pure tt
    if net.report_sent && net.id_answered then emit (id_sent id) else pure tt
    if net.report_sent && net.id_answered && not (id == 0)
        then (do
          photo ← set_data header.name id
          insert_photo up.block photo
          save_photo id header.size up.photo
          offline ← broadcast_peers_and_notify fuel net [] (pos 9) (some photo)
          if offline == 0 then pure tt else print_peers fuel net
          print_photos fuel net
          pure (int_of id))
        else pure (negsuc 0)

  -- `send_photo(fd, msg, 0, NULL)`: a photo to a client. Without its file, `fseek` is called on `NULL`.
  unfoldable pub send_photo : ℕ → MessagePhoto → Cmd Peer (Unit {0})
  send_photo old msg = do
    k ← set_data [] (scan_id msg.buffer old)
    lock_photos
    list ← get_photo_list
    aux ← on_photos (list_search equal_data fuel list k)
    unlock_photos
    if aux == null then emit (long_sent 0) else do
      n ← on_photos (load aux)
      opened ← read_file (decimal n.K.id)
      elim opened [
        | none ↦ λ _. fault
        | some content ↦ do
          emit (long_sent (length content))
          if length content == 0 then pure tt else emit (bytes_sent content)
      ]

  -- `photo_replication`; `next` is what follows on the connection. Where no message arrives, `msg`
  -- is read again.
  unfoldable pub photo_replication : Option MessagePhoto → Upload → MessagePhoto → Cmd Peer ℤ
  photo_replication none up msg = add_replica up msg
  photo_replication (some next) up msg = add_replica up next

  -- The loop of `send_all_photos`.
  unfoldable pub send_photos_loop : ℕ → Ptr → Cmd Peer (Unit {0})
  send_photos_loop zero aux = λ _. out_of_fuel
  send_photos_loop (suc rounds) aux =
      if aux == null
      then pure tt
      else do n ← on_photos (load aux); send_replica fuel net n.K; send_photos_loop rounds n.next

  unfoldable pub send_all_photos : Cmd Peer (Unit {0})
  send_all_photos = do
    lock_photos
    list ← get_photo_list
    size ← on_photos (list_count fuel list)
    if net.count_sent then emit (int_sent (pos size)) else exited (pos 1)
    send_photos_loop fuel list
    unlock_photos
