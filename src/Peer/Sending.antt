-- ===== src/Peer/Sending.antt =====
-- peer.c: printPhotos, printPeers, send_photo to another peer, and broadcastPeersAndNotify.
use psis_project.Base.{
  ℕ, zero, suc, ◌+◌, ◌*◌, ℤ, pos, negsuc, Option, none, some, ◌==◌, if◌then◌else◌, length,
}
use psis_project.Machine.{Cmd, pure, fault, exited, out_of_fuel, ◌>>=◌, ◌>>◌}
use psis_project.Heap.{Ptr, load}
use psis_project.Ring.{ring_remove, ring_print}
use psis_project.LinkedList.{list_print}
use psis_project.Text.{Text, decimal, print_peer, print_photo}
use psis_project.Msgs.{DataR, strcpy, equal_data_r, is_online}
use psis_project.Photos.{Data, words, join_words}
use psis_project.Peer.State.{
  Peer, Answers, message_sent, array_sent, bytes_sent, photo_message, gateway_message, on_photos,
  on_peers, get_photo_list, get_peer_list, set_peer_list, emit, read_file, port_of, lock_photos,
  unlock_photos, lock_peers, unlock_peers,
}

-- Fuel of the loops over the lists. `net` is what the network answers.
module _ (fuel : ℕ) (net : Answers) where
  unfoldable pub print_photos : Cmd Peer (Unit {0})
  print_photos = do
    lock_photos
    list ← get_photo_list
    on_photos (list_print fuel list)
    unlock_photos

  unfoldable pub print_peers : Cmd Peer (Unit {0})
  print_peers = do lock_peers; root ← get_peer_list; on_peers (ring_print fuel root); unlock_peers

  -- `ring_remove(&peer_list, K)`, its result not used.
  unfoldable pub remove_peer : DataR → Cmd Peer (Unit {0})
  remove_peer k = do
    root ← get_peer_list
    (found, root') ← on_peers (ring_remove equal_data_r fuel root k)
    set_peer_list root'

  -- The report of a dead peer, as a `message_gw`.
  unfoldable pub warn_gateway : DataR → Cmd Peer (Unit {0})
  warn_gateway k = do
    peer_id ← strcpy 30 (print_peer k.addr k.port)
    if net.report_sent
        then emit (gateway_message peer_id (port_of net) (negsuc 1))
        else exited (pos 1)

  -- `send_photo(fd, msg, 1, aux)`: a photo that this peer has, to another peer. Without its file,
  -- `fseek` is called on `NULL`.
  unfoldable pub send_replica : Data → Cmd Peer (Unit {0})
  send_replica photo = do
    opened ← read_file (decimal photo.id)
    elim opened [
      | none ↦ λ _. fault
      | some content ↦ do
        message ← strcpy 100 (print_photo photo.name (length content) photo.id photo.n_keywords)
        if net.header_sent
            then emit (message_sent (record { buffer = message; type = pos 1 }))
            else exited (pos 1)
        if photo.n_keywords == 0 then pure tt else do
          keywords ← strcpy (photo.n_keywords * 100) (join_words (words photo))
          if net.keywords_sent
              then emit (array_sent (photo.n_keywords * 100) keywords)
              else exited (pos 1)
        if length content == 0 then pure tt else emit (bytes_sent content)
    ]

  -- `photo` is `NULL` for `none`.
  unfoldable pub send_to_peer : Option Data → Cmd Peer (Unit {0})
  unfolding send_replica
  send_to_peer none = pure tt
  send_to_peer (some photo) = send_replica photo

  -- The loop of `broadcastPeersAndNotify`.
  unfoldable pub notify_loop : ℕ → Ptr → Text → ℤ → Option Data → ℕ → Cmd Peer ℕ
  notify_loop zero aux message type photo offline_peers = λ _. out_of_fuel
  notify_loop (suc rounds) aux message type photo offline_peers = do
    root ← get_peer_list
    if aux == root then pure offline_peers else do
      n ← on_peers (load aux)
      fd ← is_online (net.connect n.K)
      if fd == 0
          then warn_gateway n.K
          else (do emit (photo_message n.K message type); send_to_peer photo)
      count ←
          if fd == 0
          then (do
            a ← on_peers (load n.next)
            p ← on_peers (load a.prev)
            remove_peer p.K
            pure (offline_peers + 1))
          else pure offline_peers
      notify_loop rounds n.next message type photo count

  unfoldable pub broadcast_peers_and_notify : Text → ℤ → Option Data → Cmd Peer ℕ
  unfolding notify_loop
  broadcast_peers_and_notify message type photo = do
    lock_peers
    root ← get_peer_list
    n ← on_peers (load root)
    offline_peers ← notify_loop fuel n.next message type photo 0
    unlock_peers
    pure offline_peers
