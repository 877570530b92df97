-- ===== src/System/Upload.antt =====
-- A photo on its way from a client to the peers: `gallery_add_photo` of library.c, `add_photo` of peer.c
-- with its replicas, and the id that `connection_peer` of gateway.c gives it.
use psis_project.Base.{
  ℕ, suc, ◌+◌, ◌%◌, ◌^◌, ◌<◌, ◌≡◌, ◌≢◌, refl, ap, pos, true, false, Option, some, none, List, [],
  ◌∷◌, ◌++◌, ltb, length, arith,
}
use mathlib.Core.List.{append_assoc}
use psis_project.Machine.{ok}
use psis_project.Heap.{Ptr, null, Heap, Block}
use psis_project.Cells.{Cells}
use psis_project.Ring
use psis_project.Ring.Chain.{IsRing}
use psis_project.LinkedList.{Item}
use psis_project.LinkedList.Linked.{IsList}
use psis_project.Text.{Text, decimal, decimal_long, print_file, print_photo}
use psis_project.Text.RoundTrip.{IsField}
use psis_project.Text.Photo.{scan_file-print_file}
use psis_project.Msgs.{DataR, MessagePhoto}
use psis_project.Msgs.Network.{IsDecided}
use psis_project.Sockets.{RecvAll, all_closed, all_received, bytes, no_bytes}
use psis_project.Photos.{Data}
use psis_project.Gateway
use psis_project.Gateway.{Gateway, Source, fetch_id, photo_id_to}
use psis_project.Peer
use psis_project.Peer.{
  Peer, Sent, id_sent, gateway_message, port_of, put_file, print_photos, print_peers, emit,
}
use psis_project.Peer.Parts.{replica_parts}
use psis_project.Peer.Notify.{reachable, told}
use psis_project.Peer.Adding.{named, CanPassOn, add_photo-stored}
use psis_project.Peer.Transfer.{Upload}
use psis_project.Peer.Connection.{Request, go_on, dispatch}
use psis_project.Library.{Output, to_peer, photo_sent, stream_and_send_photo}
use psis_project.Library.Photos.{gallery_add_photo, send_content}

-- The id that the peer gets of what the gateway sent, and the client of what the peer sent.
abbrev pub id_fetched : Gateway.Sent → Option ℕ
id_fetched (photo_id_to from id) = some id
id_fetched other = none

abbrev pub id_received : List Sent → RecvAll ℕ
id_received (gateway_message addr port type ∷ id_sent id ∷ rest) = all_received id
id_received other = all_closed

abbrev pub request_of : List Output → MessagePhoto
request_of (to_peer m ∷ rest) = m
request_of other = record { buffer = []; type = pos 0 }

-- The photo and its bytes, as they arrive at the peer of what the client sent.
abbrev pub uploaded : Block (Item Data) → Text → List Output → Upload
uploaded block old (to_peer m ∷ photo_sent content ∷ rest) = record {
  block = block;
  name = old;
  keywords = all_closed;
  photo = bytes content ∷ [];
}
uploaded block old other = record {
  block = block;
  name = old;
  keywords = all_closed;
  photo = no_bytes;
}

-- The file can be announced in one message, and its name in the message of the replicas.
pub record CanUpload (file : Text) (content : List ℕ) (id room : ℕ) : Type 0 where
  pub given : file ≢ []
  pub field : IsField file
  pub size_fits : length content < 2 ^ 31
  pub some_bytes : length content ≢ 0
  pub digits_fit : length (decimal_long (length content)) < 19
  pub in_room : length (print_file file (length content)) < room
  pub in_message : length (print_file file (length content)) < 100
  pub in_name : length file < 100
  pub in_header : length (print_photo file (length content) id 0) < 100

-- The client's side, when the peer has answered with an id.
gallery_add_photo-sent :
    (file : Text) (content : List ℕ) (id room : ℕ) (out : List Output)
    → CanUpload file content (suc id) room
    → gallery_add_photo (some content) room true (all_received (suc id)) true file out
      ≡ ok (suc id) (
          out
          ++ to_peer (record { buffer = print_file file (length content); type = pos 1 })
            ∷ photo_sent content
            ∷ [])
unfolding gallery_add_photo stream_and_send_photo send_content
gallery_add_photo-sent file content id room out can =
    let temp : ltb (length (b',' ∷ decimal_long (length content))) 20 ≡ true =
      ground (arith, can.digits_fit) in
    let space : ltb (length (print_file file (length content))) room ≡ true =
      ground (arith, can.in_room) in
    let short : ltb (length (print_file file (length content))) 100 ≡ true =
      ground (arith, can.in_message) in
    rw (temp, space, short) (ap (ok (suc id)) (append_assoc out _ _))

module _ (fuel : ℕ) (net : Peer.Answers) (decided : IsDecided net.connect) where
  -- A client adds a photo: `gallery_add_photo` of the client sends a message of type 1, the
  -- peer's `connection` handles it by its type, and the gateway gives the id (type 1). Then
  -- the client's result is the id, which is one more than the last id of the gateway; the peer
  -- has the photo with this name and id and without keywords in front of its list, and a file
  -- with the id as name and the photo's bytes; it sends the photo to each other peer that is
  -- online, reports each that is not to the gateway, and takes the latter out of its list; its
  -- mutexes are free again. (The id fits 32 bits, the file's name is not empty and has no
  -- comma, name and size fit the messages, the client's file is there, is not empty and has
  -- fewer than 2^31 bytes, which arrive in one piece, and all the client sends and receives
  -- gets through; the peer's lists are well formed, its mutexes were free, it is online
  -- itself, `malloc` gives a new address, what it sends gets through and its file can be
  -- opened, each `connect` reaches a peer, with a descriptor other than 0, or is refused, and
  -- the fuel exceeds the number of photos with the new one and that of other peers.)
  pub gallery_add_photo-stored :
      (gateway : Gateway) (from : Source) (s : Peer) (photos : Cells Data) (self : Ptr × DataR)
      (xs : Cells DataR) (block : Block (Item Data)) (old file : Text) (content : List ℕ) (room : ℕ)
      (out : List Output) (r : Request)
      → suc gateway.photo_id < 2 ^ 32
      → CanUpload file content (suc gateway.photo_id) room
      → CanPassOn net self xs
      → IsList s.photos s.photo_list photos
      → s.photo_lock ≡ false
      → IsRing s.peers s.peer_list (self ∷ xs)
      → s.peer_lock ≡ false
      → block.address ≢ null
      → s.photos block.address ≡ none
      → suc (length photos) < fuel
      → length xs < fuel
      → let id = suc gateway.photo_id in
        let k = named file id in
        let given = photo_id_to from id in
        let m : MessagePhoto = record { buffer = print_file file (length content); type = pos 1 } in
        let sent = to_peer m ∷ photo_sent content ∷ [] in
        let reply = gateway_message [] (port_of net) (pos 1) ∷ id_sent id ∷ [] in
        let arrived = record r {
          message = request_of sent;
          fetched = id_fetched given;
          upload = uploaded block old sent;
        } in
        (h : Heap (Item Data)) × (p : Ptr) × (g : Heap (Ring.Item DataR)) × (q : Ptr) × (fetch_id
            from gateway
          ≡ ok tt (record gateway { photo_id = id; out = gateway.out ++ given ∷ [] }))
        × (dispatch fuel net arrived s
            ≡ ok go_on (record s {
              photos = h;
              photo_list = p;
              photo_lock = false;
              peers = g;
              peer_list = q;
              peer_lock = false;
              files = put_file s.files (decimal id) (some content);
              out = s.out ++ (reply ++ told net [] (pos 9) (replica_parts content k) xs);
            }))
        × (gallery_add_photo (some content) room true (id_received reply) true file out
            ≡ ok id (out ++ sent))
        × IsList h p ((block.address, k) ∷ photos)
        × IsRing g q (self ∷ reachable net xs)
  unfolding fetch_id dispatch
  gallery_add_photo-stored gateway from s photos self xs block old file content room out r small
        can_upload can list free ring peers_free ne unused enough few =
      let last = gateway.photo_id in
      let next : (last + 1) % 2 ^ 32 ≡ suc last = omega arith in
      let m : MessagePhoto = record { buffer = print_file file (length content); type = pos 1 } in
      let header =
        scan_file-print_file file (length content) old can_upload.given can_upload.field
          (omega (arith, can_upload.size_fits)) in
      let (h, p, g, q, run, list', ring') =
        add_photo-stored fuel net decided s photos self xs block old file content last m header
          can_upload.some_bytes can_upload.size_fits can_upload.in_name can_upload.in_header list
          free ring peers_free ne unused can enough few in
      (
        h,
        p,
        g,
        q,
        rw next refl,
        rw run refl,
        gallery_add_photo-sent file content last room out can_upload,
        list',
        ring',
      )
