-- ===== src/Tests/CopyRuns.antt =====
-- A photo from a client to the peer of PeerRuns, and the photos of a peer for a new one.
use psis_project.Base.{
  ℕ, ◌≡◌, refl, pos, negsuc, true, false, none, some, List, [], ◌∷◌, ◌++◌, arith,
}
use psis_project.Machine.{exited, ok}
use psis_project.Heap.{Ptr, Heap, write}
use psis_project.Cells.{Without, Cells}
use psis_project.Ring
use psis_project.Ring.Chain.{IsRing}
use psis_project.LinkedList.{Item, item}
use psis_project.LinkedList.Linked.{IsList}
use psis_project.Text.{Text, decimal, decimal_loop, print_peer, print_file, print_photo}
use psis_project.Msgs.{data_r, DataR, MessagePhoto, accepted}
use psis_project.Photos.{Data}
use psis_project.Gateway.{peer_request, fetch_id, photo_id_to}
use psis_project.Peer.{gateway_message, port_of, id_sent, Peer, Answers, put_file}
use psis_project.Peer.Adding.{named, CanPassOn}
use psis_project.Peer.Connection.{go_on, dispatch, kill_server}
use psis_project.Peer.Notify.{reachable, told}
use psis_project.Peer.Parts.{replica_parts}
use psis_project.Library.{to_peer, photo_sent}
use psis_project.Library.Photos.{gallery_add_photo}
use psis_project.System.Upload.{
  id_fetched, id_received, uploaded, CanUpload, gallery_add_photo-stored,
}
use psis_project.System.Leaving
use psis_project.System.Leaving.{kill_server-leave}
use psis_project.Gateway.Broadcast.{notices}
use psis_project.Gateway.Requests.{serving}
use psis_project.Msgs.Network.{removed}
use psis_project.Tests.Rings.{three-IsRing}
use psis_project.Tests.Lists.{line-IsList}
use psis_project.Tests.PeerRuns.{addr, s, net, photos, d1, d2, d3, k1, k2, k3, fits, decided}
use psis_project.Tests.SystemRuns.{plain, others, k, blocks, fresh}
use psis_project.Tests.GatewayRuns

abbrev file : Text
file = b'p' ∷ []

can_upload : CanUpload file (8 ∷ 9 ∷ []) 8 50
unfolding print_file print_photo decimal decimal_loop
can_upload = record {
  given = ground arith;
  field = (ground arith, tt);
  size_fits = omega arith;
  some_bytes = ground arith;
  digits_fit = omega arith;
  in_room = omega arith;
  in_message = omega arith;
  in_name = omega arith;
  in_header = omega arith;
}

can_pass_on : CanPassOn net (10, k1) others
can_pass_on = record {
  up = refl;
  fits = fits;
  report_sent = refl;
  id_answered = refl;
  header_sent = refl;
  keywords_sent = refl;
  file_opened = refl;
}

gallery_add_photo-stored_example :
    let k = named file 8 in
    let gateway = GatewayRuns.s in
    let given = photo_id_to GatewayRuns.from_k3 8 in
    let m : MessagePhoto = record { buffer = print_file file 2; type = pos 1 } in
    let sent = to_peer m ∷ photo_sent (8 ∷ 9 ∷ []) ∷ [] in
    let reply = gateway_message [] (port_of net) (pos 1) ∷ id_sent 8 ∷ [] in
    let arrived = record plain {
      message = m;
      fetched = id_fetched given;
      upload = uploaded (blocks 0) [] sent;
    } in
    (h : Heap (Item Data)) × (p : Ptr) × (g : Heap (Ring.Item DataR)) × (q : Ptr) × (fetch_id
        GatewayRuns.from_k3 gateway
      ≡ ok tt (record gateway { photo_id = 8; out = given ∷ [] }))
    × (dispatch 5 net arrived s
        ≡ ok go_on (record s {
          photos = h;
          photo_list = p;
          photo_lock = false;
          peers = g;
          peer_list = q;
          peer_lock = false;
          files = put_file s.files (decimal 8) (some (8 ∷ 9 ∷ []));
          out = reply ++ told net [] (pos 9) (replica_parts (8 ∷ 9 ∷ []) k) others;
        }))
    × (gallery_add_photo (some (8 ∷ 9 ∷ [])) 50 true (id_received reply) true file [] ≡ ok 8 sent)
    × IsList h p ((40, k) ∷ photos)
    × IsRing g q ((10, k1) ∷ reachable net others)
gallery_add_photo-stored_example =
    gallery_add_photo-stored 5 net decided GatewayRuns.s GatewayRuns.from_k3 s photos (10, k1)
      others (blocks 0) [] file (8 ∷ 9 ∷ []) 50 [] plain (omega arith) can_upload can_pass_on
      (line-IsList d1 d2 d3) refl (three-IsRing k1 k2 k3) refl (fresh.not_null 0) (fresh.unused 0)
      (omega arith) (omega arith)

-- A peer with one photo.
abbrev sender : Peer
sender = record s { photos = write (λ a. none) 10 (some (item k 0)) }

-- A peer that enters, and reaches all others.
abbrev newcomer : Peer
newcomer = record s { photos = λ a. none; photo_list = 0; files = λ name. none }

abbrev all_up : Answers
all_up = record net { connect = λ k. accepted 4 }

abbrev content : Data → List ℕ
content d = 8 ∷ 9 ∷ []

abbrev msg : MessagePhoto
msg = record { buffer = []; type = pos 8 }

kill_server-leave_example :
    let left = removed k1 GatewayRuns.xs in
    let g = GatewayRuns.s in
    let sent = gateway_message addr (port_of net) (negsuc 0) ∷ [] in
    (h : Heap (Item Data)) × (k : Heap (Ring.Item DataR)) × (p : Ptr) × (kill_server 4 net
        {A = Unit {0}} s
      ≡ exited (pos 0) (record s { photos = h; photo_lock = false; out = sent }))
    × Without photos s.photos h
    × (peer_request 4 GatewayRuns.net GatewayRuns.block
          (data_r [] 0)
          (Leaving.request_of sent)
          GatewayRuns.from_k3
          g
        ≡ ok tt (serving g k p (notices GatewayRuns.net (print_peer addr 3001) (pos 12) left)))
    × IsRing k p left
kill_server-leave_example =
    kill_server-leave 4 GatewayRuns.net GatewayRuns.decided net s photos (10, k1) others
      GatewayRuns.s GatewayRuns.xs GatewayRuns.from_k3 GatewayRuns.block (data_r [] 0)
      (three-IsRing k1 k2 k3) (line-IsList d1 d2 d3) refl refl (omega arith) (omega arith)
      GatewayRuns.s-IsServing (omega arith)
