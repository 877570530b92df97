-- ===== src/Tests/PeerRuns.antt =====
-- A peer with two others, of which the one at port 3002 does not answer, and with three photos.
use psis_project.Base.{
  ℤ, ◌≡◌, refl, pos, true, false, some, none, [], ◌∷◌, ◌==◌, if◌then◌else◌, arith, Bool-cases, inl,
  inr,
}
use psis_project.Machine.{ok}
use psis_project.Heap.{Ptr, Heap}
use psis_project.Cells.{Cells, contains, erase}
use psis_project.Ring
use psis_project.Ring.Chain.{IsRing}
use psis_project.LinkedList
use psis_project.LinkedList.Linked.{IsList}
use psis_project.Text.{Text, decimal, decimal_loop, print_peer, print_photo, scan_id}
use psis_project.Msgs.{DataR, data_r, MessagePhoto, accepted, refused}
use psis_project.Msgs.Network.{IsDecided}
use psis_project.Photos.{Data, equal_data}
use psis_project.Peer.{
  Peer, Answers, Files, put_file, key, broadcast_peers_and_notify, insert_keyword, delete_photo,
}
use psis_project.Peer.Parts.{CanSend, replica_parts}
use psis_project.Peer.Notify.{Fits, with_peers, told, broadcast_peers_and_notify-told}
use psis_project.Peer.Keywords.{list_answer, insert_keyword-answer}
use psis_project.Peer.Bounds.{Bounded, insert_keyword-Bounded}
use psis_project.Peer.Delete.{delete_photo-replicated}
use psis_project.Tests.Rings.{three, three-IsRing}
use psis_project.Tests.Lists.{line, line_cells, line-IsList}

abbrev pub addr : Text
addr = b'h' ∷ []

abbrev pub k1 : DataR
k1 = data_r addr 3001

abbrev pub k2 : DataR
k2 = data_r addr 3002

abbrev pub k3 : DataR
k3 = data_r addr 3003

abbrev pub net : Answers
net = record {
  pid = 1;
  connect = λ k. if k.port == 3002 then refused else accepted 4;
  report_sent = true;
  count_sent = true;
  id_answered = true;
  header_sent = true;
  keywords_sent = true;
  file_opened = true;
}

pub decided : IsDecided net.connect
decided k = elim (Bool-cases (k.port == 3002)) [
  | inl q ↦ inr (rw q refl)
  | inr q ↦ inl (3, rw q refl)
]

abbrev pub sea : Text
sea = b's' ∷ b'e' ∷ b'a' ∷ []

abbrev pub d1 : Data
d1 = record { name = []; id = 1; keyword = λ i. []; n_keywords = 0 }

abbrev pub d2 : Data
d2 = record { name = []; id = 2; keyword = λ i. sea; n_keywords = 1 }

abbrev pub d3 : Data
d3 = record { name = []; id = 3; keyword = λ i. []; n_keywords = 20 }

-- The files of the photos.
abbrev stored : Files
stored =
    put_file (put_file (λ name. none) (decimal 1) (some (7 ∷ []))) (decimal 2) (some (8 ∷ 9 ∷ []))

abbrev pub s : Peer
s = record {
  photos = line d1 d2 d3;
  photo_list = 10;
  photo_lock = false;
  peers = three k1 k2 k3;
  peer_list = 10;
  peer_lock = false;
  files = stored;
  out = [];
}

abbrev pub photos : Cells Data
photos = line_cells d1 d2 d3

abbrev others : Cells DataR
others = (20, k2) ∷ (30, k3) ∷ []

pub fits : Fits others
unfolding print_peer decimal decimal_loop
fits = (omega arith, (omega arith, tt))

pub can : CanSend net stored d2 (8 ∷ 9 ∷ [])
unfolding print_photo decimal decimal_loop
can = record {
  found = refl;
  header_fits = omega arith;
  keywords_fit = λ _. omega arith;
  header_sent = refl;
  keywords_sent = refl;
}

broadcast_peers_and_notify-told_example :
    (h : Heap (Ring.Item DataR)) × (p : Ptr) × (broadcast_peers_and_notify 3 net sea
        (pos 10)
        (some d2)
        s
      ≡ ok 1
          (record (with_peers s h p
            (told net sea (pos 10) (replica_parts (8 ∷ 9 ∷ []) d2) others)) { peer_lock = false }))
    × IsRing h p ((10, k1) ∷ (30, k3) ∷ [])
broadcast_peers_and_notify-told_example =
    broadcast_peers_and_notify-told 3 net decided sea (pos 10) (some d2)
      (replica_parts (8 ∷ 9 ∷ []) d2) s (10, k1) others (three-IsRing k1 k2 k3) refl refl refl
      (8 ∷ 9 ∷ [], can, refl) fits (omega arith)

insert_keyword-answer_example :
    (h : Heap (LinkedList.Item Data)) × (insert_keyword 4 net 2 sea s
      ≡ ok (list_answer 2 sea photos).0 (record s { photos = h; photo_lock = false }))
    × IsList h 10 (list_answer 2 sea photos).1
insert_keyword-answer_example =
    insert_keyword-answer 4 net s photos 2 sea (line-IsList d1 d2 d3) refl (omega arith)

abbrev deletion : MessagePhoto
deletion = record { buffer = b'2' ∷ []; type = pos 11 }

delete_photo-replicated_example :
    let id = scan_id deletion.buffer 0 in
    (h : Heap (LinkedList.Item Data)) × (p : Ptr) × (delete_photo 4 net 0 deletion s
      ≡ ok tt (record s {
        photos = h;
        photo_list = p;
        photo_lock = false;
        files =
            if contains equal_data (key id) photos
            then put_file s.files (decimal id) none
            else s.files;
      }))
    × IsList h p (erase equal_data (key id) photos)
delete_photo-replicated_example =
    delete_photo-replicated 4 net s photos 0 deletion (line-IsList d1 d2 d3) refl (omega arith) refl

photos-Bounded : Bounded photos
photos-Bounded = (omega arith, (omega arith, (omega arith, tt)))

insert_keyword-Bounded_example :
    (answer : ℤ) × (h : Heap (LinkedList.Item Data)) × (ys : Cells Data) × (insert_keyword 4 net 3
        sea s
      ≡ ok answer (record s { photos = h; photo_lock = false }))
    × IsList h 10 ys
    × Bounded ys
insert_keyword-Bounded_example =
    insert_keyword-Bounded 4 net s photos 3 sea (line-IsList d1 d2 d3) refl (omega arith)
      photos-Bounded
