-- ===== src/Peer/Adding.antt =====
-- add_photo of peer.c for a photo that a client sends: it is stored and passed on.
use psis_project.Base.{
  ◌^◌, ℕ, suc, ◌<◌, ◌≤◌, ◌≡◌, ◌≢◌, refl, ◌∙◌, ap, ℤ, pos, Bool, true, false, some, none, List, [],
  ◌∷◌, ◌++◌, ◌==◌, ltb, ◌&&◌, not, if◌then◌else◌, length, arith, suc_ne_zero, Bool-cases, inl, inr,
}
use mathlib.Core.List.{append_assoc}
use psis_project.Machine.{ok, Cmd, pure, ◌>>◌}
use psis_project.Heap.{Ptr, null, Heap, Block}
use psis_project.Cells.{Cells}
use psis_project.Ring
use psis_project.Ring.Chain.{IsRing}
use psis_project.LinkedList.{Item}
use psis_project.LinkedList.Linked.{IsList}
use psis_project.Text.{Text, decimal, text_eq_refl, scan_file, print_photo, int_of}
use psis_project.Msgs.{DataR, MessagePhoto}
use psis_project.Msgs.Network.{IsDecided, online}
use psis_project.Sockets.{all_closed, bytes}
use psis_project.Photos.{Data, set_data}
use psis_project.Peer.{
  Peer, Answers, Sent, id_sent, gateway_message, port_of, put_file, print_photos, print_peers, emit,
}
use psis_project.Peer.Keywords.{print_photos-free}
use psis_project.Peer.Enter.{print_peers-free}
use psis_project.Peer.Parts.{replica_parts, CanSend}
use psis_project.Peer.Notify.{Fits, reachable, missing, told, broadcast_peers_and_notify-told}
use psis_project.Peer.Transfer.{add_photo}
use psis_project.Peer.Replica.{insert_photo-inserted, save_photo-saved}

-- The photo as the peer keeps it.
abbrev pub named : Text → ℕ → Data
named name id = record { name = name; id = id; keyword = λ i. []; n_keywords = 0 }

-- The peer is online itself, and what it sends gets through.
pub record CanPassOn (net : Answers) (self : Ptr × DataR) (xs : Cells DataR) : Type 0 where
  pub up : online net.connect self.1 ≡ true
  pub fits : Fits xs
  pub report_sent : net.report_sent ≡ true
  pub id_answered : net.id_answered ≡ true
  pub header_sent : net.header_sent ≡ true
  pub keywords_sent : net.keywords_sent ≡ true
  pub file_opened : net.file_opened ≡ true

-- A result that is only printed.
pub printed :
    (fuel : ℕ) (net : Answers) (n : ℕ) (s : Peer) (xs : Cells DataR)
    → IsRing s.peers s.peer_list xs
    → s.peer_lock ≡ false
    → length xs ≤ fuel
    → (if n == 0 then pure tt else print_peers fuel net) s ≡ ok tt (record s { peer_lock = false })
printed fuel net n s xs ring free few = elim (Bool-cases (n == 0)) [
  | inl none_missing ↦ rw none_missing (ap (λ b. ok tt (record s { peer_lock = b })) free)
  | inr some_missing ↦ rw some_missing (print_peers-free fuel net s xs ring free few)
]

pub length-reachable-le : (net : Answers) (xs : Cells DataR) → length (reachable net xs) ≤ length xs
length-reachable-le net [] = omega arith
length-reachable-le net (c ∷ cs) = elim (Bool-cases (online net.connect c.1)) [
  | inl up ↦ rw up (omega (arith, length-reachable-le net cs))
  | inr down ↦ rw down (omega (arith, length-reachable-le net cs))
]

-- The end of `add_photo`, which only prints.
finished :
    (fuel : ℕ) (net : Answers) (n : ℕ) (result : ℤ) (s : Peer) (xs : Cells DataR)
    (photos : Cells Data)
    → IsRing s.peers s.peer_list xs
    → s.peer_lock ≡ false
    → IsList s.photos s.photo_list photos
    → s.photo_lock ≡ false
    → length xs ≤ fuel
    → length photos < fuel
    → (do if n == 0 then pure tt else print_peers fuel net; print_photos fuel net; pure result) s
      ≡ ok result (record s { peer_lock = false; photo_lock = false })
finished fuel net n result s xs photos ring free list photos_free few enough =
    rw
      (
        printed fuel net n s xs ring free few,
        print_photos-free fuel net (record s { peer_lock = false }) photos list photos_free enough,
      )
      refl

-- The gateway answers with an id, which goes to the client.
id_passed_on :
    (reported answered : Bool) (m n : Sent) (id : ℕ) (s : Peer) (stored failed : Cmd Peer ℤ)
    → reported ≡ true
    → answered ≡ true
    → (do
      if reported then emit m else pure tt
      if reported && answered then emit n else pure tt
      if reported && answered && not (suc id == 0) then stored else failed)
        s
      ≡ stored (record s { out = s.out ++ m ∷ n ∷ [] })
id_passed_on reported answered m n id s stored failed e f =
    rw (e, f, suc_ne_zero id, append_assoc) refl

module _ (fuel : ℕ) (net : Answers) (decided : IsDecided net.connect) where
  -- The peer's side.
  pub add_photo-stored :
      (s : Peer) (photos : Cells Data) (self : Ptr × DataR) (xs : Cells DataR)
      (block : Block (Item Data)) (old name : Text) (content : List ℕ) (id : ℕ) (msg : MessagePhoto)
      → (scan_file msg.buffer old).0
        ≡ record { name = name; size = length content; id = 0; n_keywords = pos 0 }
      → length content ≢ 0
      → length content < 2 ^ 31
      → length name < 100
      → length (print_photo name (length content) (suc id) 0) < 100
      → IsList s.photos s.photo_list photos
      → s.photo_lock ≡ false
      → IsRing s.peers s.peer_list (self ∷ xs)
      → s.peer_lock ≡ false
      → block.address ≢ null
      → s.photos block.address ≡ none
      → CanPassOn net self xs
      → suc (length photos) < fuel
      → length xs < fuel
      → let k = named name (suc id) in
        (h : Heap (Item Data)) × (p : Ptr) × (g : Heap (Ring.Item DataR)) × (q : Ptr) × (add_photo
            fuel net
            (some (suc id))
            (record {
              block = block;
              name = old;
              keywords = all_closed;
              photo = bytes content ∷ [];
            })
            msg
            s
          ≡ ok (int_of (suc id)) (record s {
            photos = h;
            photo_list = p;
            photo_lock = false;
            peers = g;
            peer_list = q;
            peer_lock = false;
            files = put_file s.files (decimal (suc id)) (some content);
            out =
                s.out
                ++ gateway_message [] (port_of net) (pos 1)
                  ∷ id_sent (suc id)
                  ∷ told net [] (pos 9) (replica_parts content k) xs;
          }))
        × IsList h p ((block.address, k) ∷ photos)
        × IsRing g q (self ∷ reachable net xs)
  unfolding add_photo set_data
  add_photo-stored s photos self xs block old name content id msg read some_bytes small named_fits
        header_fits list free ring peers_free ne unused can enough few =
      let k = named name (suc id) in
      let answered = s.out ++ gateway_message [] (port_of net) (pos 1) ∷ id_sent (suc id) ∷ [] in
      let s1 = record s { out = answered } in
      let (h, p, inserted, new) = insert_photo-inserted s1 photos block k list free ne unused in
      let list' = new.list in
      let s2 = record s1 { photos = h; photo_list = p; photo_lock = false } in
      let s3 = record s2 { files = put_file s.files (decimal (suc id)) (some content) } in
      let can_send : CanSend net s3.files k content = record {
        found = rw (text_eq_refl (decimal (suc id))) refl;
        header_fits = header_fits;
        keywords_fit = λ some_kept. absurd (some_kept refl);
        header_sent = can.header_sent;
        keywords_sent = can.keywords_sent;
      } in
      let (g, q, passed_on, ring') =
        broadcast_peers_and_notify-told fuel net decided [] (pos 9) (some k)
          (replica_parts content k) s3 self xs ring peers_free can.up can.report_sent
          (content, can_send, refl) can.fits few in
      let short : ltb (length name) 100 ≡ true = ground arith in
      (
        h,
        p,
        g,
        q,
        id_passed_on net.report_sent net.id_answered _ _ id s _ _ can.report_sent can.id_answered
            ∙ rw
                (
                  read,
                  short,
                  inserted,
                  save_photo-saved fuel net s2 (suc id) content can.file_opened some_bytes small,
                  passed_on,
                )
                (finished fuel net (missing net xs) (int_of (suc id))
                    (record s3 {
                      peers = g;
                      peer_list = q;
                      peer_lock = false;
                      out = answered ++ told net [] (pos 9) (replica_parts content k) xs;
                    })
                    (self ∷ reachable net xs) ((block.address, k) ∷ photos) ring' refl list' refl
                    (omega (arith, length-reachable-le net xs)) enough
                  ∙ ap
                      (λ o.
                        ok (int_of (suc id))
                          (record s3 { peers = g; peer_list = q; peer_lock = false; out = o }))
                      (append_assoc s.out _ _)),
        list',
        ring',
      )
