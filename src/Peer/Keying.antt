-- ===== src/Peer/Keying.antt =====
-- add_keyword of peer.c for a client: the keyword is stored, the client is answered, and a success is passed on.
use psis_project.Base.{
  ℕ, ◌<◌, ◌≡◌, refl, ◌∙◌, ap, ℤ, pos, true, false, none, List, [], ◌∷◌, ◌++◌, if◌then◌else◌, length,
  arith, Bool-cases, inl, inr,
}
use mathlib.Core.List.{append_assoc}
use psis_project.Machine.{ok}
use psis_project.Heap.{Ptr, Heap}
use psis_project.Cells.{Cells}
use psis_project.Ring
use psis_project.Ring.Chain.{IsRing}
use psis_project.LinkedList.{Item}
use psis_project.LinkedList.Linked.{IsList}
use psis_project.Text.{Text, scan_keyword}
use psis_project.Msgs.{DataR, MessagePhoto}
use psis_project.Msgs.Network.{IsDecided, online}
use psis_project.Photos.{Data}
use psis_project.Peer.{Peer, Answers, Sent, int_sent, is_pos, add_keyword, broadcast_change}
use psis_project.Peer.Keywords.{list_answer, insert_keyword-answer}
use psis_project.Peer.Notify.{Fits, reachable, missing, told, broadcast_peers_and_notify-told}
use psis_project.Peer.Adding.{printed, length-reachable-le}

-- What the other peers are told, and which of them stay in the list.
abbrev pub passed_on : Answers → ℤ → Text → Cells DataR → List Sent
passed_on net success message xs = if is_pos 1 success then told net message (pos 10) [] xs else []

abbrev pub kept : Answers → ℤ → Cells DataR → Cells DataR
kept net success xs = if is_pos 1 success then reachable net xs else xs

module _ (fuel : ℕ) (net : Answers) (decided : IsDecided net.connect) where
  pub add_keyword-answer :
      (s : Peer) (photos : Cells Data) (self : Ptr × DataR) (xs : Cells DataR) (old : ℕ × Text)
      (msg : MessagePhoto) (id : ℕ) (keyword : Text)
      → scan_keyword msg.buffer old ≡ (id, keyword)
      → is_pos 10 msg.type ≡ false
      → IsList s.photos s.photo_list photos
      → s.photo_lock ≡ false
      → length photos < fuel
      → IsRing s.peers s.peer_list (self ∷ xs)
      → s.peer_lock ≡ false
      → online net.connect self.1 ≡ true
      → net.report_sent ≡ true
      → Fits xs
      → length xs < fuel
      → let r = list_answer id keyword photos in
        (h : Heap (Item Data)) × (g : Heap (Ring.Item DataR)) × (q : Ptr) × (add_keyword fuel net
            old msg s
          ≡ ok tt (record s {
            photos = h;
            photo_lock = false;
            peers = g;
            peer_list = q;
            peer_lock = false;
            out = s.out ++ int_sent r.0 ∷ passed_on net r.0 msg.buffer xs;
          }))
        × IsList h s.photo_list r.1
        × IsRing g q (self ∷ kept net r.0 xs)
  unfolding add_keyword broadcast_change
  add_keyword-answer s photos self xs old msg id keyword read from_client list free enough ring
        peers_free up sent fits few =
      let r = list_answer id keyword photos in
      let (h, stored, list') =
        insert_keyword-answer fuel net s photos id keyword list free enough in
      let s1 = record s { photos = h; photo_lock = false; out = s.out ++ int_sent r.0 ∷ [] } in
      elim (Bool-cases (is_pos 1 r.0)) [
        | inl success ↦
            let (g, q, run, ring') =
              broadcast_peers_and_notify-told fuel net decided msg.buffer (pos 10) none [] s1 self
                xs ring peers_free up sent refl fits few in
            let s2 = record s1 {
              peers = g;
              peer_list = q;
              peer_lock = false;
              out = s1.out ++ told net msg.buffer (pos 10) [] xs;
            } in
            (
              h,
              g,
              q,
              rw (read, stored, from_client, success, run)
                  (printed fuel net (missing net xs) s2 (self ∷ reachable net xs) ring' refl
                      (omega (arith, length-reachable-le net xs, few))
                    ∙ ap (λ o. ok tt (record s2 { out = o })) (append_assoc s.out _ _)),
              list',
              rw success ring',
            )
        | inr failure ↦ (
          h,
          s.peers,
          s.peer_list,
          rw (read, stored, from_client, failure)
              (ap (λ b. ok tt (record s1 { peer_lock = b })) peers_free),
          list',
          rw failure ring,
        )
      ]
