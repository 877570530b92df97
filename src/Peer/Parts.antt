-- ===== src/Peer/Parts.antt =====
-- What `send_photo` of peer.c sends of a photo to another peer.
use psis_project.Base.{
  pos, ◌==◌, Option, none, ◌*◌, ℕ, ◌≡◌, ◌≢◌, ◌<◌, sym, true, some, List, [], ◌∷◌, ◌++◌, ltb,
  if◌then◌else◌, length, arith, inl, inr, Bool-cases,
}
use mathlib.Core.List.{append_assoc, append-nil}
use psis_project.Machine.{ok}
use psis_project.Text.{decimal, print_photo}
use psis_project.Photos.{Data, words, join_words}
use psis_project.Peer.{
  Files, message_sent, array_sent, bytes_sent, send_replica, send_to_peer, Peer, Answers, Sent,
}

-- What `send_photo` sends of a photo whose file has this content: the header, the keywords if there
-- are any, and the bytes if there are any.
abbrev pub replica_parts : List ℕ → Data → List Sent
replica_parts content k =
    message_sent
      (record { buffer = print_photo k.name (length content) k.id k.n_keywords; type = pos 1 })
    ∷ ((if k.n_keywords == 0
          then []
          else array_sent (k.n_keywords * 100) (join_words (words k)) ∷ [])
        ++ (if length content == 0 then [] else bytes_sent content ∷ []))

-- The photo has a file with this content, and its header and keywords fit and can be sent.
pub record CanSend (net : Answers) (files : Files) (k : Data) (content : List ℕ) : Type 0 where
  pub found : files (decimal k.id) ≡ some content
  pub header_fits : length (print_photo k.name (length content) k.id k.n_keywords) < 100
  pub keywords_fit : k.n_keywords ≢ 0 → length (join_words (words k)) < k.n_keywords * 100
  pub header_sent : net.header_sent ≡ true
  pub keywords_sent : net.keywords_sent ≡ true

-- `parts` is what is sent of the photo, if there is one.
abbrev pub Sends : Answers → Files → Option Data → List Sent → Type 0
Sends net files none parts = parts ≡ []
Sends net files (some k) parts =
    (content : List ℕ) × CanSend net files k content × (parts ≡ replica_parts content k)

module _ (fuel : ℕ) (net : Answers) where
  pub send_replica-parts :
      (s : Peer) (k : Data) (content : List ℕ)
      → CanSend net s.files k content
      → send_replica fuel net k s ≡ ok tt (record s { out = s.out ++ replica_parts content k })
  unfolding send_replica
  send_replica-parts s k content can =
      let short : ltb (length (print_photo k.name (length content) k.id k.n_keywords)) 100 ≡ true =
        ground (arith, can.header_fits) in
      elim (Bool-cases (k.n_keywords == 0)) [
        | inl none_kept ↦ elim (Bool-cases (length content == 0)) [
          | inl empty ↦ rw (can.found, short, can.header_sent, none_kept, empty)
          | inr bytes ↦ rw (can.found, short, can.header_sent, none_kept, bytes, append_assoc)
        ]
        | inr kept ↦
            let fit : ltb (length (join_words (words k))) (k.n_keywords * 100) ≡ true =
              ground (arith, can.keywords_fit (ground arith)) in
            elim (Bool-cases (length content == 0)) [
              | inl empty ↦ rw (
                can.found, short, can.header_sent, kept, fit, can.keywords_sent, empty,
                append_assoc,
              )
              | inr bytes ↦ rw (
                can.found, short, can.header_sent, kept, fit, can.keywords_sent, bytes,
                append_assoc, append_assoc,
              )
            ]
      ]

  pub send_to_peer-parts :
      (s : Peer) (photo : Option Data) (parts : List Sent)
      → Sends net s.files photo parts
      → send_to_peer fuel net photo s ≡ ok tt (record s { out = s.out ++ parts })
  unfolding send_to_peer
  send_to_peer-parts s none parts nothing =
      let q : s.out ≡ s.out ++ parts = rw nothing (sym (append-nil s.out)) in
      λ i. ok tt (record s { out = q i })
  send_to_peer-parts s (some k) parts (content, can, e) = rw e (send_replica-parts s k content can)
