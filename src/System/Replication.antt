-- ===== src/System/Replication.antt =====
-- A photo goes from one peer to another: `send_photo` of the one, `add_photo` of the other.
use psis_project.Base.{
  ℕ, suc, ◌*◌, ◌≡◌, refl, ◌∙◌, ap, pos, true, false, Bool-cases, inl, inr, List, [], ◌∷◌, ◌==◌,
  length, zero, sym,
}
use mathlib.Core.Bool.{true≢false}
use psis_project.Heap.{Heap, Block}
use psis_project.Cells.{Cells}
use psis_project.LinkedList.{Item}
use psis_project.Text.{Text}
use psis_project.Msgs.{MessagePhoto}
use psis_project.Sockets.{RecvAll, Received, bytes, no_bytes, all_received}
use psis_project.Photos.{Data, join_words, print_loop}
use psis_project.Peer.{Peer, Sent, message_sent, array_sent, bytes_sent}
use psis_project.Peer.Parts.{replica_parts}
use psis_project.Peer.Transfer.{Upload}
use psis_project.Peer.Replica.{upload_of}
use psis_project.Base.{suc_ne_zero}

-- What arrives of what the other peer sent: the message, the keywords and the bytes. The keywords
-- are read only where the message announces some.
abbrev pub header_of : List Sent → MessagePhoto
header_of (message_sent m ∷ rest) = m
header_of other = record { buffer = []; type = pos 0 }

abbrev pub keywords_of : List Sent → RecvAll (ℕ × Text)
keywords_of (header ∷ array_sent size keywords ∷ rest) = all_received (size, keywords)
keywords_of other = all_received (0, [])

abbrev pub photo_of : List Sent → List Received
photo_of (header ∷ array_sent size keywords ∷ bytes_sent photo ∷ rest) = bytes photo ∷ []
photo_of (header ∷ bytes_sent photo ∷ rest) = bytes photo ∷ []
photo_of other = no_bytes

abbrev pub arriving : Block (Item Data) → Text → List Sent → Upload
arriving block old parts = record {
  block = block;
  name = old;
  keywords = keywords_of parts;
  photo = photo_of parts;
}

no_words :
    (n : ℕ) (keyword : ℕ → Text)
    → (n == 0) ≡ true
    → let array : ℕ × Text = (n * 100, join_words (print_loop n 0 keyword)) in array ≡ (0, [])
no_words zero keyword none_kept = refl
no_words (suc n) keyword none_kept = absurd (true≢false (sym none_kept ∙ suc_ne_zero n))

pub arriving-upload_of :
    (block : Block (Item Data)) (old : Text) (k : Data) (content : List ℕ)
    → (length content == 0) ≡ false
    → arriving block old (replica_parts content k) ≡ upload_of block old k content
arriving-upload_of block old k content some_bytes = elim (Bool-cases (k.n_keywords == 0)) [
  | inl none_kept ↦
      rw (none_kept, some_bytes)
        (ap
          (λ w. record {
            block = block;
            name = old;
            keywords = all_received w;
            photo = bytes content ∷ [];
          })
          (sym (no_words k.n_keywords k.keyword none_kept)))
  | inr kept ↦ rw (kept, some_bytes) refl
]
