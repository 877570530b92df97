-- ===== src/Library/Keyword.antt =====
-- A keyword on its way from the client to the photo.
use psis_project.Base.{ℕ, ◌<◌, ◌^◌, ◌≡◌, ◌≢◌, ℤ, pos, true, List, [], ◌∷◌, ◌++◌, ltb, length, arith}
use psis_project.Machine.{ok}
use psis_project.Text.{Text, print_keyword, scan_keyword}
use psis_project.Text.Keyword.{IsWord, scan_keyword-print_keyword}
use psis_project.Msgs.{MessagePhoto}
use psis_project.Library.{Output, to_peer, received, stream_and_send_photo, gallery_add_keyword}

-- If `id.keyword` fits the message, the id fits 32 bits, the keyword is one word and the message
-- can be sent, `gallery_add_keyword` sends one message of type 2, from which `add_keyword` of
-- the peer reads the same id and keyword, and it returns what the peer answers.
pub gallery_add_keyword-scanned :
    (old answer : ℤ) (id : ℕ) (keyword : Text) (out : List Output) (stack : ℕ × Text)
    → id < 2 ^ 32
    → keyword ≢ []
    → IsWord keyword
    → length (print_keyword id keyword) < 100
    → let m : MessagePhoto = record { buffer = print_keyword id keyword; type = pos 2 } in
      (gallery_add_keyword true (received answer) old id keyword out
        ≡ ok answer (out ++ to_peer m ∷ []))
      × (scan_keyword m.buffer stack ≡ (id, keyword))
unfolding gallery_add_keyword stream_and_send_photo
gallery_add_keyword-scanned old answer id keyword out stack small ne word fits =
    let short : ltb (length (print_keyword id keyword)) 100 ≡ true = ground arith in
    (rw (short, short), scan_keyword-print_keyword id keyword stack small ne word)
