-- ===== src/Library/Photos.antt =====
-- library.c: a photo is sent to a peer, and a photo's name or the photo is fetched from one. What
-- the calls give is a parameter; a size below 0, for which `malloc` has no room, is a fault.
use psis_project.Base.{
  ℕ, zero, suc, ℤ, pos, negsuc, Bool, Option, none, some, List, [], ◌∷◌, ◌++◌, if◌then◌else◌,
  length,
}
use psis_project.Machine.{Cmd, ok, pure, fault, exited, ◌>>=◌}
use psis_project.Text.{Text, decimal, decimal_long, print_file}
use psis_project.Msgs.{strcpy}
use psis_project.Sockets.{
  Received, fill_buffer, is_positive, RecvAll, all_error, all_closed, all_overflow, all_received,
}
use psis_project.Library.{
  Output, photo_sent, file_written, Recv, recv_error, recv_closed, received, stream_and_send_photo,
  is_minus_one,
}

-- The photo itself, once the peer has given its id; `delivered` tells whether `send_all` sent it.
unfoldable pub send_content : Bool → ℕ → List ℕ → Cmd (List Output) ℕ
send_content delivered zero content = pure 0
send_content delivered (suc id) content =
    if delivered then (λ out. ok (suc id) (out ++ photo_sent content ∷ [])) else pure 0

-- `opened` is the file's content, `none` where it cannot be opened; `room` is the size of the array
-- that `file` stands in, behind which the caller's text must leave room for the size.
unfoldable pub gallery_add_photo :
    (opened : Option (List ℕ)) (room : ℕ) (sent : Bool) (answer : RecvAll ℕ) (delivered : Bool)
    (file : Text)
    → Cmd (List Output) ℕ
gallery_add_photo none room sent answer delivered file = pure 0
gallery_add_photo (some content) room sent answer delivered file = do
  temp ← strcpy 20 (b',' ∷ decimal_long (length content))
  name_and_size ← strcpy room (print_file file (length content))
  result ← stream_and_send_photo sent name_and_size (pos 1)
  if is_minus_one result then pure 0 else (elim answer [
    | all_error ↦ pure 0
    | all_closed ↦ pure 0
    | all_overflow ↦ λ _. fault
    | all_received photo_id ↦ send_content delivered photo_id content
  ])

-- The array of the name, of the size that was announced; `none` where it is not written.
abbrev pub receive_name : (length : ℕ) → List Received → Cmd (List Output) (ℤ × Option (List ℕ))
receive_name length name = fill_buffer name length λ photo_name result.
    if is_minus_one result
    then pure (negsuc 0, none)
    else pure (pos 1, if is_positive result then some photo_name else none)

unfoldable pub gallery_get_photo_name :
    (sent : Bool) (size : RecvAll ℤ) (name : List Received) (id_photo : ℕ)
    → Cmd (List Output) (ℤ × Option (List ℕ))
gallery_get_photo_name sent size name id_photo = do
  message ← strcpy 100 (decimal id_photo)
  result ← stream_and_send_photo sent message (pos 5)
  if is_minus_one result then pure (negsuc 0, none) else (elim size [
    | all_error ↦ pure (negsuc 0, none)
    | all_closed ↦ pure (pos 0, none)
    | all_overflow ↦ λ _. fault
    | all_received (pos zero) ↦ pure (pos 0, none)
    | all_received (pos (suc n)) ↦ receive_name (suc n) name
    | all_received (negsuc n) ↦ λ _. fault
  ])

-- The photo of the announced size goes to the file `file_name`; `opened` tells whether that could be
-- opened.
abbrev pub receive_photo : Bool → Text → (size : ℕ) → List Received → Cmd (List Output) ℤ
receive_photo opened file_name size photo = fill_buffer photo size λ bytestream result.
    if is_positive result
    then (if opened
        then (λ out. ok (pos 1) (out ++ file_written file_name bytestream ∷ []))
        else exited (negsuc 0))
    else pure (negsuc 0)

unfoldable pub gallery_get_photo :
    (sent : Bool) (size : Recv ℤ) (photo : List Received) (opened : Bool) (id_photo : ℕ)
    (file_name : Text)
    → Cmd (List Output) ℤ
gallery_get_photo sent size photo opened id_photo file_name = do
  message ← strcpy 100 (decimal id_photo)
  result ← stream_and_send_photo sent message (pos 6)
  if is_minus_one result then pure (negsuc 0) else (elim size [
    | recv_error ↦ pure (negsuc 0)
    | recv_closed ↦ pure (pos 0)
    | received (pos zero) ↦ pure (pos 0)
    | received (pos (suc n)) ↦ receive_photo opened file_name (suc n) photo
    | received (negsuc n) ↦ λ _. fault
  ])
