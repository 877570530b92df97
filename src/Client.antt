-- ===== src/Client.antt =====
-- client.c: the menu of the client program. What the user reads is modelled as a line of a kind with
-- its values. The texts of `usage` are told apart by the command that they explain.
pub mod Menu
pub mod Scan
pub mod Rounds
use psis_project.Base.{
  ℕ, zero, suc, ◌-◌, ◌%◌, ◌^◌, ℤ, pos, negsuc, Bool, true, false, Option, none, some, List, [], ◌∷◌,
  ◌++◌, ◌==◌, leb, ltb, if◌then◌else◌,
}
use psis_project.Machine.{Run, ok, Cmd, pure, fault, exited, blocked, out_of_fuel, ◌>>=◌, ◌>>◌}
use psis_project.Text.{
  Text, text_eq, is_digit, is_space, saturate, digits_loop, skip_space, word_loop, scan_word,
}
use psis_project.Msgs.{MessageGw, Connect, strcpy}
use psis_project.Sockets.{Received, RecvAll}
use psis_project.Library.{
  Output, Recv, stream_and_send_photo, gallery_add_keyword, gallery_search_photo,
  gallery_delete_photo, GatewayAnswer, gallery_connect,
}
use psis_project.Library.Photos.{gallery_add_photo, gallery_get_photo_name, gallery_get_photo}

-- The commands of the menu.
pub data Command : Type 0 where
  add : Command
  keyadd : Command
  search : Command
  delete : Command
  getname : Command
  download : Command
  quit : Command
  unknown : Command

-- What is printed. `photos_found` has the array of ids that was received, `photo_named` that of the name
-- with its NUL, `none` where it was not written.
pub data Line : Type 0 where
  uploading_successful : (photo_id : ℕ) → Line
  error_uploading : Line
  keyword_added : (keyword : Text) → Line
  communication_error : Line
  keyword_list_full : Line
  photo_missing : (photo_id : ℕ) → Line
  has_keyword : (photo_id : ℕ) → (keyword : Text) → Line
  photos_found : (size : ℕ) → (keyword : Text) → (ids : Option (List ℕ)) → Line
  no_photo_found : (keyword : Text) → Line
  photo_deleted : (photo_id : ℕ) → Line
  photo_named : (photo_id : ℕ) → (name : Option (List ℕ)) → Line
  photo_downloaded : (photo_id : ℕ) → (file_name : Text) → Line
  usage : Command → Line
  closing : Line
  invalid_command : Line
  peer_disconnected : Line
  timeout_occured : Line
  connected : Line
  trying_other_peer : Line
  no_gateway : Line
  no_peers : Line

-- What has left the client, and what it has printed.
pub record Client : Type 0 where
  pub out : List Output
  pub shown : List Line

-- `errno` at the end of a round: `EAGAIN` or `EWOULDBLOCK`, `EPIPE`, or anything else.
pub data Errno : Type 0 where
  timed_out : Errno
  broken_pipe : Errno
  other_errno : Errno

-- What the calls of one round give: the content of the photo's file, whether messages and photos
-- could be sent, what the peer answers (`old` is what the stack holds of an `int`), and whether the
-- file of a download could be opened.
pub record Answers : Type 0 where
  pub opened : Option (List ℕ)
  pub sent : Bool
  pub photo_id : RecvAll ℕ
  pub delivered : Bool
  pub answer : Recv ℤ
  pub old : ℤ
  pub ids : Recv (List ℕ)
  pub size : RecvAll ℤ
  pub name : List Received
  pub photo : List Received
  pub created : Bool
  pub errno : Errno

abbrev pub on_out_run : {A : Type 0} → Client → Run (List Output) A → Run Client A
on_out_run s (ok a out) = ok a (record s { out = out })
on_out_run s (exited code out) = exited code (record s { out = out })
on_out_run s fault = fault
on_out_run s blocked = blocked
on_out_run s out_of_fuel = out_of_fuel

abbrev pub on_out : {A : Type 0} → Cmd (List Output) A → Cmd Client A
on_out c s = on_out_run s (c s.out)

abbrev pub show : List Line → Cmd Client (Unit {0})
show lines s = ok tt (record s { shown = s.shown ++ lines })

-- What `%s` leaves of its input.
unfoldable pub after_word : Text → Text
after_word [] = []
after_word (c ∷ s) = let rest = after_word s in if is_space c then c ∷ s else rest

-- `%[^\n]`
unfoldable pub line_loop : Text → Text
line_loop [] = []
line_loop (c ∷ s) = let rest = line_loop s in if c == 10 then [] else c ∷ rest

-- `sscanf(line, "%s %[^\n]", command, arg)`: both are empty before.
unfoldable pub scan_line : Text → Text × Text
scan_line line = elim (skip_space line) [
  | [] ↦ ([], [])
  | c ∷ s ↦ (word_loop (c ∷ s), line_loop (skip_space (after_word (c ∷ s))))
]

-- `%u` of digits behind a minus sign: `strtoul` negates a value that it could hold.
abbrev pub negated : ℕ → ℕ
negated n = if ltb n (2 ^ 64) then (2 ^ 32 - n % 2 ^ 32) % 2 ^ 32 else 2 ^ 32 - 1

unfoldable pub scan_digits : (negative : Bool) → Text → Option (ℕ × Text)
scan_digits negative [] = none
scan_digits negative (c ∷ s) =
    if is_digit c
    then (let r = digits_loop 0 (c ∷ s) in
        some ((if negative then negated r.0 else saturate r.0 % 2 ^ 32), r.1))
    else none

-- `%u` on what a user typed: white space and a sign may stand in front.
unfoldable pub scan_number : Text → Option (ℕ × Text)
scan_number s = elim (skip_space s) [
  | [] ↦ none
  | c ∷ t ↦
      if c == b'-'
      then scan_digits true t
      else if c == b'+'
      then scan_digits false t
      else scan_digits false (c ∷ t)
]

-- `sscanf(arg, "%u", &photo_id)`, with `photo_id` 0 before.
unfoldable pub arg_id : Text → ℕ
arg_id arg = elim (scan_number arg) [ none ↦ 0 | some (value, _) ↦ value ]

-- `sscanf(arg, "%u %s", &photo_id, keyword)`: the id, and the word if both were read.
unfoldable pub arg_id_word : Text → ℕ × Option Text
arg_id_word arg = elim (scan_number arg) [
  | none ↦ (0, none)
  | some (value, rest) ↦ (value, scan_word rest)
]

-- The command that a word names.
unfoldable pub command_of : Text → Command
command_of word =
    if text_eq word (b'a' ∷ b'd' ∷ b'd' ∷ [])
    then add
    else if text_eq word (b'k' ∷ b'e' ∷ b'y' ∷ b'a' ∷ b'd' ∷ b'd' ∷ [])
    then keyadd
    else if text_eq word (b's' ∷ b'e' ∷ b'a' ∷ b'r' ∷ b'c' ∷ b'h' ∷ [])
    then search
    else if text_eq word (b'd' ∷ b'e' ∷ b'l' ∷ b'e' ∷ b't' ∷ b'e' ∷ [])
    then delete
    else if text_eq word (b'g' ∷ b'e' ∷ b't' ∷ b'n' ∷ b'a' ∷ b'm' ∷ b'e' ∷ [])
    then getname
    else if text_eq word (b'd' ∷ b'o' ∷ b'w' ∷ b'n' ∷ b'l' ∷ b'o' ∷ b'a' ∷ b'd' ∷ [])
    then download
    else if text_eq word (b'q' ∷ b'u' ∷ b'i' ∷ b't' ∷ [])
    then quit
    else unknown

-- What is printed for the results of the functions of the library.
abbrev pub upload_lines : ℕ → List Line
upload_lines zero = error_uploading ∷ []
upload_lines (suc id) = uploading_successful (suc id) ∷ []

unfoldable pub keyword_lines : (photo_id : ℕ) (keyword : Text) (success : ℤ) → List Line
keyword_lines photo_id keyword (pos zero) = communication_error ∷ []
keyword_lines photo_id keyword (pos (suc zero)) = keyword_added keyword ∷ []
keyword_lines photo_id keyword (pos (suc (suc n))) = []
keyword_lines photo_id keyword (negsuc zero) = keyword_list_full ∷ []
keyword_lines photo_id keyword (negsuc (suc zero)) = photo_missing photo_id ∷ []
keyword_lines photo_id keyword (negsuc (suc (suc zero))) = has_keyword photo_id keyword ∷ []
keyword_lines photo_id keyword (negsuc (suc (suc (suc n)))) = []

unfoldable pub search_lines : (keyword : Text) (result : ℤ × Option (List ℕ)) → List Line
search_lines keyword (pos zero, ids) = no_photo_found keyword ∷ []
search_lines keyword (pos (suc n), ids) = photos_found (suc n) keyword ids ∷ []
search_lines keyword (negsuc zero, ids) = communication_error ∷ []
search_lines keyword (negsuc (suc n), ids) = []

unfoldable pub delete_lines : (photo_id : ℕ) (success : ℤ) → List Line
delete_lines photo_id (pos zero) = photo_missing photo_id ∷ []
delete_lines photo_id (pos (suc zero)) = photo_deleted photo_id ∷ []
delete_lines photo_id (pos (suc (suc n))) = []
delete_lines photo_id (negsuc n) = []

unfoldable pub name_lines : (photo_id : ℕ) (result : ℤ × Option (List ℕ)) → List Line
name_lines photo_id (pos zero, name) = photo_missing photo_id ∷ []
name_lines photo_id (pos (suc zero), name) = photo_named photo_id name ∷ []
name_lines photo_id (pos (suc (suc n)), name) = []
name_lines photo_id (negsuc n, name) = []

unfoldable pub download_lines : (photo_id : ℕ) (file_name : Text) (success : ℤ) → List Line
download_lines photo_id file_name (pos zero) = photo_missing photo_id ∷ []
download_lines photo_id file_name (pos (suc zero)) = photo_downloaded photo_id file_name ∷ []
download_lines photo_id file_name (pos (suc (suc n))) = []
download_lines photo_id file_name (negsuc zero) = communication_error ∷ []
download_lines photo_id file_name (negsuc (suc n)) = []
