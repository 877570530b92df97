-- ===== src/Tests/ClientRuns.antt =====
-- Lines that a user types into the menu of the client.
use psis_project.Base.{◌≡◌, refl, ℤ, pos, true, some, [], ◌∷◌, ◌++◌, arith}
use psis_project.Machine.{ok, fault}
use psis_project.Text.{Text, skip_space, word_loop}
use psis_project.Sockets.{no_bytes, all_closed, all_received}
use psis_project.Library.{recv_closed, received}
use psis_project.Client.{
  delete, usage, Client, other_errno, Answers, after_word, line_loop, scan_line, command_of,
}
use psis_project.Client.Menu.{menu_round}
use psis_project.Client.Rounds.{NoNumber, menu_round-usage, menu_round-overflow}

-- The peer answers 1 to the request.
abbrev pub answers : ℤ → Answers
answers n = record {
  opened = some (7 ∷ []);
  sent = true;
  photo_id = all_received 3;
  delivered = true;
  answer = received n;
  old = pos 0;
  ids = recv_closed;
  size = all_closed;
  name = no_bytes;
  photo = no_bytes;
  created = true;
  errno = other_errno;
}

abbrev pub client : Client
client = record { out = []; shown = [] }

-- `delete x`
abbrev delete_line : Text
delete_line = b'd' ∷ b'e' ∷ b'l' ∷ b'e' ∷ b't' ∷ b'e' ∷ b' ' ∷ b'x' ∷ 10 ∷ []

delete_line-read : scan_line delete_line ≡ (b'd' ∷ b'e' ∷ b'l' ∷ b'e' ∷ b't' ∷ b'e' ∷ [], b'x' ∷ [])
unfolding scan_line skip_space word_loop after_word line_loop
delete_line-read = refl

delete_named : command_of (scan_line delete_line).0 ≡ delete
unfolding command_of scan_line skip_space word_loop
delete_named = refl

no_number : NoNumber (scan_line delete_line).1
unfolding scan_line skip_space word_loop after_word line_loop
no_number = (refl, refl, refl, refl)

menu_round-usage_example :
    menu_round (answers (pos 1)) delete_line client
    ≡ ok true (record client { shown = usage (command_of (scan_line delete_line).0) ∷ [] })
menu_round-usage_example =
    menu_round-usage (answers (pos 1)) client delete_line (rw delete_line-read (omega arith))
      (rw delete_line-read (omega arith)) (rw delete_named refl) no_number refl

-- `downloading 1`, behind a blank and without a line end
abbrev downloading : Text
downloading = b'd' ∷ b'o' ∷ b'w' ∷ b'n' ∷ b'l' ∷ b'o' ∷ b'a' ∷ b'd' ∷ b'i' ∷ b'n' ∷ b'g' ∷ []

menu_round-overflow_example :
    menu_round (answers (pos 1)) (b' ' ∷ downloading ++ b' ' ∷ b'1' ∷ []) client ≡ fault
menu_round-overflow_example =
    menu_round-overflow (answers (pos 1)) client (b' ' ∷ []) downloading (b' ' ∷ b'1' ∷ [])
      (refl, tt)
      (refl, (refl, (refl, (refl, (refl, (refl, (refl, (refl, (refl, (refl, (refl, tt)))))))))))
      refl (omega arith)
