-- ===== src/Client/Menu.antt =====
-- client.c: the commands, one round of the menu, and the connections of `main`.
use psis_project.Base.{
  ℕ, zero, suc, ℤ, pos, negsuc, Bool, true, false, Option, none, some, List, [], ◌∷◌, if◌then◌else◌,
}
use psis_project.Machine.{Cmd, pure, exited, ◌>>=◌, ◌>>◌}
use psis_project.Text.{Text}
use psis_project.Msgs.{MessageGw, Connect, strcpy}
use psis_project.Library.{
  stream_and_send_photo, gallery_add_keyword, gallery_search_photo, gallery_delete_photo,
  GatewayAnswer, gallery_connect,
}
use psis_project.Library.Photos.{gallery_add_photo, gallery_get_photo_name, gallery_get_photo}
use psis_project.Client.{
  Command, add, keyadd, search, delete, getname, download, quit, unknown, usage, closing,
  invalid_command, peer_disconnected, timeout_occured, connected, trying_other_peer, no_gateway,
  no_peers, Client, Errno, timed_out, broken_pipe, other_errno, Answers, on_out, show, scan_line,
  arg_id, arg_id_word, command_of, upload_lines, keyword_lines, search_lines, delete_lines,
  name_lines, download_lines,
}

-- `Client exiting`
abbrev pub client_exiting : Text
client_exiting =
    b'C' ∷ b'l' ∷ b'i' ∷ b'e' ∷ b'n' ∷ b't' ∷ b' ' ∷ b'e' ∷ b'x' ∷ b'i' ∷ b't' ∷ b'i' ∷ b'n' ∷ b'g'
    ∷ []

-- Also what SIGINT does.
unfoldable pub notify_server : (sent : Bool) → Cmd Client Bool
notify_server sent = do
  on_out (stream_and_send_photo sent client_exiting (negsuc 0))
  exited (pos 0)

-- The result; `errno` is 0 behind it unless it is one that is not looked at.
unfoldable pub check_peer_state : Errno → Cmd Client ℤ
check_peer_state timed_out = pure (pos 1)
check_peer_state broken_pipe = do show (peer_disconnected ∷ []); pure (negsuc 0)
check_peer_state other_errno = pure (pos 0)

-- The end of a round: `true` to go on with this peer, `false` to break the connection.
unfoldable pub end_round : Errno → Cmd Client Bool
end_round errno = do
  state ← check_peer_state errno
  elim state [
    | pos zero ↦ pure true
    | pos (suc zero) ↦ do show (timeout_occured ∷ []); pure true
    | pos (suc (suc n)) ↦ pure true
    | negsuc zero ↦ pure false
    | negsuc (suc n) ↦ pure true
  ]

module _ (ans : Answers) where
  -- `arg` is an array of 50 characters, which `gallery_add_photo` writes to.
  unfoldable pub add_command : Text → Cmd Client (Unit {0})
  add_command [] = show (usage add ∷ [])
  add_command (c ∷ arg) = do
    photo_id ←
        on_out (gallery_add_photo ans.opened 50 ans.sent ans.photo_id ans.delivered (c ∷ arg))
    show (upload_lines photo_id)

  unfoldable pub keyadd_command : ℕ × Option Text → Cmd Client (Unit {0})
  keyadd_command (photo_id, none) = show (usage keyadd ∷ [])
  keyadd_command (zero, some keyword) = show (usage keyadd ∷ [])
  keyadd_command (suc id, some keyword) = do
    success ← on_out (gallery_add_keyword ans.sent ans.answer ans.old (suc id) keyword)
    show (keyword_lines (suc id) keyword success)

  unfoldable pub search_command : Text → Cmd Client (Unit {0})
  search_command [] = show (usage search ∷ [])
  search_command (c ∷ arg) = do
    result ← on_out (gallery_search_photo ans.sent ans.answer ans.ids (c ∷ arg))
    show (search_lines (c ∷ arg) result)

  unfoldable pub delete_command : ℕ → Cmd Client (Unit {0})
  delete_command zero = show (usage delete ∷ [])
  delete_command (suc id) = do
    success ← on_out (gallery_delete_photo ans.sent ans.answer ans.old (suc id))
    show (delete_lines (suc id) success)

  unfoldable pub getname_command : ℕ → Cmd Client (Unit {0})
  getname_command zero = show (usage getname ∷ [])
  getname_command (suc id) = do
    result ← on_out (gallery_get_photo_name ans.sent ans.size ans.name (suc id))
    show (name_lines (suc id) result)

  unfoldable pub download_command : ℕ × Option Text → Cmd Client (Unit {0})
  download_command (photo_id, none) = show (usage download ∷ [])
  download_command (zero, some file_name) = show (usage download ∷ [])
  download_command (suc id, some file_name) = do
    success ←
        on_out (gallery_get_photo ans.sent ans.answer ans.photo ans.created (suc id) file_name)
    show (download_lines (suc id) file_name success)

  -- The command of a round, and what follows it.
  unfoldable pub run_command : Command → Text → Cmd Client Bool
  run_command add arg = do add_command arg; end_round ans.errno
  run_command keyadd arg = do keyadd_command (arg_id_word arg); end_round ans.errno
  run_command search arg = do search_command arg; end_round ans.errno
  run_command delete arg = do delete_command (arg_id arg); end_round ans.errno
  run_command getname arg = do getname_command (arg_id arg); end_round ans.errno
  run_command download arg = do download_command (arg_id_word arg); end_round ans.errno
  run_command quit arg = do show (closing ∷ []); notify_server ans.sent
  run_command unknown arg = do show (invalid_command ∷ []); end_round ans.errno

  -- One round of the menu: `command` has room for 10 characters and `arg` for 50.
  unfoldable pub menu_round : Text → Cmd Client Bool
  menu_round line = do
    let read = scan_line line
    command ← strcpy 10 read.0
    arg ← strcpy 50 read.1
    run_command (command_of command) arg

-- The rounds of one connection, a line with the answers of its round each. The result is `false` if
-- the connection is broken, and `true` where the client waits for the next line.
unfoldable pub menu_loop : List (Text × Answers) → Cmd Client Bool
menu_loop [] = pure true
menu_loop ((line, ans) ∷ rounds) = do
  goes_on ← menu_round ans line
  if goes_on then menu_loop rounds else pure false

-- What `gallery_connect` is answered, and the rounds over the connection.
pub record Session : Type 0 where
  pub socket_made : Bool
  pub sent : Bool
  pub answer : GatewayAnswer
  pub old : MessageGw
  pub connect : MessageGw → Connect
  pub rounds : List (Text × Answers)

-- `switch(fd)`
unfoldable pub check_connection : ℤ → Cmd Client (Unit {0})
check_connection (pos zero) = do show (no_peers ∷ []); exited (pos 0)
check_connection (pos (suc fd)) = show (connected ∷ [])
check_connection (negsuc zero) = do show (no_gateway ∷ []); exited (pos 1)
check_connection (negsuc (suc n)) = show (connected ∷ [])

-- The outer loop of `main`, one connection after the other.
unfoldable pub main_loop : List Session → Cmd Client (Unit {0})
main_loop [] = pure tt
main_loop (session ∷ sessions) = do
  fd ←
      on_out (
        gallery_connect session.socket_made session.sent session.answer session.old session.connect)
  check_connection fd
  goes_on ← menu_loop session.rounds
  if goes_on then pure tt else (do show (trying_other_peer ∷ []); main_loop sessions)
