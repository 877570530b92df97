-- ===== src/Client/Rounds.antt =====
-- client.c: rounds of the menu.
use psis_project.Base.{
  ℕ, zero, suc, ◌≤◌, ◌<◌, ◌^◌, ◌≡◌, ◌≢◌, refl, sym, ◌∙◌, ap, subst, ℤ, pos, Bool, true, false,
  Option, some, none, [], ◌∷◌, ◌++◌, ◌==◌, ltb, length, length-append, arith,
}
use psis_project.Machine.{ok, fault}
use psis_project.Text.{
  Text, is_digit, skip_space, decimal, print_keyword, scan_keyword, is_space, scan_word,
}
use psis_project.Text.RoundTrip.{decimal-starts}
use psis_project.Text.Keyword.{IsWord}
use psis_project.Msgs.{MessagePhoto}
use psis_project.Library.{to_peer, received}
use psis_project.Library.Keyword.{gallery_add_keyword-scanned}
use psis_project.Client.{
  Command, add, keyadd, search, delete, getname, download, quit, unknown, usage, Client,
  other_errno, Answers, scan_line, scan_number, scan_digits, arg_id, arg_id_word, command_of,
  keyword_lines,
}
use psis_project.Client.Menu.{
  menu_round, run_command, keyadd_command, download_command, delete_command, getname_command,
  end_round, check_peer_state,
}
use psis_project.Client.Scan.{
  IsLine, IsLine-append, decimal-IsLine, digit-other, IsWord-IsLine, scan_line-typed,
  arg_id_word-typed, scan_line-word, word-size, IsBlank, EndsWord,
}

-- The commands that take the id of a photo.
abbrev pub takes_id : Command → Bool
takes_id add = false
takes_id keyadd = true
takes_id search = false
takes_id delete = true
takes_id getname = true
takes_id download = true
takes_id quit = false
takes_id unknown = false

same_id :
    (r : Option (ℕ × Text))
    → (elim r as (λ x. ℕ) [ none ↦ 0 | some (value, _) ↦ value ])
      ≡ (elim r as (λ x. ℕ × Option Text) [
        | none ↦ (0, none)
        | some (value, rest) ↦ (value, scan_word rest)
      ]).0
same_id none = refl
same_id (some (value, rest)) = refl

arg_id-arg_id_word : (arg : Text) → arg_id arg ≡ (arg_id_word arg).0
unfolding arg_id arg_id_word
arg_id-arg_id_word arg = same_id (scan_number arg)

keyadd_command-usage :
    (ans : Answers) (s : Client) (read : ℕ × Option Text)
    → read.0 ≡ 0
    → keyadd_command ans read s ≡ ok tt (record s { shown = s.shown ++ usage keyadd ∷ [] })
unfolding keyadd_command
keyadd_command-usage ans s (zero, none) none_given = refl
keyadd_command-usage ans s (zero, some w) none_given = refl
keyadd_command-usage ans s (suc n, word) none_given = absurd (omega (arith, none_given))

download_command-usage :
    (ans : Answers) (s : Client) (read : ℕ × Option Text)
    → read.0 ≡ 0
    → download_command ans read s ≡ ok tt (record s { shown = s.shown ++ usage download ∷ [] })
unfolding download_command
download_command-usage ans s (zero, none) none_given = refl
download_command-usage ans s (zero, some w) none_given = refl
download_command-usage ans s (suc n, word) none_given = absurd (omega (arith, none_given))

run_command-usage :
    (ans : Answers) (s : Client) (command : Command) (arg : Text)
    → takes_id command ≡ true
    → arg_id arg ≡ 0
    → ans.errno ≡ other_errno
    → run_command ans command arg s ≡ ok true (record s { shown = s.shown ++ usage command ∷ [] })
unfolding run_command delete_command getname_command end_round check_peer_state
run_command-usage ans s add arg takes none_given quiet = cc
run_command-usage ans s keyadd arg takes none_given quiet =
    rw
      (
        keyadd_command-usage ans s (arg_id_word arg) (sym (arg_id-arg_id_word arg) ∙ none_given),
        quiet,
      )
      refl
run_command-usage ans s search arg takes none_given quiet = cc
run_command-usage ans s delete arg takes none_given quiet = rw (none_given, quiet) refl
run_command-usage ans s getname arg takes none_given quiet = rw (none_given, quiet) refl
run_command-usage ans s download arg takes none_given quiet =
    rw
      (
        download_command-usage ans s (arg_id_word arg) (sym (arg_id-arg_id_word arg) ∙ none_given),
        quiet,
      )
      refl
run_command-usage ans s quit arg takes none_given quiet = cc
run_command-usage ans s unknown arg takes none_given quiet = cc

-- The argument is missing, or begins with a character that is no digit, no sign and no white space.
abbrev pub NoNumber : Text → Type 0
NoNumber [] = Unit {0}
NoNumber (c ∷ s) =
    (is_digit c ≡ false) × (is_space c ≡ false) × ((c == b'-') ≡ false) × ((c == b'+') ≡ false)

arg_id-zero : (arg : Text) → NoNumber arg → arg_id arg ≡ 0
unfolding arg_id scan_number scan_digits skip_space
arg_id-zero [] missing = refl
arg_id-zero (c ∷ s) (no_digit, no_space, no_minus, no_plus) =
    rw (arg_id, scan_number, no_space, no_minus, no_plus, no_digit) refl

-- A line with one of the commands keyadd, delete, getname and download whose argument is
-- missing, or begins with a character that is no digit, no sign and no white space, sends
-- nothing: the client prints how the command is used, and asks for the next line. (The command
-- has fewer than 10 characters and the argument fewer than 50, and no error is left in `errno`.)
pub menu_round-usage :
    (ans : Answers) (s : Client) (line : Text)
    → let read = scan_line line in
      length read.0 < 10
      → length read.1 < 50
      → takes_id (command_of read.0) ≡ true
      → NoNumber read.1
      → ans.errno ≡ other_errno
      → menu_round ans line s
        ≡ ok true (record s { shown = s.shown ++ usage (command_of read.0) ∷ [] })
unfolding menu_round
menu_round-usage ans s line short fits takes no_number quiet =
    let room : ltb (length (scan_line line).0) 10 ≡ true = ground arith in
    let space : ltb (length (scan_line line).1) 50 ≡ true = ground arith in
    rw (room, space)
      (run_command-usage ans s (command_of (scan_line line).0) (scan_line line).1 takes
        (arg_id-zero (scan_line line).1 no_number) quiet)

-- A line whose first word, behind blanks or without, has 10 characters or more is written past
-- the end of the array for the command. (Behind the word is white space or the end of what was
-- read.)
pub menu_round-overflow :
    (ans : Answers) (s : Client) (blanks w rest : Text)
    → IsBlank blanks
    → IsWord w
    → EndsWord rest
    → 10 ≤ length w
    → menu_round ans (blanks ++ (w ++ rest)) s ≡ fault
unfolding menu_round
menu_round-overflow ans s blanks w rest blank word ends long =
    let first = scan_line-word blanks w rest blank (λ e. word-size w e long) word ends in
    let over : ltb (length w) 10 ≡ false = ground arith in rw (first, over) refl

abbrev keyadd_word : Text
keyadd_word = b'k' ∷ b'e' ∷ b'y' ∷ b'a' ∷ b'd' ∷ b'd' ∷ []

abbrev pub keyadd_line : ℕ → Text → Text
keyadd_line id keyword = keyadd_word ++ (b' ' ∷ ((decimal id ++ b' ' ∷ keyword) ++ (10 ∷ [])))

-- A number starts with no space, and has no line end in it.
scan_line-request :
    (id : ℕ) (keyword : Text)
    → IsWord keyword
    → scan_line (keyadd_line id keyword) ≡ (keyadd_word, decimal id ++ b' ' ∷ keyword)
scan_line-request id keyword word =
    let (c, s, e, digit) = decimal-starts id in
    let line =
      IsLine-append (decimal id) (b' ' ∷ keyword) (decimal-IsLine id)
        (λ q. absurd (omega (arith, q)), IsWord-IsLine keyword word) in
    subst
      (λ d.
        IsLine (d ++ b' ' ∷ keyword)
        → scan_line (keyadd_word ++ (b' ' ∷ ((d ++ b' ' ∷ keyword) ++ (10 ∷ []))))
          ≡ (keyadd_word, d ++ b' ' ∷ keyword))
      (sym e)
      (scan_line-typed keyadd_word c (s ++ b' ' ∷ keyword)
        (λ q. absurd (omega (arith, ap length q)))
        (refl, (refl, (refl, (refl, (refl, (refl, tt)))))) (digit-other c digit).0)
      line

print_keyword-fits :
    (id : ℕ) (keyword : Text)
    → length (decimal id ++ b' ' ∷ keyword) < 50
    → length (print_keyword id keyword) < 100
unfolding print_keyword
print_keyword-fits id keyword fits = omega (
  arith,
  fits,
  length-append {0} (decimal id) (b' ' ∷ keyword),
  length-append {0} (decimal id) (b'.' ∷ keyword),
)

-- For a line `keyadd <id> <keyword>` the client sends one message, from which the peer reads the same
-- id and keyword, and prints the text for the answer.
pub menu_round-keyadd :
    (ans : Answers) (s : Client) (id : ℕ) (keyword : Text) (answer : ℤ) (stack : ℕ × Text)
    → suc id < 2 ^ 32
    → keyword ≢ []
    → IsWord keyword
    → length (decimal (suc id) ++ b' ' ∷ keyword) < 50
    → ans.sent ≡ true
    → ans.answer ≡ received answer
    → ans.errno ≡ other_errno
    → let m : MessagePhoto = record { buffer = print_keyword (suc id) keyword; type = pos 2 } in
      (menu_round ans (keyadd_line (suc id) keyword) s
        ≡ ok true (record s {
          out = s.out ++ to_peer m ∷ [];
          shown = s.shown ++ keyword_lines (suc id) keyword answer;
        }))
      × (scan_keyword m.buffer stack ≡ (suc id, keyword))
unfolding menu_round run_command keyadd_command end_round check_peer_state command_of
menu_round-keyadd ans s id keyword answer stack small ne word fits sent answered quiet =
    let arg = decimal (suc id) ++ b' ' ∷ keyword in
    let read : scan_line (keyadd_line (suc id) keyword) ≡ (keyadd_word, arg) =
      scan_line-request (suc id) keyword word in
    let (run, scanned) =
      gallery_add_keyword-scanned ans.old answer (suc id) keyword s.out stack small ne word
        (print_keyword-fits (suc id) keyword fits) in
    let room : ltb (length arg) 50 ≡ true = ground arith in
    (
      rw (read, room, arg_id_word-typed (suc id) keyword small ne word, sent, answered, run, quiet)
          refl,
      scanned,
    )
