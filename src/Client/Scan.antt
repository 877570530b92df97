-- ===== src/Client/Scan.antt =====
-- client.c: what the menu reads of a line that a user typed.
use psis_project.Base.{
  ℕ, zero, suc, ◌+◌, ◌/◌, ◌%◌, ◌≤◌, ◌<◌, ◌^◌, ◌≡◌, ◌≢◌, refl, sym, ◌∙◌, ap, true, false, some, [],
  ◌∷◌, ◌++◌, ◌==◌, ltb, length, arith, Bool-cases, inl, inr, ne→==,
}
use mathlib.Core.Bool.{true≢false}
use psis_project.Text.{
  Text, decimal_loop, is_digit, is_space, skip_space, word_loop, decimal, digits_loop, scan_word,
}
use psis_project.Text.RoundTrip.{digits_loop-decimal_loop, decimal-starts}
use psis_project.Text.Keyword.{IsWord, decimal_loop-append}
use psis_project.Client.{after_word, line_loop, scan_line, scan_digits, scan_number, arg_id_word}

-- No line end in it.
abbrev pub IsLine : Text → Type 0
IsLine [] = Unit {0}
IsLine (c ∷ s) = (c ≢ 10) × IsLine s

word_loop-append :
    (w : Text) (d : ℕ) (s : Text) → IsWord w → is_space d ≡ true → word_loop (w ++ d ∷ s) ≡ w
unfolding word_loop
word_loop-append [] d s word space = rw space refl
word_loop-append (c ∷ w) d s (here, word) space = rw (here, word_loop-append w d s word space)

-- White space only.
abbrev pub IsBlank : Text → Type 0
IsBlank [] = Unit {0}
IsBlank (c ∷ s) = (is_space c ≡ true) × IsBlank s

-- A word ends here: with white space, or with the line.
abbrev pub EndsWord : Text → Type 0
EndsWord [] = Unit {0}
EndsWord (c ∷ s) = is_space c ≡ true

word_loop-ends : (w rest : Text) → IsWord w → EndsWord rest → word_loop (w ++ rest) ≡ w
unfolding word_loop
word_loop-ends [] [] word ends = refl
word_loop-ends [] (c ∷ s) word ends = rw ends refl
word_loop-ends (c ∷ w) rest (here, word) ends = rw (here, word_loop-ends w rest word ends)

skip_space-IsBlank : (blanks s : Text) → IsBlank blanks → skip_space (blanks ++ s) ≡ skip_space s
unfolding skip_space
skip_space-IsBlank [] s blank = refl
skip_space-IsBlank (c ∷ blanks) s (here, blank) = rw here (skip_space-IsBlank blanks s blank)

-- The command is the first word of the line.
pub scan_line-word :
    (blanks w rest : Text)
    → IsBlank blanks
    → w ≢ []
    → IsWord w
    → EndsWord rest
    → (scan_line (blanks ++ (w ++ rest))).0 ≡ w
unfolding scan_line skip_space
scan_line-word blanks [] rest blank ne word ends = absurd (ne refl)
scan_line-word blanks (c ∷ w) rest blank ne word ends =
    let skipped = skip_space-IsBlank blanks (c ∷ (w ++ rest)) blank in
    let command : word_loop (c ∷ (w ++ rest)) ≡ c ∷ w = word_loop-ends (c ∷ w) rest word ends in
    rw (scan_line, skipped, word.0) command

pub word-size : (w : Text) → w ≡ [] → 10 ≤ length w → ⊥
word-size w e long = omega (arith, ap length e)

after_word-append : (w s : Text) → IsWord w → after_word (w ++ b' ' ∷ s) ≡ b' ' ∷ s
unfolding after_word
after_word-append [] s word = refl
after_word-append (c ∷ w) s (here, word) = rw (here, after_word-append w s word)

line_loop-append : (s : Text) → IsLine s → line_loop (s ++ 10 ∷ []) ≡ s
unfolding line_loop
line_loop-append [] line = refl
line_loop-append (c ∷ s) (here, line) = rw (ne→== c 10 here, line_loop-append s line)

-- A word, a space and the rest of the line.
pub scan_line-typed :
    (w : Text) (c : ℕ) (s : Text)
    → w ≢ []
    → IsWord w
    → is_space c ≡ false
    → IsLine (c ∷ s)
    → scan_line (w ++ (b' ' ∷ ((c ∷ s) ++ (10 ∷ [])))) ≡ (w, c ∷ s)
unfolding scan_line skip_space
scan_line-typed [] c s ne word start line = absurd (ne refl)
scan_line-typed (d ∷ w) c s ne word start line =
    let rest = (c ∷ s) ++ 10 ∷ [] in
    let typed = d ∷ (w ++ b' ' ∷ c ∷ (s ++ 10 ∷ [])) in
    let command : word_loop typed ≡ d ∷ w = word_loop-append (d ∷ w) b' ' rest word refl in
    let behind : after_word typed ≡ b' ' ∷ rest = after_word-append (d ∷ w) rest word in
    let arg : line_loop (c ∷ (s ++ 10 ∷ [])) ≡ c ∷ s = line_loop-append (c ∷ s) line in
    rw (scan_line, word.0, command, behind, start) (ap (λ a. (d ∷ w, a)) arg)

pub digit-other :
    (c : ℕ)
    → is_digit c ≡ true
    → (is_space c ≡ false) × ((c == b'-') ≡ false) × ((c == b'+') ≡ false)
digit-other c digit = ground arith

digits-space :
    (n : ℕ) (t : Text) → n < 2 ^ 32 → digits_loop 0 (decimal n ++ b' ' ∷ t) ≡ (n, b' ' ∷ t)
unfolding decimal digits_loop
digits-space n t small =
    let (w, run) = digits_loop-decimal_loop 10 n 0 (b' ' ∷ t) (omega arith) in
    ap (digits_loop 0) (decimal_loop-append 10 n [] (b' ' ∷ t))
    ∙ run
    ∙ ap (λ a. digits_loop a (b' ' ∷ t)) (omega arith)

scan_number-typed :
    (n : ℕ) (t : Text) → n < 2 ^ 32 → scan_number (decimal n ++ b' ' ∷ t) ≡ some (n, b' ' ∷ t)
unfolding scan_number scan_digits skip_space
scan_number-typed n t small =
    let (c, s, e, digit) = decimal-starts n in
    let (no_space, no_minus, no_plus) = digit-other c digit in
    let read : digits_loop 0 (c ∷ (s ++ b' ' ∷ t)) ≡ (n, b' ' ∷ t) =
      rw e at (digits-space n t small) in
    rw (e, scan_number, no_space, no_minus, no_plus, digit, read) (ground arith)

word_loop-IsWord : (s : Text) → IsWord s → word_loop s ≡ s
unfolding word_loop
word_loop-IsWord [] word = refl
word_loop-IsWord (c ∷ s) (here, word) = rw (here, word_loop-IsWord s word)

-- An id, a space and a word.
pub arg_id_word-typed :
    (n : ℕ) (w : Text)
    → n < 2 ^ 32
    → w ≢ []
    → IsWord w
    → arg_id_word (decimal n ++ b' ' ∷ w) ≡ (n, some w)
unfolding arg_id_word skip_space
arg_id_word-typed n [] small ne word = absurd (ne refl)
arg_id_word-typed n (c ∷ w) small ne word = rw (
  arg_id_word,
  scan_number-typed n (c ∷ w) small,
  scan_word,
  word.0,
  word_loop-IsWord (c ∷ w) word,
)

pub IsWord-IsLine : (w : Text) → IsWord w → IsLine w
IsWord-IsLine [] word = tt
IsWord-IsLine (c ∷ w) (here, word) =
    (λ e. true≢false (sym (ap is_space e) ∙ here), IsWord-IsLine w word)

pub IsLine-append : (s t : Text) → IsLine s → IsLine t → IsLine (s ++ t)
IsLine-append [] t _ line = line
IsLine-append (c ∷ s) t (here, rest) line = (here, IsLine-append s t rest line)

decimal_loop-IsLine : (fuel n : ℕ) (rest : Text) → IsLine rest → IsLine (decimal_loop fuel n rest)
unfolding decimal_loop
decimal_loop-IsLine zero n rest line = line
decimal_loop-IsLine (suc fuel) n rest line = elim (Bool-cases (ltb n 10)) [
  | inl small ↦ rw small (λ e. absurd (omega (arith, e)), line)
  | inr large ↦ rw large (
      decimal_loop-IsLine fuel (n / 10) ((n % 10 + b'0') ∷ rest)
        (λ e. absurd (omega (arith, e)), line))
]

pub decimal-IsLine : (n : ℕ) → IsLine (decimal n)
unfolding decimal
decimal-IsLine n = decimal_loop-IsLine 10 n [] tt
