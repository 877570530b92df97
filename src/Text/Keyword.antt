-- ===== src/Text/Keyword.antt =====
-- The message `id.keyword` that a client writes is read back by a peer.
use psis_project.Base.{
  ℕ, zero, suc, ◌^◌, ◌<◌, ◌≡◌, ◌≢◌, refl, ◌∙◌, ap, false, some, [], ◌∷◌, ◌++◌, arith, ltb,
  Bool-cases, inl, inr,
}
use psis_project.Text.{
  Text, is_space, decimal_loop, decimal, digits_loop, scan_unsigned, skip_space, word_loop,
  print_keyword, scan_keyword,
}
use psis_project.Text.RoundTrip.{digits_loop-decimal_loop, decimal-starts}

pub decimal_loop-append :
    (fuel n : ℕ) (s t : Text) → decimal_loop fuel n s ++ t ≡ decimal_loop fuel n (s ++ t)
unfolding decimal_loop
decimal_loop-append zero n s t = refl
decimal_loop-append (suc fuel) n s t = elim (Bool-cases (ltb n 10)) [
  | inl small ↦ rw small
  | inr large ↦ rw large (decimal_loop-append fuel _ _ t)
]

-- A word: characters other than white space.
abbrev pub IsWord : Text → Type 0
IsWord [] = Unit {0}
IsWord (c ∷ s) = (is_space c ≡ false) × IsWord s

word_loop-IsWord : (s : Text) → IsWord s → word_loop s ≡ s
unfolding word_loop
word_loop-IsWord [] word = refl
word_loop-IsWord (c ∷ s) (here, word) = rw (here, word_loop-IsWord s word)

digits-append :
    (n : ℕ) (t : Text) → n < 10 ^ 10 → digits_loop 0 (decimal n ++ b'.' ∷ t) ≡ (n, b'.' ∷ t)
unfolding decimal digits_loop
digits-append n t h =
    let (w, run) = digits_loop-decimal_loop 10 n 0 (b'.' ∷ t) h in
    ap (digits_loop 0) (decimal_loop-append 10 n [] (b'.' ∷ t))
    ∙ run
    ∙ ap (λ a. digits_loop a (b'.' ∷ t)) (omega arith)

pub scan_unsigned-append :
    (n : ℕ) (t : Text) → n < 2 ^ 32 → scan_unsigned (decimal n ++ b'.' ∷ t) ≡ some (n, b'.' ∷ t)
unfolding scan_unsigned
scan_unsigned-append n t h =
    let (c, s, e, q) = decimal-starts n in
    let read : digits_loop 0 (c ∷ (s ++ b'.' ∷ t)) ≡ (n, b'.' ∷ t) =
      rw e at (digits-append n t (omega arith)) in
    rw (e, q, read) (ground arith)

-- What `gallery_add_keyword` writes, `add_keyword` of a peer reads: the id and the keyword. (The
-- keyword is one word.)
pub scan_keyword-print_keyword :
    (id : ℕ) (keyword : Text) (old : ℕ × Text)
    → id < 2 ^ 32
    → keyword ≢ []
    → IsWord keyword
    → scan_keyword (print_keyword id keyword) old ≡ (id, keyword)
unfolding scan_keyword print_keyword skip_space
scan_keyword-print_keyword id [] old small ne word = absurd (ne refl)
scan_keyword-print_keyword id (c ∷ s) old small ne word =
    rw (scan_keyword, scan_unsigned-append id (c ∷ s) small, word.0, word_loop-IsWord (c ∷ s) word)
