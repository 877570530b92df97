-- ===== src/Text/Photo.antt =====
-- The header of a photo that a peer writes is read back by another peer.
use psis_project.Base.{
  ℕ, suc, ◌+◌, ◌/◌, ◌%◌, ◌^◌, ◌<◌, ◌≡◌, ◌≢◌, ◌∙◌, ap, pos, true, Option, some, [], ◌∷◌, ◌++◌, arith,
  ltb, Bool-cases, inl, inr,
}
use psis_project.Text.{
  Text, is_digit, decimal_loop, decimal, decimal_long, digits_loop, scan_long, scan_int,
  PhotoHeader, print_photo, print_file, scan_file, scan_tail, scan_photo,
}
use psis_project.Text.RoundTrip.{
  IsField, digit, decimal_loop-starts, digits_loop-decimal_loop, digits_loop-decimal,
  decimal-starts, scan_field-append,
}
use psis_project.Text.Keyword.{decimal_loop-append, scan_unsigned-append}

digits-append :
    (fuel n : ℕ) (t : Text)
    → n < 10 ^ fuel
    → digits_loop 0 (decimal_loop fuel n [] ++ b'.' ∷ t) ≡ (n, b'.' ∷ t)
unfolding digits_loop
digits-append fuel n t h =
    let (w, run) = digits_loop-decimal_loop fuel n 0 (b'.' ∷ t) h in
    ap (digits_loop 0) (decimal_loop-append fuel n [] (b'.' ∷ t))
    ∙ run
    ∙ ap (λ a. digits_loop a (b'.' ∷ t)) (omega arith)

digits-all : (fuel n : ℕ) → n < 10 ^ fuel → digits_loop 0 (decimal_loop fuel n []) ≡ (n, [])
unfolding digits_loop
digits-all fuel n h =
    let (w, run) = digits_loop-decimal_loop fuel n 0 [] h in
    run ∙ ap (λ (a : ℕ). (a, [])) (omega arith)

decimal_loop-begins :
    (fuel n : ℕ)
    → (c : ℕ) × (s : Text) × (decimal_loop (suc fuel) n [] ≡ c ∷ s) × (is_digit c ≡ true)
unfolding decimal_loop
decimal_loop-begins fuel n = elim (Bool-cases (ltb n 10)) [
  | inl small ↦ (n + b'0', [], rw small, (digit n (ground arith)).0)
  | inr large ↦
      let (c, s, e, q) =
        decimal_loop-starts fuel (n / 10) (n % 10 + b'0') [] (digit (n % 10) (omega arith)).0 in
      (c, s, rw (large, e), q)
]

scan_long-append :
    (n : ℕ) (t : Text) → n < 2 ^ 64 → scan_long (decimal_long n ++ b'.' ∷ t) ≡ some (n, b'.' ∷ t)
unfolding scan_long
scan_long-append n t h =
    let (c, s, e, q) = decimal_loop-begins 19 n in
    let read : digits_loop 0 (c ∷ (s ++ b'.' ∷ t)) ≡ (n, b'.' ∷ t) =
      rw e at (digits-append 20 n t (omega arith)) in
    rw (e, q, read) (ground arith)

pub scan_long-decimal : (n : ℕ) → n < 2 ^ 64 → scan_long (decimal_long n) ≡ some (n, [])
unfolding scan_long
scan_long-decimal n h =
    let (c, s, e, q) = decimal_loop-begins 19 n in
    let read : digits_loop 0 (c ∷ s) ≡ (n, []) = rw e at (digits-all 20 n (omega arith)) in
    rw (e, q, read) (ground arith)

scan_int-decimal : (n : ℕ) → n < 2 ^ 31 → scan_int (decimal n) ≡ some (pos n, [])
unfolding scan_int
scan_int-decimal n h =
    let (c, s, e, q) = decimal-starts n in
    let read : digits_loop 0 (c ∷ s) ≡ (n, []) = rw e at (digits_loop-decimal n (omega arith)) in
    rw (e, q, read) (ground arith)

scan_file-append :
    (name : Text) (size : ℕ) (t old : Text)
    → name ≢ []
    → IsField name
    → size < 2 ^ 64
    → scan_file (name ++ b',' ∷ (decimal_long size ++ b'.' ∷ t)) old
      ≡ (record { name = name; size = size; id = 0; n_keywords = pos 0 }, some (b'.' ∷ t))
unfolding scan_file
scan_file-append name size t old ne field small = rw (
  scan_file,
  scan_field-append name (decimal_long size ++ b'.' ∷ t) ne field,
  scan_long-append size t small,
)

scan_tail-decimal :
    (header : PhotoHeader) (id n : ℕ)
    → id < 2 ^ 32
    → n < 2 ^ 31
    → scan_tail header (some (b'.' ∷ (decimal id ++ b'.' ∷ decimal n)))
      ≡ record header { id = id; n_keywords = pos n }
unfolding scan_tail
scan_tail-decimal header id n small_id small_n =
    rw (scan_tail, scan_unsigned-append id (decimal n) small_id, scan_int-decimal n small_n)

-- What `send_photo` writes of a photo, `add_photo` reads: its name, size, id and number of keywords.
pub scan_photo-print_photo :
    (name : Text) (size id n_keywords : ℕ) (old : Text)
    → name ≢ []
    → IsField name
    → size < 2 ^ 64
    → id < 2 ^ 32
    → n_keywords < 2 ^ 31
    → scan_photo (print_photo name size id n_keywords) old
      ≡ record { name = name; size = size; id = id; n_keywords = pos n_keywords }
unfolding scan_photo print_photo
scan_photo-print_photo name size id n old ne field small_size small_id small_n =
    ap (λ (r : PhotoHeader × Option Text). scan_tail r.0 r.1)
      (scan_file-append name size (decimal id ++ b'.' ∷ decimal n) old ne field small_size)
    ∙ scan_tail-decimal (record { name = name; size = size; id = 0; n_keywords = pos 0 }) id n
        small_id small_n

-- What `gallery_add_photo` writes of a file, `add_photo` reads: its name and size.
pub scan_file-print_file :
    (name : Text) (size : ℕ) (old : Text)
    → name ≢ []
    → IsField name
    → size < 2 ^ 64
    → (scan_file (print_file name size) old).0
      ≡ record { name = name; size = size; id = 0; n_keywords = pos 0 }
unfolding print_file scan_file
scan_file-print_file name size old ne field small = rw (
  print_file,
  scan_file,
  scan_field-append name (decimal_long size) ne field,
  scan_long-decimal size small,
)
