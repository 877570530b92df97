-- ===== src/Text/RoundTrip.antt =====
-- What `%u` prints, `%u` reads; what the gateway writes into a message about a peer, a peer reads.
use psis_project.Base.{
  ℕ, zero, suc, ◌+◌, ◌-◌, ◌*◌, ◌/◌, ◌%◌, ◌^◌, ◌<◌, ◌≡◌, ◌≢◌, refl, ◌∙◌, true, some, [], ◌∷◌, ◌++◌,
  arith, ltb, ap, Bool-cases, inl, inr,
}
use native.Mathlib.Nat.{pow-suc}
use psis_project.Base.{ne→==}
use psis_project.Text.{
  Text, is_digit, decimal_loop, decimal, digits_loop, scan_unsigned, span_loop, scan_field,
  print_peer, scan_peer,
}

pub digit : (n : ℕ) → n < 10 → (is_digit (n + b'0') ≡ true) × (n + b'0' - b'0' ≡ n)
digit n h = ground arith

-- What the digits in front of `rest` add to a value that has been read so far.
pub digits_loop-decimal_loop :
    (fuel n acc : ℕ) (rest : Text)
    → n < 10 ^ fuel
    → (w : ℕ) × (digits_loop acc (decimal_loop fuel n rest) ≡ digits_loop (acc * w + n) rest)
unfolding decimal_loop digits_loop
digits_loop-decimal_loop zero n acc rest h = (1, ap (λ a. digits_loop a rest) (omega arith))
digits_loop-decimal_loop (suc fuel) n acc rest h = elim (Bool-cases (ltb n 10)) [
  | inl small ↦ (10, rw (small, (digit n (ground arith)).0, (digit n (ground arith)).1))
  | inr large ↦
      let d = n % 10 in
      let (w, e) =
        digits_loop-decimal_loop fuel (n / 10) acc ((d + b'0') ∷ rest)
          (omega (arith, pow-suc 10 fuel)) in
      (
        w * 10,
        rw (large, e, (digit d (omega arith)).0, (digit d (omega arith)).1)
            (ap (λ a. digits_loop a rest) (omega arith)),
      )
]

-- A number begins with a digit.
pub decimal_loop-starts :
    (fuel n d : ℕ) (rest : Text)
    → is_digit d ≡ true
    → (c : ℕ) × (s : Text) × (decimal_loop fuel n (d ∷ rest) ≡ c ∷ s) × (is_digit c ≡ true)
unfolding decimal_loop
decimal_loop-starts zero n d rest h = (d, rest, refl, h)
decimal_loop-starts (suc fuel) n d rest h = elim (Bool-cases (ltb n 10)) [
  | inl small ↦ (n + b'0', d ∷ rest, rw small, (digit n (ground arith)).0)
  | inr large ↦
      let (c, s, e, q) =
        decimal_loop-starts fuel (n / 10) (n % 10 + b'0') (d ∷ rest)
          (digit (n % 10) (omega arith)).0 in
      (c, s, rw (large, e), q)
]

pub decimal-starts : (n : ℕ) → (c : ℕ) × (s : Text) × (decimal n ≡ c ∷ s) × (is_digit c ≡ true)
unfolding decimal decimal_loop
decimal-starts n = elim (Bool-cases (ltb n 10)) [
  | inl small ↦ (n + b'0', [], rw (small, decimal_loop), (digit n (ground arith)).0)
  | inr large ↦
      let (c, s, e, q) =
        decimal_loop-starts 9 (n / 10) (n % 10 + b'0') [] (digit (n % 10) (omega arith)).0 in
      (c, s, rw (large, decimal_loop, e), q)
]

pub digits_loop-decimal : (n : ℕ) → n < 10 ^ 10 → digits_loop 0 (decimal n) ≡ (n, [])
unfolding decimal digits_loop
digits_loop-decimal n h =
    let (w, e) = digits_loop-decimal_loop 10 n 0 [] h in e ∙ ap (λ (a : ℕ). (a, [])) (omega arith)

-- `%u` reads back the number that `%u` printed.
pub scan_unsigned-decimal : (n : ℕ) → n < 2 ^ 32 → scan_unsigned (decimal n) ≡ some (n, [])
unfolding scan_unsigned
scan_unsigned-decimal n h =
    let (c, s, e, q) = decimal-starts n in
    let read : digits_loop 0 (c ∷ s) ≡ (n, []) = rw e at (digits_loop-decimal n (omega arith)) in
    rw (e, q, read) (ground arith)

-- No comma in it.
abbrev pub IsField : Text → Type 0
IsField [] = Unit {0}
IsField (c ∷ s) = (c ≢ b',') × IsField s

span_loop-append : (s rest : Text) → IsField s → span_loop (s ++ b',' ∷ rest) ≡ (s, b',' ∷ rest)
unfolding span_loop
span_loop-append [] rest h = refl
span_loop-append (c ∷ s) rest h = rw (ne→== c b',' h.0, span_loop-append s rest h.1)

pub scan_field-append :
    (s rest : Text) → s ≢ [] → IsField s → scan_field (s ++ b',' ∷ rest) ≡ some (s, b',' ∷ rest)
unfolding scan_field span_loop
scan_field-append [] rest ne h = absurd (ne refl)
scan_field-append (c ∷ s) rest ne h = rw (ne→== c b',' h.0, span_loop-append s rest h.1)

-- What `%s,%u` writes of an address and a port, `%[^,],%u` reads back, if the address is not
-- empty and has no comma and the port fits 32 bits.
pub scan_peer-print_peer :
    (addr : Text) (port : ℕ) (old : Text × ℕ)
    → addr ≢ []
    → IsField addr
    → port < 2 ^ 32
    → scan_peer (print_peer addr port) old ≡ (addr, port)
unfolding scan_peer print_peer
scan_peer-print_peer addr port old ne field small =
    rw (scan_field-append addr (decimal port) ne field, scan_peer, scan_unsigned-decimal port small)
