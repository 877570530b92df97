-- ===== src/Text.antt =====
-- C strings as the lists of their characters, and the conversions of `printf` and `scanf` that the
-- program uses: `%s`, `%u`, `%[^,]`.
pub mod RoundTrip
pub mod Keyword
pub mod Photo
use psis_project.Base.{
  ℤ, pos, negsuc, ℕ, zero, suc, ◌+◌, ◌-◌, ◌*◌, ◌/◌, ◌%◌, ◌^◌, ◌≡◌, refl, Bool, true, false, ◌&&◌,
  ◌||◌, not, Option, none, some, List, [], ◌∷◌, ◌++◌, arith, ◌==◌, leb, ltb, if◌then◌else◌, ap,
}

abbrev pub Text : Type 0
Text = List ℕ

-- `strcmp(s, t) == 0`
abbrev pub text_eq : Text → Text → Bool
text_eq [] [] = true
text_eq [] (d ∷ t) = false
text_eq (c ∷ s) [] = false
text_eq (c ∷ s) (d ∷ t) = (c == d) && text_eq s t

pub text_eq→≡ : (s t : Text) → text_eq s t ≡ true → s ≡ t
text_eq→≡ [] [] h = refl
text_eq→≡ [] (d ∷ t) h = cc
text_eq→≡ (c ∷ s) [] h = cc
text_eq→≡ (c ∷ s) (d ∷ t) h = ground (arith, text_eq→≡ s t)

pub text_eq_refl : (s : Text) → text_eq s s ≡ true
text_eq_refl [] = refl
text_eq_refl (c ∷ s) = ground (arith, text_eq_refl s)

abbrev pub is_digit : ℕ → Bool
is_digit c = leb b'0' c && leb c b'9'

-- The digits of `n` in front of `rest`, the last one first. A `uint32_t` has ten at most.
unfoldable pub decimal_loop : ℕ → ℕ → Text → Text
decimal_loop zero n rest = rest
decimal_loop (suc fuel) n rest =
    let more = decimal_loop fuel (n / 10) ((n % 10 + b'0') ∷ rest) in
    if ltb n 10 then (n + b'0') ∷ rest else more

-- `%u`
unfoldable pub decimal : ℕ → Text
decimal n = decimal_loop 10 n []

-- `scanf` reads digits with `strtoul`: at least one, and the value stays at `ULONG_MAX` when it
-- would pass it.
abbrev pub saturate : ℕ → ℕ
saturate n = if ltb n (2 ^ 64) then n else 2 ^ 64 - 1

unfoldable pub digits_loop : ℕ → Text → ℕ × Text
digits_loop acc [] = (acc, [])
digits_loop acc (c ∷ s) =
    let more = digits_loop (acc * 10 + (c - b'0')) s in if is_digit c then more else (acc, c ∷ s)

-- `%u` into a 32-bit variable: the value and what is left of the input.
unfoldable pub scan_unsigned : Text → Option (ℕ × Text)
scan_unsigned [] = none
scan_unsigned (c ∷ s) =
    if is_digit c
    then (let r = digits_loop 0 (c ∷ s) in some (saturate r.0 % 2 ^ 32, r.1))
    else none

unfoldable pub span_loop : Text → Text × Text
span_loop [] = ([], [])
span_loop (c ∷ s) =
    let more = span_loop s in if c == b',' then ([], c ∷ s) else (c ∷ more.0, more.1)

-- `%[^,]`: the characters before the next comma, at least one.
unfoldable pub scan_field : Text → Option (Text × Text)
scan_field [] = none
scan_field (c ∷ s) = if c == b',' then none else some (span_loop (c ∷ s))

-- A literal character of a format.
abbrev pub scan_char : ℕ → Text → Option Text
scan_char c [] = none
scan_char c (d ∷ s) = if c == d then some s else none

-- `sprintf(message, "%s,%u", addr, port)`
unfoldable pub print_peer : Text → ℕ → Text
print_peer addr port = addr ++ b',' ∷ decimal port

-- `sscanf(message, "%[^,],%u", K.addr, &K.port)`. A part that is not read keeps its old value.
unfoldable pub scan_peer : Text → Text × ℕ → Text × ℕ
scan_peer message (addr, port) = elim (scan_field message) [
  | none ↦ (addr, port)
  | some (field, rest) ↦ elim (scan_char b',' rest) [
    | none ↦ (field, port)
    | some digits ↦ elim (scan_unsigned digits) [
      | none ↦ (field, port)
      | some (value, _) ↦ (field, value)
    ]
  ]
]

-- `isspace` in the C locale.
abbrev pub is_space : ℕ → Bool
is_space c = c == b' ' || leb 9 c && leb c 13

unfoldable pub skip_space : Text → Text
skip_space [] = []
skip_space (c ∷ s) = let more = skip_space s in if is_space c then more else c ∷ s

unfoldable pub word_loop : Text → Text
word_loop [] = []
word_loop (c ∷ s) = let more = word_loop s in if is_space c then [] else c ∷ more

-- `%s`: the next word, `none` where there is none.
abbrev pub scan_word : Text → Option Text
scan_word s = elim (skip_space s) [ [] ↦ none | c ∷ t ↦ some (word_loop (c ∷ t)) ]

-- `sprintf(message, "%u.%s", id_photo, keyword)`
unfoldable pub print_keyword : ℕ → Text → Text
print_keyword id keyword = decimal id ++ b'.' ∷ keyword

-- `sscanf(msg->buffer, "%u.%s", &id, keyword)`
unfoldable pub scan_keyword : Text → ℕ × Text → ℕ × Text
unfolding skip_space
scan_keyword message (id, keyword) = elim (scan_unsigned message) [
  | none ↦ (id, keyword)
  | some (value, rest) ↦ elim (scan_char b'.' rest) [
    | none ↦ (value, keyword)
    | some words ↦ elim (scan_word words) [ none ↦ (value, keyword) | some word ↦ (value, word) ]
  ]
]

-- `sscanf(msg->buffer, "%u", &id)`
unfoldable pub scan_id : Text → ℕ → ℕ
scan_id message id = elim (scan_unsigned message) [ none ↦ id | some (value, rest) ↦ value ]

-- `%lu`
abbrev pub decimal_long : ℕ → Text
decimal_long n = decimal_loop 20 n []

-- `sprintf(message, "%s,%lu.%u.%d", photo.name, size, photo.id, photo.n_keywords)`
unfoldable pub print_photo : Text → (size id n_keywords : ℕ) → Text
unfolding decimal_loop
print_photo name size id n_keywords =
    name ++ b',' ∷ (decimal_long size ++ b'.' ∷ (decimal id ++ b'.' ∷ decimal n_keywords))

-- The file's name and size: `strcat(file, ",%lu")`.
unfoldable pub print_file : Text → ℕ → Text
unfolding decimal_loop
print_file name size = name ++ b',' ∷ decimal_long size

-- `%lu` into a 64-bit variable: the value and what is left of the input.
unfoldable pub scan_long : Text → Option (ℕ × Text)
scan_long [] = none
scan_long (c ∷ s) =
    if is_digit c then (let r = digits_loop 0 (c ∷ s) in some (saturate r.0, r.1)) else none

-- 32 bits as an `int`.
abbrev pub int_of : ℕ → ℤ
int_of n = if ltb n (2 ^ 31) then pos n else negsuc (2 ^ 32 - n - 1)

-- `%d` of digits: `strtol` stops at the ends of `long`, of which 32 bits are kept.
abbrev to_long : (bound n : ℕ) → ℕ
to_long bound n = if ltb n bound then n else bound

unfoldable pub scan_negative : Text → Option (ℤ × Text)
scan_negative [] = none
scan_negative (c ∷ s) =
    if is_digit c
    then (let r = digits_loop 0 (c ∷ s) in
        some (int_of ((2 ^ 32 - to_long (2 ^ 63) r.0 % 2 ^ 32) % 2 ^ 32), r.1))
    else none

unfoldable pub scan_int : Text → Option (ℤ × Text)
scan_int [] = none
scan_int (c ∷ s) =
    if is_digit c
    then (let r = digits_loop 0 (c ∷ s) in some (int_of (to_long (2 ^ 63 - 1) r.0 % 2 ^ 32), r.1))
    else (if c == b'-' then scan_negative s else none)

-- `%d` of 32 bits.
unfoldable pub decimal_int : ℕ → Text
decimal_int n = if ltb n (2 ^ 31) then decimal n else b'-' ∷ decimal (2 ^ 32 - n)

-- `sprintf(buffer, "%s,%d", addr, port)`
unfoldable pub print_peer_int : Text → ℕ → Text
print_peer_int addr port = addr ++ b',' ∷ decimal_int port

-- 32 bits of an `int`.
abbrev pub bits_of : ℤ → ℕ
bits_of (pos n) = n
bits_of (negsuc n) = 2 ^ 32 - n - 1

-- `sscanf(message, "%[^,],%d", addr, &port)`. A part that is not read keeps its old value.
unfoldable pub scan_peer_int : Text → Text × ℕ → Text × ℕ
scan_peer_int message (addr, port) = elim (scan_field message) [
  | none ↦ (addr, port)
  | some (field, rest) ↦ elim (scan_char b',' rest) [
    | none ↦ (field, port)
    | some digits ↦ elim (scan_int digits) [
      | none ↦ (field, port)
      | some (value, _) ↦ (field, bits_of value)
    ]
  ]
]

-- What `add_photo` reads of its message.
pub record PhotoHeader : Type 0 where
  pub name : Text
  pub size : ℕ
  pub id : ℕ
  pub n_keywords : ℤ

-- `sscanf(msg->buffer, "%[^,],%lu", name, &size)`, and what is left of the message if all was read;
-- `old` is what the stack holds of `name`.
unfoldable pub scan_file : Text → Text → PhotoHeader × Option Text
scan_file message old = elim (scan_field message) [
  | none ↦ (record { name = old; size = 0; id = 0; n_keywords = pos 0 }, none)
  | some (name, rest) ↦ elim (scan_char b',' rest) [
    | none ↦ (record { name = name; size = 0; id = 0; n_keywords = pos 0 }, none)
    | some digits ↦ elim (scan_long digits) [
      | none ↦ (record { name = name; size = 0; id = 0; n_keywords = pos 0 }, none)
      | some (size, left) ↦
          (record { name = name; size = size; id = 0; n_keywords = pos 0 }, some left)
    ]
  ]
]

-- `.%u.%d` behind it.
unfoldable pub scan_tail : PhotoHeader → Option Text → PhotoHeader
scan_tail header none = header
scan_tail header (some left) = elim (scan_char b'.' left) [
  | none ↦ header
  | some digits ↦ elim (scan_unsigned digits) [
    | none ↦ header
    | some (id, more) ↦ elim (scan_char b'.' more) [
      | none ↦ record header { id = id }
      | some last ↦ elim (scan_int last) [
        | none ↦ record header { id = id }
        | some (n, _) ↦ record header { id = id; n_keywords = n }
      ]
    ]
  ]
]

-- `sscanf(msg->buffer, "%[^,],%lu.%u.%d", name, &size, &id, &n_keywords)`
unfoldable pub scan_photo : Text → Text → PhotoHeader
unfolding scan_file scan_tail
scan_photo message old = scan_tail (scan_file message old).0 (scan_file message old).1
