-- ===== src/Sockets/Whole.antt =====
-- Whole buffers over `send_all` and `recv_all`.
use psis_project.Base.{
  ℕ, zero, suc, ◌+◌, ◌<◌, ◌≤◌, ◌%◌, ◌^◌, ◌≡◌, refl, ◌∙◌, ap, ℤ, pos, negsuc, true, false, some,
  List, [], ◌∷◌, ◌++◌, map, ltb, if◌then◌else◌, length, length-append, arith,
}
use mathlib.Core.List.{append_assoc, append-nil}
use psis_project.Machine.{Cmd, fault}
use psis_project.Sockets.{
  take, drop, send_loop, send_result, send_all, Received, bytes, recv_loop, recv_all, total_bytes,
  filled, fill_buffer,
}

take-drop : {A : Type 0} (n : ℕ) (xs : List A) → take n xs ++ drop n xs ≡ xs
take-drop zero xs = refl
take-drop (suc n) [] = refl
take-drop (suc n) (x ∷ xs) = ap (λ ys. x ∷ ys) (take-drop n xs)

length-drop : {A : Type 0} (n m : ℕ) (xs : List A) → length xs ≡ n + m → length (drop n xs) ≡ m
length-drop zero m xs e = omega arith
length-drop (suc n) m [] e = absurd (omega arith)
length-drop (suc n) m (x ∷ xs) e = length-drop n m xs (omega arith)

-- How many bytes are sent by calls that send one more than each of `chunks`.
abbrev pub total : List ℕ → ℕ
total [] = 0
total (n ∷ ns) = suc n + total ns

abbrev pub successes : List ℕ → List ℤ
successes = map λ n. pos (suc n)

abbrev pub last_of : ℤ → List ℕ → ℤ
last_of nbytes [] = nbytes
last_of nbytes (n ∷ ns) = last_of (pos (suc n)) ns

send_loop-whole :
    (chunks : List ℕ) (buffer : List ℕ) (nbytes : ℤ)
    → length buffer ≡ total chunks
    → send_loop (successes chunks) buffer nbytes ≡ some (buffer, last_of nbytes chunks)
unfolding send_loop
send_loop-whole [] [] nbytes e = refl
send_loop-whole [] (b ∷ p) nbytes e = absurd (omega arith)
send_loop-whole (n ∷ ns) [] nbytes e = absurd (omega arith)
send_loop-whole (n ∷ ns) (b ∷ p) nbytes e = rw (
  send_loop-whole ns (drop n p) (pos (suc n)) (length-drop n (total ns) p (omega arith)),
  take-drop,
)

-- `send_all` sends the whole buffer in its order, however the calls of `send` cut it into
-- chunks, as long as each sends something and there is at least one; its result is the size of
-- the last chunk.
pub send_all-whole :
    (n : ℕ) (chunks : List ℕ) (buffer : List ℕ) (nbytes : ℤ)
    → length buffer ≡ total (n ∷ chunks)
    → send_all (successes (n ∷ chunks)) buffer nbytes ≡ some (buffer, last_of (pos (suc n)) chunks)
unfolding send_all
send_all-whole n chunks buffer nbytes e =
    rw (send_loop-whole (n ∷ chunks) buffer nbytes e, positive n chunks)
  where
    positive :
        (n : ℕ) (ns : List ℕ) → send_result (last_of (pos (suc n)) ns) ≡ last_of (pos (suc n)) ns
    positive n [] = refl
    positive n (m ∷ ms) = positive m ms

-- The chunks that `recv` gives, none of them empty, each in front of the end of the buffer.
abbrev pub joined : List (ℕ × List ℕ) → List ℕ
joined [] = []
joined ((c, cs) ∷ rest) = (c ∷ cs) ++ joined rest

abbrev pub arrivals : List (ℕ × List ℕ) → List Received
arrivals = map λ chunk. bytes (chunk.0 ∷ chunk.1)

total_bytes-small : (got : List ℕ) → length got < 2 ^ 31 → total_bytes got ≡ length got
total_bytes-small got small =
    let low : length got % 2 ^ 32 ≡ length got = omega (arith, small) in
    let positive : ltb (length got) (2 ^ 31) ≡ true = ground (arith, small) in
    rw (low, positive) refl

pub take-all : {A : Type 0} (n : ℕ) (xs : List A) → length xs ≤ n → take n xs ≡ xs
take-all zero [] short = refl
take-all zero (x ∷ xs) short = absurd (omega (arith, short))
take-all (suc n) [] short = refl
take-all (suc n) (x ∷ xs) short = ap (λ ys. x ∷ ys) (take-all n xs (omega (arith, short)))

recv_loop-whole :
    (chunks : List (ℕ × List ℕ)) (got : List ℕ) (n limit : ℕ)
    → limit ≡ length got + length (joined chunks)
    → limit < 2 ^ 31
    → (m : ℕ) × (recv_loop (arrivals chunks) limit got (pos (suc n))
        ≡ some (got ++ joined chunks, pos (suc m)))
unfolding recv_loop
recv_loop-whole [] got n limit e small =
    let same = total_bytes-small got (omega (arith, e, small)) in
    let stop : ltb (length got) limit ≡ false = ground (arith, e) in
    (n, rw (same, stop, append-nil))
recv_loop-whole ((c, cs) ∷ rest) got n limit e small =
    let all = joined rest in
    let parts = length-append {0} (c ∷ cs) all in
    let (m, run) =
      recv_loop-whole rest (got ++ c ∷ cs) (length cs) limit
        (omega (arith, e, parts, length-append {0} got (c ∷ cs))) small in
    let same = total_bytes-small got (omega (arith, e, small)) in
    let go : ltb (length got) limit ≡ true = ground (arith, e, parts) in
    let whole = take-all limit (c ∷ cs) (omega (arith, e, parts)) in
    (
      m,
      rw (same, go, whole) (run ∙ ap (λ r. some (r, pos (suc m))) (append_assoc got (c ∷ cs) all)),
    )

recv_all-limit :
    (c : ℕ) (cs : List ℕ) (chunks : List (ℕ × List ℕ)) (limit : ℕ) (nbytes : ℤ)
    → let all = joined ((c, cs) ∷ chunks) in
      limit ≡ length all
      → limit < 2 ^ 31
      → recv_all (arrivals ((c, cs) ∷ chunks)) limit nbytes ≡ some (all, pos limit)
unfolding recv_all recv_loop
recv_all-limit c cs chunks limit nbytes e small =
    let all = joined ((c, cs) ∷ chunks) in
    let parts = length-append {0} (c ∷ cs) (joined chunks) in
    let (m, run) =
      recv_loop-whole chunks (c ∷ cs) (length cs) limit (omega (arith, parts, e)) small in
    let begin : ltb 0 limit ≡ true = ground (arith, parts, e) in
    let whole = take-all limit (c ∷ cs) (omega (arith, parts, e)) in
    let same = total_bytes-small all (omega (arith, e, small)) in
    let fits : ltb limit (length all) ≡ false = ground (arith, e) in
    let low : length all % 2 ^ 32 ≡ limit = omega (arith, e, small) in
    let positive : ltb limit (2 ^ 31) ≡ true = ground (arith, small) in
    rw (begin, whole, run, same, fits, low, positive) refl

-- `recv_all` puts chunks that are not empty, at least one, together in the order in which they
-- arrive, if they end where the buffer ends, and its result is the size of the buffer. (The
-- buffer has fewer than 2^31 bytes.)
pub recv_all-whole :
    (c : ℕ) (cs : List ℕ) (chunks : List (ℕ × List ℕ)) (nbytes : ℤ)
    → let all = joined ((c, cs) ∷ chunks) in
      length all < 2 ^ 31
      → recv_all (arrivals ((c, cs) ∷ chunks)) (length all) nbytes ≡ some (all, pos (length all))
recv_all-whole c cs chunks nbytes small =
    recv_all-limit c cs chunks (length (joined ((c, cs) ∷ chunks))) nbytes refl small

-- What is sent in one piece fills the buffer of its size.
pub fill_buffer-sent :
    {S A : Type 0} (size : ℕ) (c : ℕ) (cs : List ℕ) (k : List ℕ → ℤ → Cmd S A)
    → size ≡ length (c ∷ cs)
    → size < 2 ^ 31
    → fill_buffer (bytes (c ∷ cs) ∷ []) size k ≡ k (c ∷ cs) (pos size)
fill_buffer-sent size c cs k e small =
    let all = append-nil (c ∷ cs) in
    let run : recv_all (bytes (c ∷ cs) ∷ []) size (pos 1) ≡ some (c ∷ cs, pos size) =
      recv_all-limit c cs [] size (pos 1) (omega (arith, e, ap length all)) small
      ∙ ap (λ r. some (r, pos size)) all in
    let fits : ltb size (length (c ∷ cs)) ≡ false = ground (arith, e) in
    ap (filled size k) run ∙ ap (λ b. if b then (λ _. fault) else k (c ∷ cs) (pos size)) fits

-- `recv_all` asks for `max_length` bytes in each call: if the first call gives fewer and the
-- second gives at most `max_length`, but more than there is room for, all of them are written
-- from the buffer on, past its end, and the result is -2. (`max_length` is at most 2^30.)
pub recv_all-overflow :
    (first second : List ℕ) (max_length : ℕ) (nbytes : ℤ)
    → length first < max_length
    → length second ≤ max_length
    → max_length < length first + length second
    → max_length ≤ 2 ^ 30
    → recv_all (bytes first ∷ bytes second ∷ []) max_length nbytes
      ≡ some (first ++ second, negsuc 1)
unfolding recv_all recv_loop
recv_all-overflow first second max_length nbytes room allowed over small =
    let size = length-append {0} first second in
    let before = total_bytes-small first (omega (arith, room, small)) in
    let after = total_bytes-small (first ++ second) (omega (arith, size, room, allowed, small)) in
    let begin : ltb 0 max_length ≡ true = ground (arith, room) in
    let again : ltb (length first) max_length ≡ true = ground (arith, room) in
    let full : ltb (length (first ++ second)) max_length ≡ false = ground (arith, size, over) in
    let past : ltb max_length (length (first ++ second)) ≡ true = ground (arith, size, over) in
    rw
      (
        begin,
        take-all max_length first (omega (arith, room)),
        take-all max_length second allowed,
        before,
        again,
        after,
        full,
        after,
        past,
      )
      refl
