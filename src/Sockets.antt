-- ===== src/Sockets.antt =====
-- send_all and recv_all of msgs.c over a stream socket. What the calls of `send` and `recv` return
-- is a list, one entry for each call; where it is used up the call waits, and the result is `none`. One call
-- of `send` sends fewer than 2 ^ 31 bytes.
pub mod Whole
use psis_project.Base.{
  ℕ, zero, suc, ◌+◌, ◌-◌, ◌%◌, ◌^◌, ◌≡◌, ℤ, pos, negsuc, Bool, true, false, Option, none, some,
  List, [], ◌∷◌, ◌++◌, ltb, if◌then◌else◌, length, arith,
}
use psis_project.Machine.{Cmd, fault, blocked}
use psis_project.Text.{int_of}

-- The first `n` characters, and the others.
abbrev pub take : {A : Type 0} → ℕ → List A → List A
take zero xs = []
take (suc n) [] = []
take (suc n) (x ∷ xs) = x ∷ take n xs

abbrev pub drop : {A : Type 0} → ℕ → List A → List A
drop zero xs = xs
drop (suc n) [] = []
drop (suc n) (x ∷ xs) = drop n xs

abbrev pub also_sent : List ℕ → Option (List ℕ × ℤ) → Option (List ℕ × ℤ)
also_sent chunk none = none
also_sent chunk (some (sent, nbytes)) = some (chunk ++ sent, nbytes)

-- The loop of `send_all`: the bytes that were sent, and the last value of `nbytes`.
unfoldable pub send_loop : (results : List ℤ) (p : List ℕ) (nbytes : ℤ) → Option (List ℕ × ℤ)
send_loop results [] nbytes = some ([], nbytes)
send_loop [] (b ∷ p) nbytes = none
send_loop (negsuc n ∷ results) (b ∷ p) nbytes = some ([], negsuc n)
send_loop (pos zero ∷ results) (b ∷ p) nbytes = some ([], pos zero)
send_loop (pos (suc n) ∷ results) (b ∷ p) nbytes =
    also_sent (take (suc n) (b ∷ p)) (send_loop results (drop (suc n) (b ∷ p)) (pos (suc n)))

-- `(nbytes <= 0) ? -1 : nbytes`
abbrev pub send_result : ℤ → ℤ
send_result (pos zero) = negsuc 0
send_result (pos (suc n)) = pos (suc n)
send_result (negsuc n) = negsuc 0

abbrev pub finish_send : Option (List ℕ × ℤ) → Option (List ℕ × ℤ)
finish_send none = none
finish_send (some (sent, nbytes)) = some (sent, send_result nbytes)

-- `nbytes` is what the stack holds before the first `send`. What was sent, and the result.
unfoldable pub send_all : (results : List ℤ) (buffer : List ℕ) (nbytes : ℤ) → Option (List ℕ × ℤ)
unfolding send_loop
send_all results buffer nbytes = finish_send (send_loop results buffer nbytes)

-- What a call of `recv` finds: bytes that have arrived, of which it takes as many as it is asked for; or
-- 0 for a closed connection and -1 for an error.
pub data Received : Type 0 where
  bytes : List ℕ → Received
  ended : ℤ → Received

-- 64 bits that an `int` of 32 bits becomes where it is compared with a `size_t`.
abbrev pub as_size : ℕ → ℕ
as_size n = let low = n % 2 ^ 32 in if ltb low (2 ^ 31) then low else low + (2 ^ 64 - 2 ^ 32)

-- `total_bytes`, as it is compared.
abbrev pub total_bytes : List ℕ → ℕ
total_bytes got = as_size (length got)

-- How many bytes each call of `recv` is asked for, when `got` has arrived.
abbrev pub asked : (max_length : ℕ) (got : List ℕ) → ℕ
asked max_length got = max_length

-- The loop of `recv_all`: what was written from `buffer` on, and the last value of `nbytes`.
unfoldable pub recv_loop :
    (results : List Received) (max_length : ℕ) (got : List ℕ) (nbytes : ℤ) → Option (List ℕ × ℤ)
recv_loop [] max_length got nbytes =
    if ltb (total_bytes got) max_length then none else some (got, nbytes)
recv_loop (bytes chunk ∷ results) max_length got nbytes =
    let taken = take (asked max_length got) chunk in
    let more = recv_loop results max_length (got ++ taken) (pos (length taken)) in
    if ltb (total_bytes got) max_length then more else some (got, nbytes)
recv_loop (ended code ∷ results) max_length got nbytes =
    if ltb (total_bytes got) max_length then some (got, code) else some (got, nbytes)

abbrev pub received_result : ℕ → List ℕ → ℤ → ℤ
received_result max_length got nbytes =
    if ltb max_length (total_bytes got) then negsuc 1 else (elim nbytes [
      | pos zero ↦ pos zero
      | pos (suc n) ↦ int_of (length got % 2 ^ 32)
      | negsuc n ↦ negsuc n
    ])

abbrev pub finish_recv : ℕ → Option (List ℕ × ℤ) → Option (List ℕ × ℤ)
finish_recv max_length none = none
finish_recv max_length (some (got, nbytes)) = some (got, received_result max_length got nbytes)

unfoldable pub recv_all :
    (results : List Received) (max_length : ℕ) (nbytes : ℤ) → Option (List ℕ × ℤ)
unfolding recv_loop
recv_all results max_length nbytes = finish_recv max_length (recv_loop results max_length [] nbytes)

-- A caller of `recv_all` with a buffer of `max_length` bytes: the connection at which nothing more arrives
-- keeps it waiting, and bytes behind the buffer are a fault. `nbytes` is positive before the first call of
-- `recv`; a buffer of 0 bytes gives 0 or less, whatever the stack holds.
abbrev pub filled : {S A : Type 0} → ℕ → (List ℕ → ℤ → Cmd S A) → Option (List ℕ × ℤ) → Cmd S A
filled max_length k none = λ _. blocked
filled max_length k (some (got, result)) =
    if ltb max_length (length got) then (λ _. fault) else k got result

abbrev pub fill_buffer : {S A : Type 0} → List Received → ℕ → (List ℕ → ℤ → Cmd S A) → Cmd S A
fill_buffer results max_length k = filled max_length k (recv_all results max_length (pos 1))

-- A `recv` on a connection that was closed.
abbrev pub no_bytes : List Received
no_bytes = ended (pos 0) ∷ []

-- What a call of `recv_all` for a value of fixed size gives its caller: -1; 0, where the connection was closed; -2, for too
-- many bytes; or the whole buffer.
pub data RecvAll (A : Type 0) : Type 0 where
  all_error : RecvAll A
  all_closed : RecvAll A
  all_overflow : RecvAll A
  all_received : A → RecvAll A

-- `> 0`
abbrev pub is_positive : ℤ → Bool
is_positive (pos zero) = false
is_positive (pos (suc n)) = true
is_positive (negsuc n) = false
