-- ===== src/Tests/Streams.antt =====
-- A buffer of three bytes in two chunks.
use psis_project.Base.{◌≡◌, refl, pos, negsuc, some, [], ◌∷◌, arith}
use psis_project.Sockets.{send_all, recv_all, bytes}
use psis_project.Sockets.Whole.{send_all-whole, recv_all-whole, recv_all-overflow}

send_all-whole_example :
    send_all (pos 2 ∷ pos 1 ∷ []) (7 ∷ 8 ∷ 9 ∷ []) (pos 0) ≡ some (7 ∷ 8 ∷ 9 ∷ [], pos 1)
send_all-whole_example = send_all-whole 1 (0 ∷ []) (7 ∷ 8 ∷ 9 ∷ []) (pos 0) refl

recv_all-whole_example :
    recv_all (bytes (7 ∷ 8 ∷ []) ∷ bytes (9 ∷ []) ∷ []) 3 (pos 0) ≡ some (7 ∷ 8 ∷ 9 ∷ [], pos 3)
recv_all-whole_example = recv_all-whole 7 (8 ∷ []) ((9, []) ∷ []) (pos 0) (omega arith)

recv_all-overflow_example :
    recv_all (bytes (7 ∷ 8 ∷ []) ∷ bytes (9 ∷ 9 ∷ []) ∷ []) 3 (pos 0)
    ≡ some (7 ∷ 8 ∷ 9 ∷ 9 ∷ [], negsuc 1)
recv_all-overflow_example =
    recv_all-overflow (7 ∷ 8 ∷ []) (9 ∷ 9 ∷ []) 3 (pos 0) (omega arith) (omega arith) (omega arith)
      (omega arith)

-- An empty buffer: the result is decided by what the stack holds.
empty_sent : send_all [] [] (pos 5) ≡ some ([], pos 5)
unfolding send_all
empty_sent = refl
