-- ===== src/Library.antt =====
-- library.c: the functions of API.h that a client program calls, each one exchange with a peer or
-- with the gateway. What was sent is the state; what the calls on the sockets and files give is a
-- parameter of each function. Printed errors are left out.
pub mod Keyword
pub mod Photos
use psis_project.Base.{
  ◌%◌, ◌^◌, ℕ, zero, suc, ℤ, pos, negsuc, Bool, Option, none, some, List, [], ◌∷◌, ◌++◌, ◌==◌,
  if◌then◌else◌,
}
use psis_project.Machine.{Cmd, ok, pure, fault, exited, ◌>>=◌, ◌>>◌}
use psis_project.Text.{Text, decimal, print_keyword}
use psis_project.Msgs.{
  MessageGw, MessagePhoto, strcpy, Connect, no_socket, accepted, refused, failed,
}

-- What leaves the client: a message to the peer, a photo's bytes to the peer, a message to the
-- gateway, a file on disk.
pub data Output : Type 0 where
  to_peer : MessagePhoto → Output
  photo_sent : List ℕ → Output
  to_gateway : MessageGw → Output
  file_written : (file_name : Text) → (photo : List ℕ) → Output

-- One `recv` of a value: an error or a timeout, a connection that was closed, or the value.
pub data Recv (A : Type 0) : Type 0 where
  recv_error : Recv A
  recv_closed : Recv A
  received : A → Recv A

-- `stream_and_send_photo`; `sent` tells whether the bytes could be sent.
unfoldable pub stream_and_send_photo : Bool → Text → ℤ → Cmd (List Output) ℤ
stream_and_send_photo sent buffer type = do
  copied ← strcpy 100 buffer
  if sent
      then (λ out. ok (pos 0) (out ++ to_peer (record { buffer = copied; type = type }) ∷ []))
      else pure (negsuc 0)

-- `stream_and_send_gw`: the port is an `in_port_t`.
unfoldable pub stream_and_send_gw : Bool → Text → ℕ → ℤ → Cmd (List Output) ℤ
stream_and_send_gw sent addr port type = do
  copied ← strcpy 30 addr
  if sent
      then (λ out.
          ok (pos 0)
            (out ++ to_gateway (record { type = type; addr = copied; port = port % 2 ^ 16 }) ∷ []))
      else pure (negsuc 0)

abbrev pub is_minus_one : ℤ → Bool
is_minus_one (pos n) = Bool.false
is_minus_one (negsuc n) = n == 0

-- An `int` that `recv` was to write: `old` is what it holds where the connection was closed.
abbrev pub received_int : (error old : ℤ) → Recv ℤ → ℤ
received_int error old recv_error = error
received_int error old recv_closed = old
received_int error old (received n) = n

unfoldable pub gallery_add_keyword :
    (sent : Bool) (answer : Recv ℤ) (old : ℤ) (id_photo : ℕ) (keyword : Text) → Cmd (List Output) ℤ
gallery_add_keyword sent answer old id_photo keyword = do
  message ← strcpy 100 (print_keyword id_photo keyword)
  result ← stream_and_send_photo sent message (pos 2)
  if is_minus_one result then pure (pos 0) else pure (received_int (pos 0) old answer)

-- The result, and `id_photos` if it was written: the array that was received, or `none` for an array
-- that was allocated and stays as it was.
unfoldable pub gallery_search_photo :
    (sent : Bool) (count : Recv ℤ) (ids : Recv (List ℕ)) (keyword : Text)
    → Cmd (List Output) (ℤ × Option (List ℕ))
gallery_search_photo sent count ids keyword = do
  message ← strcpy 100 keyword
  result ← stream_and_send_photo sent message (pos 3)
  if is_minus_one result
      then pure (negsuc 0, none)
      else pure (elim count [
        | recv_error ↦ (negsuc 0, none)
        | recv_closed ↦ (pos 0, none)
        | received (pos zero) ↦ (pos 0, none)
        | received (pos (suc n)) ↦ elim ids [
          | recv_error ↦ (negsuc 0, none)
          | recv_closed ↦ (pos (suc n), none)
          | received array ↦ (pos (suc n), some array)
        ]
        | received (negsuc n) ↦ elim ids [
          | recv_error ↦ (negsuc 0, none)
          | recv_closed ↦ (negsuc n, none)
          | received array ↦ (negsuc n, some array)
        ]
      ])

unfoldable pub gallery_delete_photo :
    (sent : Bool) (answer : Recv ℤ) (old : ℤ) (id_photo : ℕ) → Cmd (List Output) ℤ
gallery_delete_photo sent answer old id_photo = do
  message ← strcpy 100 (decimal id_photo)
  result ← stream_and_send_photo sent message (pos 4)
  if is_minus_one result then pure (negsuc 0) else pure (received_int (negsuc 0) old answer)

-- How `recv` and `sendto` of the exchange with the gateway end: a timeout, another error, an empty
-- datagram, or a reply.
pub data GatewayAnswer : Type 0 where
  gateway_timeout : GatewayAnswer
  gateway_error : GatewayAnswer
  gateway_empty : GatewayAnswer
  gateway_reply : MessageGw → GatewayAnswer

-- The connection to the peer that the gateway names.
abbrev pub connect_named : MessageGw → (MessageGw → Connect) → Cmd (List Output) ℤ
connect_named buff connect =
    if (elim buff.type [ pos n ↦ n == 1 | negsuc n ↦ Bool.false ])
    then pure (pos 0)
    else (elim (connect buff) [
      | no_socket ↦ exited (negsuc 0)
      | accepted fd ↦ pure (pos fd)
      | refused ↦ exited (negsuc 0)
      | failed ↦ exited (negsuc 0)
    ])

-- `socket_made` tells whether the UDP socket could be made; `old` is what `malloc` finds in memory.
unfoldable pub gallery_connect :
    (socket_made sent : Bool) (answer : GatewayAnswer) (old : MessageGw)
    (connect : MessageGw → Connect)
    → Cmd (List Output) ℤ
gallery_connect socket_made sent answer old connect =
    if socket_made
    then (do
      result ← stream_and_send_gw sent [] 0 (pos 0)
      if is_minus_one result then exited (pos 1) else (elim answer [
        | gateway_timeout ↦ pure (negsuc 0)
        | gateway_error ↦ exited (pos 1)
        | gateway_empty ↦ connect_named old connect
        | gateway_reply buff ↦ connect_named buff connect
      ]))
    else exited (negsuc 0)
