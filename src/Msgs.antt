-- ===== src/Msgs.antt =====
-- msgs.c and msgs.h, with the data of ring_list.h and linked_list.h: the structures that the
-- programs exchange, their comparison, and the transfer of the peer list. Text in a `char` array is
-- the text up to its first NUL; `int port` is kept as its 32 bits. What the network answers is a
-- parameter of each function.
pub mod Transfer
pub mod Network
use psis_project.Base.{
  ℕ, zero, suc, ◌+◌, ◌≡◌, ℤ, pos, negsuc, Bool, true, ◌&&◌, Option, none, some, List, [], ◌∷◌, ◌==◌,
  ltb, if◌then◌else◌, length, arith,
}
use psis_project.Machine.{Cmd, pure, fault, exited, out_of_fuel, ◌>>=◌, ◌>>◌}
use psis_project.Heap.{Ptr, Heap, Block, load}
use psis_project.Ring.{Item, ring_append, ring_count}
use psis_project.Text.{Text, text_eq, text_eq→≡, text_eq_refl}

-- `struct data_r`
pub record DataR : Type 0 where
  pub addr : Text
  pub port : ℕ

abbrev pub data_r : Text → ℕ → DataR
data_r a p = record { addr = a; port = p }

-- `message_gw` and `message_photo`
pub record MessageGw : Type 0 where
  pub type : ℤ
  pub addr : Text
  pub port : ℕ

pub record MessagePhoto : Type 0 where
  pub buffer : Text
  pub type : ℤ

-- `strcpy` into an array of `size` characters: a fault if the text and its NUL do not fit.
abbrev pub strcpy : {S : Type 0} → ℕ → Text → Cmd S Text
strcpy size s = if ltb (length s) size then pure s else (λ _. fault)

unfoldable pub set_data_r : {S : Type 0} → Text → ℕ → Cmd S DataR
set_data_r addr port = do a ← strcpy 20 addr; pure (data_r a port)

unfoldable pub equal_data_r : DataR → DataR → Bool
equal_data_r k1 k2 = text_eq k1.addr k2.addr && k1.port == k2.port

pub equal_data_r→≡ : (k1 k2 : DataR) → equal_data_r k1 k2 ≡ true → k1 ≡ k2
unfolding equal_data_r
equal_data_r→≡ k1 k2 h = ground (arith, text_eq→≡ k1.addr k2.addr)

pub equal_data_r_refl : (k : DataR) → equal_data_r k k ≡ true
unfolding equal_data_r
equal_data_r_refl k = rw text_eq_refl (ground arith)

-- How `socket` and `connect` end: no socket; a connection with its descriptor; nobody listens there
-- (`ECONNREFUSED`); another error.
pub data Connect : Type 0 where
  no_socket : Connect
  accepted : ℕ → Connect
  refused : Connect
  failed : Connect

-- The descriptor of the connection, or 0 where nobody listens; another error ends the process.
unfoldable pub is_online : {S : Type 0} → Connect → Cmd S ℕ
is_online no_socket = exited (negsuc 0)
is_online (accepted fd) = pure fd
is_online refused = pure 0
is_online failed = exited (pos 1)

-- The loop of `send_ring_udp` that copies the ring into an array of `size` entries.
unfoldable pub vector_loop : {D : Type 0} → ℕ → Ptr → Cmd (Heap (Item D)) (List D)
vector_loop zero p = pure []
vector_loop (suc size) p = do n ← load p; rest ← vector_loop size n.next; pure (n.K ∷ rest)

-- The datagrams that `send_ring_udp` hands to `sendto`: the size, and the array if it is not empty.
pub record RingSent (D : Type 0) : Type 0 where
  pub size : ℕ
  pub array : Option (List D)

-- The result and what was sent. `sent` tells whether the second `sendto` succeeds.
unfoldable pub send_ring_udp : {D : Type 0} → Bool → ℕ → Ptr → Cmd (Heap (Item D)) (ℤ × RingSent D)
send_ring_udp sent fuel peer_list = do
  size ← ring_count fuel peer_list
  if size == 0 then pure (pos 0, record { size = size; array = none }) else do
    d_send ← vector_loop size peer_list
    pure (if sent then pos 0 else negsuc 0, record { size = size; array = some d_send })

-- The loop of `recv_ring_udp`: `size` entries of the received array are appended. An entry that
-- was not received is a read of memory that was never written. `blocks` are the results of `malloc`.
unfoldable pub append_loop :
    {D : Type 0} → ℕ → List D → (ℕ → Block (Item D)) → Ptr → Cmd (Heap (Item D)) Ptr
append_loop zero d_recv blocks root = pure root
append_loop (suc size) [] blocks root = λ _. fault
append_loop (suc size) (d ∷ d_recv) blocks root = do
  root' ← ring_append (blocks 0) root d
  append_loop size d_recv (λ i. blocks (suc i)) root'

-- `first` and `second` are what the two calls of `recv` give, `none` an error or a timeout. The
-- result and the new root.
unfoldable pub recv_ring_udp :
    {D : Type 0}
    → (ℕ → Block (Item D))
    → (first : Option ℕ) (second : Option (List D)) → Ptr
    → Cmd (Heap (Item D)) (ℤ × Ptr)
recv_ring_udp blocks none second peer_list = pure (negsuc 0, peer_list)
recv_ring_udp blocks (some size) none peer_list =
    if size == 0 then pure (pos 0, peer_list) else pure (negsuc 0, peer_list)
recv_ring_udp blocks (some size) (some d_recv) peer_list =
    if size == 0
    then pure (pos 0, peer_list)
    else (do root ← append_loop size d_recv blocks peer_list; pure (pos 0, root))
