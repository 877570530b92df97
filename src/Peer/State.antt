-- ===== src/Peer/State.antt =====
-- peer.c: the state that the threads of a peer share, and what the network answers them.
use psis_project.Base.{
  ℕ, ◌+◌, ◌%◌, ◌^◌, ℤ, pos, negsuc, Bool, true, false, Option, none, some, List, [], ◌∷◌, ◌++◌,
  ◌==◌, if◌then◌else◌,
}
use psis_project.Machine.{Run, ok, Cmd, fault, exited, blocked, out_of_fuel}
use psis_project.Heap.{Ptr, Heap}
use psis_project.Ring
use psis_project.LinkedList
use psis_project.Text.{Text, text_eq}
use psis_project.Msgs.{DataR, MessagePhoto, Connect}
use psis_project.Photos.{Data}

-- What a handler hands to the network: an `int`, a `uint32_t`, a `long`, an array of ids, a text, a
-- `char` array of some size, the bytes of a file or a `message_photo` over the connection at hand; a
-- `message_photo` over a new connection to a peer, which is the one at hand from there on; a
-- `message_gw` to the gateway.
pub data Sent : Type 0 where
  int_sent : ℤ → Sent
  id_sent : ℕ → Sent
  long_sent : ℕ → Sent
  ids_sent : List ℕ → Sent
  text_sent : Text → Sent
  array_sent : (size : ℕ) → Text → Sent
  bytes_sent : List ℕ → Sent
  message_sent : MessagePhoto → Sent
  photo_message : (to : DataR) → (buffer : Text) → (type : ℤ) → Sent
  gateway_message : (addr : Text) → (port : ℕ) → (type : ℤ) → Sent

-- The files of the working directory, by name.
abbrev pub Files : Type 0
Files = Text → Option (List ℕ)

abbrev pub put_file : Files → Text → Option (List ℕ) → Files
put_file files name content other = if text_eq other name then content else files other

pub record Peer : Type 0 where
  pub photos : Heap (LinkedList.Item Data)
  pub photo_list : Ptr
  pub photo_lock : Bool
  pub peers : Heap (Ring.Item DataR)
  pub peer_list : Ptr
  pub peer_lock : Bool
  pub files : Files
  -- in the order of sending
  pub out : List Sent

-- `getpid()`, and the answers of the network: `connect` to each peer, whether a message to the
-- gateway, the count of found photos, the id of a new photo, the header and the keywords of a
-- photo could be sent; and whether a file can be opened to write.
pub record Answers : Type 0 where
  pub pid : ℕ
  pub connect : DataR → Connect
  pub report_sent : Bool
  pub count_sent : Bool
  pub id_answered : Bool
  pub header_sent : Bool
  pub keywords_sent : Bool
  pub file_opened : Bool

abbrev pub on_photos_run : {A : Type 0} → Peer → Run (Heap (LinkedList.Item Data)) A → Run Peer A
on_photos_run s (ok a h) = ok a (record s { photos = h })
on_photos_run s (exited code h) = exited code (record s { photos = h })
on_photos_run s fault = fault
on_photos_run s blocked = blocked
on_photos_run s out_of_fuel = out_of_fuel

abbrev pub on_photos : {A : Type 0} → Cmd (Heap (LinkedList.Item Data)) A → Cmd Peer A
on_photos c s = on_photos_run s (c s.photos)

abbrev pub on_peers_run : {A : Type 0} → Peer → Run (Heap (Ring.Item DataR)) A → Run Peer A
on_peers_run s (ok a h) = ok a (record s { peers = h })
on_peers_run s (exited code h) = exited code (record s { peers = h })
on_peers_run s fault = fault
on_peers_run s blocked = blocked
on_peers_run s out_of_fuel = out_of_fuel

abbrev pub on_peers : {A : Type 0} → Cmd (Heap (Ring.Item DataR)) A → Cmd Peer A
on_peers c s = on_peers_run s (c s.peers)

abbrev pub get_photo_list : Cmd Peer Ptr
get_photo_list s = ok s.photo_list s

abbrev pub set_photo_list : Ptr → Cmd Peer (Unit {0})
set_photo_list p s = ok tt (record s { photo_list = p })

abbrev pub get_peer_list : Cmd Peer Ptr
get_peer_list s = ok s.peer_list s

abbrev pub set_peer_list : Ptr → Cmd Peer (Unit {0})
set_peer_list p s = ok tt (record s { peer_list = p })

abbrev pub emit : Sent → Cmd Peer (Unit {0})
emit m s = ok tt (record s { out = s.out ++ m ∷ [] })

-- `unlink(name)`
abbrev pub unlink_file : Text → Cmd Peer (Unit {0})
unlink_file name s = ok tt (record s { files = put_file s.files name none })

-- `fopen(name, "wb")`, `fwrite` and `fclose`.
abbrev pub write_file : Text → List ℕ → Cmd Peer (Unit {0})
write_file name bytes s = ok tt (record s { files = put_file s.files name (some bytes) })

-- `fopen(name, "rb")`: `none` for `NULL`.
abbrev pub read_file : Text → Cmd Peer (Option (List ℕ))
read_file name s = ok (s.files name) s

-- `PORT`, an `in_port_t` where it is passed on.
abbrev pub port_of : Answers → ℕ
port_of net = (3000 + net.pid) % 2 ^ 16

-- A thread that holds a mutex already waits for itself.
unfoldable pub lock_photos : Cmd Peer (Unit {0})
lock_photos s = if s.photo_lock then blocked else ok tt (record s { photo_lock = true })

unfoldable pub unlock_photos : Cmd Peer (Unit {0})
unlock_photos s = ok tt (record s { photo_lock = false })

unfoldable pub lock_peers : Cmd Peer (Unit {0})
lock_peers s = if s.peer_lock then blocked else ok tt (record s { peer_lock = true })

unfoldable pub unlock_peers : Cmd Peer (Unit {0})
unlock_peers s = ok tt (record s { peer_lock = false })

-- `data K; K.id = id;`: only the id is compared.
abbrev pub key : ℕ → Data
key id = record { name = []; id = id; keyword = λ i. []; n_keywords = 0 }

abbrev pub is_pos : ℕ → ℤ → Bool
is_pos n (pos m) = m == n
is_pos n (negsuc m) = false
