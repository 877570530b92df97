-- ===== src/Gateway/Process.antt =====
-- The process of gateway.c around the requests: the sockets, the loops of `connection_peer` and
-- `connection_client` over the datagrams that arrive, recv_and_unstream_gw of msgs.c, and the end of
-- `main`. The numbers in argv, starting the threads and setting the signal handler up are left out.
use psis_project.Base.{
  true, ℕ, ◌≡◌, ◌<◌, refl, ℤ, pos, negsuc, Bool, List, [], ◌∷◌, ◌++◌, if◌then◌else◌, length,
}
use psis_project.Machine.{ok, Run, exited, Cmd, pure, ◌>>=◌, ◌>>◌}
use psis_project.Machine.Returns
use psis_project.Heap.{Heap, Block}
use psis_project.Cells.{Cells, Without}
use psis_project.Ring.{Item, ring_init, ring_free}
use psis_project.Ring.Release.{ring_free-Without}
use psis_project.Msgs.{DataR, MessageGw}
use psis_project.Gateway.{
  streamed, Source, reply, Gateway, Answers, on_heap, get_peer_list, set_peer_list, emit, is_error,
  peer_request, find_peer,
}
use psis_project.Gateway.Requests.{IsServing}

-- What `recvfrom` gives: an error; a datagram without bytes; a `message_gw`.
pub data Datagram : Type 0 where
  recv_failed : Datagram
  recv_empty : Source → Datagram
  recv_message : MessageGw → Source → Datagram

-- The result, and what is in `buff` and in `other_addr` behind the call.
abbrev pub recv_and_unstream_gw : Datagram → MessageGw → Source → ℤ × MessageGw × Source
recv_and_unstream_gw recv_failed buff from = (negsuc 0, buff, from)
recv_and_unstream_gw (recv_empty sender) buff from = (pos 0, buff, sender)
recv_and_unstream_gw (recv_message m sender) buff from = (pos 1, m, sender)

-- A datagram for the thread of the peers, with the network's answers while it is handled, what `malloc`
-- returns and what the stack holds.
pub record PeerDatagram : Type 0 where
  pub datagram : Datagram
  pub net : Answers
  pub block : Block (Item DataR)
  pub old : DataR

-- The same for the thread of the clients.
pub record ClientDatagram : Type 0 where
  pub datagram : Datagram
  pub net : Answers

-- Whether `socket` and `bind` succeed.
pub record Setup : Type 0 where
  pub socket_made : Bool
  pub bound : Bool

abbrev pub open_socket : Setup → Cmd Gateway (Unit {0})
open_socket setup =
    if setup.socket_made
    then (if setup.bound then pure tt else exited (negsuc 0))
    else exited (negsuc 0)

-- The gateway with the flag that the signal handler sets.
pub record Process : Type 0 where
  pub gateway : Gateway
  pub sigint : Bool

-- The handler of SIGINT.
abbrev pub kill_server : ℤ → Process → Process
kill_server n p = record p { sigint = true }

module _ (fuel : ℕ) where
  -- The loop of `connection_peer`, as far as datagrams arrive.
  unfoldable pub peer_loop : List PeerDatagram → MessageGw → Source → Cmd Gateway (Unit {0})
  peer_loop [] buff from = pure tt
  peer_loop (d ∷ ds) buff from =
      let r = recv_and_unstream_gw d.datagram buff from in
      let rest = peer_loop ds r.1 r.2 in
      if is_error r.0
      then exited (pos 1)
      else (do peer_request fuel d.net d.block d.old r.1 r.2; rest)

  -- The loop of `connection_client`; the answer stays in the buffer.
  unfoldable pub client_loop : List ClientDatagram → MessageGw → Source → Cmd Gateway (Unit {0})
  client_loop [] buff from = pure tt
  client_loop (d ∷ ds) buff from =
      let r = recv_and_unstream_gw d.datagram buff from in
      if is_error r.0 then exited (pos 1) else (do
        answer ← find_peer fuel d.net fuel r.1
        emit (reply r.2 (streamed answer))
        if d.net.reply_sent then client_loop ds answer r.2 else exited (pos 1))

  -- The threads; `buff` is what `malloc` returns for the buffer, `from` what the stack holds.
  unfoldable pub connection_peer :
      Setup → List PeerDatagram → MessageGw → Source → Cmd Gateway (Unit {0})
  unfolding peer_loop
  connection_peer setup ds buff from = do open_socket setup; peer_loop ds buff from

  unfoldable pub connection_client :
      Setup → List ClientDatagram → MessageGw → Source → Cmd Gateway (Unit {0})
  unfolding client_loop
  connection_client setup ds buff from = do open_socket setup; client_loop ds buff from

  -- The start of `main`: without two arguments `usage` ends the process.
  unfoldable pub start_gateway : (arguments_given : Bool) → Cmd Gateway (Unit {0})
  start_gateway arguments_given = do
    set_peer_list ring_init
    if arguments_given then pure tt else exited (pos 0)

  -- The end of `main`, once `sigint` is set; the mutex is not taken.
  unfoldable pub shut_down : Cmd Gateway (Unit {0})
  shut_down = do root ← get_peer_list; on_heap (ring_free fuel root); exited (pos 0)

  -- A round of the loop in which `main` waits for `sigint`; the threads run meanwhile.
  unfoldable pub wait_sigint : Process → Run Gateway (Unit {0})
  unfolding shut_down
  wait_sigint p = if p.sigint then shut_down p.gateway else ok tt p.gateway

  -- The end of `main` frees every node of the list and no other, and exits with 0.
  pub shut_down-Without :
      (s : Gateway) (xs : Cells DataR)
      → IsServing s xs
      → length xs < fuel
      → (h : Heap (Item DataR)) × (shut_down s ≡ exited (pos 0) (record s { heap = h }))
        × Without xs s.heap h
  unfolding shut_down
  shut_down-Without s xs is enough =
      let (_, h, run, gone) =
        Returns.outcome (ring_free-Without fuel s.heap s.peer_list xs is.ring enough) in
      (h, rw run refl, gone)

  -- Behind a message `m` from `sender`, in front of the datagrams `ds`.
  peer_loop-repeated :
      (before : List PeerDatagram) (m : MessageGw) (sender other : Source)
      (first second : PeerDatagram) (ds : List PeerDatagram) (buff : MessageGw) (from : Source)
      → first.datagram ≡ recv_message m sender
      → second.datagram ≡ recv_empty other
      → peer_loop (before ++ (first ∷ second ∷ ds)) buff from
        ≡ peer_loop
            (before ++ (first ∷ (record second { datagram = recv_message m other }) ∷ ds))
            buff
            from
  unfolding peer_loop
  peer_loop-repeated [] m sender other first second ds buff from is_message is_empty =
      rw (is_message, is_empty) refl
  peer_loop-repeated (d ∷ before) m sender other first second ds buff from is_message is_empty =
      let r = recv_and_unstream_gw d.datagram buff from in
      rw (peer_loop-repeated before m sender other first second ds r.1 r.2 is_message is_empty) refl

  -- An empty datagram behind a message, in a row of datagrams to the gateway's port for peers:
  -- `connection_peer` does what it would do if the message came once more, from the sender of
  -- the empty datagram.
  pub connection_peer-repeated :
      (setup : Setup) (before : List PeerDatagram) (m : MessageGw) (sender other : Source)
      (first second : PeerDatagram) (ds : List PeerDatagram) (buff : MessageGw) (from : Source)
      → first.datagram ≡ recv_message m sender
      → second.datagram ≡ recv_empty other
      → connection_peer setup (before ++ (first ∷ second ∷ ds)) buff from
        ≡ connection_peer setup
            (before ++ (first ∷ (record second { datagram = recv_message m other }) ∷ ds))
            buff
            from
  unfolding connection_peer
  connection_peer-repeated setup before m sender other first second ds buff from is_message
        is_empty =
      rw (peer_loop-repeated before m sender other first second ds buff from is_message is_empty)
        refl
