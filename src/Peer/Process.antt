-- ===== src/Peer/Process.antt =====
-- The process of peer.c: `main` with its two sockets and the connections that it accepts. Reading argv,
-- the signal handler and the pause of 10 ms between two connections are left out.
use psis_project.Base.{ℕ, ℤ, pos, negsuc, Bool, Option, List, [], ◌∷◌, if◌then◌else◌}
use psis_project.Machine.{Cmd, pure, exited, ◌>>◌}
use psis_project.Heap.{Block}
use psis_project.Ring
use psis_project.Msgs.{DataR, MessagePhoto}
use psis_project.Sockets.{RecvAll}
use psis_project.Peer.{Peer, Answers}
use psis_project.Peer.Transfer.{Upload}
use psis_project.Peer.Connection.{Request, connection, start_peer}

-- What `accept` gives: -1, or a connection with the messages that arrive on it.
pub data Accepted : Type 0 where
  accept_failed : Accepted
  accepted_fd : List Request → Accepted

-- Whether `socket` succeeds for the gateway and for the connections, and `bind` for the latter; and what
-- arrives while the peer enters.
pub record Setup : Type 0 where
  pub gateway_socket : Bool
  pub socket_made : Bool
  pub bound : Bool
  pub blocks : ℕ → Block (Ring.Item DataR)
  pub first : Option ℕ
  pub second : Option (List DataR)
  pub size : RecvAll ℤ
  pub copies : ℕ → Option MessagePhoto × Upload
  pub msg : MessagePhoto

module _ (fuel : ℕ) (net : Answers) where
  -- The loop of `main`, for connections of which each ends before the next one begins.
  unfoldable pub accept_loop : List Accepted → Cmd Peer (Unit {0})
  accept_loop [] = pure tt
  accept_loop (accept_failed ∷ rest) = exited (pos 1)
  accept_loop (accepted_fd requests ∷ rest) = do connection fuel net requests; accept_loop rest

  unfoldable pub peer_main : Setup → List Accepted → Cmd Peer (Unit {0})
  unfolding accept_loop
  peer_main setup connections = do
    if setup.gateway_socket then pure tt else exited (negsuc 0)
    start_peer fuel net setup.blocks setup.first setup.second setup.size setup.copies setup.msg
    if setup.socket_made then pure tt else exited (negsuc 0)
    if setup.bound then pure tt else exited (negsuc 0)
    accept_loop connections
