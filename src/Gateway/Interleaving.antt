-- ===== src/Gateway/Interleaving.antt =====
-- Every interleaving of the two threads of gateway.c, whose sections Gateway/Threads has.
use psis_project.Base.{ℕ, ◌≡◌, ◌≢◌, ◌<◌, subst, none, length}
use psis_project.Machine.{ok}
use psis_project.Heap.{null}
use psis_project.Cells.{Cells}
use psis_project.Msgs.{DataR, MessageGw}
use psis_project.Msgs.Network.{IsDecided}
use psis_project.Gateway.{Source, Gateway, Answers}
use psis_project.Gateway.Requests.{IsServing}
use psis_project.Gateway.Threads.{Request, PeerPc, ClientPc, peer_section, client_section, Threads}
use psis_project.Gateway.Sound.{IsSound, Sound, peer_section-Sound, client_section-Sound}

-- There is fuel for the loops over the list.
abbrev pub IsEnough : ℕ → Gateway → Type 0
IsEnough fuel s = (xs : Cells DataR) → IsServing s xs → length xs < fuel

-- Either thread runs its next section; what the network answers is new each time.
pub data Step (s : Threads) : Threads → Type 0 where
  peer_step :
      (fuel : ℕ) (net : Answers) (r : Request) (pc : PeerPc) (t : Gateway)
      → IsDecided net.connect
      → IsEnough fuel s.gateway
      → r.block.address ≢ null
      → s.gateway.heap r.block.address ≡ none
      → peer_section fuel net r s.peer s.gateway ≡ ok pc t
      → Step s (record { gateway = t; peer = pc; client = s.client })
  client_step :
      (fuel : ℕ) (net : Answers) (buff : MessageGw) (from : Source) (pc : ClientPc) (t : Gateway)
      → IsDecided net.connect
      → client_section fuel net buff from s.client s.gateway ≡ ok pc t
      → Step s (record { gateway = t; peer = s.peer; client = pc })

-- The sections of both threads in some order.
pub data Interleaved (s : Threads) : Threads → Type 0 where
  start : Interleaved s s
  later : {t u : Threads} → Interleaved s t → Step t u → Interleaved s u

Step-IsSound : {s t : Threads} → Step s t → IsSound s.gateway → IsSound t.gateway
Step-IsSound {s} (peer_step fuel net r pc t decided enough ne unused e) (xs, is) =
    subst Sound e
      (peer_section-Sound fuel net decided s.gateway xs r s.peer is (enough xs is) ne unused)
Step-IsSound {s} (client_step fuel net buff from pc t decided e) (xs, is) =
    subst Sound e (client_section-Sound fuel net decided s.gateway xs buff from s.client is)

-- In every interleaving of the two threads of the gateway, one section of the mutex at a time,
-- whatever messages arrive and whatever the network answers in each step: the list of peers is
-- well formed and the mutex free, if they were at the start. (In each step each `connect`
-- reaches a peer, with a descriptor other than 0, or is refused, and `malloc` gives a new
-- address; the fuel exceeds the number of peers. A step is a section that comes to its end.)
pub Interleaved-IsSound : {s t : Threads} → Interleaved s t → IsSound s.gateway → IsSound t.gateway
Interleaved-IsSound start sound = sound
Interleaved-IsSound (later row step) sound = Step-IsSound step (Interleaved-IsSound row sound)
