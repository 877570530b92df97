-- ===== src/Tests/GatewayRuns.antt =====
-- A gateway with three peers; the one at port 3002 does not answer.
use psis_project.Base.{
  ◌≡◌, refl, pos, true, false, some, none, [], ◌∷◌, ◌++◌, ◌==◌, if◌then◌else◌, arith, Bool-cases,
  inl, inr,
}
use psis_project.Machine.{ok, blocked, out_of_fuel}
use psis_project.Heap.{Ptr, Heap, Block, write}
use psis_project.Cells.{Cells}
use psis_project.Ring.{Item, item}
use psis_project.Ring.Chain.{IsRing}
use psis_project.Text.{
  Text, print_peer, scan_peer, scan_field, span_loop, scan_unsigned, digits_loop, decimal,
  decimal_loop,
}
use psis_project.Msgs.{DataR, data_r, MessageGw, equal_data_r, accepted, refused}
use psis_project.Msgs.Transfer.{image}
use psis_project.Msgs.Network.{IsDecided, removed}
use psis_project.Gateway.{
  Source, photo_message, peers, reply, Gateway, Answers, broadcast_peers, register, report,
  client_request,
}
use psis_project.Gateway.Broadcast.{
  notices, mentions, broadcast_peers-notices, broadcast_peers-stuck, broadcast_peers-silent,
}
use psis_project.Gateway.Prune.{survivors}
use psis_project.Gateway.Requests.{IsServing, serving, register-survivors}
use psis_project.Gateway.Reports.{reported, report-told, report-stuck}
use psis_project.Gateway.Clients.{client_request-next, client_request-blocked}
use psis_project.Tests.Rings.{three, cells, three-IsRing}

abbrev pub addr : Text
addr = b'h' ∷ []

abbrev pub k1 : DataR
k1 = data_r addr 3001

abbrev pub k2 : DataR
k2 = data_r addr 3002

abbrev pub k3 : DataR
k3 = data_r addr 3003

abbrev pub net : Answers
net = record {
  connect = λ k. if k.port == 3002 then refused else accepted 4;
  list_sent = true;
  reply_sent = true;
}

pub decided : IsDecided net.connect
decided k = elim (Bool-cases (k.port == 3002)) [
  | inl q ↦ inr (rw q refl)
  | inr q ↦ inl (3, rw q refl)
]

abbrev pub s : Gateway
s = record { heap = three k1 k3 k2; peer_list = 10; photo_id = 7; list_lock = false; out = [] }

-- The peer that does not answer is the next one.
abbrev s_down : Gateway
s_down = record { heap = three k1 k2 k3; peer_list = 10; photo_id = 7; list_lock = false; out = [] }

abbrev pub xs : Cells DataR
xs = cells k1 k3 k2

abbrev xs_down : Cells DataR
xs_down = cells k1 k2 k3

pub s-IsServing : IsServing s xs
s-IsServing = record { ring = three-IsRing k1 k3 k2; free = refl }

s_down-IsServing : IsServing s_down xs_down
s_down-IsServing = record { ring = three-IsRing k1 k2 k3; free = refl }

abbrev pub from_k3 : Source
from_k3 = record { ip = addr; udp_port = 9000 }

abbrev pub request : MessageGw
request = record { type = pos 0; addr = print_peer addr 3002; port = 3003 }

abbrev message : Text
message = b'm' ∷ []

abbrev pub block : Block (Item DataR)
block = record { address = 40; contents = item k1 0 0 }

pub unused : s.heap 40 ≡ none
unfolding write
unused = refl

broadcast_peers-notices_example :
    broadcast_peers 3 net message (pos 12) none s
    ≡ ok tt (record s {
      list_lock = false;
      out = photo_message k1 message (pos 12) ∷ photo_message k3 message (pos 12) ∷ [];
    })
broadcast_peers-notices_example =
    broadcast_peers-notices net decided message (pos 12) none 3 s xs (three-IsRing k1 k3 k2) refl
      refl (omega arith)

not_k1 : equal_data_r k1 k3 ≡ false
unfolding equal_data_r
not_k1 = refl

met : mentions (some k3) ((20, k3) ∷ (30, k2) ∷ []) ≡ true
unfolding equal_data_r
met = refl

broadcast_peers-stuck_example : broadcast_peers 1000 net message (pos 12) (some k3) s ≡ out_of_fuel
broadcast_peers-stuck_example =
    broadcast_peers-stuck net decided message (pos 12) (some k3) 1000 s (10, k1)
      ((20, k3) ∷ (30, k2) ∷ []) (three-IsRing k1 k3 k2) refl not_k1 met

is_k1 : equal_data_r k1 k1 ≡ true
unfolding equal_data_r
is_k1 = refl

broadcast_peers-silent_example : broadcast_peers 3 net message (pos 12) (some k1) s ≡ ok tt s
broadcast_peers-silent_example =
    broadcast_peers-silent net decided message (pos 12) (some k1) 2 s (10, k1)
      ((20, k3) ∷ (30, k2) ∷ []) (three-IsRing k1 k3 k2) refl is_k1

abbrev k4 : DataR
k4 = data_r addr 3003

register-survivors_example :
    (h : Heap (Item DataR)) × (p : Ptr) × (register 4 net block request from_k3 s
      ≡ ok tt (serving s h p (peers from_k3 (image (survivors net (xs ++ (40, k4) ∷ []))) ∷ [])))
    × IsRing h p (survivors net (xs ++ (40, k4) ∷ []))
register-survivors_example =
    register-survivors 4 net decided s xs block request from_k3 s-IsServing (ground arith) unused
      refl (omega arith)

-- The reported peer, and a reporter that is not in the list.
abbrev pub stranger : Source
stranger = record { ip = b'x' ∷ []; udp_port = 9001 }

absent :
    mentions (some (data_r stranger.ip request.port)) (removed (reported (data_r [] 0) request) xs)
    ≡ false
unfolding equal_data_r scan_peer print_peer scan_field span_loop scan_unsigned digits_loop decimal
    decimal_loop
absent = refl

report-told_example :
    (h : Heap (Item DataR)) × (p : Ptr) × (report 3 net (data_r [] 0) request stranger s
      ≡ ok tt (
          serving s h p
            (notices net request.addr (pos 12) (removed (reported (data_r [] 0) request) xs))))
    × IsRing h p (removed (reported (data_r [] 0) request) xs)
report-told_example =
    report-told 3 net decided s xs (data_r [] 0) request stranger s-IsServing (omega arith) absent

left : removed (reported (data_r [] 0) request) xs ≡ (10, k1) ∷ (20, k3) ∷ []
unfolding equal_data_r scan_peer print_peer scan_field span_loop scan_unsigned digits_loop decimal
    decimal_loop
left = refl

met_too : mentions (some k3) ((20, k3) ∷ []) ≡ true
unfolding equal_data_r
met_too = refl

report-stuck_example : report 3 net (data_r [] 0) request from_k3 s ≡ out_of_fuel
report-stuck_example =
    report-stuck 3 net decided s xs (data_r [] 0) request from_k3 (10, k1) ((20, k3) ∷ [])
      s-IsServing (omega arith) left not_k1 met_too

client_request-next_example :
    (client_request 4 net request stranger s
      ≡ ok tt (record s {
        peer_list = 20;
        list_lock = false;
        out = reply stranger (record { type = pos 0; addr = addr; port = 3003 }) ∷ [];
      }))
    × IsRing s.heap 20 ((20, k3) ∷ (30, k2) ∷ (10, k1) ∷ [])
client_request-next_example =
    client_request-next 3 net decided s (10, k1) ((20, k3) ∷ (30, k2) ∷ []) request stranger
      s-IsServing refl refl

client_request-blocked_example : client_request 4 net request stranger s_down ≡ blocked
client_request-blocked_example =
    client_request-blocked 3 net decided s_down (10, k1) ((20, k2) ∷ (30, k3) ∷ []) request stranger
      s_down-IsServing refl
