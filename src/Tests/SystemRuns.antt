-- ===== src/Tests/SystemRuns.antt =====
-- The peer of PeerRuns with a client, with another peer, and a new peer at the gateway of GatewayRuns.
use psis_project.Base.{ℕ, ◌+◌, ◌≡◌, refl, pos, true, false, none, some, List, [], ◌∷◌, ◌++◌, arith}
use psis_project.Machine.{ok}
use psis_project.Heap.{IsFresh, Heap, Block, write}
use psis_project.LinkedList.{Item, item}
use psis_project.Text.{decimal, decimal_loop, print_photo}
use psis_project.Msgs.{MessagePhoto}
use psis_project.Photos.{Data}
use psis_project.Peer.{Sent, send_photo_name}
use psis_project.Peer.Parts.{CanSend}
use psis_project.Peer.Matches.{found}
use psis_project.Peer.Replica.{CanCopy}
use psis_project.Library.{to_peer}
use psis_project.Library.Photos.{gallery_get_photo_name}
use psis_project.System.Exchange.{
  size_received, name_received, lookup, gallery_get_photo_name-lookup,
}
use psis_project.Tests.Lists.{line-IsList}
use psis_project.Tests.PeerRuns.{s, net, sea, photos, d1, d2, d3, k1, k2, k3}
use psis_project.Ring
use psis_project.Cells.{Cells}
use psis_project.Msgs.{DataR}
use psis_project.Sockets.{all_closed, no_bytes}
use psis_project.Peer.Connection.{Request, other_errno}

-- What a connection brings behind a message that needs nothing else.
abbrev pub plain : Request
plain = record {
  message = record { buffer = []; type = pos 0 };
  old_id = 0;
  old_text = [];
  old_peer = k1;
  blocks = λ i. record { address = 40 + i; contents = item d1 0 };
  peer_block = record { address = 40; contents = Ring.item k1 0 0 };
  fetched = none;
  upload = record {
    block = record { address = 40; contents = item d1 0 };
    name = [];
    keywords = all_closed;
    photo = no_bytes;
  };
  next = none;
  errno = other_errno;
}

abbrev pub others : Cells DataR
others = (20, k2) ∷ (30, k3) ∷ []

abbrev pub blocks : ℕ → Block (Item Data)
blocks i = record { address = 40 + i; contents = item d1 0 }

pub fresh : IsFresh s.photos blocks
unfolding write
fresh = record {
  not_null = λ i. omega arith;
  unused = λ i. ground arith;
  different = λ i j e. omega arith;
}

abbrev sea_message : MessagePhoto
sea_message = record { buffer = sea; type = pos 3 }

gallery_get_photo_name-lookup_example :
    let m : MessagePhoto = record { buffer = decimal 2; type = pos 5 } in
    (reply : List Sent) × (send_photo_name 3 net 0 m s
      ≡ ok tt (record s { photo_lock = false; out = reply }))
    × (gallery_get_photo_name true (size_received reply) (name_received reply) 2 []
        ≡ ok
            (elim (lookup 2 photos) [
              | none ↦ (pos 0, none)
              | some k ↦ (pos 1, some (k.name ++ 0 ∷ []))
            ])
            (to_peer m ∷ []))
gallery_get_photo_name-lookup_example =
    gallery_get_photo_name-lookup 3 net s photos 2 0 [] (line-IsList d1 d2 d3) refl (omega arith)
      (omega arith) (omega arith, (omega arith, (omega arith, tt)))

abbrev pub k : Data
k = record { name = b'p' ∷ []; id = 2; keyword = λ i. sea; n_keywords = 1 }

pub can_send : CanSend net s.files k (8 ∷ 9 ∷ [])
unfolding print_photo decimal decimal_loop
can_send = record {
  found = refl;
  header_fits = omega arith;
  keywords_fit = λ _. omega arith;
  header_sent = refl;
  keywords_sent = refl;
}

pub can_copy : CanCopy k (8 ∷ 9 ∷ [])
can_copy = record {
  named = ground arith;
  field = (ground arith, tt);
  name_fits = omega arith;
  size_fits = omega arith;
  id_fits = omega arith;
  some_bytes = ground arith;
  keywords_fit = omega arith;
  few = omega arith;
  sendable = (ground arith, omega arith, (ground arith, (ground arith, (ground arith, tt))), tt);
}
