-- ===== src/Peer/Greet.antt =====
-- `notify_and_recv_photos` of peer.c: a new peer tells each of the others its address.
use psis_project.Base.{
  ℕ, zero, suc, ◌<◌, ◌≡◌, ◌≢◌, refl, sym, ◌∙◌, ap, subst, ℤ, pos, negsuc, Bool, true, false, Option,
  some, List, [], ◌∷◌, ◌++◌, ◌==◌, ltb, if◌then◌else◌, length, arith, ne→==, eq→==,
}
use mathlib.Core.List.{append-nil, append_assoc}
use psis_project.Machine.{ok, Cmd, pure, ◌>>=◌, ◌>>◌}
use psis_project.Heap.{Ptr, null, Heap, load-ok}
use psis_project.Cells.{Cells, owns, first, last}
use psis_project.Ring.{item}
use psis_project.Ring.Chain.{Chain, IsRing}
use psis_project.Ring.Walk.{ring_count-length}
use psis_project.LinkedList
use psis_project.Text.{Text, print_peer_int}
use psis_project.Msgs.{DataR, MessagePhoto, Connect, accepted}
use psis_project.Sockets.{RecvAll}
use psis_project.Photos.{Data}
use psis_project.Peer.{Peer, Answers, Sent, Files, photo_message, emit}
use psis_project.Peer.Transfer.{Upload}
use psis_project.Peer.Connection.{ask_photos, enter_loop, notify_and_recv_photos, is_neg}

-- `connect_peer` reaches all of them.
abbrev pub AllAccept : (DataR → Connect) → Cells DataR → Type 0
AllAccept connect [] = Unit {0}
AllAccept connect (c ∷ cs) = ((fd : ℕ) × (connect c.1 ≡ accepted fd)) × AllAccept connect cs

-- One message of type 7 to each.
abbrev pub greetings : Text → Cells DataR → List Sent
greetings buffer [] = []
greetings buffer (c ∷ cs) = photo_message c.1 buffer (pos 7) ∷ greetings buffer cs

sent_then :
    (b : Bool) (m : Sent) (s : Peer) (rest failed : Cmd Peer ℤ)
    → b ≡ true
    → (if b then (do emit m; rest) else failed) s ≡ rest (record s { out = s.out ++ m ∷ [] })
sent_then b m s rest failed e = rw e refl

module _ (fuel : ℕ) (net : Answers) (buffer : Text) (size : RecvAll ℤ)
    (copies : ℕ → Option MessagePhoto × Upload) (msg : MessagePhoto) where
  enter_loop-greetings :
      (rounds : ℕ) (s : Peer) (b : Ptr) (xs : Cells DataR)
      → Chain s.peers b xs s.peer_list
      → owns xs s.peer_list ≡ false
      → AllAccept net.connect xs
      → net.header_sent ≡ true
      → length xs < rounds
      → enter_loop fuel net rounds (first xs s.peer_list) buffer true size copies msg s
        ≡ ok (pos 0) (record s { out = s.out ++ greetings buffer xs })
  unfolding enter_loop
  enter_loop-greetings zero s b xs ch out accept sent enough = absurd (omega arith)
  enter_loop-greetings (suc rounds) s b [] ch out accept sent enough =
      rw (eq→== s.peer_list s.peer_list refl)
        (ap (λ o. ok (pos 0) (record s { out = o })) (sym (append-nil s.out)))
  enter_loop-greetings (suc rounds) s b (c ∷ cs) (ne, holds, ch) out ((fd, e), accept) sent enough =
      let on : c.0 ≢ s.peer_list = ground arith in
      let m = photo_message c.1 buffer (pos 7) in
      let s1 = record s { out = s.out ++ m ∷ [] } in
      rw (ne→== c.0 s.peer_list on, load-ok s.peers ne holds, e)
        (sent_then net.header_sent m s
            (enter_loop fuel net rounds (first cs s.peer_list) buffer true size copies msg)
            (pure (negsuc 0)) sent
          ∙ enter_loop-greetings rounds s1 c.0 cs ch (ground arith) accept sent (omega arith)
          ∙ ap (λ o. ok (pos 0) (record s { out = o })) (append_assoc s.out (m ∷ []) _))

-- What is read behind the first greeting: the state with the photos of the first peer.
abbrev pub with_photos : Peer → Heap (LinkedList.Item Data) → Ptr → Files → Peer
with_photos s h p g = record s { photos = h; photo_list = p; photo_lock = false; files = g }

module _ (fuel : ℕ) (net : Answers) (size : RecvAll ℤ) (copies : ℕ → Option MessagePhoto × Upload)
    (msg : MessagePhoto) where
  enter_loop-first :
      (rounds : ℕ) (buffer : Text) (s : Peer) (b : Ptr) (c : Ptr × DataR) (cs : Cells DataR)
      (h : Heap (LinkedList.Item Data)) (p : Ptr) (g : Files)
      → let first_told = record s { out = s.out ++ photo_message c.1 buffer (pos 8) ∷ [] } in
        Chain s.peers b (c ∷ cs) s.peer_list
        → owns (c ∷ cs) s.peer_list ≡ false
        → AllAccept net.connect (c ∷ cs)
        → net.header_sent ≡ true
        → suc (length cs) < rounds
        → ask_photos fuel net size copies msg first_told ≡ ok (pos 0) (with_photos first_told h p g)
        → enter_loop fuel net rounds c.0 buffer false size copies msg s
          ≡ ok (pos 0) (
              with_photos
                (record s { out = s.out ++ photo_message c.1 buffer (pos 8) ∷ greetings buffer cs })
                h
                p
                g)
  unfolding enter_loop
  enter_loop-first zero buffer s b c cs h p g chain out accept sent enough asked =
      absurd (omega arith)
  enter_loop-first (suc rounds) buffer s b c cs h p g (ne, holds, ch) out ((fd, e), accept) sent
        enough asked =
      let on : c.0 ≢ s.peer_list = ground arith in
      let m = photo_message c.1 buffer (pos 8) in
      let s1 = with_photos (record s { out = s.out ++ m ∷ [] }) h p g in
      rw (ne→== c.0 s.peer_list on, load-ok s.peers ne holds, e)
        (sent_then net.header_sent m s
            (do
              result ← ask_photos fuel net size copies msg
              if is_neg 1 result
                  then pure result
                  else enter_loop fuel net rounds (first cs s.peer_list) buffer true size copies
                      msg)
            (pure (negsuc 0)) sent
          ∙ rw asked (
              enter_loop-greetings fuel net buffer size copies msg rounds s1 c.0 cs ch
                (ground arith) accept sent (omega arith))
          ∙ ap (λ o. ok (pos 0) (with_photos (record s { out = o }) h p g))
              (append_assoc s.out (m ∷ []) _))

  -- The first of the other peers is told with type 8 and asked for its photos, each one behind it is
  -- told with type 7.
  pub notify_and_recv_photos-greetings :
      (s : Peer) (self c : Ptr × DataR) (cs : Cells DataR) (h : Heap (LinkedList.Item Data))
      (p : Ptr) (g : Files)
      → let buffer = print_peer_int self.1.addr self.1.port in
        let first_told = record s { out = s.out ++ photo_message c.1 buffer (pos 8) ∷ [] } in
        IsRing s.peers s.peer_list (self ∷ c ∷ cs)
        → AllAccept net.connect (c ∷ cs)
        → net.header_sent ≡ true
        → length buffer < 100
        → suc (length cs) < fuel
        → ask_photos fuel net size copies msg first_told ≡ ok (pos 0) (with_photos first_told h p g)
        → notify_and_recv_photos fuel net size copies msg s
          ≡ ok (pos 0) (
              with_photos
                (record s { out = s.out ++ photo_message c.1 buffer (pos 8) ∷ greetings buffer cs })
                h
                p
                g)
  unfolding notify_and_recv_photos
  notify_and_recv_photos-greetings s self c cs h p g (e, ((ne, holds, (ne1, holds1, ch)), dist))
        ((fd, accepts), accept) sent fits enough asked =
      let buffer = print_peer_int self.1.addr self.1.port in
      let root_ne : s.peer_list ≢ null = λ q. ne (sym e ∙ q) in
      let others : (suc (suc (length cs)) == 1) ≡ false = ne→== _ 1 (omega arith) in
      let short : ltb (length buffer) 100 ≡ true = ground arith in
      let root_holds =
        subst (λ a. s.peers a ≡ some (item self.1 c.0 (last c.0 cs))) (sym e) holds in
      let chain = subst (Chain s.peers self.0 (c ∷ cs)) (sym e) (ne1, holds1, ch) in
      let apart = subst (λ a. owns (c ∷ cs) a ≡ false) (sym e) dist.0 in
      rw
        (
          ring_count-length fuel s.peers s.peer_list (self ∷ c ∷ cs)
              (e, ((ne, holds, (ne1, holds1, ch)), dist)) (omega arith),
          others,
          load-ok s.peers root_ne root_holds,
          short,
        )
        (enter_loop-first fuel buffer s self.0 c cs h p g chain apart ((fd, accepts), accept) sent
          enough asked)
