-- ===== src/Peer/Notify.antt =====
-- `broadcastPeersAndNotify` of peer.c: who is told, who is reported and who is taken out of the list.
use psis_project.Base.{
  negsuc, Option, ℕ, zero, suc, ◌+◌, ◌%◌, ◌^◌, ◌≡◌, ◌≢◌, ◌<◌, ◌≤◌, sym, ◌∙◌, ap, subst, ℤ, negsuc,
  true, false, some, List, [], ◌∷◌, ◌++◌, ltb, if◌then◌else◌, length, length-append, arith, inl,
  inr, Bool-cases, ne→==, eq→==,
}
use mathlib.Core.List.{append_assoc, append-nil}
use psis_project.Machine.{◌>>◌, ok}
use psis_project.Machine.Returns
use psis_project.Heap.{Ptr, null, Heap, load-ok}
use psis_project.Cells.{Cells, first, last, last-snoc, owned-ne, owns_right, first-owned}
use psis_project.Ring.{Item, item}
use psis_project.Ring.Chain.{Circle, IsRing, Chain-split}
use psis_project.Ring.Remove.{ring_remove-Removed}
use psis_project.Text.{Text, print_peer}
use psis_project.Msgs.{DataR, equal_data_r}
use psis_project.Msgs.Network.{
  IsDecided, online, is_online-online, removed, AllOnline, AllOnline-snoc, removed-offline,
}
use psis_project.Photos.{Data}
use psis_project.Peer.Parts.{Sends, send_to_peer-parts}
use psis_project.Peer.{
  emit, send_to_peer, Peer, Answers, Sent, photo_message, gateway_message, lock_peers, unlock_peers,
  remove_peer, warn_gateway, notify_loop, broadcast_peers_and_notify,
}

abbrev pub with_peers : Peer → Heap (Item DataR) → Ptr → List Sent → Peer
with_peers s h p sent = record s { peers = h; peer_list = p; out = s.out ++ sent }

-- The texts `addr,port` of the peers fit the 30 characters of a `message_gw`.
abbrev pub Fits : Cells DataR → Type 0
Fits [] = Unit {0}
Fits (c ∷ cs) = (length (print_peer c.1.addr c.1.port) < 30) × Fits cs

-- The peers that are online, and the number of the others.
abbrev pub reachable : Answers → Cells DataR → Cells DataR
reachable net [] = []
reachable net (c ∷ cs) = if online net.connect c.1 then c ∷ reachable net cs else reachable net cs

abbrev pub missing : Answers → Cells DataR → ℕ
missing net [] = 0
missing net (c ∷ cs) = if online net.connect c.1 then missing net cs else suc (missing net cs)

abbrev pub report_of : Answers → DataR → Sent
report_of net k = gateway_message (print_peer k.addr k.port) ((3000 + net.pid) % 2 ^ 16) (negsuc 1)

-- A peer that is online gets the message and the parts; any other is reported to the gateway.
abbrev pub told_one : Answers → Text → ℤ → List Sent → DataR → List Sent
told_one net message type parts k =
    if online net.connect k then photo_message k message type ∷ parts else report_of net k ∷ []

abbrev pub told : Answers → Text → ℤ → List Sent → Cells DataR → List Sent
told net message type parts [] = []
told net message type parts (c ∷ cs) =
    told_one net message type parts c.1 ++ told net message type parts cs

-- The node behind `c` points back to `c`.
behind :
    (h : Heap (Item DataR)) (self : Ptr × DataR) (kept : Cells DataR) (c : Ptr × DataR)
    (cs : Cells DataR)
    → Circle h (self ∷ kept ++ c ∷ cs)
    → (first cs self.0 ≢ null)
      × (k : DataR) × (q : Ptr) × (h (first cs self.0) ≡ some (item k q c.0))
behind h self kept c [] ((ne, e, ch), dist) = (
  ne,
  self.1,
  first (kept ++ c ∷ []) self.0,
  subst (λ b. h self.0 ≡ some (item self.1 (first (kept ++ c ∷ []) self.0) b))
      (last-snoc self.0 kept c) e,
)
behind h self kept c (d ∷ ds) (ch, dist) =
    let (_, (nc, ec, (nd, ed, _))) = Chain-split h _ (self ∷ kept) (c ∷ d ∷ ds) _ ch in
    (nd, d.1, first ds self.0, ed)

module _ (fuel : ℕ) (net : Answers) where
  remove_peer-removed :
      (s : Peer) (xs : Cells DataR) (k : DataR)
      → IsRing s.peers s.peer_list xs
      → length xs ≤ fuel
      → (h : Heap (Item DataR)) × (p : Ptr) × (remove_peer fuel net k s
          ≡ ok tt (record s { peers = h; peer_list = p }))
        × IsRing h p (removed k xs)
  unfolding remove_peer
  remove_peer-removed s xs k is enough =
      let ((found, p), h, e, (_, ring, _, _)) =
        Returns.outcome
          (ring_remove-Removed equal_data_r fuel s.peers s.peer_list xs k is enough) in
      (h, p, rw e, ring)

  warn_gateway-sent :
      (s : Peer) (k : DataR)
      → net.report_sent ≡ true
      → length (print_peer k.addr k.port) < 30
      → warn_gateway fuel net k s ≡ ok tt (record s { out = s.out ++ report_of net k ∷ [] })
  unfolding warn_gateway
  warn_gateway-sent s k sent fits =
      let short : ltb (length (print_peer k.addr k.port)) 30 ≡ true = ground arith in
      rw (short, sent)

module _ (fuel : ℕ) (net : Answers) (decided : IsDecided net.connect) (message : Text) (type : ℤ)
    (photo : Option Data) (parts : List Sent) where
  -- The message and the photo for one peer.
  inform :
      (s : Peer) (k : DataR)
      → Sends net s.files photo parts
      → (do emit (photo_message k message type); send_to_peer fuel net photo) s
        ≡ ok tt (record s { out = s.out ++ photo_message k message type ∷ parts })
  inform s k sends = rw (
    send_to_peer-parts fuel net (record s { out = s.out ++ photo_message k message type ∷ [] })
        photo parts sends,
    append_assoc,
  )

  abbrev Notified : ℕ → Peer → Ptr → ℕ → Ptr × DataR → Cells DataR → Cells DataR → Type 0
  Notified rounds s aux n self kept rest =
      (h : Heap (Item DataR)) × (p : Ptr) × (notify_loop fuel net rounds aux message type photo n s
        ≡ ok (n + missing net rest) (with_peers s h p (told net message type parts rest)))
      × IsRing h p (self ∷ kept ++ reachable net rest)

  -- The loop at the first of `rest`; the peers `kept` have been told.
  notify_loop-survivors :
      (rounds : ℕ) (s : Peer) (n : ℕ) (self : Ptr × DataR) (kept rest : Cells DataR)
      → IsRing s.peers s.peer_list (self ∷ kept ++ rest)
      → AllOnline net.connect (self ∷ kept)
      → net.report_sent ≡ true
      → Sends net s.files photo parts
      → Fits rest
      → length rest < rounds
      → length (self ∷ kept ++ rest) ≤ fuel
      → Notified rounds s (first rest self.0) n self kept rest
  unfolding notify_loop
  notify_loop-survivors zero s n self kept rest is all sent sends fits enough bound =
      absurd (omega arith)
  notify_loop-survivors (suc rounds) s n self kept [] is all sent sends fits enough bound = (
    s.peers,
    s.peer_list,
    rw (eq→== self.0 s.peer_list (sym is.0)) (
        let q : s.out ≡ s.out ++ [] = sym (append-nil s.out) in
        let z : n ≡ n + 0 = omega arith in λ i. ok (z i) (record s { out = q i })),
    is,
  )
  notify_loop-survivors (suc rounds) s n self kept (c ∷ cs) is all sent sends fits enough bound =
      let (chain, dist) = is.1 in
      let (_, (nc, ec, _)) = Chain-split s.peers _ (self ∷ kept) (c ∷ cs) _ chain in
      let on : c.0 ≢ s.peer_list = (λ q.
        owned-ne (kept ++ c ∷ cs) c.0 self.0 (owns_right kept (c ∷ cs) c.0 (first-owned c cs))
          dist.0 (q ∙ is.0)) in
      let (nb, k, q, eb) = behind s.peers self kept c cs is.1 in
      let (fd, asked, zero_iff) = is_online-online net.connect c.1 s decided in
      let assoc = append_assoc s.out in
      elim (Bool-cases (online net.connect c.1)) [
        | inl yes_online ↦
            let s1 = record s { out = s.out ++ photo_message c.1 message type ∷ parts } in
            let (h, p, run, ring) =
              notify_loop-survivors rounds s1 n self (kept ++ c ∷ []) cs (rw append_assoc is)
                (AllOnline-snoc net.connect (self ∷ kept) c all yes_online) sent sends fits.1
                (omega arith) (rw append_assoc bound) in
            (
              h,
              p,
              rw
                  (
                    ne→== c.0 s.peer_list on,
                    load-ok s.peers nc ec,
                    asked,
                    zero_iff,
                    yes_online,
                    inform s c.1 sends,
                  )
                  (run
                    ∙ ap
                        (λ o.
                          ok (n + missing net cs) (record s { peers = h; peer_list = p; out = o }))
                        (assoc (photo_message c.1 message type ∷ parts)
                          (told net message type parts cs))),
              rw yes_online (rw append_assoc at ring),
            )
        | inr offline ↦
            let s0 = record s { out = s.out ++ report_of net c.1 ∷ [] } in
            let (h1, p1, run1, ring1) =
              remove_peer-removed fuel net s0 (self ∷ kept ++ c ∷ cs) c.1 is bound in
            let ring' = rw (removed-offline net.connect (self ∷ kept) c cs all offline) at ring1 in
            let s1 = record s0 { peers = h1; peer_list = p1 } in
            let (h, p, run, ring) =
              notify_loop-survivors rounds s1 (n + 1) self kept cs ring' all sent sends fits.1
                (omega arith)
                (omega (arith, length-append {0} kept (c ∷ cs), length-append {0} kept cs)) in
            let count : n + 1 + missing net cs ≡ n + suc (missing net cs) = omega arith in
            let out = assoc (report_of net c.1 ∷ []) (told net message type parts cs) in
            (
              h,
              p,
              rw
                  (
                    ne→== c.0 s.peer_list on,
                    load-ok s.peers nc ec,
                    asked,
                    zero_iff,
                    offline,
                    warn_gateway-sent fuel net s c.1 sent fits.0,
                    load-ok s.peers nb eb,
                    load-ok s.peers nc ec,
                    run1,
                  )
                  (run ∙ (λ i. ok (count i) (record s { peers = h; peer_list = p; out = out i }))),
              rw offline ring,
            )
      ]

  -- `broadcastPeersAndNotify`, with a photo or without, called by a peer `self` that is itself
  -- reached: each other peer that is online is sent the message once, and behind it the
  -- photo's header, keywords and bytes; each that is not is reported to the gateway once, in
  -- the order of the list; the latter are taken out of the list, the former stay in their
  -- order behind `self`; the result is the number of those taken out, and the mutex is free
  -- again. (The list is well formed, the mutex was free, each `connect` reaches a peer, with a
  -- descriptor other than 0, or is refused, the photo has its file, its header and keywords
  -- fit and can be sent, the reports fit and can be sent, and the fuel exceeds the number of
  -- other peers.)
  pub broadcast_peers_and_notify-told :
      (s : Peer) (self : Ptr × DataR) (xs : Cells DataR)
      → IsRing s.peers s.peer_list (self ∷ xs)
      → s.peer_lock ≡ false
      → online net.connect self.1 ≡ true
      → net.report_sent ≡ true
      → Sends net s.files photo parts
      → Fits xs
      → length xs < fuel
      → (h : Heap (Item DataR)) × (p : Ptr) × (broadcast_peers_and_notify fuel net message type
            photo s
          ≡ ok
              (missing net xs)
              (record (with_peers s h p (told net message type parts xs)) { peer_lock = false }))
        × IsRing h p (self ∷ reachable net xs)
  unfolding broadcast_peers_and_notify lock_peers unlock_peers
  broadcast_peers_and_notify-told s self xs (e, ((ne, es, ch), dist)) free up sent sends fits
        enough =
      let s1 = record s { peer_lock = true } in
      let (h, p, run, ring) =
        notify_loop-survivors fuel s1 0 self [] xs (e, ((ne, es, ch), dist)) (up, tt) sent sends
          fits enough (omega arith) in
      let none_yet : 0 + missing net xs ≡ missing net xs = omega arith in
      let root_ne : s.peer_list ≢ null = (λ q. ne (sym e ∙ q)) in
      let root_holds =
        subst (λ a. s.peers a ≡ some (item self.1 (first xs self.0) (last self.0 xs))) (sym e) es in
      (h, p, rw (free, load-ok s.peers root_ne root_holds, run, none_yet), ring)
