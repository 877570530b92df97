-- ===== src/Gateway/Broadcast.antt =====
-- `broadcastPeers`: who is told, and where it does not come back.
use psis_project.Base.{
  ℕ, zero, suc, ◌≡◌, ◌≢◌, ◌<◌, ◌≤◌, refl, sym, ◌∙◌, ap, subst, ℤ, Bool, true, false, ◌||◌, Option,
  some, List, [], ◌∷◌, ◌++◌, ◌==◌, if◌then◌else◌, length, arith, inl, inr, Bool-cases, ne→==, eq→==,
}
use mathlib.Core.List.{append_assoc, append-nil}
use psis_project.Machine.{ok, pure, out_of_fuel, ◌>>=◌, ◌>>◌}
use psis_project.Heap.{Ptr, null, load-ok}
use psis_project.Cells.{Cells, owns, not-owned_cons, first, last}
use psis_project.Ring.{item}
use psis_project.Ring.Chain.{Chain, IsRing}
use psis_project.Text.{Text}
use psis_project.Msgs.{DataR, is_online}
use psis_project.Gateway.{
  Sent, photo_message, Gateway, Answers, lock, unlock, excluded, broadcast_loop, broadcast_peers,
  emit,
}
use psis_project.Msgs.Network.{IsDecided, online, is_online-online}

-- One message, if the peer is online.
abbrev pub notice : Answers → Text → ℤ → DataR → List Sent
notice net message type k = if online net.connect k then photo_message k message type ∷ [] else []

-- One message to each peer of the list that is online, in the order of the list.
abbrev pub notices : Answers → Text → ℤ → Cells DataR → List Sent
notices net message type [] = []
notices net message type (c ∷ cs) = notice net message type c.1 ++ notices net message type cs

-- The list has the peer that is to be left out.
abbrev pub mentions : Option DataR → Cells DataR → Bool
mentions exc [] = false
mentions exc (c ∷ cs) = excluded exc c.1 || mentions exc cs

module _ (net : Answers) (decided : IsDecided net.connect) (message : Text) (type : ℤ)
    (exc : Option DataR) where
  -- The body of the loop at a peer that is not left out.
  visit :
      (s : Gateway) (k : DataR) (p : Ptr)
      → (do
        fd ← is_online (net.connect k)
        if fd == 0 then pure tt else emit (photo_message k message type)
        pure p)
          s
        ≡ ok p (record s { out = s.out ++ notice net message type k })
  visit s k p =
      let (fd, told, zero_iff) = is_online-online net.connect k s decided in
      rw (told, zero_iff)
        (elim (Bool-cases (online net.connect k)) [ inl q ↦ rw q | inr q ↦ rw (q, append-nil) ])

  broadcast_loop-notices :
      (rounds : ℕ) (s : Gateway) (b : Ptr) (c : Ptr × DataR) (cs : Cells DataR)
      → Chain s.heap b (c ∷ cs) s.peer_list
      → owns cs s.peer_list ≡ false
      → mentions exc (c ∷ cs) ≡ false
      → length cs < rounds
      → broadcast_loop net rounds c.0 message type exc s
        ≡ ok tt (record s { out = s.out ++ notices net message type (c ∷ cs) })
  unfolding broadcast_loop
  broadcast_loop-notices zero s b c cs ch out free enough = absurd (omega arith)
  broadcast_loop-notices (suc rounds) s b c [] (ne, e, ch) out free enough =
      let stay : excluded exc c.1 ≡ false = ground arith in
      rw (
        load-ok s.heap ne e,
        stay,
        visit s c.1 s.peer_list,
        eq→== s.peer_list s.peer_list refl,
        append-nil,
      )
  broadcast_loop-notices (suc rounds) s b c (d ∷ ds) (ne, e, ch) out free enough =
      let stay : excluded exc c.1 ≡ false = ground arith in
      let on : d.0 ≢ s.peer_list = ground arith in
      let s1 = record s { out = s.out ++ notice net message type c.1 } in
      rw (load-ok s.heap ne e, stay, visit s c.1 d.0, ne→== d.0 s.peer_list on)
        (broadcast_loop-notices rounds s1 c.0 d ds ch (ground arith) (ground arith) (omega arith)
          ∙ ap (λ (sent : List Sent). ok tt (record s { out = sent }))
              (append_assoc s.out (notice net message type c.1)
                (notices net message type (d ∷ ds))))

  -- `broadcastPeers` with nobody to leave out in the list sends the message once to each peer
  -- that is online, in the order of the list and to nobody else; it changes neither the list
  -- nor the ids, and gives the mutex back. (The list is well formed, the mutex was free, each
  -- `connect` reaches a peer, with a descriptor other than 0, or is refused, and the fuel is
  -- at least the number of peers.)
  pub broadcast_peers-notices :
      (fuel : ℕ) (s : Gateway) (xs : Cells DataR)
      → IsRing s.heap s.peer_list xs
      → s.list_lock ≡ false
      → mentions exc xs ≡ false
      → length xs ≤ fuel
      → broadcast_peers fuel net message type exc s
        ≡ ok tt (record s { list_lock = false; out = s.out ++ notices net message type xs })
  unfolding broadcast_peers lock unlock
  broadcast_peers-notices fuel s [] (e, _) held free enough = rw (held, e, append-nil)
  broadcast_peers-notices fuel s (c ∷ cs) (e, (ch, dist)) held free enough =
      let s1 = record s { list_lock = true } in
      let chain = subst (Chain s.heap (last c.0 cs) (c ∷ cs)) (sym e) ch in
      let loop =
        subst
          (λ p.
            broadcast_loop net fuel p message type exc s1
            ≡ ok tt (record s1 { out = s.out ++ notices net message type (c ∷ cs) }))
          (sym e) (broadcast_loop-notices fuel s1 _ c cs chain (rw e dist.0) free (omega arith)) in
      rw (held, ne→== s.peer_list null (λ q. ch.0 (sym e ∙ q)), loop)

  -- At the peer to leave out the loop does not go on, and away from the root it does not end.
  broadcast_loop-waits :
      (rounds : ℕ) (s : Gateway) (p q : Ptr) (k : DataR) (b : Ptr)
      → p ≢ null
      → s.heap p ≡ some (item k q b)
      → excluded exc k ≡ true
      → p ≢ s.peer_list
      → broadcast_loop net rounds p message type exc s ≡ out_of_fuel
  unfolding broadcast_loop
  broadcast_loop-waits zero s p q k b ne e left behind = refl
  broadcast_loop-waits (suc rounds) s p q k b ne e left behind =
      rw (load-ok s.heap ne e, left, ne→== p s.peer_list behind)
        (broadcast_loop-waits rounds s p q k b ne e left behind)

  broadcast_loop-stuck :
      (rounds : ℕ) (s : Gateway) (b : Ptr) (c : Ptr × DataR) (cs : Cells DataR)
      → Chain s.heap b (c ∷ cs) s.peer_list
      → owns cs s.peer_list ≡ false
      → excluded exc c.1 ≡ false
      → mentions exc cs ≡ true
      → broadcast_loop net rounds c.0 message type exc s ≡ out_of_fuel
  unfolding broadcast_loop
  broadcast_loop-stuck rounds s b c [] ch out other met = cc
  broadcast_loop-stuck zero s b c (d ∷ ds) ch out other met = refl
  broadcast_loop-stuck (suc rounds) s b c (d ∷ ds) (ne, e, ch) out other met =
      let (on, out') = not-owned_cons d ds s.peer_list out in
      let s1 = record s { out = s.out ++ notice net message type c.1 } in
      rw (load-ok s.heap ne e, other, visit s c.1 d.0, ne→== d.0 s.peer_list on)
        (elim (Bool-cases (excluded exc d.1)) [
          | inl left ↦
              broadcast_loop-waits rounds s1 d.0 (first ds s.peer_list) d.1 c.0 ch.0 ch.1 left on
          | inr other' ↦ broadcast_loop-stuck rounds s1 c.0 d ds ch out' other' (rw other' at met)
        ])

  -- The peer to leave out is in the list, but not at its root: `broadcastPeers` does not come
  -- back, whatever its fuel. (The list is well formed, the mutex was free, and each `connect`
  -- reaches a peer, with a descriptor other than 0, or is refused.)
  pub broadcast_peers-stuck :
      (fuel : ℕ) (s : Gateway) (c : Ptr × DataR) (cs : Cells DataR)
      → IsRing s.heap s.peer_list (c ∷ cs)
      → s.list_lock ≡ false
      → excluded exc c.1 ≡ false
      → mentions exc cs ≡ true
      → broadcast_peers fuel net message type exc s ≡ out_of_fuel
  unfolding broadcast_peers lock unlock
  broadcast_peers-stuck fuel s c cs (e, (ch, dist)) held other met =
      let s1 = record s { list_lock = true } in
      let chain = subst (Chain s.heap (last c.0 cs) (c ∷ cs)) (sym e) ch in
      let loop =
        subst (λ p. broadcast_loop net fuel p message type exc s1 ≡ out_of_fuel) (sym e)
          (broadcast_loop-stuck fuel s1 _ c cs chain (rw e dist.0) other met) in
      rw (held, ne→== s.peer_list null (λ q. ch.0 (sym e ∙ q)), loop)

  -- The peer to leave out is the root of the list: `broadcastPeers` comes back after one round
  -- and has told nobody at all. (The list is well formed and the mutex was free.)
  pub broadcast_peers-silent :
      (fuel : ℕ) (s : Gateway) (c : Ptr × DataR) (cs : Cells DataR)
      → IsRing s.heap s.peer_list (c ∷ cs)
      → s.list_lock ≡ false
      → excluded exc c.1 ≡ true
      → broadcast_peers (suc fuel) net message type exc s ≡ ok tt (record s { list_lock = false })
  unfolding broadcast_peers broadcast_loop lock unlock
  broadcast_peers-silent fuel s c cs (e, (ch, dist)) held left = rw (
    held,
    ne→== s.peer_list null (λ q. ch.0 (sym e ∙ q)),
    e,
    load-ok s.heap ch.0 ch.1,
    left,
    eq→== c.0 c.0 refl,
  )
