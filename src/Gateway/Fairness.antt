-- ===== src/Gateway/Fairness.antt =====
-- The turn of the peers in `connection_client`.
use psis_project.Base.{
  ◌%◌, ◌^◌, ℕ, suc, ◌≡◌, refl, sym, ap, ◌∙◌, subst, pos, true, false, List, [], ◌∷◌, ◌++◌,
}
use mathlib.Core.List.{append_assoc, append-nil}
use psis_project.Machine.{ok}
use psis_project.Heap.{Ptr}
use psis_project.Cells.{Cells, contents, first}
use psis_project.Msgs.{DataR, MessageGw}
use psis_project.Msgs.Network.{IsDecided, online, AllOnline}
use psis_project.Gateway.{streamed, Source, Sent, reply, Gateway, Answers}
use psis_project.Gateway.Requests.{IsServing}
use psis_project.Gateway.Clients.{next_peer, turned, find_peer-next}
use psis_project.Gateway.Process.{recv_message, ClientDatagram, client_loop}

-- A client that asks for a peer.
pub record Asking : Type 0 where
  pub message : MessageGw
  pub source : Source
  pub net : Answers

abbrev pub asking : List Asking → List ClientDatagram
asking [] = []
asking (a ∷ rest) = record { datagram = recv_message a.message a.source; net = a.net } ∷ asking rest

-- Each client gets the next of these peers.
abbrev pub handed : List Asking → List DataR → List Sent
handed [] ks = []
handed (a ∷ rest) [] = []
handed (a ∷ rest) (k ∷ ks) =
    reply a.source (record { type = pos 0; addr = k.addr; port = k.port % 2 ^ 16 }) ∷ handed rest ks

-- There is a client for each of these peers, every `connect` is decided, all peers are online and all replies
-- are sent.
abbrev pub AllServed : {A : Type 0} → Cells DataR → List Asking → List A → Type 0
AllServed xs [] [] = Unit {0}
AllServed xs [] (k ∷ ks) = ⊥
AllServed xs (a ∷ rest) [] = ⊥
AllServed xs (a ∷ rest) (k ∷ ks) =
    IsDecided a.net.connect
    × AllOnline a.net.connect xs
    × (a.net.reply_sent ≡ true)
    × AllServed xs rest ks

AllOnline-at :
    (connect : _) (zs : Cells DataR) (c : Ptr × DataR) (ys : Cells DataR)
    → AllOnline connect (zs ++ c ∷ ys)
    → online connect c.1 ≡ true
AllOnline-at connect [] c ys (up, all) = up
AllOnline-at connect (z ∷ zs) c ys (up, all) = AllOnline-at connect zs c ys all

module _ (fuel : ℕ) where
  -- One client.
  served :
      (s : Gateway) (c : Ptr × DataR) (cs : Cells DataR) (a : Asking) (rest : List ClientDatagram)
      (buff : MessageGw) (from : Source)
      → IsServing s (c ∷ cs)
      → IsDecided a.net.connect
      → online a.net.connect (next_peer c cs) ≡ true
      → a.net.reply_sent ≡ true
      → let k = next_peer c cs in
        let answer : MessageGw = record { type = pos 0; addr = k.addr; port = k.port } in
        let t = record s {
          peer_list = first cs c.0;
          list_lock = false;
          out = s.out ++ reply a.source (streamed answer) ∷ [];
        } in
        (client_loop
            (suc fuel)
            (record { datagram = recv_message a.message a.source; net = a.net } ∷ rest)
            buff
            from
            s
          ≡ client_loop (suc fuel) rest answer a.source t)
        × IsServing t (cs ++ c ∷ [])
  unfolding client_loop
  served s c cs a rest buff from is decided up sent = (
    rw (find_peer-next fuel a.net decided s c cs a.message is up, sent) refl,
    record { ring = turned s.heap c cs is.ring.1; free = refl },
  )

  next-online :
      (connect : _) (c : Ptr × DataR) (zs : Cells DataR)
      → AllOnline connect (zs ++ c ∷ [])
      → online connect (next_peer c zs) ≡ true
  next-online connect c [] (up, all) = up
  next-online connect c (z ∷ zs) (up, all) = up

  -- The root that comes next stays the first of the list when the list is turned on.
  next-turned :
      (c d : Ptr × DataR) (zs : Cells DataR)
      → (next_peer d (zs ++ c ∷ []) ≡ next_peer c zs) × (first (zs ++ c ∷ []) d.0 ≡ first zs c.0)
  next-turned c d [] = (refl, refl)
  next-turned c d (z ∷ zs) = (refl, refl)

  -- The peers `zs` and `c` have been handed out already.
  turn :
      (ys : Cells DataR) (s : Gateway) (c : Ptr × DataR) (zs : Cells DataR) (clients : List Asking)
      (buff : MessageGw) (from : Source) (k : DataR) (p : Ptr)
      → IsServing s (c ∷ (ys ++ zs))
      → next_peer c zs ≡ k
      → first zs c.0 ≡ p
      → AllServed (zs ++ (c ∷ ys)) clients (contents ys ++ k ∷ [])
      → client_loop (suc fuel) (asking clients) buff from s
        ≡ ok tt (record s {
          peer_list = p;
          list_lock = false;
          out = s.out ++ handed clients (contents ys ++ k ∷ []);
        })
  unfolding client_loop
  turn [] s c zs [] buff from k p is next root nobody = elim nobody [ ]
  turn [] s c zs (a ∷ b ∷ rest) buff from k p is next root (decided, all, sent, more) =
      elim more [ ]
  turn [] s c zs (a ∷ []) buff from k p is next root (decided, all, sent, done) =
      let (run, _) =
        served s c zs a [] buff from is decided (next-online a.net.connect c zs all) sent in
      rw (sym next, sym root) run
  turn (y ∷ ys) s c zs [] buff from k p is next root nobody = elim nobody [ ]
  turn (y ∷ ys) s c zs (a ∷ rest) buff from k p is next root (decided, all, sent, others) =
      let around : zs ++ c ∷ [] ++ y ∷ ys ≡ zs ++ (c ∷ y ∷ ys) =
        append_assoc zs (c ∷ []) (y ∷ ys) in
      let behind : y ∷ ys ++ zs ++ c ∷ [] ≡ y ∷ (ys ++ (zs ++ c ∷ [])) =
        ap (λ r. y ∷ r) (append_assoc ys zs (c ∷ [])) in
      let up =
        AllOnline-at a.net.connect (zs ++ c ∷ []) y ys
          (subst (AllOnline a.net.connect) (sym around) all) in
      let (run, is') = served s c (y ∷ (ys ++ zs)) a (asking rest) buff from is decided up sent in
      let (next', root') = next-turned c y zs in
      let later =
        turn ys _ y (zs ++ c ∷ []) rest _ a.source k p (subst (IsServing _) behind is')
          (next' ∙ next) (root' ∙ root)
          (subst (λ l. AllServed l rest (contents ys ++ k ∷ [])) (sym around) others) in
      run
      ∙ later
      ∙ ap (λ o. ok tt (record s { peer_list = p; list_lock = false; out = o }))
          (append_assoc s.out _ _)

  -- As many clients as there are peers ask the gateway one after the other:
  -- `connection_client` hands out the address and port of each peer once, the port modulo 2^16
  -- as `stream_and_send_gw` takes it, from the peer behind the root on and the root last, and
  -- then the list, its root and the mutex are as before. (The list is well formed and not
  -- empty, the mutex was free, for each client each `connect` reaches a peer, with a
  -- descriptor other than 0, or is refused and all peers are online, and the replies can be
  -- sent.)
  pub client_loop-handed :
      (s : Gateway) (c : Ptr × DataR) (cs : Cells DataR) (clients : List Asking) (buff : MessageGw)
      (from : Source)
      → IsServing s (c ∷ cs)
      → let ks = contents cs ++ c.1 ∷ [] in
        AllServed (c ∷ cs) clients ks
        → client_loop (suc fuel) (asking clients) buff from s
          ≡ ok tt (record s { out = s.out ++ handed clients ks })
  client_loop-handed s c cs clients buff from is all =
      let after : List Sent = s.out ++ handed clients (contents cs ++ c.1 ∷ []) in
      turn cs s c [] clients buff from c.1 c.0
        (subst (IsServing s) (ap (λ r. c ∷ r) (sym (append-nil cs))) is) refl refl all
      ∙ ap (λ p. ok tt (record s { peer_list = p; list_lock = false; out = after })) (sym is.ring.0)
      ∙ ap (λ b. ok tt (record s { list_lock = b; out = after })) (sym is.free)
