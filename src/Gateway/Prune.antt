-- ===== src/Gateway/Prune.antt =====
-- The list that a new peer is sent: `ring_remove` on the gateway's list, and the loop that takes out
-- the peers that are not online.
use psis_project.Base.{
  ℕ, zero, suc, refl, ap, ◌≡◌, ◌≢◌, ◌<◌, ◌≤◌, sym, ◌∙◌, subst, [], ◌∷◌, ◌++◌, if◌then◌else◌, length,
  arith, inl, inr, Bool-cases, ne→==, eq→==,
}
use mathlib.Core.List.{append_assoc}
use psis_project.Machine.{ok}
use psis_project.Machine.Returns
use psis_project.Machine.Returns.{Returns, returns}
use psis_project.Heap.{Ptr, null, Heap, load-ok}
use psis_project.Cells.{Cells, first}
use psis_project.Ring.{Item}
use psis_project.Ring.Chain.{IsRing}
use psis_project.Msgs.{DataR, equal_data_r}
use psis_project.Gateway.{Gateway, Answers, remove_peer, prune_loop}
use psis_project.Cells.{Distinct, not-owned_cons, owned-ne, owns_right}
use psis_project.Base.{length-append}
use psis_project.Ring.Chain.{Circle-open, Chain-split}
use psis_project.Ring.Remove.{ring_remove-Removed}
use psis_project.Msgs.Network.{
  IsDecided, online, is_online-online, removed, AllOnline, AllOnline-snoc, removed-offline,
}

-- The state with another list.
abbrev pub with_list : Gateway → Heap (Item DataR) → Ptr → Gateway
with_list s h p = record s { heap = h; peer_list = p }

module _ (fuel : ℕ) (net : Answers) where
  -- `ring_remove(&peer_list, K)` takes out the first peer with this address and port.
  pub remove_peer-removed :
      (s : Gateway) (xs : Cells DataR) (k : DataR)
      → IsRing s.heap s.peer_list xs
      → length xs ≤ fuel
      → (h : Heap (Item DataR)) × (p : Ptr) × (remove_peer fuel net k s ≡ ok tt (with_list s h p))
        × IsRing h p (removed k xs)
  unfolding remove_peer
  remove_peer-removed s xs k is enough =
      let ((found, p), h, e, (_, ring, _, _)) =
        Returns.outcome (ring_remove-Removed equal_data_r fuel s.heap s.peer_list xs k is enough) in
      (h, p, rw e, ring)

-- The peers that are online, and the last one, which is the new peer.
abbrev pub survivors : Answers → Cells DataR → Cells DataR
survivors net [] = []
survivors net (c ∷ []) = c ∷ []
survivors net (c ∷ d ∷ ds) =
    if online net.connect c.1 then c ∷ survivors net (d ∷ ds) else survivors net (d ∷ ds)

-- The root does not come behind another node.
first-ne :
    (kept : Cells DataR) (c d : Ptr × DataR) (ds : Cells DataR)
    → Distinct (kept ++ c ∷ d ∷ ds)
    → d.0 ≢ first (kept ++ c ∷ d ∷ ds) null
first-ne [] c d ds (out, _) = λ q. (not-owned_cons d ds c.0 out).0 q
first-ne (k ∷ ks) c d ds (out, _) =
    owned-ne (ks ++ c ∷ d ∷ ds) d.0 k.0 (owns_right ks (c ∷ d ∷ ds) d.0 (ground arith)) out

root_not_null :
    (h : Heap (Item DataR)) (p : Ptr) (kept : Cells DataR) (d : Ptr × DataR) (ds : Cells DataR)
    → IsRing h p (kept ++ d ∷ ds)
    → p ≢ null
root_not_null h p [] d ds (e, circle) = λ q. circle.0.0 (sym e ∙ q)
root_not_null h p (k ∷ ks) d ds (e, circle) = λ q. circle.0.0 (sym e ∙ q)

module _ (fuel : ℕ) (net : Answers) (decided : IsDecided net.connect) where
  -- The loop at the peer `c`; the peers `kept` have been found online.
  pub prune_loop-survivors :
      (rounds : ℕ) (s : Gateway) (kept : Cells DataR) (c : Ptr × DataR) (rest : Cells DataR)
      → IsRing s.heap s.peer_list (kept ++ c ∷ rest)
      → AllOnline net.connect kept
      → length rest < rounds
      → length (kept ++ c ∷ rest) ≤ fuel
      → (h : Heap (Item DataR)) × (p : Ptr) × (prune_loop fuel net rounds c.0 s
          ≡ ok tt (with_list s h p))
        × IsRing h p (kept ++ survivors net (c ∷ rest))
  unfolding prune_loop
  prune_loop-survivors zero s kept c rest is all enough bound = absurd (omega arith)
  prune_loop-survivors (suc rounds) s kept c [] is all enough bound =
      let (chain, dist) = Circle-open s.heap (kept ++ c ∷ []) is.1 in
      let (_, (ne, e, _)) = Chain-split s.heap _ kept (c ∷ []) _ chain in
      (
        s.heap,
        s.peer_list,
        rw (load-ok s.heap ne e, eq→== (first (kept ++ c ∷ []) null) s.peer_list (sym is.0)),
        is,
      )
  prune_loop-survivors (suc rounds) s kept c (d ∷ ds) is all enough bound =
      let (chain, dist) = Circle-open s.heap (kept ++ c ∷ d ∷ ds) is.1 in
      let (_, (ne, e, (nd, ed, _))) = Chain-split s.heap _ kept (c ∷ d ∷ ds) _ chain in
      let on : d.0 ≢ s.peer_list = (λ q. first-ne kept c d ds dist (q ∙ is.0)) in
      let (fd, told, zero_iff) = is_online-online net.connect c.1 s decided in
      elim (Bool-cases (online net.connect c.1)) [
        | inl yes_online ↦
            let (h, p, run, ring) =
              prune_loop-survivors rounds s (kept ++ c ∷ []) d ds (rw append_assoc is)
                (AllOnline-snoc net.connect kept c all yes_online) (omega arith)
                (rw append_assoc bound) in
            (
              h,
              p,
              rw (load-ok s.heap ne e, ne→== d.0 s.peer_list on, told, zero_iff, yes_online) run,
              rw yes_online (rw append_assoc at ring),
            )
        | inr offline ↦
            let (h1, p1, run1, ring1) =
              remove_peer-removed fuel net s (kept ++ c ∷ d ∷ ds) c.1 is bound in
            let ring' = rw (removed-offline net.connect kept c (d ∷ ds) all offline) at ring1 in
            let (h, p, run, ring) =
              prune_loop-survivors rounds (with_list s h1 p1) kept d ds ring' all (omega arith) (
                omega
                  (arith, length-append {0} kept (c ∷ d ∷ ds), length-append {0} kept (d ∷ ds))) in
            (
              h,
              p,
              rw
                  (
                    load-ok s.heap ne e,
                    ne→== d.0 s.peer_list on,
                    told,
                    zero_iff,
                    offline,
                    load-ok s.heap nd ed,
                    load-ok s.heap ne e,
                    run1,
                    ne→== p1 null (root_not_null h1 p1 kept d ds ring'),
                  )
                  run,
              rw offline ring,
            )
      ]

  at_root :
      (s : Gateway) (q : Ptr) (h : Heap (Item DataR)) (p : Ptr)
      → q ≡ s.peer_list
      → prune_loop fuel net fuel q s ≡ ok tt (with_list s h p)
      → prune_loop fuel net fuel s.peer_list s ≡ ok tt (with_list s h p)
  at_root s q h p e run = subst (λ r. prune_loop fuel net fuel r s ≡ ok tt (with_list s h p)) e run

  -- The loop from the root of a list that is not empty.
  pub prune-survivors :
      (s : Gateway) (xs : Cells DataR) (c : Ptr × DataR)
      → IsRing s.heap s.peer_list (xs ++ c ∷ [])
      → length xs < fuel
      → (h : Heap (Item DataR)) × (p : Ptr) × (prune_loop fuel net fuel s.peer_list s
          ≡ ok tt (with_list s h p))
        × IsRing h p (survivors net (xs ++ c ∷ []))
  prune-survivors s [] c is enough =
      let (h, p, run, ring) =
        prune_loop-survivors fuel s [] c [] is tt (omega arith) (omega arith) in
      (h, p, at_root s c.0 h p (sym is.0) run, ring)
  prune-survivors s (x ∷ xs) c is enough =
      let size = length-append {0} xs (c ∷ []) in
      let (h, p, run, ring) =
        prune_loop-survivors fuel s [] x (xs ++ c ∷ []) is tt (omega (arith, size))
          (omega (arith, size)) in
      (h, p, at_root s x.0 h p (sym is.0) run, ring)

pub length-survivors-le : (net : Answers) (xs : Cells DataR) → length (survivors net xs) ≤ length xs
length-survivors-le net [] = omega arith
length-survivors-le net (c ∷ []) = omega arith
length-survivors-le net (c ∷ d ∷ ds) = ground (arith, length-survivors-le net (d ∷ ds))

module _ (net : Answers) where
  -- The peers that answer.
  abbrev pub answering : Cells DataR → Cells DataR
  answering [] = []
  answering (c ∷ cs) = if online net.connect c.1 then c ∷ answering cs else answering cs

  pub survivors-snoc :
      (xs : Cells DataR) (c : Ptr × DataR) → survivors net (xs ++ c ∷ []) ≡ answering xs ++ c ∷ []
  survivors-snoc [] c = refl
  survivors-snoc (x ∷ []) c = elim (Bool-cases (online net.connect x.1)) [
    | inl answers ↦ rw answers refl
    | inr silent ↦ rw silent refl
  ]
  survivors-snoc (x ∷ y ∷ ys) c = elim (Bool-cases (online net.connect x.1)) [
    | inl answers ↦ rw answers (ap (λ r. x ∷ r) (survivors-snoc (y ∷ ys) c))
    | inr silent ↦ rw silent (survivors-snoc (y ∷ ys) c)
  ]

  pub length-answering-le : (xs : Cells DataR) → length (answering xs) ≤ length xs
  length-answering-le [] = omega arith
  length-answering-le (x ∷ xs) = elim (Bool-cases (online net.connect x.1)) [
    | inl answers ↦ rw answers (omega (arith, length-answering-le xs))
    | inr silent ↦ rw silent (omega (arith, length-answering-le xs))
  ]
