-- ===== src/Ring/Circle.antt =====
-- How a write to a link changes a run, and the turning of a circle.
use psis_project.Base.{
  ◌≡◌, ◌≢◌, refl, ◌∙◌, sym, false, Option, some, [], ◌∷◌, ◌++◌, arith, subst, ne→==,
}
use mathlib.Core.List.{append_assoc, append-nil}
use psis_project.Heap.{Ptr, null, Heap, write, write_self, write_other}
use psis_project.Ring.{Item, item}
use psis_project.Cells.{
  Cells, owns, Distinct, first, last, last-snoc, last-owned, owned-ne, Distinct-append,
}
use psis_project.Ring.Chain.{Chain, Circle, IsRing, Chain-frame, Chain-join}

module _ {D : Type 0} where
  -- A write outside a run leaves it alone.
  pub Chain-write :
      (h : Heap (Item D)) (b : Ptr) (xs : Cells D) (s p : Ptr) (c : Option (Item D))
      → Chain h b xs s
      → owns xs p ≡ false
      → Chain (write h p c) b xs s
  unfolding write
  Chain-write h b xs s p c ch out = Chain-frame b xs s ch (λ a o. ground arith)

  -- The first node is given another predecessor.
  pub Chain-write-first :
      (h : Heap (Item D)) (b : Ptr) (c : Ptr × D) (cs : Cells D) (s b' : Ptr)
      → Chain h b (c ∷ cs) s
      → Distinct (c ∷ cs)
      → Chain (write h c.0 (some (item c.1 (first cs s) b'))) b' (c ∷ cs) s
  Chain-write-first h b c cs s b' (ne, e, ch) d =
      (ne, write_self h c.0 _, Chain-write h c.0 cs s c.0 _ ch d.0)

  -- The last node, and what is left when it is given another successor.
  pub Chain-last :
      (h : Heap (Item D)) (b : Ptr) (c : Ptr × D) (cs : Cells D) (s : Ptr)
      → Chain h b (c ∷ cs) s
      → Distinct (c ∷ cs)
      → let l = last c.0 cs in
        (l ≢ null)
        × (n : Item D) × (h l ≡ some n)
        × (n.next ≡ s)
        × ((s' : Ptr) → Chain (write h l (some (record n { next = s' }))) b (c ∷ cs) s')
  Chain-last h b c [] s (ne, e, ch) d =
      (ne, item c.1 s b, e, refl, λ s'. (ne, write_self h c.0 _, tt))
  Chain-last h b c (d ∷ ds) s (ne, e, ch) (out, dist) =
      let (ne', n, holds, stop, relink) = Chain-last h c.0 d ds s ch dist in
      (
        ne',
        n,
        holds,
        stop,
        λ s'. (
          ne,
          write_other h (last d.0 ds) c.0 _
                (λ q. owned-ne (d ∷ ds) _ c.0 (last-owned d ds) out (sym q))
              ∙ e,
          relink s',
        ),
      )

  -- A run is closed to a circle by one more node.
  pub Circle-snoc :
      (g : Heap (Item D)) (c : Ptr × D) (cs : Cells D) (o : Ptr × D)
      → Chain g o.0 (c ∷ cs) o.0
      → o.0 ≢ null
      → g o.0 ≡ some (item o.1 c.0 (last c.0 cs))
      → Distinct (c ∷ cs)
      → owns (c ∷ cs) o.0 ≡ false
      → Circle g (c ∷ cs ++ o ∷ [])
  Circle-snoc g c cs o ch ne e dist out = (
    Chain-join g (last c.0 (cs ++ o ∷ [])) (c ∷ cs) (o ∷ []) c.0
        (subst (λ b. Chain g b (c ∷ cs) o.0) (sym (last-snoc c.0 cs o)) ch) (ne, e, tt),
    Distinct-append (c ∷ cs) (o ∷ []) dist (refl, tt)
        (λ a i. rw (ne→== a o.0 (owned-ne (c ∷ cs) a o.0 i out))),
  )

  turn :
      (h : Heap (Item D)) (c : Ptr × D) (cs : Cells D) → Circle h (c ∷ cs) → Circle h (cs ++ c ∷ [])
  turn h c [] circle = circle
  turn h c (d ∷ ds) ((ne, e, ch), (out, dist)) = Circle-snoc h d ds c ch ne e dist out

  -- A ring may be entered at any of its nodes.
  pub Circle-rotate :
      (h : Heap (Item D)) (xs ys : Cells D) → Circle h (xs ++ ys) → Circle h (ys ++ xs)
  Circle-rotate h [] ys circle = rw append-nil circle
  Circle-rotate h (x ∷ xs) ys circle =
      let turned =
        Circle-rotate h xs (ys ++ x ∷ []) (rw (← append_assoc) (turn h x (xs ++ ys) circle)) in
      rw append_assoc at turned

  -- A ring survives a write to a node that is not its own.
  pub IsRing-write :
      (h : Heap (Item D)) (root : Ptr) (xs : Cells D) (p : Ptr) (c : Option (Item D))
      → IsRing h root xs
      → owns xs p ≡ false
      → IsRing (write h p c) root xs
  IsRing-write h root [] p c is out = is
  IsRing-write h root (x ∷ xs) p c (e, (ch, dist)) out =
      (e, (Chain-write h (last x.0 xs) (x ∷ xs) x.0 p c ch out, dist))
