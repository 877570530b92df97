-- ===== src/LinkedList/Linked.antt =====
-- Which nodes a list consists of.
use psis_project.Base.{
  ◌≡◌, ◌≢◌, refl, ◌∙◌, sym, ap, false, Option, some, none, [], ◌∷◌, ◌++◌, arith, ne→==,
}
use psis_project.Heap.{Ptr, null, Heap, write, write_self, write_other}
use psis_project.Cells.{Cells, owns, Distinct, SameOn, first, last, last-owned, owned-ne}
use psis_project.LinkedList.{Item, item}

module _ {D : Type 0} where
  -- The nodes `xs` are linked in this order, and the last one points on to `stop`.
  abbrev pub Linked : Heap (Item D) → Cells D → Ptr → Type 0
  Linked h [] stop = Unit {0}
  Linked h (c ∷ cs) stop =
      (c.0 ≢ null) × (h c.0 ≡ some (item c.1 (first cs stop))) × Linked h cs stop

  -- `root` is the `item *` of a list that holds `xs` in this order.
  abbrev pub IsList : Heap (Item D) → Ptr → Cells D → Type 0
  IsList h root xs = (root ≡ first xs null) × Linked h xs null × Distinct xs

  pub Linked-frame :
      {h g : Heap (Item D)} (xs : Cells D) (s : Ptr) → Linked h xs s → SameOn xs h g → Linked g xs s
  Linked-frame [] s ch same = tt
  Linked-frame (c ∷ cs) s (ne, e, ch) same =
      (ne, ground (arith, same c.0), Linked-frame cs s ch (λ a o. same a (ground arith)))

  -- A write outside a list leaves it alone.
  pub Linked-write :
      (h : Heap (Item D)) (xs : Cells D) (s p : Ptr) (c : Option (Item D))
      → Linked h xs s
      → owns xs p ≡ false
      → Linked (write h p c) xs s
  unfolding write
  Linked-write h xs s p c ch out = Linked-frame xs s ch (λ a o. ground arith)

  pub Linked-split :
      (h : Heap (Item D)) (xs ys : Cells D) (s : Ptr)
      → Linked h (xs ++ ys) s
      → Linked h xs (first ys s) × Linked h ys s
  Linked-split h [] ys s ch = (tt, ch)
  Linked-split h (c ∷ []) ys s (ne, e, ch) = ((ne, e, tt), ch)
  Linked-split h (c ∷ d ∷ ds) ys s (ne, e, ch) =
      let (left, right) = Linked-split h (d ∷ ds) ys s ch in ((ne, e, left), right)

  pub Linked-join :
      (h : Heap (Item D)) (xs ys : Cells D) (s : Ptr)
      → Linked h xs (first ys s)
      → Linked h ys s
      → Linked h (xs ++ ys) s
  Linked-join h [] ys s left right = right
  Linked-join h (c ∷ []) ys s (ne, e, left) right = (ne, e, right)
  Linked-join h (c ∷ d ∷ ds) ys s (ne, e, left) right =
      (ne, e, Linked-join h (d ∷ ds) ys s left right)

  -- The last node, and what is left when it is given another successor.
  pub Linked-last :
      (h : Heap (Item D)) (c : Ptr × D) (cs : Cells D) (s : Ptr)
      → Linked h (c ∷ cs) s
      → Distinct (c ∷ cs)
      → let l = last c.0 cs in
        (l ≢ null)
        × (n : Item D) × (h l ≡ some n)
        × (n.next ≡ s)
        × ((s' : Ptr) → Linked (write h l (some (record n { next = s' }))) (c ∷ cs) s')
  Linked-last h c [] s (ne, e, ch) d = (ne, item c.1 s, e, refl, λ s'. (ne, write_self h c.0 _, tt))
  Linked-last h c (d ∷ ds) s (ne, e, ch) (out, dist) =
      let (ne', n, holds, stop, relink) = Linked-last h d ds s ch dist in
      let apart : c.0 ≢ last d.0 ds =
        (λ q. owned-ne (d ∷ ds) _ c.0 (last-owned d ds) out (sym q)) in
      (ne', n, holds, stop, λ s'. (ne, write_other h (last d.0 ds) c.0 _ apart ∙ e, relink s'))

  -- An address that holds no node is none of a list's.
  pub not-owned_of_none :
      (h : Heap (Item D)) (xs : Cells D) (s a : Ptr)
      → Linked h xs s
      → h a ≡ none
      → owns xs a ≡ false
  not-owned_of_none h [] s a ch free = refl
  not-owned_of_none h (c ∷ cs) s a (ne, e, ch) free =
      rw (ne→== a c.0 (λ q. ground (arith, ap h q))) (not-owned_of_none h cs s a ch free)
