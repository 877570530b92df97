-- ===== src/Ring/Chain.antt =====
-- Which nodes a ring consists of: doubly linked runs of nodes, and runs closed to a circle.
use psis_project.Base.{◌≡◌, ◌≢◌, some, [], ◌∷◌, ◌++◌, arith}
use psis_project.Heap.{Ptr, null, Heap}
use psis_project.Cells.{Cells, Distinct, SameOn, first, last}
use psis_project.Ring.{Item, item}

module _ {D : Type 0} where
  -- The nodes `xs` are linked both ways; the first points back to `before`, the last on to `stop`.
  abbrev pub Chain : Heap (Item D) → Ptr → Cells D → Ptr → Type 0
  Chain h before [] stop = Unit {0}
  Chain h before (c ∷ cs) stop =
      (c.0 ≢ null) × (h c.0 ≡ some (item c.1 (first cs stop) before)) × Chain h c.0 cs stop

  -- A run of distinct nodes closed to a circle.
  abbrev pub Circle : Heap (Item D) → Cells D → Type 0
  Circle h [] = Unit {0}
  Circle h (c ∷ cs) = Chain h (last c.0 cs) (c ∷ cs) c.0 × Distinct (c ∷ cs)

  -- `root` is the `item_r *` of a ring that holds `xs` in this order.
  abbrev pub IsRing : Heap (Item D) → Ptr → Cells D → Type 0
  IsRing h root xs = (root ≡ first xs null) × Circle h xs

  -- A circle seen as a run, also where it is empty.
  pub Circle-open :
      (h : Heap (Item D)) (xs : Cells D)
      → Circle h xs
      → Chain h (last null xs) xs (first xs null) × Distinct xs
  Circle-open h [] circle = (tt, tt)
  Circle-open h (c ∷ cs) circle = circle

  pub Chain-frame :
      {h g : Heap (Item D)} (b : Ptr) (xs : Cells D) (s : Ptr)
      → Chain h b xs s
      → SameOn xs h g
      → Chain g b xs s
  Chain-frame b [] s ch same = tt
  Chain-frame b (c ∷ cs) s (ne, e, ch) same =
      (ne, ground (arith, same c.0), Chain-frame c.0 cs s ch (λ a o. same a (ground arith)))

  pub Chain-split :
      (h : Heap (Item D)) (b : Ptr) (xs ys : Cells D) (s : Ptr)
      → Chain h b (xs ++ ys) s
      → Chain h b xs (first ys s) × Chain h (last b xs) ys s
  Chain-split h b [] ys s ch = (tt, ch)
  Chain-split h b (c ∷ []) ys s (ne, e, ch) = ((ne, e, tt), ch)
  Chain-split h b (c ∷ d ∷ ds) ys s (ne, e, ch) =
      let (left, right) = Chain-split h c.0 (d ∷ ds) ys s ch in ((ne, e, left), right)

  pub Chain-join :
      (h : Heap (Item D)) (b : Ptr) (xs ys : Cells D) (s : Ptr)
      → Chain h b xs (first ys s)
      → Chain h (last b xs) ys s
      → Chain h b (xs ++ ys) s
  Chain-join h b [] ys s left right = right
  Chain-join h b (c ∷ []) ys s (ne, e, left) right = (ne, e, right)
  Chain-join h b (c ∷ d ∷ ds) ys s (ne, e, left) right =
      (ne, e, Chain-join h c.0 (d ∷ ds) ys s left right)
