-- ===== src/Ring/Walk.antt =====
-- The functions of ring_list.c that walk once round the ring and write nothing: `ring_search`,
-- `ring_count` and `ring_print`.
use psis_project.Base.{
  ◌≡◌, ◌≢◌, refl, ◌∙◌, ap, Bool, false, Option, some, none, List, [], ◌∷◌, arith, ne→==, eq→==, ℕ,
  zero, suc, ◌+◌, ◌≤◌, ◌<◌, inl, inr, Bool-cases, length,
}
use psis_project.Machine.{ok}
use psis_project.Heap.{Ptr, null, Heap, load-ok}
use psis_project.Ring.{
  Item, search_loop, ring_search, count_loop, ring_count, print_loop, ring_print,
}
use psis_project.Cells.{Cells, owns, first, contents, find}
use psis_project.Ring.Chain.{Chain, IsRing}

module _ {D : Type 0} where
  search_loop-find :
      (equal : D → D → Bool) (fuel : ℕ) (h : Heap (Item D)) (root b : Ptr) (k : D) (c : Ptr × D)
      (cs : Cells D)
      → Chain h b (c ∷ cs) root
      → owns cs root ≡ false
      → length cs < fuel
      → search_loop equal fuel root c.0 k h ≡ ok (find equal k (c ∷ cs)) h
  unfolding search_loop
  search_loop-find equal zero h root b k c cs ch out enough = absurd (omega arith)
  search_loop-find equal (suc fuel) h root b k c [] (ne, e, ch) out enough =
      rw (load-ok h ne e, eq→== root root refl) (ground arith)
  search_loop-find equal (suc fuel) h root b k c (d ∷ ds) (ne, e, ch) out enough =
      let on : d.0 ≢ root = ground arith in
      rw (load-ok h ne e, ne→== d.0 root on)
        (elim (Bool-cases (equal c.1 k)) [
          | inl hit ↦ rw hit
          | inr miss ↦
              rw miss
                (search_loop-find equal fuel h root c.0 k d ds ch (ground arith) (omega arith))
        ])

  -- `ring_search` on a well-formed ring returns the address of the first node whose data equal
  -- `K`, and `NULL` if there is none; it changes nothing. The fuel is at least the number of
  -- nodes.
  pub ring_search-find :
      (equal : D → D → Bool) (fuel : ℕ) (h : Heap (Item D)) (root : Ptr) (xs : Cells D) (k : D)
      → IsRing h root xs
      → length xs ≤ fuel
      → ring_search equal fuel root k h ≡ ok (find equal k xs) h
  unfolding ring_search
  ring_search-find equal fuel h root [] k (e, _) enough = rw e
  ring_search-find equal fuel h root (c ∷ cs) k (e, (ch, dist)) enough =
      rw (e, ne→== c.0 null ch.0)
        (search_loop-find equal fuel h c.0 _ k c cs ch dist.0 (omega arith))

  count_loop-length :
      (fuel : ℕ) (h : Heap (Item D)) (root b : Ptr) (n : ℕ) (c : Ptr × D) (cs : Cells D)
      → Chain h b (c ∷ cs) root
      → owns cs root ≡ false
      → length cs < fuel
      → count_loop fuel root c.0 n h ≡ ok (n + length cs) h
  unfolding count_loop
  count_loop-length zero h root b n c cs ch out enough = absurd (omega arith)
  count_loop-length (suc fuel) h root b n c [] (ne, e, ch) out enough =
      rw (load-ok h ne e, eq→== root root refl) (ap (λ m. ok m h) (omega arith))
  count_loop-length (suc fuel) h root b n c (d ∷ ds) (ne, e, ch) out enough =
      let on : d.0 ≢ root = ground arith in
      rw (load-ok h ne e, ne→== d.0 root on)
        (count_loop-length fuel h root c.0 (n + 1) d ds ch (ground arith) (omega arith)
          ∙ ap (λ m. ok m h) (omega arith))

  -- `ring_count` returns the number of nodes and changes nothing.
  pub ring_count-length :
      (fuel : ℕ) (h : Heap (Item D)) (root : Ptr) (xs : Cells D)
      → IsRing h root xs
      → length xs ≤ fuel
      → ring_count fuel root h ≡ ok (length xs) h
  unfolding ring_count
  ring_count-length fuel h root [] (e, _) enough = rw e
  ring_count-length fuel h root (c ∷ cs) (e, (ch, dist)) enough =
      rw (e, ne→== c.0 null ch.0)
        (count_loop-length fuel h c.0 _ 1 c cs ch dist.0 (omega arith)
          ∙ ap (λ m. ok m h) (omega arith))

  print_loop-contents :
      (fuel : ℕ) (h : Heap (Item D)) (root b : Ptr) (cs : Cells D)
      → Chain h b cs root
      → owns cs root ≡ false
      → length cs < fuel
      → print_loop fuel root (first cs root) h ≡ ok (contents cs) h
  unfolding print_loop
  print_loop-contents zero h root b cs ch out enough = absurd (omega arith)
  print_loop-contents (suc fuel) h root b [] ch out enough = rw (eq→== root root refl)
  print_loop-contents (suc fuel) h root b (d ∷ ds) (ne, e, ch) out enough =
      let on : d.0 ≢ root = ground arith in
      rw (
        ne→== d.0 root on,
        load-ok h ne e,
        print_loop-contents fuel h root d.0 ds ch (ground arith) (omega arith),
      )

  -- What `ring_print` prints: the data of all nodes, each once, from the root on.
  abbrev pub printed : Cells D → Option (List D)
  printed [] = none
  printed (c ∷ cs) = some (contents (c ∷ cs))

  -- `ring_print` on a well-formed ring prints the data of every node once, from the root on,
  -- or the line for an empty list, and changes nothing. The fuel is at least the number of
  -- nodes.
  pub ring_print-printed :
      (fuel : ℕ) (h : Heap (Item D)) (root : Ptr) (xs : Cells D)
      → IsRing h root xs
      → length xs ≤ fuel
      → ring_print fuel root h ≡ ok (printed xs) h
  unfolding ring_print
  ring_print-printed fuel h root [] (e, _) enough = rw e
  ring_print-printed fuel h root (c ∷ cs) (e, (ch, dist)) enough = rw (
    e,
    ne→== c.0 null ch.0,
    load-ok h ch.0 ch.1,
    print_loop-contents fuel h c.0 c.0 cs ch.2 dist.0 (omega arith),
  )
