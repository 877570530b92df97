-- ===== src/LinkedList/Walk.antt =====
-- The functions of linked_list.c that walk along the list: `list_search`, `list_count`,
-- `list_print` and `list_free`.
use psis_project.Base.{
  ◌≡◌, refl, ◌∙◌, ap, Bool, none, [], ◌∷◌, arith, ne→==, ℕ, zero, suc, ◌+◌, ◌≤◌, ◌<◌, inl, inr,
  Bool-cases, length,
}
use psis_project.Machine.{ok}
use psis_project.Machine.Returns
use psis_project.Machine.Returns.{Returns, returns}
use psis_project.Heap.{Ptr, null, Heap, write, load-ok, free-ok}
use psis_project.Cells.{Cells, Distinct, first, contents, find, Without}
use psis_project.LinkedList.{
  Item, search_loop, list_search, count_loop, list_count, list_print, list_free,
}
use psis_project.LinkedList.Linked.{Linked, IsList, Linked-write}

module _ {D : Type 0} where
  search_loop-find :
      (equal : D → D → Bool) (fuel : ℕ) (h : Heap (Item D)) (k : D) (c : Ptr × D) (cs : Cells D)
      → Linked h (c ∷ cs) null
      → length cs < fuel
      → search_loop equal fuel c.0 k h ≡ ok (find equal k (c ∷ cs)) h
  unfolding search_loop
  search_loop-find equal zero h k c cs ch enough = absurd (omega arith)
  search_loop-find equal (suc fuel) h k c [] (ne, e, ch) enough = rw (load-ok h ne e) (ground arith)
  search_loop-find equal (suc fuel) h k c (d ∷ ds) (ne, e, ch) enough =
      rw (load-ok h ne e, ne→== d.0 null ch.0)
        (elim (Bool-cases (equal c.1 k)) [
          | inl hit ↦ rw hit
          | inr miss ↦ rw miss (search_loop-find equal fuel h k d ds ch (omega arith))
        ])

  -- `list_search` on a well-formed list returns the address of the first node whose data equal
  -- `K`, and `NULL` if there is none; it changes nothing. The fuel is at least the number of
  -- nodes.
  pub list_search-find :
      (equal : D → D → Bool) (fuel : ℕ) (h : Heap (Item D)) (root : Ptr) (xs : Cells D) (k : D)
      → IsList h root xs
      → length xs ≤ fuel
      → list_search equal fuel root k h ≡ ok (find equal k xs) h
  unfolding list_search
  list_search-find equal fuel h root [] k (e, _, _) enough = rw e
  list_search-find equal fuel h root (c ∷ cs) k (e, ch, dist) enough =
      rw (e, ne→== c.0 null ch.0) (search_loop-find equal fuel h k c cs ch (omega arith))

  count_loop-length :
      (fuel : ℕ) (h : Heap (Item D)) (n : ℕ) (c : Ptr × D) (cs : Cells D)
      → Linked h (c ∷ cs) null
      → length cs < fuel
      → count_loop fuel c.0 n h ≡ ok (n + length cs) h
  unfolding count_loop
  count_loop-length zero h n c cs ch enough = absurd (omega arith)
  count_loop-length (suc fuel) h n c [] (ne, e, ch) enough =
      rw (load-ok h ne e) (ap (λ m. ok m h) (omega arith))
  count_loop-length (suc fuel) h n c (d ∷ ds) (ne, e, ch) enough =
      rw (load-ok h ne e, ne→== d.0 null ch.0)
        (count_loop-length fuel h (n + 1) d ds ch (omega arith) ∙ ap (λ m. ok m h) (omega arith))

  -- `list_count` returns the number of nodes and changes nothing.
  pub list_count-length :
      (fuel : ℕ) (h : Heap (Item D)) (root : Ptr) (xs : Cells D)
      → IsList h root xs
      → length xs ≤ fuel
      → list_count fuel root h ≡ ok (length xs) h
  unfolding list_count
  list_count-length fuel h root [] (e, _, _) enough = rw e
  list_count-length fuel h root (c ∷ cs) (e, ch, dist) enough =
      rw (e, ne→== c.0 null ch.0)
        (count_loop-length fuel h 1 c cs ch (omega arith) ∙ ap (λ m. ok m h) (omega arith))

  print-contents :
      (fuel : ℕ) (h : Heap (Item D)) (xs : Cells D)
      → Linked h xs null
      → length xs < fuel
      → list_print fuel (first xs null) h ≡ ok (contents xs) h
  unfolding list_print
  print-contents zero h xs ch enough = absurd (omega arith)
  print-contents (suc fuel) h [] ch enough = refl
  print-contents (suc fuel) h (c ∷ cs) (ne, e, ch) enough =
      rw (ne→== c.0 null ne, load-ok h ne e, print-contents fuel h cs ch (omega arith))

  -- `list_print` prints the data of every node once, in order, and changes nothing.
  pub list_print-contents :
      (fuel : ℕ) (h : Heap (Item D)) (root : Ptr) (xs : Cells D)
      → IsList h root xs
      → length xs < fuel
      → list_print fuel root h ≡ ok (contents xs) h
  list_print-contents fuel h root xs (e, ch, dist) enough =
      rw e (print-contents fuel h xs ch enough)

  free-Without :
      (fuel : ℕ) (h : Heap (Item D)) (xs : Cells D)
      → Linked h xs null
      → Distinct xs
      → length xs < fuel
      → Returns (λ _ g. Without xs h g) (list_free fuel (first xs null) h)
  unfolding list_free write
  free-Without zero h xs ch dist enough = absurd (omega arith)
  free-Without (suc fuel) h [] ch dist enough = returns (λ a. refl)
  free-Without (suc fuel) h (c ∷ cs) (ne, e, ch) (out, dist) enough =
      rw (ne→== c.0 null ne, load-ok h ne e, free-ok h ne e)
        (Returns.mono
          (free-Without fuel (write h c.0 none) cs (Linked-write h cs null c.0 none ch out) dist
            (omega arith))
          λ _ g gone a. ground (arith, gone a))

  -- `list_free` on a well-formed list comes to its end, once the fuel exceeds the number of
  -- nodes: it frees every node of the list, no other, touches no other, and does not follow a
  -- freed node.
  pub list_free-Without :
      (fuel : ℕ) (h : Heap (Item D)) (root : Ptr) (xs : Cells D)
      → IsList h root xs
      → length xs < fuel
      → Returns (λ _ g. Without xs h g) (list_free fuel root h)
  list_free-Without fuel h root xs (e, ch, dist) enough =
      rw e (free-Without fuel h xs ch dist enough)
