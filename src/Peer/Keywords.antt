-- ===== src/Peer/Keywords.antt =====
-- `add_keyword` of peer.c on the list of photos.
use psis_project.Base.{
  some, ◌<◌, ℕ, ◌≡◌, refl, ◌∙◌, ap, subst, ℤ, pos, negsuc, false, [], ◌∷◌, ◌++◌, ◌==◌, ltb,
  if◌then◌else◌, length, length-append, arith, ◌⊎◌, inl, inr, Bool-cases, ne→==,
}
use psis_project.Machine.{ok}
use psis_project.Heap.{Ptr, null, Heap, load-ok, modify-ok, write, write_self}
use psis_project.Cells.{Cells, first, find, Distinct-split, Distinct-append, Apart-sym, first-owned}
use psis_project.LinkedList.{Item, item}
use psis_project.LinkedList.Linked.{IsList, Linked-write, Linked-split, Linked-join}
use psis_project.LinkedList.Walk.{list_search-find, list_print-contents}
use psis_project.Text.{Text}
use psis_project.Photos.{Data, equal_data, search_keyword, store_keyword}
use psis_project.Peer.{Peer, Answers, key, lock_photos, unlock_photos, print_photos, insert_keyword}

-- What becomes of the photo itself: the answer, and the photo.
abbrev pub photo_answer : Text → Data → ℤ × Data
photo_answer keyword k =
    if ltb k.n_keywords 20
    then if search_keyword k keyword then (negsuc 2, k) else (pos 1, store_keyword keyword k)
    else (negsuc 0, k)

-- What becomes of the list of photos: the first one with this id gets the keyword.
abbrev pub list_answer : ℕ → Text → Cells Data → ℤ × Cells Data
list_answer id keyword [] = (negsuc 1, [])
list_answer id keyword (c ∷ cs) =
    let r = photo_answer keyword c.1 in
    let rest = list_answer id keyword cs in
    if c.1.id == id then (r.0, (c.0, r.1) ∷ cs) else (rest.0, c ∷ rest.1)

abbrev Missing : Cells Data → ℕ → Text → Type 0
Missing xs id keyword =
    (find equal_data (key id) xs ≡ null) × (list_answer id keyword xs ≡ (negsuc 1, xs))

abbrev Present : Cells Data → ℕ → Text → Type 0
Present xs id keyword =
    (front : Cells Data) × (c : Ptr × Data) × (back : Cells Data) × (xs ≡ front ++ c ∷ back)
    × (find equal_data (key id) xs ≡ c.0)
    × (list_answer id keyword xs
        ≡ ((photo_answer keyword c.1).0, front ++ (c.0, (photo_answer keyword c.1).1) ∷ back))

find-cases :
    (xs : Cells Data) (id : ℕ) (keyword : Text) → Missing xs id keyword ⊎ Present xs id keyword
find-cases [] id keyword = inl (refl, refl)
find-cases (c ∷ cs) id keyword = elim (Bool-cases (c.1.id == id)) [
  | inl hit ↦ inr ([], c, cs, refl, rw hit refl, rw hit refl)
  | inr miss ↦ elim (find-cases cs id keyword) [
    | inl (none_found, same) ↦ inl (rw (miss, none_found) refl, rw (miss, same) refl)
    | inr (front, d, back, e, found, answer) ↦
        inr (c ∷ front, d, back, ap (λ r. c ∷ r) e, rw (miss, found) refl, rw (miss, answer) refl)
  ]
]

module _ (fuel : ℕ) (net : Answers) where
  pub print_photos-free :
      (s : Peer) (xs : Cells Data)
      → IsList s.photos s.photo_list xs
      → s.photo_lock ≡ false
      → length xs < fuel
      → print_photos fuel net s ≡ ok tt (record s { photo_lock = false })
  unfolding print_photos lock_photos unlock_photos
  print_photos-free s xs is free enough =
      rw (free, list_print-contents fuel s.photos s.photo_list xs is enough)

  -- The keyword is stored in a photo of the list.
  replaced :
      (h : Heap (Item Data)) (root : Ptr) (front back : Cells Data) (c : Ptr × Data) (k : Data)
      → IsList h root (front ++ c ∷ back)
      → IsList (write h c.0 (some (item k (first back null)))) root (front ++ (c.0, k) ∷ back)
  replaced h root front back c k (e, ch, dist) =
      let (left, (ne, holds, right)) = Linked-split h front (c ∷ back) null ch in
      let (df, (out, db), apart) = Distinct-split front (c ∷ back) dist in
      let new = some (item k (first back null)) in
      (
        e ∙ same_first front,
        Linked-join (write h c.0 new) front ((c.0, k) ∷ back) null
            (Linked-write h front c.0 c.0 new left
              (Apart-sym front (c ∷ back) apart c.0 (first-owned c back)))
            (ne, write_self h c.0 new, Linked-write h back null c.0 new right out),
        Distinct-append front ((c.0, k) ∷ back) df (out, db) apart,
      )
    where
      same_first :
          (xs : Cells Data) → first (xs ++ c ∷ back) null ≡ first (xs ++ (c.0, k) ∷ back) null
      same_first [] = refl
      same_first (x ∷ xs) = refl

  -- `add_keyword` of a peer does to the list of photos what the abstract `list_answer` says:
  -- no photo with this id, -2; its 20 keywords are full, -1; it has this keyword, -3, each
  -- without a change; otherwise 1, and the keyword becomes the photo's last one. The mutex is
  -- free again. (The list is well formed, the mutex was free, and the fuel exceeds the number
  -- of photos.)
  pub insert_keyword-answer :
      (s : Peer) (xs : Cells Data) (id : ℕ) (keyword : Text)
      → IsList s.photos s.photo_list xs
      → s.photo_lock ≡ false
      → length xs < fuel
      → let r = list_answer id keyword xs in
        (h : Heap (Item Data)) × (insert_keyword fuel net id keyword s
          ≡ ok r.0 (record s { photos = h; photo_lock = false }))
        × IsList h s.photo_list r.1
  unfolding insert_keyword lock_photos unlock_photos
  insert_keyword-answer s xs id keyword is free enough =
      let found_at =
        list_search-find equal_data fuel s.photos s.photo_list xs (key id) is (omega arith) in
      elim (find-cases xs id keyword) [
        | inl (none_found, same) ↦
            (s.photos, rw (free, found_at, none_found, same) refl, rw same is)
        | inr (front, c, back, e, found, answer) ↦
            let is' = subst (IsList s.photos s.photo_list) e is in
            let (_, (ne, holds, _)) = Linked-split s.photos front (c ∷ back) null is'.1 in
            elim (Bool-cases (ltb c.1.n_keywords 20)) [
              | inr full ↦ (
                s.photos,
                rw
                    (
                      free,
                      found_at,
                      found,
                      ne→== c.0 null ne,
                      load-ok s.photos ne holds,
                      answer,
                      full,
                    )
                    refl,
                rw (answer, full) is',
              )
              | inl space ↦ elim (Bool-cases (search_keyword c.1 keyword)) [
                | inl known ↦ (
                  s.photos,
                  rw
                      (
                        free,
                        found_at,
                        found,
                        ne→== c.0 null ne,
                        load-ok s.photos ne holds,
                        answer,
                        space,
                        known,
                      )
                      refl,
                  rw (answer, space, known) is',
                )
                | inr fresh ↦
                    let k = store_keyword keyword c.1 in
                    let ring = replaced s.photos s.photo_list front back c k is' in
                    let h = write s.photos c.0 (some (item k (first back null))) in
                    let s1 = record s { photos = h; photo_lock = false } in
                    let few : length (front ++ (c.0, k) ∷ back) < fuel = omega (
                      arith,
                      ap length e,
                      length-append {0} front (c ∷ back),
                      length-append {0} front ((c.0, k) ∷ back),
                    ) in
                    (
                      h,
                      rw
                          (
                            free,
                            found_at,
                            found,
                            ne→== c.0 null ne,
                            load-ok s.photos ne holds,
                            answer,
                            space,
                            fresh,
                            modify-ok s.photos ne holds,
                            print_photos-free s1 (front ++ (c.0, k) ∷ back) ring refl few,
                          )
                          refl,
                      rw (answer, space, fresh) ring,
                    )
              ]
            ]
      ]
