-- ===== src/Peer/Bounds.antt =====
-- The array of keywords of a photo under `add_keyword` of peer.c.
use psis_project.Base.{
  ℕ, zero, suc, ◌+◌, ◌<◌, ◌≤◌, ◌≡◌, refl, ap, ◌∙◌, subst, ℤ, true, false, [], ◌∷◌, ◌==◌, ltb,
  if◌then◌else◌, length, arith, inl, inr, Bool-cases, eq→==,
}
use psis_project.Machine.{ok}
use psis_project.Heap.{Heap}
use psis_project.Cells.{Cells}
use psis_project.LinkedList.{Item}
use psis_project.LinkedList.Linked.{IsList}
use psis_project.Text.{Text, text_eq, text_eq_refl}
use psis_project.Photos.{Data, keyword_loop, search_keyword, store_keyword}
use psis_project.Peer.{Peer, Answers, insert_keyword}
use psis_project.Peer.Keywords.{photo_answer, list_answer, insert_keyword-answer}

-- No photo has more keywords than its array has room for.
abbrev pub Bounded : Cells Data → Type 0
Bounded [] = Unit {0}
Bounded (c ∷ cs) = (c.1.n_keywords ≤ 20) × Bounded cs

photo_answer-within :
    (keyword : Text) (k : Data) → k.n_keywords ≤ 20 → (photo_answer keyword k).1.n_keywords ≤ 20
unfolding store_keyword
photo_answer-within keyword k h = elim (Bool-cases (ltb k.n_keywords 20)) [
  | inr full ↦ rw full h
  | inl space ↦ elim (Bool-cases (search_keyword k keyword)) [
    | inl known ↦ rw (space, known) h
    | inr fresh ↦ rw (space, fresh) (ground arith)
  ]
]

list_answer-Bounded :
    (id : ℕ) (keyword : Text) (xs : Cells Data) → Bounded xs → Bounded (list_answer id keyword xs).1
list_answer-Bounded id keyword [] h = tt
list_answer-Bounded id keyword (c ∷ cs) (here, rest) = elim (Bool-cases (c.1.id == id)) [
  | inl hit ↦ rw hit (photo_answer-within keyword c.1 here, rest)
  | inr miss ↦ rw miss (here, list_answer-Bounded id keyword cs rest)
]

module _ (fuel : ℕ) (net : Answers) where
  -- If no photo of a well-formed list has more than the 20 keywords that its array has room
  -- for, then after `add_keyword` has searched and inserted none has, and the list is well
  -- formed again. (The mutex was free, and the fuel exceeds the number of photos.)
  pub insert_keyword-Bounded :
      (s : Peer) (xs : Cells Data) (id : ℕ) (keyword : Text)
      → IsList s.photos s.photo_list xs
      → s.photo_lock ≡ false
      → length xs < fuel
      → Bounded xs
      → (answer : ℤ) × (h : Heap (Item Data)) × (ys : Cells Data) × (insert_keyword fuel net id
            keyword s
          ≡ ok answer (record s { photos = h; photo_lock = false }))
        × IsList h s.photo_list ys
        × Bounded ys
  insert_keyword-Bounded s xs id keyword is free enough bounded =
      let r = list_answer id keyword xs in
      let (h, run, list) = insert_keyword-answer fuel net s xs id keyword is free enough in
      (r.0, h, r.1, run, list, list_answer-Bounded id keyword xs bounded)

-- The loop finds the keyword that stands `left` places ahead.
keyword_loop-last :
    (left i n : ℕ) (keywords : ℕ → Text) (keyword : Text)
    → n ≡ left + i
    → text_eq (keywords n) keyword ≡ true
    → keyword_loop (suc left) i keywords keyword ≡ true
keyword_loop-last zero i n keywords keyword e here =
    let same : n ≡ i = omega arith in
    rw (subst (λ m. text_eq (keywords m) keyword ≡ true) same here) refl
keyword_loop-last (suc left) i n keywords keyword e here =
    elim (Bool-cases (text_eq (keywords i) keyword)) [
      | inl q ↦ rw q refl
      | inr q ↦ rw q (keyword_loop-last left (suc i) n keywords keyword (omega arith) here)
    ]

-- A keyword that has been stored in a photo is found by `search_keyword`.
pub search_keyword-store_keyword :
    (keyword : Text) (k : Data) → search_keyword (store_keyword keyword k) keyword ≡ true
unfolding search_keyword store_keyword
search_keyword-store_keyword keyword k =
    let n = k.n_keywords in
    let keywords : ℕ → Text = (λ i. if i == n then keyword else k.keyword i) in
    let more : n + 1 ≡ suc n = omega arith in
    ap (λ m. keyword_loop m 0 keywords keyword) more
    ∙ keyword_loop-last n 0 n keywords keyword (omega arith)
        (rw (eq→== n n refl, text_eq_refl) refl)
