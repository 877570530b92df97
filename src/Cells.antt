-- ===== src/Cells.antt =====
-- The nodes of a linked structure in memory: the address and the data of each, in order.
use psis_project.Base.{length, ◌≤◌}
use psis_project.Base.{
  ◌≡◌, ◌≢◌, refl, ap, Bool, true, false, ◌||◌, none, List, [], ◌∷◌, ◌++◌, arith, ◌==◌,
  if◌then◌else◌, map,
}
use psis_project.Heap.{Ptr, null, Heap}

abbrev pub Cells : Type 0 → Type 0
Cells D = List (Ptr × D)

module _ {D : Type 0} where
  abbrev pub owns : Cells D → Ptr → Bool
  owns [] a = false
  owns (c ∷ cs) a = (a == c.0) || owns cs a

  abbrev pub Distinct : Cells D → Type 0
  Distinct [] = Unit {0}
  Distinct (c ∷ cs) = (owns cs c.0 ≡ false) × Distinct cs

  -- The two heaps agree on the nodes of `xs`; they agree on all other addresses.
  abbrev pub SameOn : {N : Type 0} → Cells D → Heap N → Heap N → Type 0
  SameOn xs h g = (a : Ptr) → owns xs a ≡ true → g a ≡ h a

  abbrev pub SameOutside : {N : Type 0} → Cells D → Heap N → Heap N → Type 0
  SameOutside xs h g = (a : Ptr) → owns xs a ≡ false → g a ≡ h a

  abbrev pub Apart : Cells D → Cells D → Type 0
  Apart xs ys = (a : Ptr) → owns xs a ≡ true → owns ys a ≡ false

  -- `g` is `h` without the nodes of `xs`.
  abbrev pub Without : {N : Type 0} → Cells D → Heap N → Heap N → Type 0
  Without xs h g = (a : Ptr) → g a ≡ (if owns xs a then none else h a)

  -- Where a run that ends at `stop` begins, and where one that begins behind `before` ends.
  abbrev pub first : Cells D → Ptr → Ptr
  first [] stop = stop
  first (c ∷ cs) stop = c.0

  abbrev pub last : Ptr → Cells D → Ptr
  last before [] = before
  last before (c ∷ cs) = last c.0 cs

  pub freed_at :
      {N : Type 0} (g : Heap N) (b a : Ptr) (rest : Cells D)
      → g b ≡ none
      → ((a == b) || owns rest a) ≡ true
      → owns rest a ≡ false
      → g a ≡ none
  freed_at g b a rest freed o out = ground (arith, ap g)

  pub Apart-sym : (xs ys : Cells D) → Apart xs ys → Apart ys xs
  Apart-sym xs ys apart a i = ground (arith, apart a)

  pub owned-ne : (xs : Cells D) (a b : Ptr) → owns xs a ≡ true → owns xs b ≡ false → a ≢ b
  owned-ne xs a b i o e = ground (arith, ap (owns xs) e)

  pub not-owned_cons :
      (c : Ptr × D) (cs : Cells D) (a : Ptr)
      → owns (c ∷ cs) a ≡ false
      → (c.0 ≢ a) × (owns cs a ≡ false)
  not-owned_cons c cs a out = ground arith

  pub owns-append : (xs ys : Cells D) (a : Ptr) → owns (xs ++ ys) a ≡ (owns xs a || owns ys a)
  owns-append [] ys a = refl
  owns-append (x ∷ xs) ys a = ground (arith, owns-append xs ys a)

  pub owns_left : (xs ys : Cells D) (a : Ptr) → owns xs a ≡ true → owns (xs ++ ys) a ≡ true
  owns_left xs ys a i = ground (arith, owns-append xs ys a)

  pub owns_right : (xs ys : Cells D) (a : Ptr) → owns ys a ≡ true → owns (xs ++ ys) a ≡ true
  owns_right xs ys a i = ground (arith, owns-append xs ys a)

  -- The root is one of the run's nodes.
  pub first-owned : (c : Ptr × D) (cs : Cells D) → owns (c ∷ cs) c.0 ≡ true
  first-owned c cs = ground arith

  pub owns-swap : (xs ys : Cells D) (a : Ptr) → owns (xs ++ ys) a ≡ owns (ys ++ xs) a
  owns-swap xs ys a = ground (arith, owns-append xs ys a, owns-append ys xs a)

  pub first-snoc : (xs : Cells D) (c : Ptr × D) (s t : Ptr) → first (xs ++ c ∷ []) s ≡ first xs c.0
  first-snoc [] c s t = refl
  first-snoc (x ∷ xs) c s t = refl

  pub last-snoc : (b : Ptr) (xs : Cells D) (c : Ptr × D) → last b (xs ++ c ∷ []) ≡ c.0
  last-snoc b [] c = refl
  last-snoc b (x ∷ xs) c = last-snoc x.0 xs c

  pub last-append : (b : Ptr) (xs ys : Cells D) → last b (xs ++ ys) ≡ last (last b xs) ys
  last-append b [] ys = refl
  last-append b (x ∷ xs) ys = last-append x.0 xs ys

  -- The last node is one of the run's.
  pub last-owned : (c : Ptr × D) (cs : Cells D) → owns (c ∷ cs) (last c.0 cs) ≡ true
  last-owned c [] = ground arith
  last-owned c (d ∷ ds) = ground (arith, last-owned d ds)

  pub Distinct-append :
      (xs ys : Cells D) → Distinct xs → Distinct ys → Apart xs ys → Distinct (xs ++ ys)
  Distinct-append [] ys dx dy apart = dy
  Distinct-append (c ∷ cs) ys dx dy apart = (
    ground (arith, owns-append cs ys c.0, apart c.0),
    Distinct-append cs ys dx.1 dy (λ a o. apart a (ground arith)),
  )

  pub Distinct-split :
      (xs ys : Cells D) → Distinct (xs ++ ys) → Distinct xs × Distinct ys × Apart xs ys
  Distinct-split [] ys d = (tt, d, λ a o. absurd (cc))
  Distinct-split (c ∷ cs) ys d =
      let (dx, dy, apart) = Distinct-split cs ys d.1 in
      (
        (ground (arith, owns-append cs ys c.0), dx),
        dy,
        λ a o. ground (arith, owns-append cs ys c.0, apart a),
      )

  -- The data of the nodes, in order.
  abbrev pub contents : Cells D → List D
  contents = map λ c. c.1

  -- The address of the first node whose data equal `k`, or `NULL`.
  abbrev pub find : (D → D → Bool) → D → Cells D → Ptr
  find equal k [] = null
  find equal k (c ∷ cs) = if equal c.1 k then c.0 else find equal k cs

module _ {D : Type 0} (equal : D → D → Bool) where
  abbrev pub contains : D → Cells D → Bool
  contains k [] = false
  contains k (c ∷ cs) = equal c.1 k || contains k cs

  -- The list without its first entry that equals `k`.
  abbrev pub erase : D → Cells D → Cells D
  erase k [] = []
  erase k (c ∷ cs) = if equal c.1 k then cs else c ∷ erase k cs

  pub length-erase-le : (k : D) (xs : Cells D) → length (erase k xs) ≤ length xs
  length-erase-le k [] = omega arith
  length-erase-le k (c ∷ cs) = ground (arith, length-erase-le k cs)
