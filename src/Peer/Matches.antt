-- ===== src/Peer/Matches.antt =====
-- The list of matches of `search_photo` of peer.c: how it grows, and that its nodes are freed again.
use psis_project.Base.{
  ℕ, suc, ◌≡◌, ◌≢◌, refl, sym, ◌∙◌, ap, subst, true, false, none, List, [], ◌∷◌, ◌==◌,
  if◌then◌else◌, length, arith, Bool-cases, inl, inr, ne→==, eq→==,
}
use mathlib.Core.Bool.{true≢false}
use mathlib.Core.Path.{fun_ext}
use psis_project.Machine.{ok}
use psis_project.Machine.Returns
use psis_project.Machine.Returns.{Returns, returns}
use psis_project.Heap.{IsFresh, Ptr, Heap, Block, write}
use psis_project.Cells.{Cells, owns, SameOutside}
use psis_project.LinkedList.{Item, list_insert}
use psis_project.LinkedList.Linked.{IsList}
use psis_project.LinkedList.Ends.{list_insert-Inserted}
use psis_project.Text.{Text}
use psis_project.Photos.{Data, search_keyword}

-- The ids of the photos with the keyword, the last photo first, in front of `acc`.
abbrev pub found : Text → Cells Data → List ℕ → List ℕ
found keyword [] acc = acc
found keyword (c ∷ cs) acc =
    if search_keyword c.1 keyword then found keyword cs (c.1.id ∷ acc) else found keyword cs acc

abbrev pub ids : Cells Data → List ℕ
ids [] = []
ids (c ∷ cs) = c.1.id ∷ ids cs

abbrev pub blank : ℕ → Data
blank id = record { name = []; id = id; keyword = λ i. []; n_keywords = 0 }

-- The list `ys` of matches has grown to `zs`, by new nodes only, and nothing else was written to.
pub record Grown (h g : Heap (Item Data)) (p : Ptr) (ys zs : Cells Data) : Type 0 where
  pub list : IsList g p zs
  pub same : SameOutside zs h g
  pub new : (a : Ptr) → owns zs a ≡ true → owns ys a ≡ false → h a ≡ none
  pub kept : (a : Ptr) → owns ys a ≡ true → owns zs a ≡ true

-- One more node in front of the matches.
pub record Inserted (h g : Heap (Item Data)) (ys : Cells Data) (k : Data)
    (blocks : ℕ → Block (Item Data)) : Type 0 where
  pub list : IsList g (blocks 0).address (((blocks 0).address, k) ∷ ys)
  pub same : (a : Ptr) → a ≢ (blocks 0).address → g a ≡ h a
  pub fresh : IsFresh g (λ i. blocks (suc i))

pub list_insert-Fresh :
    (h : Heap (Item Data)) (p : Ptr) (ys : Cells Data) (k : Data) (blocks : ℕ → Block (Item Data))
    → IsList h p ys
    → IsFresh h blocks
    → (g : Heap (Item Data)) × (list_insert (blocks 0) p k h ≡ ok (blocks 0).address g)
      × Inserted h g ys k blocks
list_insert-Fresh h p ys k blocks is fresh =
    elim (list_insert-Inserted h p ys (blocks 0) k is (fresh.unused 0)) [
      | inl (none_left, _) ↦ absurd (fresh.not_null 0 none_left)
      | inr inserted ↦
          let (q, g, run, (e, list, same)) = Returns.outcome inserted in
          let elsewhere = λ (a : Ptr) (ne : a ≢ (blocks 0).address).
            same a (rw (ne→== a (blocks 0).address ne) refl) in
          (
            g,
            run ∙ ap (λ r. ok r g) e,
            record {
              list = subst (λ r. IsList g r (((blocks 0).address, k) ∷ ys)) e list;
              same = elsewhere;
              fresh = record {
                not_null = λ i. fresh.not_null (suc i);
                unused = λ i.
                    elsewhere (blocks (suc i)).address
                      (λ q. absurd (omega (arith, fresh.different (suc i) 0 q)))
                    ∙ fresh.unused (suc i);
                different = λ i j q. omega (arith, fresh.different (suc i) (suc j) q);
              };
            },
          )
    ]

pub regrown :
    (h g f : Heap (Item Data)) (q b : Ptr) (k : Data) (ys zs : Cells Data)
    → h b ≡ none
    → ((a : Ptr) → a ≢ b → g a ≡ h a)
    → Grown g f q ((b, k) ∷ ys) zs
    → Grown h f q ys zs
regrown h g f q b k ys zs unused same grown = record {
  list = grown.list;
  same = λ a o. grown.same a o ∙ same a (not_b a o);
  new = λ a i o. elim (Bool-cases (a == b)) [
    | inl here ↦ ap h (eq_of a b here) ∙ unused
    | inr other ↦ sym (same a (ground arith)) ∙ grown.new a i (rw (other, o) refl)
  ];
  kept = λ a i. grown.kept a (ground arith);
}
  where
    eq_of : (a c : Ptr) → (a == c) ≡ true → a ≡ c
    eq_of a c e = ground arith

    not_b : (a : Ptr) → owns zs a ≡ false → a ≢ b
    not_b a o e = true≢false (sym (grown.kept a (rw (eq→== a b e) refl)) ∙ o)

-- The first match is freed, and then the others.
pub emptied :
    (h g f : Heap (Item Data)) (y : Ptr × Data) (ys : Cells Data)
    → SameOutside (y ∷ []) h g
    → ((a : Ptr) → f a ≡ (if owns ys a then none else write g y.0 none a))
    → (a : Ptr) → f a ≡ (if owns (y ∷ ys) a then none else h a)
unfolding write
emptied h g f y ys same all a = elim (Bool-cases (a == y.0)) [
  | inl here ↦ all a ∙ rw here (ground arith)
  | inr other ↦ all a ∙ rw (other, same a (rw other refl)) refl
]

pub length-ids : (zs : Cells Data) → length (ids zs) ≡ length zs
length-ids [] = refl
length-ids (z ∷ zs) = ap suc (length-ids zs)

-- Once the new nodes are freed, the memory is what it was.
pub restored :
    (h g f : Heap (Item Data)) (q : Ptr) (zs : Cells Data)
    → Grown h g q [] zs
    → ((a : Ptr) → f a ≡ (if owns zs a then none else g a))
    → f ≡ h
restored h g f q zs grown all = fun_ext λ a. elim (Bool-cases (owns zs a)) [
  | inl mine ↦ all a ∙ rw mine (sym (grown.new a mine refl))
  | inr other ↦ all a ∙ rw other (grown.same a other)
]
