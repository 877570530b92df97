-- ===== src/Photos/Words.antt =====
-- The keywords of a photo, joined by `send_photo` and split and stored again by `add_photo`.
use psis_project.Base.{
  ℕ, zero, suc, ◌+◌, ◌<◌, ◌≤◌, ◌≡◌, ◌≢◌, refl, sym, ◌∙◌, ap, true, List, [], ◌∷◌, ◌++◌, ◌==◌, ltb,
  if◌then◌else◌, length, arith, ne→==, eq→==,
}
use mathlib.Core.List.{append_assoc, append-nil}
use psis_project.Machine.{ok}
use psis_project.Text.{Text}
use psis_project.Photos.{
  Data, print_loop, words, join_words, split_words, store_keyword, store_words,
}

-- A keyword that can be sent: not empty, shorter than its array, no space in it.
abbrev pub NoSpace : Text → Type 0
NoSpace [] = Unit {0}
NoSpace (c ∷ w) = (c ≢ b' ') × NoSpace w

abbrev pub Sendable : List Text → Type 0
Sendable [] = Unit {0}
Sendable (w ∷ ws) = (w ≢ []) × (length w < 100) × NoSpace w × Sendable ws

split-word : (w : Text) (s : Text) → NoSpace w → split_words (w ++ b' ' ∷ s) ≡ w ∷ split_words s
split-word [] s clear = refl
split-word (c ∷ w) s (ne, clear) = rw (ne→== c b' ' ne, split-word w s clear)

-- `strsep` finds the keywords that `strcat` joined, and an empty one behind the last space.
pub split_words-join_words :
    (ws : List Text) → Sendable ws → split_words (join_words ws) ≡ ws ++ [] ∷ []
split_words-join_words [] send = refl
split_words-join_words (w ∷ ws) (ne, short, clear, send) =
    rw (split-word w (join_words ws) clear, split_words-join_words ws send)

print_loop-snoc :
    (left i : ℕ) (keywords : ℕ → Text)
    → print_loop (suc left) i keywords ≡ print_loop left i keywords ++ keywords (i + left) ∷ []
print_loop-snoc zero i keywords = let e : i ≡ i + 0 = omega arith in λ j. keywords (e j) ∷ []
print_loop-snoc (suc left) i keywords =
    let e : suc i + left ≡ i + suc left = omega arith in
    ap (λ rest. keywords i ∷ rest)
      (print_loop-snoc left (suc i) keywords
        ∙ (λ j. print_loop left (suc i) keywords ++ keywords (e j) ∷ []))

-- Writing behind the keywords leaves them.
print_loop-outside :
    (left i n : ℕ) (keywords : ℕ → Text) (keyword : Text)
    → i + left ≤ n
    → print_loop left i (λ j. if j == n then keyword else keywords j) ≡ print_loop left i keywords
print_loop-outside zero i n keywords keyword le = refl
print_loop-outside (suc left) i n keywords keyword le =
    rw (ne→== i n (omega arith), print_loop-outside left (suc i) n keywords keyword (omega arith))

pub words-store_keyword :
    (keyword : Text) (K : Data) → words (store_keyword keyword K) ≡ words K ++ keyword ∷ []
unfolding store_keyword
words-store_keyword keyword K =
    let n = K.n_keywords in
    let keywords : ℕ → Text = (λ j. if j == n then keyword else K.keyword j) in
    let more : n + 1 ≡ suc n = omega arith in
    let last : keywords (0 + n) ≡ keyword = rw (eq→== (0 + n) n (omega arith)) in
    ap (λ m. print_loop m 0 keywords) more
    ∙ print_loop-snoc n 0 keywords
    ∙ (λ j. print_loop-outside n 0 n K.keyword keyword (omega arith) j ++ last j ∷ [])

fields :
    (keyword : Text) (K : Data)
    → let K1 = store_keyword keyword K in
      (K1.name ≡ K.name) × (K1.id ≡ K.id) × (K1.n_keywords ≡ K.n_keywords + 1)
unfolding store_keyword
fields keyword K = (refl, refl, refl)

-- Keywords that are stored one after the other are the photo's last ones, in their order.
pub store_words-words :
    {S : Type 0} (ws : List Text) (K : Data) (s : S)
    → Sendable ws
    → K.n_keywords + length ws ≤ 20
    → (K' : Data) × (store_words (ws ++ [] ∷ []) K s ≡ ok K' s)
      × (K'.name ≡ K.name)
      × (K'.id ≡ K.id)
      × (K'.n_keywords ≡ K.n_keywords + length ws)
      × (words K' ≡ words K ++ ws)
unfolding store_words
store_words-words [] K s send room = (K, refl, refl, refl, omega arith, sym (append-nil (words K)))
store_words-words ([] ∷ ws) K s (ne, short, clear, send) room = absurd (ne refl)
store_words-words ((c ∷ w) ∷ ws) K s (ne, short, clear, send) room =
    let K1 = store_keyword (c ∷ w) K in
    let kept = fields (c ∷ w) K in
    let more : K1.n_keywords ≡ K.n_keywords + 1 = kept.2 in
    let count : K1.n_keywords + length ws ≡ K.n_keywords + length ((c ∷ w) ∷ ws) = omega arith in
    let (K', run, name, id, n, all) = store_words-words ws K1 s send (omega arith) in
    let fits : ltb (length (c ∷ w)) 100 ≡ true = ground arith in
    let space : ltb K.n_keywords 20 ≡ true = ground arith in
    (
      K',
      rw (space, fits) run,
      name ∙ kept.0,
      id ∙ kept.1,
      n ∙ count,
      all
          ∙ ap (λ old. old ++ ws) (words-store_keyword (c ∷ w) K)
          ∙ append_assoc (words K) ((c ∷ w) ∷ []) ws,
    )
