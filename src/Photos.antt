-- ===== src/Photos.antt =====
-- The photos of linked_list.h and msgs.c, and how peer.c looks for their keywords.
pub mod Words
use psis_project.Base.{
  ℕ, zero, suc, ◌+◌, Bool, true, false, ◌==◌, ltb, ◌++◌, if◌then◌else◌, List, [], ◌∷◌,
}
use psis_project.Machine.{Cmd, pure, fault, ◌>>=◌}
use psis_project.Text.{Text, text_eq}
use psis_project.Msgs.{strcpy}

-- `struct data`; `keyword` is the array of `MAX_KEYWORDS` texts, read at indices below 20 only.
pub record Data : Type 0 where
  pub name : Text
  pub id : ℕ
  pub keyword : ℕ → Text
  pub n_keywords : ℕ

unfoldable pub set_data : {S : Type 0} → Text → ℕ → Cmd S Data
set_data name id = do
  copied ← strcpy 100 name
  pure (record { name = copied; id = id; keyword = λ i. []; n_keywords = 0 })

abbrev pub equal_data : Data → Data → Bool
equal_data K1 K2 = K1.id == K2.id

-- The loop from index `i`, with `left` keywords ahead.
abbrev pub keyword_loop : (left i : ℕ) → (ℕ → Text) → Text → Bool
keyword_loop zero i keywords keyword = false
keyword_loop (suc left) i keywords keyword =
    if text_eq (keywords i) keyword then true else keyword_loop left (suc i) keywords keyword

unfoldable pub search_keyword : Data → Text → Bool
search_keyword K keyword = keyword_loop K.n_keywords 0 K.keyword keyword

-- `strcpy(aux->K.keyword[aux->K.n_keywords++],keyword)`
unfoldable pub store_keyword : Text → Data → Data
store_keyword keyword K = record K {
  keyword = λ i. if i == K.n_keywords then keyword else K.keyword i;
  n_keywords = K.n_keywords + 1;
}

-- The keywords that `print_data` prints, in order.
abbrev pub print_loop : (left i : ℕ) → (ℕ → Text) → List Text
print_loop zero i keywords = []
print_loop (suc left) i keywords = keywords i ∷ print_loop left (suc i) keywords

unfoldable pub print_data : Data → Text × ℕ × List Text
print_data K = (K.name, K.id, print_loop K.n_keywords 0 K.keyword)

-- The keywords of a photo, in order.
abbrev pub words : Data → List Text
words K = print_loop K.n_keywords 0 K.keyword

-- `strcat` of each keyword and of a space.
abbrev pub join_words : List Text → Text
join_words [] = []
join_words (w ∷ ws) = w ++ b' ' ∷ join_words ws

-- One more character in front of the first token.
abbrev pub cons_token : ℕ → List Text → List Text
cons_token c [] = (c ∷ []) ∷ []
cons_token c (w ∷ ws) = (c ∷ w) ∷ ws

-- The tokens that `strsep(&keywords, " ")` gives, empty ones included.
abbrev pub split_words : Text → List Text
split_words [] = [] ∷ []
split_words (c ∷ s) = let more = split_words s in if c == b' ' then [] ∷ more else cons_token c more

-- Each token that is not empty is stored; there is room for 20.
unfoldable pub store_words : {S : Type 0} → List Text → Data → Cmd S Data
unfolding store_keyword
store_words [] K = pure K
store_words ([] ∷ ws) K = store_words ws K
store_words ((c ∷ w) ∷ ws) K =
    if ltb K.n_keywords 20
    then (do keyword ← strcpy 100 (c ∷ w); store_words ws (store_keyword keyword K))
    else (λ _. fault)
