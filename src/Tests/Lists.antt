-- ===== src/Tests/Lists.antt =====
-- Lists of three nodes at the addresses 10, 20 and 30.
use psis_project.Base.{ℕ, ◌≡◌, refl, some, none, [], ◌∷◌, ◌==◌, arith}
use psis_project.Machine.Returns.{Returns}
use psis_project.Heap.{Heap, Block, write}
use psis_project.Cells.{Cells, Without}
use psis_project.LinkedList.{Item, item, list_free, list_remove}
use psis_project.LinkedList.Linked.{IsList}
use psis_project.LinkedList.Remove.{Removed, list_remove-Removed}
use psis_project.LinkedList.Walk.{list_free-Without}

abbrev pub line : {D : Type 0} → D → D → D → Heap (Item D)
line a b c =
    write (write (write (λ x. none) 10 (some (item a 20))) 20 (some (item b 30))) 30
      (some (item c 0))

abbrev pub line_cells : {D : Type 0} → D → D → D → Cells D
line_cells a b c = (10, a) ∷ (20, b) ∷ (30, c) ∷ []

pub line-IsList : {D : Type 0} (a b c : D) → IsList (line a b c) 10 (line_cells a b c)
unfolding write
line-IsList a b c = (
  refl,
  (ground arith, refl, (ground arith, refl, (ground arith, refl, tt))),
  (refl, (refl, (refl, tt))),
)

-- With a second list at the address 40.
abbrev h : Heap (Item ℕ)
h = write (line 1 2 3) 40 (some (item 4 0))

abbrev xs : Cells ℕ
xs = line_cells 1 2 3

abbrev ys : Cells ℕ
ys = (40, 4) ∷ []

xs-IsList : IsList h 10 xs
unfolding write
xs-IsList = (
  refl,
  (ground arith, refl, (ground arith, refl, (ground arith, refl, tt))),
  (refl, (refl, (refl, tt))),
)

abbrev block : Block (Item ℕ)
block = record { address = 60; contents = item 0 0 }

unused : h 60 ≡ none
unfolding write
unused = refl

list_remove-Removed_example : Returns (Removed ◌==◌ h xs 2) (list_remove ◌==◌ 3 10 2 h)
list_remove-Removed_example = list_remove-Removed ◌==◌ 3 h 10 xs 2 xs-IsList (omega arith)

list_free-Without_example : Returns (λ _ g. Without xs h g) (list_free 4 10 h)
list_free-Without_example = list_free-Without 4 h 10 xs xs-IsList (omega arith)
