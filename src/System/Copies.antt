-- ===== src/System/Copies.antt =====
-- A new peer gets all photos of another one: `send_all_photos` of the one, the loop of
-- `notify_and_recv_photos` of the other.
use psis_project.Base.{ℕ, suc, ◌≡◌, false, Option, List, [], ◌∷◌}
use psis_project.Machine.{ok}
use psis_project.Heap.{Ptr, Heap, Block}
use psis_project.Cells.{Cells}
use psis_project.LinkedList.{Item}
use psis_project.LinkedList.Linked.{IsList}
use psis_project.Text.{Text}
use psis_project.Msgs.{MessagePhoto}
use psis_project.Photos.{Data}
use psis_project.Peer.{Peer, Answers, Sent, Files}
use psis_project.Peer.Transfer.{Upload}
use psis_project.Peer.Connection.{copies_loop}
use psis_project.System.Replies.{copy_of, Copied, SameFiles}

-- The copies from `i` on are what arrives of the replies.
abbrev Supplies :
    (ℕ → Option MessagePhoto × Upload)
    → ℕ
    → (ℕ → Block (Item Data))
    → Text
    → List (List Sent)
    → Type 0
Supplies copies i blocks old [] = Unit {0}
Supplies copies i blocks old (r ∷ rs) =
    (copies i ≡ copy_of (blocks 0) old r) × Supplies copies (suc i) (λ j. blocks (suc j)) old rs

module _ (fuel : ℕ) (net mine : Answers) (files : Files) (content : Data → List ℕ)
    (old : Text) where
  -- What the loop does to the receiving peer.
  abbrev Received :
      Peer
      → ℕ
      → ℕ
      → (ℕ → Option MessagePhoto × Upload)
      → MessagePhoto
      → Cells Data
      → Cells Data
      → Type 0
  Received t left i copies msg xs ys =
      (h : Heap (Item Data)) × (p : Ptr) × (zs : Cells Data) × (g : Files) × (copies_loop fuel mine
          left i copies msg t
        ≡ ok tt (record t { photos = h; photo_list = p; photo_lock = false; files = g }))
      × IsList h p zs
      × Copied xs ys zs
      × ((name : Text) → t.files name ≡ files name → g name ≡ files name)
      × SameFiles xs files g
