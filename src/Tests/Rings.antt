-- ===== src/Tests/Rings.antt =====
-- Rings of three nodes at the addresses 10, 20 and 30.
use psis_project.Base.{ℕ, ◌+◌, ◌≡◌, refl, pos, true, some, none, [], ◌∷◌, ◌==◌, arith}
use psis_project.Machine.Returns.{Returns}
use psis_project.Heap.{IsFresh, null, Heap, Block, write}
use psis_project.Cells.{Cells, Without, contents}
use psis_project.Ring.{Item, item, ring_append, ring_free, ring_remove}
use psis_project.Ring.Chain.{IsRing}
use psis_project.Ring.Remove.{Removed, ring_remove-Removed}
use psis_project.Ring.Push.{Appended, ring_append-Appended}
use psis_project.Ring.Release.{ring_free-Without}
use psis_project.Msgs.{send_ring_udp, recv_ring_udp}
use psis_project.Msgs.Transfer.{recv_ring_udp-send_ring_udp}

abbrev pub three : {D : Type 0} → D → D → D → Heap (Item D)
three a b c =
    write (write (write (λ x. none) 10 (some (item a 20 30))) 20 (some (item b 30 10))) 30
      (some (item c 10 20))

abbrev pub cells : {D : Type 0} → D → D → D → Cells D
cells a b c = (10, a) ∷ (20, b) ∷ (30, c) ∷ []

pub three-IsRing : {D : Type 0} (a b c : D) → IsRing (three a b c) 10 (cells a b c)
unfolding write
three-IsRing a b c = (
  refl,
  (
    (ground arith, refl, (ground arith, refl, (ground arith, refl, tt))),
    (refl, (refl, (refl, tt))),
  ),
)

abbrev h : Heap (Item ℕ)
h = three 1 2 3

abbrev xs : Cells ℕ
xs = cells 1 2 3

abbrev ys : Cells ℕ
ys = (40, 4) ∷ (50, 5) ∷ []

abbrev block : Block (Item ℕ)
block = record { address = 60; contents = item 0 0 0 }

unused : h 60 ≡ none
unfolding write
unused = refl

abbrev blocks : ℕ → Block (Item ℕ)
blocks i = record { address = 1 + i; contents = item 0 0 0 }

fresh : IsFresh {N = Item ℕ} (λ x. none) blocks
fresh = record { not_null = λ i. omega arith; unused = λ i. refl; different = λ i j e. omega arith }

ring_remove-Removed_example : Returns (Removed ◌==◌ h xs 2) (ring_remove ◌==◌ 3 10 2 h)
ring_remove-Removed_example =
    ring_remove-Removed ◌==◌ 3 h 10 xs 2 (three-IsRing 1 2 3) (omega arith)

ring_append-Appended_example : Appended h xs 60 9 (ring_append block 10 9 h)
ring_append-Appended_example = ring_append-Appended h 10 xs block 9 (three-IsRing 1 2 3) unused

ring_free-Without_example : Returns (λ _ g. Without xs h g) (ring_free 4 10 h)
ring_free-Without_example = ring_free-Without 4 h 10 xs (three-IsRing 1 2 3) (omega arith)

recv_ring_udp-send_ring_udp_example :
    Returns
      (λ (result, message) h'.
        (result ≡ pos 0)
        × (h' ≡ h)
        × Returns
            (λ (result', root') g'.
              (result' ≡ pos 0)
              × (zs : Cells ℕ) × IsRing g' root' zs
              × (contents zs ≡ 1 ∷ 2 ∷ 3 ∷ []))
            (recv_ring_udp blocks (some message.size) message.array null (λ x. none)))
      (send_ring_udp true 3 10 h)
recv_ring_udp-send_ring_udp_example =
    recv_ring_udp-send_ring_udp 3 h (λ x. none) 10 xs blocks (three-IsRing 1 2 3) (omega arith)
      fresh
