-- ===== src/Msgs/Network.antt =====
-- What is assumed of the network where `isOnline` asks, and the peers that it reaches.
use psis_project.Base.{
  ℕ, suc, ◌≡◌, ◌∙◌, sym, ap, Bool, true, false, not, [], ◌∷◌, ◌++◌, ◌==◌, arith, ◌⊎◌, inl, inr,
  Bool-cases, ne→==,
}
use mathlib.Core.Bool.{true≢false}
use psis_project.Machine.{ok}
use psis_project.Heap.{Ptr}
use psis_project.Cells.{Cells, erase}
use psis_project.Msgs.{
  DataR, equal_data_r, equal_data_r→≡, equal_data_r_refl, Connect, accepted, refused, is_online,
}

-- Every call of `connect` either reaches the peer or is refused, and the descriptor of a new socket
-- is not 0, since standard input is open.
abbrev pub IsDecided : (DataR → Connect) → Type 0
IsDecided connect =
    (k : DataR) → ((fd : ℕ) × (connect k ≡ accepted (suc fd))) ⊎ (connect k ≡ refused)

abbrev pub reached : Connect → Bool
reached (accepted fd) = true
reached c = false

-- Somebody listens at the peer's address.
abbrev pub online : (DataR → Connect) → DataR → Bool
online connect k = reached (connect k)

pub is_online-online :
    {S : Type 0} (connect : DataR → Connect) (k : DataR) (s : S)
    → IsDecided connect
    → (fd : ℕ) × (is_online (connect k) s ≡ ok fd s) × ((fd == 0) ≡ not (online connect k))
unfolding is_online
is_online-online connect k s decided = elim (decided k) [
  | inl (fd, e) ↦ (suc fd, rw e, rw e (ne→== (suc fd) 0 (omega arith)))
  | inr e ↦ (0, rw e, rw e)
]

-- `ring_remove` of a peer, on the abstract list.
abbrev pub removed : DataR → Cells DataR → Cells DataR
removed = erase equal_data_r

-- All these peers are online.
abbrev pub AllOnline : (DataR → Connect) → Cells DataR → Type 0
AllOnline connect [] = Unit {0}
AllOnline connect (c ∷ cs) = (online connect c.1 ≡ true) × AllOnline connect cs

pub AllOnline-snoc :
    (connect : DataR → Connect) (cs : Cells DataR) (c : Ptr × DataR)
    → AllOnline connect cs
    → online connect c.1 ≡ true
    → AllOnline connect (cs ++ c ∷ [])
AllOnline-snoc connect [] c all h = (h, tt)
AllOnline-snoc connect (d ∷ ds) c all h = (all.0, AllOnline-snoc connect ds c all.1 h)

-- A peer that is not online differs from all that are.
pub removed-offline :
    (connect : DataR → Connect) (kept : Cells DataR) (c : Ptr × DataR) (rest : Cells DataR)
    → AllOnline connect kept
    → online connect c.1 ≡ false
    → removed c.1 (kept ++ c ∷ rest) ≡ kept ++ rest
removed-offline connect [] c rest all off = rw equal_data_r_refl
removed-offline connect (d ∷ ds) c rest (on, all) off = elim (Bool-cases (equal_data_r d.1 c.1)) [
  | inl same ↦
      absurd (true≢false (sym on ∙ ap (online connect) (equal_data_r→≡ d.1 c.1 same) ∙ off))
  | inr other ↦ rw (other, removed-offline connect ds c rest all off)
]
