-- ===== src/Machine.antt =====
-- Commands of the C programs: state passing with the ways in which a run can end.
pub mod Returns
use psis_project.Base.{ℕ, ℤ, ◌≡◌, refl}

-- How a run over the state `S` ends: with a result; by `exit(code)`; by an access through a bad
-- pointer or past a buffer; blocked for ever on a mutex that the thread itself holds, or on a
-- connection where nothing more arrives; or with the
-- fuel of a loop used up.
pub data Run (S A : Type 0) : Type 0 where
  ok : A → S → Run S A
  exited : ℤ → S → Run S A
  fault : Run S A
  blocked : Run S A
  out_of_fuel : Run S A

abbrev pub Cmd : Type 0 → Type 0 → Type 0
Cmd S A = S → Run S A

abbrev pub pure : {S A : Type 0} → A → Cmd S A
pure = ok

module _ {S A B : Type 0} where
  abbrev pub and_then : Run S A → (A → Cmd S B) → Run S B
  and_then (ok a s) k = k a s
  and_then (exited code s) k = exited code s
  and_then fault k = fault
  and_then blocked k = blocked
  and_then out_of_fuel k = out_of_fuel

  infixl 5 ◌>>=◌ ◌>>◌
  abbrev pub ◌>>=◌ : Cmd S A → (A → Cmd S B) → Cmd S B
  m >>= k = λ s. and_then (m s) k

  abbrev pub ◌>>◌ : Cmd S A → Cmd S B → Cmd S B
  m >> n = m >>= λ _. n
