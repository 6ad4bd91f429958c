-- ===== src/Machine/Run.antt =====
-- The loop of the state machines, on fuel, and the three ways in which a run can end.
use excelfore_gptp.Common.{ℕ, zero, suc, Bool, true, false, Option, none, some, ◌||◌, ◌≡◌, is_some}

-- `done` is a return of the function; `fault` is a read through a null pointer.
pub data Outcome (D R : Type 0) : Type 0 where
  done : D → Option R → Outcome D R
  fault : Outcome D R
  out_of_fuel : Outcome D R

-- What one round gives.
abbrev pub Round : Type 0 → Type 0 → Type 0
Round D R = Option (D × Option R)

module _ {D R : Type 0} (same_state : D → Bool) (round : D → Round D R) where
  unfoldable pub loop : ℕ → D → Outcome D R
  loop zero d = out_of_fuel
  loop (suc fuel) d = elim (round d) [
    | none ↦ fault
    | some (d', retp) ↦ elim (is_some retp || same_state d') [
      | true ↦ done d' retp
      | false ↦ loop fuel d'
    ]
  ]

-- The machine returns.
abbrev pub Returns : {D R : Type 0} → Outcome D R → Type 0
Returns {D} {R} o = (d : D) × (retp : Option R) × (o ≡ done d retp)
