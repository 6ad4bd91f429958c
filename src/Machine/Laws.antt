-- ===== src/Machine/Laws.antt =====
-- Rules for the loop: it returns when a rank falls in every round that goes on, and what every round
-- keeps holds at the return.
use excelfore_gptp.Common.{
  ℕ, zero, suc, ◌<◌, Bool, true, false, Option, none, some, ◌||◌, ◌≡◌, is_some, arith, inl, inr,
  refl, ◌∙◌, Bool-cases,
}
use excelfore_gptp.Machine.Run.{done, fault, Round, loop, Returns}

module _ {D R : Type 0} (same_state : D → Bool) (round : D → Round D R) where
  -- A round from `d` keeps `P`, reads no null pointer, and lowers the rank if the loop goes on.
  abbrev pub Keeps : (P : D → Type 0) → (D → ℕ) → D → Round D R → Type 0
  Keeps P rank d none = ⊥
  Keeps P rank d (some (d', retp)) =
      P d' × ((is_some retp || same_state d') ≡ false → rank d' < rank d)

  -- A second invariant, kept by every round that reads no null pointer.
  abbrev pub After : (D → Type 0) → Round D R → Type 0
  After Q none = Unit
  After Q (some (d', retp)) = Q d'

  pub Keeps-and :
      (P Q : D → Type 0) (rank : D → ℕ) (d : D) (o : Round D R)
      → Keeps P rank d o
      → After Q o
      → Keeps (λ x. P x × Q x) rank d o
  Keeps-and P Q rank d none k q = k
  Keeps-and P Q rank d (some (d', retp)) k q = ((k.0, q), k.1)

  -- One more round, where its result is known.
  pub loop-stop :
      (fuel : ℕ) (d d' : D) (retp : Option R)
      → round d ≡ some (d', retp)
      → (is_some retp || same_state d') ≡ true
      → loop same_state round (suc fuel) d ≡ done d' retp
  unfolding loop
  loop-stop fuel d d' retp e stop = ground arith

  pub loop-next :
      (fuel : ℕ) (d d' : D) (retp : Option R)
      → round d ≡ some (d', retp)
      → (is_some retp || same_state d') ≡ false
      → loop same_state round (suc fuel) d ≡ loop same_state round fuel d'
  unfolding loop
  loop-next fuel d d' retp e go = ground arith

  pub loop-fault : (fuel : ℕ) (d : D) → round d ≡ none → loop same_state round (suc fuel) d ≡ fault
  unfolding loop
  loop-fault fuel d e = ground arith

  -- What a round must do for the loop to return, where the invariant need not hold at the return.
  abbrev pub Continues : (P : D → Type 0) → (D → ℕ) → D → Round D R → Type 0
  Continues P rank d none = ⊥
  Continues P rank d (some (d', retp)) =
      (is_some retp || same_state d') ≡ false → (rank d' < rank d) × P d'

  pub loop-Returns :
      (P : D → Type 0) (rank : D → ℕ)
      → ((d : D) → P d → Continues P rank d (round d))
      → (fuel : ℕ) (d : D) → P d
      → rank d < fuel
      → Returns (loop same_state round fuel d)
  loop-Returns P rank keep zero d p h = elim h [ ]
  loop-Returns P rank keep (suc fuel) d p h =
      step (round d) refl (keep d p) (loop-Returns P rank keep fuel)
    where
      step :
          (o : Round D R)
          → round d ≡ o
          → Continues P rank d o
          → ((x : D) → P x → rank x < fuel → Returns (loop same_state round fuel x))
          → Returns (loop same_state round (suc fuel) d)
      step none e k ih = absurd k
      step (some (d', retp)) e k ih = elim (Bool-cases (is_some retp || same_state d')) [
        | inl stop ↦ (d', retp, loop-stop fuel d d' retp e stop)
        | inr go ↦
            let (x, r, eq) = ih d' (k go).1 (omega (arith, (k go).0)) in
            (x, r, loop-next fuel d d' retp e go ∙ eq)
      ]

  pub loop_rule :
      (P : D → Type 0) (rank : D → ℕ)
      → ((d : D) → P d → Keeps P rank d (round d))
      → (fuel : ℕ) (d : D) → P d
      → rank d < fuel
      → (d' : D) × (retp : Option R) × (loop same_state round fuel d ≡ done d' retp) × P d'
  loop_rule P rank keep zero d p h = elim h [ ]
  loop_rule P rank keep (suc fuel) d p h =
      step (round d) refl (keep d p) (loop_rule P rank keep fuel)
    where
      Result : ℕ → D → Type 0
      Result f x = (d' : D) × (retp : Option R) × (loop same_state round f x ≡ done d' retp) × P d'

      step :
          (o : Round D R)
          → round d ≡ o
          → Keeps P rank d o
          → ((x : D) → P x → rank x < fuel → Result fuel x)
          → Result (suc fuel) d
      step none e k ih = absurd k
      step (some (d', retp)) e k ih = elim (Bool-cases (is_some retp || same_state d')) [
        | inl stop ↦ (d', retp, loop-stop fuel d d' retp e stop, k.0)
        | inr go ↦
            let (x, r, eq, px) = ih d' k.0 (omega (arith, k.1 go)) in
            (x, r, loop-next fuel d d' retp e go ∙ eq, px)
      ]
