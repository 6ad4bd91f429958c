-- ===== src/StateSelection/Best.antt =====
-- The grandmaster that updtStatesTree chooses is the best of the system's own vector and those that
-- the ports offer.
use excelfore_gptp.Common.{
  ℕ, ◌+◌, ◌<◌, ◌≡◌, refl, true, false, arith, ◌⊎◌, inl, inr, Bool-cases, ◌&&◌,
}
use mathlib.Core.Path.{subst}
use native.Mathlib.Decide.{dec_lt}
use excelfore_gptp.Types.{ClockIdentity, UInteger224}
use excelfore_gptp.Arrays.{for_range, for_range_rule}
use excelfore_gptp.Priority.{ByteOrder, compare_priority_vectors, is_superior}
use excelfore_gptp.Priority.Order.{
  IsVector, compare_priority_vectors_trans, compare_priority_vectors-opposite,
}
use excelfore_gptp.Globals.{BmcsPerPortGlobal}
use excelfore_gptp.StateSelection.Tree.{GmChoice, gm_path_priority, offers, choose_step, choose_gm}

-- `u` is not superior to `v`.
abbrev pub NotBetter : ByteOrder → UInteger224 → UInteger224 → Type 0
NotBetter o u v = is_superior (compare_priority_vectors o u v) ≡ false

NotBetter-refl : (o : ByteOrder) (v : UInteger224) → IsVector v → NotBetter o v v
NotBetter-refl o v h = ground (arith, compare_priority_vectors-opposite o h h)

-- What is not better than `w` is not better than what is superior to `w`.
NotBetter-superior :
    (o : ByteOrder) (u v w : UInteger224)
    → IsVector u
    → IsVector v
    → IsVector w
    → is_superior (compare_priority_vectors o v w) ≡ true
    → NotBetter o u w
    → NotBetter o u v
NotBetter-superior o u v w hu hv hw p n = ground (arith, compare_priority_vectors_trans o hu hv hw)

module _ (o : ByteOrder) (this_clock : ClockIdentity) (bppgl : ℕ → BmcsPerPortGlobal)
    (g0 : GmChoice) where
  -- The choice among the first `n` ports: it is the system's own vector or the vector that a port
  -- offers, with the time properties that belong to it, and no vector on offer is superior.
  pub record IsBest (n : ℕ) (g : GmChoice) : Type 0 where
    pub valid : IsVector g.gm_priority
    pub source :
        (g ≡ g0)
        ⊎ ((i : ℕ) × (i < n)
            × (offers this_clock (bppgl i) ≡ true)
            × (g.gm_priority ≡ gm_path_priority (bppgl i))
            × (g.time_properties ≡ (bppgl i).ann_time_properties))
    pub beats_system : NotBetter o g0.gm_priority g.gm_priority
    pub beats_ports :
        (i : ℕ)
        → i < n
        → offers this_clock (bppgl i) ≡ true
        → NotBetter o (gm_path_priority (bppgl i)) g.gm_priority

  module _ (valid0 : IsVector g0.gm_priority)
      (paths : (i : ℕ) → IsVector (gm_path_priority (bppgl i))) where
    replaced :
        (n : ℕ) (g : GmChoice)
        → IsBest n g
        → offers this_clock (bppgl n) ≡ true
        → is_superior (compare_priority_vectors o (gm_path_priority (bppgl n)) g.gm_priority) ≡ true
        → IsBest (n + 1) (record {
          gm_priority = gm_path_priority (bppgl n);
          time_properties = (bppgl n).ann_time_properties;
        })
    replaced n g b f s = record {
      valid = paths n;
      source = inr (n, omega arith, f, refl, refl);
      beats_system = NotBetter-superior o _ _ _ valid0 (paths n) b.valid s b.beats_system;
      beats_ports = λ i lt off. elim (dec_lt i n) [
        | yes below ↦
            NotBetter-superior o _ _ _ (paths i) (paths n) b.valid s (b.beats_ports i below off)
        | no last ↦
            let e : n ≡ i = omega arith in
            subst (λ (k : ℕ). NotBetter o (gm_path_priority (bppgl k)) (gm_path_priority (bppgl n)))
              e (NotBetter-refl o _ (paths n))
      ];
    }

    kept :
        (n : ℕ) (g : GmChoice)
        → IsBest n g
        → (offers this_clock (bppgl n) ≡ true
            → NotBetter o (gm_path_priority (bppgl n)) g.gm_priority)
        → IsBest (n + 1) g
    kept n g b f = record {
      valid = b.valid;
      source = elim (b.source) [
        | inl own ↦ inl own
        | inr (i, lt, off, gm, props) ↦ inr (i, omega arith, off, gm, props)
      ];
      beats_system = b.beats_system;
      beats_ports = λ i lt off. elim (dec_lt i n) [
        | yes below ↦ b.beats_ports i below off
        | no last ↦
            let e : n ≡ i = omega arith in
            subst
              (λ (k : ℕ).
                offers this_clock (bppgl k) ≡ true
                → NotBetter o (gm_path_priority (bppgl k)) g.gm_priority)
              e f off
      ];
    }

    choose_step-IsBest :
        (n : ℕ) (g : GmChoice) → IsBest n g → IsBest (n + 1) (choose_step o this_clock bppgl n g)
    unfolding choose_step
    choose_step-IsBest n g b =
        elim (Bool-cases (
          offers this_clock (bppgl n)
          && is_superior (compare_priority_vectors o (gm_path_priority (bppgl n)) g.gm_priority))) [
            | inl both ↦ rw both (replaced n g b (ground arith) (ground arith))
            | inr not_both ↦ rw not_both (kept n g b (λ off. ground arith))
          ]

    -- The choice over all ports is the best one.
    pub choose_gm-IsBest :
        (max_ports : ℕ) → IsBest max_ports (choose_gm o this_clock bppgl max_ports g0)
    unfolding choose_gm
    choose_gm-IsBest max_ports =
        let e : 0 + max_ports ≡ max_ports = omega arith in
        subst (λ (k : ℕ). IsBest k (for_range (choose_step o this_clock bppgl) max_ports 0 g0)) e
          (for_range_rule (choose_step o this_clock bppgl) IsBest choose_step-IsBest max_ports 0 g0
            (record {
              valid = valid0;
              source = inl refl;
              beats_system = NotBetter-refl o _ valid0;
              beats_ports = λ i lt. elim lt [ ];
            }))
