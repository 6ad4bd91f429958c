-- ===== src/Examples/Order.antt =====
-- compare_priority_vectors on vectors of a grandmaster and a bridge.
use excelfore_gptp.Common.{ℕ, arith, ◌≡◌, ◌↔◌, refl}
use excelfore_gptp.Types.{UInteger224}
use excelfore_gptp.Priority.{
  little, big, compare_priority_vectors, superior_priority, inferior_priority, same_priority,
}
use excelfore_gptp.Priority.Order.{IsVector, opposite, compare_priority_vectors-exchange}
use excelfore_gptp.Priority.Numeric.{
  numeric_comparison, compare_priority_vectors-big, compare_priority_vectors-little_reversed,
}
use excelfore_gptp.Examples.Data.{vector_of, own_identity, gm_identity}

abbrev best : UInteger224
best = vector_of 90 gm_identity 1

abbrev middle : UInteger224
middle = vector_of 100 gm_identity 1

abbrev worst : UInteger224
worst = vector_of 248 own_identity 0

vector_of-IsVector : (p n : ℕ) → IsVector (vector_of p gm_identity n)
vector_of-IsVector p n = record { root_length = refl; source_length = refl }

worst-IsVector : IsVector worst
worst-IsVector = record { root_length = refl; source_length = refl }

exchange_example :
    (compare_priority_vectors little worst best
      ≡ opposite (compare_priority_vectors little best worst))
    × ((compare_priority_vectors little best worst ≡ same_priority) ↔ (best ≡ worst))
exchange_example = compare_priority_vectors-exchange little (vector_of-IsVector 90 1) worst-IsVector

big_example : compare_priority_vectors big best worst ≡ numeric_comparison best worst
big_example = compare_priority_vectors-big (vector_of-IsVector 90 1) worst-IsVector

-- Variance 0x01FF against 0x0200.
abbrev with_variance : ℕ → UInteger224
with_variance n = record best {
  root_system_identity = record (best.root_system_identity) { offset_scaled_log_variance = n };
}

with_variance-IsVector : (n : ℕ) → IsVector (with_variance n)
with_variance-IsVector n = record { root_length = refl; source_length = refl }

reversed_example :
    (numeric_comparison (with_variance 511) (with_variance 512) ≡ superior_priority)
    × (compare_priority_vectors little (with_variance 511) (with_variance 512) ≡ inferior_priority)
reversed_example =
    compare_priority_vectors-little_reversed (with_variance-IsVector 511)
      (with_variance-IsVector 512) refl refl refl (omega arith) (omega arith)
