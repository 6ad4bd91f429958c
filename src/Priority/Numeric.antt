-- ===== src/Priority/Numeric.antt =====
-- What 10.3.4 of the standard and the comment of compare_priority_vectors ask for: the members are
-- compared as numbers, earlier members first, a lesser number being superior.
use excelfore_gptp.Common.{◌/◌, ◌%◌, ◌<◌, ◌≡◌, compare, Ordering, arith}
use excelfore_gptp.Types.{UInteger224}
use excelfore_gptp.Priority.Vector.{
  memcmp, uint16_octets, little, big, ComparisonResult, superior_priority, inferior_priority,
  of_memcmp, compare_priority_vectors,
}
use excelfore_gptp.Priority.Memcmp.{lexi, memcmp-uint16_octets_big, memcmp-uint16_octets_little}
use excelfore_gptp.Priority.Order.{IsVector, memcmp-octets}

-- The order of the standard.
abbrev pub numeric_order : UInteger224 → UInteger224 → Ordering
numeric_order v w =
    let a = v.root_system_identity in
    let b = w.root_system_identity in
    let p = v.source_port_identity in
    let q = w.source_port_identity in
    lexi (compare a.priority1 b.priority1) (
      lexi (compare a.clock_class b.clock_class) (
        lexi (compare a.clock_accuracy b.clock_accuracy) (
          lexi (compare a.offset_scaled_log_variance b.offset_scaled_log_variance) (
            lexi (compare a.priority2 b.priority2) (
              lexi (memcmp a.clock_identity b.clock_identity) (
                lexi (compare v.steps_removed w.steps_removed) (
                  lexi (memcmp p.clock_identity q.clock_identity) (
                    lexi (compare p.port_number q.port_number)
                      (compare v.port_number w.port_number)))))))))

-- The standard's verdict.
pub numeric_comparison : UInteger224 → UInteger224 → ComparisonResult
numeric_comparison v w = of_memcmp (numeric_order v w)

-- The four 16-bit members of the two vectors have the same high bytes.
pub record HighBytesAgree (v w : UInteger224) : Type 0 where
  pub variance :
      v.root_system_identity.offset_scaled_log_variance / 256
      ≡ w.root_system_identity.offset_scaled_log_variance / 256
  pub steps : v.steps_removed / 256 ≡ w.steps_removed / 256
  pub source_port :
      v.source_port_identity.port_number / 256 ≡ w.source_port_identity.port_number / 256
  pub port : v.port_number / 256 ≡ w.port_number / 256

module _ {v w : UInteger224} (hv : IsVector v) (hw : IsVector w) where
  -- On a big-endian host the comparison is the standard's.
  pub compare_priority_vectors-big : compare_priority_vectors big v w ≡ numeric_comparison v w
  unfolding compare_priority_vectors numeric_comparison
  compare_priority_vectors-big = rw (memcmp-octets big v w hv hw) (simp memcmp-uint16_octets_big)

  -- On a little-endian host it is, for vectors whose 16-bit members have the same high bytes.
  pub compare_priority_vectors-little :
      HighBytesAgree v w → compare_priority_vectors little v w ≡ numeric_comparison v w
  unfolding compare_priority_vectors numeric_comparison
  compare_priority_vectors-little h = rw (memcmp-octets little v w hv hw) (
      simp (
        memcmp-uint16_octets_little _ _ h.variance,
        memcmp-uint16_octets_little _ _ h.steps,
        memcmp-uint16_octets_little _ _ h.source_port,
        memcmp-uint16_octets_little _ _ h.port,
      ))

  -- On a little-endian host the verdict is reversed for two clocks of equal priority1, class and
  -- accuracy whose variances are ordered one way and the low bytes of the variances the other way.
  pub compare_priority_vectors-little_reversed :
      v.root_system_identity.priority1 ≡ w.root_system_identity.priority1
      → v.root_system_identity.clock_class ≡ w.root_system_identity.clock_class
      → v.root_system_identity.clock_accuracy ≡ w.root_system_identity.clock_accuracy
      → v.root_system_identity.offset_scaled_log_variance
        < w.root_system_identity.offset_scaled_log_variance
      → w.root_system_identity.offset_scaled_log_variance % 256
        < v.root_system_identity.offset_scaled_log_variance % 256
      → (numeric_comparison v w ≡ superior_priority)
        × (compare_priority_vectors little v w ≡ inferior_priority)
  unfolding compare_priority_vectors numeric_comparison memcmp uint16_octets
  compare_priority_vectors-little_reversed p c a lt gt =
      (ground arith, ground (arith, memcmp-octets little v w hv hw))
