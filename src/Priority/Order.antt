-- ===== src/Priority/Order.antt =====
-- The comparison of priority vectors is a strict total order on well-formed vectors, on a host of
-- either byte order.
use excelfore_gptp.Common.{
  ℕ, ◌≡◌, ◌↔◌, refl, sym, ◌∙◌, List, ◌∷◌, ◌++◌, compare, Ordering, arith, length, length-append,
}
use mathlib.Core.List.{append_assoc}
use excelfore_gptp.Types.{UInteger224, clock_identity_length}
use excelfore_gptp.Priority.Vector.{
  memcmp, uint16_octets, ByteOrder, octets, octets_112, octets_port, ComparisonResult,
  same_priority, superior_priority, inferior_priority, compare_priority_vectors,
}
use excelfore_gptp.Priority.Memcmp.{
  lexi, memcmp_refl, memcmp-swap, memcmp_trans, memcmp-append, eq_of_memcmp, eq_of_uint16_octets,
  length-uint16_octets,
}

-- Its two clock identities have eight bytes.
pub record IsVector (v : UInteger224) : Type 0 where
  pub root_length : length v.root_system_identity.clock_identity ≡ clock_identity_length
  pub source_length : length v.source_port_identity.clock_identity ≡ clock_identity_length

pub length-octets : (o : ByteOrder) (v : UInteger224) → IsVector v → length (octets o v) ≡ 28
unfolding octets octets_112 octets_port
length-octets o v w = simp (length-append, length-uint16_octets, w.root_length, w.source_length)

-- The comparison, member by member.
abbrev pub memberwise : ByteOrder → UInteger224 → UInteger224 → Ordering
memberwise o v w =
    let a = v.root_system_identity in
    let b = w.root_system_identity in
    let word = λ (x y : ℕ). memcmp (uint16_octets o x) (uint16_octets o y) in
    lexi (compare a.priority1 b.priority1) (
      lexi (compare a.clock_class b.clock_class) (
        lexi (compare a.clock_accuracy b.clock_accuracy) (
          lexi (word a.offset_scaled_log_variance b.offset_scaled_log_variance) (
            lexi (compare a.priority2 b.priority2) (
              lexi (memcmp a.clock_identity b.clock_identity) (
                lexi (word v.steps_removed w.steps_removed) (
                  lexi
                    (memcmp v.source_port_identity.clock_identity
                      w.source_port_identity.clock_identity)
                    (lexi
                      (word v.source_port_identity.port_number w.source_port_identity.port_number)
                      (word v.port_number w.port_number)))))))))

memcmp-cons :
    (x y : ℕ) (xs ys : List ℕ) → memcmp (x ∷ xs) (y ∷ ys) ≡ lexi (compare x y) (memcmp xs ys)
unfolding memcmp
memcmp-cons x y xs ys = ground arith

memcmp-word :
    (o : ByteOrder) (x y : ℕ) (xs ys : List ℕ)
    → memcmp (uint16_octets o x ++ xs) (uint16_octets o y ++ ys)
      ≡ lexi (memcmp (uint16_octets o x) (uint16_octets o y)) (memcmp xs ys)
memcmp-word o x y xs ys =
    memcmp-append _ _ xs ys (length-uint16_octets o x ∙ sym (length-uint16_octets o y))

pub memcmp-octets :
    (o : ByteOrder) (v w : UInteger224)
    → IsVector v
    → IsVector w
    → memcmp (octets o v) (octets o w) ≡ memberwise o v w
unfolding octets octets_112 octets_port
memcmp-octets o v w hv hw = simp (append_assoc, memcmp-cons, memcmp-word, root, source)
  where
    root :
        (xs ys : List ℕ)
        → memcmp
            (v.root_system_identity.clock_identity ++ xs)
            (w.root_system_identity.clock_identity ++ ys)
          ≡ lexi
              (memcmp v.root_system_identity.clock_identity w.root_system_identity.clock_identity)
              (memcmp xs ys)
    root xs ys = memcmp-append _ _ xs ys (hv.root_length ∙ sym hw.root_length)

    source :
        (xs ys : List ℕ)
        → memcmp
            (v.source_port_identity.clock_identity ++ xs)
            (w.source_port_identity.clock_identity ++ ys)
          ≡ lexi
              (memcmp v.source_port_identity.clock_identity w.source_port_identity.clock_identity)
              (memcmp xs ys)
    source xs ys = memcmp-append _ _ xs ys (hv.source_length ∙ sym hw.source_length)

abbrev pub opposite : ComparisonResult → ComparisonResult
opposite superior_priority = inferior_priority
opposite same_priority = same_priority
opposite inferior_priority = superior_priority

module _ (o : ByteOrder) {v w : UInteger224} (hv : IsVector v) (hw : IsVector w) where
  same_length : length (octets o v) ≡ length (octets o w)
  same_length = length-octets o v hv ∙ sym (length-octets o w hw)

  -- Exchanging the two vectors turns the result round, so no two vectors are each superior to the
  -- other, and of two vectors one is superior or they are the same.
  pub compare_priority_vectors-opposite :
      compare_priority_vectors o w v ≡ opposite (compare_priority_vectors o v w)
  unfolding compare_priority_vectors
  compare_priority_vectors-opposite =
      ground (arith, memcmp-swap (octets o v) (octets o w) same_length)

  eq-memberwise : memberwise o v w ≡ Ordering.eq → v ≡ w
  eq-memberwise h = ground (
    arith,
    eq_of_memcmp _ _ (hv.root_length ∙ sym hw.root_length),
    eq_of_memcmp _ _ (hv.source_length ∙ sym hw.source_length),
    eq_of_uint16_octets o v.root_system_identity.offset_scaled_log_variance
        w.root_system_identity.offset_scaled_log_variance,
    eq_of_uint16_octets o v.steps_removed w.steps_removed,
    eq_of_uint16_octets o v.source_port_identity.port_number w.source_port_identity.port_number,
    eq_of_uint16_octets o v.port_number w.port_number,
  )

  memcmp-octets_eq : memcmp (octets o v) (octets o w) ≡ Ordering.eq → v ≡ w
  memcmp-octets_eq h = eq-memberwise (sym (memcmp-octets o v w hv hw) ∙ h)

  -- Two vectors have the same priority exactly if they are equal.
  pub compare_priority_vectors-same_iff : (compare_priority_vectors o v w ≡ same_priority) ↔ (v ≡ w)
  unfolding compare_priority_vectors
  compare_priority_vectors-same_iff =
      (λ h. memcmp-octets_eq (ground arith), λ e. rw (← e, memcmp_refl (octets o v)) refl)

-- A vector that is superior to a superior one is superior.
pub compare_priority_vectors_trans :
    (o : ByteOrder) {u v w : UInteger224}
    → IsVector u
    → IsVector v
    → IsVector w
    → compare_priority_vectors o u v ≡ superior_priority
    → compare_priority_vectors o v w ≡ superior_priority
    → compare_priority_vectors o u w ≡ superior_priority
unfolding compare_priority_vectors
compare_priority_vectors_trans o {u} {v} {w} hu hv hw p q = ground (
  arith,
  memcmp_trans (octets o u) (octets o v) (octets o w) (same_length o hu hv) (same_length o hv hw),
)

-- On hosts of either byte order, for vectors of full length: exchanging the arguments of
-- compare_priority_vectors turns superior and inferior round and keeps the same priority, and two
-- vectors have the same priority exactly if they are equal.
pub compare_priority_vectors-exchange :
    (o : ByteOrder) {u v : UInteger224}
    → IsVector u
    → IsVector v
    → (compare_priority_vectors o v u ≡ opposite (compare_priority_vectors o u v))
      × ((compare_priority_vectors o u v ≡ same_priority) ↔ (u ≡ v))
compare_priority_vectors-exchange o hu hv =
    (compare_priority_vectors-opposite o hu hv, compare_priority_vectors-same_iff o hu hv)
