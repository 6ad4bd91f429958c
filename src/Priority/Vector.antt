-- ===== src/Priority/Vector.antt =====
-- gptpcommon.c: the bytes of a priority vector and compare_priority_vectors.
use excelfore_gptp.Common.{
  ℕ, ◌/◌, ◌%◌, Bool, true, false, not, ◌||◌, List, [], ◌∷◌, ◌++◌, Option, none, some, compare,
  Ordering, ◌==◌,
}
use excelfore_gptp.Types.{PortIdentity, UInteger112, UInteger224}

pub data ByteOrder : Type 0 where
  little big : ByteOrder

-- memcmp on two objects of one size: `lt` for a negative result, `gt` for a positive one.
unfoldable pub memcmp : List ℕ → List ℕ → Ordering
memcmp [] ys = Ordering.eq
memcmp (x ∷ xs) [] = Ordering.eq
memcmp (x ∷ xs) (y ∷ ys) = elim (compare x y) [
  | Ordering.lt ↦ Ordering.lt
  | Ordering.eq ↦ memcmp xs ys
  | Ordering.gt ↦ Ordering.gt
]

abbrev pub is_eq : Ordering → Bool
is_eq Ordering.eq = true
is_eq _ = false

-- `memcmp(a, b, n) == 0`
abbrev pub memcmp_eq : List ℕ → List ℕ → Bool
memcmp_eq a b = is_eq (memcmp a b)

-- A uint16_t in memory.
unfoldable pub uint16_octets : ByteOrder → ℕ → List ℕ
uint16_octets little n = (n % 256) ∷ (n / 256) ∷ []
uint16_octets big n = (n / 256) ∷ (n % 256) ∷ []

-- The packed structs, without padding: 14 and 28 bytes.
unfoldable pub octets_112 : ByteOrder → UInteger112 → List ℕ
octets_112 o r =
    (r.priority1 ∷ r.clock_class ∷ r.clock_accuracy ∷ [])
    ++ (uint16_octets o r.offset_scaled_log_variance ++ ((r.priority2 ∷ []) ++ r.clock_identity))

unfoldable pub octets_port : ByteOrder → PortIdentity → List ℕ
octets_port o p = p.clock_identity ++ uint16_octets o p.port_number

unfoldable pub octets : ByteOrder → UInteger224 → List ℕ
octets o v =
    octets_112 o v.root_system_identity
    ++ (uint16_octets o v.steps_removed
        ++ (octets_port o v.source_port_identity ++ uint16_octets o v.port_number))

pub data ComparisonResult : Type 0 where
  same_priority superior_priority inferior_priority : ComparisonResult

abbrev pub of_memcmp : Ordering → ComparisonResult
of_memcmp Ordering.lt = superior_priority
of_memcmp Ordering.eq = same_priority
of_memcmp Ordering.gt = inferior_priority

unfoldable pub compare_priority_vectors : ByteOrder → UInteger224 → UInteger224 → ComparisonResult
compare_priority_vectors o a b = of_memcmp (memcmp (octets o a) (octets o b))

-- `SUPERIOR_PRIORITY == result`
abbrev pub is_superior : ComparisonResult → Bool
is_superior superior_priority = true
is_superior _ = false

-- HAS_PORT_PRIORITY
unfoldable pub has_port_priority : UInteger224 → Bool
has_port_priority pp =
    not (pp.root_system_identity.priority1 == 0)
    || not (pp.root_system_identity.clock_class == 0)
    || not (pp.root_system_identity.clock_accuracy == 0)
    || not (pp.root_system_identity.offset_scaled_log_variance == 0)
    || not (pp.root_system_identity.priority2 == 0)
    || not (pp.steps_removed == 0)

-- eui48to64 writes eight bytes of eui64; `insert` is null or points to two bytes.
pub record Eui48 : Type 0 where
  pub b0 : ℕ
  pub b1 : ℕ
  pub b2 : ℕ
  pub b3 : ℕ
  pub b4 : ℕ
  pub b5 : ℕ

unfoldable pub eui48to64 : Eui48 → Option (ℕ × ℕ) → List ℕ
eui48to64 e none = e.b0 ∷ e.b1 ∷ e.b2 ∷ 0xff ∷ 0xfe ∷ e.b3 ∷ e.b4 ∷ e.b5 ∷ []
eui48to64 e (some (i0, i1)) = e.b0 ∷ e.b1 ∷ e.b2 ∷ i0 ∷ i1 ∷ e.b3 ∷ e.b4 ∷ e.b5 ∷ []
