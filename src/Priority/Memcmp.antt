-- ===== src/Priority/Memcmp.antt =====
-- Laws of memcmp on byte lists: an order, compatible with concatenation.
use excelfore_gptp.Common.{ℕ, ◌/◌, ◌≡◌, refl, List, [], ◌∷◌, ◌++◌, compare, Ordering, arith, length}
use excelfore_gptp.Priority.Vector.{memcmp, uint16_octets, ByteOrder, little, big}

-- The first test that is not equal decides.
abbrev pub lexi : Ordering → Ordering → Ordering
lexi Ordering.lt o = Ordering.lt
lexi Ordering.eq o = o
lexi Ordering.gt o = Ordering.gt

abbrev pub swap : Ordering → Ordering
swap Ordering.lt = Ordering.gt
swap Ordering.eq = Ordering.eq
swap Ordering.gt = Ordering.lt

pub memcmp_refl : (xs : List ℕ) → memcmp xs xs ≡ Ordering.eq
unfolding memcmp
memcmp_refl [] = refl
memcmp_refl (x ∷ xs) = ground (arith, memcmp_refl xs)

pub memcmp-swap : (xs ys : List ℕ) → length xs ≡ length ys → memcmp ys xs ≡ swap (memcmp xs ys)
unfolding memcmp
memcmp-swap [] [] h = refl
memcmp-swap [] (y ∷ ys) h = absurd (omega arith)
memcmp-swap (x ∷ xs) [] h = absurd (omega arith)
memcmp-swap (x ∷ xs) (y ∷ ys) h = ground (arith, memcmp-swap xs ys (omega arith))

pub eq_of_memcmp : (xs ys : List ℕ) → length xs ≡ length ys → memcmp xs ys ≡ Ordering.eq → xs ≡ ys
unfolding memcmp
eq_of_memcmp [] [] h e = refl
eq_of_memcmp [] (y ∷ ys) h e = absurd (omega arith)
eq_of_memcmp (x ∷ xs) [] h e = absurd (omega arith)
eq_of_memcmp (x ∷ xs) (y ∷ ys) h e = ground (arith, eq_of_memcmp xs ys (omega arith))

pub memcmp_trans :
    (xs ys zs : List ℕ)
    → length xs ≡ length ys
    → length ys ≡ length zs
    → memcmp xs ys ≡ Ordering.lt
    → memcmp ys zs ≡ Ordering.lt
    → memcmp xs zs ≡ Ordering.lt
unfolding memcmp
memcmp_trans [] ys zs h k p q = ground arith
memcmp_trans (x ∷ xs) [] zs h k p q = absurd (omega arith)
memcmp_trans (x ∷ xs) (y ∷ ys) [] h k p q = absurd (omega arith)
memcmp_trans (x ∷ xs) (y ∷ ys) (z ∷ zs) h k p q =
    ground (arith, memcmp_trans xs ys zs (omega arith) (omega arith))

pub memcmp-append :
    (xs ys xs' ys' : List ℕ)
    → length xs ≡ length ys
    → memcmp (xs ++ xs') (ys ++ ys') ≡ lexi (memcmp xs ys) (memcmp xs' ys')
unfolding memcmp
memcmp-append [] [] xs' ys' h = refl
memcmp-append [] (y ∷ ys) xs' ys' h = absurd (omega arith)
memcmp-append (x ∷ xs) [] xs' ys' h = absurd (omega arith)
memcmp-append (x ∷ xs) (y ∷ ys) xs' ys' h =
    ground (arith, memcmp-append xs ys xs' ys' (omega arith))

-- In big-endian order the bytes of two words compare as the words do.
pub memcmp-uint16_octets_big :
    (x y : ℕ) → memcmp (uint16_octets big x) (uint16_octets big y) ≡ compare x y
unfolding memcmp uint16_octets
memcmp-uint16_octets_big x y = ground arith

-- In little-endian order they do if the high bytes are equal.
pub memcmp-uint16_octets_little :
    (x y : ℕ)
    → x / 256 ≡ y / 256
    → memcmp (uint16_octets little x) (uint16_octets little y) ≡ compare x y
unfolding memcmp uint16_octets
memcmp-uint16_octets_little x y h = ground arith

-- Equal bytes are equal words, in either order.
pub eq_of_uint16_octets :
    (o : ByteOrder) (x y : ℕ) → memcmp (uint16_octets o x) (uint16_octets o y) ≡ Ordering.eq → x ≡ y
unfolding memcmp uint16_octets
eq_of_uint16_octets little x y h = ground arith
eq_of_uint16_octets big x y h = ground arith

pub length-uint16_octets : (o : ByteOrder) (x : ℕ) → length (uint16_octets o x) ≡ 2
unfolding uint16_octets
length-uint16_octets little x = refl
length-uint16_octets big x = refl

pub lexi_assoc : (a b c : Ordering) → lexi (lexi a b) c ≡ lexi a (lexi b c)
lexi_assoc a b c = ground arith

pub lexi-eq : (a b : Ordering) → lexi a b ≡ Ordering.eq → (a ≡ Ordering.eq) × (b ≡ Ordering.eq)
lexi-eq a b h = ground arith
