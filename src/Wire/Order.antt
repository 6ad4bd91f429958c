-- ===== src/Wire/Order.antt =====
-- htons and ntohs of the C library and UB_HTONLL and UB_NTOHLL of xl4unibase, which are not part of the
-- repository: the exchange between the order of the host and that of the network, and signed numbers as
-- words.
use excelfore_gptp.Common.{ℕ, ℤ, pos, negsuc, ◌+◌, ◌-◌, ◌^◌, ◌<◌, ◌≡◌, arith, ltb, if◌then◌else◌}

pub record NetworkOrder : Type 0 where
  pub htons : ℕ → ℕ
  pub ntohs : ℕ → ℕ
  pub htonll : ℕ → ℕ
  pub ntohll : ℕ → ℕ

-- What the exchange is documented to do: words of the host come back.
pub record IsInverse (o : NetworkOrder) : Type 0 where
  pub short : (n : ℕ) → n < 2 ^ 16 → o.ntohs (o.htons n) ≡ n
  pub long : (n : ℕ) → n < 2 ^ 64 → o.ntohll (o.htonll n) ≡ n

-- A number of w bits in two's complement, for 2 ^ (w - 1) = h, and back.
unfoldable pub to_word : ℕ → ℤ → ℕ
to_word h (pos n) = n
to_word h (negsuc n) = h + h - 1 - n

unfoldable pub of_word : ℕ → ℕ → ℤ
of_word h n = if ltb n h then pos n else negsuc (h + h - 1 - n)

-- The number is one of a signed word.
pub data Fits (h : ℕ) : ℤ → Type 0 where
  is_pos : {n : ℕ} → n < h → Fits h (pos n)
  is_neg : {n : ℕ} → n < h → Fits h (negsuc n)

pub of_word-to_word : (h : ℕ) (z : ℤ) → Fits h z → of_word h (to_word h z) ≡ z
unfolding of_word to_word
of_word-to_word h (pos n) (is_pos l) = ground (arith, l)
of_word-to_word h (negsuc n) (is_neg l) = ground (arith, l)

pub to_word-lt : (h : ℕ) (z : ℤ) → Fits h z → to_word h z < h + h
unfolding to_word
to_word-lt h (pos n) (is_pos l) = omega (arith, l)
to_word-lt h (negsuc n) (is_neg l) = omega (arith, l)
