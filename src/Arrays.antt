-- ===== src/Arrays.antt =====
-- Arrays that are indexed: functions on the index, with the writes that the code makes.
use excelfore_gptp.Common.{
  ℕ, zero, suc, ◌+◌, ◌/◌, ◌%◌, List, ◌++◌, take, drop, ◌<◌, ◌≤◌, ◌≡◌, refl, Bool, true, false, ◌||◌,
  ltb, ◌==◌, if◌then◌else◌, arith, Bool-cases, inl, inr,
}

-- `memcpy(a, b, n)` for an array of byte arrays of `size` bytes each.
abbrev pub copy_octets {ℓ} : {A : Type ℓ} → ℕ → (ℕ → List A) → (ℕ → List A) → ℕ → ℕ → List A
copy_octets size a b n j =
    if ltb j (n / size)
    then b j
    else if j == n / size
    then take (n % size) (b j) ++ drop (n % size) (a j)
    else a j

module _ {ℓ} {A : Type ℓ} where
  -- `a[i] = x`
  abbrev pub set : (ℕ → A) → ℕ → A → ℕ → A
  set a i x j = if i == j then x else a j

  -- `memcpy(a, b, n * sizeof(A))`
  abbrev pub copy : (ℕ → A) → (ℕ → A) → ℕ → ℕ → A
  copy a b n j = if ltb j n then b j else a j

  -- `for(j = i; j < i + k; j++) if(test(a[j])) return true; return false;`
  unfoldable pub exists_from : (A → Bool) → (ℕ → A) → ℕ → ℕ → Bool
  exists_from test a zero i = false
  exists_from test a (suc k) i = test (a i) || exists_from test a k (i + 1)

  -- The scan finds no entry exactly if none of the k entries from i on passes the test.
  pub exists_from_none :
      (test : A → Bool) (a : ℕ → A) (k i : ℕ)
      → exists_from test a k i ≡ false
      → (j : ℕ) → j < k
      → test (a (i + j)) ≡ false
  unfolding exists_from
  exists_from_none test a zero i h j lt = elim lt [ ]
  exists_from_none test a (suc k) i h zero lt =
      let e : i + 0 ≡ i = omega arith in rw e (ground arith)
  exists_from_none test a (suc k) i h (suc j) lt =
      let e : i + suc j ≡ i + 1 + j = omega arith in
      rw e (exists_from_none test a k (i + 1) (ground arith) j (omega arith))

  pub exists_from_found :
      (test : A → Bool) (a : ℕ → A) (k i : ℕ)
      → exists_from test a k i ≡ true
      → (j : ℕ) × (j < k) × (test (a (i + j)) ≡ true)
  unfolding exists_from
  exists_from_found test a zero i h = absurd (ground arith)
  exists_from_found test a (suc k) i h = elim (Bool-cases (test (a i))) [
    | inl here ↦ let e : i + 0 ≡ i = omega arith in (0, omega arith, rw e here)
    | inr no_match ↦
        let (j, lt, found) = exists_from_found test a k (i + 1) (ground arith) in
        let e : i + suc j ≡ i + 1 + j = omega arith in (suc j, omega arith, rw e found)
  ]

  -- The scan of the first k entries.
  pub scan_none :
      (test : A → Bool) (a : ℕ → A) (k : ℕ)
      → exists_from test a k 0 ≡ false
      → (j : ℕ) → j < k
      → test (a j) ≡ false
  scan_none test a k h j lt =
      let e : 0 + j ≡ j = omega arith in rw e at (exists_from_none test a k 0 h j lt)

  pub scan_found :
      (test : A → Bool) (a : ℕ → A) (k : ℕ)
      → exists_from test a k 0 ≡ true
      → (j : ℕ) × (j < k) × (test (a j) ≡ true)
  scan_found test a k h =
      let (j, lt, found) = exists_from_found test a k 0 h in
      let e : 0 + j ≡ j = omega arith in (j, lt, rw e at found)

  -- Nothing is found where everything has been overwritten by an entry that fails the test.
  pub exists_from-copy :
      (test : A → Bool) (a : ℕ → A) (x : A) (n k i : ℕ)
      → test x ≡ false
      → i + k ≤ n
      → exists_from test (copy a (λ _. x) n) k i ≡ false
  unfolding exists_from
  exists_from-copy test a x n zero i f le = refl
  exists_from-copy test a x n (suc k) i f le =
      ground (arith, exists_from-copy test a x n k (i + 1) f (omega arith))

-- `for(j = i; j < i + k; j++) s = body(j, s);`
unfoldable pub for_range {ℓ} : {S : Type ℓ} → (ℕ → S → S) → ℕ → ℕ → S → S
for_range body zero i s = s
for_range body (suc k) i s = for_range body k (i + 1) (body i s)

-- An invariant of the loop may name the rounds made.
pub for_range_rule {ℓ κ} :
    {S : Type ℓ} (body : ℕ → S → S) (P : ℕ → S → Type κ)
    → ((j : ℕ) (s : S) → P j s → P (j + 1) (body j s))
    → (k i : ℕ) (s : S) → P i s
    → P (i + k) (for_range body k i s)
unfolding for_range
for_range_rule body P keep zero i s p = let e : i + 0 ≡ i = omega arith in rw e p
for_range_rule body P keep (suc k) i s p =
    let e : i + suc k ≡ i + 1 + k = omega arith in
    rw e (for_range_rule body P keep k (i + 1) (body i s) (keep i s p))
