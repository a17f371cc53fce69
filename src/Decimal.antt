-- ===== src/Decimal.antt =====
-- Decimal numerals, as `%u` prints them and as `sdo_read_uint` (lib/sdoblockio.c) takes them apart.
use native.Mathlib.Nat.{pow-suc}
use client_sdk.Base.{
  ℕ, zero, suc, ◌+◌, ◌-◌, ◌*◌, ◌/◌, ◌%◌, ◌^◌, ◌≤◌, ◌<◌, ◌≡◌, refl, [], ◌∷◌, ◌++◌, arith, Bytes, All,
  All-append, ltb, Bool-cases, inl, inr, ltb→lt, if◌then◌else◌,
}

-- The decimal digits of a number, by rounds of division, 10 of them for 32 bits.
pub decimal_rounds : ℕ → ℕ → Bytes
decimal_rounds zero n = []
decimal_rounds (suc k) n =
    let front = decimal_rounds k (n / 10) in
    if ltb n 10 then (b'0' + n) ∷ [] else front ++ (b'0' + n % 10) ∷ []

unfoldable pub decimal : ℕ → Bytes
unfolding decimal_rounds
decimal = decimal_rounds 10

abbrev pub u32_mod : ℕ
u32_mod = 4294967296

-- The value of a run of digits read from the left into a uint32_t.
abbrev pub value_from : ℕ → Bytes → ℕ
value_from acc [] = acc
value_from acc (c ∷ cs) = value_from ((acc * 10 + (c - b'0')) % u32_mod) cs

abbrev pub AreDigits : Bytes → Type 0
AreDigits = All (λ c. (b'0' ≤ c) × (c ≤ b'9'))

value_from-append :
    (acc : ℕ) (xs ys : Bytes) → value_from acc (xs ++ ys) ≡ value_from (value_from acc xs) ys
value_from-append acc [] ys = refl
value_from-append acc (x ∷ xs) ys = value_from-append ((acc * 10 + (x - b'0')) % u32_mod) xs ys

decimal_rounds-AreDigits : (k n : ℕ) → AreDigits (decimal_rounds k n)
unfolding decimal_rounds
decimal_rounds-AreDigits zero n = tt
decimal_rounds-AreDigits (suc k) n = elim (Bool-cases (ltb n 10)) [
  | inl small ↦ rw small ((omega arith, omega (arith, ltb→lt n 10 small)), tt)
  | inr large ↦ rw large (
      All-append (λ c. (b'0' ≤ c) × (c ≤ b'9')) (decimal_rounds k (n / 10)) _
        (decimal_rounds-AreDigits k (n / 10)) ((omega arith, omega arith), tt))
]

pub decimal-AreDigits : (n : ℕ) → AreDigits (decimal n)
unfolding decimal
decimal-AreDigits n = decimal_rounds-AreDigits 10 n

-- Enough rounds give digits whose value is the number.
value_from-decimal_rounds :
    (k n : ℕ) → n < 10 ^ k → n < u32_mod → value_from 0 (decimal_rounds k n) ≡ n
unfolding decimal_rounds
value_from-decimal_rounds zero n h b = omega arith
value_from-decimal_rounds (suc k) n h b = elim (Bool-cases (ltb n 10)) [
  | inl small ↦ rw small (omega (arith, ltb→lt n 10 small))
  | inr large ↦
      let below : n / 10 < 10 ^ k = omega (arith, h, pow-suc 10 k) in
      let front = value_from-decimal_rounds k (n / 10) below (omega arith) in
      rw (large, value_from-append 0 (decimal_rounds k (n / 10)), front) (omega arith)
]

-- Ten rounds are enough for 32 bits.
pub value_from-decimal : (n : ℕ) → n < u32_mod → value_from 0 (decimal n) ≡ n
unfolding decimal
value_from-decimal n h = value_from-decimal_rounds 10 n (omega arith) h
