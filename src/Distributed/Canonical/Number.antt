-- ===== src/Distributed/Canonical/Number.antt =====
-- src/distributed.rs: the numerals that the canonical decoder takes.
use amalgam.Prelude.{
  ℕ, zero, suc, ◌+◌, ◌-◌, ◌*◌, ◌^◌, ◌≤◌, ◌<◌, ◌≡◌, refl, ◌⊎◌, inl, inr, true, false, [], ◌∷◌, ltb,
  ltb→lt, length, all, Bool-cases, arith,
}
use amalgam.Distributed.Digits.{is_ascii_digit}
use amalgam.Distributed.Digits.Laws.{value_from}
use amalgam.Distributed.Canonical.{Bytes, starts_with_zero}

-- A JSON number without a sign, fraction or exponent.
pub record IsNumber (number : Bytes) : Type 0 where
  pub spelled : all is_ascii_digit number ≡ true
  pub nonempty : 0 < length number
  pub plain : (length number ≡ 1) ⊎ (starts_with_zero number ≡ false)

-- The least number with `n` further digits after those of `acc`.
least : ℕ → ℕ → ℕ
least acc zero = acc
least acc (suc n) = least (acc * 10) n

least_mono : (a b n : ℕ) → a ≤ b → least a n ≤ least b n
unfolding least
least_mono a b zero h = h
least_mono a b (suc n) h = least_mono (a * 10) (b * 10) n (omega arith)

least_acc : (acc n : ℕ) → acc ≤ least acc n
unfolding least
least_acc acc zero = omega arith
least_acc acc (suc n) = omega (arith, least_acc (acc * 10) n)

least_grows : (acc n m : ℕ) → n ≤ m → least acc n ≤ least acc m
unfolding least
least_grows acc zero m h = least_acc acc m
least_grows acc (suc n) zero h = absurd (omega arith)
least_grows acc (suc n) (suc m) h = least_grows (acc * 10) n m (omega arith)

least-value_from : (acc : ℕ) (s : Bytes) → least acc (length s) ≤ value_from acc s
unfolding least value_from
least-value_from acc [] = omega arith
least-value_from acc (c ∷ s) = omega (
  arith,
  least_mono (acc * 10) (acc * 10 + (c - b'0')) (length s) (omega arith),
  least-value_from (acc * 10 + (c - b'0')) s,
)

least_nineteen : least 1 19 ≡ 10 ^ 19
unfolding least
least_nineteen = refl

-- A number without a leading zero that fits has at most nineteen digits.
pub short : (number : Bytes) → IsNumber number → value_from 0 number < 2 ^ 63 → length number ≤ 19
unfolding value_from
short [] n fits = absurd (omega (arith, n.nonempty))
short (c ∷ s) n fits = elim n.plain [
  | inl single ↦ omega arith
  | inr nonzero ↦ elim (Bool-cases (ltb 18 (length s))) [
    | inl long ↦
        let leading : 1 ≤ 0 * 10 + (c - b'0') = ground (arith, n.spelled) in
        let least_one = least_mono 1 (0 * 10 + (c - b'0')) (length s) leading in
        absurd (
          omega (
            arith,
            ltb→lt 18 (length s) long,
            least_nineteen,
            least_one,
            least_grows 1 19 (length s) (omega (arith, ltb→lt 18 (length s) long)),
            least-value_from (0 * 10 + (c - b'0')) s,
          ))
    | inr few ↦ ground arith
  ]
]

single_zero :
    (c : ℕ) (s : Bytes)
    → all is_ascii_digit (c ∷ s) ≡ true
    → suc (length s) ≡ 1
    → value_from 0 (c ∷ s) ≡ 0
    → c ∷ s ≡ b'0' ∷ []
unfolding value_from
single_zero c [] d h z = let e : c ≡ b'0' = ground (arith, d, z) in rw e
single_zero c (x ∷ s) d h z = absurd (omega arith)

-- The only number that spells zero is a single zero.
pub value_from-zero :
    (number : Bytes) → IsNumber number → value_from 0 number ≡ 0 → number ≡ b'0' ∷ []
unfolding value_from
value_from-zero [] n z = absurd (omega (arith, n.nonempty))
value_from-zero (c ∷ s) n z = elim n.plain [
  | inl single ↦ single_zero c s n.spelled single z
  | inr nonzero ↦
      let leading : 1 ≤ 0 * 10 + (c - b'0') = ground (arith, n.spelled) in
      absurd (
        omega (
          arith,
          leading,
          z,
          least_acc (0 * 10 + (c - b'0')) (length s),
          least-value_from (0 * 10 + (c - b'0')) s,
        ))
]
