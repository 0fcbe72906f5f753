-- ===== src/Distributed/Canonical/Integer.antt =====
-- src/distributed.rs: the canonical integers are the integers of JSON that fit 64 bits, save the
-- least one.
use amalgam.Prelude.{
  ◌^◌, ◌≤◌, ◌<◌, ◌≡◌, refl, ◌⊎◌, inl, inr, Bool, true, false, some, [], ◌∷◌, ◌++◌, ◌==◌, ap, length,
  all, all-cons, sym, ◌∙◌, ==_iff, Bool-cases, arith,
}
use mathlib.Core.Path.{ap₂, subst}
use amalgam.Prelude.Int.{ℤ}
use amalgam.Distributed.Digits.{is_ascii_digit, decimal}
use amalgam.Distributed.Digits.Laws.{value_from, decimal-value_from}
use amalgam.Distributed.Canonical.Number.{IsNumber, short}
use amalgam.Distributed.Canonical.{
  Bytes, split_digits, starts_with_zero, signed, magnitude, canonical_i64,
}

abbrev pub sign : Bool → Bytes
sign true = b'-' ∷ []
sign false = []

-- No further digit follows.
abbrev pub Ends : Bytes → Type 0
Ends [] = Unit {0}
Ends (c ∷ rest) = is_ascii_digit c ≡ false

split_digits-append :
    (number rest : Bytes)
    → all is_ascii_digit number ≡ true
    → Ends rest
    → split_digits (number ++ rest) ≡ (number, rest)
unfolding split_digits
split_digits-append [] [] h e = refl
split_digits-append [] (c ∷ rest) h e = ground arith
split_digits-append (c ∷ number) rest h e = ground (arith, split_digits-append number rest)

split_digits_lem :
    (bytes : Bytes)
    → (bytes ≡ (split_digits bytes).0 ++ (split_digits bytes).1)
      × (all is_ascii_digit (split_digits bytes).0 ≡ true)
      × Ends (split_digits bytes).1
unfolding split_digits
split_digits_lem [] = (refl, refl, tt)
split_digits_lem (c ∷ bytes) = elim (Bool-cases (is_ascii_digit c)) [
  | inl digit ↦ rw digit (
    ap (λ (rest : Bytes). c ∷ rest) (split_digits_lem bytes).0,
    all-cons is_ascii_digit c (split_digits bytes).0 digit (split_digits_lem bytes).1,
    (split_digits_lem bytes).2,
  )
  | inr other ↦ rw other (refl, refl, other)
]

magnitude-number :
    (negative : Bool) (number rest : Bytes)
    → IsNumber number
    → value_from 0 number < 2 ^ 63
    → Ends rest
    → magnitude negative (number ++ rest) ≡ some (signed negative (value_from 0 number), rest)
unfolding magnitude
magnitude-number negative [] rest n fits e = absurd (omega (arith, n.nonempty))
magnitude-number negative (c ∷ number) rest n fits e =
    rw (split_digits-append (c ∷ number) rest n.spelled e) (
      rw (decimal-value_from (c ∷ number) n.spelled (short (c ∷ number) n fits))
        (ground (arith, short (c ∷ number) n fits, n.plain)))

-- The sign and the digits of a JSON integer whose magnitude is below 2 ^ 63, with no digit after
-- them, are read as that integer, and what follows is left.
pub canonical_i64-literal :
    (negative : Bool) (number rest : Bytes)
    → IsNumber number
    → value_from 0 number < 2 ^ 63
    → Ends rest
    → canonical_i64 (sign negative ++ (number ++ rest))
      ≡ some (signed negative (value_from 0 number), rest)
unfolding canonical_i64
canonical_i64-literal true number rest n fits e = magnitude-number true number rest n fits e
canonical_i64-literal false [] rest n fits e = absurd (omega (arith, n.nonempty))
canonical_i64-literal false (c ∷ number) rest n fits e =
    let digit : (c == b'-') ≡ false = ground (arith, n.spelled) in
    rw digit (magnitude-number false (c ∷ number) rest n fits e)

starts_with_zero-append :
    (number rest : Bytes)
    → 0 < length number
    → starts_with_zero (number ++ rest) ≡ starts_with_zero number
starts_with_zero-append [] rest h = absurd (omega arith)
starts_with_zero-append (c ∷ number) rest h = refl

-- What an accepted numeral has passed.
magnitude-eq_some :
    (negative : Bool) (digits rest : Bytes) (z : ℤ)
    → magnitude negative digits ≡ some (z, rest)
    → ((split_digits digits).1 ≡ rest)
      × (0 < length (split_digits digits).0)
      × (length (split_digits digits).0 ≤ 19)
      × ((length (split_digits digits).0 ≡ 1) ⊎ (starts_with_zero digits ≡ false))
      × (decimal (split_digits digits).0 < 2 ^ 63)
      × (z ≡ signed negative (decimal (split_digits digits).0))
unfolding magnitude
magnitude-eq_some negative digits rest z h = (
  ground arith,
  ground arith,
  ground arith,
  elim (Bool-cases (starts_with_zero digits)) [
    | inl leading ↦ inl (ground arith)
    | inr other ↦ inr other
  ],
  ground arith,
  ground arith,
)

magnitude-IsNumber :
    (negative : Bool) (digits rest : Bytes) (z : ℤ)
    → magnitude negative digits ≡ some (z, rest)
    → (number : Bytes) × (digits ≡ number ++ rest)
      × IsNumber number
      × (value_from 0 number < 2 ^ 63)
      × Ends rest
      × (z ≡ signed negative (value_from 0 number))
magnitude-IsNumber negative digits rest z h =
    let number = (split_digits digits).0 in
    let (split, spelled, ends) = split_digits_lem digits in
    let (left, nonempty, few, plain, fits, read) = magnitude-eq_some negative digits rest z h in
    let value = decimal-value_from number spelled few in
    let whole : digits ≡ number ++ rest = split ∙ ap (λ (r : Bytes). number ++ r) left in
    let first : starts_with_zero digits ≡ starts_with_zero number =
      ap starts_with_zero whole ∙ starts_with_zero-append number rest nonempty in
    (
      number,
      whole,
      record {
        spelled = spelled;
        nonempty = nonempty;
        plain = elim plain [ inl one ↦ inl one | inr other ↦ inr (sym first ∙ other) ];
      },
      omega (arith, value, fits),
      subst Ends left ends,
      read ∙ ap (signed negative) value,
    )

-- What is read is the literal of the integer, in full.
pub canonical_i64-IsLiteral :
    (bytes rest : Bytes) (z : ℤ)
    → canonical_i64 bytes ≡ some (z, rest)
    → (negative : Bool) × (number : Bytes) × (bytes ≡ sign negative ++ (number ++ rest))
      × IsNumber number
      × (value_from 0 number < 2 ^ 63)
      × Ends rest
      × (z ≡ signed negative (value_from 0 number))
unfolding canonical_i64
canonical_i64-IsLiteral [] rest z h = cc
canonical_i64-IsLiteral (c ∷ bytes) rest z h = elim (Bool-cases (c == b'-')) [
  | inl minus ↦
      let (number, whole, n, fits, ends, read) =
        magnitude-IsNumber true bytes rest z (rw minus at h) in
      (true, number, ap₂ ◌∷◌ ((==_iff c b'-').0 minus) whole, n, fits, ends, read)
  | inr digit ↦
      let (number, whole, n, fits, ends, read) =
        magnitude-IsNumber false (c ∷ bytes) rest z (rw digit at h) in
      (false, number, whole, n, fits, ends, read)
]
