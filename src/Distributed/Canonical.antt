-- ===== src/Distributed/Canonical.antt =====
-- src/distributed.rs: the decoders for exactly the bytes that this crate writes. Whatever they do
-- not recognise is left to the general decoder.
pub mod Number
pub mod Integer
use amalgam.Prelude.{
  ℕ, ◌^◌, ◌≡◌, refl, Bool, true, false, Option, none, some, List, [], ◌∷◌, ◌++◌, ◌==◌, ◌||◌, ◌&&◌,
  ltb, length, any, if◌then◌else◌,
}
use amalgam.Prelude.Int.{ℤ, pos}
use amalgam.Prelude.Text.{Text, ascii}
use amalgam.Time.Timestamp.{negate}
use amalgam.Distributed.Digits.{is_ascii_digit, decimal}

abbrev pub Bytes : Type 0
Bytes = List ℕ

infixl 5 ◌>>=◌
abbrev pub ◌>>=◌ {ℓ κ} : {A : Type ℓ} {B : Type κ} → Option A → (A → Option B) → Option B
none >>= f = none
some a >>= f = f a

pub >>=-eq_some {ℓ κ} :
    {A : Type ℓ} {B : Type κ} (m : Option A) (f : A → Option B) {b : B}
    → (m >>= f) ≡ some b
    → (a : A) × (m ≡ some a) × (f a ≡ some b)
>>=-eq_some none f h = cc
>>=-eq_some (some a) f h = (a, refl, h)

-- `slice::strip_prefix`
unfoldable pub strip_prefix : Bytes → Bytes → Option Bytes
strip_prefix [] bytes = some bytes
strip_prefix (p ∷ prefix) [] = none
strip_prefix (p ∷ prefix) (c ∷ bytes) = if p == c then strip_prefix prefix bytes else none

-- `split_at` the length of the leading digits.
unfoldable pub split_digits : Bytes → Bytes × Bytes
split_digits [] = ([], [])
split_digits (c ∷ bytes) =
    let (number, rest) = split_digits bytes in
    if is_ascii_digit c then (c ∷ number, rest) else ([], c ∷ bytes)

abbrev pub starts_with_zero : Bytes → Bool
starts_with_zero [] = false
starts_with_zero (c ∷ bytes) = c == b'0'

abbrev pub signed : Bool → ℕ → ℤ
signed negative magnitude = if negative then negate magnitude else pos magnitude

-- What follows the sign.
magnitude : Bool → Bytes → Option (ℤ × Bytes)
magnitude negative digits =
    let (number, rest) = split_digits digits in
    if length number == 0
      || (ltb 19 (length number) || (ltb 1 (length number) && starts_with_zero digits))
    then none
    else if ltb (decimal number) (2 ^ 63)
    then some (signed negative (decimal number), rest)
    else none

unfoldable pub canonical_i64 : Bytes → Option (ℤ × Bytes)
unfolding magnitude
canonical_i64 [] = none
canonical_i64 (c ∷ rest) = if c == b'-' then magnitude true rest else magnitude false (c ∷ rest)
