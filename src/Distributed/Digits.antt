-- ===== src/Distributed/Digits.antt =====
-- src/distributed.rs: the decimal digits of the canonical decoder, eight at a time. Bytes are
-- numbers below 256; sums and products wrap at 64 bits.
mod Swar
pub mod Laws
use amalgam.Prelude.{ℕ, ◌+◌, ◌-◌, ◌*◌, ◌/◌, ◌%◌, ◌^◌, Bool, List, [], ◌∷◌, ◌&&◌, leb}

abbrev pub u64 : ℕ → ℕ
u64 n = n % 2 ^ 64

-- `u8::is_ascii_digit`
abbrev pub is_ascii_digit : ℕ → Bool
is_ascii_digit c = leb b'0' c && leb c b'9'

-- `& 0x00FF_00FF_00FF_00FF`: every other byte, in its place.
abbrev even_bytes : ℕ → ℕ
even_bytes w =
    w % 256 + w / 2 ^ 16 % 256 * 2 ^ 16 + w / 2 ^ 32 % 256 * 2 ^ 32 + w / 2 ^ 48 % 256 * 2 ^ 48

-- `& 0x0000_FFFF_0000_FFFF`
abbrev even_pairs : ℕ → ℕ
even_pairs w = w % 2 ^ 16 + w / 2 ^ 32 % 2 ^ 16 * 2 ^ 32

-- `u64::from_le_bytes`
abbrev from_le_bytes : ℕ → ℕ → ℕ → ℕ → ℕ → ℕ → ℕ → ℕ → ℕ
from_le_bytes a b c d e f g h =
    a + b * 2 ^ 8 + c * 2 ^ 16 + d * 2 ^ 24 + e * 2 ^ 32 + f * 2 ^ 40 + g * 2 ^ 48 + h * 2 ^ 56

-- The three lines that combine neighbours: digits, pairs of digits, and fours.
combine_digits : ℕ → ℕ
combine_digits word = even_bytes (u64 (u64 (word * 10) + word / 2 ^ 8))

combine_pairs : ℕ → ℕ
combine_pairs word = even_pairs (u64 (u64 (word * 100) + word / 2 ^ 16))

combine_fours : ℕ → ℕ
combine_fours word = u64 (u64 (word * 10000) + word / 2 ^ 32) % 2 ^ 32

pub eight_digits : ℕ → ℕ → ℕ → ℕ → ℕ → ℕ → ℕ → ℕ → ℕ
unfolding combine_digits combine_pairs combine_fours
eight_digits a b c d e f g h =
    let word = u64 (from_le_bytes a b c d e f g h + 2 ^ 64 - 0x3030_3030_3030_3030) in
    combine_fours (combine_pairs (combine_digits word))

-- The digits that are left over, one at a time.
last_digits : ℕ → List ℕ → ℕ
last_digits value [] = value
last_digits value (digit ∷ rest) = last_digits (u64 (u64 (value * 10) + (digit - b'0'))) rest

chunks : ℕ → List ℕ → ℕ
unfolding last_digits eight_digits
chunks value (a ∷ b ∷ c ∷ d ∷ e ∷ f ∷ g ∷ h ∷ rest) =
    chunks (u64 (u64 (value * 100000000) + eight_digits a b c d e f g h)) rest
chunks value rest = last_digits value rest

unfoldable pub decimal : List ℕ → ℕ
unfolding chunks
decimal digits = chunks 0 digits
