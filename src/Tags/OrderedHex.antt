-- ===== src/Tags/OrderedHex.antt =====
-- src/tags.rs: the storage form of a marker version, sixteen hexadecimal digits.
pub mod Order
use amalgam.Prelude.{
  ℕ, zero, suc, ◌+◌, ◌-◌, ◌*◌, ◌/◌, ◌%◌, ◌^◌, Bool, true, false, not, List, [], ◌∷◌, ◌++◌, ◌==◌,
  ◌&&◌, ◌||◌, ltb, leb, length, all, if◌then◌else◌,
}
use amalgam.Prelude.Int.{ℤ, pos, negsuc}
use amalgam.Prelude.Text.{Text}
use amalgam.Prelude.Result.{Result, ok, err}
use amalgam.Tags.Marker.{MarkerVersion, MarkerError, protocol}

-- `ticks as u64`, and back: two's complement.
abbrev pub as_u64 : ℤ → ℕ
as_u64 (pos n) = n % 2 ^ 64
as_u64 (negsuc n) = 2 ^ 64 - 1 - n % 2 ^ 64

abbrev pub as_i64 : ℕ → ℤ
as_i64 x = if ltb x (2 ^ 63) then pos x else negsuc (2 ^ 64 - 1 - x)

-- `x ^ (1 << 63)` on 64 bits: the top bit is flipped.
abbrev pub flip_top : ℕ → ℕ
flip_top x = if ltb x (2 ^ 63) then x + 2 ^ 63 else x - 2 ^ 63

abbrev pub hex_digit : ℕ → ℕ
hex_digit d = if ltb d 10 then d + b'0' else d - 10 + b'a'

abbrev pub is_ascii_hexdigit : ℕ → Bool
is_ascii_hexdigit c =
    (leb b'0' c && leb c b'9') || ((leb b'a' c && leb c b'f') || (leb b'A' c && leb c b'F'))

abbrev pub hex_value : ℕ → ℕ
hex_value c = if leb c b'9' then c - b'0' else if leb b'a' c then c - b'a' + 10 else c - b'A' + 10

-- The lowest digits of a number in base 16, the highest of them first.
unfoldable pub hex_digits : ℕ → ℕ → Text
hex_digits zero n = []
hex_digits (suc width) n = hex_digits width (n / 16) ++ hex_digit (n % 16) ∷ []

-- `u64::from_str_radix(_, 16)`, on digits that fit.
unfoldable pub from_hex : ℕ → Text → ℕ
from_hex n [] = n
from_hex n (c ∷ s) = from_hex (n * 16 + hex_value c) s

unfoldable pub ordered_hex : MarkerVersion → Text
unfolding hex_digits
ordered_hex v = hex_digits 16 (flip_top (as_u64 v))

abbrev invalid_revision : MarkerError
invalid_revision = protocol (
    b'i' ∷ b'n' ∷ b'v' ∷ b'a' ∷ b'l' ∷ b'i' ∷ b'd' ∷ b' ' ∷ b'm' ∷ b'a' ∷ b'r' ∷ b'k' ∷ b'e' ∷ b'r'
    ∷ b' ' ∷ b'r' ∷ b'e' ∷ b'v' ∷ b'i' ∷ b's' ∷ b'i' ∷ b'o' ∷ b'n' ∷ [])

unfoldable pub from_ordered_hex : Text → Result MarkerVersion MarkerError
unfolding from_hex
from_ordered_hex s =
    if length s == 16 && all is_ascii_hexdigit s
    then ok (as_i64 (flip_top (from_hex 0 s)))
    else err invalid_revision
