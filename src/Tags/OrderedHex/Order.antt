-- ===== src/Tags/OrderedHex/Order.antt =====
-- src/tags.rs: the storage form of a version is read back, and is ordered as the versions are.
use amalgam.Prelude.{
  ℕ, zero, suc, ◌+◌, ◌*◌, ◌/◌, ◌%◌, ◌^◌, ◌<◌, ◌≡◌, refl, ◌∙◌, Bool, true, [], ◌∷◌, ◌++◌, ◌==◌, ◌&&◌,
  leb, length, length-append, all, arith, if◌then◌else◌,
}
use native.Mathlib.Nat.{pow-succ'}
use amalgam.Prelude.Int.{ℤ, pos, negsuc, leb_ℤ}
use amalgam.Prelude.Word.{IsI64}
use amalgam.Prelude.Text.{Text, text_eq, text_leb}
use amalgam.Prelude.Result.{ok}
use amalgam.Tags.Marker.{MarkerVersion}
use amalgam.Tags.OrderedHex.{
  as_u64, as_i64, flip_top, hex_digit, hex_value, is_ascii_hexdigit, hex_digits, from_hex,
  ordered_hex, from_ordered_hex,
}

from_hex-append : (n c : ℕ) (s : Text) → from_hex n (s ++ c ∷ []) ≡ from_hex n s * 16 + hex_value c
unfolding from_hex
from_hex-append n c [] = refl
from_hex-append n c (d ∷ s) = from_hex-append (n * 16 + hex_value d) c s

hex_value-hex_digit : (d : ℕ) → d < 16 → hex_value (hex_digit d) ≡ d
hex_value-hex_digit d h = ground arith

length-hex_digits : (w n : ℕ) → length (hex_digits w n) ≡ w
unfolding hex_digits
length-hex_digits zero n = refl
length-hex_digits (suc w) n = omega (
  arith,
  length-append (hex_digits w (n / 16)) (hex_digit (n % 16) ∷ []),
  length-hex_digits w (n / 16),
)

all-append_one : (p : ℕ → Bool) (s : Text) (c : ℕ) → all p (s ++ c ∷ []) ≡ (all p s && p c)
all-append_one p [] c = ground arith
all-append_one p (d ∷ s) c = ground (arith, all-append_one p s c)

is_ascii_hexdigit-hex_digit : (d : ℕ) → d < 16 → is_ascii_hexdigit (hex_digit d) ≡ true
is_ascii_hexdigit-hex_digit d h = ground arith

all-hex_digits : (w n : ℕ) → all is_ascii_hexdigit (hex_digits w n) ≡ true
unfolding hex_digits
all-hex_digits zero n = refl
all-hex_digits (suc w) n =
    let a = all-append_one is_ascii_hexdigit (hex_digits w (n / 16)) (hex_digit (n % 16)) in
    let d = is_ascii_hexdigit-hex_digit (n % 16) (omega arith) in
    rw (a, all-hex_digits w (n / 16)) d

pow_16 : (w : ℕ) → 16 ^ suc w ≡ 16 * 16 ^ w
pow_16 w = pow-succ' 16 w

from_hex-hex_digits : (w n : ℕ) → n < 16 ^ w → from_hex 0 (hex_digits w n) ≡ n
unfolding hex_digits from_hex
from_hex-hex_digits zero n h = ground (arith, h)
from_hex-hex_digits (suc w) n h =
    let p = pow_16 w in
    let ih = from_hex-hex_digits w (n / 16) (omega (arith, h, p)) in
    let a = from_hex-append 0 (hex_digit (n % 16)) (hex_digits w (n / 16)) in
    let d = hex_value-hex_digit (n % 16) (omega arith) in omega (arith, a, d, ih)

-- Texts of one length are ordered by all but their last characters first.
text_leb-append :
    (s t : Text) (c d : ℕ)
    → length s ≡ length t
    → text_leb (s ++ c ∷ []) (t ++ d ∷ []) ≡ (if text_eq s t then leb c d else text_leb s t)
text_leb-append [] [] c d h = ground arith
text_leb-append [] (y ∷ t) c d h = ground arith
text_leb-append (x ∷ s) [] c d h = ground arith
text_leb-append (x ∷ s) (y ∷ t) c d h = ground (arith, text_leb-append s t c d)

hex_digit_mono : (d e : ℕ) → d < 16 → e < 16 → leb (hex_digit d) (hex_digit e) ≡ leb d e
hex_digit_mono d e h k = ground arith

text_eq-append :
    (s t : Text) (c d : ℕ)
    → length s ≡ length t
    → text_eq (s ++ c ∷ []) (t ++ d ∷ []) ≡ (text_eq s t && c == d)
text_eq-append [] [] c d h = ground arith
text_eq-append [] (y ∷ t) c d h = ground arith
text_eq-append (x ∷ s) [] c d h = ground arith
text_eq-append (x ∷ s) (y ∷ t) c d h = ground (arith, text_eq-append s t c d)

hex_digit-eq : (d e : ℕ) → d < 16 → e < 16 → (hex_digit d == hex_digit e) ≡ (d == e)
hex_digit-eq d e h k = ground arith

-- The texts of two numbers are equal, and ordered, as the numbers are.
hex_digits-compare :
    (w m n : ℕ)
    → m < 16 ^ w
    → n < 16 ^ w
    → (text_eq (hex_digits w m) (hex_digits w n) ≡ (m == n))
      × (text_leb (hex_digits w m) (hex_digits w n) ≡ leb m n)
unfolding hex_digits
hex_digits-compare zero m n h k = ground (arith, h, k)
hex_digits-compare (suc w) m n h k =
    let p = pow_16 w in
    let (e, l) =
      hex_digits-compare w (m / 16) (n / 16) (omega (arith, h, p)) (omega (arith, k, p)) in
    let a = hex_digits w (m / 16) in
    let b = hex_digits w (n / 16) in
    let len : length a ≡ length b =
      omega (arith, length-hex_digits w (m / 16), length-hex_digits w (n / 16)) in
    let x = text_eq-append a b (hex_digit (m % 16)) (hex_digit (n % 16)) len in
    let y = text_leb-append a b (hex_digit (m % 16)) (hex_digit (n % 16)) len in
    let u = hex_digit-eq (m % 16) (n % 16) (omega arith) (omega arith) in
    let v = hex_digit_mono (m % 16) (n % 16) (omega arith) (omega arith) in
    (rw (x, e, u) (ground arith), rw (y, e, v, l) (ground arith))

-- The biased bits of a version: below 2 ^ 64, in the order of the versions.
flip_top-as_u64-bounded : (v : ℤ) → IsI64 v → flip_top (as_u64 v) < 16 ^ 16
flip_top-as_u64-bounded (pos n) h = ground arith
flip_top-as_u64-bounded (negsuc n) h = ground arith

flip_top-as_u64_mono :
    (v w : ℤ) → IsI64 v → IsI64 w → leb (flip_top (as_u64 v)) (flip_top (as_u64 w)) ≡ leb_ℤ v w
flip_top-as_u64_mono (pos m) (pos n) h k = ground arith
flip_top-as_u64_mono (pos m) (negsuc n) h k = ground arith
flip_top-as_u64_mono (negsuc m) (pos n) h k = ground arith
flip_top-as_u64_mono (negsuc m) (negsuc n) h k = ground arith

as_i64-flip_top : (v : ℤ) → IsI64 v → as_i64 (flip_top (flip_top (as_u64 v))) ≡ v
as_i64-flip_top (pos n) h = ground arith
as_i64-flip_top (negsuc n) h = ground arith

-- Every representable version is read back from its storage form.
pub from_ordered_hex-ordered_hex :
    (v : MarkerVersion) → IsI64 v → from_ordered_hex (ordered_hex v) ≡ ok v
unfolding from_ordered_hex ordered_hex
from_ordered_hex-ordered_hex v h =
    let n = flip_top (as_u64 v) in
    let l = length-hex_digits 16 n in
    let x = from_hex-hex_digits 16 n (flip_top-as_u64-bounded v h) in
    rw (l, all-hex_digits 16 n, x, as_i64-flip_top v h) refl

-- The storage forms of representable versions, compared as texts, are ordered as the versions,
-- negative ones included.
pub ordered_hex-order :
    (v w : MarkerVersion) → IsI64 v → IsI64 w → text_leb (ordered_hex v) (ordered_hex w) ≡ leb_ℤ v w
unfolding ordered_hex
ordered_hex-order v w h k =
    (hex_digits-compare 16 (flip_top (as_u64 v)) (flip_top (as_u64 w)) (flip_top-as_u64-bounded v h)
      (flip_top-as_u64-bounded w k)).1
    ∙ flip_top-as_u64_mono v w h k
