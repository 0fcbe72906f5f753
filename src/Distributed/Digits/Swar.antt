-- ===== src/Distributed/Digits/Swar.antt =====
-- src/distributed.rs: eight digits combined in one register have the value of their numeral.
use amalgam.Prelude.{ℕ, ◌+◌, ◌-◌, ◌*◌, ◌^◌, ◌≤◌, ◌≡◌, arith}
use amalgam.Distributed.Digits.{
  eight_digits, combine_digits, combine_pairs, combine_fours, from_le_bytes, u64,
}

-- The lanes of a register: eight bytes, four pairs of bytes, or two fours.
abbrev pairs : ℕ → ℕ → ℕ → ℕ → ℕ
pairs a b c d = a + b * 2 ^ 16 + c * 2 ^ 32 + d * 2 ^ 48

combine_digits_lem :
    (a b c d e f g h : ℕ)
    → a ≤ 9
    → b ≤ 9
    → c ≤ 9
    → d ≤ 9
    → e ≤ 9
    → f ≤ 9
    → g ≤ 9
    → h ≤ 9
    → combine_digits (from_le_bytes a b c d e f g h)
      ≡ pairs (a * 10 + b) (c * 10 + d) (e * 10 + f) (g * 10 + h)
unfolding combine_digits
combine_digits_lem a b c d e f g h p0 p1 p2 p3 p4 p5 p6 p7 = omega arith

combine_pairs_lem :
    (a b c d : ℕ)
    → a ≤ 99
    → b ≤ 99
    → c ≤ 99
    → d ≤ 99
    → combine_pairs (pairs a b c d) ≡ a * 100 + b + (c * 100 + d) * 2 ^ 32
unfolding combine_pairs
combine_pairs_lem a b c d p0 p1 p2 p3 = omega arith

combine_fours_lem : (a b : ℕ) → a ≤ 9999 → b ≤ 9999 → combine_fours (a + b * 2 ^ 32) ≡ a * 10000 + b
unfolding combine_fours
combine_fours_lem a b p0 p1 = omega arith

-- The byte `c` spells the digit `d`.
abbrev pub Spells : ℕ → ℕ → Type 0
Spells c d = (c ≡ b'0' + d) × (d ≤ 9)

-- The bytes of eight digits without the code of zero.
from_le_bytes-digits :
    (a b c d e f g h A B C D E F G H : ℕ)
    → Spells a A
    → Spells b B
    → Spells c C
    → Spells d D
    → Spells e E
    → Spells f F
    → Spells g G
    → Spells h H
    → u64 (from_le_bytes a b c d e f g h + 2 ^ 64 - 0x3030_3030_3030_3030)
      ≡ from_le_bytes A B C D E F G H
from_le_bytes-digits a b c d e f g h A B C D E F G H p0 p1 p2 p3 p4 p5 p6 p7 = omega arith

pub eight_digits_lem :
    (a b c d e f g h A B C D E F G H : ℕ)
    → Spells a A
    → Spells b B
    → Spells c C
    → Spells d D
    → Spells e E
    → Spells f F
    → Spells g G
    → Spells h H
    → eight_digits a b c d e f g h
      ≡ ((((((A * 10 + B) * 10 + C) * 10 + D) * 10 + E) * 10 + F) * 10 + G) * 10 + H
unfolding eight_digits
eight_digits_lem a b c d e f g h A B C D E F G H p0 p1 p2 p3 p4 p5 p6 p7 =
    rw (from_le_bytes-digits a b c d e f g h A B C D E F G H p0 p1 p2 p3 p4 p5 p6 p7) (
      rw (combine_digits_lem A B C D E F G H p0.1 p1.1 p2.1 p3.1 p4.1 p5.1 p6.1 p7.1) (
        rw
          (combine_pairs_lem (A * 10 + B) (C * 10 + D) (E * 10 + F) (G * 10 + H) (omega arith)
            (omega arith) (omega arith) (omega arith))
          (rw
            (combine_fours_lem ((A * 10 + B) * 100 + (C * 10 + D))
              ((E * 10 + F) * 100 + (G * 10 + H)) (omega arith) (omega arith))
            (omega arith))))
