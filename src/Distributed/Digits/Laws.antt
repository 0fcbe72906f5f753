-- ===== src/Distributed/Digits/Laws.antt =====
-- src/distributed.rs: the digits in chunks have the value of the numeral they spell.
use amalgam.Prelude.{
  ℕ, zero, suc, ◌+◌, ◌-◌, ◌*◌, ◌^◌, ◌≤◌, ◌<◌, ◌≡◌, refl, true, List, [], ◌∷◌, all, all-prefix,
  length, arith,
}
use amalgam.Distributed.Digits.{is_ascii_digit, u64, eight_digits, last_digits, chunks, decimal}
use amalgam.Distributed.Digits.Swar.{Spells, eight_digits_lem}

-- The number that a numeral spells, after the digits of `acc`.
unfoldable pub value_from : ℕ → List ℕ → ℕ
value_from acc [] = acc
value_from acc (c ∷ s) = value_from (acc * 10 + (c - b'0')) s

-- One more than the greatest number that `n` further digits can spell after those of `acc`.
unfoldable pub room : ℕ → ℕ → ℕ
room acc zero = acc + 1
room acc (suc n) = room (acc * 10 + 9) n

room_mono : (a b n : ℕ) → a ≤ b → room a n ≤ room b n
unfolding room
room_mono a b zero h = omega arith
room_mono a b (suc n) h = room_mono (a * 10 + 9) (b * 10 + 9) n (omega arith)

room_acc : (acc n : ℕ) → acc < room acc n
unfolding room
room_acc acc zero = omega arith
room_acc acc (suc n) = omega (arith, room_acc (acc * 10 + 9) n)

room_grows : (acc n m : ℕ) → n ≤ m → room acc n ≤ room acc m
unfolding room
room_grows acc zero m h = omega (arith, room_acc acc m)
room_grows acc (suc n) zero h = absurd (omega arith)
room_grows acc (suc n) (suc m) h = room_grows (acc * 10 + 9) n m (omega arith)

room_nineteen : room 0 19 ≡ 10 ^ 19
unfolding room
room_nineteen = refl

-- Nineteen digits always fit 64 bits.
pub room_fits : (n : ℕ) → n ≤ 19 → room 0 n ≤ 2 ^ 64
room_fits n h = omega (arith, room_grows 0 n 19 h, room_nineteen)

pub value_from-room :
    (acc : ℕ) (s : List ℕ) → all is_ascii_digit s ≡ true → value_from acc s < room acc (length s)
unfolding value_from room
value_from-room acc [] h = omega arith
value_from-room acc (c ∷ s) h = ground (
  arith,
  value_from-room (acc * 10 + (c - b'0')) s,
  room_mono (acc * 10 + (c - b'0')) (acc * 10 + 9) (length s),
)

digit_first :
    (c : ℕ) (s : List ℕ)
    → all is_ascii_digit (c ∷ s) ≡ true
    → Spells c (c - b'0') × (all is_ascii_digit s ≡ true)
digit_first c s h = ground arith

last_digits-value :
    (acc : ℕ) (s : List ℕ)
    → all is_ascii_digit s ≡ true
    → room acc (length s) ≤ 2 ^ 64
    → last_digits acc s ≡ value_from acc s
unfolding last_digits value_from room
last_digits-value acc [] h fits = refl
last_digits-value acc (c ∷ s) h fits =
    let digit = digit_first c s h in
    let small =
      room_mono (acc * 10 + (c - b'0')) (acc * 10 + 9) (length s) (omega (arith, digit)) in
    let held = room_acc (acc * 10 + (c - b'0')) (length s) in
    let e : u64 (u64 (acc * 10) + (c - b'0')) ≡ acc * 10 + (c - b'0') =
      omega (arith, small, held, fits) in
    rw e (last_digits-value (acc * 10 + (c - b'0')) s digit.1 (omega (arith, small, fits)))

eight_digits-value :
    (acc a b c d e f g h : ℕ) (s : List ℕ)
    → all is_ascii_digit (a ∷ b ∷ c ∷ d ∷ e ∷ f ∷ g ∷ h ∷ s) ≡ true
    → (acc * 100000000 + eight_digits a b c d e f g h
        ≡ value_from acc (a ∷ b ∷ c ∷ d ∷ e ∷ f ∷ g ∷ h ∷ []))
      × (all is_ascii_digit s ≡ true)
unfolding value_from
eight_digits-value acc a b c d e f g h s q =
    let d0 = digit_first a (b ∷ c ∷ d ∷ e ∷ f ∷ g ∷ h ∷ s) q in
    let d1 = digit_first b (c ∷ d ∷ e ∷ f ∷ g ∷ h ∷ s) d0.1 in
    let d2 = digit_first c (d ∷ e ∷ f ∷ g ∷ h ∷ s) d1.1 in
    let d3 = digit_first d (e ∷ f ∷ g ∷ h ∷ s) d2.1 in
    let d4 = digit_first e (f ∷ g ∷ h ∷ s) d3.1 in
    let d5 = digit_first f (g ∷ h ∷ s) d4.1 in
    let d6 = digit_first g (h ∷ s) d5.1 in
    let d7 = digit_first h (s) d6.1 in
    let e =
      eight_digits_lem a b c d e f g h (a - b'0') (b - b'0') (c - b'0') (d - b'0') (e - b'0')
        (f - b'0') (g - b'0') (h - b'0') d0.0 d1.0 d2.0 d3.0 d4.0 d5.0 d6.0 d7.0 in
    (rw e (omega arith), d7.1)

-- A value that fits is not changed by the arithmetic at 64 bits, and leaves what follows its room.
chunk_step :
    (acc w v bound n : ℕ)
    → acc * 100000000 + w ≡ v
    → v < bound + 1
    → room bound n ≤ 2 ^ 64
    → (u64 (u64 (acc * 100000000) + w) ≡ v) × (room v n ≤ 2 ^ 64)
chunk_step acc w v bound n e h fits =
    let small = room_mono v bound n (omega arith) in
    (omega (arith, small, room_acc v n), omega (arith, small))

chunks-value :
    (s : List ℕ) (acc : ℕ)
    → all is_ascii_digit s ≡ true
    → room acc (length s) ≤ 2 ^ 64
    → chunks acc s ≡ value_from acc s
unfolding chunks value_from room
chunks-value (a ∷ b ∷ c ∷ d ∷ e ∷ f ∷ g ∷ h ∷ s) acc q fits =
    let read = eight_digits-value acc a b c d e f g h s q in
    let step =
      chunk_step acc (eight_digits a b c d e f g h) _ _ (length s) read.0
        (value_from-room acc (a ∷ b ∷ c ∷ d ∷ e ∷ f ∷ g ∷ h ∷ [])
          (all-prefix is_ascii_digit (a ∷ b ∷ c ∷ d ∷ e ∷ f ∷ g ∷ h ∷ []) s q))
        fits in
    rw step.0 (chunks-value s _ read.1 step.1)
chunks-value s acc q fits = last_digits-value acc s q fits

-- Up to nineteen ASCII digits, read eight at a time in one 64-bit register, have the value of the
-- numeral that they spell: nothing wraps and no lane carries.
pub decimal-value_from :
    (digits : List ℕ)
    → all is_ascii_digit digits ≡ true
    → length digits ≤ 19
    → decimal digits ≡ value_from 0 digits
unfolding decimal
decimal-value_from digits h short = chunks-value digits 0 h (room_fits (length digits) short)
