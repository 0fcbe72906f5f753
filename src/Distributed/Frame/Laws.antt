-- ===== src/Distributed/Frame/Laws.antt =====
-- src/distributed.rs: the frame is undone by its decoder, whose shortcut agrees with `serde_json`.
use amalgam.Prelude.{
  ℕ, ◌/◌, ◌%◌, ◌^◌, lt→ltb, ◌<◌, ◌≡◌, ◌≢◌, ◌⊎◌, ◌==◌, ==_iff, refl, ap, sym, ◌∙◌, Bool, true, false,
  none, some, [], ◌∷◌, ◌++◌, length, arith, Option-cases, inl, inr, Bool-cases,
}
use amalgam.Prelude.Int.{ℤ}
use amalgam.Prelude.Text.{Text, ascii, text_eq, text_eq→eq}
use amalgam.Prelude.Result.{Result, ok}
use amalgam.Options.Values.{low, normal, high, never_remove}
use amalgam.Distributed.Envelope.{DistributedSnapshot, SnapshotRetention}
use amalgam.Distributed.Digits.Laws.{value_from}
use amalgam.Distributed.Canonical.{Bytes, strip_prefix, canonical_i64, signed, >>=-eq_some}
use amalgam.Distributed.Canonical.Number.{IsNumber, value_from-zero}
use amalgam.Distributed.Canonical.Integer.{sign, canonical_i64-literal, canonical_i64-IsLiteral}
use amalgam.Distributed.Frame.{
  SnapshotHeader, unspecified, snapshot_magic, snapshot_version, to_be_bytes, from_be_bytes,
  split_at, priority_from_byte, to_wire, from_wire, canonical_header, read_header, decoded,
  frame_snapshot, unframe_snapshot, unframe_rest, header_of, header_end, after_ticks, ticks_header,
}

pub strip_prefix-append : (prefix rest : Bytes) → strip_prefix prefix (prefix ++ rest) ≡ some rest
unfolding strip_prefix
strip_prefix-append [] rest = refl
strip_prefix-append (c ∷ prefix) rest = ground (arith, strip_prefix-append prefix rest)

pub strip_prefix-eq_some :
    (prefix bytes rest : Bytes) → strip_prefix prefix bytes ≡ some rest → bytes ≡ prefix ++ rest
unfolding strip_prefix
strip_prefix-eq_some [] bytes rest h = cc
strip_prefix-eq_some (p ∷ prefix) [] rest h = cc
strip_prefix-eq_some (p ∷ prefix) (c ∷ bytes) rest h =
    ground (arith, strip_prefix-eq_some prefix bytes rest)

split_at-append : (s rest : Bytes) → split_at (length s) (s ++ rest) ≡ some (s, rest)
unfolding split_at
split_at-append [] rest = refl
split_at-append (c ∷ s) rest = rw (split_at-append s rest)

-- The text of a header without retention.
abbrev pub header_text : Bytes → Bytes
header_text literal = ascii "{\"inserted_ticks\":" ++ (literal ++ header_end)

-- What `serde_json` does with such a text whose integer fits. It takes -0 for a float, and refuses it.
abbrev pub ReadsHeaders : (Bytes → Result SnapshotHeader Text) → Type 0
ReadsHeaders from_slice =
    (negative : Bool) (number : Bytes)
    → IsNumber number
    → value_from 0 number < 2 ^ 63
    → (negative ≡ false) ⊎ (0 < value_from 0 number)
    → from_slice (header_text (sign negative ++ number))
      ≡ ok (record {
        inserted_ticks = signed negative (value_from 0 number);
        retention = unspecified;
      })

abbrev pub ticks_only : ℤ → SnapshotHeader
ticks_only z = record { inserted_ticks = z; retention = unspecified }

header_text-sign :
    (negative : Bool) (number bytes rest end : Bytes)
    → bytes ≡ ascii "{\"inserted_ticks\":" ++ rest
    → rest ≡ sign negative ++ (number ++ end)
    → end ≡ header_end
    → bytes ≡ header_text (sign negative ++ number)
header_text-sign true number bytes rest end p q r = rw (p, q, r)
header_text-sign false number bytes rest end p q r = rw (p, q, r)

after_ticks-eq_some :
    (z : ℤ) (end : Bytes) (h : SnapshotHeader)
    → after_ticks (z, end) ≡ some h
    → (end ≡ header_end) × (h ≡ record { inserted_ticks = z; retention = unspecified })
unfolding after_ticks
after_ticks-eq_some z end h e = elim (Bool-cases (text_eq end header_end)) [
  | inl same ↦ (text_eq→eq end header_end same, ground (arith, same))
  | inr other ↦ absurd (ground (arith, other))
]

canonical_header-eq_some :
    (bytes : Bytes) (h : SnapshotHeader)
    → canonical_header bytes ≡ some h
    → (negative : Bool) × (number : Bytes) × (bytes ≡ header_text (sign negative ++ number))
      × IsNumber number
      × (value_from 0 number < 2 ^ 63)
      × (h ≡ record {
        inserted_ticks = signed negative (value_from 0 number);
        retention = unspecified;
      })
unfolding canonical_header
canonical_header-eq_some bytes h e =
    let (rest, stripped, e1) =
      >>=-eq_some (strip_prefix (ascii "{\"inserted_ticks\":") bytes) ticks_header e in
    let ((z, end), ticks, e2) = >>=-eq_some (canonical_i64 rest) after_ticks e1 in
    let (same, built) = after_ticks-eq_some z end h e2 in
    let (negative, number, whole, n, fits, _, value) = canonical_i64-IsLiteral rest end z ticks in
    (
      negative,
      number,
      header_text-sign negative number bytes rest end
          (strip_prefix-eq_some (ascii "{\"inserted_ticks\":") bytes rest stripped) whole same,
      n,
      fits,
      built ∙ ap ticks_only value,
    )

not_negative_zero :
    (bytes : Bytes) (negative : Bool) (number : Bytes)
    → IsNumber number
    → bytes ≡ header_text (sign negative ++ number)
    → bytes ≢ header_text (ascii "-0")
    → (negative ≡ false) ⊎ (0 < value_from 0 number)
not_negative_zero bytes false number n whole other = inl refl
not_negative_zero bytes true number n whole other = elim (Bool-cases (value_from 0 number == 0)) [
  | inl z ↦
      let zero_digit = value_from-zero number n ((==_iff (value_from 0 number) 0).0 z) in
      absurd (other (whole ∙ ap (λ (d : Bytes). header_text (sign true ++ d)) zero_digit))
  | inr z ↦ inr (ground arith)
]

module _ (from_slice : Bytes → Result SnapshotHeader Text) (reads : ReadsHeaders from_slice) where
  -- The shortcut for canonical headers never changes what a header is read as, unless its integer is
  -- spelled -0, provided that serde_json reads the other headers that it recognises as the JSON that
  -- they are.
  pub read_header-decoded :
      (bytes : Bytes)
      → bytes ≢ header_text (ascii "-0")
      → read_header from_slice bytes ≡ decoded (from_slice bytes)
  unfolding read_header
  read_header-decoded bytes unsigned = elim (Option-cases (canonical_header bytes)) [
    | inl unknown ↦ rw unknown
    | inr (h, known) ↦
        let (negative, number, whole, n, fits, built) = canonical_header-eq_some bytes h known in
        let read : from_slice bytes ≡ ok h =
          ap from_slice whole
          ∙ reads negative number n fits (not_negative_zero bytes negative number n whole unsigned)
          ∙ ap ok (sym built) in
        rw (known, read)
  ]

-- The shortcut recognises the headers without retention whose integer fits.
pub canonical_header-header_text :
    (negative : Bool) (number : Bytes)
    → IsNumber number
    → value_from 0 number < 2 ^ 63
    → canonical_header (header_text (sign negative ++ number))
      ≡ some (ticks_only (signed negative (value_from 0 number)))
unfolding canonical_header ticks_header after_ticks
canonical_header-header_text true number n fits = rw (
  strip_prefix-append (ascii "{\"inserted_ticks\":") (sign true ++ (number ++ header_end)),
  canonical_i64-literal true number header_end n fits refl,
)
canonical_header-header_text false number n fits = rw (
  strip_prefix-append (ascii "{\"inserted_ticks\":") (number ++ header_end),
  canonical_i64-literal false number header_end n fits refl,
)

from_be_bytes-to_be_bytes :
    (n : ℕ)
    → n < 2 ^ 32
    → from_be_bytes (n / 2 ^ 24 % 256) (n / 2 ^ 16 % 256) (n / 2 ^ 8 % 256) (n % 256) ≡ n
from_be_bytes-to_be_bytes n h = omega arith

pub from_wire-to_wire : (r : SnapshotRetention) → from_wire (to_wire r) ≡ ok r
unfolding from_wire priority_from_byte
from_wire-to_wire SnapshotRetention.unspecified = refl
from_wire-to_wire (SnapshotRetention.specified none low) = refl
from_wire-to_wire (SnapshotRetention.specified none normal) = refl
from_wire-to_wire (SnapshotRetention.specified none high) = refl
from_wire-to_wire (SnapshotRetention.specified none never_remove) = refl
from_wire-to_wire (SnapshotRetention.specified (some w) low) = refl
from_wire-to_wire (SnapshotRetention.specified (some w) normal) = refl
from_wire-to_wire (SnapshotRetention.specified (some w) high) = refl
from_wire-to_wire (SnapshotRetention.specified (some w) never_remove) = refl

-- The bytes of a frame.
abbrev pub framed : Bytes → Bytes → Bytes
framed text payload =
    snapshot_magic ++ (snapshot_version ∷ (to_be_bytes (length text) ++ (text ++ payload)))

module _ {ℓ} {V : Type ℓ} (to_vec : SnapshotHeader → Result Bytes Text) (s : DistributedSnapshot V)
    (text payload : Bytes) (wrote : to_vec (header_of to_vec s) ≡ ok text)
    (short : length text < 2 ^ 32) where
  pub frame_snapshot_lem : frame_snapshot to_vec s payload ≡ ok (framed text payload)
  unfolding frame_snapshot
  frame_snapshot_lem = rw (wrote, lt→ltb (length text) (2 ^ 32) short)

pub unframe_snapshot-framed :
    (from_slice : Bytes → Result SnapshotHeader Text)
    → ReadsHeaders from_slice
    → (h : SnapshotHeader) (text payload : Bytes) → from_slice text ≡ ok h
    → length text < 2 ^ 32
    → text ≢ header_text (ascii "-0")
    → unframe_snapshot from_slice (framed text payload) ≡ ok (some (h, payload))
unfolding unframe_snapshot unframe_rest
unframe_snapshot-framed from_slice reads h text payload read short unsigned = rw (
  strip_prefix-append snapshot_magic
      (snapshot_version ∷ (to_be_bytes (length text) ++ (text ++ payload))),
  from_be_bytes-to_be_bytes (length text) short,
  split_at-append text payload,
  read_header-decoded from_slice reads text unsigned,
  read,
)
