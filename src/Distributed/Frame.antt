-- ===== src/Distributed/Frame.antt =====
-- src/distributed.rs: the frame of a snapshot, a header in JSON before the payload of the codec.
-- `to_vec` and `from_slice` stand for `serde_json` on the header.
pub mod Laws
use amalgam.Prelude.{
  ℕ, zero, suc, ◌+◌, ◌*◌, ◌/◌, ◌%◌, ◌^◌, Bool, Option, none, some, List, [], ◌∷◌, ◌++◌, ◌==◌, ltb,
  length, if◌then◌else◌,
}
use mathlib.Core.Option
use amalgam.Prelude.Int.{ℤ}
use amalgam.Prelude.Text.{Text, ascii, text_eq}
use amalgam.Prelude.Result.{Result, ok, err, ◌>>=◌, ◌>>◌}
use amalgam.Options.Values.{EntryWeight, Priority, low, normal, high, never_remove}
use amalgam.Distributed.Envelope
use amalgam.Distributed.Envelope.{
  Error, serialization, deserialization, DistributedEntry, DistributedSnapshot, SnapshotRetention,
}
use amalgam.Distributed.Canonical
use amalgam.Distributed.Canonical.{Bytes, strip_prefix, canonical_i64}

-- `b"AMALGAM\0"`
abbrev pub snapshot_magic : Bytes
snapshot_magic = ascii "AMALGAM" ++ 0 ∷ []

abbrev pub snapshot_version : ℕ
snapshot_version = 2

pub data WireRetention : Type 0 where
  unspecified : WireRetention
  specified : Option ℕ → ℕ → WireRetention

pub record SnapshotHeader : Type 0 where
  pub inserted_ticks : ℤ
  pub retention : WireRetention

-- `u32::to_be_bytes` and `u32::from_be_bytes`.
abbrev pub to_be_bytes : ℕ → Bytes
to_be_bytes n = n / 2 ^ 24 % 256 ∷ n / 2 ^ 16 % 256 ∷ n / 2 ^ 8 % 256 ∷ n % 256 ∷ []

abbrev pub from_be_bytes : ℕ → ℕ → ℕ → ℕ → ℕ
from_be_bytes a b c d = a * 2 ^ 24 + b * 2 ^ 16 + c * 2 ^ 8 + d

abbrev pub priority_byte : Priority → ℕ
priority_byte low = 1
priority_byte normal = 2
priority_byte high = 3
priority_byte never_remove = 4

pub priority_from_byte : ℕ → Result Priority Error
priority_from_byte byte =
    if byte == 1
    then ok low
    else if byte == 2
    then ok normal
    else if byte == 3
    then ok high
    else if byte == 4
    then ok never_remove
    else err (deserialization (ascii "unknown persisted priority"))

abbrev pub to_wire : SnapshotRetention → WireRetention
to_wire SnapshotRetention.unspecified = unspecified
to_wire (SnapshotRetention.specified size priority) =
    specified (Option.map (λ (w : EntryWeight). w.units) size) (priority_byte priority)

pub from_wire : WireRetention → Result SnapshotRetention Error
unfolding priority_from_byte
from_wire unspecified = ok SnapshotRetention.unspecified
from_wire (specified size priority) = do
  priority ← priority_from_byte priority
  let weight = λ (units : ℕ). let w : EntryWeight = record { units = units } in w
  ok (SnapshotRetention.specified (Option.map weight size) priority)

-- The rest of a header after its integer.
abbrev pub header_end : Bytes
header_end = ascii ",\"retention\":{\"kind\":\"Unspecified\"}}"

after_ticks : ℤ × Bytes → Option SnapshotHeader
after_ticks (inserted_ticks, rest) =
    if text_eq rest header_end
    then some (record { inserted_ticks = inserted_ticks; retention = unspecified })
    else none

ticks_header : Bytes → Option SnapshotHeader
unfolding after_ticks
ticks_header rest = Canonical.◌>>=◌ (canonical_i64 rest) after_ticks

pub canonical_header : Bytes → Option SnapshotHeader
unfolding ticks_header
canonical_header header =
    Canonical.◌>>=◌ (strip_prefix (ascii "{\"inserted_ticks\":") header) ticks_header

-- The slices before and after position `n`, if it is in bounds.
unfoldable pub split_at : ℕ → Bytes → Option (Bytes × Bytes)
split_at zero bytes = some ([], bytes)
split_at (suc n) [] = none
split_at (suc n) (c ∷ bytes) =
    Option.map (λ (parts : Bytes × Bytes). (c ∷ parts.0, parts.1)) (split_at n bytes)

abbrev encoded : Result Bytes Text → Result Bytes Error
encoded (ok header) = ok header
encoded (err cause) = err (serialization cause)

abbrev pub decoded : Result SnapshotHeader Text → Result SnapshotHeader Error
decoded (ok header) = ok header
decoded (err cause) = err (deserialization cause)

module _ {ℓ} {V : Type ℓ} (to_vec : SnapshotHeader → Result Bytes Text) where
  abbrev header_of : DistributedSnapshot V → SnapshotHeader
  header_of s = record { inserted_ticks = s.inserted_at; retention = to_wire s.retention }

  pub frame_snapshot : DistributedSnapshot V → Bytes → Result Bytes Error
  frame_snapshot s payload = do
    header ← encoded (to_vec (header_of s))
    (if ltb (length header) (2 ^ 32)
        then ok (
            snapshot_magic
            ++ (snapshot_version ∷ (to_be_bytes (length header) ++ (header ++ payload))))
        else err (serialization (ascii "snapshot header is too large")))

module _ (from_slice : Bytes → Result SnapshotHeader Text) where
  abbrev pub recognised : Option SnapshotHeader → Bytes → Result SnapshotHeader Error
  recognised (some header) bytes = ok header
  recognised none bytes = decoded (from_slice bytes)

  pub read_header : Bytes → Result SnapshotHeader Error
  unfolding canonical_header
  read_header bytes = recognised (canonical_header bytes) bytes

  abbrev unframe_parts : Option (Bytes × Bytes) → Result (Option (SnapshotHeader × Bytes)) Error
  unframe_parts none = err (deserialization (ascii "truncated snapshot header"))
  unframe_parts (some (header, payload)) = do
    header ← read_header header
    ok (some (header, payload))

  -- What follows the magic: version, length and body.
  unframe_rest : Bytes → Result (Option (SnapshotHeader × Bytes)) Error
  unfolding read_header
  unframe_rest (version ∷ a ∷ b ∷ c ∷ d ∷ body) =
      if version == snapshot_version
      then unframe_parts (split_at (from_be_bytes a b c d) body)
      else err (deserialization (ascii "unknown or truncated snapshot frame"))
  unframe_rest _ = err (deserialization (ascii "unknown or truncated snapshot frame"))

  abbrev unframe_magic : Option Bytes → Result (Option (SnapshotHeader × Bytes)) Error
  unframe_magic none = ok none
  unframe_magic (some rest) = unframe_rest rest

  pub unframe_snapshot : Bytes → Result (Option (SnapshotHeader × Bytes)) Error
  unfolding unframe_rest
  unframe_snapshot bytes = unframe_magic (strip_prefix snapshot_magic bytes)
