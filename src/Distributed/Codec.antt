-- ===== src/Distributed/Codec.antt =====
-- src/distributed.rs: `DistributedSerializer`, which frames the payload of a codec. `serialize` and
-- `deserialize` stand for the codec, `to_vec` and `from_slice` for `serde_json` on the header.
pub mod Laws
use amalgam.Prelude.{Option, none, some}
use amalgam.Prelude.Text.{Text}
use amalgam.Prelude.Result.{Result, ok, err, ◌>>=◌}
use amalgam.Distributed.Envelope.{
  Error, DistributedEntry, DistributedSnapshot, SnapshotRetention, new,
}
use amalgam.Distributed.Canonical.{Bytes}
use amalgam.Distributed.Frame.{SnapshotHeader, frame_snapshot, unframe_snapshot, from_wire}

module _ {ℓ} {V : Type ℓ} (serialize : DistributedEntry V → Result Bytes Error)
    (to_vec : SnapshotHeader → Result Bytes Text) where
  pub serialize_snapshot : DistributedSnapshot V → Result Bytes Error
  serialize_snapshot s = do payload ← serialize s.entry; frame_snapshot to_vec s payload

module _ {ℓ} {V : Type ℓ} (deserialize : Bytes → Result (DistributedEntry V) Error)
    (from_slice : Bytes → Result SnapshotHeader Text) where
  unframed : Bytes → Option (SnapshotHeader × Bytes) → Result (DistributedSnapshot V) Error
  unframed bytes (some (header, payload)) = do
    retention ← from_wire header.retention
    entry ← deserialize payload
    new entry header.inserted_ticks retention
  unframed bytes none = do
    entry ← deserialize bytes
    new entry entry.created_ticks SnapshotRetention.unspecified

  pub deserialize_snapshot : Bytes → Result (DistributedSnapshot V) Error
  unfolding unframed
  deserialize_snapshot bytes = do parts ← unframe_snapshot from_slice bytes; unframed bytes parts
