-- ===== src/Distributed/Codec/Laws.antt =====
-- src/distributed.rs: a snapshot that is framed is read back.
use amalgam.Prelude.{◌^◌, ◌<◌, ◌≡◌, ◌≢◌, length}
use amalgam.Prelude.Text.{Text, ascii}
use amalgam.Prelude.Result.{Result, ok}
use amalgam.Distributed.Envelope.{Error, DistributedEntry, DistributedSnapshot, validate_entry, new}
use amalgam.Distributed.Canonical.{Bytes}
use amalgam.Distributed.Frame.{SnapshotHeader, to_wire}
use amalgam.Distributed.Frame.Laws.{
  ReadsHeaders, header_text, framed, frame_snapshot_lem, unframe_snapshot-framed, from_wire-to_wire,
}
use amalgam.Distributed.Codec.{serialize_snapshot, deserialize_snapshot, unframed}

abbrev pub header_for {ℓ} : {V : Type ℓ} → DistributedSnapshot V → SnapshotHeader
header_for s = record { inserted_ticks = s.inserted_at; retention = to_wire s.retention }

-- A valid snapshot is always written, and is read back as it was: where the codec undoes itself on
-- its entry, serde_json undoes itself on its header, whose text has fewer than 2 ^ 32 bytes and does
-- not spell its integer -0, and reads the other headers that this crate recognises as the JSON that
-- they are.
pub deserialize_snapshot-serialize_snapshot {ℓ} :
    {V : Type ℓ} (serialize : DistributedEntry V → Result Bytes Error)
    (deserialize : Bytes → Result (DistributedEntry V) Error)
    (to_vec : SnapshotHeader → Result Bytes Text) (from_slice : Bytes → Result SnapshotHeader Text)
    (s : DistributedSnapshot V) (text payload : Bytes)
    → ReadsHeaders from_slice
    → serialize s.entry ≡ ok payload
    → deserialize payload ≡ ok s.entry
    → to_vec (header_for s) ≡ ok text
    → from_slice text ≡ ok (header_for s)
    → length text < 2 ^ 32
    → text ≢ header_text (ascii "-0")
    → validate_entry s.entry ≡ ok tt
    → (bytes : Bytes) × (serialize_snapshot serialize to_vec s ≡ ok bytes)
      × (deserialize_snapshot deserialize from_slice bytes ≡ ok s)
unfolding serialize_snapshot deserialize_snapshot unframed new
deserialize_snapshot-serialize_snapshot serialize deserialize to_vec from_slice s text payload reads
      wrote undone head_wrote head_read short unsigned valid =
    (
      framed text payload,
      rw (wrote, frame_snapshot_lem to_vec s text payload head_wrote short),
      rw (
        unframe_snapshot-framed from_slice reads (header_for s) text payload head_read short
            unsigned,
        from_wire-to_wire s.retention,
        undone,
        valid,
      ),
    )
