-- ===== src/Distributed/Tests.antt =====
-- src/distributed.rs: a snapshot on its way, a header, and the in-memory backend.
use amalgam.Prelude.{
  ℕ, ◌≡◌, ◌≢◌, ap, ◌^◌, ◌<◌, refl, inl, inr, true, false, Option, none, some, List, [], ◌∷◌, ◌++◌,
  arith,
}
use amalgam.Prelude.Int.{pos}
use amalgam.Prelude.Assoc.{lookup}
use amalgam.Prelude.Maps.{distinct}
use amalgam.Prelude.Text.{Text, ascii, trim, trim_start, trim_end}
use amalgam.Prelude.Result.{Result, ok, err}
use amalgam.Time.Timestamp.{Timestamp}
use amalgam.Options.Values.{normal}
use amalgam.Options.Entry.{default_options, size}
use amalgam.Options.Budgets.{validate}
use amalgam.Entry.Envelope.{Entry, fresh_origin, unspecified, local_entry}
use amalgam.Entry.Envelope.Laws.{IsWellFormed}
use amalgam.Tags.Tag
use amalgam.Tags.Marker.{clear_expire, clear_remove, default_limits}
use amalgam.Tags.Scope.{CacheScope}
use amalgam.Tags.Snapshot.{MarkerSnapshot, is_physically_expired}
use amalgam.Options.Values
use amalgam.Distributed.Digits.{decimal}
use amalgam.Distributed.Digits.Laws.{value_from, decimal-value_from}
use amalgam.Distributed.Canonical.{Bytes, canonical_i64, signed}
use amalgam.Distributed.Canonical.Number.{IsNumber}
use amalgam.Distributed.Canonical.Integer.{sign, canonical_i64-literal}
use amalgam.Distributed.Envelope.{
  DistributedEntry, DistributedSnapshot, SnapshotRetention, Error, validate_entry,
  snapshot_from_entry_with_options, try_into_cache_entry,
}
use amalgam.Distributed.Envelope.Laws.{arrived, try_into_cache_entry-from_entry}
use amalgam.Distributed.Frame.{SnapshotHeader, canonical_header, read_header, decoded}
use amalgam.Distributed.Frame.Laws.{
  ReadsHeaders, header_text, canonical_header-header_text, read_header-decoded,
}
use amalgam.Distributed.Codec.{serialize_snapshot, deserialize_snapshot}
use amalgam.Distributed.Codec.Laws.{deserialize_snapshot-serialize_snapshot}
use amalgam.Distributed.Memory.{set_bytes}
use amalgam.Distributed.Memory.Refinement.{
  Call, looks, sweeps, sets, writes, serve_all, promised_all, serve_all-promised,
}
use amalgam.Distributed.Invalidation.{InvalidationStore, advance}
use amalgam.Distributed.Invalidation.Journal.{Advances, advance-Advances}
use amalgam.Distributed.Invalidation.Snapshots.{renew_snapshot_atomic}
use amalgam.Distributed.Invalidation.Snapshots.Room.{HasRoom, renew_snapshot_atomic-HasRoom}
use amalgam.Distributed.Invalidation.Keys.{namespace, snapshot_key_Eq}
use amalgam.Distributed.Invalidation.Snapshots.Renewal.{renew_snapshot_atomic-Renews}
use amalgam.Distributed.Invalidation.Snapshots.Outcome.{Renews}

abbrev digits : Bytes
digits = ascii "1234567890123456789"

decimal-value_from_example : decimal digits ≡ value_from 0 digits
decimal-value_from_example = decimal-value_from digits refl (omega arith)

abbrev forty_two : Bytes
forty_two = ascii "42"

forty_two-IsNumber : IsNumber forty_two
forty_two-IsNumber = record { spelled = refl; nonempty = omega arith; plain = inr refl }

forty_two-fits : value_from 0 forty_two < 2 ^ 63
unfolding value_from
forty_two-fits = omega arith

canonical_i64-literal_example :
    canonical_i64 (sign true ++ (forty_two ++ ascii ","))
    ≡ some (signed true (value_from 0 forty_two), ascii ",")
canonical_i64-literal_example =
    canonical_i64-literal true forty_two (ascii ",") forty_two-IsNumber forty_two-fits refl

-- A decoder of headers that knows the canonical ones.
abbrev known : Option SnapshotHeader → Result SnapshotHeader Text
known none = err (ascii "not a header")
known (some h) = ok h

abbrev from_slice : Bytes → Result SnapshotHeader Text
from_slice bytes = known (canonical_header bytes)

from_slice-ReadsHeaders : ReadsHeaders from_slice
from_slice-ReadsHeaders negative number n fits positive =
    rw (canonical_header-header_text negative number n fits)

forty_two-unlike : header_text forty_two ≢ header_text (ascii "-0")
unfolding value_from
forty_two-unlike = λ same.
    let told : value_from 0 (header_text forty_two) ≡ value_from 0 (header_text (ascii "-0")) =
      ap (value_from 0) same in
    omega arith

read_header-decoded_example :
    read_header from_slice (header_text forty_two) ≡ decoded (from_slice (header_text forty_two))
read_header-decoded_example =
    read_header-decoded from_slice from_slice-ReadsHeaders (header_text forty_two) forty_two-unlike

abbrev wire_entry : DistributedEntry ℕ
wire_entry = record {
  value = 9;
  created_ticks = pos 10;
  logical_expiration_ticks = pos 60;
  physical_expiration_ticks = pos 100;
  is_from_fail_safe = false;
  etag = none;
  last_modified_ticks = none;
  tags = ascii "news" ∷ [];
}

abbrev wire_snapshot : DistributedSnapshot ℕ
wire_snapshot = record {
  entry = wire_entry;
  inserted_at = signed false (value_from 0 forty_two);
  retention = SnapshotRetention.unspecified;
}

abbrev to_vec : SnapshotHeader → Result Bytes Text
to_vec header = ok (header_text forty_two)

abbrev serialize : DistributedEntry ℕ → Result Bytes Error
serialize entry = ok (7 ∷ [])

abbrev deserialize : Bytes → Result (DistributedEntry ℕ) Error
deserialize payload = ok wire_entry

wire_entry-valid : validate_entry wire_entry ≡ ok tt
unfolding validate_entry Tag.new trim trim_start trim_end
wire_entry-valid = refl

deserialize_snapshot-serialize_snapshot_example :
    (bytes : Bytes) × (serialize_snapshot serialize to_vec wire_snapshot ≡ ok bytes)
    × (deserialize_snapshot deserialize from_slice bytes ≡ ok wire_snapshot)
deserialize_snapshot-serialize_snapshot_example =
    deserialize_snapshot-serialize_snapshot serialize deserialize to_vec from_slice wire_snapshot
      (header_text forty_two) (7 ∷ []) from_slice-ReadsHeaders refl refl refl
      (from_slice-ReadsHeaders false forty_two forty_two-IsNumber forty_two-fits (inl refl))
      (omega arith) forty_two-unlike wire_entry-valid

abbrev sample_entry : Entry ℕ
sample_entry = record {
  value = 9;
  meta = record {
    created = pos 10;
    inserted_at = pos 10;
    logical_expiration = pos 60;
    physical_expiration = pos 100;
    backend_ttl = 9_000;
    origin = fresh_origin (some (pos 40));
    etag = some (ascii "v1");
    last_modified = none;
    tags = record { text = ascii "news" } ∷ [];
    retention = unspecified;
  };
  eligibility = local_entry;
}

sample-IsWellFormed : IsWellFormed sample_entry.meta
sample-IsWellFormed = record {
  ordered = omega arith;
  logical_fits = (omega arith, omega arith);
  physical_fits = (omega arith, omega arith);
}

options_valid : validate default_options ≡ ok tt
unfolding validate size
options_valid = refl

try_into_cache_entry-from_entry_example :
    (s : DistributedSnapshot ℕ) × (snapshot_from_entry_with_options sample_entry default_options
        (pos 20)
      ≡ ok s)
    × (try_into_cache_entry s (pos 30)
        ≡ ok (arrived sample_entry default_options (pos 20) (pos 30)))
unfolding trim trim_start trim_end
try_into_cache_entry-from_entry_example =
    try_into_cache_entry-from_entry sample_entry default_options (pos 20) (pos 30)
      (omega arith, omega arith) sample-IsWellFormed refl options_valid

abbrev some_calls : List (Timestamp × Call)
some_calls =
    (pos 10, sets (ascii "k") (1 ∷ []) (some 500))
    ∷ (pos 12, looks (ascii "k"))
    ∷ (pos 90, looks (ascii "k"))
    ∷ (pos 95, writes (ascii "k") (set_bytes (2 ∷ []) none) true)
    ∷ (pos 96, sweeps (ascii "k") (pos 90))
    ∷ (pos 97, looks (ascii "k"))
    ∷ []

serve_all-promised_example : serve_all [] some_calls ≡ promised_all (λ _. none) some_calls
serve_all-promised_example = serve_all-promised (pos 0) some_calls (omega arith)

abbrev a_scope : CacheScope
a_scope = record {
  key_prefix = ascii "p";
  version = ascii "1";
  modifier = Values.unmodified;
  physical_prefix = ascii "p";
  physical_suffix = [];
}

abbrev old_snapshot : MarkerSnapshot
old_snapshot = record { version = pos 4; created = pos 4; logical = pos 20; physical = pos 30 }

abbrev a_store : InvalidationStore
a_store = record {
  scopes = [];
  snapshots = ((namespace a_scope, clear_remove), old_snapshot) ∷ [];
  limits = default_limits;
  max_entries = 1;
}

abbrev a_snapshot : MarkerSnapshot
a_snapshot = record { version = pos 5; created = pos 6; logical = pos 20; physical = pos 30 }

a_store-distinct : distinct a_store.snapshots ≡ true
unfolding lookup
a_store-distinct = refl

a_snapshot-alive : is_physically_expired a_snapshot (pos 7) ≡ false
unfolding is_physically_expired
a_snapshot-alive = refl

renew_snapshot_atomic-Renews_example :
    (r : MarkerSnapshot) × Renews a_store a_scope clear_expire a_snapshot
      (pos 7)
      (renew_snapshot_atomic a_store a_scope clear_expire a_snapshot (pos 7)).0
      (renew_snapshot_atomic a_store a_scope clear_expire a_snapshot (pos 7)).1
      r
renew_snapshot_atomic-Renews_example =
    renew_snapshot_atomic-Renews a_store a_scope clear_expire a_snapshot (pos 7) a_store-distinct
      a_snapshot-alive

renew_snapshot_atomic-HasRoom_example :
    HasRoom a_store
      (renew_snapshot_atomic a_store a_scope clear_expire a_snapshot (pos 7)).0
      (pos 7)
      (namespace a_scope, clear_expire)
renew_snapshot_atomic-HasRoom_example =
    renew_snapshot_atomic-HasRoom a_store a_scope clear_expire a_snapshot (pos 7) (omega arith)
      (omega arith) a_store-distinct

advance-Advances_example :
    Advances a_store a_scope clear_expire
      (pos 5)
      (advance a_store a_scope clear_expire (pos 5)).0
      (advance a_store a_scope clear_expire (pos 5)).1
advance-Advances_example = advance-Advances a_store a_scope clear_expire (pos 5) (omega arith)
