-- ===== src/Memory/Tests.antt =====
-- src/memory.rs: a store of two entries at most, and a factory that is fenced off.
use amalgam.Prelude.{ℕ, ◌≡◌, refl, true, false, not, none, some, List, [], ◌∷◌}
use amalgam.Prelude.Int.{pos}
use amalgam.Prelude.Assoc.{lookup, insert, remove}
use amalgam.Options.Values.{normal, eviction_rank}
use amalgam.Entry.Envelope.{
  Entry, size, priority, is_read_eligible, is_physically_expired, local_entry, fresh_origin,
  specified,
}
use amalgam.Memory.{MemoryLimits, clock_driven, Handle, set, unarmed}
use amalgam.Memory.Origins.{matches, advance, capture_from}
use amalgam.Memory.Eviction.{
  Stored, precedes, candidate, is_evictable, candidates, place, sort, eligible_victims,
  take_victims, projection, plan,
}
use amalgam.Memory.Retention.{
  Moment, Retention, new, mutation, origin, is_dead, retirement_reason, take, remove_keys,
}
use amalgam.Memory.Retention.Insert.{
  insert_entry, place_entry, commit, expire_under_pressure, store,
}
use amalgam.Memory.Retention.Valid.{IsValid}
use amalgam.Memory.Retention.Outcome.{
  Answers, Spares, insert_entry-Answers, insert_entry-Spares, insert_entry-precedes,
}
use amalgam.Memory.Store.{capture_revision}
use amalgam.Memory.Store.Session.{Session, Action, MemoryOrigin, write, capture, perform}
use amalgam.Memory.Store.Fence.{is_fenced}
use amalgam.Memory.Store.Reach.{Reach, start, step}
use amalgam.Memory.Store.Stale.{matches-is_fenced}
use amalgam.Memory.Store.Refinement.{serve_all, specified_all, serve_all-refines}
use amalgam.Memory.Store.Requests.{
  Request, put, look, contents, entries_for_all, weight_for_all, IsRoomy,
}
use amalgam.Memory.Store.Limits.{Reach-IsValid}

abbrev two_entries : MemoryLimits
two_entries = record { entries = some 2; weight = none }

abbrev lasting : ℕ → Entry ℕ
lasting value = record {
  value = value;
  meta = record {
    created = pos 10;
    inserted_at = pos 10;
    logical_expiration = pos 60;
    physical_expiration = pos 100;
    backend_ttl = 9_000;
    origin = fresh_origin none;
    etag = none;
    last_modified = none;
    tags = [];
    retention = specified none normal;
  };
  eligibility = local_entry;
}

abbrev handle : ℕ → Handle ℕ
handle n = record { instance_id = n; entry = lasting n }

abbrev quiet : Moment
quiet = record { epochs = λ n. 0; elapsed = 0; alive = λ n. false; overflows = λ d. false }

abbrev write_of : ℕ → Action ℕ
write_of n = write (n ∷ []) (handle n) (pos 20) mutation unarmed set

abbrev empty_session : Session ℕ
empty_session = record { store = new two_entries clock_driven; outstanding = [] }

abbrev first_session : Session ℕ
first_session = perform quiet (write_of 1) empty_session

abbrev two_session : Session ℕ
two_session = perform quiet (write_of 2) first_session

-- Two entries, and a factory that has captured the key of the first.
abbrev captured_session : Session ℕ
captured_session = perform quiet (capture (1 ∷ []) none) two_session

captured-Reach : Reach captured_session
captured-Reach = step quiet (capture (1 ∷ []) none) two_session refl (
    step quiet (write_of 2) first_session refl
      (step quiet (write_of 1) empty_session refl (start two_entries clock_driven)))

two-Reach : Reach two_session
two-Reach =
    step quiet (write_of 2) first_session refl
      (step quiet (write_of 1) empty_session refl (start two_entries clock_driven))

abbrev held : MemoryOrigin
held = record { key = 1 ∷ []; snapshot = record { revision = 0; captured = 1; generation = 1 } }

Reach-IsValid_example : IsValid two_session.store
Reach-IsValid_example = Reach-IsValid two_session two-Reach

-- A full store: the entry of key 1 is the least recently used.
abbrev used_at : ℕ → ℕ → Stored ℕ
used_at n ticket = record {
  handle = handle n;
  access = ticket;
  monotonic_expiration = none;
  capture = unarmed;
}

abbrev full : Retention ℕ
full = record (new two_entries clock_driven) {
  entries = (1 ∷ [], used_at 1 3) ∷ (2 ∷ [], used_at 2 4) ∷ [];
  weight = 2;
  next_access = 4;
}

full-IsValid : IsValid full
unfolding lookup new size
full-IsValid = record { counted = record { keyed = refl; weighed = refl }; bounded = refl }

insert_entry-Answers_example :
    Answers quiet
      (pos 20)
      full
      (3 ∷ [])
      (handle 3)
      (2 ∷ [])
      (insert_entry quiet full (3 ∷ []) (handle 3) (pos 20) mutation unarmed set)
insert_entry-Answers_example =
    insert_entry-Answers quiet full (3 ∷ []) (handle 3) (pos 20) mutation unarmed set (2 ∷ [])
      full-IsValid

insert_entry-Spares_example :
    Spares
      (3 ∷ [])
      (handle 3)
      (1 ∷ [])
      (used_at 1 3)
      (insert_entry quiet full (3 ∷ []) (handle 3) (pos 20) mutation unarmed set)
unfolding lookup is_dead retirement_reason is_read_eligible is_physically_expired
insert_entry-Spares_example =
    insert_entry-Spares quiet full (3 ∷ []) (handle 3) (pos 20) mutation unarmed set (1 ∷ [])
      (used_at 1 3) full-IsValid refl refl refl

insert_entry-precedes_example :
    precedes (candidate (1 ∷ []) (used_at 1 3)) (candidate (2 ∷ []) (used_at 2 4)) ≡ true
unfolding lookup is_dead retirement_reason is_read_eligible is_physically_expired is_evictable
    insert_entry place_entry commit expire_under_pressure store remove_keys take plan projection
    take_victims eligible_victims sort place candidates candidate precedes insert remove size
    priority advance new eviction_rank
insert_entry-precedes_example =
    insert_entry-precedes quiet full (3 ∷ []) (handle 3) (pos 20) mutation unarmed set (1 ∷ [])
      (2 ∷ []) (used_at 1 3) (used_at 2 4) full-IsValid refl refl refl refl refl refl refl refl

matches-is_fenced_example :
    matches captured_session.store.origins held.snapshot captured_session.store.generation
    ≡ not (is_fenced held.snapshot captured_session.store)
unfolding perform capture_revision capture_from lookup insert is_physically_expired new plan advance
matches-is_fenced_example = matches-is_fenced captured_session 0 held captured-Reach refl

-- A store with room for two entries: a write, a read of it in time, and one of it too late.
abbrev roomy : Retention ℕ
roomy = new (record { entries = some 2; weight = some 100 }) clock_driven

abbrev requests : List (Moment × Request ℕ)
requests =
    (quiet, put (1 ∷ []) (handle 1) (pos 20))
    ∷ (quiet, look (1 ∷ []) (pos 30))
    ∷ (quiet, look (1 ∷ []) (pos 200))
    ∷ []

roomy-IsRoomy : IsRoomy roomy (entries_for_all requests) (weight_for_all requests)
unfolding new lookup size
roomy-IsRoomy = record { room = refl; by_clock = refl; undated = λ k. refl }

serve_all-refines_example :
    ((serve_all requests roomy).0 ≡ (specified_all requests (contents roomy)).0)
    × (contents (serve_all requests roomy).1 ≡ (specified_all requests (contents roomy)).1)
serve_all-refines_example = serve_all-refines requests roomy roomy-IsRoomy

specified_answers : (specified_all requests (contents roomy)).0 ≡ none ∷ some (handle 1) ∷ none ∷ []
unfolding specified_all new lookup is_physically_expired is_read_eligible
specified_answers = refl
