-- ===== src/Lib.antt =====
-- Amalgam is a two-level cache: entries with a logical and a physical lifetime in memory and in a
-- distributed store, invalidation by tags and by clears, fail-safe reuse of stale entries, circuit
-- breakers in front of the remote parts, and a queue that replays failed remote mutations. This
-- library models the parts that decide what an entry is worth and who may write it.
--
--   Time       src/time.rs: ticks, timestamps, timeouts and the manual clock.
--   Circuit    src/circuit.rs: the breaker for one caller, and Circuit/Threads for many.
--   Error      src/error.rs: the configuration errors.
--   Options    src/options.rs: Values (jitter, priority, weight, thresholds), Entry (EntryOptions and
--              its defaults), Budgets (the cached check of all timeouts), Builders (with_*) and
--              Resolved (lifetimes, timeouts and expirations).
--   Tags       src/tags.rs: Tag, Marker, Registry (MarkerState and TagRegistry), Scope and
--              OrderedHex (the storage form of a version); Snapshot
--              is MarkerSnapshot of src/marker_snapshots.rs.
--   Entry      src/entry.rs: Envelope (metadata and freshness), Fresh (construction) and Reuse
--              (throttling, expiring, hydration); Plain is src/entry/plain.rs.
--   Lane       src/commit/ordered.rs: the FIFO admission of mutations to a key; Lane/Steps
--              interleaves its claimants.
--   Commit     src/commit.rs: Generations, the fences of a key lane, interleaved by atomic steps.
--   Backplane  src/backplane.rs: the types of notifications.
--   Recovery   src/recovery.rs and src/recovery/marker_snapshots.rs: Work (what is to be replayed),
--              MarkerWork (the stages of a marker mutation) and Service (the bounded queue of
--              AutoRecoveryService); Service/Replay is what replays do to the queue, and
--              Service/Drain a pass over it.
--   Memory     src/memory.rs: the store with limits. Origins is src/memory/origin.rs, Eviction the choice
--              of victims, Retention the store (Insert its insertion), Store the operations of
--              MemoryStore on it; Store/Session runs them with the origins that are outstanding.
--   Flight     src/single_flight.rs: the sections of one flight; Table those of the table of flights, and
--              Run the interleavings of callers, pollers and cancellers.
--   Distributed  src/distributed.rs: Envelope (the entry and its snapshot on the wire), Frame and Codec
--              (the framed bytes), Canonical and Digits (the decoders that go past serde_json), Memory
--              (InMemoryDistributedCache) and Invalidation (InMemoryInvalidationStore).
--   Prelude    tests, lists, integers, texts, association lists and results shared by all parts.
--
-- The parts interact as in the source: Options resolves the lifetimes that Entry turns into
-- expirations with the arithmetic of Time; Tags judges an entry by its creation time; Recovery
-- carries marker commands of Backplane and snapshots of Tags. Memory stores entries of Entry, by the
-- priorities and weights of Options. Distributed takes entries of Entry to the wire and back, and
-- keeps the marker states and snapshots of Tags by scope.
--
-- Numbers and time. A Duration is its number of nanoseconds, a Timestamp an integer; IsI64 says that
-- it is representable, and narrowing is written out as in the source. An f32 is its bit pattern.
-- State. A method returns the new state beside its result. A mutex makes a method one step; where the
-- source uses atomics without a mutex, each load, exchange or maximum is a step of its own, and a
-- relation runs the steps of any number of callers in any order. Two places are coarser: the two
-- publications that end TagRegistry::advance are one step, and so are the looks of Flight::poll_work
-- at the cancellation before and after its return to Pending. A hash map is an association list.
-- Handles that share an immutable entry are the same value, and cloning a value gives it back; the
-- epochs that fence hydrated entries off are read through a function from their identities.
-- Parameters. The executor of recovery tickets, the random source, the product of a duration and a
-- float (mul_f32) and the test whether a duration exceeds the range of the runtime's clock
-- (overflows), which each call of a builder makes at its own instant, are arguments. No law is assumed
-- of them, but that an executor leaves no operation claimed except that of its ticket. The codec of
-- values and serde_json are arguments of the wire format; they are taken to undo themselves, and
-- serde_json to read canonical headers as JSON, but for the integer -0, which it takes for a float.
-- What a cancellation shows before and after an operation on snapshots is an argument, and so is
-- whether a lease is held. The least expiry that decides an eviction from the recovery queue is taken
-- in the order of the list where the map of the source has none. The candidates of an eviction from
-- memory are sorted by insertion; their keys differ, so that every sort agrees. No definition runs on
-- fuel: every loop of these parts is a structural recursion, and a retry loop around an atomic
-- exchange is a sequence of steps.
--
-- Not modelled: the cache pipeline in src/cache, the sharded memory store without limits, the lockers,
-- the reads of markers, the receipts and reports of commits, the decoder of whole canonical entries,
-- the slots of readers, the wire codec of the backplane, the lock of the distributed cache and the
-- Redis backend, the worker of the recovery queue, execution, plugins, events and metrics. Most of
-- them call services, user code or an asynchronous runtime, or await the parts above.
pub mod Prelude
pub mod Time
pub mod Circuit
pub mod Error
pub mod Options
pub mod Tags
pub mod Entry
pub mod Lane
pub mod Backplane
pub mod Recovery
pub mod Memory
pub mod Flight
pub mod Distributed
pub mod Commit
