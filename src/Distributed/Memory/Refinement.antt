-- ===== src/Distributed/Memory/Refinement.antt =====
-- src/distributed.rs: dropping expired entries on the way is not observable.
use amalgam.Prelude.{
  ◌≡◌, refl, ap, ◌∙◌, Bool, true, false, Option, none, some, Option-cases, Bool-cases, inl, inr,
  List, [], ◌∷◌, if◌then◌else◌, arith,
}
use amalgam.Prelude.Int.{◌≤ℤ◌}
use amalgam.Prelude.Assoc.{lookup, lookup-insert, lookup-remove, insert, remove}
use amalgam.Prelude.Result.{Result, ok}
use amalgam.Prelude.Text.{Text, text_eq, text_eq→eq, text_Eq}
use mathlib.Core.Option
use mathlib.Core.Path.{subst, ap₂}
use amalgam.Time.Duration.{Duration}
use amalgam.Time.Timestamp.{Timestamp, saturating_add}
use amalgam.Distributed.Canonical.{Bytes}
use amalgam.Distributed.Memory.{
  Entries, StoredBytes, alive, live_bytes, look, sweep, set, remove_key, LeasedMutation, set_bytes,
  remove_bytes, LeasedWriteOutcome, write_with_lease, committed, lease_lost,
}

-- What the cache promises: a key has the bytes written to it last, until they expire.
abbrev pub Promised : Type 0
Promised = Text → Option StoredBytes

abbrev stored : Bytes → Option Duration → Timestamp → StoredBytes
stored bytes ttl now = record {
  bytes = bytes;
  expires_at = Option.map (λ (d : Duration). saturating_add now d) ttl;
}

abbrev put : Promised → Text → Option StoredBytes → Promised
put p key s k = if text_eq key k then s else p k

-- A read is two of these calls, between which others may fall; its sweep has the instant that it
-- looked at.
pub data Call : Type 0 where
  looks : Text → Call
  sweeps : Text → Timestamp → Call
  sets : Text → Bytes → Option Duration → Call
  removes : Text → Call
  writes : Text → LeasedMutation → Bool → Call

pub data Answer : Type 0 where
  found : Option Bytes → Answer
  done : Answer
  leased : Result LeasedWriteOutcome (Unit {0}) → Answer

pub serve : Entries → Call → Timestamp → Entries × Answer
unfolding look sweep set remove_key write_with_lease
serve m (looks key) now = (m, found (look m key now))
serve m (sweeps key seen) now = (sweep m key seen, done)
serve m (sets key bytes ttl) now = (set m key bytes ttl now, done)
serve m (removes key) now = (remove_key m key, done)
serve m (writes key mutation owned) now =
    let (m', outcome) = write_with_lease m key mutation (ok owned) now in (m', leased outcome)

promised : Promised → Call → Timestamp → Promised × Answer
promised p (looks key) now = (p, found (live_bytes now (p key)))
promised p (sweeps key seen) now = (p, done)
promised p (sets key bytes ttl) now = (put p key (some (stored bytes ttl now)), done)
promised p (removes key) now = (put p key none, done)
promised p (writes key (set_bytes bytes ttl) true) now =
    (put p key (some (stored bytes ttl now)), leased (ok committed))
promised p (writes key remove_bytes true) now = (put p key none, leased (ok committed))
promised p (writes key mutation false) now = (p, leased (ok lease_lost))

-- A sequence of calls at instants that do not run backwards.
pub serve_all : Entries → List (Timestamp × Call) → List Answer
unfolding serve
serve_all m [] = []
serve_all m ((now, call) ∷ calls) =
    let (m', answer) = serve m call now in answer ∷ serve_all m' calls

pub promised_all : Promised → List (Timestamp × Call) → List Answer
unfolding promised
promised_all p [] = []
promised_all p ((now, call) ∷ calls) =
    let (p', answer) = promised p call now in answer ∷ promised_all p' calls

abbrev Past : Timestamp → Call → Type 0
Past now (sweeps key seen) = seen ≤ℤ now
Past now _ = Unit {0}

abbrev Forward : Timestamp → List (Timestamp × Call) → Type 0
Forward t [] = Unit {0}
Forward t ((now, call) ∷ calls) = (t ≤ℤ now) × Past now call × Forward now calls

-- From `t` on, the map shows what is promised.
abbrev Shows : Timestamp → Entries → Promised → Type 0
Shows t m p =
    (key : Text) (now : Timestamp)
    → t ≤ℤ now
    → live_bytes now (lookup key m) ≡ live_bytes now (p key)

alive-dead :
    (t now : Timestamp) (at : Option Timestamp)
    → t ≤ℤ now
    → alive at t ≡ false
    → alive at now ≡ false
alive-dead t now none h e = cc
alive-dead t now (some at) h e = ground arith

-- A sweep at an earlier instant drops only what has expired by now.
sweep-lookup :
    (m : Entries) (key k : Text) (t now : Timestamp)
    → t ≤ℤ now
    → live_bytes now (lookup k (sweep m key t)) ≡ live_bytes now (lookup k m)
unfolding sweep
sweep-lookup m key k t now h = elim (Option-cases (lookup key m)) [
  | inl missing ↦ rw missing
  | inr (s, hit) ↦ elim (Bool-cases (alive s.expires_at t)) [
    | inl here ↦ rw (hit, here)
    | inr dead ↦
        rw (hit, dead, lookup-remove key k m)
          (elim (Bool-cases (text_eq key k)) [
            | inl same ↦
                let e : lookup k m ≡ some s =
                  subst (λ (j : Text). lookup j m ≡ some s) (text_eq→eq key k same) hit in
                rw (same, e, alive-dead t now s.expires_at h dead)
            | inr other ↦ rw other
          ])
  ]
]

put-Shows :
    (t now : Timestamp) (m : Entries) (p : Promised) (key : Text) (s : StoredBytes)
    → t ≤ℤ now
    → Shows t m p
    → Shows now (insert key s m) (put p key (some s))
put-Shows t now m p key s h shows k later h' =
    rw (lookup-insert key k s m) (elim (Bool-cases (text_eq key k)) [
      | inl same ↦ rw same
      | inr other ↦ rw other (shows k later (omega (arith, h, h')))
    ])

remove-Shows :
    (t now : Timestamp) (m : Entries) (p : Promised) (key : Text)
    → t ≤ℤ now
    → Shows t m p
    → Shows now (remove key m) (put p key none)
remove-Shows t now m p key h shows k later h' =
    rw (lookup-remove key k m) (elim (Bool-cases (text_eq key k)) [
      | inl same ↦ rw same
      | inr other ↦ rw other (shows k later (omega (arith, h, h')))
    ])

look-Shows :
    (t now : Timestamp) (m : Entries) (p : Promised) (key : Text)
    → t ≤ℤ now
    → Shows t m p
    → look m key now ≡ live_bytes now (p key)
unfolding look
look-Shows t now m p key h shows = shows key now h

-- Every call is answered as promised, and leaves the map showing what is then promised.
serve-promised :
    (t now : Timestamp) (m : Entries) (p : Promised) (call : Call)
    → Shows t m p
    → t ≤ℤ now
    → Past now call
    → ((serve m call now).1 ≡ (promised p call now).1)
      × Shows now (serve m call now).0 (promised p call now).0
unfolding serve promised
serve-promised t now m p (looks key) shows h past = (
  ap found (look-Shows t now m p key h shows),
  λ k later h'. shows k later (omega (arith, h, h')),
)
serve-promised t now m p (sweeps key seen) shows h past = (
  refl,
  λ k later h'.
      sweep-lookup m key k seen later (omega (arith, past, h'))
      ∙ shows k later (omega (arith, h, h')),
)
serve-promised t now m p (sets key bytes ttl) shows h past =
    (refl, put-Shows t now m p key (stored bytes ttl now) h shows)
serve-promised t now m p (removes key) shows h past = (refl, remove-Shows t now m p key h shows)
serve-promised t now m p (writes key (set_bytes bytes ttl) true) shows h past =
    (refl, put-Shows t now m p key (stored bytes ttl now) h shows)
serve-promised t now m p (writes key remove_bytes true) shows h past =
    (refl, remove-Shows t now m p key h shows)
serve-promised t now m p (writes key (set_bytes bytes ttl) false) shows h past =
    (refl, λ k later h'. shows k later (omega (arith, h, h')))
serve-promised t now m p (writes key remove_bytes false) shows h past =
    (refl, λ k later h'. shows k later (omega (arith, h, h')))

serve_all-Shows :
    (calls : List (Timestamp × Call)) (t : Timestamp) (m : Entries) (p : Promised)
    → Shows t m p
    → Forward t calls
    → serve_all m calls ≡ promised_all p calls
unfolding serve_all promised_all
serve_all-Shows [] t m p shows f = refl
serve_all-Shows ((now, call) ∷ calls) t m p shows (h, past, f) =
    let (answer, kept) = serve-promised t now m p call shows h past in
    ap₂ ◌∷◌ answer (serve_all-Shows calls now _ _ kept f)

-- Whatever is read, swept, written and removed from an empty in-memory cache, at instants that do
-- not run backwards and with sweeps at any point after the instants that they look at, a look
-- answers with the bytes last written to its key until they expire, and a leased write is committed
-- exactly if the lease is held.
pub serve_all-promised :
    (t : Timestamp) (calls : List (Timestamp × Call))
    → Forward t calls
    → serve_all [] calls ≡ promised_all (λ _. none) calls
unfolding lookup
serve_all-promised t calls f = serve_all-Shows calls t [] (λ _. none) (λ k now h. refl) f
