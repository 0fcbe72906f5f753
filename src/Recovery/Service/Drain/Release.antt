-- ===== src/Recovery/Service/Drain/Release.antt =====
-- src/recovery.rs: a pass over the queue ends with every claim released.
use amalgam.Prelude.{
  ℕ, ◌≡◌, Bool, true, false, Option, none, some, List, [], ◌∷◌, ◌==◌, ◌&&◌, ◌||◌, not, arith,
  Bool-cases, Option-cases, inl, inr,
}
use amalgam.Prelude.Result.{Result, ok, err}
use amalgam.Prelude.Assoc.{lookup, lookup-insert, lookup-remove}
use amalgam.Recovery.Work.{RecoveryKey, key, key_eq, key_eq_iff, key_Eq, expires_at}
use amalgam.Recovery.Service.{
  ReplayTicket, Queued, AttemptState, pending, in_flight, AutoRecoveryService,
}
use amalgam.Recovery.Service.Replay.{
  claim, complete, record_failure, release_claim, attempts_left, fence_is_current,
}
use amalgam.Recovery.Service.Drain.{
  Executor, RecoveryBarrier, is_paused, ReplayOutcome, paused, applied, superseded, expired, settle,
  replay_claimed, has_lapsed, drain_keys, keys_of, drain_once,
}

abbrev pub is_pending : AttemptState → Bool
is_pending pending = true
is_pending in_flight = false

-- An operation is queued under the key of its work, and waits.
abbrev pub waits : RecoveryKey → Option Queued → Bool
waits k none = true
waits k (some q) = key_eq (key q.ticket.work) k && is_pending q.state

-- It waits, or it is the one that the ticket has claimed.
abbrev pub waits_but : ReplayTicket → RecoveryKey → Option Queued → Bool
waits_but t k none = true
waits_but t k (some q) =
    key_eq (key q.ticket.work) k
    && (is_pending q.state || (q.ticket.id == t.id && key_eq (key t.work) k))

complete-waits :
    (s : AutoRecoveryService) (t : ReplayTicket) (k : RecoveryKey)
    → waits_but t k (lookup k s.entries) ≡ true
    → waits k (lookup k (complete s t).0.entries) ≡ true
unfolding complete
complete-waits s t k h =
    let j = key t.work in
    elim (Option-cases (lookup j s.entries)) [
      | inl e ↦ rw e (ground (arith, e, h, key_eq_iff j k))
      | inr (q, e) ↦ elim (Bool-cases (q.ticket.id == t.id)) [
        | inl i ↦ rw (e, i) (ground (arith, e, i, h, lookup-remove j k s.entries, key_eq_iff j k))
        | inr i ↦ rw (e, i) (ground (arith, e, i, h, key_eq_iff j k))
      ]
    ]

release_claim-waits :
    (s : AutoRecoveryService) (t : ReplayTicket) (k : RecoveryKey)
    → waits_but t k (lookup k s.entries) ≡ true
    → waits k (lookup k (release_claim s t).entries) ≡ true
unfolding release_claim
release_claim-waits s t k h =
    let j = key t.work in
    elim (Option-cases (lookup j s.entries)) [
      | inl e ↦ rw e (ground (arith, e, h, key_eq_iff j k))
      | inr (q, e) ↦ elim (Bool-cases (q.ticket.id == t.id)) [
        | inl i ↦
            rw (e, i)
              (ground (
                arith,
                e,
                i,
                h,
                lookup-insert j k (record q { state = pending }) s.entries,
                key_eq_iff j k,
              ))
        | inr i ↦ rw (e, i) (ground (arith, e, i, h, key_eq_iff j k))
      ]
    ]

record_failure-waits :
    (s : AutoRecoveryService) (t : ReplayTicket) (k : RecoveryKey)
    → waits_but t k (lookup k s.entries) ≡ true
    → waits k (lookup k (record_failure s t).entries) ≡ true
unfolding record_failure
record_failure-waits s t k h =
    let j = key t.work in
    elim (Option-cases (lookup j s.entries)) [
      | inl e ↦ rw e (ground (arith, e, h, key_eq_iff j k))
      | inr (q, e) ↦ elim (Bool-cases (q.ticket.id == t.id)) [
        | inl i ↦
            rw (e, i)
              (elim (Option-cases (attempts_left q.remaining)) [
                | inl z ↦
                    rw z (ground (arith, e, i, h, lookup-remove j k s.entries, key_eq_iff j k))
                | inr (left, z) ↦ rw z (
                    ground (
                      arith,
                      e,
                      i,
                      h,
                      lookup-insert j k (record q { remaining = left; state = pending }) s.entries,
                      key_eq_iff j k,
                    ))
              ])
        | inr i ↦ rw (e, i) (ground (arith, e, i, h, key_eq_iff j k))
      ]
    ]

settle-waits {ℓ} :
    {E : Type ℓ} (t : ReplayTicket) (o : AutoRecoveryService × Result ReplayOutcome E)
    (k : RecoveryKey)
    → waits_but t k (lookup k o.0.entries) ≡ true
    → waits k (lookup k (settle t o).entries) ≡ true
settle-waits t (s, ok paused) k h = release_claim-waits s t k h
settle-waits t (s, ok applied) k h = complete-waits s t k h
settle-waits t (s, ok superseded) k h = complete-waits s t k h
settle-waits t (s, ok expired) k h = complete-waits s t k h
settle-waits t (s, err e) k h = record_failure-waits s t k h

-- A claim leaves the others waiting.
abbrev claimed : RecoveryKey → AutoRecoveryService × Option ReplayTicket → Bool
claimed k (s, none) = waits k (lookup k s.entries)
claimed k (s, some t) = waits_but t k (lookup k s.entries)

claim-claimed :
    (s : AutoRecoveryService) (j k : RecoveryKey)
    → waits j (lookup j s.entries) ≡ true
    → waits k (lookup k s.entries) ≡ true
    → claimed k (claim s j) ≡ true
unfolding claim
claim-claimed s j k g h = elim (Option-cases (lookup j s.entries)) [
  | inl e ↦ rw e h
  | inr (q, e) ↦ rw e (
      ground (
        arith,
        e,
        g,
        h,
        lookup-insert j k (record q { state = in_flight }) s.entries,
        key_eq_iff j k,
        key_eq_iff (key q.ticket.work) j,
      ))
]

module _ {ℓ} {E : Type ℓ} (executor : Executor E)
    (keeps : (s : AutoRecoveryService) (t : ReplayTicket)
      → ((k : RecoveryKey) → waits_but t k (lookup k s.entries) ≡ true)
      → (k : RecoveryKey)
      → waits_but t k (lookup k (executor.replay_ticket s t).0.entries) ≡ true) where
  replay_claimed-waits :
      (c : AutoRecoveryService × Option ReplayTicket)
      → ((k : RecoveryKey) → claimed k c ≡ true)
      → (k : RecoveryKey) → waits k (lookup k (replay_claimed executor c).entries) ≡ true
  replay_claimed-waits (s, none) h k = h k
  replay_claimed-waits (s, some t) h k =
      elim (Bool-cases (
        has_lapsed (expires_at t.work) (executor.now t)
        || not (fence_is_current (executor.generations t) t.generation t.fence))) [
          | inl q ↦ rw q (complete-waits s t k (h k))
          | inr q ↦ rw q (settle-waits t (executor.replay_ticket s t) k (keeps s t h k))
        ]

  drain_keys-waits :
      (ks : List RecoveryKey) (s : AutoRecoveryService)
      → ((k : RecoveryKey) → waits k (lookup k s.entries) ≡ true)
      → (k : RecoveryKey) → waits k (lookup k (drain_keys executor ks s).entries) ≡ true
  unfolding drain_keys
  drain_keys-waits [] s h k = h k
  drain_keys-waits (j ∷ ks) s h k =
      drain_keys-waits ks (replay_claimed executor (claim s j))
        (replay_claimed-waits (claim s j) (λ i. claim-claimed s j i (h j) (h i))) k

  -- A pass over the queue ends with every claim released: if each operation is queued under the key
  -- of its work and waits, and the executor leaves no operation claimed but that of its ticket, then
  -- after the pass each operation that is still queued waits again, whether its replay was paused,
  -- failed, applied or skipped.
  pub drain_once-waits :
      (barrier : RecoveryBarrier) (instant : ℕ) (s : AutoRecoveryService)
      → ((k : RecoveryKey) → waits k (lookup k s.entries) ≡ true)
      → (k : RecoveryKey)
      → waits k (lookup k (drain_once executor barrier instant s).entries) ≡ true
  unfolding drain_once
  drain_once-waits barrier instant s h k = elim (Bool-cases (is_paused barrier instant)) [
    | inl q ↦ rw q (h k)
    | inr q ↦ rw q (drain_keys-waits (keys_of s.entries) s h k)
  ]
