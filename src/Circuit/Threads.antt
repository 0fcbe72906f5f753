-- ===== src/Circuit/Threads.antt =====
-- src/circuit.rs under concurrency: any number of callers, each atomic load, exchange, maximum or
-- swap a step of its own, in any order. The two counters record what the callers were told: how
-- often `trip` returned true, and how often `check` or `close` reported the way back.
use amalgam.Prelude.{
  ℕ, ◌+◌, ◌≡◌, refl, Bool, true, false, not, inl, inr, arith, if◌then◌else◌, ◌==◌, Bool-cases,
  update,
}
use amalgam.Prelude.Int.{ℤ, eqb_ℤ}
use amalgam.Prelude.Word.{IsI64}
use amalgam.Time.Duration.{Duration}
use amalgam.Time.Timestamp.{Timestamp}
use amalgam.Circuit.{
  CircuitBreaker, Admission, answer, try_close, closed_cell, admission, compare_exchange, trip, new,
  is_disabled,
}
use amalgam.Circuit.Laws.{window_end_bounds}

-- Where a caller stands: not in a call, before the load of `check`, between that load and the
-- exchange, or between the load and the swap of `close`.
pub data Caller : Type 0 where
  idle : Caller
  checking : Timestamp → Caller
  attempting : ℤ → Timestamp → Caller
  swapping : Caller

pub record System : Type 0 where
  pub breaker : CircuitBreaker
  pub opened : ℕ
  pub closings : ℕ
  pub caller : ℕ → Caller

abbrev pub one_if : Bool → ℕ
one_if b = if b then 1 else 0

abbrev pub after_load : Admission → ℤ → Timestamp → Caller
after_load (answer c) cell now = idle
after_load try_close cell now = attempting cell now

abbrev pub with_cell : System → ℤ → CircuitBreaker
with_cell s cell = record (s.breaker) { reopen_at = cell }

unfoldable pub tripped : System → Timestamp → System
tripped s now = record s {
  breaker = (trip s.breaker now).0;
  opened = s.opened + one_if (trip s.breaker now).1;
}

pub loaded : System → ℕ → Timestamp → System
loaded s i now = record s {
  caller = update s.caller i (
      if is_disabled s.breaker
      then idle
      else after_load (admission s.breaker.reopen_at now) s.breaker.reopen_at now);
}

pub exchanged : System → ℕ → ℤ → Timestamp → System
exchanged s i reopen now =
    let (cell, won) = compare_exchange s.breaker.reopen_at reopen closed_cell in
    record s {
      breaker = with_cell s cell;
      closings = s.closings + one_if won;
      caller = update s.caller i (if won then idle else checking now);
    }

unfoldable pub close_loaded : System → ℕ → System
close_loaded s i = record s {
  caller = update s.caller i (if eqb_ℤ s.breaker.reopen_at closed_cell then idle else swapping);
}

pub swapped : System → ℕ → System
swapped s i = record s {
  breaker = with_cell s closed_cell;
  closings = s.closings + one_if (not (eqb_ℤ s.breaker.reopen_at closed_cell));
  caller = update s.caller i idle;
}

pub data Step (s t : System) : Type 0 where
  trips : (now : Timestamp) → IsI64 now → t ≡ tripped s now → Step s t
  calls_check :
      (i : ℕ) (now : Timestamp)
      → s.caller i ≡ idle
      → t ≡ record s { caller = update s.caller i (checking now) }
      → Step s t
  loads : (i : ℕ) (now : Timestamp) → s.caller i ≡ checking now → t ≡ loaded s i now → Step s t
  exchanges :
      (i : ℕ) (reopen : ℤ) (now : Timestamp)
      → s.caller i ≡ attempting reopen now
      → t ≡ exchanged s i reopen now
      → Step s t
  calls_close : (i : ℕ) → s.caller i ≡ idle → t ≡ close_loaded s i → Step s t
  swaps : (i : ℕ) → s.caller i ≡ swapping → t ≡ swapped s i → Step s t

unfoldable pub start : Duration → System
start d = record { breaker = new d; opened = 0; closings = 0; caller = λ _. idle }

pub data Reach (d : Duration) : System → Type 0 where
  here : Reach d (start d)
  next : {s t : System} → Reach d s → Step s t → Reach d t

-- A caller that is about to exchange has seen an open breaker.
abbrev SawOpen : Caller → Type 0
SawOpen (attempting reopen now) = eqb_ℤ reopen closed_cell ≡ false
SawOpen idle = Unit {0}
SawOpen (checking now) = Unit {0}
SawOpen swapping = Unit {0}

record Inv (s : System) : Type 0 where
  balance : s.opened ≡ s.closings + one_if (not (eqb_ℤ s.breaker.reopen_at closed_cell))
  saw_open : (i : ℕ) → SawOpen (s.caller i)

update-SawOpen :
    (f : ℕ → Caller) (i : ℕ) (c : Caller)
    → ((j : ℕ) → SawOpen (f j))
    → SawOpen c
    → (j : ℕ) → SawOpen (update f i c j)
update-SawOpen f i c h k j = elim (Bool-cases (i == j)) [ inl e ↦ rw e k | inr e ↦ rw e (h j) ]

after_load-SawOpen :
    (cell : ℤ) (now : Timestamp) (off : Bool)
    → SawOpen (if off then idle else after_load (admission cell now) cell now)
unfolding admission
after_load-SawOpen cell now true = tt
after_load-SawOpen cell now false = ground arith

exchanged-SawOpen : (won : Bool) (now : Timestamp) → SawOpen (if won then idle else checking now)
exchanged-SawOpen true now = tt
exchanged-SawOpen false now = tt

close-SawOpen : (off : Bool) → SawOpen (if off then idle else swapping)
close-SawOpen true = tt
close-SawOpen false = tt

trip_balance :
    (b : CircuitBreaker) (now : Timestamp)
    → IsI64 now
    → one_if (not (eqb_ℤ (trip b now).0.reopen_at closed_cell))
      ≡ one_if (not (eqb_ℤ b.reopen_at closed_cell)) + one_if (trip b now).1
unfolding trip
trip_balance b now i = ground (arith, window_end_bounds b.open_duration now i)

exchange_balance :
    (cell reopen : ℤ)
    → eqb_ℤ reopen closed_cell ≡ false
    → one_if (not (eqb_ℤ cell closed_cell))
      ≡ one_if (not (eqb_ℤ (compare_exchange cell reopen closed_cell).0 closed_cell))
        + one_if (compare_exchange cell reopen closed_cell).1
unfolding compare_exchange
exchange_balance cell reopen h = ground arith

Step-Inv : {s t : System} → Step s t → Inv s → Inv t
unfolding tripped loaded exchanged close_loaded swapped
Step-Inv {s} (trips now i e) v = rw e (record {
  balance = omega (arith, v.balance, trip_balance s.breaker now i);
  saw_open = v.saw_open;
})
Step-Inv {s} (calls_check i now p e) v = rw e (record {
  balance = v.balance;
  saw_open = update-SawOpen s.caller i (checking now) v.saw_open tt;
})
Step-Inv {s} (loads i now p e) v = rw e (record {
  balance = v.balance;
  saw_open =
      update-SawOpen s.caller i _ v.saw_open
        (after_load-SawOpen s.breaker.reopen_at now (is_disabled s.breaker));
})
Step-Inv {s} (exchanges i reopen now p e) v = rw e (record {
  balance =
      omega
        (arith, v.balance, exchange_balance s.breaker.reopen_at reopen (rw p at (v.saw_open i)));
  saw_open =
      update-SawOpen s.caller i _ v.saw_open
        (exchanged-SawOpen (compare_exchange s.breaker.reopen_at reopen closed_cell).1 now);
})
Step-Inv {s} (calls_close i p e) v = rw e (record {
  balance = v.balance;
  saw_open =
      update-SawOpen s.caller i _ v.saw_open
        (close-SawOpen (eqb_ℤ s.breaker.reopen_at closed_cell));
})
Step-Inv {s} (swaps i p e) v = rw e (record {
  balance = ground (arith, v.balance);
  saw_open = update-SawOpen s.caller i idle v.saw_open tt;
})

start-Inv : (d : Duration) → Inv (start d)
unfolding start new
start-Inv d = record { balance = refl; saw_open = λ _. tt }

Reach-Inv : {d : Duration} {s : System} → Reach d s → Inv s
Reach-Inv {d} here = start-Inv d
Reach-Inv (next r st) = Step-Inv st (Reach-Inv r)

-- For any interleaving of trips, checks and closes of one breaker, the reported openings exceed
-- the reported closings by one while the cell is open, and equal them while it is closed.
pub Reach-balance :
    {d : Duration} {s : System}
    → Reach d s
    → s.opened ≡ s.closings + one_if (not (eqb_ℤ s.breaker.reopen_at closed_cell))
Reach-balance r = (Reach-Inv r).balance
