-- ===== src/Time/Timeout/Laws.antt =====
-- `Timeout::min` of src/time.rs is the greatest lower bound in the order of expiry.
use amalgam.Prelude.{◌≤◌, ◌↔◌, arith}
use amalgam.Time.Timeout.{Timeout, infinite, after, min}

-- `fires_by s t`: whenever `t` has elapsed, so has `s`; an infinite timeout never elapses.
abbrev pub FiresBy : Timeout → Timeout → Type 0
FiresBy s infinite = Unit {0}
FiresBy infinite (after b) = ⊥
FiresBy (after a) (after b) = a ≤ b

-- A timeout fires no later than the shorter of two exactly if it fires no later than both, an
-- infinite timeout never firing.
pub min_greatest : (t s u : Timeout) → FiresBy t (min s u) ↔ (FiresBy t s × FiresBy t u)
unfolding min
min_greatest t infinite u = ((λ h. (tt, h)), (λ h. h.1))
min_greatest t (after a) infinite = ((λ h. (h, tt)), (λ h. h.0))
min_greatest infinite (after a) (after b) = ((λ h. absurd h), (λ h. h.0))
min_greatest (after c) (after a) (after b) =
    ((λ h. (omega arith, omega arith)), (λ h. omega (arith, h.0, h.1)))

pub min_refl : (t : Timeout) → FiresBy t t
min_refl infinite = tt
min_refl (after a) = omega arith
