-- ===== src/Prelude/Word.antt =====
-- The signed 64-bit range and the checked narrowing into it (`i64::try_from`).
use Prim.Native.Nat.{◌-◌, ◌^◌}
use mathlib.Core.Path.{◌≡◌}
use mathlib.Core.Logic.{◌⊎◌}
use mathlib.Core.Bool.{◌&&◌}
use mathlib.Core.Option.{Option, some, none}
use native.Mathlib.Omega.{arith}
use amalgam.Prelude.Tests.{if◌then◌else◌}
use amalgam.Prelude.Int.{ℤ, pos, negsuc, ◌≤ℤ◌, ◌<ℤ◌, leb_ℤ}

abbrev pub i64_min : ℤ
i64_min = negsuc (2 ^ 63 - 1)

abbrev pub i64_max : ℤ
i64_max = pos (2 ^ 63 - 1)

abbrev pub IsI64 : ℤ → Type 0
IsI64 z = (i64_min ≤ℤ z) × (z ≤ℤ i64_max)

between : ℤ → ℤ → ℤ → Option ℤ
between lo hi z = if leb_ℤ lo z && leb_ℤ z hi then some z else none

unfoldable pub i64_try_from : ℤ → Option ℤ
unfolding between
i64_try_from z = between i64_min i64_max z

between_cases :
    (lo hi z : ℤ)
    → ((lo ≤ℤ z) × (z ≤ℤ hi) × (between lo hi z ≡ some z))
      ⊎ ((z <ℤ lo) × (between lo hi z ≡ none))
      ⊎ ((hi <ℤ z) × (between lo hi z ≡ none))
unfolding between
between_cases lo hi z = ground arith

pub i64_try_from_cases :
    (z : ℤ)
    → ((i64_min ≤ℤ z) × (z ≤ℤ i64_max) × (i64_try_from z ≡ some z))
      ⊎ ((z <ℤ i64_min) × (i64_try_from z ≡ none))
      ⊎ ((i64_max <ℤ z) × (i64_try_from z ≡ none))
unfolding i64_try_from
i64_try_from_cases z = between_cases i64_min i64_max z
