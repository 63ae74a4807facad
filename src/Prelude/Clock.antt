-- ===== src/Prelude/Clock.antt =====
-- `time.Time` as nanoseconds since a fixed origin, `time.Duration` as a signed number of them.
use Prim.Native.Nat.{ℕ, ◌-◌, ◌^◌, min}
use mathlib.Core.Bool.{Bool, true, false}
use p2papp.Prelude.Tests.{ltb, leb, if◌then◌else◌}

-- `negsuc n` is -(n + 1).
pub data ℤ : Type 0 where
  pos : ℕ → ℤ
  negsuc : ℕ → ℤ

abbrev pub ltb_ℤ : ℤ → ℤ → Bool
ltb_ℤ (pos a) (pos b) = ltb a b
ltb_ℤ (pos a) (negsuc b) = false
ltb_ℤ (negsuc a) (pos b) = true
ltb_ℤ (negsuc a) (negsuc b) = ltb b a

abbrev pub Time : Type 0
Time = ℕ

abbrev pub Duration : Type 0
Duration = ℤ

abbrev pub max_duration : ℕ
max_duration = 2 ^ 63 - 1

-- `t.Sub(u)`, which saturates at the ends of the range of a duration.
unfoldable pub sub_time : Time → Time → Duration
sub_time t u =
    if leb u t then pos (min (t - u) max_duration) else negsuc (min (u - t - 1) max_duration)

abbrev pub second : ℕ
second = 1000000000

abbrev pub minute : ℕ
minute = 60000000000

abbrev pub hour : ℕ
hour = 3600000000000
