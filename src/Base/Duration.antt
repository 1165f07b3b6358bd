-- ===== src/Base/Duration.antt =====
-- `time.Duration`: an int64 of nanoseconds. A product wraps around.
use knative_source.Base.{ℕ, ◌*◌}
use knative_source.Base.Int.{ℤ, pos, ◌*ℤ◌, int64}

abbrev pub Duration : Type 0
Duration = ℤ

abbrev pub millisecond : ℕ
millisecond = 1000000

abbrev pub second : ℕ
second = 1000 * millisecond

abbrev pub minute : ℕ
minute = 60 * second

-- `time.Duration(n) * time.Second`
unfoldable pub seconds : ℤ → Duration
unfolding int64 ◌*ℤ◌
seconds n = int64 (n *ℤ pos second)
