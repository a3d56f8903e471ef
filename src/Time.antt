-- ===== src/Time.antt =====
-- Go's time package as the coordinator uses it: a time is its distance to 1970 in nanoseconds, a
-- time.Duration an int64 of nanoseconds.
pub mod Laws
use any_sync_coordinator.Prelude.{ℕ, ◌+◌, ◌-◌, ◌*◌, ◌%◌, ◌^◌, ℤ, pos, negsuc, ltb, if◌then◌else◌}
use any_sync_coordinator.Prelude.Int.{◌+ℤ◌, ◌*ℤ◌, ◌/ℤ◌, sub_ℕ}

abbrev pub second : ℕ
second = 1_000_000_000

abbrev pub millisecond : ℕ
millisecond = 1_000_000

abbrev pub minute : ℕ
minute = 60_000_000_000

abbrev pub hour : ℕ
hour = 3_600_000_000_000

-- The value of an integer in int64 arithmetic.
pub wrap_int64 : ℤ → ℤ
wrap_int64 (pos n) = let r = n % 2 ^ 64 in if ltb r (2 ^ 63) then pos r else sub_ℕ r (2 ^ 64)
wrap_int64 (negsuc n) =
    let r = n % 2 ^ 64 in if ltb r (2 ^ 63) then negsuc r else pos (2 ^ 64 - 1 - r)

-- `time.Duration(n) * unit`
unfoldable pub duration : ℤ → ℕ → ℤ
unfolding wrap_int64 ◌*ℤ◌
duration n unit = wrap_int64 (n *ℤ unit)

-- `t.Add(d)`
unfoldable pub add : ℤ → ℤ → ℤ
unfolding ◌+ℤ◌
add t d = t +ℤ d

-- `t.Unix()`: whole seconds, rounded down.
unfoldable pub unix : ℤ → ℤ
unfolding ◌/ℤ◌
unix t = t /ℤ second

-- A time as it is read back from MongoDB: BSON keeps whole milliseconds, rounded down.
unfoldable pub stored : ℤ → ℤ
unfolding ◌/ℤ◌ ◌*ℤ◌
stored t = (t /ℤ millisecond) *ℤ millisecond
