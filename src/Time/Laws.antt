-- ===== src/Time/Laws.antt =====
-- Unix times after a duration.
use any_sync_coordinator.Prelude.{ℕ, ◌*◌, ◌≡◌, ℤ, pos, negsuc, arith}
use any_sync_coordinator.Prelude.Int.{◌+ℤ◌, ◌≤ℤ◌}
use any_sync_coordinator.Time.{add, unix, second}

-- A duration of n seconds moves the Unix time by n.
pub unix-add_seconds : (t : ℤ) (n : ℕ) → unix (add t (pos (n * second))) ≡ unix t +ℤ pos n
unfolding unix add ◌+ℤ◌
unix-add_seconds (pos t) n = ground arith
unix-add_seconds (negsuc t) n = ground arith

-- A duration that is not negative does not move the Unix time back.
pub unix-le-add : (t : ℤ) (d : ℕ) → unix t ≤ℤ unix (add t (pos d))
unfolding unix add ◌+ℤ◌
unix-le-add (pos t) d = ground arith
unix-le-add (negsuc t) d = ground arith
