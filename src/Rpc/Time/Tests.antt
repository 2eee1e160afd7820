-- ===== src/Rpc/Time/Tests.antt =====
-- Times, and the theorems on them at concrete inputs.
use y_f_s.Base.{ℕ, ◌+◌, ◌*◌, ◌<◌, ◌≤◌, ◌≡◌, ◌↔◌, refl, some, arith}
use y_f_s.Rpc.Time.{
  Timespec, add_timespec, diff_timespec, nanos, nanos-add_timespec, add_timespec_full,
  diff_timespec-nanos,
}

-- 900 milliseconds after the tenth second.
abbrev late : Timespec
late = record { tv_sec = 10; tv_nsec = 900_000_000 }

abbrev later : Timespec
later = record { tv_sec = 12; tv_nsec = 100_500_000 }

diff-late : diff_timespec later late ≡ some 1201
unfolding diff_timespec
diff-late = refl

nanos-add_timespec_example :
    (nanos (add_timespec late 1_250) ≡ nanos late + 1_250 * 1_000_000)
    × ((add_timespec late 1_250).tv_nsec ≤ 1_000_000_000)
nanos-add_timespec_example = nanos-add_timespec late 1_250

-- Here the sum makes a full second.
add_timespec_full_example :
    ((add_timespec late 100).tv_nsec ≡ 1_000_000_000)
    ↔ (late.tv_nsec + 100 * 1_000_000 ≡ 1_000_000_000)
add_timespec_full_example = add_timespec_full late 100 (omega arith)

diff_timespec-nanos_example :
    (d : ℕ) × (diff_timespec later late ≡ some d)
    × (d * 1_000_000 + nanos late < nanos later + 1_000_000)
    × (nanos later < d * 1_000_000 + nanos late + 1_000_000)
diff_timespec-nanos_example =
    diff_timespec-nanos later late (omega arith) (omega arith) (omega arith) (omega arith)
