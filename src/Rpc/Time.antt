-- ===== src/Rpc/Time.antt =====
-- rpc/rpc.cc, the functions on `struct timespec`. Seconds since 1970 and nanoseconds are not
-- negative; the added milliseconds are not negative either, as for all callers.
mod Tests
use mathlib.Core.Logic.{dite}
use mathlib.Core.WellFounded
use mathlib.Core.WellFounded.{Acc, WellFounded}
use native.Mathlib.Decide.{dec_lt}
use y_f_s.Base.{
  ℕ, zero, suc, ◌+◌, ◌-◌, ◌*◌, ◌/◌, ◌%◌, ◌^◌, ◌<◌, ◌≤◌, ◌≡◌, ◌⊎◌, ◌↔◌, refl, ap, inl, inr, Bool,
  true, false, not, ◌&&◌, ◌||◌, Option, none, some, ltb, ◌==◌, if◌then◌else◌, minus, int_ltb, arith,
}

pub record Timespec : Type 0 where
  pub tv_sec : ℕ
  pub tv_nsec : ℕ

-- The `int` results are bit patterns.
unfoldable pub cmp_timespec : Timespec → Timespec → ℕ
cmp_timespec a b =
    if ltb b.tv_sec a.tv_sec
    then 1
    else if ltb a.tv_sec b.tv_sec
    then minus 1
    else if ltb b.tv_nsec a.tv_nsec
    then 1
    else if ltb a.tv_nsec b.tv_nsec
    then minus 1
    else 0

-- `while (tv_nsec > 1000000000)`
pub carry : ℕ → (nsec : ℕ) → Acc ◌<◌ nsec → Timespec
carry sec nsec (Acc.intro _ smaller) =
    dite (dec_lt 1_000_000_000 nsec)
      (λ h. carry (sec + 1) (nsec - 1_000_000_000) (smaller _ (omega arith)))
      (λ _. record { tv_sec = sec; tv_nsec = nsec })

accessible : (k n : ℕ) → n < k → Acc ◌<◌ n
accessible zero n h = absurd (omega arith)
accessible (suc k) n h = Acc.intro n (λ m l. accessible k m (omega arith))

unfoldable pub add_timespec : Timespec → ℕ → Timespec
unfolding carry accessible dec_lt
add_timespec a b =
    let nsec = a.tv_nsec + b % 1000 * 1_000_000 in
    carry (a.tv_sec + b / 1000) nsec (accessible (suc nsec) nsec (omega arith))

-- `none` is a failed VERIFY.
pub diff_timespec : Timespec → Timespec → Option ℕ
diff_timespec end start =
    let diff =
      if ltb start.tv_sec end.tv_sec then (end.tv_sec - start.tv_sec) * 1000 % 2 ^ 32 else 0 in
    if not (diff == 0) || (end.tv_sec == start.tv_sec)
    then some (
        if ltb start.tv_nsec end.tv_nsec
        then (diff + (end.tv_nsec - start.tv_nsec) / 1_000_000) % 2 ^ 32
        else (diff + 2 ^ 32 - (start.tv_nsec - end.tv_nsec) / 1_000_000 % 2 ^ 32) % 2 ^ 32)
    else none

-- The reference: a time is a number of nanoseconds.
abbrev pub nanos : Timespec → ℕ
nanos t = t.tv_sec * 1_000_000_000 + t.tv_nsec

carry-nanos :
    (sec nsec : ℕ) (w : Acc ◌<◌ nsec)
    → (nanos (carry sec nsec w) ≡ sec * 1_000_000_000 + nsec)
      × ((carry sec nsec w).tv_nsec ≤ 1_000_000_000)
unfolding carry
carry-nanos sec nsec (Acc.intro _ smaller) = grind (
  arith,
  λ (p : nsec - 1_000_000_000 < nsec).
      carry-nanos (sec + 1) (nsec - 1_000_000_000) (smaller (nsec - 1_000_000_000) p),
)

-- The deadline that `add_timespec` gives is exact, whatever the nanoseconds of the start: as a
-- number of nanoseconds it is the start and the added milliseconds. Its own nanoseconds are at most
-- a full second.
pub nanos-add_timespec :
    (a : Timespec) (b : ℕ)
    → (nanos (add_timespec a b) ≡ nanos a + b * 1_000_000)
      × ((add_timespec a b).tv_nsec ≤ 1_000_000_000)
unfolding add_timespec
nanos-add_timespec a b =
    let nsec = a.tv_nsec + b % 1000 * 1_000_000 in
    omega (arith, carry-nanos (a.tv_sec + b / 1000) nsec (accessible (suc nsec) nsec (omega arith)))

-- The sign of a difference, as `cmp_timespec` gives it.
abbrev pub sign : ℕ → ℕ → ℕ
sign a b = if ltb b a then 1 else if ltb a b then minus 1 else 0

-- On times with less than a second of nanoseconds, `cmp_timespec` compares the nanoseconds.
pub cmp_timespec-nanos :
    (a b : Timespec)
    → a.tv_nsec < 1_000_000_000
    → b.tv_nsec < 1_000_000_000
    → cmp_timespec a b ≡ sign (nanos a) (nanos b)
unfolding cmp_timespec
cmp_timespec-nanos a b h k = ground arith

-- With up to a full second of nanoseconds, a time that is not larger is not later.
pub cmp_timespec-le :
    (a b : Timespec)
    → a.tv_nsec ≤ 1_000_000_000
    → b.tv_nsec ≤ 1_000_000_000
    → int_ltb 0 (cmp_timespec a b) ≡ false
    → nanos a ≤ nanos b
unfolding cmp_timespec
cmp_timespec-le a b h k e = ground arith

-- For times in order, not more than 2,000,000 seconds apart and with less than a second of
-- nanoseconds, `diff_timespec` gives their distance in milliseconds, off by less than one.
pub diff_timespec-nanos :
    (end start : Timespec)
    → nanos start ≤ nanos end
    → end.tv_sec ≤ start.tv_sec + 2_000_000
    → start.tv_nsec < 1_000_000_000
    → end.tv_nsec < 1_000_000_000
    → (d : ℕ) × (diff_timespec end start ≡ some d)
      × (d * 1_000_000 + nanos start < nanos end + 1_000_000)
      × (nanos end < d * 1_000_000 + nanos start + 1_000_000)
unfolding diff_timespec
diff_timespec-nanos end start o far h k = (
  (end.tv_sec - start.tv_sec) * 1000
      + (end.tv_nsec - start.tv_nsec) / 1_000_000
      - (start.tv_nsec - end.tv_nsec) / 1_000_000,
  ground arith,
  ground arith,
  ground arith,
)

-- One round of the carry is enough for a proper start.
carry-once :
    (sec nsec : ℕ) (w : Acc ◌<◌ nsec)
    → nsec < 2_000_000_000
    → ltb 1_000_000_000 nsec ≡ false
    → carry sec nsec w ≡ record { tv_sec = sec; tv_nsec = nsec }
unfolding carry
carry-once sec nsec (Acc.intro _ smaller) b e = grind arith

carry-under :
    (sec nsec : ℕ) (w : Acc ◌<◌ nsec)
    → nsec < 2_000_000_000
    → (carry sec nsec w).tv_nsec ≡ (if ltb 1_000_000_000 nsec then nsec - 1_000_000_000 else nsec)
unfolding carry
carry-under sec nsec (Acc.intro _ smaller) b = grind (
  arith,
  λ (p : nsec - 1_000_000_000 < nsec).
      carry-once (sec + 1) (nsec - 1_000_000_000) (smaller (nsec - 1_000_000_000) p),
)

-- From a start with less than a second of nanoseconds, the deadline has a full second of them,
-- which is not a time that `pthread_cond_timedwait` takes, exactly when the start's nanoseconds and
-- the added milliseconds without their whole seconds make a full second.
pub add_timespec_full :
    (a : Timespec) (b : ℕ)
    → a.tv_nsec < 1_000_000_000
    → ((add_timespec a b).tv_nsec ≡ 1_000_000_000)
      ↔ (a.tv_nsec + b % 1000 * 1_000_000 ≡ 1_000_000_000)
unfolding add_timespec
add_timespec_full a b h =
    let nsec = a.tv_nsec + b % 1000 * 1_000_000 in
    let e =
      carry-under (a.tv_sec + b / 1000) nsec (accessible (suc nsec) nsec (omega arith))
        (omega arith) in
    ground arith
