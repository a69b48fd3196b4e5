-- ===== src/Hle/Sync/Timers.antt =====
-- hle/src/timer.rs: when a timer fires and what it is set to, by its numbers alone.
use pomelo.Prelude.{
  ℕ, suc, ◌+◌, ◌-◌, ◌%◌, ◌^◌, ◌≤◌, ◌<◌, ◌≡◌, refl, Bool, true, false, Option, none, some, List,
  Bool-cases, inl, inr, Returns, Returns-mono, arith, leb, ltb,
}
use pomelo.Prelude.Int.{ℤ, pos, negsuc, pos_part}
use pomelo.Kernel.Signal.{ResetType, one_shot, sticky, pulse, Signal, signal, is_sticky}
use pomelo.Kernel.World.{Waker, Object, World, put_object}
use pomelo.Kernel.Wake.Live.{Inv}
use pomelo.Hle.Sync.{timer_tick, rearm, to_i64}
use pomelo.Hle.Sync.Signals.{Notified}
use pomelo.Hle.Sync.Releases.{timer_tick-Notified}

-- What a tick at a time does to the next time and the interval of a timer: none if it does not fire.
pub data Schedule : ResetType → (next_ns interval : ℤ) → (time : ℕ) → Option (ℤ × ℤ) → Type 0 where
  -- Not set, without an interval, or not due.
  disarmed : {r : ResetType} {n : ℕ} {i : ℤ} {time : ℕ} → Schedule r (negsuc n) i time none
  no_interval : {r : ResetType} {n : ℤ} {i time : ℕ} → Schedule r n (negsuc i) time none
  early : {r : ResetType} {n i time : ℕ} → time < n → Schedule r (pos n) (pos i) time none
  -- Due, and -1 for both numbers, unless the timer is a pulse timer.
  stops_one_shot :
      {n i time : ℕ} → n ≤ time → Schedule one_shot (pos n) (pos i) time (some (negsuc 0, negsuc 0))
  stops_sticky :
      {n i time : ℕ} → n ≤ time → Schedule sticky (pos n) (pos i) time (some (negsuc 0, negsuc 0))
  -- Due again an interval after the tick; a sum that an i64 cannot hold comes out 2 ^ 64 less.
  again :
      {n i time : ℕ}
      → n ≤ time
      → time + i < 2 ^ 63
      → Schedule pulse (pos n) (pos i) time (some (pos (time + i), pos i))
  negative :
      {n i time c : ℕ}
      → n ≤ time
      → 2 ^ 63 ≤ time + i
      → time + i + suc c ≡ 2 ^ 64
      → Schedule pulse (pos n) (pos i) time (some (negsuc c, pos i))
  around :
      {n i time m : ℕ}
      → n ≤ time
      → time + i ≡ 2 ^ 64 + m
      → Schedule pulse (pos n) (pos i) time (some (pos m, pos i))

-- The timer as it was, or with the two numbers, set, and its waiters notified.
abbrev pub Ticked : World → ℕ → Signal → List Waker → Option (ℤ × ℤ) → World → Type 0
Ticked w o s q none v = v ≡ w
Ticked w o s q (some (n, i)) v =
    Notified (put_object w o (Object.timer (signal s) q n i)) o (λ s' q'. Object.timer s' q' n i)
      (signal s) (is_sticky s) q v

sum_again : (x : ℕ) → x < 2 ^ 63 → to_i64 x ≡ pos x
sum_again x h =
    let small : x % 2 ^ 64 ≡ x = omega arith in
    let below : ltb x (2 ^ 63) ≡ true = ground arith in rw (small, below) refl

sum_negative : (x : ℕ) → 2 ^ 63 ≤ x → x < 2 ^ 64 → to_i64 x ≡ negsuc (2 ^ 64 - x - 1)
sum_negative x h k =
    let small : x % 2 ^ 64 ≡ x = omega arith in
    let above : ltb x (2 ^ 63) ≡ false = ground arith in rw (small, above) refl

sum_around : (x : ℕ) → 2 ^ 64 ≤ x → x < 2 ^ 64 + 2 ^ 63 → to_i64 x ≡ pos (x - 2 ^ 64)
sum_around x h k =
    let small : x % 2 ^ 64 ≡ x - 2 ^ 64 = omega arith in
    let below : ltb (x - 2 ^ 64) (2 ^ 63) ≡ true = ground arith in rw (small, below) refl

rearm-Schedule :
    (r : ResetType) (b : Bool) (n i time : ℕ)
    → n ≤ time
    → time < 2 ^ 64
    → i < 2 ^ 63
    → Schedule r
        (pos n)
        (pos i)
        time
        (some (rearm (record { reset_type = r; signaled = b }) time (pos i)))
rearm-Schedule one_shot b n i time due ht hi = stops_one_shot due
rearm-Schedule sticky b n i time due ht hi = stops_sticky due
rearm-Schedule pulse b n i time due ht hi = elim (Bool-cases (ltb (time + i) (2 ^ 63))) [
  | inl e ↦ rw (sum_again (time + i) (ground arith)) (again due (ground arith))
  | inr e ↦ elim (Bool-cases (ltb (time + i) (2 ^ 64))) [
    | inl f ↦
        rw (sum_negative (time + i) (ground arith) (ground arith))
          (negative due (ground arith) (ground arith))
    | inr f ↦ rw (sum_around (time + i) (ground arith) (omega arith)) (around due (ground arith))
  ]
]

-- In a world without stale wakers, at a time below 2 ^ 64 and for an interval below 2 ^ 63: a tick fires
-- a timer if its next time and its interval are not negative and the next time is not after the tick, and
-- leaves any other timer as it is. A pulse timer that fires is due again an interval after the tick, where
-- a sum of 2 ^ 63 or more comes out 2 ^ 64 less; any other has -1 for both numbers. Its waiters are
-- notified as those of an event, with no panic, and no queue has a stale waker.
pub timer_tick-Ticked :
    (w : World) (o : ℕ) (s : Signal) (q : List Waker) (next_ns interval : ℤ) (time : ℕ)
    → Inv w
    → w.objects o ≡ some (Object.timer s q next_ns interval)
    → time < 2 ^ 64
    → pos_part interval < 2 ^ 63
    → Returns
        (λ v.
          (r : Option (ℤ × ℤ)) × Schedule s.reset_type next_ns interval time r × Ticked w o s q r v)
        (timer_tick w o s q next_ns interval time)
timer_tick-Ticked w o s q (negsuc n) i time inv at ht hi =
    Returns-mono (timer_tick-Notified w o s q (negsuc n) i time inv at) (λ v h. (none, disarmed, h))
timer_tick-Ticked w o s q (pos n) (negsuc i) time inv at ht hi =
    Returns-mono (timer_tick-Notified w o s q (pos n) (negsuc i) time inv at)
      (λ v h. (none, no_interval, h))
timer_tick-Ticked w o s q (pos n) (pos i) time inv at ht hi =
    Returns-mono (timer_tick-Notified w o s q (pos n) (pos i) time inv at) (λ v h.
      elim (Bool-cases (leb n time)) [
        | inl e ↦ (
          some (rearm s time (pos i)),
          rearm-Schedule s.reset_type s.signaled n i time (ground arith) ht hi,
          rw e at h,
        )
        | inr e ↦ (none, early (ground arith), rw e at h)
      ])
