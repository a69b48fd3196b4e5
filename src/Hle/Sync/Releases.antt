-- ===== src/Hle/Sync/Releases.antt =====
-- hle/src/mutex.rs, timer.rs, thread.rs: a release, a tick and an exit, with no panic.
use pomelo.Prelude.{
  ℕ, ◌≡◌, ◌≢◌, refl, ap, ◌∙◌, Bool, true, false, some, List, [], ◌∷◌, inl, inr, Bool-cases, Returns,
  returns, Returns-mono, ==_self, if◌then◌else◌, leb, ◌&&◌,
}
use pomelo.Prelude.Int.{ℤ, pos_part}
use pomelo.Kernel.Signal.{Signal, signal, is_sticky}
use pomelo.Kernel.World.{Waker, Object, World, put_object, find_thread}
use pomelo.Kernel.Wake.{drop_thread, remove_in}
use pomelo.Kernel.Wake.Live.{Live, Inv}
use pomelo.Kernel.Wake.Woken.{Woken-Inv}
use pomelo.Hle.Notify.Each.{Settled, Settled-same, Readied, wake_each-Readied}
use pomelo.Hle.Sync.{mutex_release, timer_tick, thread_exit, release_lock, valid, rearm}
use pomelo.Hle.Sync.Waits.{put-Inv, live_queue}
use pomelo.Hle.Sync.Signals.{
  modify_at, modify_at-Inv, modify-threads, wake_expect-Woken, Notified, notify-Notified,
  timer-Signals,
}

-- A release with a waiter: the mutex stays acquired and passes to the first waiter.
pub record Passed (w : World) (o : ℕ) (k : Waker) (q : List Waker) (v : World) : Type 0 where
  pub keeps : Inv v
  pub settled : Settled v.threads k
  pub others : (j : ℕ) → j ≢ k.thread → find_thread j v.threads ≡ find_thread j w.threads
  pub object : v.objects o ≡ some (Object.mutex true (drop_thread k.thread q))

-- Without a waiter it is free.
pub record Freed (w : World) (o : ℕ) (v : World) : Type 0 where
  pub keeps : Inv v
  pub threads : v.threads ≡ w.threads
  pub object : v.objects o ≡ some (Object.mutex false [])

abbrev pub Released : World → ℕ → List Waker → World → Type 0
Released w o [] v = Freed w o v
Released w o (k ∷ ks) v = Passed w o k (k ∷ ks) v

-- In a world without stale wakers, a release of an acquired mutex ends without a panic: the first
-- waiter is ready, owns the mutex and has left the queue, and no other thread changes; without a waiter
-- the mutex is free. No queue has a stale waker.
pub mutex_release-Released :
    (w : World) (o : ℕ) (q : List Waker)
    → Inv w
    → w.objects o ≡ some (Object.mutex true q)
    → Returns (Released w o q) (mutex_release w o q)
unfolding mutex_release
mutex_release-Released w o [] inv at = returns (record {
  keeps = modify_at-Inv w o release_lock _ inv at tt;
  threads = modify-threads w o release_lock;
  object = modify_at w o release_lock at;
})
mutex_release-Released w o (k ∷ ks) inv at =
    let live : Live w.threads o k = (live_queue w o (Object.mutex true (k ∷ ks)) inv at).0 in
    Returns-mono (wake_expect-Woken w o k inv live) λ v wk. record {
      keeps = Woken-Inv inv wk;
      settled = Settled-same live wk k refl (inl live);
      others = wk.others;
      object = wk.purged o ∙ ap (remove_in k.thread) at;
    }

-- The state of a timer before a tick that fires has notified its waiters.
abbrev pub fired : World → ℕ → Signal → List Waker → ℤ → ℕ → World
fired w o s q interval time =
    put_object w o (Object.timer (signal s) q (rearm s time interval).0 (rearm s time interval).1)

-- A timer that is armed and due fires once: it is set anew (a pulse timer) or disarmed, and its waiters
-- are notified as those of an event; any other timer is not touched.
pub timer_tick-Notified :
    (w : World) (o : ℕ) (s : Signal) (q : List Waker) (next_ns interval : ℤ) (time : ℕ)
    → Inv w
    → w.objects o ≡ some (Object.timer s q next_ns interval)
    → Returns
        (λ v.
          if valid next_ns interval && leb (pos_part next_ns) time
          then Notified
              (fired w o s q interval time)
              o
              (λ s' q'. Object.timer s' q' (rearm s time interval).0 (rearm s time interval).1)
              (signal s)
              (is_sticky s)
              q
              v
          else (v ≡ w))
        (timer_tick w o s q next_ns interval time)
unfolding timer_tick
timer_tick-Notified w o s q next_ns interval time inv at =
    elim (Bool-cases (valid next_ns interval && leb (pos_part next_ns) time)) [
      | inl e ↦ rw e (
          notify-Notified (timer-Signals _ _) (fired w o s q interval time) o (signal s) q
            (put-Inv w o _ inv (live_queue w o (Object.timer s q next_ns interval) inv at))
            (rw (==_self o) refl))
      | inr e ↦ rw e (returns refl)
    ]

pub thread_exit-Readied :
    (w : World) (o tid : ℕ) (dead : Bool) (q : List Waker)
    → Inv w
    → w.objects o ≡ some (Object.thread tid dead q)
    → Returns
        (λ v.
          if dead
          then (v ≡ w)
          else (Readied (put_object w o (Object.thread tid true [])) q v
              × (v.objects o ≡ some (Object.thread tid true []))))
        (thread_exit w o tid dead q)
unfolding thread_exit
thread_exit-Readied w o tid true q inv at = returns refl
thread_exit-Readied w o tid false q inv at =
    let u : World = put_object w o (Object.thread tid true []) in
    let here : u.objects o ≡ some (Object.thread tid true []) = rw (==_self o) refl in
    Returns-mono
      (wake_each-Readied u o q (put-Inv w o _ inv tt)
        (live_queue w o (Object.thread tid false q) inv at))
      λ v r. (r, r.untouched o (ap pomelo.Kernel.Wake.Removal.queue_of here) ∙ here)
