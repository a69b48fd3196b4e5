-- ===== src/Hle/Sync.antt =====
-- hle/src/event.rs, mutex.rs, timer.rs, arbiter.rs, thread.rs: the objects that threads wait for, and
-- the waits of the sessions and ports.
pub mod Grants
pub mod Waits
pub mod Signals
pub mod Releases
pub mod Timers
pub mod Arbiter
use pomelo.Prelude.{
  ℕ, suc, ◌+◌, ◌-◌, ◌%◌, ◌^◌, ◌<◌, Bool, true, false, ◌&&◌, not, Option, none, some, List, [], ◌∷◌,
  ◌++◌, head?, Run, ok, panic, ◌>>=◌, if◌then◌else◌, ltb, leb, ◌==◌,
}
use pomelo.Prelude.Int.{ℤ, pos, negsuc, is_nonneg, pos_part}
use pomelo.Kernel.Signal.{
  ResetType, Signal, signal, consume, unconsume, reset, is_sticky, is_pulse, new_signal,
}
use pomelo.Kernel.World.{Waker, Object, World, put_object}
use pomelo.Kernel.Wake.{wake, wake_expect}
use pomelo.Hle.Notify.{wake_each, notify, with_signal, with_queue, modify}

-- `EventImpl::wait`; `TimerImpl::wait` is the same code over the timer's signal and queue, so the
-- object is given as a function of these two.
unfoldable pub wait_signal :
    World → ℕ → Signal → List Waker → (Signal → List Waker → Object) → Waker → Run World
wait_signal w o s q mk k =
    if (consume s).1
    then (do
      (v, done) ← wake (put_object w o (mk (consume s).0 q)) k o
      if done then ok v else ok (modify v o (with_signal unconsume)))
    else ok (put_object w o (mk s (q ++ k ∷ [])))

-- `MutexImpl::wait`.
abbrev pub release_lock : Object → Object
release_lock (Object.mutex _ q) = Object.mutex false q
release_lock x = x

unfoldable pub wait_mutex : World → ℕ → Bool → List Waker → Waker → Run World
wait_mutex w o acquired q k =
    if not acquired
    then (do
      (v, done) ← wake (put_object w o (Object.mutex true q)) k o
      if done then ok v else ok (modify v o release_lock))
    else ok (put_object w o (Object.mutex true (q ++ k ∷ [])))

-- `ThreadImpl::wait`.
unfoldable pub wait_thread : World → ℕ → ℕ → Bool → List Waker → Waker → Run World
wait_thread w o tid dead q k =
    if dead
    then (do (v, _) ← wake w k o; ok v)
    else ok (put_object w o (Object.thread tid dead (q ++ k ∷ [])))

-- The objects that are a `KSynchronizationObject`: all but the arbiter and the code sets.
abbrev pub is_sync : Object → Bool
is_sync (Object.arbiter q) = false
is_sync Object.codeset = false
is_sync _ = true

-- `KSynchronizationObject::wait`, by the type of the object; sessions and ports only queue.
unfoldable pub sync_wait_object : World → ℕ → Object → Waker → Run World
unfolding wait_signal wait_mutex wait_thread
sync_wait_object w o (Object.event s q) k = wait_signal w o s q Object.event k
sync_wait_object w o (Object.mutex a q) k = wait_mutex w o a q k
sync_wait_object w o (Object.timer s q n i) k =
    wait_signal w o s q (λ s' q'. Object.timer s' q' n i) k
sync_wait_object w o (Object.thread t d q) k = wait_thread w o t d q k
sync_wait_object w o (Object.server_session q r c) k =
    ok (put_object w o (Object.server_session (q ++ k ∷ []) r c))
sync_wait_object w o (Object.client_session q s) k =
    ok (put_object w o (Object.client_session (q ++ k ∷ []) s))
sync_wait_object w o (Object.server_port q r c) k =
    ok (put_object w o (Object.server_port (q ++ k ∷ []) r c))
sync_wait_object w o (Object.client_port q s) k =
    ok (put_object w o (Object.client_port (q ++ k ∷ []) s))
sync_wait_object w o (Object.arbiter q) k = panic
sync_wait_object w o Object.codeset k = panic

unfoldable pub sync_wait : World → ℕ → Waker → Run World
unfolding sync_wait_object
sync_wait w o k = elim (w.objects o) [ none ↦ panic | some x ↦ sync_wait_object w o x k ]

-- `EventImpl::signal`.
unfoldable pub event_signal : World → ℕ → Signal → List Waker → Run World
unfolding notify
event_signal w o s q = notify (put_object w o (Object.event (signal s) q)) o (signal s) q

-- `EventImpl::clear`.
unfoldable pub event_clear : World → ℕ → Signal → List Waker → World
event_clear w o s q = put_object w o (Object.event (reset s) q)

-- `MutexImpl::release`: the mutex passes to the first waiter, or is free.
unfoldable pub mutex_release : World → ℕ → List Waker → Run World
mutex_release w o q = elim (head? q) [
  | none ↦ ok (modify w o release_lock)
  | some k ↦ wake_expect w k o
]

-- `TimerImplData::valid`.
abbrev pub valid : ℤ → ℤ → Bool
valid next_ns interval = is_nonneg next_ns && is_nonneg interval

-- An `i64` with the low 64 bits of a sum of two `u64`.
abbrev pub to_i64 : ℕ → ℤ
to_i64 n = if ltb (n % 2 ^ 64) (2 ^ 63) then pos (n % 2 ^ 64) else negsuc (2 ^ 64 - n % 2 ^ 64 - 1)

-- `TimerImpl::tick`: a pulse timer is set anew, any other is disarmed.
abbrev pub rearm : Signal → ℕ → ℤ → ℤ × ℤ
rearm s time interval =
    if is_pulse s then (to_i64 (time + pos_part interval), interval) else (negsuc 0, negsuc 0)

unfoldable pub timer_tick : World → ℕ → Signal → List Waker → ℤ → ℤ → ℕ → Run World
unfolding notify
timer_tick w o s q next_ns interval time =
    if valid next_ns interval && leb (pos_part next_ns) time
    then (let (n, i) = rearm s time interval in
        notify (put_object w o (Object.timer (signal s) q n i)) o (signal s) q)
    else ok w

-- `ThreadImpl::exit`, which is `on_death`.
unfoldable pub thread_exit : World → ℕ → ℕ → Bool → List Waker → Run World
unfolding wake_each
thread_exit w o tid dead q =
    if not dead then wake_each (put_object w o (Object.thread tid true [])) o q else ok w

-- `ArbiterImpl::wait`.
unfoldable pub arbiter_wait : World → ℕ → List (Waker × ℕ) → Waker → ℕ → World
arbiter_wait w o q k addr = put_object w o (Object.arbiter (q ++ (k, addr) ∷ []))

-- `drain_filter` in `ArbiterImpl::signal`: up to `count` wakers at the address, all of them for the
-- greatest `u32`. What is drained, and what stays.
abbrev pub all_threads : ℕ
all_threads = 0xFFFF_FFFF

abbrev pub spend : ℕ → ℕ
spend count = if count == all_threads then count else count - 1

unfoldable pub drain : ℕ → ℕ → List (Waker × ℕ) → List Waker × List (Waker × ℕ)
drain addr count [] = ([], [])
drain addr count ((k, a) ∷ q) =
    let hit = (a == addr) && ltb 0 count in
    let (out, rest) = drain addr (if hit then spend count else count) q in
    if hit then (k ∷ out, rest) else (out, (k, a) ∷ rest)

-- `amount < 0` or `amount as u32`.
abbrev pub signal_count : ℤ → ℕ
signal_count (pos n) = n
signal_count (negsuc n) = all_threads

unfoldable pub wake_listed : World → ℕ → List Waker → Run World
wake_listed w o [] = ok w
wake_listed w o (k ∷ ks) = do v ← wake_expect w k o; wake_listed v o ks

-- `ArbiterImpl::signal`, with whether it has woken a thread.
unfoldable pub arbiter_signal : World → ℕ → List (Waker × ℕ) → ℤ → ℕ → Run (World × Bool)
unfolding drain wake_listed
arbiter_signal w o q amount addr =
    let (out, rest) = drain addr (signal_count amount) q in
    do
      v ← wake_listed (put_object w o (Object.arbiter rest)) o out
      ok (v, elim out [ [] ↦ false | k ∷ ks ↦ true ])
