-- ===== src/Hle/WaitSync.antt =====
-- hle/src/svc.rs: the waits of `wait_sync_1` and `wait_sync_n` behind the lookup of the handles.
pub mod Stale
use pomelo.Prelude.{
  ℕ, ◌≡◌, refl, Bool, true, false, Option, none, some, [], ◌∷◌, ◌++◌, has, Run, ok, panic, Returns,
  returns, Returns-mono, Returns-value, Returns-ok, ◌≢◌, List, ◌>>=◌, ◌==◌, ==_self, ◌∙◌, ap, ◌||◌,
  arith,
}
use mathlib.Core.Path.{subst}
use pomelo.Kernel.World.{
  ThreadState, running, WaitType, wait_sync_1, wait_sync_n, CommonThread, Waker, Object, World,
  find_thread,
}
use pomelo.Kernel.Suspend.{thread_wait, suspend_thread, suspend_thread-Suspended}
use pomelo.Kernel.Wake.{remove_wakers, remove_in}
use pomelo.Kernel.Wake.Live.{Inv, find_thread-index, find_thread-set_thread}
use pomelo.Hle.Notify.Each.{Settled}
use pomelo.Hle.Sync.{sync_wait, is_sync}
use pomelo.Hle.Sync.Grants.{Granted, Blocked}
use pomelo.Hle.Sync.Waits.{Waited, sync_wait-Outcome}

-- `wait_sync_1`: the caller has made sure that `o` is a synchronization object.
unfoldable pub wait_one : World → ℕ → ℕ → Option ℕ → Run World
wait_one w tid o timeout = do
  (v, k) ← suspend_thread w tid (o ∷ []) timeout wait_sync_1
  sync_wait v o k

-- The loop of `wait_sync_n`: the same waker goes to each object.
unfoldable pub wait_each : World → List ℕ → Waker → Run World
wait_each w [] k = ok w
wait_each w (o ∷ os) k = do v ← sync_wait w o k; wait_each v os k

unfoldable pub wait_many : World → ℕ → List ℕ → Option ℕ → Run World
unfolding wait_each
wait_many w tid os timeout = do
  (v, k) ← suspend_thread w tid os timeout wait_sync_n
  wait_each v os k

-- The thread `t` as a wait for `os` leaves it asleep.
abbrev pub asleep : CommonThread → List ℕ → Option ℕ → WaitType → CommonThread
asleep t os timeout kind = record t {
  wait_objects = os;
  state = ThreadState.waiting;
  wait_timeout = timeout;
  wait_type = some kind;
}

-- What a wait of the thread `t` for the object `x` at `o` leaves. Granted: the thread is ready, and every
-- object has lost its wakers. Blocked: it sleeps with the timeout, and its waker is last at the object.
pub data Resting (w : World) (tid o : ℕ) (timeout : Option ℕ) (t : CommonThread) (x : Object)
    (v : World) : Type 0 where
  went_on :
      {y : Object}
      → Granted x y
      → Settled v.threads (record { thread = tid; key = t.wake_key })
      → v.objects o ≡ some (remove_wakers tid y)
      → ((p : ℕ) → p ≢ o → v.objects p ≡ remove_in tid (w.objects p))
      → Resting w tid o timeout t x v
  queued :
      {y : Object}
      → Blocked (record { thread = tid; key = t.wake_key }) x y
      → find_thread tid v.threads ≡ some (asleep t (o ∷ []) timeout wait_sync_1)
      → v.objects o ≡ some y
      → ((p : ℕ) → p ≢ o → v.objects p ≡ w.objects p)
      → Resting w tid o timeout t x v

-- What a suspension makes of the thread, and its waker.
suspend_thread-asleep :
    (w : World) (tid : ℕ) (os : List ℕ) (timeout : Option ℕ) (kind : WaitType) (t : CommonThread)
    → find_thread tid w.threads ≡ some t
    → t.state ≡ running
    → Returns
        (λ ((v, k) : World × Waker).
          (find_thread tid v.threads ≡ some (asleep t os timeout kind))
          × (k ≡ record { thread = tid; key = t.wake_key }))
        (suspend_thread w tid os timeout kind)
unfolding suspend_thread thread_wait
suspend_thread-asleep w tid os timeout kind t found runs =
    let at : t.index ≡ tid = find_thread-index tid w.threads found in
    rw found (
      simp runs (
        returns (
          find_thread-set_thread tid tid (asleep t os timeout kind) w.threads at
              ∙ rw (==_self tid, found) refl,
          ap (λ i. record { thread = i; key = t.wake_key }) at,
        )))

-- In a world without stale wakers, a running thread's wait for one object ends without a panic and leaves no
-- stale waker, and no other thread changes. If the object is a set event or timer, a mutex that nobody
-- holds or a thread that has ended, the wait is granted: the thread is ready with its key moved on, the
-- signal is clear unless it is sticky, the mutex is held, and every queue has lost the thread's wakers.
-- Else, and for sessions and ports always, the thread sleeps in a wait for the object, with the timeout
-- that was given, and its waker is last in the object's queue; no other object changes.
pub wait_one-Resting :
    (w : World) (tid o : ℕ) (timeout : Option ℕ) (t : CommonThread) (x : Object)
    → Inv w
    → find_thread tid w.threads ≡ some t
    → t.state ≡ running
    → w.objects o ≡ some x
    → is_sync x ≡ true
    → Returns
        (λ v.
          Inv v
          × ((j : ℕ) → j ≢ tid → find_thread j v.threads ≡ find_thread j w.threads)
          × Resting w tid o timeout t x v)
        (wait_one w tid o timeout)
unfolding wait_one
wait_one-Resting w tid o timeout t x inv found runs at sync =
    let ((u, k), e, s) =
      Returns-value
        (suspend_thread-Suspended w tid (o ∷ []) timeout wait_sync_1 t inv found runs) in
    let sleeps =
      Returns-ok (suspend_thread-asleep w tid (o ∷ []) timeout wait_sync_1 t found runs) e in
    rw e (
      Returns-mono
        (sync_wait-Outcome u o x k (ap (λ (f : ℕ → Option Object). f o) s.same_objects ∙ at) sync
          s.keeps (s.live o tt (rw (==_self o) refl)))
        (λ v r.
          let (others, resting) = rest u k v sleeps.1 s.others s.same_objects sleeps.0 r.waited in
          (r.keeps, others, resting)))
  where
    rest :
        (u : World) (k : Waker) (v : World)
        → k ≡ record { thread = tid; key = t.wake_key }
        → ((j : ℕ) → j ≢ tid → find_thread j u.threads ≡ find_thread j w.threads)
        → u.objects ≡ w.objects
        → find_thread tid u.threads ≡ some (asleep t (o ∷ []) timeout wait_sync_1)
        → Waited u o x k v
        → ((j : ℕ) → j ≢ tid → find_thread j v.threads ≡ find_thread j w.threads)
          × Resting w tid o timeout t x v
    rest u k v e others same sleeps (Waited.went_on {y} g m kept here elsewhere) =
        let thread : k.thread ≡ tid = ap (λ (j : Waker). j.thread) e in
        (
          λ j ne. kept j (λ d. ne (d ∙ thread)) ∙ others j ne,
          went_on g (subst (Settled v.threads) e m)
              (here ∙ ap (λ i. some (remove_wakers i y)) thread)
              (λ p ne.
                elsewhere p ne
                ∙ ap (λ i. remove_in i (u.objects p)) thread
                ∙ ap (λ (f : ℕ → Option Object). remove_in tid (f p)) same),
        )
    rest u k v e others same sleeps (Waited.queued {y} b threads here elsewhere) = (
      λ j ne. ap (find_thread j) threads ∙ others j ne,
      queued (subst (λ j. Blocked j x y) e b) (ap (find_thread tid) threads ∙ sleeps) here
          (λ p ne. elsewhere p ne ∙ ap (λ (f : ℕ → Option Object). f p) same),
    )
