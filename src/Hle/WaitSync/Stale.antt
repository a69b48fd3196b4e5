-- ===== src/Hle/WaitSync/Stale.antt =====
-- hle/src/svc.rs: `wait_sync_n` goes on with the objects behind the one that has woken the thread.
use pomelo.Prelude.{
  ℕ, ◌≡◌, ◌≢◌, refl, sym, ap, ◌∙◌, true, false, Option, some, List, [], ◌∷◌, inl, ok, panic,
  Returns, returns, Returns-bind, ==_self, ==_of_ne, Returns-value,
}
use pomelo.Kernel.Signal.{Signal, signal, consume, is_sticky}
use pomelo.Kernel.World.{
  running, wait_sync_n, CommonThread, Waker, Object, World, find_thread, put_object,
}
use pomelo.Kernel.Suspend.{suspend_thread-Suspended}
use pomelo.Kernel.Wake.{wake_expect}
use pomelo.Kernel.Wake.Live.{Live, Inv}
use pomelo.Kernel.Wake.Woken.{wake-Woken, wake_spent}
use pomelo.Kernel.Wake.Removal.{queue_of}
use pomelo.Hle.Notify.{notify}
use pomelo.Hle.Notify.Each.{Settled, Settled-same, Woken-untouched}
use pomelo.Hle.Sync.{sync_wait, sync_wait_object, wait_signal, event_signal}
use pomelo.Hle.Sync.Waits.{put-Inv, live_queue}
use pomelo.Hle.WaitSync.{wait_each, wait_many}

-- The wake-up of a spent waker panics.
spent_panics : (w : World) (o : ℕ) (k : Waker) → Settled w.threads k → wake_expect w k o ≡ panic
unfolding wake_expect
spent_panics w o k m = rw (wake_spent w o k m.found m.spent)

-- A signal that is set readies a live waker, and an object without waiters is as it was.
signaled_wait :
    (w : World) (o p : ℕ) (s : Signal) (q : List Waker) (k : Waker)
    → Inv w
    → o ≢ p
    → w.objects o ≡ some (Object.event s q)
    → s.signaled ≡ true
    → (r : Signal) → w.objects p ≡ some (Object.event r [])
    → Live w.threads o k
    → Returns
        (λ v. Settled v.threads k × (v.objects p ≡ some (Object.event r [])))
        (sync_wait w o k)
unfolding sync_wait sync_wait_object wait_signal
signaled_wait w o p s q k inv ne at set r at' l =
    let u : World = put_object w o (Object.event (consume s).0 q) in
    let inv' : Inv u = put-Inv w o _ inv (live_queue w o (Object.event s q) inv at) in
    let here : u.objects p ≡ some (Object.event r []) = rw (==_of_ne p o (λ e. ne (sym e))) at' in
    let (r', run, woke) = Returns-value (wake-Woken u inv' o k l) in
    let went : Settled r'.0.threads k × (r'.0.objects p ≡ some (Object.event r [])) =
      (Settled-same l woke.1 k refl (inl l), Woken-untouched woke.1 p (ap queue_of here) ∙ here) in
    let taken : (consume s).1 ≡ true = rw set refl in
    rw (at, sync_wait) (rw taken (rw (run, woke.0) (returns went)))

-- An object that is not signaled queues the waker, spent or not.
unsignaled_wait :
    (w : World) (p : ℕ) (r : Signal) (k : Waker)
    → w.objects p ≡ some (Object.event r [])
    → r.signaled ≡ false
    → sync_wait w p k ≡ ok (put_object w p (Object.event r (k ∷ [])))
unfolding sync_wait sync_wait_object wait_signal
unsignaled_wait w p r k at clear = rw (at, sync_wait) (simp clear)

-- The signal of an event whose first waiter is spent panics, unless it is sticky.
spent_signal :
    (w : World) (p : ℕ) (r : Signal) (k : Waker)
    → Settled w.threads k
    → is_sticky r ≡ false
    → event_signal w p r (k ∷ []) ≡ panic
unfolding event_signal notify
spent_signal w p r k m plain = rw plain (
    rw (
      spent_panics (put_object w p (Object.event (signal r) (k ∷ []))) p k
        (record { waiter = m.waiter; found = m.found; is_ready = m.is_ready; spent = m.spent })))

-- What is left behind: the second event's queue holds a waker, and a signal of the event panics.
pub data LeftStale (p : ℕ) (r : Signal) (v : World) : Type 0 where
  left :
      (k : Waker)
      → v.objects p ≡ some (Object.event r (k ∷ []))
      → event_signal v p r (k ∷ []) ≡ panic
      → LeftStale p r v

-- A running thread that waits for a signaled event and, behind it, an unsignaled one without waiters
-- that is not sticky leaves its waker in the queue of the second, although it has been readied by the
-- first; the next signal of the second event panics.
pub wait_many-LeftStale :
    (w : World) (tid o p : ℕ) (timeout : Option ℕ) (t : CommonThread) (s r : Signal)
    (q : List Waker)
    → Inv w
    → find_thread tid w.threads ≡ some t
    → t.state ≡ running
    → o ≢ p
    → w.objects o ≡ some (Object.event s q)
    → s.signaled ≡ true
    → w.objects p ≡ some (Object.event r [])
    → r.signaled ≡ false
    → is_sticky r ≡ false
    → Returns (LeftStale p r) (wait_many w tid (o ∷ p ∷ []) timeout)
unfolding wait_many wait_each
wait_many-LeftStale w tid o p timeout t s r q inv found runs ne at set at' clear plain =
    Returns-bind (suspend_thread-Suspended w tid (o ∷ p ∷ []) timeout wait_sync_n t inv found runs)
      λ (u, k) sus.
        let there = λ (x : ℕ). ap (λ (f : ℕ → Option Object). f x) sus.same_objects in
        Returns-bind
          (signaled_wait u o p s q k sus.keeps ne (there o ∙ at) set r (there p ∙ at')
            (sus.live o tt (rw (==_self o) refl)))
          λ v (m, here).
            let last : World = put_object v p (Object.event r (k ∷ [])) in
            rw (unsignaled_wait v p r k here clear)
              (returns (left k (rw (==_self p) refl) (spent_signal last p r k m plain)))
