-- ===== src/System/Runs/Kept.antt =====
-- kernel/src and hle/src: every step of a run keeps the invariant, and so does every run.
use pomelo.Prelude.{
  ℕ, ◌≡◌, sym, Bool, true, false, ◌>>=◌, Option, none, some, List, [], ◌∷◌, ◌++◌, ok, if◌then◌else◌,
  Returns-ok, OnReturn-ok, OnReturn-bind, returned,
}
use pomelo.Prelude.Int.{ℤ}
use mathlib.Core.Path.{subst}
use pomelo.Kernel.Signal.{Signal, signal, is_sticky}
use pomelo.Kernel.World.{WaitType, wait_sync_1, Waker, Object, World, put_object}
use pomelo.Kernel.Wake.Live.{Inv, find_thread-index}
use pomelo.Kernel.Wake.Tick.{tick_threads-Ticked}
use pomelo.Kernel.Suspend.{suspend_thread, suspend_thread-Suspended}
use pomelo.Hle.Sync.{timer_tick, arbiter_wait}
use pomelo.Hle.Sync.Waits.{put-Inv, live_queue}
use pomelo.Hle.Sync.Signals.{Notified, event_signal-Notified}
use pomelo.Hle.Sync.Releases.{timer_tick-Notified}
use pomelo.Hle.Sync.Arbiter.{arbiter_signal-Drained}
use pomelo.Hle.WaitSync.{wait_one, wait_one-Resting}
use pomelo.Hle.Session.{sync_request, enqueue_sync_request}
use pomelo.Hle.Session.Request.{enqueue_session-Served}
use pomelo.System.Steady.{
  Tidy, Steady, Steady-self, Steady-trans, put_object-Steady, set_thread-Steady,
}
use pomelo.System.Steady.Operations.{
  Stays, StaysWith, first-StaysWith, from_Steady, event_signal-Stays, mutex_release-Stays,
  timer_tick-Stays,
}
use pomelo.System.Steady.Waits.{suspend-Stays, sync_wait-Stays, arbiter_signal-Stays}
use pomelo.System.Steady.Turns.{
  tick_threads-Stays, begin_run-Stays, end_run-Stays, exit_thread-Stays, respond-Stays,
  enqueue_session-Stays, enqueue_request-Stays,
}
use pomelo.System.Runs.{Good, Runs, Step, Reach}
use pomelo.System.Runs.Fresh.{
  same_Indexed, empty-Tidy, sync-Tidy, add_thread-Good, arbiter_wait-Tidy,
}
use pomelo.System.Runs.Stepped.{
  begin_run-Inv, end_run-Inv, Fit-Typed, mutex_release-Inv, exit_thread-Inv,
}
use pomelo.System.Runs.Messages.{message-Fit, message-Inv}
use pomelo.System.Runs.Asked.{arbitrate-Inv, request-Inv, respond-Inv}

-- What each end of a notification keeps.
Notified-Inv :
    (w : World) (o : ℕ) (mk : Signal → List Waker → Object) (s : Signal) (b : Bool) (q : List Waker)
    (v : World)
    → Notified w o mk s b q v
    → Inv v
Notified-Inv w o mk s true q v h = h.keeps
Notified-Inv w o mk s false [] v h = h.keeps
Notified-Inv w o mk s false (k ∷ ks) v h = h.keeps

timer_tick-Inv :
    (w : World) (o : ℕ) (s : Signal) (q : List Waker) (n i : ℤ) (time : ℕ) (v : World)
    → Inv w
    → w.objects o ≡ some (Object.timer s q n i)
    → timer_tick w o s q n i time ≡ ok v
    → Inv v
timer_tick-Inv w o s q n i time v inv at e =
    by_test _ _ _ (Returns-ok (timer_tick-Notified w o s q n i time inv at) e)
  where
    by_test :
        (b : Bool) (x : World) (mk : Signal → List Waker → Object)
        → (if b then Notified x o mk (signal s) (is_sticky s) q v else (v ≡ w))
        → Inv v
    by_test true x mk h = Notified-Inv x o mk (signal s) (is_sticky s) q v h
    by_test false x mk h = subst Inv (sym h) inv

-- Without stale wakers, and steady: good.
Steady-Good : {w v : World} → Good w → Inv v → Steady w v → Good v
Steady-Good {w} {v} good inv s = record {
  inv = inv;
  fit = s.fit good.fit;
  indexed = same_Indexed w.threads v.threads s.same_indices good.indexed;
  tidy = s.tidy good.tidy;
}

wait_one-Stays : (w : World) (tid o : ℕ) (timeout : Option ℕ) → Stays w (wait_one w tid o timeout)
unfolding wait_one
wait_one-Stays w tid o timeout =
    first-StaysWith _ _ (suspend-Stays w tid (o ∷ []) timeout wait_sync_1)
      (λ v k. sync_wait-Stays v o k)

arbitrate-Steady :
    (w u : World) (tid o : ℕ) (q : List (Waker × ℕ)) (k : Waker) (addr : ℕ)
    → Good w
    → Runs w tid
    → w.objects o ≡ some (Object.arbiter q)
    → suspend_thread w tid (o ∷ []) none WaitType.arbiter ≡ ok (u, k)
    → Steady w (arbiter_wait u o q k addr)
unfolding arbiter_wait
arbitrate-Steady w u tid o q k addr good (t, found, runs) at e =
    let s =
      Returns-ok
        (suspend_thread-Suspended w tid (o ∷ []) none WaitType.arbiter t good.inv found runs) e in
    Steady-trans (OnReturn-ok (suspend-Stays w tid (o ∷ []) none WaitType.arbiter) e) (
      put_object-Steady u o (Object.arbiter (q ++ (k, addr) ∷ []))
        (λ h. arbiter_wait-Tidy w tid o q k addr good (t, found, runs) at s.thread))

request-Stays :
    (w : World) (o : ℕ) (q : List Waker) (server : ℕ) (k : Waker)
    → StaysWith Bool w (sync_request w o q server k)
unfolding sync_request
request-Stays w o q server k = go (w.objects server)
  where
    go :
        (m : Option Object)
        → StaysWith Bool w (elim m [
          | none ↦ ok (w, false)
          | some x ↦ elim x [
            | Object.server_session sq requests client ↦
                enqueue_sync_request
                  (put_object w o (Object.client_session (q ++ k ∷ []) server))
                  server
                  sq
                  requests
                  client
                  k.thread
                >>= λ v. ok (v, true)
            | _ ↦ ok (w, false)
          ]
        ])
    go none = returned (Steady-self w)
    go (some (Object.server_session sq requests client)) =
        OnReturn-bind _
          (from_Steady
            (put_object-Steady w o (Object.client_session (q ++ k ∷ []) server) (λ h. tt))
            (enqueue_request-Stays _ server sq requests client k.thread))
          (λ v s. returned s)
    go (some (Object.event s' q')) = returned (Steady-self w)
    go (some _) = returned (Steady-self w)

pub Step-Good : {w v : World} → Step w v → Good w → Good v
Step-Good {w} (Step.begin tid r e) g =
    Steady-Good g (OnReturn-ok (begin_run-Inv w tid g.inv) e)
      (OnReturn-ok (begin_run-Stays w tid) e)
Step-Good {w} (Step.pause tid e) g =
    Steady-Good g (OnReturn-ok (end_run-Inv w tid g.inv) e) (OnReturn-ok (end_run-Stays w tid) e)
Step-Good {w} (Step.tick time e) g =
    let s = OnReturn-ok (tick_threads-Stays time w.threads w.objects) e in
    Steady-Good g
      (Returns-ok
        (tick_threads-Ticked time w.threads w.objects g.indexed (Fit-Typed time w.threads g.fit)
          g.inv)
        e).1
      (record { fit = s.0; same_indices = s.1; tidy = s.2 })
Step-Good {w} (Step.fire o s q n i time at e) g =
    Steady-Good g (timer_tick-Inv w o s q n i time _ g.inv at e)
      (OnReturn-ok (timer_tick-Stays w o s q n i time) e)
Step-Good {w} (Step.signal o s q at e) g =
    Steady-Good g
      (Notified-Inv _ o Object.event (signal s) (is_sticky s) q _
        (Returns-ok (event_signal-Notified w o s q g.inv at) e))
      (OnReturn-ok (event_signal-Stays w o s q) e)
Step-Good {w} (Step.release o acquired q at e) g =
    Steady-Good g (OnReturn-ok (mutex_release-Inv w o acquired q g.inv at) e)
      (OnReturn-ok (mutex_release-Stays w o q) e)
Step-Good {w} (Step.signal_arbiter o q amount addr woke at e) g =
    Steady-Good g
      (Returns-ok (arbiter_signal-Drained w o q amount addr g.inv (subst Tidy at (g.tidy o)) at)
        e).0.keeps
      (OnReturn-ok (arbiter_signal-Stays w o q amount addr at) e)
Step-Good {w} (Step.wait tid o timeout x (t, found, runs) at sync e) g =
    Steady-Good g (Returns-ok (wait_one-Resting w tid o timeout t x g.inv found runs at sync) e).0
      (OnReturn-ok (wait_one-Stays w tid o timeout) e)
Step-Good {w} (Step.sleep tid timeout k (t, found, runs) e) g =
    Steady-Good g
      (Returns-ok (suspend_thread-Suspended w tid [] timeout WaitType.sleep t g.inv found runs)
        e).keeps
      (OnReturn-ok (suspend-Stays w tid [] timeout WaitType.sleep) e)
Step-Good {w} (Step.arbitrate {u} tid o q k addr runs at e) g =
    Steady-Good g (arbitrate-Inv w u tid o q k addr g.inv runs at e)
      (arbitrate-Steady w u tid o q k addr g runs at e)
Step-Good {w} (Step.request {u} tid o q server k there runs at e f) g =
    Steady-Good g (OnReturn-ok (request-Inv w u tid o q server k g.inv runs at e) f) (
      Steady-trans (OnReturn-ok (suspend-Stays w tid (o ∷ []) none wait_sync_1) e)
        (OnReturn-ok (request-Stays u o q server k) f))
Step-Good {w} (Step.answer client e) g =
    Steady-Good g (OnReturn-ok (respond-Inv w client g.inv) e)
      (OnReturn-ok (respond-Stays w client) e)
Step-Good {w} (Step.connect o q sessions client session at e) g =
    Steady-Good g
      (Returns-ok (enqueue_session-Served w o q sessions client session g.inv at) e).keeps
      (OnReturn-ok (enqueue_session-Stays w o q sessions client session) e)
Step-Good {w} (Step.message i t m found) g = Steady-Good g (message-Inv w i t m g.inv found) (
    set_thread-Steady w i (record t { ipc_data = m }) (find_thread-index i w.threads found)
      (message-Fit w i t m g.fit found))
Step-Good {w} (Step.create o x e) g =
    Steady-Good g (put-Inv w o x g.inv (rw e tt)) (put_object-Steady w o x (λ h. empty-Tidy x e))
Step-Good {w} (Step.update o x y at sync e) g =
    Steady-Good g (put-Inv w o y g.inv (rw e (live_queue w o x g.inv at)))
      (put_object-Steady w o y (λ h. sync-Tidy y sync))
Step-Good {w} (Step.start pid tid place absent) g = add_thread-Good w pid tid place absent g
Step-Good {w} (Step.exit tid runs e) g =
    Steady-Good g (OnReturn-ok (exit_thread-Inv w tid g.inv runs) e)
      (OnReturn-ok (exit_thread-Stays w tid) e)

-- A run of steps, in any order, is made of turns of threads, ticks, firing timers, signals, releases, waits
-- for one object, sleeps, arbitration, requests and responses, connections, writes of messages, new objects
-- and threads, writes to an object's cells other than its queue, and exits, each of which ends without a
-- panic. From a world where no queue has a stale waker, each waiting thread has a kind of wait, no two
-- threads have one index and no thread stands twice at an arbiter, it leads to such worlds only. The wait
-- for several objects is no step, nor is what waits by it, reply_and_receive and the service loops.
pub Reach-Good : {w v : World} → Good w → Reach w v → Good v
Reach-Good g Reach.here = g
Reach-Good g (Reach.next r s) = Step-Good s (Reach-Good g r)
