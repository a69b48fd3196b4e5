-- ===== src/System/Steady/Turns.antt =====
-- kernel/src/lib.rs and hle/src/session.rs, port.rs: ticks, turns of threads, requests and sessions are
-- steady.
use pomelo.Prelude.{
  ℕ, ◌≡◌, refl, Option, none, some, List, [], ◌∷◌, ◌++◌, All, Run, ok, panic, OnReturn, panics,
  returned, OnReturn-bind, after, either,
}
use mathlib.Core.Path.{ap₂}
use pomelo.Kernel.World.{
  CommonThread, ThreadState, WakeReason, Resume, Waker, Object, Objects, World, find_thread,
}
use pomelo.Kernel.Wake.{tick_threads, tick_thread, wake_up, timed_out}
use pomelo.Kernel.Wake.Live.{find_thread-index}
use pomelo.Kernel.Suspend.{is_running}
use pomelo.Kernel.Run.{begin_run, end_run, exit_thread}
use pomelo.Hle.Sync.{thread_exit}
use pomelo.Hle.Session.{wake_first, enqueue_sync_request, respond, enqueue_session}
use pomelo.System.Steady.{
  Fit, Tidy, indices, Steady-self, remove_all-Tidy, set_thread-Steady, put_object-Steady,
}
use pomelo.System.Steady.Operations.{
  Stays, StaysWith, from_Steady, after_expect, wake_expect-Stays, requeue, ready-Fit, Up,
  wake_up-Up, thread_exit-Stays,
}

-- One thread in a tick, and all of them.
abbrev TickedOne : CommonThread → Objects → CommonThread × Objects → Type 0
TickedOne t s x =
    (Fit t → Fit x.0) × (x.0.index ≡ t.index) × (((o : ℕ) → Tidy (s o)) → (o : ℕ) → Tidy (x.1 o))

abbrev TickedMany : List CommonThread → Objects → List CommonThread × Objects → Type 0
TickedMany ts s x =
    (All Fit ts → All Fit x.0)
    × (indices x.0 ≡ indices ts)
    × (((o : ℕ) → Tidy (s o)) → (o : ℕ) → Tidy (x.1 o))

tick_one :
    (time : ℕ) (t : CommonThread) (s : Objects) → OnReturn (TickedOne t s) (tick_thread time t s)
unfolding tick_thread
tick_one time t s =
    either (timed_out time t) _ _
      (up (wake_up t WakeReason.timeout s) (wake_up-Up t WakeReason.timeout s))
      (returned ((λ f. f), refl, (λ h. h)))
  where
    up : (m : Run (CommonThread × Objects)) → OnReturn (Up t s) m → OnReturn (TickedOne t s) m
    up panic panics = panics
    up (ok x) (returned (e, r, o)) =
        returned
          ((λ f. ready-Fit x.0 r), e, (λ h. rw o (remove_all-Tidy t.index t.wait_objects s h)))

pub tick_threads-Stays :
    (time : ℕ) (ts : List CommonThread) (s : Objects)
    → OnReturn (TickedMany ts s) (tick_threads time ts s)
unfolding tick_threads
tick_threads-Stays time [] s = returned ((λ f. f), refl, (λ h. h))
tick_threads-Stays time (t ∷ ts) s = OnReturn-bind _ (tick_one time t s) (λ x a.
    OnReturn-bind _ (tick_threads-Stays time ts x.1)
      (λ y b. returned ((λ f. (a.0 f.0, b.0 f.1)), ap₂ ◌∷◌ a.1 b.1, (λ h. b.2 (a.2 h)))))

-- `run_thread` before and behind the thread's own code.
pub begin_run-Stays : (w : World) (tid : ℕ) → StaysWith Resume w (begin_run w tid)
unfolding begin_run
begin_run-Stays w tid = after_expect (find_thread tid w.threads) (λ t found. after _ (λ u.
    returned (
      set_thread-Steady w tid _ (find_thread-index tid w.threads found)
        (λ e. let clash : ThreadState.running ≡ ThreadState.waiting = e in cc))))

pub end_run-Stays : (w : World) (tid : ℕ) → Stays w (end_run w tid)
unfolding end_run
end_run-Stays w tid = after_expect (find_thread tid w.threads) (λ t found.
    either (is_running t.state) _ _
      (returned (
        set_thread-Steady w tid _ (find_thread-index tid w.threads found)
          (ready-Fit (record t { state = ThreadState.ready }) refl)))
      (returned (Steady-self w)))

pub exit_thread-Stays : (w : World) (tid : ℕ) → Stays w (exit_thread w tid)
unfolding exit_thread
exit_thread-Stays w tid = after_expect (find_thread tid w.threads) (λ t found.
    from_Steady
      (set_thread-Steady w tid (record t { state = ThreadState.done })
        (find_thread-index tid w.threads found)
        (λ e. let clash : ThreadState.done ≡ ThreadState.waiting = e in cc))
      (go _ t.kobj (w.objects t.kobj)))
  where
    go :
        (v : World) (o : ℕ) (m : Option Object)
        → Stays v (elim m [
          | some x ↦ elim x [ Object.thread id dead q ↦ thread_exit v o id dead q | _ ↦ panic ]
          | none ↦ panic
        ])
    go v o none = panics
    go v o (some (Object.thread id dead q)) = thread_exit-Stays v o id dead q
    go v o (some (Object.event s q)) = panics
    go v o (some _) = panics

pub wake_first-Stays : (w : World) (o : ℕ) (q : List Waker) → Stays w (wake_first w o q)
unfolding wake_first
wake_first-Stays w o [] = returned (Steady-self w)
wake_first-Stays w o (k ∷ ks) = from_Steady (requeue w o ks) (wake_expect-Stays _ k o)

pub respond-Stays : (w : World) (client : Option ℕ) → Stays w (respond w client)
unfolding respond
respond-Stays w none = panics
respond-Stays w (some client) = go (w.objects client)
  where
    go :
        (m : Option Object)
        → Stays w (elim m [
          | none ↦ panic
          | some x ↦ elim x [
            | Object.client_session q server ↦ wake_first w client q
            | Object.client_port q server ↦ wake_first w client q
            | _ ↦ panic
          ]
        ])
    go none = panics
    go (some (Object.client_session q server)) = wake_first-Stays w client q
    go (some (Object.client_port q server)) = wake_first-Stays w client q
    go (some _) = panics

pub enqueue_session-Stays :
    (w : World) (o : ℕ) (q : List Waker) (sessions : List ℕ) (client : Option ℕ) (session : ℕ)
    → Stays w (enqueue_session w o q sessions client session)
unfolding enqueue_session
enqueue_session-Stays w o q sessions client session =
    from_Steady
      (put_object-Steady w o (Object.server_port q (sessions ++ session ∷ []) client) (λ h. tt))
      (wake_first-Stays _ o q)

pub enqueue_request-Stays :
    (w : World) (o : ℕ) (q : List Waker) (requests : List ℕ) (client : Option ℕ) (tid : ℕ)
    → Stays w (enqueue_sync_request w o q requests client tid)
unfolding enqueue_sync_request
enqueue_request-Stays w o q requests client tid =
    from_Steady
      (put_object-Steady w o (Object.server_session q (requests ++ tid ∷ []) client) (λ h. tt))
      (wake_first-Stays _ o q)
