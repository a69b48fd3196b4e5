-- ===== src/System/Runs/Stepped.antt =====
-- kernel/src and hle/src: no operation leaves a stale waker.
use pomelo.Prelude.{
  ℕ, ◌≡◌, ◌≢◌, refl, sym, ap, ◌∙◌, Bool, true, false, ◌&&◌, Option, none, some, List, [], ◌∷◌, All,
  All-map, Run, panic, ◌>>◌, assert, Returns, returns, Returns-mono, if◌then◌else◌, OnReturn,
  panics, returned,
}
use mathlib.Core.Path.{subst}
use pomelo.Kernel.World.{
  CommonThread, ThreadState, Resume, Waker, Object, World, put_object, find_thread, set_thread,
}
use pomelo.Kernel.Wake.{is_waiting}
use pomelo.Kernel.Wake.Live.{Inv, find_thread-index}
use pomelo.Kernel.Wake.Woken.{Woken-Inv}
use pomelo.Kernel.Wake.Tick.{Typed}
use pomelo.Kernel.Suspend.{is_running}
use pomelo.Kernel.Run.{begin_run, end_run, is_ready, exit_thread}
use pomelo.Hle.Notify.Each.{Readied}
use pomelo.Hle.Sync.{mutex_release, release_lock, thread_exit}
use pomelo.Hle.Sync.Waits.{live_queue}
use pomelo.Hle.Sync.Signals.{wake_expect-Woken, modify_at-Inv}
use pomelo.Hle.Sync.Releases.{thread_exit-Readied}
use pomelo.System.Steady.{Fit}
use pomelo.System.Steady.Operations.{after_expect}
use pomelo.System.Quiet.{set_thread-Inv}
use pomelo.System.Runs.{Runs}

-- A run that panics or gives a world without stale wakers.
abbrev pub Sound : Run World → Type 0
Sound = OnReturn Inv

after_assert :
    {A : Type 0} {Q : A → Type 0} (b : Bool) (m : Run A)
    → (b ≡ true → OnReturn Q m)
    → OnReturn Q (assert b >> m)
after_assert true m next = next refl
after_assert false m next = panics

-- A test with its outcome.
either_test :
    {A : Type 0} {Q : A → Type 0} (b : Bool) (x y : Run A)
    → (b ≡ true → OnReturn Q x)
    → OnReturn Q y
    → OnReturn Q (if b then x else y)
either_test true x y hx hy = hx refl
either_test false x y hx hy = hy

ready_quiet : (s : ThreadState) → is_ready s ≡ true → s ≢ ThreadState.waiting
ready_quiet s e w = let clash : false ≡ true = sym (ap is_ready w) ∙ e in cc

running_quiet : (s : ThreadState) → is_running s ≡ true → s ≢ ThreadState.waiting
running_quiet s e w = let clash : false ≡ true = sym (ap is_running w) ∙ e in cc

pub begin_run-Inv :
    (w : World) (tid : ℕ) → Inv w → OnReturn (λ (r : World × Resume). Inv r.0) (begin_run w tid)
unfolding begin_run
begin_run-Inv w tid inv = after_expect (find_thread tid w.threads) (λ t found.
    after_assert (is_ready t.state) _ (λ e. returned (
      set_thread-Inv w tid t (record t { state = ThreadState.running; resume = Resume.normal }) inv
        found (ready_quiet t.state e) (find_thread-index tid w.threads found))))

pub end_run-Inv : (w : World) (tid : ℕ) → Inv w → Sound (end_run w tid)
unfolding end_run
end_run-Inv w tid inv = after_expect (find_thread tid w.threads) (λ t found.
    either_test (is_running t.state) _ _
      (λ e. returned (
        set_thread-Inv w tid t (record t { state = ThreadState.ready }) inv found
          (running_quiet t.state e) (find_thread-index tid w.threads found)))
      (returned inv))

-- A thread that waits has a kind of wait, one whose wait has run out too.
pub Fit-Typed : (time : ℕ) (ts : List CommonThread) → All Fit ts → All (Typed time) ts
Fit-Typed time ts h = All-map Fit (Typed time) ts (λ t f e. f (waiting t.state _ e)) h
  where
    waiting : (s : ThreadState) (b : Bool) → (is_waiting s && b) ≡ true → s ≡ ThreadState.waiting
    waiting ThreadState.waiting b e = refl
    waiting ThreadState.running b e = cc
    waiting ThreadState.ready b e = cc
    waiting ThreadState.paused b e = cc
    waiting ThreadState.done b e = cc

pub of_Returns : {m : Run World} → Returns Inv m → Sound m
of_Returns (returns h) = returned h

pub mutex_release-Inv :
    (w : World) (o : ℕ) (acquired : Bool) (q : List Waker)
    → Inv w
    → w.objects o ≡ some (Object.mutex acquired q)
    → Sound (mutex_release w o q)
unfolding mutex_release
mutex_release-Inv w o acquired [] inv at = returned (modify_at-Inv w o release_lock _ inv at tt)
mutex_release-Inv w o acquired (k ∷ ks) inv at = of_Returns (
    Returns-mono
      (wake_expect-Woken w o k inv (live_queue w o (Object.mutex acquired (k ∷ ks)) inv at).0)
      (λ v wk. Woken-Inv inv wk))

dead_or_Readied :
    (w v : World) (o tid : ℕ) (dead : Bool) (q : List Waker)
    → Inv w
    → (if dead
        then (v ≡ w)
        else (Readied (put_object w o (Object.thread tid true [])) q v
            × (v.objects o ≡ some (Object.thread tid true []))))
    → Inv v
dead_or_Readied w v o tid true q inv e = subst Inv (sym e) inv
dead_or_Readied w v o tid false q inv (r, at) = r.keeps

pub thread_exit-Inv :
    (w : World) (o tid : ℕ) (dead : Bool) (q : List Waker)
    → Inv w
    → w.objects o ≡ some (Object.thread tid dead q)
    → Sound (thread_exit w o tid dead q)
thread_exit-Inv w o tid dead q inv at = of_Returns (
    Returns-mono (thread_exit-Readied w o tid dead q inv at)
      (λ v h. dead_or_Readied w v o tid dead q inv h))

pub exit_thread-Inv : (w : World) (tid : ℕ) → Inv w → Runs w tid → Sound (exit_thread w tid)
unfolding exit_thread
exit_thread-Inv w tid inv (u, there, runs) = after_expect (find_thread tid w.threads) (λ t found.
    go t.kobj
      (record w { threads = set_thread tid (record t { state = ThreadState.done }) w.threads })
      (set_thread-Inv w tid u (record t { state = ThreadState.done }) inv there
        (running_quiet u.state (ap is_running runs)) (find_thread-index tid w.threads found))
      (w.objects t.kobj) refl)
  where
    go :
        (o : ℕ) (v : World)
        → Inv v
        → (m : Option Object) → v.objects o ≡ m
        → Sound (elim m [
          | some x ↦ elim x [ Object.thread id dead q ↦ thread_exit v o id dead q | _ ↦ panic ]
          | none ↦ panic
        ])
    go o v i none e = panics
    go o v i (some (Object.thread id dead q)) e = thread_exit-Inv v o id dead q i e
    go o v i (some (Object.event s q)) e = panics
    go o v i (some _) e = panics
