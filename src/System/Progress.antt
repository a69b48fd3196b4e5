-- ===== src/System/Progress.antt =====
-- kernel/src/lib.rs and hle/src/event.rs: a thread that waits is woken, and the run loop has a turn to give.
use pomelo.Prelude.{
  ℕ, ◌≡◌, ◌≢◌, refl, sym, ap, ◌∙◌, Bool, true, false, Bool-cases, inl, inr, none, some, List, [],
  ◌∷◌, All, ◌==◌, ==_self, ==_of_ne, eq_of_==, Returns, returns, Returns-value, OnReturn-ok,
  some-inj,
}
use mathlib.Core.Path.{subst}
use pomelo.Kernel.Signal.{Signal, signal, is_sticky}
use pomelo.Kernel.World.{CommonThread, ThreadState, Resume, Waker, Object, World, find_thread}
use pomelo.Kernel.Wake.Live.{find_thread-index, find_thread-set_thread}
use pomelo.Kernel.Wake.Tick.{Indexed}
use pomelo.Kernel.Run.{is_ready, next_thread, pick_next, begin_run}
use pomelo.Hle.Notify.Each.{Settled}
use pomelo.Hle.Sync.{event_signal}
use pomelo.Hle.Sync.Signals.{Notified, event_signal-Notified}
use pomelo.System.Steady.Operations.{event_signal-Stays}
use pomelo.System.Runs.{Good, Runs}
use pomelo.System.Runs.Fresh.{same_Indexed}

found_apart :
    (i j : ℕ) (ts : List CommonThread) (t : CommonThread)
    → All (λ x. x.index ≢ i) ts
    → find_thread j ts ≡ some t
    → j ≢ i
unfolding find_thread
found_apart i j [] t h f = cc
found_apart i j (x ∷ ts) t h f = elim (Bool-cases (x.index == j)) [
  | inl b ↦ λ e. h.0 (eq_of_== x.index j b ∙ e)
  | inr b ↦ found_apart i j ts t h.1 (rw b at f)
]

-- The scheduler's choice is a thread that is ready.
abbrev Choice : List CommonThread → Type 0
Choice ts =
    (tid : ℕ) × (u : CommonThread) × (next_thread ts ≡ some tid)
    × (find_thread tid ts ≡ some u)
    × (u.state ≡ ThreadState.ready)

ready_of : (s : ThreadState) → is_ready s ≡ true → s ≡ ThreadState.ready
ready_of ThreadState.ready e = refl
ready_of ThreadState.running e = cc
ready_of ThreadState.waiting e = cc
ready_of ThreadState.paused e = cc
ready_of ThreadState.done e = cc

next_thread-Choice :
    (j : ℕ) (t : CommonThread) (ts : List CommonThread)
    → Indexed ts
    → find_thread j ts ≡ some t
    → t.state ≡ ThreadState.ready
    → Choice ts
unfolding next_thread find_thread
next_thread-Choice j t [] d f r = cc
next_thread-Choice j t (x ∷ ts) d f r = elim (Bool-cases (is_ready x.state)) [
  | inl b ↦ (x.index, x, rw b refl, rw (==_self x.index) refl, ready_of x.state b)
  | inr b ↦ elim (Bool-cases (x.index == j)) [
    | inl c ↦
        let same : x ≡ t = some-inj (rw c at f) in
        let clash : false ≡ true =
          sym b ∙ ap (λ (y : CommonThread). is_ready y.state) same ∙ ap is_ready r in
        cc
    | inr c ↦
        let (tid, u, next, found, ready) = next_thread-Choice j t ts d.1 (rw c at f) r in
        (
          tid,
          u,
          rw b next,
          rw (==_of_ne x.index tid (λ e. found_apart x.index tid ts u d.0 found (sym e))) found,
          ready,
        )
  ]
]

-- There is a turn to give, and it begins.
abbrev pub HasTurn : World → Type 0
HasTurn w =
    (tid : ℕ) × (pick_next w none ≡ some tid)
    × Returns (λ (r : World × Resume). Runs r.0 tid) (begin_run w tid)

begins :
    (w : World) (tid : ℕ) (u : CommonThread)
    → find_thread tid w.threads ≡ some u
    → u.state ≡ ThreadState.ready
    → Returns (λ (r : World × Resume). Runs r.0 tid) (begin_run w tid)
unfolding begin_run
begins w tid u found ready =
    let at : u.index ≡ tid = find_thread-index tid w.threads found in
    rw found (
      simp ready (
        returns (
          record u { state = ThreadState.running; resume = Resume.normal },
          find_thread-set_thread tid tid
                (record u { state = ThreadState.running; resume = Resume.normal }) w.threads at
              ∙ rw (==_self tid, found) refl,
          refl,
        )))

ready-HasTurn :
    (w : World) (j : ℕ) (t : CommonThread)
    → Indexed w.threads
    → find_thread j w.threads ≡ some t
    → t.state ≡ ThreadState.ready
    → HasTurn w
unfolding pick_next
ready-HasTurn w j t d f r =
    let (tid, u, next, found, ready) = next_thread-Choice j t w.threads d f r in
    (tid, next, begins w tid u found ready)

-- A waker that is spent is that of a ready thread.
Settled-first :
    (w : World) (o : ℕ) (s : Signal) (b : Bool) (k : Waker) (ks : List Waker) (v : World)
    → Notified w o Object.event s b (k ∷ ks) v
    → Settled v.threads k
Settled-first w o s true k ks v h = h.settled.0
Settled-first w o s false k ks v h = h.settled

-- In a world where no queue has a stale waker, each waiting thread has a kind of wait, no two threads have
-- one index and no thread stands twice at an arbiter, a signal of an event for which a thread waits ends
-- without a panic. Behind it the run loop, when no thread is scheduled, finds a thread whose turn begins
-- without a panic.
pub event_signal-HasTurn :
    (w : World) (o : ℕ) (s : Signal) (k : Waker) (ks : List Waker)
    → Good w
    → w.objects o ≡ some (Object.event s (k ∷ ks))
    → Returns HasTurn (event_signal w o s (k ∷ ks))
event_signal-HasTurn w o s k ks g at =
    let (v, e, n) = Returns-value (event_signal-Notified w o s (k ∷ ks) g.inv at) in
    let steady = OnReturn-ok (event_signal-Stays w o s (k ∷ ks)) e in
    let awake = Settled-first _ o (signal s) (is_sticky s) k ks v n in
    subst (Returns HasTurn) (sym e) (
      returns (
        ready-HasTurn v k.thread awake.waiter
          (same_Indexed w.threads v.threads steady.same_indices g.indexed) awake.found
          awake.is_ready))
