-- ===== src/System/Steady/Operations.antt =====
-- kernel/src/lib.rs and hle/src: each operation on threads and objects is steady.
use pomelo.Prelude.{
  ℕ, ◌≡◌, refl, sym, ◌∙◌, Bool, true, not, Option, none, some, head?, List, [], ◌∷◌, Run, ok, panic,
  ◌>>=◌, expect, if◌then◌else◌, OnReturn, panics, returned, OnReturn-bind, after, either,
}
use pomelo.Prelude.Int.{ℤ}
use pomelo.Kernel.Signal.{Signal, signal, is_sticky, reset}
use pomelo.Kernel.World.{
  CommonThread, ThreadState, WakeReason, Waker, Object, Objects, World, find_thread, set_thread,
}
use pomelo.Kernel.Wake.{wake_up, remove_all, wake, wake_expect}
use pomelo.Kernel.Wake.Live.{find_thread-index}
use pomelo.Hle.Notify.{modify, notify, wake_each, with_queue, with_signal}
use pomelo.Hle.Sync.{
  release_lock, event_signal, mutex_release, timer_tick, rearm, thread_exit, wake_listed,
}
use pomelo.System.Steady.{
  Fit, Tidy, Steady, Steady-self, Steady-trans, remove_all-Tidy, set_thread-Steady,
  put_object-Steady, modify-Steady,
}

-- A run that panics or gives a world that is steady to `w`.
abbrev pub Stays : World → Run World → Type 0
Stays w = OnReturn (Steady w)

abbrev pub StaysWith : (A : Type 0) → World → Run (World × A) → Type 0
StaysWith A w = OnReturn (λ (r : World × A). Steady w r.0)

pub first-Stays :
    {w : World} (m : Run World) {f : World → Run World}
    → Stays w m
    → ((v : World) → Stays v (f v))
    → Stays w (m >>= f)
first-Stays m h next = OnReturn-bind m h (λ v a. weaken a (next v))
  where
    weaken : {u v : World} {r : Run World} → Steady u v → Stays v r → Stays u r
    weaken a panics = panics
    weaken a (returned b) = returned (Steady-trans a b)

-- A write in front of the rest.
pub from_Steady : {u v : World} {r : Run World} → Steady u v → Stays v r → Stays u r
from_Steady a panics = panics
from_Steady a (returned b) = returned (Steady-trans a b)

pub first-StaysWith :
    {A : Type 0} {w : World} (m : Run (World × A)) (f : World × A → Run World)
    → StaysWith A w m
    → ((v : World) (a : A) → Stays v (f (v, a)))
    → Stays w (m >>= f)
first-StaysWith m f h next = OnReturn-bind m h (λ (v, x) a. from_Steady a (next v x))

-- What was looked up is there.
pub after_expect :
    {A B : Type 0} {Q : B → Type 0} (o : Option A) {f : A → Run B}
    → ((a : A) → o ≡ some a → OnReturn Q (f a))
    → OnReturn Q (expect o >>= f)
after_expect none next = panics
after_expect (some a) next = next a refl

pub ready-Fit : (t : CommonThread) → t.state ≡ ThreadState.ready → Fit t
ready-Fit t e w = let clash : ThreadState.ready ≡ ThreadState.waiting = sym e ∙ w in cc

-- What a wake-up leaves: the thread under its index, ready, and queues without it.
abbrev pub Up : CommonThread → Objects → CommonThread × Objects → Type 0
Up t s x =
    (x.0.index ≡ t.index)
    × (x.0.state ≡ ThreadState.ready)
    × (x.1 ≡ remove_all t.index t.wait_objects s)

pub wake_up-Up :
    (t : CommonThread) (r : WakeReason) (s : Objects) → OnReturn (Up t s) (wake_up t r s)
unfolding wake_up
wake_up-Up t r s = search (after, returned)

woken-Steady :
    (w : World) (i : ℕ) (t : CommonThread) (x : CommonThread × Objects)
    → find_thread i w.threads ≡ some t
    → Up t w.objects x
    → Steady w (record { threads = set_thread i x.0 w.threads; objects = x.1 })
woken-Steady w i t x found (e, r, o) =
    let a = set_thread-Steady w i x.0 (e ∙ find_thread-index i w.threads found) (ready-Fit x.0 r) in
    record {
      fit = a.fit;
      same_indices = a.same_indices;
      tidy = λ h. rw o (remove_all-Tidy t.index t.wait_objects w.objects h);
    }

pub wake-Stays : (w : World) (k : Waker) (o : ℕ) → StaysWith Bool w (wake w k o)
unfolding wake
wake-Stays w k o = after_expect (find_thread k.thread w.threads) (λ t found.
    either _ _ _
      (OnReturn-bind _ (wake_up-Up t (WakeReason.object o) w.objects)
        (λ x up. returned (woken-Steady w k.thread t x found up)))
      (returned (Steady-self w)))

pub wake_expect-Stays : (w : World) (k : Waker) (o : ℕ) → Stays w (wake_expect w k o)
unfolding wake_expect
wake_expect-Stays w k o =
    first-StaysWith _ (λ (v, done). if done then ok v else panic) (wake-Stays w k o)
      (λ v done. either done _ _ (returned (Steady-self v)) panics)

pub wake_each-Stays : (w : World) (o : ℕ) (q : List Waker) → Stays w (wake_each w o q)
unfolding wake_each
wake_each-Stays w o [] = returned (Steady-self w)
wake_each-Stays w o (k ∷ q) =
    first-StaysWith _ (λ (v, done). wake_each v o q) (wake-Stays w k o)
      (λ v done. wake_each-Stays v o q)

pub wake_listed-Stays : (w : World) (o : ℕ) (q : List Waker) → Stays w (wake_listed w o q)
unfolding wake_listed
wake_listed-Stays w o [] = returned (Steady-self w)
wake_listed-Stays w o (k ∷ q) =
    first-Stays _ (wake_expect-Stays w k o) (λ v. wake_listed-Stays v o q)

queue-Tidy : (q : List Waker) (x : Object) → Tidy (some x) → Tidy (some (with_queue q x))
queue-Tidy q (Object.arbiter r) h = h
queue-Tidy q (Object.event s r) h = tt
queue-Tidy q (Object.mutex a r) h = tt
queue-Tidy q (Object.timer s r n i) h = tt
queue-Tidy q (Object.thread t d r) h = tt
queue-Tidy q (Object.server_session r s c) h = tt
queue-Tidy q (Object.client_session r s) h = tt
queue-Tidy q (Object.server_port r s c) h = tt
queue-Tidy q (Object.client_port r s) h = tt
queue-Tidy q Object.codeset h = tt

signal-Tidy : (f : Signal → Signal) (x : Object) → Tidy (some x) → Tidy (some (with_signal f x))
signal-Tidy f (Object.event s r) h = tt
signal-Tidy f (Object.timer s r n i) h = tt
signal-Tidy f (Object.arbiter r) h = h
signal-Tidy f (Object.mutex a r) h = tt
signal-Tidy f (Object.thread t d r) h = tt
signal-Tidy f (Object.server_session r s c) h = tt
signal-Tidy f (Object.client_session r s) h = tt
signal-Tidy f (Object.server_port r s c) h = tt
signal-Tidy f (Object.client_port r s) h = tt
signal-Tidy f Object.codeset h = tt

pub lock-Tidy : (x : Object) → Tidy (some x) → Tidy (some (release_lock x))
lock-Tidy (Object.mutex a r) h = tt
lock-Tidy (Object.arbiter r) h = h
lock-Tidy (Object.event s r) h = tt
lock-Tidy (Object.timer s r n i) h = tt
lock-Tidy (Object.thread t d r) h = tt
lock-Tidy (Object.server_session r s c) h = tt
lock-Tidy (Object.client_session r s) h = tt
lock-Tidy (Object.server_port r s c) h = tt
lock-Tidy (Object.client_port r s) h = tt
lock-Tidy Object.codeset h = tt

pub requeue : (w : World) (o : ℕ) (q : List Waker) → Steady w (modify w o (with_queue q))
requeue w o q = modify-Steady w o (with_queue q) (queue-Tidy q)

pub resignal : (w : World) (o : ℕ) (f : Signal → Signal) → Steady w (modify w o (with_signal f))
resignal w o f = modify-Steady w o (with_signal f) (signal-Tidy f)

pub notify-Stays : (w : World) (o : ℕ) (s : Signal) (q : List Waker) → Stays w (notify w o s q)
unfolding notify
notify-Stays w o s q =
    either (is_sticky s) _ _
      (from_Steady (requeue w o []) (
        first-Stays _ (wake_each-Stays (modify w o (with_queue [])) o q)
          (λ v. returned (requeue v o []))))
      (first q)
  where
    first :
        (q : List Waker)
        → Stays w (elim (head? q) [
          | none ↦ ok w
          | some k ↦ wake_expect w k o >>= λ v. ok (modify v o (with_signal reset))
        ])
    first [] = returned (Steady-self w)
    first (k ∷ q) = first-Stays _ (wake_expect-Stays w k o) (λ v. returned (resignal v o reset))

pub event_signal-Stays :
    (w : World) (o : ℕ) (s : Signal) (q : List Waker) → Stays w (event_signal w o s q)
unfolding event_signal
event_signal-Stays w o s q =
    from_Steady (put_object-Steady w o (Object.event (signal s) q) (λ h. tt))
      (notify-Stays _ o (signal s) q)

pub mutex_release-Stays : (w : World) (o : ℕ) (q : List Waker) → Stays w (mutex_release w o q)
unfolding mutex_release
mutex_release-Stays w o [] = returned (modify-Steady w o release_lock lock-Tidy)
mutex_release-Stays w o (k ∷ q) = wake_expect-Stays w k o

pub timer_tick-Stays :
    (w : World) (o : ℕ) (s : Signal) (q : List Waker) (n i : ℤ) (time : ℕ)
    → Stays w (timer_tick w o s q n i time)
unfolding timer_tick
timer_tick-Stays w o s q n i time =
    either _ _ _
      (from_Steady
        (put_object-Steady w o (Object.timer (signal s) q (rearm s time i).0 (rearm s time i).1)
          (λ h. tt))
        (notify-Stays _ o (signal s) q))
      (returned (Steady-self w))

pub thread_exit-Stays :
    (w : World) (o tid : ℕ) (dead : Bool) (q : List Waker) → Stays w (thread_exit w o tid dead q)
unfolding thread_exit
thread_exit-Stays w o tid dead q =
    either (not dead) _ _
      (from_Steady (put_object-Steady w o (Object.thread tid true []) (λ h. tt))
        (wake_each-Stays _ o q))
      (returned (Steady-self w))
