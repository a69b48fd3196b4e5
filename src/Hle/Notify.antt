-- ===== src/Hle/Notify.antt =====
-- hle/src/event.rs, timer.rs, thread.rs: how an object wakes the threads in its queue.
pub mod Each
use pomelo.Prelude.{
  ℕ, ◌≡◌, Bool, true, false, Option, none, some, List, [], ◌∷◌, ◌++◌, head?, Run, ok, panic, ◌>>=◌,
  if◌then◌else◌,
}
use pomelo.Kernel.Signal.{Signal, is_sticky, reset, unconsume}
use pomelo.Kernel.World.{Waker, Object, World, put_object}
use pomelo.Kernel.Wake.{wake, wake_expect}

-- `queue.iter().for_each(|waker| { let _ = waker.wake(this, ct); })`.
unfoldable pub wake_each : World → ℕ → List Waker → Run World
wake_each w o [] = ok w
wake_each w o (k ∷ ks) = do (v, done) ← wake w k o; wake_each v o ks

-- Writes through the `RefCell`s of an object.
abbrev pub with_signal : (Signal → Signal) → Object → Object
with_signal f (Object.event s q) = Object.event (f s) q
with_signal f (Object.timer s q n i) = Object.timer (f s) q n i
with_signal f x = x

abbrev pub with_queue : List Waker → Object → Object
with_queue q (Object.event s _) = Object.event s q
with_queue q (Object.mutex a _) = Object.mutex a q
with_queue q (Object.timer s _ n i) = Object.timer s q n i
with_queue q (Object.thread t d _) = Object.thread t d q
with_queue q (Object.server_session _ r c) = Object.server_session q r c
with_queue q (Object.client_session _ s) = Object.client_session q s
with_queue q (Object.server_port _ r c) = Object.server_port q r c
with_queue q (Object.client_port _ s) = Object.client_port q s
with_queue q (Object.arbiter p) = Object.arbiter p
with_queue q Object.codeset = Object.codeset

abbrev pub modify : World → ℕ → (Object → Object) → World
modify w o f = elim (w.objects o) [ none ↦ w | some x ↦ put_object w o (f x) ]

-- The part of `signal` in event.rs and of `tick` in timer.rs behind `signal.signal()`: a sticky signal
-- wakes every waiter, any other the first one, which takes the signal.
unfoldable pub notify : World → ℕ → Signal → List Waker → Run World
unfolding wake_each
notify w o s q =
    if is_sticky s
    then (do v ← wake_each (modify w o (with_queue [])) o q; ok (modify v o (with_queue [])))
    else elim (head? q) [
      | none ↦ ok w
      | some k ↦ do v ← wake_expect w k o; ok (modify v o (with_signal reset))
    ]
