-- ===== src/Tests/Threads.antt =====
-- Two threads, one of which waits for the object at 0; the code is hle/src and kernel/src/lib.rs.
use pomelo.Prelude.{
  ℕ, ◌≡◌, ◌≢◌, refl, Bool, true, false, none, some, List, [], ◌∷◌, arith, All, Returns, ltb, length,
  take, drop, Option,
}
use pomelo.Prelude.Int.{ℤ, pos}
use pomelo.Prelude.Buffer.{Buffer}
use pomelo.Kernel.Signal.{Signal, signal, is_sticky, one_shot, pulse}
use pomelo.Kernel.World.{
  Waker, Object, World, CommonThread, ThreadState, Resume, wait_sync_1, put_object, running,
  find_thread,
}
use pomelo.Kernel.Wake.{wake}
use pomelo.Kernel.Wake.Removal.{queue_of}
use pomelo.Kernel.Wake.Live.{Live, Inv}
use pomelo.Kernel.Wake.Woken.{Woken, wake-Woken}
use pomelo.Hle.Sync.{
  sync_wait, event_signal, mutex_release, timer_tick, arbiter_signal, drain, signal_count,
}
use pomelo.Hle.Sync.Waits.{Outcome, sync_wait-Outcome, put-Inv}
use pomelo.Hle.Sync.Signals.{Notified, event_signal-Notified}
use pomelo.Hle.Sync.Timers.{Schedule, Ticked, timer_tick-Ticked}
use pomelo.Hle.Sync.Releases.{Released, mutex_release-Released}
use pomelo.Hle.Sync.Arbiter.{Drained, arbiter_signal-Drained, drain_lem, waiting_at, elsewhere}
use pomelo.Hle.WaitSync.{wait_one, wait_many, Resting, wait_one-Resting}
use pomelo.Hle.WaitSync.Stale.{LeftStale, wait_many-LeftStale}

abbrev no_data : Buffer
no_data = record { len = 256; at = λ i. 0 }

abbrev pub waiter : CommonThread
waiter = record {
  index = 1;
  pid = 0;
  state = ThreadState.waiting;
  wait_objects = 0 ∷ [];
  wake_key = 5;
  wait_timeout = none;
  wait_type = some wait_sync_1;
  resume = Resume.normal;
  kobj = 9;
  ipc_data = no_data;
}

abbrev pub runner : CommonThread
runner = record {
  index = 2;
  pid = 0;
  state = running;
  wait_objects = [];
  wake_key = 3;
  wait_timeout = none;
  wait_type = none;
  resume = Resume.normal;
  kobj = 10;
  ipc_data = no_data;
}

abbrev pub waker : Waker
waker = record { thread = 1; key = 5 }

abbrev pub bare : World
bare = record { threads = waiter ∷ runner ∷ []; objects = λ p. none }

abbrev pub with_object : Object → World
with_object x = put_object bare 0 x

pub waker-Live : Live bare.threads 0 waker
unfolding find_thread
waker-Live = record {
  waiter = waiter;
  found = refl;
  waits = refl;
  current = refl;
  kind = tt;
  held = refl;
}

pub with_object-Inv :
    (x : Object) → All (Live bare.threads 0) (queue_of (some x)) → Inv (with_object x)
with_object-Inv x live = put-Inv bare 0 x (λ p. tt) live

abbrev pub clear_signal : Signal
clear_signal = record { reset_type = one_shot; signaled = false }

abbrev set_signal : Signal
set_signal = record { reset_type = one_shot; signaled = true }

abbrev pub queue : List Waker
queue = waker ∷ []

abbrev pub waited_event : Object
waited_event = Object.event clear_signal queue

event_signal-Notified_example :
    Returns
      (Notified
        (put_object (with_object waited_event) 0 (Object.event (signal clear_signal) queue))
        0
        Object.event
        (signal clear_signal)
        (is_sticky clear_signal)
        queue)
      (event_signal (with_object waited_event) 0 clear_signal queue)
event_signal-Notified_example =
    event_signal-Notified (with_object waited_event) 0 clear_signal queue
      (with_object-Inv waited_event (waker-Live, tt)) refl

sync_wait-Outcome_example :
    Returns
      (Outcome (with_object (Object.event set_signal [])) 0 (Object.event set_signal []) waker)
      (sync_wait (with_object (Object.event set_signal [])) 0 waker)
sync_wait-Outcome_example =
    sync_wait-Outcome (with_object (Object.event set_signal [])) 0 (Object.event set_signal [])
      waker refl refl (with_object-Inv (Object.event set_signal []) tt) waker-Live

wait_one-Resting_example :
    Returns
      (λ v.
        Inv v
        × ((j : ℕ)
            → j ≢ 2
            → find_thread j v.threads ≡ find_thread j (with_object waited_event).threads)
        × Resting (with_object waited_event) 2 0 none runner waited_event v)
      (wait_one (with_object waited_event) 2 0 none)
unfolding find_thread
wait_one-Resting_example =
    wait_one-Resting (with_object waited_event) 2 0 none runner waited_event
      (with_object-Inv waited_event (waker-Live, tt)) refl refl refl refl

abbrev addressed : List (Waker × ℕ)
addressed = (waker, 4096) ∷ []

arbiter_signal-Drained_example :
    Returns
      (λ ((v, woke) : World × Bool).
        Drained
          (with_object (Object.arbiter addressed))
          0
          (drain 4096 (signal_count (pos 1)) addressed).0
          (Object.arbiter (drain 4096 (signal_count (pos 1)) addressed).1)
          v
        × (woke ≡ ltb 0 (length (drain 4096 (signal_count (pos 1)) addressed).0)))
      (arbiter_signal (with_object (Object.arbiter addressed)) 0 addressed (pos 1) 4096)
arbiter_signal-Drained_example =
    arbiter_signal-Drained (with_object (Object.arbiter addressed)) 0 addressed (pos 1) 4096
      (with_object-Inv (Object.arbiter addressed) (waker-Live, tt)) (tt, tt) refl

mutex_release-Released_example :
    Returns
      (Released (with_object (Object.mutex true queue)) 0 queue)
      (mutex_release (with_object (Object.mutex true queue)) 0 queue)
mutex_release-Released_example =
    mutex_release-Released (with_object (Object.mutex true queue)) 0 queue
      (with_object-Inv (Object.mutex true queue) (waker-Live, tt)) refl

abbrev pulse_signal : Signal
pulse_signal = record { reset_type = pulse; signaled = false }

abbrev armed : Object
armed = Object.timer pulse_signal queue (pos 100) (pos 50)

timer_tick-Ticked_example :
    Returns
      (λ v.
        (r : Option (ℤ × ℤ)) × Schedule pulse (pos 100) (pos 50) 120 r
        × Ticked (with_object armed) 0 pulse_signal queue r v)
      (timer_tick (with_object armed) 0 pulse_signal queue (pos 100) (pos 50) 120)
timer_tick-Ticked_example =
    timer_tick-Ticked (with_object armed) 0 pulse_signal queue (pos 100) (pos 50) 120
      (with_object-Inv armed (waker-Live, tt)) refl (omega arith) (omega arith)

wake-Woken_example :
    Returns
      (λ ((v, done) : World × Bool).
        (done ≡ true) × Woken (with_object waited_event) 0 waker waker-Live.waiter v)
      (wake (with_object waited_event) waker 0)
wake-Woken_example =
    wake-Woken (with_object waited_event) (with_object-Inv waited_event (waker-Live, tt)) 0 waker
      waker-Live

drain_lem_example :
    ((drain 4096 1 addressed).0 ≡ take 1 (waiting_at 4096 addressed))
    × (waiting_at 4096 (drain 4096 1 addressed).1 ≡ drop 1 (waiting_at 4096 addressed))
    × (elsewhere 4096 (drain 4096 1 addressed).1 ≡ elsewhere 4096 addressed)
drain_lem_example = drain_lem 4096 1 addressed (omega arith)

-- A set event at 0 and a clear one at 1, nobody waiting for either.
abbrev two_events : World
two_events = put_object (with_object (Object.event set_signal [])) 1 (Object.event clear_signal [])

wait_many-LeftStale_example :
    Returns (LeftStale 1 clear_signal) (wait_many two_events 2 (0 ∷ 1 ∷ []) none)
unfolding find_thread
wait_many-LeftStale_example =
    wait_many-LeftStale two_events 2 0 1 none runner set_signal clear_signal []
      (put-Inv (with_object (Object.event set_signal [])) 1 (Object.event clear_signal [])
        (with_object-Inv (Object.event set_signal []) tt) tt)
      refl refl (omega arith) refl refl refl refl refl
