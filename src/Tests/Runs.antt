-- ===== src/Tests/Runs.antt =====
-- A run of three steps: a thread starts its turn, waits for an event and is woken by its signal.
use pomelo.Prelude.{refl, none, [], ◌∷◌, Run, ok, panic, Run}
use pomelo.Kernel.World.{ThreadState, Resume, Object, World, find_thread, set_thread, put_object}
use pomelo.Kernel.Context.{new_common_thread, add_thread}
use pomelo.Kernel.Run.{begin_run}
use pomelo.Kernel.Suspend.{suspend_thread, thread_wait}
use pomelo.Kernel.Wake.{wake, wake_up, wake_expect, resume_after}
use pomelo.Hle.Notify.{notify}
use pomelo.Hle.Sync.{sync_wait, sync_wait_object, wait_signal, event_signal}
use pomelo.Hle.WaitSync.{wait_one}
use pomelo.System.Runs.{Good, Step, Reach}
use pomelo.System.Runs.Kept.{Reach-Good}
use pomelo.Prelude.{◌≡◌, refl, some, Returns}
use pomelo.System.Progress.{HasTurn, event_signal-HasTurn}
use pomelo.Tests.Threads.{clear_signal}

abbrev empty : World
empty = record { threads = []; objects = λ p. none }

abbrev with_event : World
with_event = put_object empty 5 (Object.event clear_signal [])

abbrev with_thread : World
with_thread = add_thread with_event 0 1 9

abbrev world_of : World → Run World → World
world_of w (ok v) = v
world_of w panic = w

abbrev first_of : World → Run (World × Resume) → World × Resume
first_of w (ok v) = v
first_of w panic = (w, Resume.normal)

abbrev started : World
started = (first_of with_thread (begin_run with_thread 1)).0

abbrev waits : World
waits = world_of started (wait_one started 1 5 none)

abbrev signaled : World
signaled = world_of waits (event_signal waits 5 clear_signal (record { thread = 1; key = 0 } ∷ []))

empty-Good : Good empty
empty-Good = record { inv = λ o. tt; fit = tt; indexed = tt; tidy = λ o. tt }

empty-waits : Reach empty waits
unfolding find_thread add_thread new_common_thread begin_run wait_one suspend_thread thread_wait
    sync_wait sync_wait_object wait_signal event_signal notify wake_expect wake wake_up set_thread
    resume_after
empty-waits =
    Reach.next
      (Reach.next
        (Reach.next (Reach.next Reach.here (Step.create 5 (Object.event clear_signal []) refl))
          (Step.start 0 1 9 refl))
        (Step.begin 1 (first_of with_thread (begin_run with_thread 1)).1 refl))
      (Step.wait 1 5 none (Object.event clear_signal [])
        (record (new_common_thread 0 1 9) { state = ThreadState.running }, refl, refl) refl refl
        refl)

waits-signaled : Step waits signaled
unfolding find_thread add_thread new_common_thread begin_run wait_one suspend_thread thread_wait
    sync_wait sync_wait_object wait_signal event_signal notify wake_expect wake wake_up set_thread
    resume_after
waits-signaled = Step.signal 5 clear_signal (record { thread = 1; key = 0 } ∷ []) refl refl

Reach-Good_example : Good signaled
Reach-Good_example = Reach-Good empty-Good (Reach.next empty-waits waits-signaled)

waits-Good : Good waits
waits-Good = Reach-Good empty-Good empty-waits

waits_event :
    waits.objects 5 ≡ some (Object.event clear_signal (record { thread = 1; key = 0 } ∷ []))
unfolding find_thread add_thread new_common_thread begin_run wait_one suspend_thread thread_wait
    sync_wait sync_wait_object wait_signal event_signal notify wake_expect wake wake_up set_thread
    resume_after
waits_event = refl

event_signal-HasTurn_example :
    Returns HasTurn (event_signal waits 5 clear_signal (record { thread = 1; key = 0 } ∷ []))
event_signal-HasTurn_example =
    event_signal-HasTurn waits 5 clear_signal (record { thread = 1; key = 0 }) [] waits-Good
      waits_event
