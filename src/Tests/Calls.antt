-- ===== src/Tests/Calls.antt =====
-- System calls of hle/src/svc.rs and a session of hle/src/session.rs, in the worlds of Tests/Threads.
use pomelo.Prelude.{arith, ℕ, refl, none, some, [], ◌∷◌, Returns}
use pomelo.Prelude.Int.{pos}
use pomelo.Kernel.World.{Object, World, CommonThread, find_thread}
use pomelo.Kernel.Wake.{tick_threads}
use pomelo.Kernel.Wake.Live.{Inv}
use pomelo.Kernel.Wake.Tick.{Ticked, tick_threads-Ticked}
use pomelo.Hle.Sync.Waits.{put-Inv}
use pomelo.Kernel.Handles.{ObjectTable, get}
use pomelo.Kernel.Translate.{KernelState}
use pomelo.Hle.Session.{enqueue_sync_request, enqueue_session, respond}
use pomelo.Hle.Session.Request.{
  Served, enqueue_sync_request-Served, enqueue_session-Served, respond-Served,
}
use pomelo.Hle.Svc.{signal_event, wait_sync_1_call}
use pomelo.Hle.Svc.Branches.{
  named, Signalled, signal_event-Signalled, WaitResult, wait_sync_1_call-WaitResult,
}
use pomelo.Kernel.Signal.{absolute}
use pomelo.Hle.Svc.{make_timeout}
use pomelo.Tests.Threads.{
  with_object, with_object-Inv, waker-Live, waited_event, queue, runner, waiter, bare,
}

abbrev session : Object
session = Object.server_session queue (4 ∷ []) none

enqueue_sync_request-Served_example :
    Returns
      (Served
        (with_object session).threads
        0
        queue
        (λ p. Object.server_session p (4 ∷ 6 ∷ []) none))
      (enqueue_sync_request (with_object session) 0 queue (4 ∷ []) none 6)
enqueue_sync_request-Served_example =
    enqueue_sync_request-Served (with_object session) 0 queue (4 ∷ []) none 6
      (with_object-Inv session (waker-Live, tt)) refl

abbrev port : Object
port = Object.server_port queue [] none

enqueue_session-Served_example :
    Returns
      (Served (with_object port).threads 0 queue (λ p. Object.server_port p (3 ∷ []) none))
      (enqueue_session (with_object port) 0 queue [] none 3)
enqueue_session-Served_example =
    enqueue_session-Served (with_object port) 0 queue [] none 3
      (with_object-Inv port (waker-Live, tt)) refl

abbrev client_end : Object
client_end = Object.client_session queue 1

respond-Served_example :
    Returns
      (Served (with_object client_end).threads 0 queue (λ p. Object.client_session p 1))
      (respond (with_object client_end) (some 0))
respond-Served_example =
    respond-Served (with_object client_end) 0 queue 1 (with_object-Inv client_end (waker-Live, tt))
      refl

abbrev pub table : ObjectTable ℕ ℕ
table = record { objects = (5, 0) ∷ []; xorshift = 0 }

abbrev pub kernel : KernelState ℕ
kernel = record { world = with_object waited_event; tables = (0, table) ∷ [] }

signal_event-Signalled_example :
    Returns (Signalled kernel (named kernel table (some 5))) (signal_event kernel 0 (some 5))
unfolding get
signal_event-Signalled_example =
    signal_event-Signalled kernel 0 table (some 5) (with_object-Inv waited_event (waker-Live, tt))
      refl

wait_sync_1_call-WaitResult_example :
    Returns
      (WaitResult kernel 2
        (absolute (make_timeout (pos 50)) 1000)
        runner
        (named kernel table (some 5)))
      (wait_sync_1_call kernel 0 2 (some 5) (pos 50) 1000)
unfolding get find_thread
wait_sync_1_call-WaitResult_example =
    wait_sync_1_call-WaitResult kernel 0 2 table runner (some 5) (pos 50) 1000
      (with_object-Inv waited_event (waker-Live, tt)) refl refl refl

-- A thread whose wait for the event at 0 runs out at 40, and one that runs.
abbrev waiting_until : CommonThread
waiting_until = record waiter { wait_timeout = some 40 }

abbrev timed : World
timed = record (with_object waited_event) { threads = waiting_until ∷ runner ∷ [] }

timed-Inv : Inv timed
unfolding find_thread
timed-Inv =
    put-Inv (record bare { threads = waiting_until ∷ runner ∷ [] }) 0 waited_event (λ p. tt)
      (
        record {
          waiter = waiting_until;
          found = refl;
          waits = refl;
          current = refl;
          kind = tt;
          held = refl;
        },
        tt,
      )

tick_threads-Ticked_example :
    Returns
      (λ r. Ticked 50 timed.threads r.0 × Inv (record { threads = r.0; objects = r.1 }))
      (tick_threads 50 timed.threads timed.objects)
tick_threads-Ticked_example =
    tick_threads-Ticked 50 timed.threads timed.objects ((omega arith, tt), (tt, tt))
      ((λ e. refl), ((λ e. ground arith), tt)) timed-Inv
