-- ===== src/System/Runs.antt =====
-- kernel/src and hle/src: runs of the kernel, as steps in any order, and the invariant of all of them.
-- No step is the wait for several objects, which breaks it (Hle/WaitSync/Stale), and with it
-- reply_and_receive and the loops of the services, which wait by it. A step changes threads and objects;
-- handle tables and the memory are no part of it.
pub mod Stepped
pub mod Asked
pub mod Fresh
pub mod Messages
pub mod Kept
use pomelo.Prelude.{
  ℕ, ◌≡◌, ◌≢◌, Bool, true, Option, none, some, List, [], ◌∷◌, ◌++◌, map, All, Run, ok, ◌>>=◌,
}
use pomelo.Prelude.Int.{ℤ}
use pomelo.Prelude.Buffer.{Buffer}
use pomelo.Kernel.Signal.{Signal}
use pomelo.Kernel.World.{
  CommonThread, ThreadState, WaitType, wait_sync_1, Resume, Waker, Object, Objects, World,
  put_object, find_thread, set_thread,
}
use pomelo.Kernel.Wake.{tick_threads}
use pomelo.Kernel.Wake.Removal.{queue_of}
use pomelo.Kernel.Wake.Live.{Inv}
use pomelo.Kernel.Wake.Tick.{Indexed}
use pomelo.Kernel.Suspend.{suspend_thread}
use pomelo.Kernel.Run.{begin_run, end_run, exit_thread}
use pomelo.Kernel.Context.{add_thread}
use pomelo.Hle.Sync.{is_sync, event_signal, mutex_release, timer_tick, arbiter_signal, arbiter_wait}
use pomelo.Hle.WaitSync.{wait_one}
use pomelo.Hle.Session.{sync_request, respond, enqueue_session}
use pomelo.System.Steady.{Fit, Tidy}

-- What holds between any two operations: no queue has a stale waker, waiting threads have a kind of
-- wait, no two threads have one index, no thread stands twice at an arbiter.
pub record Good (w : World) : Type 0 where
  pub inv : Inv w
  pub fit : All Fit w.threads
  pub indexed : Indexed w.threads
  pub tidy : (o : ℕ) → Tidy (w.objects o)

-- The thread `tid` runs.
abbrev pub Runs : World → ℕ → Type 0
Runs w tid =
    (t : CommonThread) × (find_thread tid w.threads ≡ some t) × (t.state ≡ ThreadState.running)

-- An operation that ends without a panic.
pub data Step (w : World) : World → Type 0 where
  -- `run_thread` before and behind the thread's own code.
  begin : {v : World} (tid : ℕ) (r : Resume) → begin_run w tid ≡ ok (v, r) → Step w v
  pause : {v : World} (tid : ℕ) → end_run w tid ≡ ok v → Step w v
  -- The two parts of `tick_at`.
  tick :
      {ts : List CommonThread} {s : Objects} (time : ℕ)
      → tick_threads time w.threads w.objects ≡ ok (ts, s)
      → Step w (record { threads = ts; objects = s })
  fire :
      {v : World} (o : ℕ) (s : Signal) (q : List Waker) (n i : ℤ) (time : ℕ)
      → w.objects o ≡ some (Object.timer s q n i)
      → timer_tick w o s q n i time ≡ ok v
      → Step w v
  -- Signals, by a call or an interrupt, and releases.
  signal :
      {v : World} (o : ℕ) (s : Signal) (q : List Waker)
      → w.objects o ≡ some (Object.event s q)
      → event_signal w o s q ≡ ok v
      → Step w v
  release :
      {v : World} (o : ℕ) (acquired : Bool) (q : List Waker)
      → w.objects o ≡ some (Object.mutex acquired q)
      → mutex_release w o q ≡ ok v
      → Step w v
  signal_arbiter :
      {v : World} (o : ℕ) (q : List (Waker × ℕ)) (amount : ℤ) (addr : ℕ) (woke : Bool)
      → w.objects o ≡ some (Object.arbiter q)
      → arbiter_signal w o q amount addr ≡ ok (v, woke)
      → Step w v
  -- Waits of the thread that runs.
  wait :
      {v : World} (tid o : ℕ) (timeout : Option ℕ) (x : Object)
      → Runs w tid
      → w.objects o ≡ some x
      → is_sync x ≡ true
      → wait_one w tid o timeout ≡ ok v
      → Step w v
  sleep :
      {v : World} (tid : ℕ) (timeout : Option ℕ) (k : Waker)
      → Runs w tid
      → suspend_thread w tid [] timeout WaitType.sleep ≡ ok (v, k)
      → Step w v
  arbitrate :
      {u : World} (tid o : ℕ) (q : List (Waker × ℕ)) (k : Waker) (addr : ℕ)
      → Runs w tid
      → w.objects o ≡ some (Object.arbiter q)
      → suspend_thread w tid (o ∷ []) none WaitType.arbiter ≡ ok (u, k)
      → Step w (arbiter_wait u o q k addr)
  -- Requests and sessions.
  request :
      {u v : World} (tid o : ℕ) (q : List Waker) (server : ℕ) (k : Waker) (there : Bool)
      → Runs w tid
      → w.objects o ≡ some (Object.client_session q server)
      → suspend_thread w tid (o ∷ []) none wait_sync_1 ≡ ok (u, k)
      → sync_request u o q server k ≡ ok (v, there)
      → Step w v
  answer : {v : World} (client : Option ℕ) → respond w client ≡ ok v → Step w v
  connect :
      {v : World} (o : ℕ) (q : List Waker) (sessions : List ℕ) (client : Option ℕ) (session : ℕ)
      → w.objects o ≡ some (Object.server_port q sessions client)
      → enqueue_session w o q sessions client session ≡ ok v
      → Step w v
  -- A write to the message of a thread, by the thread or by the translation of a message to it.
  message :
      (i : ℕ) (t : CommonThread) (message : Buffer)
      → find_thread i w.threads ≡ some t
      → Step w (record w { threads = set_thread i (record t { ipc_data = message }) w.threads })
  -- New objects and threads, writes to the other cells of an object, and the end of a thread.
  create : (o : ℕ) (x : Object) → queue_of (some x) ≡ [] → Step w (put_object w o x)
  update :
      (o : ℕ) (x y : Object)
      → w.objects o ≡ some x
      → is_sync y ≡ true
      → queue_of (some y) ≡ queue_of (some x)
      → Step w (put_object w o y)
  start :
      (pid tid place : ℕ) → find_thread tid w.threads ≡ none → Step w (add_thread w pid tid place)
  exit : {v : World} (tid : ℕ) → Runs w tid → exit_thread w tid ≡ ok v → Step w v

pub data Reach (w : World) : World → Type 0 where
  here : Reach w w
  next : {u v : World} → Reach w u → Step u v → Reach w v
