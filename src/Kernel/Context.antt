-- ===== src/Kernel/Context.antt =====
-- kernel/src/lib.rs: the fields of `KernelImpl` beside threads, objects and handle tables, and the creation
-- of processes and threads.
use pomelo.Prelude.{
  ℕ, ◌+◌, ◌%◌, ◌^◌, false, Option, none, some, [], ◌∷◌, ◌++◌, Run, ok, ◌>>=◌, expect,
}
use pomelo.Prelude.Buffer.{Buffer}
use pomelo.Kernel.World.{
  ThreadState, CommonThread, Resume, Object, World, put_object, find_thread, set_thread,
}
use pomelo.Kernel.Handles.{Generator, get, new_handle}
use pomelo.Kernel.Translate.{KernelState, put_table}
use pomelo.Kernel.Ports.{PortTable}
use pomelo.Kernel.Run.{Interrupts, exit_thread}

-- `pid` and `tid` are those of `exec_info.current` while a thread runs; `time` is what the clock gives.
pub record Context (S : Type 0) : Type 0 where
  pub state : KernelState S
  pub pid : ℕ
  pub tid : ℕ
  pub next : Option ℕ
  pub next_pid : ℕ
  pub next_tid : ℕ
  pub time : ℕ
  pub ports : PortTable
  pub interrupts : Interrupts

-- `CommonThread::new`.
unfoldable pub new_common_thread : (pid tid kobj : ℕ) → CommonThread
new_common_thread pid tid kobj = record {
  index = tid;
  pid = pid;
  state = ThreadState.ready;
  wait_objects = [];
  wake_key = 0;
  wait_timeout = none;
  wait_type = none;
  resume = Resume.normal;
  kobj = kobj;
  ipc_data = record { len = 256; at = λ i. 0 };
}

-- The thread behind those that there are, and its object at `place`, where `make_hle_thread_object` puts
-- it.
unfoldable pub add_thread : World → (pid tid place : ℕ) → World
unfolding new_common_thread
add_thread w pid tid place = record {
  threads = w.threads ++ new_common_thread pid tid place ∷ [];
  objects = (put_object w place (Object.thread tid false [])).objects;
}

module _ {S : Type 0} where
  -- `schedule_next`.
  abbrev pub schedule_next : Context S → ℕ → Context S
  schedule_next k thread = record k { next = some thread }

  -- `new_process_boxed`; the table's generator starts in the state `seed`.
  unfoldable pub new_process : Context S → S → ℕ × Context S
  new_process k seed = (
    k.next_pid,
    record k {
      state = record k.state {
        tables = k.state.tables ++ (k.next_pid, record { objects = []; xorshift = seed }) ∷ [];
      };
      next_pid = (k.next_pid + 1) % 2 ^ 32;
    },
  )

  -- `new_thread_boxed` but for the box: the thread's index.
  unfoldable pub new_thread_boxed : Context S → (pid place : ℕ) → ℕ × Context S
  unfolding add_thread
  new_thread_boxed k pid place = (
    k.next_tid,
    record k {
      state = record k.state { world = add_thread k.state.world pid k.next_tid place };
      next_tid = (k.next_tid + 1) % 2 ^ 32;
    },
  )

  -- `create_thread` behind `init_thread`: the index, and a handle of the thread's object.
  unfoldable pub create_thread : Generator S → ℕ → Context S → (place : ℕ) → Run (ℕ × ℕ × Context S)
  unfolding new_thread_boxed
  create_thread rng fuel k place =
      let (tid, k') = new_thread_boxed k k.pid place in
      do
        t ← expect (get k'.state.tables k'.pid)
        (h, t') ← new_handle rng fuel t place
        ok (
          tid,
          h,
          record k' { state = record k'.state { tables = put_table k'.state.tables k'.pid t' } },
        )

  -- `exit_thread`.
  unfoldable pub exit_current : Context S → Run (Context S)
  exit_current k = do
    w ← exit_thread k.state.world k.tid
    ok (record k { state = record k.state { world = w } })

  -- `set_thread_ipc_data`.
  unfoldable pub set_thread_ipc_data : Context S → Buffer → Run (Context S)
  set_thread_ipc_data k message = do
    t ← expect (find_thread k.tid k.state.world.threads)
    let ts = set_thread k.tid (record t { ipc_data = message }) k.state.world.threads
    ok (record k { state = record k.state { world = record k.state.world { threads = ts } } })

  -- `get_thread_ipc_data`.
  unfoldable pub get_thread_ipc_data : Context S → Run Buffer
  get_thread_ipc_data k = do t ← expect (find_thread k.tid k.state.world.threads); ok t.ipc_data
