-- ===== src/Guest/Calls/Threads.antt =====
-- guest/src/lib.rs: `new_thread`, and the system calls CreateThread, ExitThread, SleepThread.
use pomelo.Prelude.{ℕ, ◌%◌, [], ◌∷◌, Run, ok, ◌>>=◌, ◌==◌, if◌then◌else◌}
use pomelo.Kernel.Signal.{absolute}
use pomelo.Kernel.World.{WaitType}
use pomelo.Kernel.Suspend.{suspend_thread}
use pomelo.Kernel.Context.{create_thread, exit_current, schedule_next}
use pomelo.Guest.{ProcessTls, allocate_tls}
use pomelo.Guest.Machine.{
  Regs, zero_regs, sr, MemoryMap, ThreadContext, Platform, Guest, SvcResult, set_reg,
  in_kernel_world, give_up_time, make_timeout,
}

-- `map` of one page of storage.
abbrev pub tls_page : {M : Type 0} → MemoryMap M → M → ℕ → M
tls_page map m addr = map.map m addr 0x1000

-- The registers of a new thread: `set_sp`, `set_pc`, `set_arg`, `set_cpsr`; the low bit of the entry
-- point asks for Thumb code.
unfoldable pub entry_regs : (entrypoint stack_top arg : ℕ) → Regs
unfolding zero_regs
entry_regs entrypoint stack_top arg =
    let regs = sr (sr (sr zero_regs 13 stack_top) 15 entrypoint) 0 arg in
    record regs { cpsr = if entrypoint % 2 == 0 then 0x10 else 0x30 }

-- `ProcessContext::new_thread`, which is `init_thread`.
unfoldable pub new_thread :
    {M : Type 0}
    → MemoryMap M
    → M
    → ProcessTls
    → (entrypoint stack_top arg : ℕ) → Run (ThreadContext × M × ProcessTls)
unfolding entry_regs
new_thread map m process entrypoint stack_top arg = do
  (tls, m', process') ← allocate_tls (tls_page map) m process
  ok (record { tls = tls; ctx = entry_regs entrypoint stack_top arg }, m', process')

module _ {S M : Type 0} where
  -- CreateThread: the new thread runs next. `place` is that of its object.
  unfoldable pub create_thread_call :
      Platform S M → (place : ℕ) → Guest S M → Run (Guest S M × SvcResult)
  unfolding new_thread
  create_thread_call p place g = do
    (box, m, process) ← new_thread p.map g.memory g.process (g.regs.r 1) (g.regs.r 3) (g.regs.r 2)
    (tid, h, k) ← create_thread p.rng p.fuel g.kernel place
    give_up_time (
        set_reg
          (set_reg
            (record g {
              kernel = schedule_next k tid;
              memory = m;
              process = process;
              boxes = (tid, box) ∷ g.boxes;
            })
            0 0)
          1 h)

  -- ExitThread.
  unfoldable pub exit_thread_call : Guest S M → Run (Guest S M × SvcResult)
  exit_thread_call g = do k ← exit_current g.kernel; give_up_time (record g { kernel = k })

  -- SleepThread.
  unfoldable pub sleep_thread_call : Guest S M → Run (Guest S M × SvcResult)
  sleep_thread_call g = do
    (w, _) ←
        suspend_thread g.kernel.state.world g.kernel.tid []
          (absolute (make_timeout (g.regs.r 0) (g.regs.r 1)) g.kernel.time) WaitType.sleep
    give_up_time (in_kernel_world g w)
