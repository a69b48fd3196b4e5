-- ===== src/Guest/Calls/Waits.antt =====
-- guest/src/lib.rs: CloseHandle, WaitSynchronization1, WaitSynchronizationN.
use pomelo.Prelude.{
  ℕ, ◌*◌, ◌-◌, ◌^◌, Option, none, some, List, Run, ok, ◌>>=◌, expect, if◌then◌else◌,
}
use pomelo.Ipc.Param.{from_raw}
use pomelo.Kernel.Signal.{absolute}
use pomelo.Kernel.World.{Object}
use pomelo.Kernel.Handles
use pomelo.Kernel.Handles.{get}
use pomelo.Kernel.Translate.{put_table}
use pomelo.Hle.Sync.{is_sync}
use pomelo.Hle.WaitSync.{wait_one, wait_many}
use pomelo.Hle.Svc.{found_at, objects_at}
use pomelo.Guest.Machine.{
  Platform, Guest, SvcResult, set_reg, in_state, in_kernel_world, go_on, give_up_time, peek,
  make_timeout, handles_of,
}
use pomelo.Guest.Calls.Objects.{mismatched}

module _ {S M : Type 0} where
  -- CloseHandle: the register keeps the handle if it is not open.
  unfoldable pub close_at : Guest S M → Option ℕ → Run (Guest S M × SvcResult)
  close_at g none = go_on g
  close_at g (some h) = do
    t ← expect (get g.kernel.state.tables g.kernel.pid)
    let (closed, t') = Handles.close_handle t h
    let k = record g.kernel.state { tables = put_table g.kernel.state.tables g.kernel.pid t' }
    go_on (if closed then set_reg (in_state g k) 0 0 else in_state g k)

  unfoldable pub close_handle_call : Guest S M → Run (Guest S M × SvcResult)
  unfolding close_at
  close_handle_call g = close_at g (from_raw (g.regs.r 0))

  -- WaitSynchronization1 behind the lookup.
  unfoldable pub wait_at :
      Guest S M → (timeout : Option ℕ) → Option (ℕ × Object) → Run (Guest S M × SvcResult)
  wait_at g timeout none = mismatched g
  wait_at g timeout (some (o, x)) =
      if is_sync x
      then (do
        w ← wait_one g.kernel.state.world g.kernel.tid o timeout
        give_up_time (set_reg (in_kernel_world g w) 0 0))
      else mismatched g

  unfoldable pub wait_1_call : Platform S M → Guest S M → Run (Guest S M × SvcResult)
  unfolding wait_at
  wait_1_call p g = do
    _ ← peek p g (g.regs.r 13) 32
    found ← found_at g.kernel.state g.kernel.pid (from_raw (g.regs.r 0))
    wait_at g (absolute (make_timeout (g.regs.r 2) (g.regs.r 3)) g.kernel.time) found

  -- The handles of a call, in the guest's memory.
  unfoldable pub read_handles_at :
      Platform S M → Guest S M → (addr count : ℕ) → Run (List (Option ℕ))
  read_handles_at p g addr count = do
    bytes ← p.map.read g.memory addr (count * 4)
    ok (handles_of p.bo bytes)

  -- WaitSynchronizationN: whether all are waited for is not looked at.
  unfoldable pub wait_n_call : Platform S M → Guest S M → Run (Guest S M × SvcResult)
  unfolding read_handles_at
  wait_n_call p g = do
    hs ← read_handles_at p g (g.regs.r 1) (g.regs.r 2)
    os ← objects_at g.kernel.state g.kernel.pid hs
    w ←
        wait_many g.kernel.state.world g.kernel.tid os
          (absolute (make_timeout (g.regs.r 4) (g.regs.r 0)) g.kernel.time)
    _ ← peek p g 0x1FF8_1060 8
    give_up_time (set_reg (set_reg (in_kernel_world g w) 0 0) 1 (2 ^ 32 - 1))
