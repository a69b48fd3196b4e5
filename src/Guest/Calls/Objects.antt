-- ===== src/Guest/Calls/Objects.antt =====
-- guest/src/lib.rs: CreateMutex, ReleaseMutex, CreateEvent, SignalEvent, ClearEvent, CreateTimer,
-- SetTimer, CancelTimer, CreateAddressArbiter.
use pomelo.Prelude.{ℕ, not, Option, some, Run, ◌>>=◌, ◌==◌}
use pomelo.Prelude.Int.{ℤ, negsuc}
use pomelo.Ipc.Param.{from_raw}
use pomelo.Kernel.Signal.{reset_type_from_raw}
use pomelo.Kernel.World.{Object, put_object}
use pomelo.Kernel.Translate.{KernelState}
use pomelo.Hle.Sync.{event_signal, event_clear, to_i64}
use pomelo.Hle.Svc.{
  KResult, handle_type_mismatch, found_at, release_mutex, create_mutex, create_event, create_timer,
  create_address_arbiter,
}
use pomelo.Guest.Machine.{
  Platform, Guest, SvcResult, set_reg, in_state, in_kernel_world, go_on, give_up_time, peek,
  code_of, handle_of, wide,
}

module _ {S M : Type 0} where
  -- The result of a call that makes an object, in the first two registers.
  abbrev pub with_handle : Guest S M → KResult ℕ × KernelState S → Run (Guest S M × SvcResult)
  with_handle g (res, k) =
      go_on (set_reg (set_reg (in_state g k) 0 (code_of res)) 1 (handle_of res))

  unfoldable pub create_mutex_call :
      Platform S M → (place : ℕ) → Guest S M → Run (Guest S M × SvcResult)
  create_mutex_call p place g = do
    r ← create_mutex p.rng p.fuel g.kernel.state g.kernel.pid place (not (g.regs.r 1 == 0))
    with_handle g r

  unfoldable pub release_mutex_call : Guest S M → Run (Guest S M × SvcResult)
  release_mutex_call g = do
    (res, k) ← release_mutex g.kernel.state g.kernel.pid (from_raw (g.regs.r 0))
    go_on (set_reg (in_state g k) 0 (code_of res))

  unfoldable pub create_event_call :
      Platform S M → (place : ℕ) → Guest S M → Run (Guest S M × SvcResult)
  create_event_call p place g = do
    reset_type ← reset_type_from_raw (g.regs.r 1)
    r ← create_event p.rng p.fuel g.kernel.state g.kernel.pid place reset_type
    with_handle g r

  abbrev pub mismatched : Guest S M → Run (Guest S M × SvcResult)
  mismatched g = go_on (set_reg g 0 handle_type_mismatch)

  -- SignalEvent behind the lookup: the caller gives up its time.
  unfoldable pub signal_at : Guest S M → Option (ℕ × Object) → Run (Guest S M × SvcResult)
  signal_at g (some (o, Object.event s q)) = do
    w ← event_signal g.kernel.state.world o s q
    give_up_time (set_reg (in_kernel_world g w) 0 0)
  signal_at g _ = mismatched g

  unfoldable pub signal_event_call : Guest S M → Run (Guest S M × SvcResult)
  unfolding signal_at
  signal_event_call g = do
    found ← found_at g.kernel.state g.kernel.pid (from_raw (g.regs.r 0))
    signal_at g found

  -- ClearEvent behind the lookup.
  unfoldable pub clear_at : Guest S M → Option (ℕ × Object) → Run (Guest S M × SvcResult)
  clear_at g (some (o, Object.event s q)) =
      go_on (set_reg (in_kernel_world g (event_clear g.kernel.state.world o s q)) 0 0)
  clear_at g _ = mismatched g

  unfoldable pub clear_event_call : Platform S M → Guest S M → Run (Guest S M × SvcResult)
  unfolding clear_at
  clear_event_call p g = do
    _ ← peek p g (g.regs.r 13) 12
    found ← found_at g.kernel.state g.kernel.pid (from_raw (g.regs.r 0))
    clear_at g found

  -- CreateTimer gives 0 for the result whatever it is.
  unfoldable pub create_timer_call :
      Platform S M → (place : ℕ) → Guest S M → Run (Guest S M × SvcResult)
  create_timer_call p place g = do
    reset_type ← reset_type_from_raw (g.regs.r 1)
    (res, k) ← create_timer p.rng p.fuel g.kernel.state g.kernel.pid place reset_type
    go_on (set_reg (set_reg (in_state g k) 0 0) 1 (handle_of res))

  -- SetTimer behind the lookup.
  unfoldable pub set_at :
      Guest S M → (initial interval : ℤ) → Option (ℕ × Object) → Run (Guest S M × SvcResult)
  set_at g initial interval (some (o, Object.timer s q n i)) = go_on (
      set_reg
        (in_kernel_world g (put_object g.kernel.state.world o (Object.timer s q initial interval)))
        0 0)
  set_at g initial interval _ = mismatched g

  unfoldable pub set_timer_call : Guest S M → Run (Guest S M × SvcResult)
  unfolding set_at
  set_timer_call g = do
    found ← found_at g.kernel.state g.kernel.pid (from_raw (g.regs.r 0))
    set_at g (to_i64 (wide (g.regs.r 2) (g.regs.r 3))) (to_i64 (wide (g.regs.r 1) (g.regs.r 4)))
        found

  -- CancelTimer behind the lookup: `TimerImpl::cancel` disarms the timer.
  unfoldable pub cancel_at : Guest S M → Option (ℕ × Object) → Run (Guest S M × SvcResult)
  cancel_at g (some (o, Object.timer s q n i)) = go_on (
      set_reg
        (in_kernel_world g
          (put_object g.kernel.state.world o (Object.timer s q (negsuc 0) (negsuc 0))))
        0 0)
  cancel_at g _ = mismatched g

  unfoldable pub cancel_timer_call : Platform S M → Guest S M → Run (Guest S M × SvcResult)
  unfolding cancel_at
  cancel_timer_call p g = do
    _ ← peek p g (g.regs.r 13) 12
    found ← found_at g.kernel.state g.kernel.pid (from_raw (g.regs.r 0))
    cancel_at g found

  unfoldable pub create_address_arbiter_call :
      Platform S M → (place : ℕ) → Guest S M → Run (Guest S M × SvcResult)
  create_address_arbiter_call p place g = do
    r ← create_address_arbiter p.rng p.fuel g.kernel.state g.kernel.pid place
    with_handle g r
