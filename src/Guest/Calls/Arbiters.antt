-- ===== src/Guest/Calls/Arbiters.antt =====
-- guest/src/lib.rs: ArbitrateAddress.
use pomelo.Prelude.{ℕ, ◌+◌, ◌-◌, ◌%◌, ◌^◌, Option, none, some, List, [], ◌∷◌, Run, ok, panic, ◌>>=◌}
use pomelo.Prelude.Int.{ℤ}
use pomelo.Ipc.Param.{from_raw}
use pomelo.Kernel.World.{Waker, WaitType, Object}
use pomelo.Kernel.Suspend.{suspend_thread}
use pomelo.Kernel.Arbitration.{
  ArbitrationType, ArbitrationAction, decrement, ArbitrationFail, wait, wait_timeout,
  arbitration_type_from_raw, arbitrate,
}
use pomelo.Hle.Sync.{arbiter_signal, arbiter_wait}
use pomelo.Hle.Svc.{found_at}
use pomelo.Guest.Machine.{
  Platform, Guest, SvcResult, set_reg, in_kernel_world, go_on, give_up_time, to_i32,
}
use pomelo.Guest.Calls.Objects.{mismatched}

module _ {S M : Type 0} where
  -- The action on the word at the address or on the threads that wait there.
  unfoldable pub act :
      Platform S M
      → Guest S M
      → (o : ℕ) → List (Waker × ℕ)
      → (addr word : ℕ) → ℤ
      → Option ArbitrationAction
      → Run (Guest S M)
  act p g o q addr word value none = ok g
  act p g o q addr word value (some decrement) = do
    m ← p.map.write g.memory addr (p.bo.write_u32 ((word + 2 ^ 32 - 1) % 2 ^ 32))
    ok (record g { memory = m })
  act p g o q addr word value (some ArbitrationAction.signal) = do
    (w, _) ← arbiter_signal g.kernel.state.world o q value addr
    ok (in_kernel_world g w)

  -- The caller waits at the address, or goes on; a wait with a timeout is not implemented.
  unfoldable pub conclude :
      Guest S M
      → (o : ℕ) → List (Waker × ℕ)
      → (addr : ℕ) → Option ArbitrationFail
      → Run (Guest S M × SvcResult)
  conclude g o q addr none = go_on (set_reg g 0 0)
  conclude g o q addr (some wait) = do
    (w, k) ← suspend_thread g.kernel.state.world g.kernel.tid (o ∷ []) none WaitType.arbiter
    give_up_time (set_reg (in_kernel_world g (arbiter_wait w o q k addr)) 0 0)
  conclude g o q addr (some wait_timeout) = panic

  -- Behind the lookup.
  unfoldable pub arbitrate_at :
      Platform S M
      → Guest S M
      → ArbitrationType
      → (addr : ℕ) → ℤ
      → Option (ℕ × Object)
      → Run (Guest S M × SvcResult)
  unfolding act conclude
  arbitrate_at p g kind addr value (some (o, Object.arbiter q)) = do
    bytes ← p.map.read g.memory addr 4
    let word = p.bo.read_u32 bytes
    let (action, fail) = arbitrate kind (to_i32 word) value
    g' ← act p g o q addr word value action
    conclude g' o q addr fail
  arbitrate_at p g kind addr value _ = mismatched g

  unfoldable pub arbitrate_address_call : Platform S M → Guest S M → Run (Guest S M × SvcResult)
  unfolding arbitrate_at
  arbitrate_address_call p g = do
    kind ← arbitration_type_from_raw (g.regs.r 2)
    found ← found_at g.kernel.state g.kernel.pid (from_raw (g.regs.r 0))
    arbitrate_at p g kind (g.regs.r 1) (to_i32 (g.regs.r 3)) found
