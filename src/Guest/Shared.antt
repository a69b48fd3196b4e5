-- ===== src/Guest/Shared.antt =====
-- guest/src/lib.rs writes some system calls out that hle/src/svc.rs has for host threads: they are the
-- same.
use pomelo.Prelude.{ℕ, ◌%◌, ◌^◌, ◌<◌, ◌≡◌, refl, Bool-cases, inl, inr, Run, ok, ◌>>=◌, arith, ltb}
use pomelo.Ipc.Param.{from_raw}
use pomelo.Kernel.Translate.{KernelState}
use pomelo.Hle.Sync.{to_i64}
use pomelo.Hle.Svc
use pomelo.Hle.Svc.{KResult, done, failed, signal_event, set_timer, found_at}
use pomelo.Guest.Machine.{Platform, Guest, SvcResult, set_reg, in_state, peek, wide, make_timeout}
use pomelo.Guest.Calls.Objects.{signal_event_call, set_timer_call}
use pomelo.Guest.Calls.Waits.{wait_1_call}

-- A timeout by its two halves is the host's timeout by the signed number with these halves.
pub make_timeout_lem :
    (low high : ℕ)
    → low < 2 ^ 32
    → high < 2 ^ 32
    → make_timeout low high ≡ Svc.make_timeout (to_i64 (wide low high))
unfolding make_timeout Svc.make_timeout
make_timeout_lem low high l h =
    let small : wide low high % 2 ^ 64 ≡ wide low high = omega arith in
    elim (Bool-cases (ltb (wide low high) (2 ^ 63))) [
      | inl t ↦ rw (small, t) refl
      | inr f ↦ rw (small, f) refl
    ]

module _ {S M : Type 0} where
  -- The result of the host's call in the first register; `b` says what is next for the caller if the
  -- call has not failed.
  unfoldable pub answered :
      {A : Type 0} → Guest S M → SvcResult → KResult A × KernelState S → Run (Guest S M × SvcResult)
  answered g b (done _, k) = ok (set_reg (in_state g k) 0 0, b)
  answered g b (failed e, k) = ok (set_reg (in_state g k) 0 e, SvcResult.continue)

  -- The three calls of a guest that hle/src/svc.rs has too.
  pub record Shared (p : Platform S M) (g : Guest S M) : Type 0 where
    pub signal : signal_event_call g ≡ (
        signal_event g.kernel.state g.kernel.pid (from_raw (g.regs.r 0))
        >>= answered g SvcResult.reschedule)
    pub set : set_timer_call g ≡ (
        set_timer g.kernel.state g.kernel.pid
          (from_raw (g.regs.r 0))
          (to_i64 (wide (g.regs.r 2) (g.regs.r 3)))
          (to_i64 (wide (g.regs.r 1) (g.regs.r 4)))
        >>= answered g SvcResult.continue)
    pub wait : wait_1_call p g ≡ (
        peek p g (g.regs.r 13) 32 >>= λ _.
        Svc.wait_sync_1_call g.kernel.state g.kernel.pid g.kernel.tid
          (from_raw (g.regs.r 0))
          (to_i64 (wide (g.regs.r 2) (g.regs.r 3)))
          g.kernel.time
        >>= answered g SvcResult.reschedule)
