-- ===== src/Guest/Frame.antt =====
-- guest/src/lib.rs: what no system call changes, and rules for calls that keep it.
pub mod Branches
pub mod Calls
use pomelo.Prelude.{OnReturn, panics, returned, OnReturn-bind, after, either}
use pomelo.Prelude.{
  ℕ, suc, zero, ◌≡◌, ◌≤◌, ◌<◌, refl, ap, Option, none, some, List, [], ◌∷◌, Bool, Bool-cases, inl,
  inr, true, false, Run, ok, panic, ◌>>=◌, arith, ==_of_ne, if◌then◌else◌,
}
use pomelo.Prelude.Int.{ℤ}
use pomelo.Kernel.World.{Waker, Object}
use pomelo.Kernel.Handles
use pomelo.Kernel.Translate.{KernelState}
use pomelo.Kernel.Arbitration.{
  ArbitrationType, ArbitrationAction, decrement, ArbitrationFail, wait, wait_timeout,
}
use pomelo.Hle.Svc.{KResult, done, failed}
use pomelo.Hle.Sync.{is_sync}
use pomelo.Guest.Machine.{Regs, Platform, Guest, SvcResult, set_reg, go_on}
use pomelo.Guest.Calls.Threads.{create_thread_call, exit_thread_call, sleep_thread_call}
use pomelo.Guest.Calls.Objects.{
  create_mutex_call, release_mutex_call, create_event_call, signal_event_call, clear_event_call,
  create_timer_call, set_timer_call, cancel_timer_call, create_address_arbiter_call, signal_at,
  clear_at, set_at, cancel_at,
}
use pomelo.Guest.Calls.Waits.{close_handle_call, wait_1_call, wait_n_call, close_at, wait_at}
use pomelo.Guest.Calls.Arbiters.{arbitrate_address_call, arbitrate_at, act, conclude}
use pomelo.Guest.Calls.Sessions.{
  connect_to_port_call, send_sync_request_call, accept_session_call, reply_and_receive_call,
  give_message, connected, requested, accepted, replied,
}
use pomelo.Guest.Calls.Queries.{
  control_memory_call, query_memory_call, create_memory_block_call, map_memory_block_call,
  duplicate_handle_call, get_system_tick_call, get_process_info_call, get_resource_limit_call,
  get_limit_values_call, bind_interrupt_call, unbind_interrupt_call, bind_at, describe,
}
use pomelo.Guest.Dispatch.{Call, perform, handle_svc}

-- The registers that hold no result, the status word and the address of the thread-local storage are as
-- they were.
pub record Framed {S M : Type 0} (g g' : Guest S M) : Type 0 where
  pub registers : (i : ℕ) → 6 ≤ i → g'.regs.r i ≡ g.regs.r i
  pub cpsr : g'.regs.cpsr ≡ g.regs.cpsr
  pub tls : g'.tls ≡ g.tls

module _ {S M : Type 0} where
  abbrev pub Kept : Guest S M → Run (Guest S M × SvcResult) → Type 0
  Kept g = OnReturn (λ (r : Guest S M × SvcResult). Framed g r.0)

  pub of_regs : (g g' : Guest S M) → g'.regs ≡ g.regs → g'.tls ≡ g.tls → Framed g g'
  of_regs g g' e t = record {
    registers = λ i le. ap (λ (x : Regs). x.r i) e;
    cpsr = ap (λ (x : Regs). x.cpsr) e;
    tls = t;
  }

  pub set_reg-Framed :
      {g g' : Guest S M} (i v : ℕ) → i < 6 → Framed g g' → Framed g (set_reg g' i v)
  set_reg-Framed i v lt f = record {
    registers = λ j le. rw (==_of_ne j i (λ e. omega arith)) (f.registers j le);
    cpsr = f.cpsr;
    tls = f.tls;
  }

  pub unset :
      (g g' : Guest S M) (b : SvcResult) → g'.regs ≡ g.regs → g'.tls ≡ g.tls → Kept g (ok (g', b))
  unset g g' b e t = returned (of_regs g g' e t)

  -- One result, and two.
  pub set_first :
      (g g' : Guest S M) (v : ℕ) (b : SvcResult)
      → g'.regs ≡ g.regs
      → g'.tls ≡ g.tls
      → Kept g (ok (set_reg g' 0 v, b))
  set_first g g' v b e t = returned (set_reg-Framed 0 v (omega arith) (of_regs g g' e t))

  pub set_both :
      (g g' : Guest S M) (v u : ℕ) (b : SvcResult)
      → g'.regs ≡ g.regs
      → g'.tls ≡ g.tls
      → Kept g (ok (set_reg (set_reg g' 0 v) 1 u, b))
  set_both g g' v u b e t =
      returned
        (set_reg-Framed 1 u (omega arith) (set_reg-Framed 0 v (omega arith) (of_regs g g' e t)))

  pub describe-Kept :
      (g : Guest S M) (base size permission memory_state : ℕ)
      → Kept g (describe g base size permission memory_state)
  describe-Kept g base size permission memory_state = returned (
      set_reg-Framed 5 0 (omega arith) (
        set_reg-Framed 4 memory_state (omega arith) (
          set_reg-Framed 3 permission (omega arith) (
            set_reg-Framed 2 size (omega arith) (
              set_reg-Framed 1 base (omega arith)
                (set_reg-Framed 0 0 (omega arith) (of_regs g g refl refl)))))))

  pub ruleset frames = (after, unset, set_first, set_both, refl)
