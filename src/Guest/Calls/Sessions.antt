-- ===== src/Guest/Calls/Sessions.antt =====
-- guest/src/lib.rs: ConnectToPort, SendSyncRequest, AcceptSession, ReplyAndReceive and what is left of it
-- when the thread resumes.
use pomelo.Prelude.{
  ℕ, ◌+◌, ◌%◌, ◌^◌, Option, none, some, List, [], ◌∷◌, Run, ok, panic, ◌>>=◌, ◌>>◌, assert, ◌==◌,
  if◌then◌else◌,
}
use pomelo.Ipc.Param.{from_raw}
use pomelo.Kernel.World.{Resume}
use pomelo.Kernel.Translate.{KernelState}
use pomelo.Kernel.Ports.{same_name, lookup_port}
use pomelo.Kernel.Context.{set_thread_ipc_data}
use pomelo.Hle.Svc.{
  KResult, done, failed, handle_for, send_sync_request, create_session_to_port, accept_session,
  reply_and_receive_pre, reply_and_receive_post,
}
use pomelo.Guest.Machine.{
  Platform, Guest, SvcResult, set_reg, in_state, go_on, give_up_time, code_of, message_of,
}
use pomelo.Guest.Calls.Waits.{read_handles_at}

-- The bytes in front of the first 0.
unfoldable pub up_to_zero : List ℕ → List ℕ
up_to_zero [] = []
up_to_zero (b ∷ bs) = if b == 0 then [] else b ∷ up_to_zero bs

-- The bytes of `srv:`.
abbrev pub srv_port : List ℕ
srv_port = 115 ∷ 114 ∷ 118 ∷ 58 ∷ []

module _ {S M : Type 0} where
  -- A handle for the port, if there is one.
  unfoldable pub port_handle :
      Platform S M → KernelState S → ℕ → Option ℕ → Run (Option ℕ × KernelState S)
  port_handle p k pid none = ok (none, k)
  port_handle p k pid (some port) = do (h, k') ← handle_for p.rng p.fuel k pid port; ok (some h, k')

  -- The new handle, or none, and whether the caller is to be rescheduled.
  abbrev pub connected : Guest S M → KResult ℕ × KernelState S → Run (Guest S M × SvcResult)
  connected g (done h, k) = give_up_time (set_reg (set_reg (in_state g k) 0 0) 1 h)
  connected g (failed e, k) = go_on (set_reg (set_reg (in_state g k) 0 e) 1 0)

  -- ConnectToPort; `server` and `client` are the places of the two ends of the session.
  unfoldable pub connect_to_port_call :
      Platform S M → (server client : ℕ) → Guest S M → Run (Guest S M × SvcResult)
  unfolding port_handle up_to_zero
  connect_to_port_call p server client g = do
    bytes ← p.map.read g.memory (g.regs.r 1) 11
    let name = up_to_zero bytes
    assert (same_name name srv_port)
    (port, k) ← port_handle p g.kernel.state g.kernel.pid (lookup_port g.kernel.ports name)
    r ← create_session_to_port p.rng p.fuel k g.kernel.pid g.kernel.tid server client port
    connected g r

  -- The message of the thread goes to the kernel.
  unfoldable pub give_message : Platform S M → Guest S M → Run (Guest S M)
  unfolding message_of
  give_message p g = do
    bytes ← p.map.read g.memory ((g.tls + 0x80) % 2 ^ 32) 0x100
    k ← set_thread_ipc_data g.kernel (message_of bytes)
    ok (record g { kernel = k })

  -- `Ok(reschedule)` or the error.
  abbrev pub requested :
      {A : Type 0} → Guest S M → KResult A × KernelState S → Run (Guest S M × SvcResult)
  requested g (done _, k) = give_up_time (set_reg (in_state g k) 0 0)
  requested g (failed e, k) = go_on (set_reg (in_state g k) 0 e)

  -- SendSyncRequest.
  unfoldable pub send_sync_request_call : Platform S M → Guest S M → Run (Guest S M × SvcResult)
  unfolding give_message
  send_sync_request_call p g = do
    g' ← give_message p g
    r ← send_sync_request g'.kernel.state g.kernel.pid g.kernel.tid (from_raw (g.regs.r 0))
    requested g' r

  -- A session that waits at the port, or a panic: a guest does not wait for one.
  abbrev pub accepted : Guest S M → KResult (Option ℕ) × KernelState S → Run (Guest S M × SvcResult)
  accepted g (done (some session), k) = go_on (set_reg (set_reg (in_state g k) 0 0) 1 session)
  accepted g (done none, k) = panic
  accepted g (failed e, k) = go_on (set_reg (in_state g k) 0 e)

  -- AcceptSession.
  unfoldable pub accept_session_call : Platform S M → Guest S M → Run (Guest S M × SvcResult)
  accept_session_call p g = do
    r ← accept_session p.rng p.fuel g.kernel.state g.kernel.pid g.kernel.tid (from_raw (g.regs.r 1))
    accepted g r

  -- The caller waits for its handles, and keeps its first register until it resumes.
  abbrev pub replied :
      {A : Type 0} → Guest S M → KResult A × KernelState S → Run (Guest S M × SvcResult)
  replied g (done _, k) = give_up_time (in_state g k)
  replied g (failed e, k) = go_on (set_reg (in_state g k) 0 e)

  -- ReplyAndReceive.
  unfoldable pub reply_and_receive_call : Platform S M → Guest S M → Run (Guest S M × SvcResult)
  unfolding give_message
  reply_and_receive_call p g = do
    g' ← give_message p g
    hs ← read_handles_at p g' (g.regs.r 1) (g.regs.r 2)
    r ←
        reply_and_receive_pre p.rng p.fuel p.bo g'.kernel.state g.kernel.pid g.kernel.tid hs
          (from_raw (g.regs.r 3)) g.kernel.time
    replied g' r

  -- The part of `handle_resume` for ReplyAndReceive: the index of the handle goes to the address in the
  -- first register.
  unfoldable pub receive_on_resume : Platform S M → Guest S M → Resume → Run (Guest S M)
  receive_on_resume p g resume = do
    hs ← read_handles_at p g (g.regs.r 1) (g.regs.r 2)
    (index, res, k) ←
        reply_and_receive_post p.rng p.fuel p.bo g.kernel.state g.kernel.pid g.kernel.tid hs resume
    m ← p.map.write g.memory (g.regs.r 0) (p.bo.write_u32 (index % 2 ^ 32))
    ok (set_reg (record (in_state g k) { memory = m }) 0 (code_of res))
