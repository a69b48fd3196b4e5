-- ===== src/Guest/Dispatch.antt =====
-- guest/src/lib.rs: `get_svc`, `handle_svc` and `handle_resume`.
use pomelo.Prelude.{
  ℕ, ◌+◌, ◌-◌, ◌%◌, ◌^◌, List, [], ◌∷◌, Run, ok, ◌>>=◌, expect, ◌==◌, if◌then◌else◌,
}
use pomelo.Kernel.World.{Resume}
use pomelo.Kernel.Handles.{get}
use pomelo.Guest.Machine.{Platform, Guest, SvcResult, set_reg, go_on}
use pomelo.Guest.Calls.Threads.{create_thread_call, exit_thread_call, sleep_thread_call}
use pomelo.Guest.Calls.Objects.{
  create_mutex_call, release_mutex_call, create_event_call, signal_event_call, clear_event_call,
  create_timer_call, set_timer_call, cancel_timer_call, create_address_arbiter_call,
}
use pomelo.Guest.Calls.Waits.{close_handle_call, wait_1_call, wait_n_call}
use pomelo.Guest.Calls.Arbiters.{arbitrate_address_call}
use pomelo.Guest.Calls.Sessions.{
  connect_to_port_call, send_sync_request_call, accept_session_call, reply_and_receive_call,
  receive_on_resume,
}
use pomelo.Guest.Calls.Queries.{
  control_memory_call, query_memory_call, create_memory_block_call, map_memory_block_call,
  duplicate_handle_call, get_system_tick_call, get_process_info_call, get_resource_limit_call,
  get_limit_values_call, bind_interrupt_call, unbind_interrupt_call,
}

-- The calls that handle_svc knows.
pub data Call : Type 0 where
  control_memory query_memory create_thread exit_thread sleep_thread create_mutex release_mutex :
      Call
  create_event signal_event clear_event create_timer set_timer cancel_timer : Call
  create_memory_block map_memory_block create_address_arbiter arbitrate_address close_handle : Call
  wait_synchronization_1 wait_synchronization_n duplicate_handle get_system_tick : Call
  get_process_info connect_to_port send_sync_request get_resource_limit : Call
  get_resource_limit_current_values accept_session reply_and_receive bind_interrupt : Call
  unbind_interrupt data_cache : Call

-- The numbers of the `match`.
abbrev pub svc_numbers : List (ℕ × Call)
svc_numbers =
    (0x01, Call.control_memory)
    ∷ (0x02, Call.query_memory)
    ∷ (0x08, Call.create_thread)
    ∷ (0x09, Call.exit_thread)
    ∷ (0x0A, Call.sleep_thread)
    ∷ (0x13, Call.create_mutex)
    ∷ (0x14, Call.release_mutex)
    ∷ (0x17, Call.create_event)
    ∷ (0x18, Call.signal_event)
    ∷ (0x19, Call.clear_event)
    ∷ (0x1A, Call.create_timer)
    ∷ (0x1B, Call.set_timer)
    ∷ (0x1C, Call.cancel_timer)
    ∷ (0x1E, Call.create_memory_block)
    ∷ (0x1F, Call.map_memory_block)
    ∷ (0x21, Call.create_address_arbiter)
    ∷ (0x22, Call.arbitrate_address)
    ∷ (0x23, Call.close_handle)
    ∷ (0x24, Call.wait_synchronization_1)
    ∷ (0x25, Call.wait_synchronization_n)
    ∷ (0x27, Call.duplicate_handle)
    ∷ (0x28, Call.get_system_tick)
    ∷ (0x2B, Call.get_process_info)
    ∷ (0x2D, Call.connect_to_port)
    ∷ (0x32, Call.send_sync_request)
    ∷ (0x38, Call.get_resource_limit)
    ∷ (0x3A, Call.get_resource_limit_current_values)
    ∷ (0x4A, Call.accept_session)
    ∷ (0x4F, Call.reply_and_receive)
    ∷ (0x50, Call.bind_interrupt)
    ∷ (0x51, Call.unbind_interrupt)
    ∷ (0x53, Call.data_cache)
    ∷ (0x54, Call.data_cache)
    ∷ []

module _ {S M : Type 0} (p : Platform S M) where
  -- `get_svc`: the low 24 bits of the instruction in front of the program counter.
  unfoldable pub get_svc : Guest S M → Run ℕ
  get_svc g = do
    bytes ← p.map.read g.memory ((g.regs.r 15 + 2 ^ 32 - 4) % 2 ^ 32) 4
    ok (p.bo.read_u32 bytes % 2 ^ 24)

  -- One branch of the `match`; new objects are put at `place` and `other`.
  unfoldable pub perform : Call → (place other : ℕ) → Guest S M → Run (Guest S M × SvcResult)
  perform Call.control_memory place other g = control_memory_call p g
  perform Call.query_memory place other g = query_memory_call g
  perform Call.create_thread place other g = create_thread_call p place g
  perform Call.exit_thread place other g = exit_thread_call g
  perform Call.sleep_thread place other g = sleep_thread_call g
  perform Call.create_mutex place other g = create_mutex_call p place g
  perform Call.release_mutex place other g = release_mutex_call g
  perform Call.create_event place other g = create_event_call p place g
  perform Call.signal_event place other g = signal_event_call g
  perform Call.clear_event place other g = clear_event_call p g
  perform Call.create_timer place other g = create_timer_call p place g
  perform Call.set_timer place other g = set_timer_call g
  perform Call.cancel_timer place other g = cancel_timer_call p g
  perform Call.create_memory_block place other g = create_memory_block_call g
  perform Call.map_memory_block place other g = map_memory_block_call p g
  perform Call.create_address_arbiter place other g = create_address_arbiter_call p place g
  perform Call.arbitrate_address place other g = arbitrate_address_call p g
  perform Call.close_handle place other g = close_handle_call g
  perform Call.wait_synchronization_1 place other g = wait_1_call p g
  perform Call.wait_synchronization_n place other g = wait_n_call p g
  perform Call.duplicate_handle place other g = duplicate_handle_call g
  perform Call.get_system_tick place other g = get_system_tick_call p g
  perform Call.get_process_info place other g = get_process_info_call g
  perform Call.connect_to_port place other g = connect_to_port_call p place other g
  perform Call.send_sync_request place other g = send_sync_request_call p g
  perform Call.get_resource_limit place other g = get_resource_limit_call g
  perform Call.get_resource_limit_current_values place other g = get_limit_values_call p g
  perform Call.accept_session place other g = accept_session_call p g
  perform Call.reply_and_receive place other g = reply_and_receive_call p g
  perform Call.bind_interrupt place other g = bind_interrupt_call g
  perform Call.unbind_interrupt place other g = unbind_interrupt_call g
  perform Call.data_cache place other g = go_on g

  -- `handle_svc`.
  unfoldable pub handle_svc : (place other : ℕ) → Guest S M → Run (Guest S M × SvcResult)
  unfolding get_svc perform get
  handle_svc place other g = do
    svc ← get_svc g
    call ← expect (get svc_numbers svc)
    perform call place other g

  -- The result of a wait, when the thread resumes.
  unfoldable pub resumed : Guest S M → Resume → Guest S M
  resumed g Resume.normal = g
  resumed g Resume.timeout_reached = set_reg g 0 0x0940_1BFE
  resumed g (Resume.wait_sync_n index) = set_reg g 1 (index % 2 ^ 32)

  -- `handle_resume`.
  unfoldable pub handle_resume : Guest S M → Resume → Run (Guest S M)
  unfolding get_svc resumed
  handle_resume g resume = do
    svc ← get_svc g
    g' ← if svc == 0x4F then receive_on_resume p g resume else ok g
    ok (resumed g' resume)
