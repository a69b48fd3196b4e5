-- ===== src/Guest/Frame/Calls.antt =====
-- guest/src/lib.rs: each system call keeps the registers that hold no result.
use pomelo.Prelude.{ℕ, refl, arith}
use pomelo.Guest.Machine.{Platform, Guest}
use pomelo.Guest.Calls.Threads.{create_thread_call, exit_thread_call, sleep_thread_call}
use pomelo.Guest.Calls.Objects.{
  create_mutex_call, release_mutex_call, create_event_call, signal_event_call, clear_event_call,
  create_timer_call, set_timer_call, cancel_timer_call, create_address_arbiter_call,
}
use pomelo.Guest.Calls.Waits.{close_handle_call, wait_1_call, wait_n_call}
use pomelo.Guest.Calls.Arbiters.{arbitrate_address_call}
use pomelo.Guest.Calls.Sessions.{
  connect_to_port_call, send_sync_request_call, accept_session_call, reply_and_receive_call,
}
use pomelo.Guest.Calls.Queries.{
  control_memory_call, query_memory_call, create_memory_block_call, map_memory_block_call,
  duplicate_handle_call, get_system_tick_call, get_process_info_call, get_resource_limit_call,
  get_limit_values_call, bind_interrupt_call, unbind_interrupt_call,
}
use pomelo.Guest.Dispatch.{Call, perform, handle_svc}
use pomelo.Prelude.{after, either, panics, returned, panics, returned}
use pomelo.Guest.Frame.{Kept, describe-Kept, frames, of_regs, set_reg-Framed}
use pomelo.Guest.Frame.Branches.{
  accepted-Kept, after_message, arbitrate_at-Kept, bind_at-Kept, cancel_at-Kept, clear_at-Kept,
  close_at-Kept, connected-Kept, replied-Kept, requested-Kept, set_at-Kept, signal_at-Kept,
  wait_at-Kept,
}

module _ {S M : Type 0} where
  module _ (p : Platform S M) (place other : ℕ) (g : Guest S M) where
    create_thread-Kept : Kept g (create_thread_call p place g)
    unfolding create_thread_call
    create_thread-Kept = search frames

    exit_thread-Kept : Kept g (exit_thread_call g)
    unfolding exit_thread_call
    exit_thread-Kept = search frames

    sleep_thread-Kept : Kept g (sleep_thread_call g)
    unfolding sleep_thread_call
    sleep_thread-Kept = search frames

    create_mutex-Kept : Kept g (create_mutex_call p place g)
    unfolding create_mutex_call
    create_mutex-Kept = search frames

    release_mutex-Kept : Kept g (release_mutex_call g)
    unfolding release_mutex_call
    release_mutex-Kept = search frames

    create_event-Kept : Kept g (create_event_call p place g)
    unfolding create_event_call
    create_event-Kept = search frames

    create_timer-Kept : Kept g (create_timer_call p place g)
    unfolding create_timer_call
    create_timer-Kept = search frames

    create_address_arbiter-Kept : Kept g (create_address_arbiter_call p place g)
    unfolding create_address_arbiter_call
    create_address_arbiter-Kept = search frames

    signal_event-Kept : Kept g (signal_event_call g)
    unfolding signal_event_call
    signal_event-Kept = search (frames, signal_at-Kept)

    clear_event-Kept : Kept g (clear_event_call p g)
    unfolding clear_event_call
    clear_event-Kept = search (frames, clear_at-Kept)

    set_timer-Kept : Kept g (set_timer_call g)
    unfolding set_timer_call
    set_timer-Kept = search (frames, set_at-Kept)

    cancel_timer-Kept : Kept g (cancel_timer_call p g)
    unfolding cancel_timer_call
    cancel_timer-Kept = search (frames, cancel_at-Kept)

    close_handle-Kept : Kept g (close_handle_call g)
    unfolding close_handle_call
    close_handle-Kept = search (frames, close_at-Kept)

    wait_sync_1-Kept : Kept g (wait_1_call p g)
    unfolding wait_1_call
    wait_sync_1-Kept = search (frames, wait_at-Kept)

    wait_sync_n-Kept : Kept g (wait_n_call p g)
    unfolding wait_n_call
    wait_sync_n-Kept = search frames

    get_system_tick-Kept : Kept g (get_system_tick_call p g)
    unfolding get_system_tick_call
    get_system_tick-Kept = search frames

    get_limit_values-Kept : Kept g (get_limit_values_call p g)
    unfolding get_limit_values_call
    get_limit_values-Kept = search frames

    control_memory-Kept : Kept g (control_memory_call p g)
    unfolding control_memory_call
    control_memory-Kept = search frames

    create_memory_block-Kept : Kept g (create_memory_block_call g)
    unfolding create_memory_block_call
    create_memory_block-Kept = search frames

    map_memory_block-Kept : Kept g (map_memory_block_call p g)
    unfolding map_memory_block_call
    map_memory_block-Kept = search frames

    duplicate_handle-Kept : Kept g (duplicate_handle_call g)
    unfolding duplicate_handle_call
    duplicate_handle-Kept = search frames

    get_resource_limit-Kept : Kept g (get_resource_limit_call g)
    unfolding get_resource_limit_call
    get_resource_limit-Kept = search frames

    unbind_interrupt-Kept : Kept g (unbind_interrupt_call g)
    unfolding unbind_interrupt_call
    unbind_interrupt-Kept = search frames

    arbitrate_address-Kept : Kept g (arbitrate_address_call p g)
    unfolding arbitrate_address_call
    arbitrate_address-Kept = search (frames, arbitrate_at-Kept)

    connect_to_port-Kept : Kept g (connect_to_port_call p place other g)
    unfolding connect_to_port_call
    connect_to_port-Kept = search (frames, connected-Kept)

    send_sync_request-Kept : Kept g (send_sync_request_call p g)
    unfolding send_sync_request_call
    send_sync_request-Kept = search (after_message, requested-Kept, after)

    accept_session-Kept : Kept g (accept_session_call p g)
    unfolding accept_session_call
    accept_session-Kept = search (frames, accepted-Kept)

    reply_and_receive-Kept : Kept g (reply_and_receive_call p g)
    unfolding reply_and_receive_call
    reply_and_receive-Kept = search (after_message, replied-Kept, after)

    bind_interrupt-Kept : Kept g (bind_interrupt_call g)
    unfolding bind_interrupt_call
    bind_interrupt-Kept = search (frames, bind_at-Kept)

    get_process_info-Kept : Kept g (get_process_info_call g)
    unfolding get_process_info_call
    get_process_info-Kept =
        either _ _ _
          (returned (
            set_reg-Framed 2 0 (omega arith) (
              set_reg-Framed 1 0xA000_0000 (omega arith)
                (set_reg-Framed 0 0 (omega arith) (of_regs g g refl refl)))))
          panics

    query_memory-Kept : Kept g (query_memory_call g)
    unfolding query_memory_call
    query_memory-Kept = search (either, describe-Kept, panics)

    perform-Kept : (call : Call) → Kept g (perform p call place other g)
    unfolding perform
    perform-Kept Call.control_memory = control_memory-Kept
    perform-Kept Call.query_memory = query_memory-Kept
    perform-Kept Call.create_thread = create_thread-Kept
    perform-Kept Call.exit_thread = exit_thread-Kept
    perform-Kept Call.sleep_thread = sleep_thread-Kept
    perform-Kept Call.create_mutex = create_mutex-Kept
    perform-Kept Call.release_mutex = release_mutex-Kept
    perform-Kept Call.create_event = create_event-Kept
    perform-Kept Call.signal_event = signal_event-Kept
    perform-Kept Call.clear_event = clear_event-Kept
    perform-Kept Call.create_timer = create_timer-Kept
    perform-Kept Call.set_timer = set_timer-Kept
    perform-Kept Call.cancel_timer = cancel_timer-Kept
    perform-Kept Call.create_memory_block = create_memory_block-Kept
    perform-Kept Call.map_memory_block = map_memory_block-Kept
    perform-Kept Call.create_address_arbiter = create_address_arbiter-Kept
    perform-Kept Call.arbitrate_address = arbitrate_address-Kept
    perform-Kept Call.close_handle = close_handle-Kept
    perform-Kept Call.wait_synchronization_1 = wait_sync_1-Kept
    perform-Kept Call.wait_synchronization_n = wait_sync_n-Kept
    perform-Kept Call.duplicate_handle = duplicate_handle-Kept
    perform-Kept Call.get_system_tick = get_system_tick-Kept
    perform-Kept Call.get_process_info = get_process_info-Kept
    perform-Kept Call.connect_to_port = connect_to_port-Kept
    perform-Kept Call.send_sync_request = send_sync_request-Kept
    perform-Kept Call.get_resource_limit = get_resource_limit-Kept
    perform-Kept Call.get_resource_limit_current_values = get_limit_values-Kept
    perform-Kept Call.accept_session = accept_session-Kept
    perform-Kept Call.reply_and_receive = reply_and_receive-Kept
    perform-Kept Call.bind_interrupt = bind_interrupt-Kept
    perform-Kept Call.unbind_interrupt = unbind_interrupt-Kept
    perform-Kept Call.data_cache = search frames

    -- Whatever the call, handle_svc panics, or it changes no register but the first six: the stack
    -- pointer, the link register, the program counter and the status word are as they were. The address of
    -- the thread-local storage stays; of what is stored there nothing is said.
    pub handle_svc-Framed : Kept g (handle_svc p place other g)
    unfolding handle_svc
    handle_svc-Framed = search (after, perform-Kept)
