-- ===== src/Guest/Calls/Queries.antt =====
-- guest/src/lib.rs: ControlMemory, QueryMemory, CreateMemoryBlock, MapMemoryBlock, DuplicateHandle,
-- GetSystemTick, GetProcessInfo, GetResourceLimit, GetResourceLimitCurrentValues, BindInterrupt,
-- UnbindInterrupt. Most give fixed answers.
use pomelo.Prelude.{
  ℕ, zero, suc, ◌+◌, ◌-◌, ◌*◌, ◌/◌, ◌%◌, ◌^◌, Bool, ◌&&◌, Option, some, [], ◌∷◌, Run, ok, panic,
  ◌>>=◌, ◌>>◌, assert, ltb, leb, ◌==◌, if◌then◌else◌,
}
use pomelo.Ipc.Param.{from_raw}
use pomelo.Kernel.World.{Object}
use pomelo.Kernel.Run.{bind_interrupt}
use pomelo.Hle.Svc.{handle_type_mismatch, found_at}
use pomelo.Guest.Machine.{Platform, Guest, SvcResult, set_reg, go_on, peek}

abbrev pub userland_stack_base : ℕ
userland_stack_base = 0x1000_0000

abbrev pub stack_size : ℕ
stack_size = 0x2000

-- `ResLimit::from_raw` knows ten names.
abbrev pub is_res_limit : ℕ → Bool
is_res_limit id = ltb id 10

module _ {S M : Type 0} where
  -- Six results of QueryMemory.
  abbrev pub describe :
      Guest S M → (base size permission memory_state : ℕ) → Run (Guest S M × SvcResult)
  describe g base size permission memory_state = go_on (
      set_reg
        (set_reg (set_reg (set_reg (set_reg (set_reg g 0 0) 1 base) 2 size) 3 permission) 4
          memory_state)
        5 0)

  unfoldable pub query_memory_call : Guest S M → Run (Guest S M × SvcResult)
  query_memory_call g =
      let addr = g.regs.r 2 in
      if leb (userland_stack_base - stack_size) addr && ltb addr userland_stack_base
      then describe g (userland_stack_base - stack_size) stack_size 3 3
      else if ltb 0x0800_0000 addr && ltb addr (userland_stack_base - stack_size)
      then describe g 0x0800_0000 (0x0800_0000 - stack_size) 0 0
      else panic

  unfoldable pub control_memory_call : Platform S M → Guest S M → Run (Guest S M × SvcResult)
  control_memory_call p g =
      go_on (set_reg (record g { memory = p.map.map g.memory (g.regs.r 1) (g.regs.r 3) }) 0 0)

  unfoldable pub create_memory_block_call : Guest S M → Run (Guest S M × SvcResult)
  create_memory_block_call g = go_on (set_reg (set_reg g 0 0) 1 0xA000)

  unfoldable pub map_memory_block_call : Platform S M → Guest S M → Run (Guest S M × SvcResult)
  map_memory_block_call p g =
      go_on (set_reg (record g { memory = p.map.map g.memory (g.regs.r 1) 0x22000 }) 0 0)

  unfoldable pub duplicate_handle_call : Guest S M → Run (Guest S M × SvcResult)
  duplicate_handle_call g = go_on (set_reg (set_reg g 0 0) 1 (g.regs.r 1))

  unfoldable pub get_system_tick_call : Platform S M → Guest S M → Run (Guest S M × SvcResult)
  get_system_tick_call p g = do
    _ ← peek p g (g.regs.r 13) 12
    let ticks = p.ticks g.kernel.time
    go_on (set_reg (set_reg g 0 (ticks % 2 ^ 32)) 1 (ticks / 2 ^ 32 % 2 ^ 32))

  unfoldable pub get_process_info_call : Guest S M → Run (Guest S M × SvcResult)
  get_process_info_call g =
      if (g.regs.r 1 == 0xFFFF_8001) && (g.regs.r 2 == 20)
      then go_on (set_reg (set_reg (set_reg g 0 0) 1 0xA000_0000) 2 0)
      else panic

  unfoldable pub get_resource_limit_call : Guest S M → Run (Guest S M × SvcResult)
  get_resource_limit_call g = go_on (set_reg (set_reg g 0 0) 1 0)

  -- The loop over the names that are left, from `index` on: each value is 0, in eight bytes.
  unfoldable pub write_limits : Platform S M → M → (names values left index : ℕ) → Run M
  write_limits p m names values zero index = ok m
  write_limits p m names values (suc left) index = do
    bytes ← p.map.read m ((names + index * 4) % 2 ^ 32) 4
    assert (is_res_limit (p.bo.read_u32 bytes))
    m' ← p.map.write m ((values + index * 8) % 2 ^ 32) (0 ∷ 0 ∷ 0 ∷ 0 ∷ 0 ∷ 0 ∷ 0 ∷ 0 ∷ [])
    write_limits p m' names values left (suc index)

  unfoldable pub get_limit_values_call : Platform S M → Guest S M → Run (Guest S M × SvcResult)
  unfolding write_limits
  get_limit_values_call p g = do
    m ← write_limits p g.memory (g.regs.r 2) (g.regs.r 0) (g.regs.r 3) 0
    go_on (set_reg (record g { memory = m }) 0 0)

  -- BindInterrupt behind the lookup, but for the host thread that waits for the interrupt.
  unfoldable pub bind_at : Guest S M → Option (ℕ × Object) → Guest S M
  bind_at g (some (o, Object.event s q)) =
      set_reg
        (record g {
          kernel = record g.kernel {
            interrupts = bind_interrupt g.kernel.interrupts (g.regs.r 0) o;
          };
        })
        0 0
  bind_at g _ = set_reg g 0 handle_type_mismatch

  unfoldable pub bind_interrupt_call : Guest S M → Run (Guest S M × SvcResult)
  unfolding bind_at
  bind_interrupt_call g = do
    found ← found_at g.kernel.state g.kernel.pid (from_raw (g.regs.r 1))
    go_on (bind_at g found)

  -- UnbindInterrupt does nothing yet.
  unfoldable pub unbind_interrupt_call : Guest S M → Run (Guest S M × SvcResult)
  unbind_interrupt_call g = go_on (set_reg g 0 0)
