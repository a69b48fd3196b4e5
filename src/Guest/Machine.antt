-- ===== src/Guest/Machine.antt =====
-- guest/src/guest_abstraction.rs and the state that handle_svc of guest/src/lib.rs works on: registers,
-- the memory map of the process as an interface, and the kernel.
use pomelo.Prelude.{
  ℕ, ◌+◌, ◌-◌, ◌*◌, ◌^◌, Option, List, [], ◌∷◌, length, map, get_or, Run, ok, ltb, ◌==◌,
  if◌then◌else◌,
}
use pomelo.Prelude.Int.{ℤ, pos, negsuc}
use pomelo.Prelude.Buffer.{Buffer, ByteOrder}
use pomelo.Ipc.Param.{from_raw}
use pomelo.Kernel.Signal.{Timeout}
use pomelo.Kernel.World.{World}
use pomelo.Kernel.Handles.{Generator}
use pomelo.Kernel.Translate.{KernelState}
use pomelo.Kernel.Context.{Context}
use pomelo.Hle.Svc.{KResult, done, failed}
use pomelo.Guest.{ProcessTls}

-- `Regs`: the registers by number, and the status word.
pub record Regs : Type 0 where
  pub r : ℕ → ℕ
  pub cpsr : ℕ

-- `SavedGuestContext::zero`.
unfoldable pub zero_regs : Regs
zero_regs = record { r = λ i. 0; cpsr = 0 }

-- `Regs::sr`.
abbrev pub sr : Regs → ℕ → ℕ → Regs
sr regs i v = record regs { r = λ j. if j == i then v else regs.r j }

-- `Memory` and `MemoryMap` of the guest; the bytes come back as a list.
pub record MemoryMap (M : Type 0) : Type 0 where
  pub read : M → (addr size : ℕ) → Run (List ℕ)
  pub write : M → (addr : ℕ) → List ℕ → Run M
  pub map : M → (addr size : ℕ) → M

-- `ThreadContext`, but for what all threads of a process share.
pub record ThreadContext : Type 0 where
  pub tls : ℕ
  pub ctx : Regs

-- What a guest calls and does not change: the generator of handle numbers, with fuel for its loop, the
-- byte order, the memory map, and the ticks of a time, which the code computes by floating point.
pub record Platform (S M : Type 0) : Type 0 where
  pub rng : Generator S
  pub fuel : ℕ
  pub bo : ByteOrder
  pub map : MemoryMap M
  pub ticks : ℕ → ℕ

-- A thread of a guest in a call: its registers and `tls` address, the process's memory and free places
-- of thread-local storage, and the threads that it has made.
pub record Guest (S M : Type 0) : Type 0 where
  pub kernel : Context S
  pub memory : M
  pub regs : Regs
  pub tls : ℕ
  pub process : ProcessTls
  pub boxes : List (ℕ × ThreadContext)

pub data SvcResult : Type 0 where
  continue reschedule : SvcResult

module _ {S M : Type 0} where
  abbrev pub set_reg : Guest S M → ℕ → ℕ → Guest S M
  set_reg g i v = record g { regs = sr g.regs i v }

  abbrev pub in_state : Guest S M → KernelState S → Guest S M
  in_state g k = record g { kernel = record g.kernel { state = k } }

  abbrev pub in_kernel_world : Guest S M → World → Guest S M
  in_kernel_world g w = in_state g (record g.kernel.state { world = w })

  abbrev pub go_on : Guest S M → Run (Guest S M × SvcResult)
  go_on g = ok (g, SvcResult.continue)

  abbrev pub give_up_time : Guest S M → Run (Guest S M × SvcResult)
  give_up_time g = ok (g, SvcResult.reschedule)

  -- A read for a line of console output: the bytes are not used, but the read may panic.
  abbrev pub peek : Platform S M → Guest S M → (addr size : ℕ) → Run (List ℕ)
  peek p g addr size = p.map.read g.memory addr size

-- The number of a result: 0, or the error.
abbrev pub code_of : {A : Type 0} → KResult A → ℕ
code_of (done a) = 0
code_of (failed e) = e

-- The handle of a result, 0 with an error.
abbrev pub handle_of : KResult ℕ → ℕ
handle_of (done h) = h
handle_of (failed e) = 0

-- `as i32` and `as i64`.
abbrev pub to_i32 : ℕ → ℤ
to_i32 n = if ltb n (2 ^ 31) then pos n else negsuc (2 ^ 32 - n - 1)

-- The 64-bit number with the two halves.
abbrev pub wide : (low high : ℕ) → ℕ
wide low high = low + high * 2 ^ 32

-- `make_timeout`.
unfoldable pub make_timeout : (low high : ℕ) → Timeout
make_timeout low high =
    let ns = wide low high in
    if ltb ns (2 ^ 63)
    then (if ns == 0 then Timeout.instant else Timeout.after ns)
    else Timeout.forever

-- The words of a list of bytes; `transmute` to handles reads them one by one.
unfoldable pub words : ByteOrder → List ℕ → List ℕ
words bo (a ∷ b ∷ c ∷ d ∷ bytes) = bo.read_u32 (a ∷ b ∷ c ∷ d ∷ []) ∷ words bo bytes
words bo _ = []

unfoldable pub handles_of : ByteOrder → List ℕ → List (Option ℕ)
unfolding words
handles_of bo bytes = map from_raw (words bo bytes)

-- The message of a thread from its bytes.
unfoldable pub message_of : List ℕ → Buffer
message_of bytes = record { len = length bytes; at = λ i. get_or bytes i 0 }
