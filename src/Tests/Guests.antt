-- ===== src/Tests/Guests.antt =====
-- A guest thread of guest/src/lib.rs in a plain memory, and the thread-local storage of many threads.
use pomelo.Prelude.{ℕ, ◌≡◌, ◌%◌, ◌^◌, ◌*◌, none, List, [], ◌∷◌, ok, arith, if◌then◌else◌, ◌==◌}
use pomelo.Prelude.Buffer.{slice, splice, little_endian}
use pomelo.Guest.{new_tls}
use pomelo.Guest.Tls.{addresses, allocate_many, mapped, allocate_many_lem}
use pomelo.Guest.TlsBounds.{InArea, Apart, allocate_many-Apart}
use pomelo.Prelude.{All, Returns}
use pomelo.Guest.Machine.{MemoryMap, Platform, Guest, SvcResult}
use pomelo.Guest.Dispatch.{handle_svc}
use pomelo.Prelude.{OnReturn}
use pomelo.Guest.Frame.{Framed}
use pomelo.Guest.Frame.Calls.{handle_svc-Framed}
use pomelo.Guest.Shared.{Shared}
use pomelo.Tests.Calls.{kernel}
use pomelo.Tests.Tables.{counting}

-- As 264 threads are made, of which the last eight share the places of the first.
allocate_many_lem_example :
    allocate_many (λ (pages : List ℕ) page. page ∷ pages) (33 * 8) [] new_tls
    ≡ ok (
      addresses 0 (33 * 8),
      mapped (λ (pages : List ℕ) page. page ∷ pages) 0 33 [],
      record { free = []; next_offset = 33 % 2 ^ 8 },
    )
allocate_many_lem_example = allocate_many_lem (λ (pages : List ℕ) page. page ∷ pages) 33 []

allocate_many-Apart_example :
    Returns
      (λ r. All InArea r.0 × Apart r.0)
      (allocate_many (λ (pages : List ℕ) page. page ∷ pages) (32 * 8) [] new_tls)
allocate_many-Apart_example =
    allocate_many-Apart (λ (pages : List ℕ) page. page ∷ pages) 32 [] (omega arith)

abbrev pub plain : MemoryMap (ℕ → ℕ)
plain = record {
  read = λ m addr size. ok (slice m addr size);
  write = λ m addr bytes. ok (splice m addr bytes);
  map = λ m addr size. m;
}

abbrev pub platform : Platform ℕ (ℕ → ℕ)
platform = record { rng = counting; fuel = 10; bo = little_endian; map = plain; ticks = λ t. t }

-- The instruction in front of the program counter is `svc 0x18`, a signal of the event with handle 5.
abbrev pub signaller : Guest ℕ (ℕ → ℕ)
signaller = record {
  kernel = record {
    state = kernel;
    pid = 0;
    tid = 2;
    next = none;
    next_pid = 1;
    next_tid = 3;
    time = 1000;
    ports = [];
    interrupts = [];
  };
  memory = λ i. if i == 0x100 then 0x18 else if i == 0x103 then 0xEF else 0;
  regs = record { r = λ i. if i == 0 then 5 else if i == 15 then 0x104 else 0; cpsr = 0x10 };
  tls = 0x1FF8_2000;
  process = new_tls;
  boxes = [];
}

handle_svc-Framed_example :
    OnReturn
      (λ (r : Guest ℕ (ℕ → ℕ) × SvcResult). Framed signaller r.0)
      (handle_svc platform 7 8 signaller)
handle_svc-Framed_example = handle_svc-Framed platform 7 8 signaller
