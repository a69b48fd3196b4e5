-- ===== src/Guest.antt =====
-- guest/src/lib.rs: the thread-local storage of a guest process. The number of the next page is a
-- `u8`. The memory map of the process is a parameter, by what `map` does with a page of storage.
pub mod Dynarmic
pub mod Tls
pub mod TlsBounds
pub mod Machine
pub mod Calls
pub mod Dispatch
pub mod Frame
pub mod Shared
use pomelo.Prelude.{ℕ, ◌+◌, ◌*◌, ◌%◌, ◌^◌, bit_or, List, [], ◌∷◌, Run, ok, panic}

-- The offsets of `free` stand with the one that is popped next in front.
pub record ProcessTls : Type 0 where
  pub free : List ℕ
  pub next_offset : ℕ

abbrev pub userland_tls_base : ℕ
userland_tls_base = 536354816

unfoldable pub new_tls : ProcessTls
new_tls = record { free = []; next_offset = 0 }

-- `(next_offset << 3) | offset` on `u8`.
unfoldable pub slot : ℕ → ℕ → ℕ
slot next offset = bit_or (next * 2 ^ 3 % 2 ^ 8) offset

unfoldable pub slot_address : ℕ → ℕ
slot_address a = (userland_tls_base + a * 2 ^ 9) % 2 ^ 32

-- The eight places of a page, in the order in which they are popped.
unfoldable pub page_slots : ℕ → List ℕ
page_slots next =
    slot next 0
    ∷ slot next 1
    ∷ slot next 2
    ∷ slot next 3
    ∷ slot next 4
    ∷ slot next 5
    ∷ slot next 6
    ∷ slot next 7
    ∷ []

module _ {M : Type 0} (map_page : M → ℕ → M) where
  -- The branch for an empty list of free places.
  unfoldable pub refill : M → List ℕ → ℕ → M × ProcessTls
  refill m [] next = (
    map_page m ((userland_tls_base + next * 2 ^ 12) % 2 ^ 32),
    record { free = page_slots next; next_offset = (next + 1) % 2 ^ 8 },
  )
  refill m (a ∷ rest) next = (m, record { free = a ∷ rest; next_offset = next })

  unfoldable pub pop_slot : M → List ℕ → ℕ → Run (ℕ × M × ProcessTls)
  pop_slot m [] next = panic
  pop_slot m (a ∷ free) next = ok (slot_address a, m, record { free = free; next_offset = next })

  unfoldable pub allocate_tls : M → ProcessTls → Run (ℕ × M × ProcessTls)
  allocate_tls m tls =
      let r = refill m tls.free tls.next_offset in pop_slot r.0 r.1.free r.1.next_offset
