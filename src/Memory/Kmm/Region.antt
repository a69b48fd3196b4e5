-- ===== src/Memory/Kmm/Region.antt =====
-- kernel/src/memory/kmm.rs: the list of a region that was just set up.
use pomelo.Prelude.{
  ℕ, ◌+◌, ◌*◌, ◌/◌, ◌%◌, ◌≤◌, ◌<◌, ◌≡◌, refl, none, some, [], ◌∷◌, Returns, returns, Returns-bind,
  arith, ◌==◌, ==_of_eq, ==_of_ne, true, false,
}
use pomelo.Prelude.Buffer.{ByteOrder}
use pomelo.Memory.Interface.{Memory}
use pomelo.Memory.Kmm.{BlockHeader, from_ptr, into_unsafe, init_region}
use pomelo.Memory.Kmm.Header.{Inside, write_header-Stored}
use pomelo.Memory.Kmm.Chain.{Chain}

from_ptr-page : (addr : ℕ) → addr % 4096 ≡ 0 → 0 < addr → from_ptr addr ≡ some (addr / 4096)
unfolding from_ptr
from_ptr-page addr aligned pos =
    let a : (addr % 4096 == 0) ≡ true = ==_of_eq _ _ aligned in
    let b : (addr / 4096 == 0) ≡ false = ==_of_ne _ _ (omega arith) in rw (a, b) refl

-- `init_region` with an aligned address of a region that has a page at least and lies in the memory does
-- not panic, and the list of the region is then the one block of all its pages.
pub init_region-Chain :
    {M : Type 0} (bo : ByteOrder) (mem : Memory M) (m : M) (addr pages : ℕ)
    → addr % 4096 ≡ 0
    → 0 < addr
    → 0 < pages
    → addr / 4096 + pages ≤ 1048576
    → addr + pages * 4096 ≤ mem.size m
    → Returns
        (λ r. Chain bo mem r.1 r.0.first (
          record { page = addr / 4096; header = record { size = pages; next = 0; prev = 0 } } ∷ []))
        (init_region bo mem m addr pages)
unfolding init_region into_unsafe
init_region-Chain bo mem m addr pages aligned pos some_pages bounded backed =
    let inside : Inside bo mem m (addr / 4096) = ((omega arith, omega arith), omega arith) in
    let h : BlockHeader = record { size = pages; next = 0; prev = 0 } in
    rw (from_ptr-page addr aligned pos) (
      Returns-bind
        (write_header-Stored bo mem m (addr / 4096) h inside
          (omega arith, omega arith, omega arith))
        (λ n st. returns (
          refl,
          record {
            paged = inside.0.0;
            sized = some_pages;
            bounded = bounded;
            backed = omega (arith, backed, st.same_size, aligned);
            words = (omega arith, omega arith, omega arith);
            stored = st.here;
          },
          (none, refl, tt, tt),
        )))
