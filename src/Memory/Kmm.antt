-- ===== src/Memory/Kmm.antt =====
-- kernel/src/memory/kmm.rs: a region's free pages as a list of blocks, linked through headers in the
-- first bytes of each block.
pub mod Header
pub mod Chain
pub mod Region
pub mod Allocate
pub mod Free
use pomelo.Prelude.{
  ℕ, zero, suc, ◌+◌, ◌-◌, ◌*◌, ◌/◌, ◌%◌, ◌^◌, Bool, true, false, Option, none, some, List, [], ◌∷◌,
  ◌++◌, take, drop, Run, ok, panic, ◌>>=◌, expect, leb, ltb, ◌==◌, if◌then◌else◌, ◌&&◌,
}
use pomelo.Prelude.Buffer.{ByteOrder}
use pomelo.Memory.Interface.{Memory}

-- `MemoryBlockHeaderPtr` is a page number; `from_ptr` takes an address.
unfoldable pub from_ptr : ℕ → Option ℕ
from_ptr ptr =
    if ptr % 4096 == 0 then (if ptr / 4096 == 0 then none else some (ptr / 4096)) else none

-- `offset`: a checked sum that must stay below `0x100000`.
unfoldable pub offset : ℕ → ℕ → Option ℕ
offset p pages =
    if ltb (p + pages) (2 ^ 32)
    then (if ltb (p + pages) (2 ^ 20) then some (p + pages) else none)
    else none

-- `FromUnsafeData for Option<MemoryBlockHeaderPtr>`: the outer `none` is an unaligned link.
unfoldable pub from_unsafe : ℕ → Option (Option ℕ)
from_unsafe raw =
    if raw % 4096 == 0
    then (if raw / 4096 == 0 then some none else some (some (raw / 4096)))
    else none

unfoldable pub into_unsafe : Option ℕ → ℕ
into_unsafe none = 0
into_unsafe (some p) = p * 4096 % 2 ^ 32

unfoldable pub assert_safe : ℕ → Run (Option ℕ)
assert_safe raw = expect (from_unsafe raw)

-- `next` and `prev` are raw links.
pub record BlockHeader : Type 0 where
  pub size : ℕ
  pub next : ℕ
  pub prev : ℕ

pub record RegionDesc : Type 0 where
  pub first : Option ℕ
  pub last : Option ℕ
  pub start : ℕ
  pub size : ℕ

abbrev pub is_ptr : Option ℕ → ℕ → Bool
is_ptr none p = false
is_ptr (some q) p = q == p

-- The block `p` gives way to `new` at the ends of the region's list.
abbrev pub replace_ends : RegionDesc → ℕ → Option ℕ → RegionDesc
replace_ends region p new = record region {
  first = if is_ptr region.first p then new else region.first;
  last = if is_ptr region.last p then new else region.last;
}

module _ {M : Type 0} (bo : ByteOrder) (mem : Memory M) where
  -- `MemoryBlockHeaderPtr::read`.
  unfoldable pub read_header : M → ℕ → Run BlockHeader
  read_header m p = do
    bytes ← mem.read m (p * 4096 % 2 ^ 32) 12
    ok (record {
      size = bo.read_u32 (take 4 bytes);
      next = bo.read_u32 (take 4 (drop 4 bytes));
      prev = bo.read_u32 (take 4 (drop 8 bytes));
    })

  -- `MemoryBlockHeaderPtr::write`; `write_u32_into` writes the words one behind the other.
  unfoldable pub write_header : M → ℕ → BlockHeader → Run M
  write_header m p h =
      mem.write m (p * 4096 % 2 ^ 32)
        (bo.write_u32 h.size ++ (bo.write_u32 h.next ++ bo.write_u32 h.prev))

  -- `KMM::init_region`: the whole region is one free block.
  unfoldable pub init_region : M → ℕ → ℕ → Run (RegionDesc × M)
  init_region m addr pages = do
    ptr ← expect (from_ptr addr)
    m' ←
        write_header m ptr
          (record { size = pages; next = into_unsafe none; prev = into_unsafe none })
    ok (record { first = some ptr; last = some ptr; start = addr; size = pages }, m')

  -- The rest of a block of `h.size` pages at `p` behind `pages` pages, if any.
  unfoldable pub split_block : M → ℕ → BlockHeader → ℕ → Run (Option ℕ × M)
  split_block m p h pages =
      if ltb 0 (h.size - pages)
      then (do
        new ← expect (offset p pages)
        m' ← write_header m new (record h { size = h.size - pages })
        ok (some new, m'))
      else ok (none, m)

  -- `KMM::allocate_linear`: the loop over the blocks from `cur` on, with fuel; the run that needs more
  -- is a panic here.
  unfoldable pub allocate_from : ℕ → RegionDesc → M → Option ℕ → ℕ → Run (Option ℕ × RegionDesc × M)
  unfolding split_block
  allocate_from zero region m cur pages = panic
  allocate_from (suc fuel) region m none pages = ok (none, region, m)
  allocate_from (suc fuel) region m (some p) pages = do
    h ← read_header m p
    if leb pages h.size
        then (do (new, m') ← split_block m p h pages; ok (some p, replace_ends region p new, m'))
        else (do next ← assert_safe h.next; allocate_from fuel region m next pages)

  unfoldable pub allocate_linear : ℕ → RegionDesc → M → ℕ → Run (Option ℕ × RegionDesc × M)
  allocate_linear fuel region m pages = allocate_from fuel region m region.first pages
