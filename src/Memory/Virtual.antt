-- ===== src/Memory/Virtual.antt =====
-- kernel/src/memory/virt.rs: spans of pages at places of an address space.
pub mod Lookup
pub mod Access
use pomelo.Prelude.{
  ℕ, zero, suc, ◌+◌, ◌-◌, ◌*◌, ◌/◌, ◌%◌, ◌^◌, Bool, Option, none, some, List, [], ◌∷◌, ◌++◌, take,
  drop, length, Run, ok, panic, ◌>>=◌, expect, leb, ltb, ◌==◌, if◌then◌else◌, bit_or,
}
use pomelo.Memory.Interface.{Memory}

-- The kind of a span is always `Normal`. The size is in pages.
pub record PageSpan (M T : Type 0) : Type 0 where
  pub size : ℕ
  pub backing : M
  pub tag : T

-- `BTreeMap<u32, PageSpan>`, by the page that each span starts at.
abbrev pub Spans : Type 0 → Type 0 → Type 0
Spans M T = List (ℕ × PageSpan M T)

module _ {M T : Type 0} where
  -- `BTreeMap::insert`.
  unfoldable pub insert : ℕ → PageSpan M T → Spans M T → Spans M T
  insert k s [] = (k, s) ∷ []
  insert k s (x ∷ xs) = if x.0 == k then (k, s) ∷ xs else x ∷ insert k s xs

  -- Of the entry and an entry that may be found behind it, the one that starts later.
  abbrev pub later : ℕ × PageSpan M T → Option (ℕ × PageSpan M T) → ℕ × PageSpan M T
  later x none = x
  later x (some y) = if ltb x.0 y.0 then y else x

  -- `range((Included(&0), Included(&page))).rev().next()`: the last span that starts at `page` or before.
  unfoldable pub last_before : Spans M T → ℕ → Option (ℕ × PageSpan M T)
  last_before [] page = none
  last_before (x ∷ xs) page =
      if leb x.0 page then some (later x (last_before xs page)) else last_before xs page

  -- A span and the page in it, if it reaches so far; a sum of two `u32`.
  abbrev pub reaches : ℕ × PageSpan M T → ℕ → Option ((ℕ × PageSpan M T) × ℕ)
  reaches x page = if ltb page ((x.0 + x.1.size) % 2 ^ 32) then some (x, page - x.0) else none

  -- `lookup`, with the place of the span for a later write.
  unfoldable pub lookup : Spans M T → ℕ → Option ((ℕ × PageSpan M T) × ℕ)
  unfolding last_before
  lookup spans page = elim (last_before spans page) [ none ↦ none | some x ↦ reaches x page ]

  -- `map_memory`; `size_in_pages` is that of the memory.
  unfoldable pub map_memory : (M → ℕ) → Spans M T → ℕ → M → T → Spans M T
  map_memory size_in_pages spans addr mem tag =
      insert (addr / 4096) (record { size = size_in_pages mem; backing = mem; tag = tag }) spans

  -- How many of `rem` bytes a span gives from the page `offset` on, behind `page_offset` bytes of it.
  unfoldable pub in_span : PageSpan M T → ℕ → ℕ → ℕ → ℕ
  in_span item offset page_offset rem =
      let item_bytes = ((item.size - offset) * 4096 % 2 ^ 32 + 2 ^ 32 - page_offset) % 2 ^ 32 in
      if ltb rem item_bytes then rem else item_bytes

  module _ (mem : Memory M) where
    -- The loop of `read`, with fuel; the run that needs more is a panic here.
    unfoldable pub read_from : ℕ → Spans M T → ℕ → ℕ → ℕ → Run (List ℕ)
    read_from fuel spans addr page_offset zero = ok []
    read_from zero spans addr page_offset (suc rem) = panic
    read_from (suc fuel) spans addr page_offset (suc rem) = do
      ((start, item), offset) ← expect (lookup spans (addr / 4096))
      let n = in_span item offset page_offset (suc rem)
      bytes ← mem.read item.backing addr n
      more ← read_from fuel spans ((addr + n) % 2 ^ 32) 0 (suc rem - n)
      ok (bytes ++ more)

    unfoldable pub read : ℕ → Spans M T → ℕ → ℕ → Run (List ℕ)
    read fuel spans addr len = read_from fuel spans addr (addr % 4096) len

    -- The loop of `write`, with fuel.
    unfoldable pub write_from : ℕ → Spans M T → ℕ → ℕ → List ℕ → Run (Spans M T)
    write_from fuel spans addr page_offset [] = ok spans
    write_from zero spans addr page_offset (b ∷ bs) = panic
    write_from (suc fuel) spans addr page_offset (b ∷ bs) = do
      ((start, item), offset) ← expect (lookup spans (addr / 4096))
      let n = in_span item offset page_offset (length (b ∷ bs))
      m ← mem.write item.backing (bit_or (offset * 4096 % 2 ^ 32) (addr % 4096)) (take n (b ∷ bs))
      write_from fuel (insert start (record item { backing = m }) spans) ((addr + n) % 2 ^ 32) 0
          (drop n (b ∷ bs))

    unfoldable pub write : ℕ → Spans M T → ℕ → List ℕ → Run (Spans M T)
    write fuel spans addr bytes = write_from fuel spans addr (addr % 4096) bytes
