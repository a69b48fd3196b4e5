-- ===== src/Memory/Kmm/Free.antt =====
-- kernel/src/memory/kmm.rs: `KMM::free` with the search for the insertion point and the merging of
-- neighbours.
pub mod Insertion
use pomelo.Prelude.{
  ℕ, zero, suc, ◌+◌, ◌%◌, ◌^◌, Bool, true, false, Option, none, some, Run, ok, panic, ◌>>=◌, expect,
  ltb, ◌==◌, if◌then◌else◌, is_some,
}
use pomelo.Prelude.Buffer.{ByteOrder}
use pomelo.Memory.Interface.{Memory}
use pomelo.Memory.Kmm.{
  BlockHeader, RegionDesc, read_header, write_header, into_unsafe, assert_safe, from_ptr, offset,
}

pub data BlockInsertionPoint : Type 0 where
  first : BlockInsertionPoint
  between : ℕ → Option ℕ → BlockInsertionPoint

-- Where the search stops, behind `prev` and before `next`.
abbrev pub insertion_point : Option ℕ → Option ℕ → BlockInsertionPoint
insertion_point none next = BlockInsertionPoint.first
insertion_point (some prev) next = BlockInsertionPoint.between prev next

module _ {M : Type 0} (bo : ByteOrder) (mem : Memory M) where
  -- The loop of `find_insertion_point`, with fuel; the run that needs more is a panic here.
  unfoldable pub find_from : ℕ → M → Option ℕ → Option ℕ → ℕ → Run BlockInsertionPoint
  find_from zero m cur prev addr = panic
  find_from (suc fuel) m none prev addr = ok (insertion_point prev none)
  find_from (suc fuel) m (some ptr) prev addr =
      if ltb addr ptr then ok (insertion_point prev (some ptr)) else (do
        h ← read_header bo mem m ptr
        next ← assert_safe h.next
        find_from fuel m next (some ptr) addr)

  unfoldable pub find_insertion_point : ℕ → RegionDesc → M → ℕ → Run BlockInsertionPoint
  find_insertion_point fuel region m addr = find_from fuel m region.first none addr

  -- The new next block is told that `ptr` is before it.
  unfoldable pub link_next : RegionDesc → M → ℕ → Option ℕ → Run (RegionDesc × M)
  link_next region m ptr none = ok (record region { last = some ptr }, m)
  link_next region m ptr (some p) = do
    h ← read_header bo mem m p
    m' ← write_header bo mem m p (record h { prev = into_unsafe (some ptr) })
    ok (region, m')

  -- The next block becomes a part of the block at `ptr`.
  unfoldable pub merge_with :
      RegionDesc → M → ℕ → BlockHeader → ℕ → Run (Bool × BlockHeader × RegionDesc × M)
  merge_with region m ptr cur next_ptr = do
    next ← read_header bo mem m next_ptr
    after ← assert_safe next.next
    (region', m') ← link_next region m ptr after
    ok (
      true,
      record { size = (cur.size + next.size) % 2 ^ 32; next = next.next; prev = cur.prev },
      region',
      m',
    )

  unfoldable pub merge_right :
      RegionDesc → M → ℕ → BlockHeader → Run (Bool × BlockHeader × RegionDesc × M)
  merge_right region m ptr cur = do
    cur_next ← assert_safe cur.next
    elim (offset ptr cur.size) [
      | none ↦ ok (false, cur, region, m)
      | some end ↦ elim cur_next [
        | none ↦ ok (false, cur, region, m)
        | some next ↦
            if next == end then merge_with region m ptr cur next else ok (false, cur, region, m)
      ]
    ]

  -- A merge that took place is written back.
  unfoldable pub merge_and_write :
      RegionDesc → M → ℕ → BlockHeader → Run (BlockHeader × RegionDesc × M)
  merge_and_write region m ptr cur = do
    (merged, cur', region', m') ← merge_right region m ptr cur
    if merged
        then (do written ← write_header bo mem m' ptr cur'; ok (cur', region', written))
        else ok (cur', region', m')

  unfoldable pub coalesce : RegionDesc → M → ℕ → Run (RegionDesc × M)
  coalesce region m ptr = do
    cur ← read_header bo mem m ptr
    (cur', region', m') ← merge_and_write region m ptr cur
    before ← assert_safe cur'.prev
    elim before [
      | none ↦ ok (region', m')
      | some p ↦ do
        prev ← read_header bo mem m' p
        (prev', region'', m'') ← merge_and_write region' m' p prev
        ok (region'', m'')
    ]

  -- The block before, or behind, is told of the freed block.
  unfoldable pub link_prev : M → ℕ → ℕ → Run M
  link_prev m prev ptr = do
    h ← read_header bo mem m prev
    write_header bo mem m prev (record h { next = into_unsafe (some ptr) })

  -- The links of the freed block, and what the insertion changes around it.
  unfoldable pub insert_at :
      BlockInsertionPoint → RegionDesc → M → ℕ → ℕ → Run (BlockHeader × RegionDesc × M)
  insert_at BlockInsertionPoint.first region m ptr pages = ok (
    record { size = pages; next = into_unsafe region.first; prev = into_unsafe none },
    record region {
      first = some ptr;
      last = if is_some region.last then region.last else some ptr;
    },
    m,
  )
  insert_at (BlockInsertionPoint.between prev next) region m ptr pages = do
    m' ← link_prev m prev ptr
    (region', m'') ← link_next region m' ptr next
    ok (
      record { size = pages; next = into_unsafe next; prev = into_unsafe (some prev) },
      region',
      m'',
    )

  unfoldable pub free : ℕ → RegionDesc → M → ℕ → ℕ → Run (RegionDesc × M)
  free fuel region m addr pages = do
    ptr ← expect (from_ptr addr)
    point ← find_insertion_point fuel region m ptr
    (h, region', m') ← insert_at point region m ptr pages
    written ← write_header bo mem m' ptr h
    coalesce region' written ptr
