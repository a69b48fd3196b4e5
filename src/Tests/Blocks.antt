-- ===== src/Tests/Blocks.antt =====
-- Regions of kernel/src/memory/kmm.rs in a memory of eight pages.
use pomelo.Prelude.{ℕ, ◌/◌, ◌≡◌, refl, none, some, List, [], ◌∷◌, ◌++◌, arith, Returns}
use pomelo.Prelude.Buffer.{Buffer, little_endian, slice, splice}
use pomelo.Memory.Pages.{pages_memory, pages_read}
use pomelo.Memory.Kmm.{
  BlockHeader, RegionDesc, read_header, init_region, allocate_linear, into_unsafe,
}
use pomelo.Memory.Kmm.Chain.{Block, Ordered, Stands, Chain, first_fit}
use pomelo.Memory.Kmm.Region.{init_region-Chain}
use pomelo.Memory.Kmm.Allocate.{Given, page_of, allocate_linear-FirstFit, allocate_linear-Repeats}
use pomelo.Memory.Kmm.Free.{find_insertion_point}
use pomelo.Memory.Kmm.Free.Insertion.{Parts, find_insertion_point-Parts}

abbrev eight_pages : Buffer
eight_pages = record { len = 32768; at = λ i. 0 }

init_region-Chain_example :
    Returns
      (λ r.
        Chain little_endian pages_memory r.1 r.0.first
          (record { page = 4096 / 4096; header = record { size = 7; next = 0; prev = 0 } } ∷ []))
      (init_region little_endian pages_memory eight_pages 4096 7)
init_region-Chain_example =
    init_region-Chain little_endian pages_memory eight_pages 4096 7 refl (omega arith) (omega arith)
      (omega arith) (omega arith)

-- One page at 1 and four at 3.
abbrev one_page : Block
one_page = record { page = 1; header = record { size = 1; next = 12288; prev = 0 } }

abbrev four_pages : Block
four_pages = record { page = 3; header = record { size = 4; next = 0; prev = 4096 } }

abbrev header_words : BlockHeader → List ℕ
header_words h =
    little_endian.write_u32 h.size
    ++ (little_endian.write_u32 h.next ++ little_endian.write_u32 h.prev)

abbrev two_blocks : Buffer
two_blocks = record {
  len = 32768;
  at =
      splice (splice (λ i. 0) 4096 (header_words one_page.header)) 12288
        (header_words four_pages.header);
}

abbrev region : RegionDesc
region = record { first = some 1; last = some 3; start = 4096; size = 7 }

abbrev blocks : List Block
blocks = one_page ∷ four_pages ∷ []

blocks-Ordered : Ordered blocks
blocks-Ordered = ((omega arith, tt), (tt, tt))

one_page-Stands : Stands little_endian pages_memory two_blocks one_page
unfolding read_header pages_read slice splice
one_page-Stands = record {
  paged = omega arith;
  sized = omega arith;
  bounded = omega arith;
  backed = omega arith;
  words = (omega arith, omega arith, omega arith);
  stored = refl;
}

four_pages-Stands : Stands little_endian pages_memory two_blocks four_pages
unfolding read_header pages_read slice splice
four_pages-Stands = record {
  paged = omega arith;
  sized = omega arith;
  bounded = omega arith;
  backed = omega arith;
  words = (omega arith, omega arith, omega arith);
  stored = refl;
}

blocks-Chain : Chain little_endian pages_memory two_blocks region.first blocks
unfolding into_unsafe
blocks-Chain = (
  refl,
  one_page-Stands,
  (some 3, refl, (omega arith, omega arith), (refl, four_pages-Stands, (none, refl, tt, tt))),
)

allocate_linear-FirstFit_example :
    Returns
      (Given little_endian pages_memory blocks 2)
      (allocate_linear little_endian pages_memory 3 region two_blocks 2)
allocate_linear-FirstFit_example =
    allocate_linear-FirstFit little_endian pages_memory 3 region two_blocks 2 blocks (omega arith)
      (omega arith) blocks-Ordered blocks-Chain

allocate_linear-Repeats_example :
    Returns
      (λ r.
        (r.0 ≡ page_of (first_fit (four_pages ∷ []) 2))
        × Returns (λ s. s.0 ≡ r.0) (allocate_linear little_endian pages_memory 3 r.1 r.2 2))
      (allocate_linear little_endian pages_memory 3 region two_blocks 2)
allocate_linear-Repeats_example =
    allocate_linear-Repeats little_endian pages_memory 3 region two_blocks 2 one_page
      (four_pages ∷ []) (omega arith) (omega arith) (omega arith) blocks-Ordered blocks-Chain

find_insertion_point-Parts_example :
    Returns
      (Parts blocks 2 none)
      (find_insertion_point little_endian pages_memory 3 region two_blocks 2)
find_insertion_point-Parts_example =
    find_insertion_point-Parts little_endian pages_memory 3 region two_blocks 2 blocks (omega arith)
      blocks-Chain
