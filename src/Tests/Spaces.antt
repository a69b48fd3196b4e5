-- ===== src/Tests/Spaces.antt =====
-- Two spans of kernel/src/memory/virt.rs: one page at 16, and two pages at 32.
use pomelo.Prelude.{ℕ, ◌+◌, ◌*◌, ◌%◌, ◌≡◌, refl, [], ◌∷◌, arith, ok, inr}
use pomelo.Prelude.Buffer.{Buffer, splice}
use pomelo.Memory.Pages.{pages_memory}
use pomelo.Memory.Virtual.{PageSpan, Spans, insert, lookup, write}
use pomelo.Memory.Virtual.Lookup.{Separate, holder, lookup-holder}
use pomelo.Memory.Virtual.Access.{InSpan, write-Spliced}

abbrev pages : ℕ → PageSpan Buffer ℕ
pages n = record { size = n; backing = record { len = n * 4096; at = λ i. 0 }; tag = 0 }

abbrev space : Spans Buffer ℕ
space = (32, pages 2) ∷ (16, pages 1) ∷ []

space-Separate : Separate space
space-Separate =
    ((omega arith, omega arith), (inr (omega arith), tt), ((omega arith, omega arith), tt, tt))

lookup-holder_example : lookup space 33 ≡ holder space 33
lookup-holder_example = lookup-holder space 33 space-Separate

in_pages : InSpan (pages 2) 135172 1 3
in_pages = record {
  some_bytes = omega arith;
  address = omega arith;
  pages = omega arith;
  room = omega arith;
}

write-Spliced_example :
    (m : Buffer) × (write pages_memory 1 space 135172 (7 ∷ 8 ∷ 9 ∷ [])
      ≡ ok (insert 32 (record (pages 2) { backing = m }) space))
    × (m.at ≡ splice (λ i. 0) (1 * 4096 + 135172 % 4096) (7 ∷ 8 ∷ 9 ∷ []))
write-Spliced_example =
    write-Spliced pages_memory 0 space 135172 (7 ∷ 8 ∷ 9 ∷ []) 32 (pages 2) 1 space-Separate refl
      in_pages (omega arith)
