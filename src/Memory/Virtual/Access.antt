-- ===== src/Memory/Virtual/Access.antt =====
-- kernel/src/memory/virt.rs: where a read and a write of one span go.
use pomelo.Prelude.{
  ℕ, zero, suc, ◌+◌, ◌-◌, ◌*◌, ◌/◌, ◌%◌, ◌^◌, ◌≤◌, ◌<◌, ◌≡◌, refl, ap, ◌∙◌, some, List, [], ◌∷◌,
  take, drop, length, ok, ◌>>=◌, ltb, if◌then◌else◌, bit_or, arith,
}
use pomelo.Prelude.Bits.{bit_or-low}
use pomelo.Prelude.Buffer.{Buffer, splice}
use pomelo.Memory.Interface.{Memory}
use pomelo.Memory.Virtual.{PageSpan, Spans, insert, lookup, in_span, write, write_from}
use pomelo.Memory.Virtual.Lookup.{Separate, holder, lookup-holder}

take_all : (xs : List ℕ) → take (length xs) xs ≡ xs
take_all [] = refl
take_all (x ∷ xs) = ap (λ r. x ∷ r) (take_all xs)

drop_all : (xs : List ℕ) → drop (length xs) xs ≡ []
drop_all [] = refl
drop_all (x ∷ xs) = drop_all xs

-- The bytes from `addr` on lie in the span: so many pages of it are left behind `offset` pages.
pub record InSpan {M T : Type 0} (item : PageSpan M T) (addr offset n : ℕ) : Type 0 where
  pub some_bytes : 0 < n
  pub address : addr < 2 ^ 32
  pub pages : item.size < 2 ^ 20
  pub room : addr % 4096 + n ≤ (item.size - offset) * 4096

in_span-all :
    {M T : Type 0} (item : PageSpan M T) (addr offset n : ℕ)
    → InSpan item addr offset n
    → in_span item offset (addr % 4096) n ≡ n
unfolding in_span
in_span-all item addr offset n s =
    let all : ((item.size - offset) * 4096 % 2 ^ 32 + 2 ^ 32 - addr % 4096) % 2 ^ 32
        ≡ (item.size - offset) * 4096 - addr % 4096 =
      omega (arith, s.pages, s.room) in
    rw all (whole ((item.size - offset) * 4096 - addr % 4096) (omega (arith, s.room)))
  where
    whole : (k : ℕ) → n ≤ k → (if ltb n k then n else k) ≡ n
    whole k le = ground arith

module _ {M T : Type 0} (mem : Memory M) where
  nothing_left :
      (fuel : ℕ) (spans : Spans M T) (addr : ℕ) → write_from mem fuel spans addr 0 [] ≡ ok spans
  unfolding write_from
  nothing_left zero spans addr = refl
  nothing_left (suc fuel) spans addr = refl

  one_step :
      (fuel : ℕ) (spans : Spans M T) (addr b : ℕ) (bs : List ℕ) (start : ℕ) (item : PageSpan M T)
      (offset : ℕ)
      → lookup spans (addr / 4096) ≡ some ((start, item), offset)
      → in_span item offset (addr % 4096) (length (b ∷ bs)) ≡ length (b ∷ bs)
      → write mem (suc fuel) spans addr (b ∷ bs) ≡ (
          mem.write item.backing
            (bit_or (offset * 4096 % 2 ^ 32) (addr % 4096))
            (take (length (b ∷ bs)) (b ∷ bs))
          >>= λ w.
              write_from mem fuel
                (insert start (record item { backing = w }) spans)
                ((addr + length (b ∷ bs)) % 2 ^ 32)
                0
                (drop (length (b ∷ bs)) (b ∷ bs)))
  unfolding write write_from
  one_step fuel spans addr b bs start item offset found n = rw found (
      ap
        (λ (k : ℕ).
          mem.write item.backing (bit_or (offset * 4096 % 2 ^ 32) (addr % 4096)) (take k (b ∷ bs))
          >>= λ w.
              write_from mem fuel (insert start (record item { backing = w }) spans)
                ((addr + k) % 2 ^ 32) 0 (drop k (b ∷ bs)))
        n)

  -- A write that lies in one span succeeds, and changes the span's memory at the place of the address in
  -- the span.
  pub write-Spliced :
      (fuel : ℕ) (spans : Spans M T) (addr : ℕ) (bytes : List ℕ) (start : ℕ) (item : PageSpan M T)
      (offset : ℕ)
      → Separate spans
      → holder spans (addr / 4096) ≡ some ((start, item), offset)
      → InSpan item addr offset (length bytes)
      → item.size * 4096 ≤ mem.size item.backing
      → (m : M) × (write mem (suc fuel) spans addr bytes
          ≡ ok (insert start (record item { backing = m }) spans))
        × (mem.content m ≡ splice (mem.content item.backing) (offset * 4096 + addr % 4096) bytes)
  unfolding write write_from
  write-Spliced fuel spans addr [] start item offset sep held s backed =
      absurd (omega (arith, s.some_bytes))
  write-Spliced fuel spans addr (b ∷ bs) start item offset sep held s backed =
      let found : lookup spans (addr / 4096) ≡ some ((start, item), offset) =
        lookup-holder spans (addr / 4096) sep ∙ held in
      let n : in_span item offset (addr % 4096) (length (b ∷ bs)) ≡ length (b ∷ bs) =
        in_span-all item addr offset (length (b ∷ bs)) s in
      let wrap : offset * 4096 % 2 ^ 32 ≡ offset * 4096 =
        omega (arith, s.pages, s.room, s.some_bytes) in
      let place : bit_or (offset * 4096) (addr % 4096) ≡ offset * 4096 + addr % 4096 =
        bit_or-low 12 offset (addr % 4096) (omega arith) in
      let (m, run, size, content) =
        mem.write-ok item.backing (offset * 4096 + addr % 4096) (b ∷ bs)
          (omega (arith, s.room, backed)) in
      let at = ap (λ x. bit_or x (addr % 4096)) wrap ∙ place in
      let stored =
        ap (λ a. mem.write item.backing a (take (length (b ∷ bs)) (b ∷ bs))) at
        ∙ ap (λ t. mem.write item.backing (offset * 4096 + addr % 4096) t) (take_all (b ∷ bs))
        ∙ run in
      let after = insert start (record item { backing = m }) spans in
      let goes_on = λ (w : M).
        write_from mem fuel (insert start (record item { backing = w }) spans)
          ((addr + length (b ∷ bs)) % 2 ^ 32) 0 (drop (length (b ∷ bs)) (b ∷ bs)) in
      (
        m,
        one_step fuel spans addr b bs start item offset found n
            ∙ ap (λ r. r >>= goes_on) stored
            ∙ ap (write_from mem fuel after ((addr + length (b ∷ bs)) % 2 ^ 32) 0)
                (drop_all (b ∷ bs))
            ∙ nothing_left fuel after ((addr + length (b ∷ bs)) % 2 ^ 32),
        content,
      )
