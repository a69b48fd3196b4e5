-- ===== src/Memory/Kmm/Allocate.antt =====
-- kernel/src/memory/kmm.rs: what `allocate_linear` gives and what it leaves of the region's list.
use mathlib.Core.Path.{subst}
use pomelo.Prelude.{
  ℕ, zero, suc, ◌+◌, ◌-◌, ◌^◌, ◌≤◌, ◌<◌, ◌≡◌, ◌≢◌, ◌⊎◌, inl, inr, Bool-cases, Option-cases, refl,
  sym, ap, ◌∙◌, Option, none, some, List, [], ◌∷◌, All, All-map, length, Returns, returns,
  Returns-bind, Returns-mono, arith, leb, ltb, ◌==◌, ==_of_eq, ==_of_ne, if◌then◌else◌, true, false,
}
use pomelo.Prelude.Buffer.{ByteOrder}
use pomelo.Memory.Interface.{Memory}
use pomelo.Memory.Kmm.{
  RegionDesc, offset, split_block, replace_ends, allocate_from, allocate_linear,
}
use pomelo.Memory.Kmm.Header.{Inside, Stored, write_header-Stored, assert_safe-into_unsafe}
use pomelo.Memory.Kmm.Chain.{
  Block, Ordered, first_fit, first_fit-All, first_fit-Apart, first_fit-cases, Stands, Chain,
  Chain-Stored,
}

-- The blocks behind an allocation: the head gives its first pages away and its rest is the head; from
-- any other block nothing is taken off the list, and a head that is used up takes the list with it.
abbrev pub left_over : List Block → ℕ → List Block
left_over [] pages = []
left_over (b ∷ bs) pages =
    if leb pages b.header.size
    then (if ltb pages b.header.size
        then record {
          page = b.page + pages;
          header = record b.header { size = b.header.size - pages };
        }
          ∷ bs
        else [])
    else b ∷ bs

abbrev pub page_of : Option Block → Option ℕ
page_of none = none
page_of (some b) = some b.page

left_over-none : (bs : List Block) (pages : ℕ) → first_fit bs pages ≡ none → left_over bs pages ≡ bs
left_over-none [] pages e = refl
left_over-none (c ∷ cs) pages e = elim (Bool-cases (leb pages c.header.size)) [
  | inl t ↦ absurd (elim (first_fit-cases pages c cs c (rw t refl)) [
    | inl x ↦ ground arith
    | inr y ↦ ground arith
  ])
  | inr f ↦ rw f refl
]

module _ {M : Type 0} (bo : ByteOrder) (mem : Memory M) where
  -- `rest` is what is left behind `pages` pages of the block `b`.
  abbrev Split : M → Block → ℕ → Option ℕ → M → Type 0
  Split m b pages rest n =
      ((pages < b.header.size)
        × (rest ≡ some (b.page + pages))
        × Stored bo mem m (b.page + pages) (record b.header { size = b.header.size - pages }) n)
      ⊎ ((b.header.size ≡ pages) × (rest ≡ none) × (n ≡ m))

  split_block-Split :
      (m : M) (b : Block) (pages : ℕ)
      → Stands bo mem m b
      → pages ≤ b.header.size
      → Returns (λ r. Split m b pages r.0 r.1) (split_block bo mem m b.page b.header pages)
  unfolding split_block offset
  split_block-Split m b pages s le = elim (Bool-cases (ltb 0 (b.header.size - pages))) [
    | inl t ↦
        let lt : pages < b.header.size = ground arith in
        let small : ltb (b.page + pages) (2 ^ 32) ≡ true = ground (arith, s.bounded) in
        let page : ltb (b.page + pages) (2 ^ 20) ≡ true = ground (arith, s.bounded) in
        let inside : Inside bo mem m (b.page + pages) =
          ((omega (arith, s.paged), omega (arith, s.bounded)), omega (arith, s.backed)) in
        rw (t, small, page)
          (Returns-bind
            (write_header-Stored bo mem m (b.page + pages)
              (record b.header { size = b.header.size - pages }) inside
              (omega (arith, s.words.0), s.words.1, s.words.2))
            (λ n st. returns (inl (lt, refl, st))))
    | inr f ↦ rw f (returns (inr (ground arith, refl, refl)))
  ]

  -- A run of the loop over the blocks from some place on.
  abbrev Took : RegionDesc → M → ℕ → Option Block → Option ℕ × RegionDesc × M → Type 0
  Took region m pages none r = (r.0 ≡ none) × (r.1 ≡ region) × (r.2 ≡ m)
  Took region m pages (some b) r =
      (r.0 ≡ some b.page)
      × ((rest : Option ℕ) × (r.1 ≡ replace_ends region b.page rest) × Split m b pages rest r.2)

  allocate_from-Took :
      (fuel : ℕ) (region : RegionDesc) (m : M) (pages : ℕ) (cur : Option ℕ) (bs : List Block)
      → length bs < fuel
      → Chain bo mem m cur bs
      → Returns
          (Took region m pages (first_fit bs pages))
          (allocate_from bo mem fuel region m cur pages)
  unfolding allocate_from
  allocate_from-Took zero region m pages cur bs lt c = absurd (omega arith)
  allocate_from-Took (suc fuel) region m pages none [] lt c = returns (refl, refl, refl)
  allocate_from-Took (suc fuel) region m pages none (b ∷ bs) lt c = absurd c
  allocate_from-Took (suc fuel) region m pages (some p) [] lt c = absurd c
  allocate_from-Took (suc fuel) region m pages (some p) (b ∷ bs) lt c =
      let (e, s, (link, at, is, rest)) = c in
      subst
        (λ q.
          Returns (Took region m pages (first_fit (b ∷ bs) pages))
            (allocate_from bo mem (suc fuel) region m (some q) pages))
        (sym e)
        (rw (s.stored, allocate_from)
          (elim (Bool-cases (leb pages b.header.size)) [
            | inl t ↦ rw t (
                Returns-bind (split_block-Split m b pages s (ground arith))
                  (λ r split. returns (refl, (r.0, refl, split))))
            | inr f ↦
                rw (f, at, assert_safe-into_unsafe link is)
                  (allocate_from-Took fuel region m pages link bs (omega arith) rest)
          ]))

  sizes :
      (m : M) (cur : Option ℕ) (bs : List Block)
      → Chain bo mem m cur bs
      → All (λ c. 0 < c.header.size) bs
  sizes m none [] c = tt
  sizes m none (b ∷ bs) c = absurd c
  sizes m (some p) [] c = absurd c
  sizes m (some p) (b ∷ bs) (e, s, (link, at, is, rest)) = (s.sized, sizes m link bs rest)

  -- The list behind an allocation from the head `c`.
  head_left :
      (m : M) (pages : ℕ) (c : Block) (cs : List Block) (p : ℕ) (rest : Option ℕ) (n : M)
      → 0 < pages
      → Ordered (c ∷ cs)
      → Chain bo mem m (some p) (c ∷ cs)
      → pages ≤ c.header.size
      → Split m c pages rest n
      → Chain bo mem n rest (left_over (c ∷ cs) pages)
  head_left m pages c cs p rest n pos o (e, s, (link, at, is, more)) fits (inl (lt, here, st)) =
      let small : leb pages c.header.size ≡ true = ground arith in
      let less : ltb pages c.header.size ≡ true = ground arith in
      let apart =
        All-map (λ d. c.page + c.header.size ≤ d.page) (λ d. d.page ≢ c.page + pages) cs
          (λ d le same. omega arith) o.0 in
      rw (here, small, less)
        (
          refl,
          record {
            paged = omega (arith, s.paged);
            sized = omega arith;
            bounded = omega (arith, s.bounded);
            backed = omega (arith, s.backed, st.same_size);
            words = (omega (arith, s.words.0), s.words.1, s.words.2);
            stored = st.here;
          },
          (link, at, is, Chain-Stored bo mem m _ _ n st link cs apart more),
        )
  head_left m pages c cs p rest n pos o chain fits (inr (same, gone, stays)) =
      let small : leb pages c.header.size ≡ true = ground arith in
      let less : ltb pages c.header.size ≡ false = ground arith in rw (gone, small, less) tt

  -- The list behind an allocation from a later block.
  later_left :
      (m : M) (pages : ℕ) (c : Block) (cs : List Block) (b : Block) (p : ℕ) (rest : Option ℕ)
      (n : M)
      → 0 < pages
      → Ordered (c ∷ cs)
      → Chain bo mem m (some p) (c ∷ cs)
      → first_fit (c ∷ cs) pages ≡ some b
      → Split m b pages rest n
      → Chain bo mem n (some p) (c ∷ cs)
  later_left m pages c cs b p rest n pos o chain fit (inl (lt, here, st)) =
      Chain-Stored bo mem m _ _ n st (some p) (c ∷ cs)
        (first_fit-Apart pages pos (c ∷ cs) b o (sizes m (some p) (c ∷ cs) chain) fit lt) chain
  later_left m pages c cs b p rest n pos o chain fit (inr (same, gone, stays)) =
      subst (λ k. Chain bo mem k (some p) (c ∷ cs)) (sym stays) chain

  abbrev pub Given : List Block → ℕ → Option ℕ × RegionDesc × M → Type 0
  Given bs pages r =
      (r.0 ≡ page_of (first_fit bs pages)) × Chain bo mem r.2 r.1.first (left_over bs pages)

  given_some :
      (region : RegionDesc) (m : M) (pages : ℕ) (bs : List Block) (b : Block)
      → 0 < pages
      → Ordered bs
      → Chain bo mem m region.first bs
      → first_fit bs pages ≡ some b
      → (r : Option ℕ × RegionDesc × M) → Took region m pages (some b) r
      → Chain bo mem r.2 r.1.first (left_over bs pages)
  given_some region m pages [] b pos o chain fit r took = ground arith
  given_some region m pages (c ∷ cs) b pos o chain fit r (is, (rest, ends, split)) =
      elim (Option-cases region.first) [
        | inl e ↦ absurd (rw e at chain)
        | inr (p, e) ↦
            let chain' = subst (λ l. Chain bo mem m l (c ∷ cs)) e chain in
            elim (first_fit-cases pages c cs b fit) [
              | inl (fits, same) ↦
                  let split' = subst (λ d. Split m d pages rest r.2) (sym same) split in
                  let hit : (p == b.page) ≡ true = ==_of_eq _ _ (chain'.0 ∙ ap Block.page same) in
                  rw (ends, e, hit) (head_left m pages c cs p rest r.2 pos o chain' fits split')
              | inr (short, fit') ↦
                  let behind =
                    first_fit-All (λ d. c.page + c.header.size ≤ d.page) pages cs b o.0 fit' in
                  let miss : (p == b.page) ≡ false =
                    ==_of_ne _ _ (λ at. omega (arith, chain'.0, chain'.1.sized, behind, at)) in
                  let small : leb pages c.header.size ≡ false = ground arith in
                  rw (ends, e, miss, small)
                    (later_left m pages c cs b p rest r.2 pos o chain' fit split)
            ]
      ]

  given :
      (region : RegionDesc) (m : M) (pages : ℕ) (bs : List Block)
      → 0 < pages
      → Ordered bs
      → Chain bo mem m region.first bs
      → (r : Option ℕ × RegionDesc × M) → Took region m pages (first_fit bs pages) r
      → Given bs pages r
  given region m pages bs pos o chain r took = elim (Option-cases (first_fit bs pages)) [
    | inl e ↦
        let t = subst (λ f. Took region m pages f r) e took in
        rw (e, left_over-none bs pages e, t.1, t.2) (t.0, chain)
    | inr (b, e) ↦
        let t = subst (λ f. Took region m pages f r) e took in
        rw e (t.0, given_some region m pages bs b pos o chain e r t)
  ]

  -- On a list of blocks in the order of their addresses, with more fuel than blocks, `allocate_linear`
  -- for at least one page does not panic. It gives the page of the first block that is large enough, and
  -- nothing if there is none, and the region's list is then `left_over`.
  pub allocate_linear-FirstFit :
      (fuel : ℕ) (region : RegionDesc) (m : M) (pages : ℕ) (bs : List Block)
      → length bs < fuel
      → 0 < pages
      → Ordered bs
      → Chain bo mem m region.first bs
      → Returns (Given bs pages) (allocate_linear bo mem fuel region m pages)
  unfolding allocate_linear
  allocate_linear-FirstFit fuel region m pages bs enough pos o chain =
      Returns-mono (allocate_from-Took fuel region m pages region.first bs enough chain)
        (λ r took. given region m pages bs pos o chain r took)

  -- If the first block of the region is too small, two allocations of so many pages, one behind the
  -- other and with nothing freed between them, give the same page: the code takes no block but the
  -- first off the list.
  pub allocate_linear-Repeats :
      (fuel : ℕ) (region : RegionDesc) (m : M) (pages : ℕ) (b : Block) (bs : List Block)
      → length (b ∷ bs) < fuel
      → 0 < pages
      → b.header.size < pages
      → Ordered (b ∷ bs)
      → Chain bo mem m region.first (b ∷ bs)
      → Returns
          (λ r.
            (r.0 ≡ page_of (first_fit bs pages))
            × Returns (λ s. s.0 ≡ r.0) (allocate_linear bo mem fuel r.1 r.2 pages))
          (allocate_linear bo mem fuel region m pages)
  allocate_linear-Repeats fuel region m pages b bs enough pos short o chain =
      let small : leb pages b.header.size ≡ false = ground arith in
      Returns-mono (allocate_linear-FirstFit fuel region m pages (b ∷ bs) enough pos o chain)
        (λ r given'.
          let g : (r.0 ≡ page_of (first_fit bs pages)) × Chain bo mem r.2 r.1.first (b ∷ bs) =
            rw small at given' in
          (
            g.0,
            Returns-mono (allocate_linear-FirstFit fuel r.1 r.2 pages (b ∷ bs) enough pos o g.1)
                (λ s again.
                  let h : s.0 ≡ page_of (first_fit bs pages) = rw small at again.0 in h ∙ sym g.0),
          ))
