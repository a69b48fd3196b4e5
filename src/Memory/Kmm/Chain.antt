-- ===== src/Memory/Kmm/Chain.antt =====
-- kernel/src/memory/kmm.rs: the list of a region's free blocks as it lies in memory.
use mathlib.Core.Path.{subst}
use pomelo.Prelude.{
  ℕ, ◌+◌, ◌*◌, ◌≤◌, ◌<◌, ◌≡◌, ◌⊎◌, inl, inr, Bool-cases, ◌≢◌, ap, ◌∙◌, Option, none, some, List, [],
  ◌∷◌, All, All-map, ok, arith, leb, if◌then◌else◌,
}
use pomelo.Prelude.Buffer.{ByteOrder}
use pomelo.Memory.Interface.{Memory}
use pomelo.Memory.Kmm.{BlockHeader, read_header, into_unsafe}
use pomelo.Memory.Kmm.Header.{IsLink, Inside, Fits32, Stored}

pub record Block : Type 0 where
  pub page : ℕ
  pub header : BlockHeader

-- Blocks in the order of their addresses, none over another.
abbrev pub Ordered : List Block → Type 0
Ordered [] = Unit {0}
Ordered (b ∷ bs) = All (λ c. b.page + b.header.size ≤ c.page) bs × Ordered bs

-- The first block of at least so many pages.
abbrev pub first_fit : List Block → ℕ → Option Block
first_fit [] pages = none
first_fit (b ∷ bs) pages = if leb pages b.header.size then some b else first_fit bs pages

module _ {M : Type 0} (bo : ByteOrder) (mem : Memory M) where
  -- The block's pages are pages of the memory, and its header is in its first bytes.
  pub record Stands (m : M) (b : Block) : Type 0 where
    pub paged : 0 < b.page
    pub sized : 0 < b.header.size
    pub bounded : b.page + b.header.size ≤ 1048576
    pub backed : (b.page + b.header.size) * 4096 ≤ mem.size m
    pub words : Fits32 bo mem b.header
    pub stored : read_header bo mem m b.page ≡ ok b.header

  -- The links from `cur` on lead through the blocks.
  abbrev pub Chain : M → Option ℕ → List Block → Type 0
  Chain m none [] = Unit {0}
  Chain m none (b ∷ bs) = ⊥
  Chain m (some p) [] = ⊥
  Chain m (some p) (b ∷ bs) =
      (p ≡ b.page)
      × Stands m b
      × ((link : Option ℕ) × (b.header.next ≡ into_unsafe link) × IsLink link × Chain m link bs)

  pub Stands-Stored :
      (m : M) (q : ℕ) (h : BlockHeader) (n : M) (b : Block)
      → Stored bo mem m q h n
      → b.page ≢ q
      → Stands m b
      → Stands n b
  Stands-Stored m q h n b st ne s =
      let inside : Inside bo mem m b.page =
        ((s.paged, omega (arith, s.sized, s.bounded)), omega (arith, s.sized, s.backed)) in
      record {
        paged = s.paged;
        sized = s.sized;
        bounded = s.bounded;
        words = s.words;
        backed = rw (st.same_size) s.backed;
        stored = st.elsewhere b.page ne inside ∙ s.stored;
      }

  pub Chain-Stored :
      (m : M) (q : ℕ) (h : BlockHeader) (n : M)
      → Stored bo mem m q h n
      → (cur : Option ℕ) (bs : List Block) → All (λ c. c.page ≢ q) bs
      → Chain m cur bs
      → Chain n cur bs
  Chain-Stored m q h n st none [] ne c = tt
  Chain-Stored m q h n st none (b ∷ bs) ne c = absurd c
  Chain-Stored m q h n st (some p) [] ne c = absurd c
  Chain-Stored m q h n st (some p) (b ∷ bs) ne c =
      let (e, s, (link, at, is, rest)) = c in
      (
        e,
        Stands-Stored m q h n b st ne.0 s,
        (link, at, is, Chain-Stored m q h n st link bs ne.1 rest),
      )

some-inj : (a b : Block) → some a ≡ some b → a ≡ b
some-inj a b e = ap (λ o. elim o [ none ↦ a | some x ↦ x ]) e

-- The first fit is the head, or it is the first fit of the rest.
pub first_fit-cases :
    (pages : ℕ) (c : Block) (cs : List Block) (b : Block)
    → first_fit (c ∷ cs) pages ≡ some b
    → ((pages ≤ c.header.size) × (c ≡ b))
      ⊎ ((c.header.size < pages) × (first_fit cs pages ≡ some b))
first_fit-cases pages c cs b e = elim (Bool-cases (leb pages c.header.size)) [
  | inl t ↦ inl (ground arith, some-inj c b (rw t at e))
  | inr f ↦ inr (ground arith, rw f at e)
]

pub first_fit-All :
    (P : Block → Type 0) (pages : ℕ) (bs : List Block) (b : Block)
    → All P bs
    → first_fit bs pages ≡ some b
    → P b
first_fit-All P pages [] b h e = ground arith
first_fit-All P pages (c ∷ cs) b h e = elim (first_fit-cases pages c cs b e) [
  | inl t ↦ subst P t.1 h.0
  | inr f ↦ first_fit-All P pages cs b h.1 f.1
]

-- A block that is cut off behind the first `pages` pages of the first fit starts on no block's page.
pub first_fit-Apart :
    (pages : ℕ)
    → 0 < pages
    → (bs : List Block) (b : Block) → Ordered bs
    → All (λ c. 0 < c.header.size) bs
    → first_fit bs pages ≡ some b
    → pages < b.header.size
    → All (λ c. c.page ≢ b.page + pages) bs
first_fit-Apart pages pos [] b o sz e lt = tt
first_fit-Apart pages pos (c ∷ cs) b o sz e lt = elim (first_fit-cases pages c cs b e) [
  | inl t ↦
      let at : c.page ≡ b.page = ap Block.page t.1 in
      let size : c.header.size ≡ b.header.size = ap (λ d. d.header.size) t.1 in
      (
        λ same. omega arith,
        All-map (λ d. c.page + c.header.size ≤ d.page) (λ d. d.page ≢ b.page + pages) cs
            (λ d le same. omega arith) o.0,
      )
  | inr f ↦
      let after : c.page + c.header.size ≤ b.page =
        first_fit-All (λ d. c.page + c.header.size ≤ d.page) pages cs b o.0 f.1 in
      (λ same. omega (arith, sz.0, same), first_fit-Apart pages pos cs b o.1 sz.1 f.1 lt)
]
