-- ===== src/Memory/Kmm/Free/Insertion.antt =====
-- kernel/src/memory/kmm.rs: where `find_insertion_point` puts a freed block.
use mathlib.Core.Path.{subst}
use pomelo.Prelude.{
  ℕ, zero, suc, ◌≤◌, ◌<◌, ◌≡◌, inl, inr, Bool-cases, refl, sym, ap, ◌∙◌, Option, none, some, List,
  [], ◌∷◌, ◌++◌, All, length, Returns, returns, Returns-mono, arith, ltb,
}
use pomelo.Prelude.Buffer.{ByteOrder}
use pomelo.Memory.Interface.{Memory}
use pomelo.Memory.Kmm.{RegionDesc, assert_safe}
use pomelo.Memory.Kmm.Header.{assert_safe-into_unsafe}
use pomelo.Memory.Kmm.Chain.{Block, Chain}
use pomelo.Memory.Kmm.Free.{BlockInsertionPoint, insertion_point, find_from, find_insertion_point}

abbrev pub first_page : List Block → Option ℕ
first_page [] = none
first_page (b ∷ bs) = some b.page

abbrev pub last_page : Option ℕ → List Block → Option ℕ
last_page prev [] = prev
last_page prev (b ∷ bs) = last_page (some b.page) bs

-- The first of the blocks, if any, starts behind `addr`.
abbrev pub StartsBehind : ℕ → List Block → Type 0
StartsBehind addr [] = Unit {0}
StartsBehind addr (b ∷ bs) = addr < b.page

-- The point parts the blocks at `addr`: none of those before it starts behind `addr`, and the next does.
pub record Parts (bs : List Block) (addr : ℕ) (prev : Option ℕ) (point : BlockInsertionPoint)
    : Type 0 where
  pub before : List Block
  pub behind : List Block
  pub parted : bs ≡ before ++ behind
  pub none_behind : All (λ b. b.page ≤ addr) before
  pub next_behind : StartsBehind addr behind
  pub is_point : point ≡ insertion_point (last_page prev before) (first_page behind)

module _ {M : Type 0} (bo : ByteOrder) (mem : Memory M) where
  find_from-Parts :
      (fuel : ℕ) (m : M) (cur prev : Option ℕ) (addr : ℕ) (bs : List Block)
      → length bs < fuel
      → Chain bo mem m cur bs
      → Returns (Parts bs addr prev) (find_from bo mem fuel m cur prev addr)
  unfolding find_from
  find_from-Parts zero m cur prev addr bs lt c = absurd (omega arith)
  find_from-Parts (suc fuel) m none prev addr [] lt c = returns (record {
    before = [];
    behind = [];
    parted = refl;
    none_behind = tt;
    next_behind = tt;
    is_point = refl;
  })
  find_from-Parts (suc fuel) m none prev addr (b ∷ bs) lt c = absurd c
  find_from-Parts (suc fuel) m (some p) prev addr [] lt c = absurd c
  find_from-Parts (suc fuel) m (some p) prev addr (b ∷ bs) lt (e, s, (link, at, is, rest)) =
      subst
        (λ q. Returns (Parts (b ∷ bs) addr prev) (find_from bo mem (suc fuel) m (some q) prev addr))
        (sym e)
        (elim (Bool-cases (ltb addr b.page)) [
          | inl t ↦
              rw (t, find_from)
                (returns (record {
                  before = [];
                  behind = b ∷ bs;
                  parted = refl;
                  none_behind = tt;
                  next_behind = ground arith;
                  is_point = refl;
                }))
          | inr f ↦
              rw (f, s.stored, ap assert_safe at ∙ assert_safe-into_unsafe link is, find_from)
                (Returns-mono (find_from-Parts fuel m link (some b.page) addr bs (omega arith) rest)
                  (λ point p. record {
                    before = b ∷ p.before;
                    behind = p.behind;
                    parted = ap (λ r. b ∷ r) p.parted;
                    none_behind = (ground arith, p.none_behind);
                    next_behind = p.next_behind;
                    is_point = p.is_point;
                  }))
        ])

  -- On a region whose list has fewer blocks than the fuel, `find_insertion_point` does not panic. The point
  -- parts the list in two: no block of the first part starts behind `addr`, the first of the second part
  -- does if there is one, and the point is between the last of the first part and the first of the second,
  -- or at the front of the list if the first part is empty.
  pub find_insertion_point-Parts :
      (fuel : ℕ) (region : RegionDesc) (m : M) (addr : ℕ) (bs : List Block)
      → length bs < fuel
      → Chain bo mem m region.first bs
      → Returns (Parts bs addr none) (find_insertion_point bo mem fuel region m addr)
  unfolding find_insertion_point
  find_insertion_point-Parts fuel region m addr bs lt c =
      find_from-Parts fuel m region.first none addr bs lt c
