-- ===== src/Kernel/Ports/Padded.antt =====
-- kernel/src/lib.rs: `short_name`, by the byte at each place.
use pomelo.Prelude.{ℕ, zero, suc, ◌<◌, ◌≡◌, sym, ap, ◌∙◌, List, [], ◌∷◌, get_or, arith, refl}
use mathlib.Core.Path.{ap₂}
use pomelo.Prelude.Buffer.{slice}
use pomelo.Kernel.Ports.{padded}

-- The byte at a place of a name, or 0 behind its end.
abbrev pub byte_at : List ℕ → ℕ → ℕ
byte_at name i = get_or name i 0

slice-suc : (f : ℕ → ℕ) (p n : ℕ) → slice f (suc p) n ≡ slice (λ i. f (suc i)) p n
unfolding slice
slice-suc f p zero = refl
slice-suc f p (suc n) = ap (λ l. f (suc p) ∷ l) (slice-suc f (suc p) n)

pub padded-slice : (n : ℕ) (name : List ℕ) → padded n name ≡ slice (byte_at name) 0 n
unfolding padded slice
padded-slice zero name = refl
padded-slice (suc n) [] = ap (λ l. 0 ∷ l) (padded-slice n [] ∙ sym (slice-suc (byte_at []) 0 n))
padded-slice (suc n) (b ∷ bs) =
    ap (λ l. b ∷ l) (padded-slice n bs ∙ sym (slice-suc (byte_at (b ∷ bs)) 0 n))

pub get_or-padded :
    (n : ℕ) (name : List ℕ) (i : ℕ) → i < n → get_or (padded n name) i 0 ≡ byte_at name i
unfolding padded
get_or-padded zero name i h = ground arith
get_or-padded (suc n) [] zero h = refl
get_or-padded (suc n) [] (suc i) h = get_or-padded n [] i (omega arith)
get_or-padded (suc n) (b ∷ bs) zero h = refl
get_or-padded (suc n) (b ∷ bs) (suc i) h = get_or-padded n bs i (omega arith)

-- Names with the same bytes at the first places are padded to the same.
pub padded_eq :
    (n : ℕ) (a b : List ℕ) → ((i : ℕ) → i < n → byte_at a i ≡ byte_at b i) → padded n a ≡ padded n b
unfolding padded
padded_eq zero a b h = refl
padded_eq (suc n) [] [] h = refl
padded_eq (suc n) [] (y ∷ ys) h =
    ap₂ ◌∷◌ (h 0 (omega arith)) (padded_eq n [] ys (λ i lt. h (suc i) (omega arith)))
padded_eq (suc n) (x ∷ xs) [] h =
    ap₂ ◌∷◌ (h 0 (omega arith)) (padded_eq n xs [] (λ i lt. h (suc i) (omega arith)))
padded_eq (suc n) (x ∷ xs) (y ∷ ys) h =
    ap₂ ◌∷◌ (h 0 (omega arith)) (padded_eq n xs ys (λ i lt. h (suc i) (omega arith)))
