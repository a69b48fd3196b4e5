-- ===== src/Prelude/Buffer.antt =====
-- Byte buffers, and words in them by a byte order that the byteorder crate gives.
use Prim.Native.Nat.{ℕ, zero, suc, ◌+◌, ◌-◌, ◌%◌, ◌/◌, ◌*◌, ◌^◌, ◌≤◌, ◌<◌}
use mathlib.Core.Path.{◌≡◌, refl, ap, ap₂, ◌∙◌}
use mathlib.Core.Logic.{◌⊎◌}
use mathlib.Core.Bool.{true, ◌&&◌}
use mathlib.Core.List.{List, [], ◌∷◌}
use native.Mathlib.Omega.{arith}
use pomelo.Prelude.Tests.{leb, ltb, if◌then◌else◌}
use pomelo.Prelude.Lists.{length, get_or}
use pomelo.Prelude.Panics.{Run, ok, panic}

-- A length and the byte at each place.
pub record Buffer : Type 0 where
  pub len : ℕ
  pub at : ℕ → ℕ

unfoldable pub slice : (ℕ → ℕ) → ℕ → ℕ → List ℕ
slice f pos zero = []
slice f pos (suc n) = f pos ∷ slice f (suc pos) n

-- `copy_from_slice` at a place.
unfoldable pub splice : (ℕ → ℕ) → ℕ → List ℕ → ℕ → ℕ
splice f pos bytes i =
    if leb pos i && ltb i (pos + length bytes) then get_or bytes (i - pos) 0 else f i

slice-eq :
    (f g : ℕ → ℕ) (pos n : ℕ)
    → ((i : ℕ) → pos ≤ i → i < pos + n → f i ≡ g i)
    → slice f pos n ≡ slice g pos n
unfolding slice
slice-eq f g pos zero h = refl
slice-eq f g pos (suc n) h =
    ap₂ ◌∷◌ (h pos (omega arith) (omega arith))
      (slice-eq f g (suc pos) n (λ i lo hi. h i (omega arith) (omega arith)))

pub slice-splice_apart :
    (f : ℕ → ℕ) (pos : ℕ) (bytes : List ℕ) (p n : ℕ)
    → (p + n ≤ pos) ⊎ (pos + length bytes ≤ p)
    → slice (splice f pos bytes) p n ≡ slice f p n
unfolding splice
slice-splice_apart f pos bytes p n apart = slice-eq _ f p n (λ i lo hi. ground arith)

slice-get_or :
    (f : ℕ → ℕ) (bytes : List ℕ) (pos : ℕ)
    → ((i : ℕ) → i < length bytes → f (pos + i) ≡ get_or bytes i 0)
    → slice f pos (length bytes) ≡ bytes
unfolding slice
slice-get_or f [] pos h = refl
slice-get_or f (b ∷ bs) pos h =
    ap₂ ◌∷◌ (ap f (omega arith) ∙ h 0 (omega arith))
      (slice-get_or f bs (suc pos) (λ i lt. ap f (omega arith) ∙ h (suc i) (omega arith)))

pub slice-splice_self :
    (f : ℕ → ℕ) (pos : ℕ) (bytes : List ℕ) → slice (splice f pos bytes) pos (length bytes) ≡ bytes
unfolding splice
slice-splice_self f pos bytes = slice-get_or _ bytes pos (λ i lt.
    let e : pos + i - pos ≡ i = omega arith in
    let inside : (leb pos (pos + i) && ltb (pos + i) (pos + length bytes)) ≡ true = ground arith in
    rw (inside, e) refl)

-- What the program uses of the byteorder crate's `LittleEndian`: a word is written as four bytes, and
-- reading them gives the word.
pub record ByteOrder : Type 0 where
  pub read_u32 : List ℕ → ℕ
  pub write_u32 : ℕ → List ℕ
  pub length-write_u32 : (w : ℕ) → length (write_u32 w) ≡ 4
  pub read_u32-write_u32 : (w : ℕ) → w < 2 ^ 32 → read_u32 (write_u32 w) ≡ w

module _ (bo : ByteOrder) where
  abbrev pub word_at : Buffer → ℕ → ℕ
  word_at b pos = bo.read_u32 (slice b.at pos 4)

  -- `Cursor::read_u32::<LittleEndian>().unwrap()` and `write_u32`, at the cursor's place.
  unfoldable pub get_word : Buffer → ℕ → Run ℕ
  get_word b pos = if leb (pos + 4) b.len then ok (word_at b pos) else panic

  abbrev pub with_word : Buffer → ℕ → ℕ → Buffer
  with_word b pos w = record b { at = splice b.at pos (bo.write_u32 w) }

  unfoldable pub put_word : Buffer → ℕ → ℕ → Run Buffer
  put_word b pos w = if leb (pos + 4) b.len then ok (with_word b pos w) else panic

  pub word_at_self : (b : Buffer) (pos w : ℕ) → w < 2 ^ 32 → word_at (with_word b pos w) pos ≡ w
  word_at_self b pos w h =
      ap bo.read_u32 (rw (← bo.length-write_u32 w) (slice-splice_self b.at pos (bo.write_u32 w)))
      ∙ bo.read_u32-write_u32 w h

  pub word_at-apart :
      (b : Buffer) (pos w p : ℕ)
      → (p + 4 ≤ pos) ⊎ (pos + 4 ≤ p)
      → word_at (with_word b pos w) p ≡ word_at b p
  word_at-apart b pos w p apart =
      ap bo.read_u32
        (slice-splice_apart b.at pos (bo.write_u32 w) p 4 (rw (bo.length-write_u32 w) apart))

-- The little-endian order itself.
abbrev pub little_endian : ByteOrder
little_endian = record {
  read_u32 =
      λ bs. get_or bs 0 0 + 256 * (get_or bs 1 0 + 256 * (get_or bs 2 0 + 256 * get_or bs 3 0));
  write_u32 = λ w. w % 256 ∷ w / 256 % 256 ∷ w / 65536 % 256 ∷ w / 16777216 % 256 ∷ [];
  length-write_u32 = λ w. refl;
  read_u32-write_u32 = λ w h. omega arith;
}
