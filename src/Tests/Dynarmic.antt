-- ===== src/Tests/Dynarmic.antt =====
-- A guest's memory of bytes that are all mapped, and accesses to it.
use pomelo.Prelude.{
  ℕ, ◌+◌, ◌*◌, ◌/◌, ◌%◌, ◌<◌, ◌≡◌, refl, ap, Bool, true, List, [], ◌∷◌, All, ok, Returns, returns,
  ◌==◌, ==_self, ==_of_ne, if◌then◌else◌, arith,
}
use pomelo.Prelude.Buffer.{little_endian}
use pomelo.Guest.Dynarmic.{MemoryImpl, read_bytes, read, write_bytes, write}
use pomelo.Guest.Dynarmic.Paths.{WordsAreBytes, accesses_lem}
use pomelo.Guest.Dynarmic.Stored.{BytesAreKept, Stored, write-Stored}

abbrev put : (ℕ → ℕ) → ℕ → ℕ → ℕ → ℕ
put d a b c = if c == a then b else d c

abbrev byte_at : (ℕ → ℕ) → ℕ → ℕ
byte_at d a = d a % 256

abbrev word_at : (ℕ → ℕ) → ℕ → ℕ
word_at d a =
    byte_at d a + 256 * (byte_at d (a + 1) + 256 * (byte_at d (a + 2) + 256 * byte_at d (a + 3)))

abbrev flat : MemoryImpl (ℕ → ℕ)
flat = record {
  read_u8 = λ d a. ok (byte_at d a);
  write_u8 = λ d a b. ok (put d a (b % 256));
  read_u32 = λ d a. ok (word_at d a);
  write_u32 = λ d a w. ok (
      put
        (put (put (put d a (w % 256 % 256)) (a + 1) (w / 256 % 256 % 256)) (a + 2)
          (w / 65536 % 256 % 256))
        (a + 3) (w / 16777216 % 256 % 256));
  map_memory = λ d addr pages read_only. d;
}

four :
    {a0 a1 a2 a3 b0 b1 b2 b3 : ℕ}
    → a0 ≡ b0
    → a1 ≡ b1
    → a2 ≡ b2
    → a3 ≡ b3
    → (a0 ∷ a1 ∷ a2 ∷ a3 ∷ []) ≡ (b0 ∷ b1 ∷ b2 ∷ b3 ∷ [])
four e0 e1 e2 e3 = cc

bytes_of :
    (a b c d : ℕ)
    → a < 256
    → b < 256
    → c < 256
    → d < 256
    → little_endian.write_u32 (a + 256 * (b + 256 * (c + 256 * d))) ≡ (a ∷ b ∷ c ∷ d ∷ [])
bytes_of a b c d ha hb hc hd = four (omega arith) (omega arith) (omega arith) (omega arith)

flat-WordsAreBytes : WordsAreBytes little_endian flat
flat-WordsAreBytes = record {
  reads = λ d a h. ap ok (
      bytes_of (byte_at d a) (byte_at d (a + 1)) (byte_at d (a + 2)) (byte_at d (a + 3))
        (omega arith) (omega arith) (omega arith) (omega arith));
  writes = λ d a b0 b1 b2 b3 h (h0, (h1, (h2, (h3, _)))).
      written d a _ _ _ _ _ _ _ _ (omega arith) (omega arith) (omega arith) (omega arith);
}
  where
    written :
        (d : ℕ → ℕ) (a x0 x1 x2 x3 y0 y1 y2 y3 : ℕ)
        → x0 ≡ y0
        → x1 ≡ y1
        → x2 ≡ y2
        → x3 ≡ y3
        → ok (put (put (put (put d a x0) (a + 1) x1) (a + 2) x2) (a + 3) x3)
          ≡ ok (put (put (put (put d a y0) (a + 1) y1) (a + 2) y2) (a + 3) y3)
    written d a x0 x1 x2 x3 y0 y1 y2 y3 e0 e1 e2 e3 = rw (e0, e1, e2, e3) refl

abbrev all_mapped : ℕ → Bool
all_mapped a = true

flat-BytesAreKept : BytesAreKept little_endian flat all_mapped
flat-BytesAreKept = record {
  writes = λ d a b m h.
      returns (rw (==_self a) (ap ok (omega arith)), λ c ne. rw (==_of_ne c a ne) refl);
}

abbrev zeros : ℕ → ℕ
zeros a = 0

abbrev eight : List ℕ
eight = 1 ∷ 2 ∷ 3 ∷ 4 ∷ 5 ∷ 6 ∷ 7 ∷ 255 ∷ []

accesses_lem_example :
    ((len : ℕ)
      → read little_endian flat zeros 4096 len ≡ read_bytes little_endian flat zeros 4096 0 len)
    × ((bytes : List ℕ)
        → All (λ b. b < 256) bytes
        → write little_endian flat zeros 4096 bytes
          ≡ write_bytes little_endian flat zeros 4096 0 bytes)
accesses_lem_example = accesses_lem little_endian flat flat-WordsAreBytes zeros 4096

write-Stored_example :
    Returns
      (λ e.
        (read little_endian flat e 4096 8 ≡ ok eight)
        × Stored little_endian flat all_mapped zeros 4096 0 eight e)
      (write little_endian flat zeros 4096 eight)
write-Stored_example =
    write-Stored little_endian flat all_mapped flat-BytesAreKept zeros 4096 eight flat-WordsAreBytes
      (
        omega arith,
        (
          omega arith,
          (
            omega arith,
            (omega arith, (omega arith, (omega arith, (omega arith, (omega arith, tt))))),
          ),
        ),
      )
      (omega arith) (λ j lo hi. refl)
