-- ===== src/Guest/Dynarmic.antt =====
-- guest_dynarmic/src/lib.rs: the memory that the recompiler gives a guest. The crate dynarmic is an
-- interface.
pub mod Paths
pub mod Stored
use pomelo.Prelude.{
  ℕ, zero, suc, ◌+◌, ◌*◌, ◌/◌, ◌%◌, ◌^◌, Bool, true, false, ◌&&◌, Option, none, some, List, [], ◌∷◌,
  ◌++◌, length, take, drop, Run, ok, ◌>>=◌, ◌>>◌, assert, leb, ◌==◌, if◌then◌else◌,
}
use pomelo.Prelude.Buffer.{ByteOrder}

-- `dynarmic::memory::MemoryImpl`: accesses of bytes and words, and `map_memory` with the number of pages
-- and whether they are read-only.
pub record MemoryImpl (D : Type 0) : Type 0 where
  pub read_u8 : D → ℕ → Run ℕ
  pub write_u8 : D → ℕ → ℕ → Run D
  pub read_u32 : D → ℕ → Run ℕ
  pub write_u32 : D → ℕ → ℕ → Run D
  pub map_memory : D → (addr pages : ℕ) → Bool → D

-- `Protection`.
pub data Protection : Type 0 where
  read_only read_write read_execute : Protection

abbrev is_read_only : Protection → Bool
is_read_only Protection.read_only = true
is_read_only Protection.read_execute = true
is_read_only Protection.read_write = false

abbrev pub in_words : (addr len : ℕ) → Bool
in_words addr len = (addr % 4 == 0) && (len % 4 == 0)

module _ {D : Type 0} (bo : ByteOrder) (mem : MemoryImpl D) where
  -- The two loops of `read`: `n` rounds from the `i`-th on.
  unfoldable pub read_words : D → (addr i n : ℕ) → Run (List ℕ)
  read_words d addr i zero = ok []
  read_words d addr i (suc n) = do
    v ← mem.read_u32 d ((addr + i * 4) % 2 ^ 32)
    rest ← read_words d addr (suc i) n
    ok (bo.write_u32 v ++ rest)

  unfoldable pub read_bytes : D → (addr i n : ℕ) → Run (List ℕ)
  read_bytes d addr i zero = ok []
  read_bytes d addr i (suc n) = do
    b ← mem.read_u8 d ((addr + i) % 2 ^ 32)
    rest ← read_bytes d addr (suc i) n
    ok (b ∷ rest)

  unfoldable pub read : D → (addr len : ℕ) → Run (List ℕ)
  unfolding read_words read_bytes
  read d addr len =
      if in_words addr len then read_words d addr 0 (len / 4) else read_bytes d addr 0 len

  -- The two loops of `write`.
  unfoldable pub write_words : D → ℕ → List ℕ → (i n : ℕ) → Run D
  write_words d addr bytes i zero = ok d
  write_words d addr bytes i (suc n) = do
    e ← mem.write_u32 d ((addr + i * 4) % 2 ^ 32) (bo.read_u32 (take 4 (drop (i * 4) bytes)))
    write_words e addr bytes (suc i) n

  unfoldable pub write_bytes : D → (addr i : ℕ) → List ℕ → Run D
  write_bytes d addr i [] = ok d
  write_bytes d addr i (b ∷ bytes) = do
    e ← mem.write_u8 d ((addr + i) % 2 ^ 32) b
    write_bytes e addr (suc i) bytes

  unfoldable pub write : D → ℕ → List ℕ → Run D
  unfolding write_words write_bytes
  write d addr bytes =
      if in_words addr (length bytes)
      then write_words d addr bytes 0 (length bytes / 4)
      else write_bytes d addr 0 bytes

  -- `map`, but for the line that it prints.
  unfoldable pub map : D → (addr size : ℕ) → Option (List ℕ) → Protection → Run D
  unfolding write
  map d addr size init prot =
      let mapped = mem.map_memory d addr (size / 4096) (is_read_only prot) in
      elim init [
        | none ↦ ok mapped
        | some bytes ↦ assert (leb (length bytes) size) >> write mapped addr bytes
      ]
