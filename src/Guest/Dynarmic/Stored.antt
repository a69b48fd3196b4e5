-- ===== src/Guest/Dynarmic/Stored.antt =====
-- guest_dynarmic/src/lib.rs: bytes that `write` puts into mapped memory are read back.
use pomelo.Prelude.{
  ℕ, suc, ◌+◌, ◌%◌, ◌^◌, ◌≤◌, ◌<◌, ◌≡◌, ◌≢◌, refl, ◌∙◌, Bool, true, List, [], ◌∷◌, length, All, ok,
  Returns, returns, Returns-bind, Returns-mono, arith,
}
use pomelo.Prelude.Buffer.{ByteOrder}
use pomelo.Guest.Dynarmic.{MemoryImpl, read_bytes, read, write_bytes, write}
use pomelo.Guest.Dynarmic.Paths.{WordsAreBytes, accesses_lem}

abbrev place : (addr i : ℕ) → ℕ
place addr i = (addr + i) % 2 ^ 32

places_differ : (addr i j : ℕ) → i < j → j < i + 2 ^ 32 → place addr i ≢ place addr j
places_differ addr i j lt near e = omega arith

module _ {D : Type 0} (bo : ByteOrder) (mem : MemoryImpl D) (mapped : ℕ → Bool) where
  -- A byte that is written at a mapped address is read back, and no other byte changes.
  pub record BytesAreKept : Type 0 where
    pub writes :
        (d : D) (a b : ℕ)
        → mapped a ≡ true
        → b < 256
        → Returns
            (λ e. (mem.read_u8 e a ≡ ok b) × ((c : ℕ) → c ≢ a → mem.read_u8 e c ≡ mem.read_u8 d c))
            (mem.write_u8 d a b)

  -- The bytes from the place `i` of the address on, and what is elsewhere.
  pub record Stored (d : D) (addr i : ℕ) (bytes : List ℕ) (e : D) : Type 0 where
    pub bytes_there : read_bytes bo mem e addr i (length bytes) ≡ ok bytes
    pub elsewhere :
        (c : ℕ)
        → ((j : ℕ) → i ≤ j → j < i + length bytes → c ≢ place addr j)
        → mem.read_u8 e c ≡ mem.read_u8 d c

  abbrev pub IsMapped : (addr i len : ℕ) → Type 0
  IsMapped addr i len = (j : ℕ) → i ≤ j → j < i + len → mapped (place addr j) ≡ true

  module _ (kept : BytesAreKept) where
    write_bytes-Stored :
        (d : D) (addr i : ℕ) (bytes : List ℕ)
        → All (λ b. b < 256) bytes
        → length bytes ≤ 2 ^ 32
        → IsMapped addr i (length bytes)
        → Returns (Stored d addr i bytes) (write_bytes bo mem d addr i bytes)
    unfolding write_bytes read_bytes
    write_bytes-Stored d addr i [] small short m =
        returns (record { bytes_there = refl; elsewhere = λ c h. refl })
    write_bytes-Stored d addr i (b ∷ bytes) small short m =
        Returns-bind (kept.writes d (place addr i) b (m i (omega arith) (omega arith)) small.0)
          λ e (at, same).
            Returns-mono
              (write_bytes-Stored e addr (suc i) bytes small.1 (omega arith)
                (λ j lo hi. m j (omega arith) (omega arith)))
              λ f s. record {
                bytes_there =
                    let first : mem.read_u8 f (place addr i) ≡ ok b =
                      s.elsewhere (place addr i)
                        (λ j lo hi. places_differ addr i j (omega arith) (omega arith))
                      ∙ at in
                    rw (first, s.bytes_there) refl;
                elsewhere = λ c h.
                    s.elsewhere c (λ j lo hi. h j (omega arith) (omega arith))
                    ∙ same c (h i (omega arith) (omega arith));
              }

    -- Where an aligned word is its four bytes and mapped bytes are kept, a write of at most 2 ^ 32 bytes at
    -- mapped addresses ends without a panic, a read of as many bytes there gives them, and no byte elsewhere
    -- changes.
    pub write-Stored :
        (d : D) (addr : ℕ) (bytes : List ℕ)
        → WordsAreBytes bo mem
        → All (λ b. b < 256) bytes
        → length bytes ≤ 2 ^ 32
        → IsMapped addr 0 (length bytes)
        → Returns
            (λ e. (read bo mem e addr (length bytes) ≡ ok bytes) × Stored d addr 0 bytes e)
            (write bo mem d addr bytes)
    write-Stored d addr bytes words small short m =
        rw ((accesses_lem bo mem words d addr).1 bytes small) (
          Returns-mono (write_bytes-Stored d addr 0 bytes small short m)
            λ e s. ((accesses_lem bo mem words e addr).0 (length bytes) ∙ s.bytes_there, s))
