-- ===== src/Memory/Interface.antt =====
-- kernel/src/memory/mod.rs: the `Memory` trait as an interface. `size` and `content` describe a memory:
-- a read or write within the size does not panic, a read gives the content, and a write changes the
-- bytes that it covers.
use pomelo.Prelude.{ℕ, ◌+◌, ◌≤◌, ◌≡◌, List, length, Run, ok}
use pomelo.Prelude.Buffer.{slice, splice}

pub record Memory (M : Type 0) : Type 0 where
  pub read : M → ℕ → ℕ → Run (List ℕ)
  pub write : M → ℕ → List ℕ → Run M
  pub size : M → ℕ
  pub content : M → ℕ → ℕ
  pub read-ok :
      (m : M) (addr n : ℕ) → addr + n ≤ size m → read m addr n ≡ ok (slice (content m) addr n)
  pub write-ok :
      (m : M) (addr : ℕ) (bytes : List ℕ)
      → addr + length bytes ≤ size m
      → (m' : M) × (write m addr bytes ≡ ok m')
        × (size m' ≡ size m)
        × (content m' ≡ splice (content m) addr bytes)
