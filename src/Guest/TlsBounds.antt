-- ===== src/Guest/TlsBounds.antt =====
-- guest/src/lib.rs: where the thread-local storage of the threads of a process lies.
use pomelo.Prelude.{ℕ, zero, suc, ◌+◌, ◌*◌, ◌≤◌, ◌<◌, List, [], ◌∷◌, All, Returns, returns, arith}
use pomelo.Guest.{userland_tls_base, new_tls}
use pomelo.Guest.Tls.{nth_address, addresses, allocate_many, allocate_many_lem}

-- Each place of 512 bytes ends where the next one starts, or before.
abbrev pub Apart : List ℕ → Type 0
Apart [] = Unit {0}
Apart (a ∷ rest) = All (λ b. a + 512 ≤ b) rest × Apart rest

-- The 32 pages from the base on.
abbrev pub InArea : ℕ → Type 0
InArea a = (userland_tls_base ≤ a) × (a + 512 ≤ userland_tls_base + 32 * 4096)

addresses-InArea : (k n : ℕ) → All InArea (addresses k n)
unfolding addresses nth_address
addresses-InArea k zero = tt
addresses-InArea k (suc n) = ((omega arith, omega arith), addresses-InArea (suc k) n)

later_addresses :
    (j k n : ℕ) → j < k → k + n ≤ 256 → All (λ b. nth_address j + 512 ≤ b) (addresses k n)
unfolding addresses nth_address
later_addresses j k zero lt h = tt
later_addresses j k (suc n) lt h =
    (omega arith, later_addresses j (suc k) n (omega arith) (omega arith))

addresses-Apart : (k n : ℕ) → k + n ≤ 256 → Apart (addresses k n)
unfolding addresses
addresses-Apart k zero h = tt
addresses-Apart k (suc n) h = (
  later_addresses k (suc k) n (omega arith) (omega arith),
  addresses-Apart (suc k) n (omega arith),
)

-- The first threads of a process, as many as fill at most 32 pages, get storage of 512 bytes each that lies
-- in 32 pages from the base on, with no two overlapping, and without a panic.
pub allocate_many-Apart :
    {M : Type 0} (map_page : M → ℕ → M) (q : ℕ) (m : M)
    → q ≤ 32
    → Returns (λ r. All InArea r.0 × Apart r.0) (allocate_many map_page (q * 8) m new_tls)
allocate_many-Apart map_page q m h =
    rw (allocate_many_lem map_page q m)
      (returns (addresses-InArea 0 (q * 8), addresses-Apart 0 (q * 8) (omega arith)))
