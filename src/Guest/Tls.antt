-- ===== src/Guest/Tls.antt =====
-- The addresses that `allocate_tls` of guest/src/lib.rs gives one after the other.
use pomelo.Prelude.{
  ℕ, zero, suc, ◌+◌, ◌*◌, ◌%◌, ◌^◌, ◌<◌, ◌≡◌, refl, sym, ap, ◌∙◌, List, [], ◌∷◌, Run, ok, ◌>>=◌,
  arith,
}
use pomelo.Prelude.Bits.{bit_or-low}
use pomelo.Guest.{
  ProcessTls, userland_tls_base, new_tls, slot, slot_address, page_slots, refill, pop_slot,
  allocate_tls,
}

-- The place of the `k`-th thread: there are 256.
unfoldable pub nth_address : ℕ → ℕ
nth_address k = userland_tls_base + k % 256 * 512

unfoldable pub addresses : ℕ → ℕ → List ℕ
addresses k zero = []
addresses k (suc n) = nth_address k ∷ addresses (suc k) n

slot_address-slot :
    (p i k : ℕ) → i < 8 → k ≡ p * 8 + i → slot_address (slot (p % 2 ^ 8) i) ≡ nth_address k
unfolding slot_address slot nth_address
slot_address-slot p i k lt e =
    let low : p % 256 * 8 % 256 ≡ p % 32 * 2 ^ 3 = omega arith in
    rw (low, bit_or-low 3 (p % 32) i lt) (omega (arith, e))

-- Eight to a page.
eights : ℕ → ℕ
eights zero = 0
eights (suc q) = suc (suc (suc (suc (suc (suc (suc (suc (eights q))))))))

eights_lem : (q : ℕ) → eights q ≡ q * 8
unfolding eights
eights_lem zero = refl
eights_lem (suc q) = omega (arith, eights_lem q)

module _ {M : Type 0} (map_page : M → ℕ → M) where
  -- Calls of `allocate_tls` one after the other.
  unfoldable pub allocate_many : ℕ → M → ProcessTls → Run (List ℕ × M × ProcessTls)
  allocate_many zero m tls = ok ([], m, tls)
  allocate_many (suc n) m tls = do
    r ← allocate_tls map_page m tls
    s ← allocate_many n r.1 r.2
    ok (r.0 ∷ s.0, s.1, s.2)

  -- The memory after some pages of storage from page `p` on.
  unfoldable pub mapped : ℕ → ℕ → M → M
  mapped p zero m = m
  mapped p (suc q) m = mapped (suc p) q (map_page m (userland_tls_base + p % 256 * 4096))

  allocate_eights :
      (q p k : ℕ) (m : M)
      → k ≡ p * 8
      → allocate_many (eights q) m (record { free = []; next_offset = p % 2 ^ 8 })
        ≡ ok (
          addresses k (eights q),
          mapped p q m,
          record { free = []; next_offset = (p + q) % 2 ^ 8 },
        )
  unfolding allocate_many allocate_tls refill pop_slot page_slots mapped addresses eights
  allocate_eights zero p k m e = let z : p + 0 ≡ p = omega arith in rw z refl
  allocate_eights (suc q) p k m e =
      let page : (userland_tls_base + p % 256 * 2 ^ 12) % 2 ^ 32
          ≡ userland_tls_base + p % 256 * 4096 =
        omega arith in
      let next : (p % 256 + 1) % 256 ≡ suc p % 256 = omega arith in
      let count : p + suc q ≡ suc p + q = omega arith in
      let ih =
        allocate_eights q (suc p) (suc (suc (suc (suc (suc (suc (suc (suc k))))))))
          (map_page m (userland_tls_base + p % 256 * 4096)) (omega (arith, e)) in
      rw (page, next, count)
        (rw (ih, allocate_many)
          (rw
            (
              slot_address-slot p 0 k (omega arith) (omega (arith, e)),
              slot_address-slot p 1 (suc k) (omega arith) (omega (arith, e)),
              slot_address-slot p 2 (suc (suc k)) (omega arith) (omega (arith, e)),
              slot_address-slot p 3 (suc (suc (suc k))) (omega arith) (omega (arith, e)),
              slot_address-slot p 4 (suc (suc (suc (suc k)))) (omega arith) (omega (arith, e)),
              slot_address-slot p 5 (suc (suc (suc (suc (suc k))))) (omega arith)
                  (omega (arith, e)),
              slot_address-slot p 6 (suc (suc (suc (suc (suc (suc k)))))) (omega arith)
                  (omega (arith, e)),
              slot_address-slot p 7 (suc (suc (suc (suc (suc (suc (suc k))))))) (omega arith)
                  (omega (arith, e)),
            )
            refl))

  -- Calls of allocate_tls from a new process, as many as fill some number of pages, end without a
  -- panic: the k-th gives the place k modulo 256 behind the base, one page is mapped for each eight,
  -- and the number of the next page is the number of pages modulo 256.
  pub allocate_many_lem :
      (q : ℕ) (m : M)
      → allocate_many (q * 8) m new_tls
        ≡ ok (addresses 0 (q * 8), mapped 0 q m, record { free = []; next_offset = q % 2 ^ 8 })
  unfolding new_tls
  allocate_many_lem q m =
      let sum : 0 + q ≡ q = omega arith in
      rw (sym (eights_lem q)) (
        allocate_eights q 0 0 m refl
        ∙ ap
            (λ n.
              ok (
                addresses 0 (eights q),
                mapped 0 q m,
                record { free = []; next_offset = n % 2 ^ 8 },
              ))
            sum)
