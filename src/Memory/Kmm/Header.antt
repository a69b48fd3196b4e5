-- ===== src/Memory/Kmm/Header.antt =====
-- kernel/src/memory/kmm.rs: block headers in memory are read back as they were written.
use pomelo.Prelude.{
  ℕ, zero, suc, ◌+◌, ◌*◌, ◌/◌, ◌%◌, ◌^◌, ◌≤◌, ◌<◌, ◌≡◌, ◌≢◌, refl, sym, ap, ◌∙◌, ◌⊎◌, Option, none,
  some, List, [], ◌∷◌, ◌++◌, take, drop, length, ok, Returns, returns, arith, length-append,
  append_assoc, true, false, ◌==◌, ==_of_eq, ==_of_ne,
}
use pomelo.Prelude.Buffer.{ByteOrder, slice, slice-splice_self, slice-splice_apart}
use pomelo.Memory.Interface.{Memory}
use pomelo.Memory.Kmm.{
  BlockHeader, read_header, write_header, into_unsafe, assert_safe, from_unsafe,
}

-- A page that a block can start at.
abbrev pub IsPage : ℕ → Type 0
IsPage p = (0 < p) × (p < 1048576)

abbrev pub IsLink : Option ℕ → Type 0
IsLink none = Unit {0}
IsLink (some p) = IsPage p

pub assert_safe-into_unsafe : (l : Option ℕ) → IsLink l → assert_safe (into_unsafe l) ≡ ok l
unfolding assert_safe from_unsafe into_unsafe
assert_safe-into_unsafe none v = refl
assert_safe-into_unsafe (some p) v =
    let aligned : (p * 4096 % 2 ^ 32 % 4096 == 0) ≡ true = ==_of_eq _ _ (omega arith) in
    let page : p * 4096 % 2 ^ 32 / 4096 ≡ p = omega arith in
    let present : (p == 0) ≡ false = ==_of_ne _ _ (omega arith) in rw (aligned, page, present) refl

pub into_unsafe-lt : (l : Option ℕ) → into_unsafe l < 2 ^ 32
unfolding into_unsafe
into_unsafe-lt none = omega arith
into_unsafe-lt (some p) = omega arith

take-exact : (n : ℕ) (xs ys : List ℕ) → length xs ≡ n → take n (xs ++ ys) ≡ xs
take-exact zero [] ys e = refl
take-exact zero (x ∷ xs) ys e = absurd (omega arith)
take-exact (suc n) [] ys e = absurd (omega arith)
take-exact (suc n) (x ∷ xs) ys e = ap (λ r. x ∷ r) (take-exact n xs ys (omega arith))

drop-exact : (n : ℕ) (xs ys : List ℕ) → length xs ≡ n → drop n (xs ++ ys) ≡ ys
drop-exact zero [] ys e = refl
drop-exact zero (x ∷ xs) ys e = absurd (omega arith)
drop-exact (suc n) [] ys e = absurd (omega arith)
drop-exact (suc n) (x ∷ xs) ys e = drop-exact n xs ys (omega arith)

take-all : (n : ℕ) (xs : List ℕ) → length xs ≡ n → take n xs ≡ xs
take-all zero [] e = refl
take-all zero (x ∷ xs) e = absurd (omega arith)
take-all (suc n) [] e = absurd (omega arith)
take-all (suc n) (x ∷ xs) e = ap (λ r. x ∷ r) (take-all n xs (omega arith))

module _ {M : Type 0} (bo : ByteOrder) (mem : Memory M) where
  -- The header of a block at `p` lies in the memory.
  abbrev pub Inside : M → ℕ → Type 0
  Inside m p = IsPage p × (p * 4096 + 12 ≤ mem.size m)

  -- The words of a header are of 32 bits.
  abbrev pub Fits32 : BlockHeader → Type 0
  Fits32 h = (h.size < 2 ^ 32) × (h.next < 2 ^ 32) × (h.prev < 2 ^ 32)

  -- Memory `n` is `m` with the header `h` at `p`.
  pub record Stored (m : M) (p : ℕ) (h : BlockHeader) (n : M) : Type 0 where
    pub same_size : mem.size n ≡ mem.size m
    pub here : read_header bo mem n p ≡ ok h
    pub elsewhere : (q : ℕ) → q ≢ p → Inside m q → read_header bo mem n q ≡ read_header bo mem m q

  parse : List ℕ → BlockHeader
  parse bs = record {
    size = bo.read_u32 (take 4 bs);
    next = bo.read_u32 (take 4 (drop 4 bs));
    prev = bo.read_u32 (take 4 (drop 8 bs));
  }

  module _ (h : BlockHeader) where
    bytes : List ℕ
    bytes = bo.write_u32 h.size ++ (bo.write_u32 h.next ++ bo.write_u32 h.prev)

    length-bytes : length bytes ≡ 12
    unfolding bytes
    length-bytes = omega (
      arith,
      length-append (bo.write_u32 h.size) (bo.write_u32 h.next ++ bo.write_u32 h.prev),
      length-append (bo.write_u32 h.next) (bo.write_u32 h.prev),
      bo.length-write_u32 h.size,
      bo.length-write_u32 h.next,
      bo.length-write_u32 h.prev,
    )

    drop_eight : drop 8 bytes ≡ bo.write_u32 h.prev
    unfolding bytes
    drop_eight =
        ap (drop 8)
          (sym (append_assoc (bo.write_u32 h.size) (bo.write_u32 h.next) (bo.write_u32 h.prev)))
        ∙ drop-exact 8 (bo.write_u32 h.size ++ bo.write_u32 h.next) (bo.write_u32 h.prev) (
            omega (
              arith,
              length-append (bo.write_u32 h.size) (bo.write_u32 h.next),
              bo.length-write_u32 h.size,
              bo.length-write_u32 h.next,
            ))

    parse-bytes : Fits32 h → parse bytes ≡ h
    unfolding bytes parse
    parse-bytes f =
        let rest = bo.write_u32 h.next ++ bo.write_u32 h.prev in
        let s =
          ap bo.read_u32 (take-exact 4 (bo.write_u32 h.size) rest (bo.length-write_u32 h.size))
          ∙ bo.read_u32-write_u32 h.size f.0 in
        let n =
          ap (λ bs. bo.read_u32 (take 4 bs))
            (drop-exact 4 (bo.write_u32 h.size) rest (bo.length-write_u32 h.size))
          ∙ ap bo.read_u32 (
              take-exact 4 (bo.write_u32 h.next) (bo.write_u32 h.prev) (bo.length-write_u32 h.next))
          ∙ bo.read_u32-write_u32 h.next f.1 in
        let p =
          ap (λ bs. bo.read_u32 (take 4 bs)) drop_eight
          ∙ ap bo.read_u32 (take-all 4 (bo.write_u32 h.prev) (bo.length-write_u32 h.prev))
          ∙ bo.read_u32-write_u32 h.prev f.2 in
        λ i. record { size = s i; next = n i; prev = p i }

  read_header-slice :
      (m : M) (p : ℕ)
      → Inside m p
      → read_header bo mem m p ≡ ok (parse (slice (mem.content m) (p * 4096) 12))
  unfolding read_header parse
  read_header-slice m p inside =
      let place : p * 4096 % 2 ^ 32 ≡ p * 4096 = omega (arith, inside.0.1) in
      rw (place, mem.read-ok m (p * 4096) 12 inside.1) refl

  -- A header that lies in the memory is written without a panic, is read back, and changes no header of
  -- another page.
  pub write_header-Stored :
      (m : M) (p : ℕ) (h : BlockHeader)
      → Inside m p
      → Fits32 h
      → Returns (Stored m p h) (write_header bo mem m p h)
  unfolding write_header bytes
  write_header-Stored m p h inside f =
      let place : p * 4096 % 2 ^ 32 ≡ p * 4096 = omega (arith, inside.0.1) in
      let len = length-bytes h in
      let (n, run, size, content) =
        mem.write-ok m (p * 4096) (bytes h) (omega (arith, len, inside.1)) in
      let back : slice (mem.content n) (p * 4096) 12 ≡ bytes h =
        rw (content) (rw len at (slice-splice_self (mem.content m) (p * 4096) (bytes h))) in
      rw (place, write_header, run)
        (returns (record {
          same_size = size;
          here =
              read_header-slice n p (inside.0, omega (arith, size, inside.1))
              ∙ ap ok (rw back (parse-bytes h f));
          elsewhere = λ q ne other.
              let apart : (q * 4096 + 12 ≤ p * 4096) ⊎ (p * 4096 + length (bytes h) ≤ q * 4096) =
                omega arith in
              let same : slice (mem.content n) (q * 4096) 12 ≡ slice (mem.content m) (q * 4096) 12 =
                rw content
                  (slice-splice_apart (mem.content m) (p * 4096) (bytes h) (q * 4096) 12 apart) in
              read_header-slice n q (other.0, omega (arith, size, other.1))
              ∙ rw same (sym (read_header-slice m q other));
        }))
