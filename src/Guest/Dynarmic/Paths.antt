-- ===== src/Guest/Dynarmic/Paths.antt =====
-- guest_dynarmic/src/lib.rs: the accelerated paths of `read` and `write` do what the slow ones do.
use pomelo.Prelude.{
  ℕ, zero, suc, ◌+◌, ◌*◌, ◌/◌, ◌%◌, ◌^◌, ◌≤◌, ◌<◌, ◌≡◌, refl, sym, ap, ◌∙◌, Bool, true, false, ◌&&◌,
  Bool-cases, inl, inr, List, [], ◌∷◌, ◌++◌, length, take, drop, All, Run, ok, panic, ◌>>=◌, ◌==◌,
  eq_of_==, arith, fun_ext,
}
use mathlib.Core.Path.{subst}
use pomelo.Prelude.Buffer.{ByteOrder}
use pomelo.Guest.Dynarmic.{
  MemoryImpl, read_words, read_bytes, read, write_words, write_bytes, write, in_words,
}

bind_assoc :
    {A B C : Type 0} (m : Run A) (f : A → Run B) (g : B → Run C)
    → (m >>= f >>= g) ≡ (m >>= λ a. f a >>= g)
bind_assoc (ok a) f g = refl
bind_assoc panic f g = refl

unrolled :
    (m0 m1 m2 m3 : Run ℕ) (m : Run (List ℕ))
    → ((m0 >>= λ b0. m1 >>= λ b1. m2 >>= λ b2. m3 >>= λ b3. ok (b0 ∷ b1 ∷ b2 ∷ b3 ∷ [])) >>= λ w.
        m >>= λ r. ok (w ++ r))
      ≡ (m0 >>= λ b0.
          (m1 >>= λ b1.
          (m2 >>= λ b2. (m3 >>= λ b3. m >>= λ r. ok (b3 ∷ r)) >>= λ r. ok (b2 ∷ r)) >>= λ r.
          ok (b1 ∷ r))
          >>= λ r. ok (b0 ∷ r))
unrolled panic m1 m2 m3 m = refl
unrolled (ok b0) panic m2 m3 m = refl
unrolled (ok b0) (ok b1) panic m3 m = refl
unrolled (ok b0) (ok b1) (ok b2) panic m = refl
unrolled (ok b0) (ok b1) (ok b2) (ok b3) panic = refl
unrolled (ok b0) (ok b1) (ok b2) (ok b3) (ok r) = refl

two_writes :
    {D : Type 0} (m : Run D) (f g k : D → Run D)
    → (m >>= (λ d. f d >>= g) >>= k) ≡ (m >>= λ d. f d >>= λ e. g e >>= k)
two_writes (ok d) f g k = bind_assoc (f d) g k
two_writes panic f g k = refl

three_writes :
    {D : Type 0} (m : Run D) (f g h k : D → Run D)
    → (m >>= (λ d. f d >>= λ e. g e >>= h) >>= k) ≡ (m >>= λ d. f d >>= λ e. g e >>= λ c. h c >>= k)
three_writes (ok d) f g h k = two_writes (f d) g h k
three_writes panic f g h k = refl

-- Four bytes of a list that has them.
four_at :
    (k : ℕ) (bytes : List ℕ)
    → k + 4 ≤ length bytes
    → (b0 : ℕ) × (b1 : ℕ) × (b2 : ℕ) × (b3 : ℕ) × (drop k bytes
        ≡ b0 ∷ b1 ∷ b2 ∷ b3 ∷ drop (suc (suc (suc (suc k)))) bytes)
four_at zero [] h = absurd (omega arith)
four_at zero (b0 ∷ []) h = absurd (omega arith)
four_at zero (b0 ∷ b1 ∷ []) h = absurd (omega arith)
four_at zero (b0 ∷ b1 ∷ b2 ∷ []) h = absurd (omega arith)
four_at zero (b0 ∷ b1 ∷ b2 ∷ b3 ∷ bytes) h = (b0, b1, b2, b3, refl)
four_at (suc k) [] h = absurd (omega arith)
four_at (suc k) (b ∷ bytes) h = four_at k bytes (omega arith)

drop_all : (k : ℕ) (bytes : List ℕ) → length bytes ≤ k → drop k bytes ≡ []
drop_all zero [] h = refl
drop_all zero (b ∷ bytes) h = absurd (omega arith)
drop_all (suc k) [] h = refl
drop_all (suc k) (b ∷ bytes) h = drop_all k bytes (omega arith)

All-drop : (P : ℕ → Type 0) (k : ℕ) (bytes : List ℕ) → All P bytes → All P (drop k bytes)
All-drop P zero bytes h = h
All-drop P (suc k) [] h = tt
All-drop P (suc k) (b ∷ bytes) h = All-drop P k bytes h.1

in_words_lem : (addr len : ℕ) → in_words addr len ≡ true → (addr % 4 ≡ 0) × (len % 4 ≡ 0)
in_words_lem addr len e =
    both (addr % 4 == 0) (len % 4 == 0) e (eq_of_== (addr % 4) 0) (eq_of_== (len % 4) 0)
  where
    both : {A B : Type 0} (b c : Bool) → (b && c) ≡ true → (b ≡ true → A) → (c ≡ true → B) → A × B
    both true true h f g = (f refl, g refl)
    both true false h f g = cc
    both false c h f g = cc

step_address :
    (addr i j : ℕ)
    → addr % 4 ≡ 0
    → j < 4
    → (addr + (i * 4 + j)) % 2 ^ 32 ≡ (addr + i * 4) % 2 ^ 32 + j
step_address addr i j h lt = omega arith

module _ {D : Type 0} (bo : ByteOrder) (mem : MemoryImpl D) where
  abbrev read_four : D → ℕ → Run (List ℕ)
  read_four d a = do
    b0 ← mem.read_u8 d a
    b1 ← mem.read_u8 d (a + 1)
    b2 ← mem.read_u8 d (a + 2)
    b3 ← mem.read_u8 d (a + 3)
    ok (b0 ∷ b1 ∷ b2 ∷ b3 ∷ [])

  abbrev write_four : D → (a b0 b1 b2 b3 : ℕ) → Run D
  write_four d a b0 b1 b2 b3 = do
    d1 ← mem.write_u8 d a b0
    d2 ← mem.write_u8 d1 (a + 1) b1
    d3 ← mem.write_u8 d2 (a + 2) b2
    mem.write_u8 d3 (a + 3) b3

  -- A word of the guest's memory that is aligned is its four bytes, in the order of the byteorder crate.
  pub record WordsAreBytes : Type 0 where
    pub reads :
        (d : D) (a : ℕ)
        → a % 4 ≡ 0
        → (mem.read_u32 d a >>= λ v. ok (bo.write_u32 v)) ≡ read_four d a
    pub writes :
        (d : D) (a b0 b1 b2 b3 : ℕ)
        → a % 4 ≡ 0
        → All (λ b. b < 256) (b0 ∷ b1 ∷ b2 ∷ b3 ∷ [])
        → mem.write_u32 d a (bo.read_u32 (b0 ∷ b1 ∷ b2 ∷ b3 ∷ [])) ≡ write_four d a b0 b1 b2 b3

  -- Four rounds of the slow paths, at an aligned address.
  four_reads : (d : D) (m : Run (List ℕ)) → (a0 a1 a2 a3 : ℕ) → Run (List ℕ)
  four_reads d m a0 a1 a2 a3 = do
    b0 ← mem.read_u8 d a0
    r0 ← (do
      b1 ← mem.read_u8 d a1
      r1 ← (do
        b2 ← mem.read_u8 d a2
        r2 ← (do b3 ← mem.read_u8 d a3; r3 ← m; ok (b3 ∷ r3))
        ok (b2 ∷ r2))
      ok (b1 ∷ r1))
    ok (b0 ∷ r0)

  module _ (words : WordsAreBytes) where
    read_words_lem :
        (d : D) (addr i n : ℕ)
        → addr % 4 ≡ 0
        → read_words bo mem d addr i n ≡ read_bytes bo mem d addr (i * 4) (n * 4)
    unfolding read_words read_bytes four_reads
    read_words_lem d addr i zero h = refl
    read_words_lem d addr i (suc n) h =
        let a : ℕ = (addr + i * 4) % 2 ^ 32 in
        let rest : Run (List ℕ) =
          read_bytes bo mem d addr (suc (suc (suc (suc (i * 4))))) (n * 4) in
        let later : read_words bo mem d addr (suc i) n ≡ rest =
          read_words_lem d addr (suc i) n h
          ∙ ap (λ k. read_bytes bo mem d addr k (n * 4)) (omega arith) in
        let step : (j k : ℕ) → k ≡ i * 4 + j → j < 4 → a + j ≡ (addr + k) % 2 ^ 32 =
          λ j k e lt. sym (ap (λ k. (addr + k) % 2 ^ 32) e ∙ step_address addr i j h lt) in
        let count : suc (suc (suc (suc (n * 4)))) ≡ suc n * 4 = omega arith in
        ap (λ m. mem.read_u32 d a >>= λ v. m >>= λ r. ok (bo.write_u32 v ++ r)) later
        ∙ sym (
            bind_assoc (mem.read_u32 d a) (λ v. ok (bo.write_u32 v))
              (λ w. rest >>= λ r. ok (w ++ r)))
        ∙ ap (λ m. m >>= λ w. rest >>= λ r. ok (w ++ r)) (words.reads d a (omega arith))
        ∙ unrolled (mem.read_u8 d a) (mem.read_u8 d (a + 1)) (mem.read_u8 d (a + 2))
            (mem.read_u8 d (a + 3)) rest
        ∙ ap (λ x. four_reads d rest a x (a + 2) (a + 3))
            (step 1 (suc (i * 4)) (omega arith) (omega arith))
        ∙ ap (λ x. four_reads d rest a ((addr + suc (i * 4)) % 2 ^ 32) x (a + 3))
            (step 2 (suc (suc (i * 4))) (omega arith) (omega arith))
        ∙ ap
            (λ x.
              four_reads d rest a ((addr + suc (i * 4)) % 2 ^ 32)
                ((addr + suc (suc (i * 4))) % 2 ^ 32) x)
            (step 3 (suc (suc (suc (i * 4)))) (omega arith) (omega arith))
        ∙ ap (λ k. read_bytes bo mem d addr (i * 4) k) count

    write_words_lem :
        (d : D) (addr : ℕ) (bytes : List ℕ) (i n : ℕ)
        → addr % 4 ≡ 0
        → All (λ b. b < 256) bytes
        → length bytes ≡ (i + n) * 4
        → write_words bo mem d addr bytes i n
          ≡ write_bytes bo mem d addr (i * 4) (drop (i * 4) bytes)
    unfolding write_words write_bytes
    write_words_lem d addr bytes i zero h small e = rw (drop_all (i * 4) bytes (omega arith)) refl
    write_words_lem d addr bytes i (suc n) h small e =
        let (b0, b1, b2, b3, four) = four_at (i * 4) bytes (omega arith) in
        let a : ℕ = (addr + i * 4) % 2 ^ 32 in
        let k4 : suc i * 4 ≡ suc (suc (suc (suc (i * 4)))) = omega arith in
        let rest : D → Run D = λ x.
          write_bytes bo mem x addr (suc (suc (suc (suc (i * 4)))))
            (drop (suc (suc (suc (suc (i * 4))))) bytes) in
        let later : (x : D) → write_words bo mem x addr bytes (suc i) n ≡ rest x = λ x.
          write_words_lem x addr bytes (suc i) n h small (omega arith)
          ∙ ap (λ k. write_bytes bo mem x addr k (drop k bytes)) k4 in
        let step : (j k : ℕ) → k ≡ i * 4 + j → j < 4 → a + j ≡ (addr + k) % 2 ^ 32 =
          λ j k e lt. sym (ap (λ k. (addr + k) % 2 ^ 32) e ∙ step_address addr i j h lt) in
        let small4 : All (λ b. b < 256)
            (b0 ∷ b1 ∷ b2 ∷ b3 ∷ drop (suc (suc (suc (suc (i * 4))))) bytes) =
          subst (All (λ b. b < 256)) four (All-drop (λ b. b < 256) (i * 4) bytes small) in
        ap (λ f. mem.write_u32 d a (bo.read_u32 (take 4 (drop (i * 4) bytes))) >>= f)
          (fun_ext later)
        ∙ ap (λ l. mem.write_u32 d a (bo.read_u32 (take 4 l)) >>= rest) four
        ∙ ap (λ m. m >>= rest)
            (words.writes d a b0 b1 b2 b3 (omega arith)
              (small4.0, (small4.1.0, (small4.1.1.0, (small4.1.1.1.0, tt)))))
        ∙ three_writes (mem.write_u8 d a b0) (λ x. mem.write_u8 x (a + 1) b1)
            (λ x. mem.write_u8 x (a + 2) b2) (λ x. mem.write_u8 x (a + 3) b3) rest
        ∙ ap
            (λ y. mem.write_u8 d a b0 >>= λ x1. mem.write_u8 x1 y b1 >>= λ x2.
              mem.write_u8 x2 (a + 2) b2 >>= λ x3. mem.write_u8 x3 (a + 3) b3 >>= rest)
            (step 1 (suc (i * 4)) (omega arith) (omega arith))
        ∙ ap
            (λ y. mem.write_u8 d a b0 >>= λ x1.
              mem.write_u8 x1 ((addr + suc (i * 4)) % 2 ^ 32) b1 >>= λ x2.
              mem.write_u8 x2 y b2 >>= λ x3. mem.write_u8 x3 (a + 3) b3 >>= rest)
            (step 2 (suc (suc (i * 4))) (omega arith) (omega arith))
        ∙ ap
            (λ y. mem.write_u8 d a b0 >>= λ x1.
              mem.write_u8 x1 ((addr + suc (i * 4)) % 2 ^ 32) b1 >>= λ x2.
              mem.write_u8 x2 ((addr + suc (suc (i * 4))) % 2 ^ 32) b2 >>= λ x3.
              mem.write_u8 x3 y b3 >>= rest)
            (step 3 (suc (suc (suc (i * 4)))) (omega arith) (omega arith))
        ∙ ap (write_bytes bo mem d addr (i * 4)) (sym four)

    -- Where an aligned word of the guest's memory is its four bytes, a read or a write at any address and
    -- of any length of bytes, aligned or not, is the one that goes byte by byte, panics included.
    pub accesses_lem :
        (d : D) (addr : ℕ)
        → ((len : ℕ) → read bo mem d addr len ≡ read_bytes bo mem d addr 0 len)
          × ((bytes : List ℕ)
              → All (λ b. b < 256) bytes
              → write bo mem d addr bytes ≡ write_bytes bo mem d addr 0 bytes)
    unfolding read write
    accesses_lem d addr = (reads, writes)
      where
        reads : (len : ℕ) → read bo mem d addr len ≡ read_bytes bo mem d addr 0 len
        reads len = elim (Bool-cases (in_words addr len)) [
          | inr e ↦ rw e refl
          | inl e ↦
              let h = in_words_lem addr len e in
              rw e (
                read_words_lem d addr 0 (len / 4) h.0
                ∙ ap (read_bytes bo mem d addr 0) (omega (arith, h.1)))
        ]

        writes :
            (bytes : List ℕ)
            → All (λ b. b < 256) bytes
            → write bo mem d addr bytes ≡ write_bytes bo mem d addr 0 bytes
        writes bytes small = elim (Bool-cases (in_words addr (length bytes))) [
          | inr e ↦ rw e refl
          | inl e ↦
              let h = in_words_lem addr (length bytes) e in
              rw e
                (write_words_lem d addr bytes 0 (length bytes / 4) h.0 small (omega (arith, h.1)))
        ]
