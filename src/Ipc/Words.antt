-- ===== src/Ipc/Words.antt =====
-- kernel/src/ipc.rs: the words that a buffer holds from a place on.
use pomelo.Prelude.{
  ℕ, ◌+◌, ◌*◌, ◌^◌, ◌≤◌, ◌<◌, ◌≡◌, ◌∙◌, ◌⊎◌, List, [], ◌∷◌, ◌++◌, length, ok, leb_of_le, arith,
}
use pomelo.Prelude.Buffer.{
  Buffer, ByteOrder, word_at, with_word, get_word, put_word, word_at_self, word_at-apart,
}

-- A word of 32 bits.
abbrev pub Word : ℕ → Type 0
Word w = w < 2 ^ 32

module _ (bo : ByteOrder) where
  abbrev pub Holds : Buffer → ℕ → List ℕ → Type 0
  Holds b pos [] = Unit {0}
  Holds b pos (w ∷ ws) = (pos + 4 ≤ b.len) × (word_at bo b pos ≡ w) × Holds b (pos + 4) ws

  pub get_word-ok :
      (b : Buffer) (pos : ℕ) → pos + 4 ≤ b.len → get_word bo b pos ≡ ok (word_at bo b pos)
  unfolding get_word
  get_word-ok b pos h = rw (leb_of_le _ _ h)

  pub put_word-ok :
      (b : Buffer) (pos w : ℕ) → pos + 4 ≤ b.len → put_word bo b pos w ≡ ok (with_word bo b pos w)
  unfolding put_word
  put_word-ok b pos w h = rw (leb_of_le _ _ h)

  -- Words before the place that is written, or behind it, stay.
  pub Holds-with_word :
      (b : Buffer) (ws : List ℕ) (pos p w : ℕ)
      → (pos + 4 * length ws ≤ p) ⊎ (p + 4 ≤ pos)
      → Holds b pos ws
      → Holds (with_word bo b p w) pos ws
  Holds-with_word b [] pos p w apart h = tt
  Holds-with_word b (x ∷ xs) pos p w apart h = (
    h.0,
    word_at-apart bo b p w pos (omega arith) ∙ h.1,
    Holds-with_word b xs (pos + 4) p w (omega arith) h.2,
  )

  pub Holds-append :
      (b : Buffer) (xs ys : List ℕ) (pos q : ℕ)
      → q ≡ pos + 4 * length xs
      → Holds b pos xs
      → Holds b q ys
      → Holds b pos (xs ++ ys)
  Holds-append b [] ys pos q e h k = let same : q ≡ pos = omega arith in rw (← same) k
  Holds-append b (x ∷ xs) ys pos q e h k =
      (h.0, h.1, Holds-append b xs ys (pos + 4) q (omega arith) h.2 k)

  pub Holds-right :
      (b : Buffer) (xs ys : List ℕ) (pos q : ℕ)
      → q ≡ pos + 4 * length xs
      → Holds b pos (xs ++ ys)
      → Holds b q ys
  Holds-right b [] ys pos q e h = let same : q ≡ pos = omega arith in rw same h
  Holds-right b (x ∷ xs) ys pos q e h = Holds-right b xs ys (pos + 4) q (omega arith) h.2

  -- One more word at the end.
  pub Holds-snoc :
      (b : Buffer) (ws : List ℕ) (pos p w : ℕ)
      → p ≡ pos + 4 * length ws
      → p + 4 ≤ b.len
      → Word w
      → Holds b pos ws
      → Holds (with_word bo b p w) pos (ws ++ w ∷ [])
  Holds-snoc b ws pos p w e room h holds =
      Holds-append (with_word bo b p w) ws (w ∷ []) pos p e
        (Holds-with_word b ws pos p w (omega arith) holds) (room, word_at_self bo b p w h, tt)
