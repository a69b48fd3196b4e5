-- ===== src/Ipc/Read.antt =====
-- kernel/src/ipc.rs: what `IPCReader` reads of words that a writer has put into a buffer.
use pomelo.Prelude.{
  ℕ, suc, ◌+◌, ◌-◌, ◌*◌, ◌/◌, ◌%◌, ◌^◌, ◌≤◌, ◌<◌, ◌≡◌, refl, Bool, true, false, Option, none, some,
  List, [], ◌∷◌, map, length, ok, arith, All, ◌==◌, ==_of_eq, ==_of_ne, lt→ltb,
}
use pomelo.Prelude.Buffer.{ByteOrder}
use pomelo.Ipc.Param.{
  IpcHandles, single, multiple, from_raw, raw, descriptor, descriptor-sum, encode, handle, flag,
}
use pomelo.Ipc.Words.{Holds, get_word-ok}
use pomelo.Ipc.Written.{IsHandle}
use pomelo.Ipc.Reader.{
  IpcReader, calls, read_normal, read_translate_word, read_translate_handle, read_handles,
  read_handle_param, read_translate,
}

from_raw-raw : (h : Option ℕ) → IsHandle h → from_raw (raw h) ≡ h
unfolding from_raw raw
from_raw-raw none v = refl
from_raw-raw (some h) v = rw (==_of_ne h 0 (omega arith))

-- The handles as a reader gives them: in place of each the calling process, if the descriptor says so;
-- one handle is not a list.
unfoldable pub received : Bool → List (Option ℕ) → IpcHandles
received c [] = multiple []
received c (h ∷ []) = single (calls c h)
received c (h ∷ i ∷ hs) = multiple (map (calls c) (h ∷ i ∷ hs))

-- A reader behind `k` more words of translate parameters.
abbrev pub step : IpcReader → ℕ → IpcReader
step r k = record r {
  translate_parameter_words = r.translate_parameter_words - k;
  pos = r.pos + 4 * k;
}

step-step : (r : IpcReader) (j k : ℕ) → step (step r j) k ≡ step r (j + k)
step-step r j k = ground arith

module _ (bo : ByteOrder) where
  pub read_normal-ok :
      (r : IpcReader) (w : ℕ) (ws : List ℕ)
      → 0 < r.normal_parameter_count
      → Holds bo r.buf r.pos (w ∷ ws)
      → read_normal bo r
        ≡ ok
            (w, record r { normal_parameter_count = r.normal_parameter_count - 1; pos = r.pos + 4 })
  unfolding read_normal
  read_normal-ok r w ws more h = rw (lt→ltb _ _ more, get_word-ok bo r.buf r.pos h.0, h.1) refl

  read_translate_word-ok :
      (r : IpcReader) (w : ℕ) (ws : List ℕ)
      → 0 < r.translate_parameter_words
      → Holds bo r.buf r.pos (w ∷ ws)
      → read_translate_word bo r ≡ ok (w, step r 1)
  unfolding read_translate_word
  read_translate_word-ok r w ws more h =
      rw (lt→ltb _ _ more, get_word-ok bo r.buf r.pos h.0, h.1) refl

  read_translate_handle-ok :
      (r : IpcReader) (h : Option ℕ) (ws : List ℕ)
      → 0 < r.translate_parameter_words
      → IsHandle h
      → Holds bo r.buf r.pos (raw h ∷ ws)
      → read_translate_handle bo r ≡ ok (h, step r 1)
  unfolding read_translate_handle
  read_translate_handle-ok r h ws more v holds =
      rw (read_translate_word-ok r (raw h) ws more holds, from_raw-raw h v) refl

  read_handles-ok :
      (c : Bool) (hs : List (Option ℕ)) (r : IpcReader)
      → length hs ≤ r.translate_parameter_words
      → All IsHandle hs
      → Holds bo r.buf r.pos (map raw hs)
      → read_handles bo (length hs) c r ≡ ok (map (calls c) hs, step r (length hs))
  unfolding read_handles
  read_handles-ok c [] r few all holds = ground arith
  read_handles-ok c (h ∷ hs) r few all holds =
      rw
        (
          read_translate_handle-ok r h (map raw hs) (omega arith) all.0 holds,
          read_handles-ok c hs (step r 1) (omega arith) all.1 holds.2,
        )
        (ground arith)

-- The fields of a handle parameter's descriptor.
descriptor_fields :
    (m c : Bool) (n : ℕ)
    → n < 64
    → ((descriptor m c (suc n) % 8 == 0) ≡ true)
      × ((descriptor m c (suc n) / 16 % 2 == 1) ≡ m)
      × ((descriptor m c (suc n) / 32 % 2 == 1) ≡ c)
      × (descriptor m c (suc n) / 2 ^ 26 % 2 ^ 6 ≡ n)
descriptor_fields m c n h = rw (descriptor-sum m c n h) (fields m c)
  where
    fields :
        (m c : Bool)
        → (((flag m 16 + flag c 32 + n * 67108864) % 8 == 0) ≡ true)
          × (((flag m 16 + flag c 32 + n * 67108864) / 16 % 2 == 1) ≡ m)
          × (((flag m 16 + flag c 32 + n * 67108864) / 32 % 2 == 1) ≡ c)
          × ((flag m 16 + flag c 32 + n * 67108864) / 2 ^ 26 % 2 ^ 6 ≡ n)
    fields true true = (
      ==_of_eq _ _ (omega arith),
      ==_of_eq _ _ (omega arith),
      ==_of_eq _ _ (omega arith),
      omega arith,
    )
    fields true false = (
      ==_of_eq _ _ (omega arith),
      ==_of_eq _ _ (omega arith),
      ==_of_ne _ _ (omega arith),
      omega arith,
    )
    fields false true = (
      ==_of_eq _ _ (omega arith),
      ==_of_ne _ _ (omega arith),
      ==_of_eq _ _ (omega arith),
      omega arith,
    )
    fields false false = (
      ==_of_eq _ _ (omega arith),
      ==_of_ne _ _ (omega arith),
      ==_of_ne _ _ (omega arith),
      omega arith,
    )

module _ (bo : ByteOrder) where
  handle_param-ok :
      (m c : Bool) (hs : List (Option ℕ)) (r : IpcReader)
      → 0 < length hs
      → length hs ≤ 64
      → length hs ≤ r.translate_parameter_words
      → All IsHandle hs
      → Holds bo r.buf r.pos (map raw hs)
      → read_handle_param bo (descriptor m c (length hs)) r
        ≡ ok (handle m c (received c hs), step r (length hs))
  unfolding read_handle_param received
  handle_param-ok m c [] r some_handle short few all holds = absurd (omega arith)
  handle_param-ok m c (h ∷ []) r some_handle short few all holds =
      let f = descriptor_fields m c 0 (omega arith) in
      rw (f.1, f.2, f.3) (rw (read_translate_handle-ok bo r h [] (omega arith) all.0 holds) refl)
  handle_param-ok m c (h ∷ i ∷ hs) r some_handle short few all holds =
      let f = descriptor_fields m c (suc (length hs)) (omega arith) in
      let many : (suc (length hs) == 0) ≡ false = ground arith in
      let size : suc (length hs) + 1 ≡ length (h ∷ i ∷ hs) = omega arith in
      rw (f.1, f.2, f.3, many, size) (rw (read_handles-ok bo c (h ∷ i ∷ hs) r few all holds) refl)

  -- A handle parameter is read back from its words.
  pub read_translate-encode :
      (m c : Bool) (hs : List (Option ℕ)) (r : IpcReader)
      → r.normal_parameter_count ≡ 0
      → 0 < length hs
      → length hs ≤ 64
      → suc (length hs) ≤ r.translate_parameter_words
      → All IsHandle hs
      → Holds bo r.buf r.pos (encode m c hs)
      → read_translate bo r ≡ ok (handle m c (received c hs), step r (suc (length hs)))
  unfolding read_translate encode
  read_translate-encode m c [] r zero_normal some_handle short few all holds = absurd (omega arith)
  read_translate-encode m c (h ∷ hs) r zero_normal some_handle short few all holds =
      let f = descriptor_fields m c (length hs) (omega arith) in
      rw
        (
          ==_of_eq _ _ zero_normal,
          read_translate_word-ok bo r (descriptor m c (length (h ∷ hs))) (map raw (h ∷ hs))
              (omega arith) holds,
          f.0,
          handle_param-ok m c (h ∷ hs) (step r 1) some_handle short (omega arith) all holds.2,
        )
        (ground arith)
