-- ===== src/Ipc/Request.antt =====
-- kernel/src/ipc.rs: `IPCRequest`, the older reader of requests.
use pomelo.Prelude.{
  ℕ, zero, suc, ◌+◌, ◌-◌, ◌/◌, ◌%◌, ◌^◌, ◌≤◌, ◌<◌, ◌≡◌, ◌≢◌, refl, Bool, true, false, Option, List,
  [], ◌∷◌, Run, ok, ◌>>=◌, ◌>>◌, assert, ltb, ◌==◌, if◌then◌else◌, ==_of_ne, ==_of_eq, lt→ltb,
  arith,
}
use pomelo.Prelude.Buffer.{Buffer, ByteOrder, get_word, word_at}
use pomelo.Ipc.Header.{IpcHeaderCode, header_from}
use pomelo.Ipc.Param.{
  single, multiple, from_raw, TranslateParameter, handle, static_buffer, buffer_mapping,
}
use pomelo.Ipc.Words.{get_word-ok}
use pomelo.Ipc.Reader
use pomelo.Ipc.Reader.{IpcReader, calls}

pub record IpcRequest : Type 0 where
  pub header : IpcHeaderCode
  pub buf : Buffer
  pub pos : ℕ
  pub normal_parameter_count : ℕ
  pub translate_parameter_words : ℕ

module _ (bo : ByteOrder) where
  -- `IPCRequest::new`.
  unfoldable pub request : Buffer → Run IpcRequest
  request buffer = do
    word ← get_word bo buffer 0
    let header = header_from word
    ok (record {
      header = header;
      buf = buffer;
      pos = 4;
      normal_parameter_count = header.normal_parameter_count;
      translate_parameter_words = header.translate_parameter_size;
    })

  -- `read_normal`.
  unfoldable pub request_normal : IpcRequest → Run (ℕ × IpcRequest)
  request_normal r = do
    assert (ltb 0 r.normal_parameter_count)
    word ← get_word bo r.buf r.pos
    ok (word, record r { normal_parameter_count = r.normal_parameter_count - 1; pos = r.pos + 4 })

  -- `read_translate_word`.
  unfoldable pub request_word : IpcRequest → Run (ℕ × IpcRequest)
  request_word r = do
    assert (ltb 0 r.translate_parameter_words)
    word ← get_word bo r.buf r.pos
    ok (
      word,
      record r { translate_parameter_words = r.translate_parameter_words - 1; pos = r.pos + 4 },
    )

  -- The loop over the handles of one parameter.
  unfoldable pub request_handles : ℕ → Bool → IpcRequest → Run (List (Option ℕ) × IpcRequest)
  unfolding request_word
  request_handles zero calling_process r = ok ([], r)
  request_handles (suc n) calling_process r = do
    (word, r') ← request_word r
    (hs, r'') ← request_handles n calling_process r'
    ok (calls calling_process (from_raw word) ∷ hs, r'')

  unfoldable pub request_handle_param : ℕ → IpcRequest → Run (TranslateParameter × IpcRequest)
  unfolding request_handles
  request_handle_param d r =
      let moved = d / 16 % 2 == 1 in
      let calling_process = d / 32 % 2 == 1 in
      let count = d / 2 ^ 26 % 2 ^ 6 in
      if count == 0
      then (do
        (word, r') ← request_word r
        ok (handle moved calling_process (single (calls calling_process (from_raw word))), r'))
      else (do
        (hs, r') ← request_handles (count + 1) calling_process r
        ok (handle moved calling_process (multiple hs), r'))

  -- `read_translate`; the permission of a buffer mapping is `n & 3` here.
  unfoldable pub request_translate : IpcRequest → Run (TranslateParameter × IpcRequest)
  unfolding request_handle_param
  request_translate r = do
    assert (r.normal_parameter_count == 0)
    (d, r') ← request_word r
    if d % 8 == 0
        then request_handle_param d r'
        else (if d % 8 == 1
            then (do
              (ptr, r'') ← request_word r'
              ok (static_buffer (d / 2 ^ 10 % 2 ^ 4) (d / 2 ^ 14 % 2 ^ 18) ptr, r''))
            else (do
              (ptr, r'') ← request_word r'
              ok (buffer_mapping (d % 8 % 4) (d / 2 ^ 4 % 2 ^ 28) ptr, r'')))

-- The same words for the other reader.
abbrev pub to_reader : IpcRequest → IpcReader
to_reader r = record {
  header = r.header;
  result = 0;
  buf = r.buf;
  pos = r.pos;
  normal_parameter_count = r.normal_parameter_count;
  translate_parameter_words = r.translate_parameter_words;
}

-- The two parameters and the two places at which the readers go on.
pub record Differs (r : IpcRequest) (p : TranslateParameter × IpcRequest)
    (q : TranslateParameter × IpcReader) : Type 0 where
  pub differs : p.0 ≢ q.0
  pub same_place : p.1.pos ≡ q.1.pos

mapping-injective : {a b c d e f : ℕ} → buffer_mapping a b c ≡ buffer_mapping d e f → a ≡ d
mapping-injective h = cc

module _ (bo : ByteOrder) where
  -- Both readers accept a buffer mapping that is complete in the buffer, and go on at the same place; but
  -- unless the low three bits of the descriptor are all set they give different parameters.
  pub request_translate-Differs :
      (r : IpcRequest)
      → r.normal_parameter_count ≡ 0
      → 2 ≤ r.translate_parameter_words
      → r.pos + 8 ≤ r.buf.len
      → 2 ≤ word_at bo r.buf r.pos % 8
      → word_at bo r.buf r.pos % 8 < 7
      → (p : TranslateParameter × IpcRequest) × (q : TranslateParameter × IpcReader)
        × (request_translate bo r ≡ ok p)
        × (Reader.read_translate bo (to_reader r) ≡ ok q)
        × Differs r p q
  unfolding request_translate request_word Reader.read_translate Reader.read_translate_word
  request_translate-Differs r zero_normal two room low high =
      let d = word_at bo r.buf r.pos in
      let ptr = word_at bo r.buf (r.pos + 4) in
      let first = get_word-ok bo r.buf r.pos (omega arith) in
      let second = get_word-ok bo r.buf (r.pos + 4) (omega arith) in
      let not_handle : (d % 8 == 0) ≡ false = ==_of_ne _ _ (omega arith) in
      let not_static : (d % 8 == 1) ≡ false = ==_of_ne _ _ (omega arith) in
      let one : ltb 0 r.translate_parameter_words ≡ true = lt→ltb _ _ (omega arith) in
      let another : ltb 0 (r.translate_parameter_words - 1) ≡ true = lt→ltb _ _ (omega arith) in
      (
        (
          buffer_mapping (d % 8 % 4) (d / 2 ^ 4 % 2 ^ 28) ptr,
          record r {
            translate_parameter_words = r.translate_parameter_words - 1 - 1;
            pos = r.pos + 4 + 4;
          },
        ),
        (
          buffer_mapping (d % 8 / 2 % 4) (d / 2 ^ 4 % 2 ^ 28) ptr,
          record (to_reader r) {
            translate_parameter_words = r.translate_parameter_words - 1 - 1;
            pos = r.pos + 4 + 4;
          },
        ),
        rw (==_of_eq _ _ zero_normal, one, first)
            (rw (not_handle, not_static) (rw (another, second) refl)),
        rw (==_of_eq _ _ zero_normal, one, first)
            (rw (not_handle, not_static) (rw (another, second) refl)),
        record {
          differs = λ e. let bits : d % 8 % 4 ≡ d % 8 / 2 % 4 = mapping-injective e in omega arith;
          same_place = refl;
        },
      )
