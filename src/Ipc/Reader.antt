-- ===== src/Ipc/Reader.antt =====
-- kernel/src/ipc.rs: `IPCReader`.
use pomelo.Prelude.{
  ℕ, zero, suc, ◌+◌, ◌-◌, ◌/◌, ◌%◌, ◌^◌, Bool, Option, List, [], ◌∷◌, Run, ok, ◌>>=◌, ◌>>◌, assert,
  ltb, ◌==◌, if◌then◌else◌,
}
use pomelo.Prelude.Buffer.{Buffer, ByteOrder, get_word}
use pomelo.Ipc.Header.{IpcHeaderCode, header_from}
use pomelo.Ipc.Param.{
  single, multiple, from_raw, calling, TranslateParameter, handle, static_buffer, buffer_mapping,
}

pub record IpcReader : Type 0 where
  pub header : IpcHeaderCode
  pub result : ℕ
  pub buf : Buffer
  pub pos : ℕ
  pub normal_parameter_count : ℕ
  pub translate_parameter_words : ℕ

abbrev pub calls : Bool → Option ℕ → Option ℕ
calls calling_process h = if calling_process then from_raw calling else h

module _ (bo : ByteOrder) where
  -- `IPCReader::new_request`.
  unfoldable pub open_request : Buffer → Run IpcReader
  open_request buffer = do
    word ← get_word bo buffer 0
    let header = header_from word
    ok (record {
      header = header;
      result = 0;
      buf = buffer;
      pos = 4;
      normal_parameter_count = header.normal_parameter_count;
      translate_parameter_words = header.translate_parameter_size;
    })

  -- `IPCReader::new_response`.
  unfoldable pub open_response : Buffer → Run IpcReader
  open_response buffer = do
    word ← get_word bo buffer 0
    let header = header_from word
    result ← get_word bo buffer 4
    ok (record {
      header = header;
      result = result;
      buf = buffer;
      pos = 8;
      normal_parameter_count = header.normal_parameter_count;
      translate_parameter_words = header.translate_parameter_size;
    })

  unfoldable pub read_normal : IpcReader → Run (ℕ × IpcReader)
  read_normal r = do
    assert (ltb 0 r.normal_parameter_count)
    word ← get_word bo r.buf r.pos
    ok (word, record r { normal_parameter_count = r.normal_parameter_count - 1; pos = r.pos + 4 })

  unfoldable pub read_translate_word : IpcReader → Run (ℕ × IpcReader)
  read_translate_word r = do
    assert (ltb 0 r.translate_parameter_words)
    word ← get_word bo r.buf r.pos
    ok (
      word,
      record r { translate_parameter_words = r.translate_parameter_words - 1; pos = r.pos + 4 },
    )

  unfoldable pub read_translate_handle : IpcReader → Run (Option ℕ × IpcReader)
  unfolding read_translate_word
  read_translate_handle r = do (word, r') ← read_translate_word r; ok (from_raw word, r')

  unfoldable pub has_more_translate_params : IpcReader → Bool
  has_more_translate_params r = ltb 0 r.translate_parameter_words

  -- The loop over the handles of one parameter.
  unfoldable pub read_handles : ℕ → Bool → IpcReader → Run (List (Option ℕ) × IpcReader)
  read_handles zero calling_process r = ok ([], r)
  read_handles (suc n) calling_process r = do
    (h, r') ← read_translate_handle r
    (hs, r'') ← read_handles n calling_process r'
    ok (calls calling_process h ∷ hs, r'')

  unfoldable pub read_handle_param : ℕ → IpcReader → Run (TranslateParameter × IpcReader)
  read_handle_param d r =
      let moved = d / 16 % 2 == 1 in
      let calling_process = d / 32 % 2 == 1 in
      let count = d / 2 ^ 26 % 2 ^ 6 in
      if count == 0
      then (do
        (h, r') ← read_translate_handle r
        ok (handle moved calling_process (single (calls calling_process h)), r'))
      else (do
        (hs, r') ← read_handles (count + 1) calling_process r
        ok (handle moved calling_process (multiple hs), r'))

  -- `read_translate`, by the low three bits of the descriptor.
  unfoldable pub read_translate : IpcReader → Run (TranslateParameter × IpcReader)
  unfolding read_handle_param
  read_translate r = do
    assert (r.normal_parameter_count == 0)
    (d, r') ← read_translate_word r
    if d % 8 == 0
        then read_handle_param d r'
        else (if d % 8 == 1
            then (do
              (ptr, r'') ← read_translate_word r'
              ok (static_buffer (d / 2 ^ 10 % 2 ^ 4) (d / 2 ^ 14 % 2 ^ 18) ptr, r''))
            else (do
              (ptr, r'') ← read_translate_word r'
              ok (buffer_mapping (d % 8 / 2 % 4) (d / 2 ^ 4 % 2 ^ 28) ptr, r'')))
