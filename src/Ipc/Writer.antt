-- ===== src/Ipc/Writer.antt =====
-- kernel/src/ipc.rs: `IPCWriter`, whose `drop` writes the header, and `IPCResponse`.
use pomelo.Prelude.{
  ℕ, ◌+◌, ◌%◌, Option, List, [], ◌∷◌, length, Run, ok, panic, ◌>>=◌, ◌>>◌, assert, ◌==◌,
}
use pomelo.Prelude.Buffer.{Buffer, ByteOrder, put_word}
use pomelo.Ipc.Header.{IpcHeaderCode, header_word}
use pomelo.Ipc.Param.{
  as_slice, raw, descriptor, TranslateParameter, handle, static_buffer, buffer_mapping,
}

-- The counts are `u8`; the cursor stands at `pos`.
pub record IpcWriter : Type 0 where
  pub command_id : ℕ
  pub normal_parameter_count : ℕ
  pub translate_parameter_size : ℕ
  pub buf : Buffer
  pub pos : ℕ

module _ (bo : ByteOrder) where
  unfoldable pub write : IpcWriter → ℕ → Run IpcWriter
  write wr word = do
    d ← put_word bo wr.buf wr.pos word
    ok (record wr { buf = d; pos = wr.pos + 4 })

  abbrev pub fresh : ℕ → Buffer → IpcWriter
  fresh command buffer = record {
    command_id = command;
    normal_parameter_count = 0;
    translate_parameter_size = 0;
    buf = buffer;
    pos = 0;
  }

  -- `IPCWriter::new_request`.
  unfoldable pub new_request : ℕ → Buffer → Run IpcWriter
  new_request command buffer = write (fresh command buffer) 0

  -- `IPCWriter::new_response`.
  unfoldable pub new_response : ℕ → ℕ → Buffer → Run IpcWriter
  new_response command result buffer = do wr ← write (fresh command buffer) 0; write wr result

  -- `IPCResponse::new`: the response to the request with the header.
  unfoldable pub response_to : IpcHeaderCode → ℕ → Buffer → Run IpcWriter
  response_to header result buffer = do
    wr ← write (fresh header.command_id buffer) 0
    write wr result

  unfoldable pub write_normal : IpcWriter → ℕ → Run IpcWriter
  write_normal wr param = do
    assert (wr.translate_parameter_size == 0)
    write (record wr { normal_parameter_count = (wr.normal_parameter_count + 1) % 256 }) param

  abbrev pub count_translate : IpcWriter → IpcWriter
  count_translate wr = record wr {
    translate_parameter_size = (wr.translate_parameter_size + 1) % 256;
  }

  -- The loop of `write_translate` over the handles.
  unfoldable pub write_handles : IpcWriter → List (Option ℕ) → Run IpcWriter
  write_handles wr [] = ok wr
  write_handles wr (h ∷ hs) = do wr' ← write wr (raw h); write_handles (count_translate wr') hs

  -- `write_translate`: only handles are implemented.
  unfoldable pub write_translate : IpcWriter → TranslateParameter → Run IpcWriter
  write_translate wr (handle moved calling_process handles) = do
    wr' ← write (count_translate wr) (descriptor moved calling_process (length (as_slice handles)))
    write_handles wr' (as_slice handles)
  write_translate wr (static_buffer index size ptr) = panic
  write_translate wr (buffer_mapping permission size ptr) = panic

  -- `Drop for IPCWriter`: back to the start, and the header.
  unfoldable pub finish : IpcWriter → Run Buffer
  finish wr = do
    done ←
        write (record wr { pos = 0 })
          (header_word wr.command_id wr.normal_parameter_count wr.translate_parameter_size)
    ok done.buf
