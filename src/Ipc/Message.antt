-- ===== src/Ipc/Message.antt =====
-- kernel/src/ipc.rs: a whole request, as the services of hle/src write one and `translate_ipc` of
-- kernel/src/lib.rs reads one.
use pomelo.Prelude.{
  ℕ, zero, suc, ◌+◌, ◌*◌, ◌≤◌, ◌<◌, Bool, true, false, List, [], ◌∷◌, ◌++◌, length, Run, ok, panic,
  ◌>>=◌, All,
}
use pomelo.Prelude.Buffer.{Buffer, ByteOrder}
use pomelo.Ipc.Header.{IpcHeaderCode}
use pomelo.Ipc.Param.{IpcHandles, as_slice, encode, TranslateParameter, handle}
use pomelo.Ipc.Words.{Word}
use pomelo.Ipc.Written.{IsHandle}
use pomelo.Ipc.Read.{received}
use pomelo.Ipc.Writer.{IpcWriter, new_request, write_normal, write_translate, finish}
use pomelo.Ipc.Reader.{
  IpcReader, open_request, read_normal, read_translate, has_more_translate_params,
}

-- A translate parameter of handles.
pub record HandleParam : Type 0 where
  pub moved : Bool
  pub calling_process : Bool
  pub handles : IpcHandles

abbrev pub to_param : HandleParam → TranslateParameter
to_param p = handle p.moved p.calling_process p.handles

abbrev pub words : HandleParam → List ℕ
words p = encode p.moved p.calling_process (as_slice p.handles)

abbrev pub all_words : List HandleParam → List ℕ
all_words [] = []
all_words (p ∷ ps) = words p ++ all_words ps

-- What a reader gives for the parameter.
abbrev pub as_received : HandleParam → TranslateParameter
as_received p = handle p.moved p.calling_process (received p.calling_process (as_slice p.handles))

module _ (bo : ByteOrder) where
  unfoldable pub write_normals : IpcWriter → List ℕ → Run IpcWriter
  write_normals wr [] = ok wr
  write_normals wr (w ∷ ws) = do wr' ← write_normal bo wr w; write_normals wr' ws

  unfoldable pub write_params : IpcWriter → List HandleParam → Run IpcWriter
  write_params wr [] = ok wr
  write_params wr (p ∷ ps) = do wr' ← write_translate bo wr (to_param p); write_params wr' ps

  -- A request: the normal parameters, the handle parameters, and the header as the writer is dropped.
  unfoldable pub write_message : ℕ → List ℕ → List HandleParam → Buffer → Run Buffer
  unfolding write_normals write_params
  write_message command normals params buffer = do
    wr ← new_request bo command buffer
    wr' ← write_normals wr normals
    wr'' ← write_params wr' params
    finish bo wr''

  unfoldable pub read_normals : ℕ → IpcReader → Run (List ℕ × IpcReader)
  read_normals zero r = ok ([], r)
  read_normals (suc n) r = do
    (w, r') ← read_normal bo r
    (ws, r'') ← read_normals n r'
    ok (w ∷ ws, r'')

  -- `while reader.has_more_translate_params()`. Each parameter takes a word at least, so as many rounds
  -- as there are words are enough; the run that needs more is a panic here.
  unfoldable pub read_params : ℕ → IpcReader → Run (List TranslateParameter)
  read_params zero r = elim (has_more_translate_params bo r) [ true ↦ panic | false ↦ ok [] ]
  read_params (suc fuel) r = elim (has_more_translate_params bo r) [
    | true ↦ do (p, r') ← read_translate bo r; ps ← read_params fuel r'; ok (p ∷ ps)
    | false ↦ ok []
  ]

  unfoldable pub read_message : Buffer → Run (IpcHeaderCode × List ℕ × List TranslateParameter)
  unfolding read_normals read_params
  read_message buffer = do
    r ← open_request bo buffer
    (ws, r') ← read_normals r.header.normal_parameter_count r
    ps ← read_params r'.translate_parameter_words r'
    ok (r.header, ws, ps)

-- A handle parameter that can be written: a handle at least, and no more than its descriptor can count.
abbrev pub IsParam : HandleParam → Type 0
IsParam p =
    (0 < length (as_slice p.handles))
    × (length (as_slice p.handles) ≤ 64)
    × All IsHandle (as_slice p.handles)

-- A message whose counts fit in the header and whose words fit in the buffer.
pub record Fits (command : ℕ) (normals : List ℕ) (params : List HandleParam) (size : ℕ)
    : Type 0 where
  pub command_bits : command < 65536
  pub few_normals : length normals < 64
  pub few_translates : length (all_words params) < 64
  pub room : 4 + 4 * length normals + 4 * length (all_words params) ≤ size
  pub are_words : All Word normals
  pub are_params : All IsParam params
