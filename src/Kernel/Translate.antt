-- ===== src/Kernel/Translate.antt =====
-- kernel/src/lib.rs: `KernelImpl::translate_ipc`, which copies a message from one thread to another and
-- gives the receiver handles of its own.
pub mod Handle
use pomelo.Prelude.{
  ℕ, zero, suc, ◌+◌, Bool, true, false, ◌||◌, Option, none, some, List, [], ◌∷◌, Run, ok, panic,
  ◌>>=◌, ◌>>◌, expect, ◌==◌, if◌then◌else◌,
}
use pomelo.Prelude.Buffer.{Buffer, ByteOrder}
use pomelo.Kernel.World.{CommonThread, World, set_thread}
use pomelo.Kernel.Handles.{
  Generator, ObjectTable, get, lookup_handle, lookup_close_handle, new_handle,
}
use pomelo.Ipc.Header.{IpcHeaderCode}
use pomelo.Ipc.Param.{
  IpcHandles, single, multiple, TranslateParameter, handle, static_buffer, buffer_mapping,
}
use pomelo.Ipc.Reader.{
  IpcReader, open_request, open_response, read_normal, read_translate, has_more_translate_params,
}
use pomelo.Ipc.Writer.{IpcWriter, new_request, new_response, write_normal, write_translate, finish}

-- The handle tables of the processes, by process.
abbrev pub Tables : Type 0 → Type 0
Tables S = List (ℕ × ObjectTable S ℕ)

unfoldable pub put_table : {S : Type 0} → Tables S → ℕ → ObjectTable S ℕ → Tables S
put_table [] pid t = []
put_table (x ∷ xs) pid t = if x.0 == pid then (pid, t) ∷ xs else x ∷ put_table xs pid t

pub record KernelState (S : Type 0) : Type 0 where
  pub world : World
  pub tables : Tables S

-- The threads with one of the two indices, in the order of the list.
unfoldable pub either_thread : ℕ → ℕ → List CommonThread → List CommonThread
either_thread a b [] = []
either_thread a b (t ∷ ts) =
    if (t.index == a) || (t.index == b) then t ∷ either_thread a b ts else either_thread a b ts

-- `find_thread_pair_mut`.
unfoldable pub find_thread_pair : List CommonThread → ℕ → ℕ → Run (CommonThread × CommonThread)
unfolding either_thread
find_thread_pair ts a b = elim (either_thread a b ts) [
  | [] ↦ panic
  | t ∷ rest ↦ elim rest [ [] ↦ panic | u ∷ us ↦ if t.index == b then ok (u, t) else ok (t, u) ]
]

module _ {S : Type 0} (rng : Generator S) where
  -- `dest.new_handle(kobj)` for an object that was found; `fuel` is that of `new_handle`.
  unfoldable pub receive : ℕ → Tables S → ℕ → Option ℕ → Run (Option ℕ × Tables S)
  unfolding put_table
  receive fuel tables dest none = ok (none, tables)
  receive fuel tables dest (some object) = do
    to ← expect (get tables dest)
    (h, to') ← new_handle rng fuel to object
    ok (some h, put_table tables dest to')

  -- The sender's tables behind the lookup; a moved handle is closed.
  abbrev pub sent : Tables S → ℕ → Bool → ObjectTable S ℕ → ℕ → Tables S
  sent tables src moved from h =
      if moved then put_table tables src (lookup_close_handle from h).1 else tables

  -- `translate_handle`, between the processes `src` and `dest`.
  unfoldable pub translate_handle :
      ℕ → Tables S → ℕ → ℕ → Bool → Option ℕ → Run (Option ℕ × Tables S)
  unfolding receive
  translate_handle fuel tables src dest moved none = ok (none, tables)
  translate_handle fuel tables src dest moved (some h) = do
    from ← expect (get tables src)
    receive fuel (sent tables src moved from h) dest (lookup_handle from h)

  unfoldable pub translate_each :
      ℕ → Tables S → ℕ → ℕ → Bool → List (Option ℕ) → Run (List (Option ℕ) × Tables S)
  unfolding translate_handle
  translate_each fuel tables src dest moved [] = ok ([], tables)
  translate_each fuel tables src dest moved (h ∷ hs) = do
    (h', tables') ← translate_handle fuel tables src dest moved h
    (hs', tables'') ← translate_each fuel tables' src dest moved hs
    ok (h' ∷ hs', tables'')

  unfoldable pub translate_handles :
      ℕ → Tables S → ℕ → ℕ → Bool → IpcHandles → Run (IpcHandles × Tables S)
  unfolding translate_each
  translate_handles fuel tables src dest moved (single h) = do
    (h', tables') ← translate_handle fuel tables src dest moved h
    ok (single h', tables')
  translate_handles fuel tables src dest moved (multiple hs) = do
    (hs', tables') ← translate_each fuel tables src dest moved hs
    ok (multiple hs', tables')

  module _ (bo : ByteOrder) where
    -- The loop over the normal parameters.
    unfoldable pub copy_normals : ℕ → IpcReader → IpcWriter → Run (IpcReader × IpcWriter)
    copy_normals zero r wr = ok (r, wr)
    copy_normals (suc n) r wr = do
      (word, r') ← read_normal bo r
      wr' ← write_normal bo wr word
      copy_normals n r' wr'

    -- One translate parameter; only handles are translated, any other is skipped.
    unfoldable pub copy_param :
        ℕ → Tables S → ℕ → ℕ → TranslateParameter → IpcWriter → Run (IpcWriter × Tables S)
    unfolding translate_handles
    copy_param fuel tables src dest (handle moved calling_process hs) wr = do
      (hs', tables') ← translate_handles fuel tables src dest moved hs
      wr' ← write_translate bo wr (handle moved calling_process hs')
      ok (wr', tables')
    copy_param fuel tables src dest (static_buffer index size ptr) wr = ok (wr, tables)
    copy_param fuel tables src dest (buffer_mapping permission size ptr) wr = ok (wr, tables)

    -- The loop over the translate parameters; each takes a word at least, so as many rounds as there are
    -- words are enough.
    unfoldable pub copy_params :
        ℕ → ℕ → Tables S → ℕ → ℕ → IpcReader → IpcWriter → Run (IpcWriter × Tables S)
    unfolding copy_param
    copy_params zero fuel tables src dest r wr =
        if has_more_translate_params bo r then panic else ok (wr, tables)
    copy_params (suc rounds) fuel tables src dest r wr =
        if has_more_translate_params bo r
        then (do
          (p, r') ← read_translate bo r
          (wr', tables') ← copy_param fuel tables src dest p wr
          copy_params rounds fuel tables' src dest r' wr')
        else ok (wr, tables)

    unfoldable pub open_message : Bool → Buffer → Run IpcReader
    open_message reply data_ = if reply then open_response bo data_ else open_request bo data_

    unfoldable pub start_message : Bool → IpcReader → Buffer → Run IpcWriter
    start_message reply r buffer =
        if reply
        then new_response bo r.header.command_id r.result buffer
        else new_request bo r.header.command_id buffer

    unfoldable pub translate_ipc : ℕ → KernelState S → ℕ → ℕ → Bool → Run (KernelState S)
    unfolding copy_normals copy_params open_message start_message find_thread_pair
    translate_ipc fuel k src dest reply = do
      (from, to) ← find_thread_pair k.world.threads src dest
      current ← expect (get k.tables from.pid)
      other ← expect (get k.tables to.pid)
      r ← open_message reply from.ipc_data
      wr ← start_message reply r to.ipc_data
      (r', wr') ← copy_normals r.header.normal_parameter_count r wr
      (wr'', tables) ← copy_params r'.translate_parameter_words fuel k.tables from.pid to.pid r' wr'
      buffer ← finish bo wr''
      ok (record {
        world = record (k.world) {
          threads = set_thread to.index (record to { ipc_data = buffer }) k.world.threads;
        };
        tables = tables;
      })
