-- ===== src/Hle/Services/Manager.antt =====
-- hle/src/service/srv.rs: the requests that the service manager answers, and those that `SrvInterface`
-- makes of it; `IPCContext` of kernel/src/ipc.rs.
pub mod Names
pub mod Answers
pub mod Registers
use pomelo.Prelude.{
  ℕ, ◌%◌, ◌^◌, Bool, true, false, ◌&&◌, Option, none, some, List, [], ◌∷◌, ◌++◌, length, take, drop,
  has, Run, ok, panic, ◌>>=◌, ◌>>◌, assert, expect, leb, ◌==◌, if◌then◌else◌,
}
use pomelo.Prelude.Buffer.{Buffer, ByteOrder}
use pomelo.Kernel.Signal.{ResetType}
use pomelo.Kernel.Handles.{Generator}
use pomelo.Kernel.Ports.{short_name}
use pomelo.Kernel.Translate.{KernelState}
use pomelo.Ipc.Header.{IpcHeaderCode}
use pomelo.Ipc.Param.{IpcHandles, single, TranslateParameter, handle}
use pomelo.Ipc.Writer.{IpcWriter, response_to, write_normal, write_translate, finish}
use pomelo.Ipc.Reader.{open_response, read_translate}
use pomelo.Ipc.Request.{IpcRequest, request, request_normal}
use pomelo.Ipc.Message.{write_message}
use pomelo.Hle.Session.{make_port_pair}
use pomelo.Hle.Svc.{
  KResult, done, failed, in_world, handle_for, create_event, create_session_to_port,
}
use pomelo.Hle.Services.{Service, find_service, register_service}

pub record SrvContext : Type 0 where
  pub services : List Service
  pub seen_notifications : List ℕ

-- The patterns of the `match` on the header.
pub data SrvCommand : Type 0 where
  register_client enable_notification register_service_port get_service_handle subscribe :
      SrvCommand
  receive_notification publish_to_subscriber publish_and_get_subscriber : SrvCommand

abbrev pub srv_commands : List (IpcHeaderCode × SrvCommand)
srv_commands =
    (pattern_of 1 0 2, SrvCommand.register_client)
    ∷ (pattern_of 2 0 0, SrvCommand.enable_notification)
    ∷ (pattern_of 3 4 0, SrvCommand.register_service_port)
    ∷ (pattern_of 5 4 0, SrvCommand.get_service_handle)
    ∷ (pattern_of 9 1 0, SrvCommand.subscribe)
    ∷ (pattern_of 11 0 0, SrvCommand.receive_notification)
    ∷ (pattern_of 12 2 0, SrvCommand.publish_to_subscriber)
    ∷ (pattern_of 13 1 0, SrvCommand.publish_and_get_subscriber)
    ∷ []
  where
    pattern_of : ℕ → ℕ → ℕ → IpcHeaderCode
    pattern_of command normal translate = record {
      command_id = command;
      normal_parameter_count = normal;
      translate_parameter_size = translate;
    }

abbrev same_header : IpcHeaderCode → IpcHeaderCode → Bool
same_header a b =
    (a.command_id == b.command_id)
    && (a.normal_parameter_count == b.normal_parameter_count)
    && (a.translate_parameter_size == b.translate_parameter_size)

unfoldable pub command_of : List (IpcHeaderCode × SrvCommand) → IpcHeaderCode → Option SrvCommand
command_of [] header = none
command_of (x ∷ xs) header = if same_header x.0 header then some x.1 else command_of xs header

-- `unwrap`.
abbrev unwrap : KResult ℕ → Run ℕ
unwrap (done h) = ok h
unwrap (failed e) = panic

module _ (bo : ByteOrder) where
  -- `IPCContext::response`.
  unfoldable pub response : Buffer → ℕ → Run IpcWriter
  response message result = do r ← request bo message; response_to bo r.header result message

  -- A response without parameters.
  unfoldable pub answer_plain : Buffer → Run Buffer
  unfolding response
  answer_plain message = do wr ← response message 0; finish bo wr

  -- A response that moves one handle.
  unfoldable pub answer_handle : Buffer → ℕ → Run Buffer
  unfolding response
  answer_handle message h = do
    wr ← response message 0
    wr' ← write_translate bo wr (handle true false (single (some h)))
    finish bo wr'

  -- The name, its length and the last parameter of the requests 3 and 5.
  unfoldable pub read_name : Buffer → Run (List ℕ × ℕ × ℕ)
  read_name message = do
    r ← request bo message
    (a, r1) ← request_normal bo r
    (b, r2) ← request_normal bo r1
    (name_length, r3) ← request_normal bo r2
    (extra, r4) ← request_normal bo r3
    ok (bo.write_u32 a ++ bo.write_u32 b, name_length, extra)

  module _ {S : Type 0} (rng : Generator S) (fuel : ℕ) (pid tid server client : ℕ) where
    -- The arm for each command. New ends of a pair stand at `server` and `client`. Behind the wait of the
    -- arm of get_service_handle only the message is written, so the kernel's state is the one at the wait.
    unfoldable pub serve :
        SrvCommand → KernelState S → SrvContext → Buffer → Run (KernelState S × SrvContext × Buffer)
    unfolding answer_plain answer_handle read_name response
    serve SrvCommand.register_client k srv message = do d ← answer_plain message; ok (k, srv, d)
    serve SrvCommand.enable_notification k srv message = do
      wr ← response message 0
      (event, k') ← create_event rng fuel k pid server ResetType.one_shot
      h ← unwrap event
      wr' ← write_translate bo wr (handle true false (single (some h)))
      d ← finish bo wr'
      ok (k', srv, d)
    serve SrvCommand.register_service_port k srv message = do
      (name, name_length, max_sessions) ← read_name message
      let k0 = in_world k (make_port_pair k.world server client)
      (server_port, k1) ← handle_for rng fuel k0 pid server
      (client_port, k2) ← handle_for rng fuel k1 pid client
      let service : Service = record {
        name = name;
        name_len = name_length % 256;
        max_sessions = max_sessions;
        client_port = client_port;
      }
      d ← answer_handle message server_port
      ok (k2, record srv { services = register_service srv.services service }, d)
    serve SrvCommand.get_service_handle k srv message = do
      (name, name_length, flags) ← read_name message
      found ← find_service srv.services name (name_length % 256)
      service ← expect found
      (session, k') ←
          create_session_to_port rng fuel k pid tid server client (some service.client_port)
      h ← unwrap session
      d ← answer_handle message h
      ok (k', srv, d)
    serve SrvCommand.subscribe k srv message = do
      r ← request bo message
      (notification, r') ← request_normal bo r
      d ← answer_plain message
      ok (k, record srv { seen_notifications = srv.seen_notifications ++ notification ∷ [] }, d)
    serve SrvCommand.receive_notification k srv message = do
      wr ← response message 0
      wr' ← write_normal bo wr 0x206
      d ← finish bo wr'
      ok (k, srv, d)
    serve SrvCommand.publish_to_subscriber k srv message = do
      r ← request bo message
      (notification, r') ← request_normal bo r
      (flags, r'') ← request_normal bo r'
      d ← (if has notification srv.seen_notifications then panic else answer_plain message)
      ok (k, srv, d)
    serve SrvCommand.publish_and_get_subscriber k srv message = do
      r ← request bo message
      (notification, r') ← request_normal bo r
      wr ← response message 0
      wr' ← (if has notification srv.seen_notifications then panic else write_normal bo wr 1)
      wr'' ← write_normal bo wr' 1
      d ← finish bo wr''
      ok (k, srv, d)

    -- `handle_ipc`.
    unfoldable pub handle_ipc :
        KernelState S → SrvContext → Buffer → Run (KernelState S × SrvContext × Buffer)
    unfolding serve command_of
    handle_ipc k srv message = do
      r ← request bo message
      command ← expect (command_of srv_commands r.header)
      serve command k srv message

  -- The requests of `SrvInterface`, before they are sent.
  unfoldable pub name_words : List ℕ → Run (ℕ × ℕ)
  name_words name = do
    assert (leb (length name) 8)
    ok (bo.read_u32 (take 4 (short_name name)), bo.read_u32 (take 4 (drop 4 (short_name name))))

  unfoldable pub register_request : List ℕ → (max_sessions : ℕ) → Buffer → Run Buffer
  unfolding name_words
  register_request name max_sessions message = do
    (a, b) ← name_words name
    write_message bo 3 (a ∷ b ∷ length name % 2 ^ 32 ∷ max_sessions ∷ []) [] message

  unfoldable pub get_request : List ℕ → (no_wait : Bool) → Buffer → Run Buffer
  unfolding name_words
  get_request name no_wait message = do
    (a, b) ← name_words name
    write_message bo 5 (a ∷ b ∷ length name % 2 ^ 32 ∷ (if no_wait then 1 else 0) ∷ []) [] message

  -- What they make of the response.
  unfoldable pub handle_in : TranslateParameter → Run ℕ
  handle_in (handle moved calling_process (single h)) = expect h
  handle_in _ = panic

  unfoldable pub read_response : Buffer → Run (KResult ℕ)
  unfolding handle_in
  read_response message = do
    r ← open_response bo message
    if r.result == 0
        then (do (p, r') ← read_translate bo r; h ← handle_in p; ok (done h))
        else ok (failed r.result)
