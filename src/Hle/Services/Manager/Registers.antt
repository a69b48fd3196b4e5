-- ===== src/Hle/Services/Manager/Registers.antt =====
-- hle/src/service/srv.rs: a service that is registered by a request is found by the next request for its name.
use pomelo.Prelude.{
  ℕ, zero, suc, panic, ◌++◌, ◌%◌, ◌≤◌, ◌≡◌, refl, ap, List, [], ◌∷◌, length, All, Run, ok, ◌>>=◌,
  Returns, returns, Returns-value, arith, expect, ◌<◌, ◌^◌,
}
use pomelo.Prelude.Buffer.{Buffer, ByteOrder}
use pomelo.Kernel.Handles.{Generator}
use pomelo.Kernel.Ports.{padded, short_name}
use pomelo.Kernel.Translate.{KernelState}
use pomelo.Ipc.Request.{IpcRequest, request}
use pomelo.Hle.Session.{make_port_pair}
use pomelo.Hle.Svc.{in_world, handle_for, done}
use pomelo.Hle.Services.{Service, find_service, register_service}
use pomelo.Hle.Services.First.{Counted, or_new, find_service-register_service}
use pomelo.Hle.Services.Manager.{
  SrvContext, SrvCommand, srv_commands, command_of, serve, handle_ipc, read_response,
}
use pomelo.Hle.Services.Manager.Answers.{answer_handle-Returns}
use pomelo.Hle.Services.Manager.Names.{Asks, asked}

length-padded : (n : ℕ) (name : List ℕ) → length (padded n name) ≡ n
unfolding padded
length-padded zero name = refl
length-padded (suc n) [] = ap suc (length-padded n [])
length-padded (suc n) (b ∷ bs) = ap suc (length-padded n bs)

module _ (bo : ByteOrder) where
  asked-bind :
      {A : Type 0} (d : Buffer) (f : SrvCommand → Run A)
      → (request bo d >>= λ r. expect (command_of srv_commands r.header) >>= f) ≡ (asked bo d >>= f)
  asked-bind d f = go (request bo d)
    where
      go :
          (m : Run IpcRequest)
          → (m >>= λ r. expect (command_of srv_commands r.header) >>= f)
            ≡ (m >>= (λ r. expect (command_of srv_commands r.header)) >>= f)
      go (ok r) = refl
      go panic = refl

  -- The new service, and what a lookup of its name finds when one more service has it.
  abbrev pub new_service : List ℕ → (max_sessions client_port : ℕ) → Service
  new_service name max_sessions client_port = record {
    name = short_name name;
    name_len = length name;
    max_sessions = max_sessions;
    client_port = client_port;
  }

  module _ {S : Type 0} (rng : Generator S) (fuel : ℕ) (pid tid server client : ℕ) where
    -- A registration that arrives, with a name of at most eight bytes in a message of at least 16, is
    -- answered without a panic, if the process gets a handle for each end of the new pair of ports, the one
    -- for the server's end a number of 32 bits that is not zero, and every service already there counts no
    -- more bytes than its name has. The kernel is left with the pair and the handles, and one service is
    -- added behind the others, with the name that was sent and the handle of the client's end. The client
    -- reads a success with the handle of the server's end in the answer. A lookup of the name finds the new
    -- service, unless one was found under the name before, which is then found again.
    pub handle_ipc-Found :
        (k k1 k2 : KernelState S) (srv : SrvContext) (name : List ℕ) (x size h1 h2 : ℕ) (d : Buffer)
        → Asks bo SrvCommand.register_service_port name x size d
        → length name ≤ 8
        → 16 ≤ size
        → All Counted srv.services
        → handle_for rng fuel (in_world k (make_port_pair k.world server client)) pid server
          ≡ ok (h1, k1)
        → handle_for rng fuel k1 pid client ≡ ok (h2, k2)
        → 0 < h1
        → h1 < 2 ^ 32
        → Returns
            (λ (k', srv', d').
              (k' ≡ k2)
              × (srv' ≡ record srv { services = srv.services ++ new_service name x h2 ∷ [] })
              × (read_response bo d' ≡ ok (done h1))
              × Returns
                  (λ before.
                    find_service srv'.services (short_name name) (length name)
                    ≡ ok (or_new before (new_service name x h2)))
                  (find_service srv.services (short_name name) (length name)))
            (handle_ipc bo rng fuel pid tid server client k srv d)
    unfolding handle_ipc serve register_service
    handle_ipc-Found k k1 k2 srv name x size h1 h2 d asks short room counted first second
          some_handle few =
        let counted_new : length name ≤ length (short_name name) =
          omega (arith, length-padded 8 name) in
        let small : length name % 256 ≡ length name = omega arith in
        let (e, written, answered) =
          Returns-value
            (answer_handle-Returns bo d h1 (omega (arith, asks.the_size)) some_handle few) in
        rw
          (
            asked-bind d (λ c. serve bo rng fuel pid tid server client c k srv d),
            asks.the_command,
            asks.the_name,
            first,
            second,
            written,
            small,
          )
          (returns (
            refl,
            refl,
            answered,
            find_service-register_service srv.services (new_service name x h2) (short_name name)
                (length name) counted counted_new counted_new (refl, refl),
          ))
