-- ===== src/Tests/Services.antt =====
-- Two services of hle/src/service/srv.rs, and a third of the name of the second.
use pomelo.Prelude.{true, none, Run, panic, returns}
use pomelo.Prelude.Buffer.{Buffer, little_endian}
use pomelo.Kernel.Handles.{get, new_handle, free_handle}
use pomelo.Kernel.Translate.{KernelState, put_table}
use pomelo.Kernel.Ports.{short_name}
use pomelo.Ipc.Param.{from_raw}
use pomelo.Hle.Session.{make_port_pair}
use pomelo.Hle.Svc.{in_world, handle_for, done}
use pomelo.Hle.Services.Manager.{
  SrvCommand, register_request, get_request, handle_ipc, read_response,
}
use pomelo.Hle.Services.Manager.Names.{BytesAreWords, Asks, requests-Asks}
use pomelo.Hle.Services.Manager.Registers.{new_service, handle_ipc-Found}
use pomelo.Tests.Tables.{counting}
use pomelo.Prelude.{ℕ, ◌≡◌, refl, some, List, [], ◌∷◌, ok, Returns, arith}
use pomelo.Hle.Services.{Service, find_service, slice_to}
use pomelo.Hle.Services.First.{Found, or_new, find_service-Found}
use Prim.{tt}

abbrev fs_user : List ℕ
fs_user = 102 ∷ 115 ∷ 58 ∷ 85 ∷ 83 ∷ 69 ∷ 82 ∷ 0 ∷ []

abbrev gsp : List ℕ
gsp = 103 ∷ 115 ∷ 112 ∷ 58 ∷ 58 ∷ 71 ∷ 112 ∷ 117 ∷ []

abbrev fs_service : Service
fs_service = record { name = fs_user; name_len = 7; max_sessions = 64; client_port = 5 }

abbrev gsp_service : Service
gsp_service = record { name = gsp; name_len = 8; max_sessions = 1; client_port = 6 }

abbrev services : List Service
services = fs_service ∷ gsp_service ∷ []

find_service-Found_example : Returns (Found gsp 8 services) (find_service services gsp 8)
find_service-Found_example =
    find_service-Found services gsp 8 (omega arith, (omega arith, tt)) (omega arith)

-- The lookup finds the second.
found_gsp : find_service services gsp 8 ≡ ok (some gsp_service)
unfolding find_service slice_to
found_gsp = refl

-- "fs:U".
abbrev fs : List ℕ
fs = 102 ∷ 115 ∷ 58 ∷ 85 ∷ []

abbrev blank : Buffer
blank = record { len = 256; at = λ i. 0 }

little_endian-BytesAreWords : BytesAreWords little_endian
little_endian-BytesAreWords = record {
  writes = λ a b c d (ha, (hb, (hc, (hd, _)))).
      four_words (omega arith) (omega arith) (omega arith) (omega arith);
  bound = λ a b c d (ha, (hb, (hc, (hd, _)))). omega arith;
}
  where
    four_words :
        {a0 a1 a2 a3 b0 b1 b2 b3 : ℕ}
        → a0 ≡ b0
        → a1 ≡ b1
        → a2 ≡ b2
        → a3 ≡ b3
        → (a0 ∷ a1 ∷ a2 ∷ a3 ∷ []) ≡ (b0 ∷ b1 ∷ b2 ∷ b3 ∷ [])
    four_words e0 e1 e2 e3 = cc

requests-Asks_example :
    Returns
      (Asks little_endian SrvCommand.register_service_port fs 4 256)
      (register_request little_endian fs 4 blank)
    × Returns
        (Asks little_endian SrvCommand.get_service_handle fs 1 256)
        (get_request little_endian fs true blank)
requests-Asks_example =
    requests-Asks little_endian little_endian-BytesAreWords fs 4 true blank
      (omega arith, (omega arith, (omega arith, (omega arith, tt)))) (omega arith) (omega arith)
      (omega arith)

abbrev buffer_of : Run Buffer → Buffer
buffer_of (ok d) = d
buffer_of panic = blank

abbrev sent : Buffer
sent = buffer_of (register_request little_endian fs 4 blank)

asked_of_sent : Asks little_endian SrvCommand.register_service_port fs 4 256 sent
asked_of_sent =
    asks
      (requests-Asks little_endian little_endian-BytesAreWords fs 4 true blank
        (omega arith, (omega arith, (omega arith, (omega arith, tt)))) (omega arith) (omega arith)
        (omega arith)).0
  where
    asks :
        {m : Run Buffer}
        → Returns (Asks little_endian SrvCommand.register_service_port fs 4 256) m
        → Asks little_endian SrvCommand.register_service_port fs 4 256 (buffer_of m)
    asks (returns h) = h

abbrev idle : KernelState ℕ
idle = record {
  world = record { threads = []; objects = λ o. none };
  tables = (7, record { objects = []; xorshift = 1 }) ∷ [];
}

abbrev with_handles : KernelState ℕ → List (ℕ × ℕ) → ℕ → KernelState ℕ
with_handles k hs seed = record k { tables = (7, record { objects = hs; xorshift = seed }) ∷ [] }

abbrev with_ports : KernelState ℕ
with_ports = in_world idle (make_port_pair idle.world 20 21)

handle_ipc-Found_example :
    Returns
      (λ (k', srv', d').
        (k' ≡ with_handles with_ports ((2, 21) ∷ (1, 20) ∷ []) 3)
        × (srv'
            ≡ record { services = new_service little_endian fs 4 2 ∷ []; seen_notifications = [] })
        × (read_response little_endian d' ≡ ok (done 1))
        × Returns
            (λ before.
              find_service srv'.services (short_name fs) 4
              ≡ ok (or_new before (new_service little_endian fs 4 2)))
            (find_service [] (short_name fs) 4))
      (handle_ipc little_endian counting 3 7 1 20 21 idle
        (record { services = []; seen_notifications = [] })
        sent)
unfolding handle_for new_handle free_handle from_raw get put_table
handle_ipc-Found_example =
    handle_ipc-Found little_endian counting 3 7 1 20 21 idle
      (with_handles with_ports ((1, 20) ∷ []) 2)
      (with_handles with_ports ((2, 21) ∷ (1, 20) ∷ []) 3)
      (record { services = []; seen_notifications = [] }) fs 4 256 1 2 sent asked_of_sent
      (omega arith) (omega arith) tt refl refl (omega arith) (omega arith)
