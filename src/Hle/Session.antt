-- ===== src/Hle/Session.antt =====
-- hle/src/session.rs and port.rs: requests and replies between the two ends of a session, and sessions
-- that wait at a port.
pub mod Request
use pomelo.Prelude.{
  ℕ, Bool, true, false, Option, none, some, List, [], ◌∷◌, ◌++◌, Run, ok, panic, ◌>>=◌,
}
use pomelo.Prelude.Buffer.{ByteOrder}
use pomelo.Kernel.World.{Waker, Object, World, put_object}
use pomelo.Kernel.Wake.{wake_expect}
use pomelo.Kernel.Handles.{Generator}
use pomelo.Kernel.Translate.{KernelState, translate_ipc}
use pomelo.Hle.Notify.{modify, with_queue}

-- `wake_thread` of the four types: the first waker leaves the queue and is woken.
unfoldable pub wake_first : World → ℕ → List Waker → Run World
wake_first w o [] = ok w
wake_first w o (k ∷ ks) = wake_expect (modify w o (with_queue ks)) k o

-- `make_session_pair`, with the places that the allocator gives to the two objects.
unfoldable pub make_session_pair : World → (server client : ℕ) → World
make_session_pair w server client =
    put_object (put_object w server (Object.server_session [] [] (some client))) client
      (Object.client_session [] server)

-- `make_port_pair`.
unfoldable pub make_port_pair : World → (server client : ℕ) → World
make_port_pair w server client =
    put_object (put_object w server (Object.server_port [] [] (some client))) client
      (Object.client_port [] server)

-- `ServerSessionHLE::enqueue_sync_request`.
unfoldable pub enqueue_sync_request : World → ℕ → List Waker → List ℕ → Option ℕ → ℕ → Run World
unfolding wake_first
enqueue_sync_request w o q requests client tid =
    wake_first (put_object w o (Object.server_session q (requests ++ tid ∷ []) client)) o q

-- `KClientSession::sync_request` of the client session `o`; `false` if the server is gone.
unfoldable pub sync_request : World → ℕ → List Waker → ℕ → Waker → Run (World × Bool)
unfolding enqueue_sync_request
sync_request w o q server k = elim (w.objects server) [
  | none ↦ ok (w, false)
  | some x ↦ elim x [
    | Object.server_session sq requests client ↦ do
      v ←
          enqueue_sync_request (put_object w o (Object.client_session (q ++ k ∷ []) server)) server
            sq requests client k.thread
      ok (v, true)
    | _ ↦ ok (w, false)
  ]
]

-- `enqueue_response` of the client behind the weak reference; it must not be gone.
unfoldable pub respond : World → Option ℕ → Run World
unfolding wake_first
respond w none = panic
respond w (some client) = elim (w.objects client) [
  | none ↦ panic
  | some x ↦ elim x [
    | Object.client_session q server ↦ wake_first w client q
    | Object.client_port q server ↦ wake_first w client q
    | _ ↦ panic
  ]
]

module _ {S : Type 0} (rng : Generator S) (bo : ByteOrder) (fuel : ℕ) where
  -- `KServerSession::receive`.
  unfoldable pub session_receive : KernelState S → List ℕ → ℕ → Run (KernelState S × Bool)
  session_receive k [] this_thread = ok (k, false)
  session_receive k (request ∷ requests) this_thread = do
    k' ← translate_ipc rng bo fuel k request this_thread false
    ok (k', true)

  -- `KServerSession::reply` of the server session `o`.
  unfoldable pub session_reply :
      KernelState S → ℕ → List Waker → List ℕ → Option ℕ → ℕ → Run (KernelState S)
  unfolding respond
  session_reply k o q [] client this_thread = panic
  session_reply k o q (request ∷ requests) client this_thread = do
    k' ←
        translate_ipc rng bo fuel
          (record k { world = put_object k.world o (Object.server_session q requests client) })
          this_thread request true
    w ← respond k'.world client
    ok (record k' { world = w })

-- `ServerPortHLE::enqueue_session`.
unfoldable pub enqueue_session : World → ℕ → List Waker → List ℕ → Option ℕ → ℕ → Run World
unfolding wake_first
enqueue_session w o q sessions client session =
    wake_first (put_object w o (Object.server_port q (sessions ++ session ∷ []) client)) o q

-- `KClientPort::create_session_to_port`; the server's port must not be gone.
unfoldable pub create_at_port : World → ℕ → ℕ → Run World
unfolding enqueue_session
create_at_port w server session = elim (w.objects server) [
  | none ↦ panic
  | some x ↦ elim x [
    | Object.server_port q sessions client ↦ enqueue_session w server q sessions client session
    | _ ↦ panic
  ]
]

-- `KServerPort::accept_session` of the port `o`.
unfoldable pub accept_at_port : World → ℕ → List Waker → List ℕ → Option ℕ → Run (World × Option ℕ)
unfolding respond
accept_at_port w o q [] client = ok (w, none)
accept_at_port w o q (session ∷ sessions) client = do
  v ← respond (put_object w o (Object.server_port q sessions client)) client
  ok (v, some session)
