-- ===== src/Hle/Svc.antt =====
-- hle/src/svc.rs: the system calls that host and guest threads share, for the current thread `tid` of
-- the process `pid`. Where a call makes an object, `place` is where the allocator puts it.
pub mod Branches
use pomelo.Prelude.{
  ℕ, suc, Bool, true, false, Option, none, some, List, [], ◌∷◌, get_elem?, Run, ok, panic, ◌>>=◌,
  expect, ltb, ◌==◌, if◌then◌else◌,
}
use pomelo.Prelude.Int.{ℤ, pos, negsuc}
use pomelo.Prelude.Buffer.{ByteOrder}
use pomelo.Kernel.Signal.{ResetType, Signal, new_signal, Timeout, absolute}
use pomelo.Kernel.World.{Waker, Object, World, Resume, put_object, wait_sync_1}
use pomelo.Kernel.Suspend.{suspend_thread}
use pomelo.Kernel.Handles.{Generator, ObjectTable, get, lookup_handle, new_handle}
use pomelo.Kernel.Handles
use pomelo.Kernel.Translate.{Tables, KernelState, put_table}
use pomelo.Hle.Sync.{event_signal, mutex_release, is_sync, sync_wait}
use pomelo.Hle.WaitSync.{wait_one, wait_many}
use pomelo.Hle.Session.{
  make_session_pair, sync_request, session_receive, session_reply, create_at_port, accept_at_port,
}

-- `KResult`.
pub data KResult (A : Type 0) : Type 0 where
  done : A → KResult A
  failed : ℕ → KResult A

abbrev pub handle_type_mismatch : ℕ
handle_type_mismatch = 0xD8E0_07F7

-- The calling thread is to be rescheduled, or the call has returned.
pub data Reschedule : Type 0 where
  reschedule : Reschedule

-- `make_timeout`.
unfoldable pub make_timeout : ℤ → Timeout
make_timeout (pos n) = if n == 0 then Timeout.instant else Timeout.after n
make_timeout (negsuc n) = Timeout.forever

module _ {S : Type 0} where
  abbrev pub in_world : KernelState S → World → KernelState S
  in_world k w = record k { world = w }

  -- `handle.as_ref().and_then(|h| kctx.lookup_handle(h))`: the reference, if the handle is open.
  unfoldable pub object_at : KernelState S → ℕ → Option ℕ → Run (Option ℕ)
  object_at k pid none = ok none
  object_at k pid (some h) = do t ← expect (get k.tables pid); ok (lookup_handle t h)

  -- The reference with the object.
  unfoldable pub found_at : KernelState S → ℕ → Option ℕ → Run (Option (ℕ × Object))
  unfolding object_at
  found_at k pid h = do
    o ← object_at k pid h
    ok (elim o [
      | none ↦ none
      | some p ↦ elim (k.world.objects p) [ none ↦ none | some x ↦ some (p, x) ]
    ])

  abbrev mismatch : {A : Type 0} → KernelState S → Run (KResult A × KernelState S)
  mismatch k = ok (failed handle_type_mismatch, k)

  abbrev succeed : KernelState S → World → Run (KResult (Unit {0}) × KernelState S)
  succeed k w = ok (done tt, in_world k w)

  unfoldable pub release_found :
      KernelState S → Option (ℕ × Object) → Run (KResult (Unit {0}) × KernelState S)
  release_found k (some (o, Object.mutex acquired q)) = do
    w ← mutex_release k.world o q
    succeed k w
  release_found k _ = mismatch k

  unfoldable pub release_mutex :
      KernelState S → ℕ → Option ℕ → Run (KResult (Unit {0}) × KernelState S)
  unfolding found_at release_found
  release_mutex k pid h = do found ← found_at k pid h; release_found k found

  unfoldable pub signal_found :
      KernelState S → Option (ℕ × Object) → Run (KResult (Unit {0}) × KernelState S)
  signal_found k (some (o, Object.event s q)) = do w ← event_signal k.world o s q; succeed k w
  signal_found k _ = mismatch k

  unfoldable pub signal_event :
      KernelState S → ℕ → Option ℕ → Run (KResult (Unit {0}) × KernelState S)
  unfolding found_at signal_found
  signal_event k pid h = do found ← found_at k pid h; signal_found k found

  -- `TimerImpl::set` behind the lookup.
  unfoldable pub set_found :
      KernelState S → ℤ → ℤ → Option (ℕ × Object) → Run (KResult (Unit {0}) × KernelState S)
  set_found k initial interval (some (o, Object.timer s q n i)) =
      succeed k (put_object k.world o (Object.timer s q initial interval))
  set_found k initial interval _ = mismatch k

  unfoldable pub set_timer :
      KernelState S → ℕ → Option ℕ → ℤ → ℤ → Run (KResult (Unit {0}) × KernelState S)
  unfolding found_at set_found
  set_timer k pid h initial interval = do
    found ← found_at k pid h
    set_found k initial interval found

  unfoldable pub wait_found :
      KernelState S → ℕ → Option ℕ → Option (ℕ × Object) → Run (KResult Reschedule × KernelState S)
  wait_found k tid timeout none = mismatch k
  wait_found k tid timeout (some (o, x)) =
      if is_sync x
      then (do w ← wait_one k.world tid o timeout; ok (done reschedule, in_world k w))
      else mismatch k

  unfoldable pub wait_sync_1_call :
      KernelState S
      → (pid tid : ℕ) → Option ℕ
      → ℤ
      → (now : ℕ) → Run (KResult Reschedule × KernelState S)
  unfolding found_at wait_found
  wait_sync_1_call k pid tid h timeout now = do
    found ← found_at k pid h
    wait_found k tid (absolute (make_timeout timeout) now) found

  -- `expect("null object in waitsync")` of each handle.
  unfoldable pub objects_at : KernelState S → ℕ → List (Option ℕ) → Run (List ℕ)
  unfolding object_at
  objects_at k pid [] = ok []
  objects_at k pid (h ∷ hs) = do
    found ← object_at k pid h
    o ← expect found
    os ← objects_at k pid hs
    ok (o ∷ os)

  unfoldable pub wait_sync_n_call :
      KernelState S
      → (pid tid : ℕ) → List (Option ℕ)
      → (wait_all : Bool) → ℤ
      → (now : ℕ) → Run (KResult Reschedule × KernelState S)
  unfolding objects_at
  wait_sync_n_call k pid tid hs true timeout now = panic
  wait_sync_n_call k pid tid hs false timeout now = do
    os ← objects_at k pid hs
    w ← wait_many k.world tid os (absolute (make_timeout timeout) now)
    ok (done reschedule, in_world k w)

  unfoldable pub close_call :
      KernelState S → ℕ → Option ℕ → Run (KResult (Unit {0}) × KernelState S)
  close_call k pid none = mismatch k
  close_call k pid (some h) = do
    t ← expect (get k.tables pid)
    let (closed, t') = Handles.close_handle t h
    let k' = record k { tables = put_table k.tables pid t' }
    if closed then ok (done tt, k') else mismatch k'

  unfoldable pub request_found :
      KernelState S → ℕ → Option (ℕ × Object) → Run (KResult Reschedule × KernelState S)
  request_found k tid (some (o, Object.client_session q server)) = do
    (v, waker) ← suspend_thread k.world tid (o ∷ []) none wait_sync_1
    (w, connected) ← sync_request v o q server waker
    if connected then ok (done reschedule, in_world k w) else panic
  request_found k tid _ = mismatch k

  unfoldable pub send_sync_request :
      KernelState S → (pid tid : ℕ) → Option ℕ → Run (KResult Reschedule × KernelState S)
  unfolding found_at request_found
  send_sync_request k pid tid h = do found ← found_at k pid h; request_found k tid found

  module _ (rng : Generator S) (fuel : ℕ) where
    -- `new_handle` of the current process.
    unfoldable pub handle_for : KernelState S → ℕ → ℕ → Run (ℕ × KernelState S)
    handle_for k pid object = do
      t ← expect (get k.tables pid)
      (h, t') ← new_handle rng fuel t object
      ok (h, record k { tables = put_table k.tables pid t' })

    -- `new_object_handle`, of which the four `create` calls are instances.
    unfoldable pub create_object :
        KernelState S → ℕ → (place : ℕ) → Object → Run (KResult ℕ × KernelState S)
    unfolding handle_for
    create_object k pid place x = do
      (h, k') ← handle_for (in_world k (put_object k.world place x)) pid place
      ok (done h, k')

    unfoldable pub create_mutex :
        KernelState S → ℕ → (place : ℕ) → Bool → Run (KResult ℕ × KernelState S)
    unfolding create_object
    create_mutex k pid place locked = create_object k pid place (Object.mutex locked [])

    unfoldable pub create_event :
        KernelState S → ℕ → (place : ℕ) → ResetType → Run (KResult ℕ × KernelState S)
    unfolding create_object
    create_event k pid place reset_type =
        create_object k pid place (Object.event (new_signal reset_type) [])

    unfoldable pub create_timer :
        KernelState S → ℕ → (place : ℕ) → ResetType → Run (KResult ℕ × KernelState S)
    unfolding create_object
    create_timer k pid place reset_type =
        create_object k pid place (Object.timer (new_signal reset_type) [] (negsuc 0) (negsuc 0))

    unfoldable pub create_address_arbiter :
        KernelState S → ℕ → (place : ℕ) → Run (KResult ℕ × KernelState S)
    unfolding create_object
    create_address_arbiter k pid place = create_object k pid place (Object.arbiter [])

    -- The two ends of the new session stand at `server` and `client`.
    unfoldable pub session_found :
        KernelState S
        → (pid tid server client : ℕ) → Option (ℕ × Object)
        → Run (KResult ℕ × KernelState S)
    unfolding handle_for
    session_found k pid tid server client (some (o, Object.client_port q port)) = do
      w ← create_at_port (make_session_pair k.world server client) port server
      (v, waker) ← suspend_thread w tid (o ∷ []) none wait_sync_1
      u ← sync_wait v o waker
      (h, k') ← handle_for (in_world k u) pid client
      ok (done h, k')
    session_found k pid tid server client _ = mismatch k

    unfoldable pub create_session_to_port :
        KernelState S → (pid tid server client : ℕ) → Option ℕ → Run (KResult ℕ × KernelState S)
    unfolding found_at session_found
    create_session_to_port k pid tid server client h = do
      found ← found_at k pid h
      session_found k pid tid server client found

    -- A session that waits at the port, or a wait for one.
    unfoldable pub accept_found :
        KernelState S
        → (pid tid : ℕ) → Option (ℕ × Object)
        → Run (KResult (Option ℕ) × KernelState S)
    unfolding handle_for
    accept_found k pid tid (some (o, Object.server_port q sessions client)) = do
      (w, session) ← accept_at_port k.world o q sessions client
      elim session [
        | some s ↦ do (h, k') ← handle_for (in_world k w) pid s; ok (done (some h), k')
        | none ↦ do
          (v, waker) ← suspend_thread w tid (o ∷ []) none wait_sync_1
          u ← sync_wait v o waker
          ok (done none, in_world k u)
      ]
    accept_found k pid tid _ = mismatch k

    unfoldable pub accept_session :
        KernelState S → (pid tid : ℕ) → Option ℕ → Run (KResult (Option ℕ) × KernelState S)
    unfolding found_at accept_found
    accept_session k pid tid h = do found ← found_at k pid h; accept_found k pid tid found

    module _ (bo : ByteOrder) where
      unfoldable pub reply_found :
          KernelState S → ℕ → Option (ℕ × Object) → Run (KResult (Unit {0}) × KernelState S)
      reply_found k tid (some (o, Object.server_session q requests client)) = do
        k' ← session_reply rng bo fuel k o q requests client tid
        ok (done tt, k')
      reply_found k tid _ = mismatch k

      unfoldable pub reply_and_receive_pre :
          KernelState S
          → (pid tid : ℕ) → List (Option ℕ)
          → (reply_target : Option ℕ) → (now : ℕ) → Run (KResult Reschedule × KernelState S)
      unfolding wait_sync_n_call found_at reply_found
      reply_and_receive_pre k pid tid hs none now =
          wait_sync_n_call k pid tid hs false (negsuc 0) now
      reply_and_receive_pre k pid tid hs (some target) now = do
        found ← found_at k pid (some target)
        (replied, k') ← reply_found k tid found
        elim replied [
          | done u ↦ wait_sync_n_call k' pid tid hs false (negsuc 0) now
          | failed e ↦ ok (failed e, k')
        ]

      unfoldable pub receive_found :
          KernelState S → ℕ → Option (ℕ × Object) → Run (KResult (Unit {0}) × KernelState S)
      receive_found k tid (some (o, Object.server_session q requests client)) = do
        (k', received) ← session_receive rng bo fuel k requests tid
        if received then ok (done tt, k') else ok (failed 0xC920_181A, k')
      receive_found k tid _ = ok (done tt, k)

      unfoldable pub reply_and_receive_post :
          KernelState S
          → (pid tid : ℕ) → List (Option ℕ)
          → Resume
          → Run (ℕ × KResult (Unit {0}) × KernelState S)
      unfolding found_at receive_found
      reply_and_receive_post k pid tid hs (Resume.wait_sync_n index) = do
        h ← expect (get_elem? hs index)
        found ← found_at k pid h
        (res, k') ← receive_found k tid found
        ok (index, res, k')
      reply_and_receive_post k pid tid hs _ = panic
