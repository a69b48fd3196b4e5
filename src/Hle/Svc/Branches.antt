-- ===== src/Hle/Svc/Branches.antt =====
-- hle/src/svc.rs: `signal_event` and `wait_sync_1` on every branch.
use pomelo.Prelude.{
  ℕ, ◌≡◌, refl, sym, ap, ◌∙◌, Bool, true, false, Option-cases, inl, inr, some-inj, Option, none,
  some, ok, Returns, returns, Returns-bind, ◌>>=◌, if◌then◌else◌, arith,
}
use pomelo.Prelude.Int.{ℤ}
use pomelo.Kernel.Signal.{signal, is_sticky, absolute}
use pomelo.Kernel.World.{Object, World, CommonThread, put_object, find_thread, running}
use pomelo.Kernel.Wake.Live.{Inv}
use pomelo.Kernel.Handles.{ObjectTable, get, lookup_handle}
use pomelo.Kernel.Translate.{KernelState}
use pomelo.Hle.Sync.{is_sync}
use pomelo.Hle.Sync.Signals.{Notified, event_signal-Notified}
use pomelo.Hle.WaitSync.{wait_one, Resting, wait_one-Resting}
use pomelo.Hle.Svc.{
  KResult, done, failed, handle_type_mismatch, Reschedule, reschedule, make_timeout, in_world,
  object_at, found_at, signal_found, signal_event, wait_found, wait_sync_1_call,
}

-- The object with its reference, if there is one.
abbrev pub with_ref : ℕ → Option Object → Option (ℕ × Object)
with_ref p none = none
with_ref p (some x) = some (p, x)

abbrev pub standing : World → Option ℕ → Option (ℕ × Object)
standing w none = none
standing w (some p) = with_ref p (w.objects p)

standing-object :
    (w : World) (r : Option ℕ) (o : ℕ) (x : Object)
    → standing w r ≡ some (o, x)
    → w.objects o ≡ some x
standing-object w none o x e = ground arith
standing-object w (some p) o x e = elim (Option-cases (w.objects p)) [
  | inl gone ↦ ground (arith, sym (ap (with_ref p) gone) ∙ e)
  | inr (y, there) ↦
      let same : (p, y) ≡ (o, x) = some-inj (sym (ap (with_ref p) there) ∙ e) in
      ap w.objects (sym (ap (λ (z : ℕ × Object). z.0) same))
      ∙ there
      ∙ ap some (ap (λ (z : ℕ × Object). z.1) same)
]

module _ {S : Type 0} where
  -- What a handle names in the table of its process.
  abbrev pub named : KernelState S → ObjectTable S ℕ → Option ℕ → Option (ℕ × Object)
  named k t none = none
  named k t (some h) = standing k.world (lookup_handle t h)

  found_at-named :
      (k : KernelState S) (pid : ℕ) (t : ObjectTable S ℕ) (h : Option ℕ)
      → get k.tables pid ≡ some t
      → found_at k pid h ≡ ok (named k t h)
  unfolding found_at object_at
  found_at-named k pid t none e = refl
  found_at-named k pid t (some h) e = rw (e, object_at) (go (lookup_handle t h))
    where
      same :
          (p : ℕ) (m : Option Object)
          → (elim m [ none ↦ none | some x ↦ some (p, x) ]) ≡ with_ref p m
      same p none = refl
      same p (some x) = refl

      go :
          (o : Option ℕ)
          → (ok o >>= λ o'. ok (elim o' [
            | none ↦ none
            | some p ↦ elim (k.world.objects p) [ none ↦ none | some x ↦ some (p, x) ]
          ]))
            ≡ ok (standing k.world o)
      go none = refl
      go (some p) = ap ok (same p (k.world.objects p))

  named-object :
      (k : KernelState S) (t : ObjectTable S ℕ) (h : Option ℕ) (o : ℕ) (x : Object)
      → named k t h ≡ some (o, x)
      → k.world.objects o ≡ some x
  named-object k t none o x e = ground arith
  named-object k t (some h) o x e = standing-object k.world (lookup_handle t h) o x e

  -- The result of `signal_event` on what the handle names.
  abbrev pub Signalled :
      KernelState S → Option (ℕ × Object) → KResult (Unit {0}) × KernelState S → Type 0
  Signalled k (some (o, Object.event s q)) r =
      (r.0 ≡ done tt)
      × (r.1.tables ≡ k.tables)
      × Notified (put_object k.world o (Object.event (signal s) q)) o Object.event (signal s)
          (is_sticky s) q r.1.world
  Signalled k _ r = (r.0 ≡ failed handle_type_mismatch) × (r.1 ≡ k)

  signal_found-Signalled :
      (k : KernelState S) (f : Option (ℕ × Object))
      → Inv k.world
      → ((o : ℕ) (x : Object) → f ≡ some (o, x) → k.world.objects o ≡ some x)
      → Returns (Signalled k f) (signal_found k f)
  unfolding signal_found
  signal_found-Signalled k none inv at = returns (refl, refl)
  signal_found-Signalled k (some (o, Object.event s q)) inv at =
      Returns-bind (event_signal-Notified k.world o s q inv (at o (Object.event s q) refl))
        (λ w n. returns (refl, refl, n))
  signal_found-Signalled k (some (o, Object.mutex a q)) inv at = returns (refl, refl)
  signal_found-Signalled k (some (o, Object.timer s q n i)) inv at = returns (refl, refl)
  signal_found-Signalled k (some (o, Object.arbiter q)) inv at = returns (refl, refl)
  signal_found-Signalled k (some (o, Object.thread i d q)) inv at = returns (refl, refl)
  signal_found-Signalled k (some (o, Object.server_session q r c)) inv at = returns (refl, refl)
  signal_found-Signalled k (some (o, Object.client_session q s)) inv at = returns (refl, refl)
  signal_found-Signalled k (some (o, Object.server_port q r c)) inv at = returns (refl, refl)
  signal_found-Signalled k (some (o, Object.client_port q s)) inv at = returns (refl, refl)
  signal_found-Signalled k (some (o, Object.codeset)) inv at = returns (refl, refl)

  -- In a world without stale wakers, `signal_event` of a process that the kernel knows ends without a
  -- panic. If the handle names an event, the call succeeds and the event is signalled; else, and for no
  -- handle or a closed one, it fails with a type mismatch and changes nothing.
  pub signal_event-Signalled :
      (k : KernelState S) (pid : ℕ) (t : ObjectTable S ℕ) (h : Option ℕ)
      → Inv k.world
      → get k.tables pid ≡ some t
      → Returns (Signalled k (named k t h)) (signal_event k pid h)
  unfolding signal_event
  signal_event-Signalled k pid t h inv at =
      rw (found_at-named k pid t h at)
        (signal_found-Signalled k (named k t h) inv (λ o x e. named-object k t h o x e))

  -- The result of `wait_sync_1`.
  abbrev pub WaitResult :
      KernelState S
      → ℕ
      → Option ℕ
      → CommonThread
      → Option (ℕ × Object)
      → KResult Reschedule × KernelState S
      → Type 0
  WaitResult k tid timeout u none r = (r.0 ≡ failed handle_type_mismatch) × (r.1 ≡ k)
  WaitResult k tid timeout u (some (o, x)) r =
      if is_sync x
      then ((r.0 ≡ done reschedule)
          × (r.1.tables ≡ k.tables)
          × Inv r.1.world
          × Resting k.world tid o timeout u x r.1.world)
      else ((r.0 ≡ failed handle_type_mismatch) × (r.1 ≡ k))

  wait_found-WaitResult :
      (k : KernelState S) (tid : ℕ) (timeout : Option ℕ) (u : CommonThread)
      (f : Option (ℕ × Object))
      → Inv k.world
      → find_thread tid k.world.threads ≡ some u
      → u.state ≡ running
      → ((o : ℕ) (x : Object) → f ≡ some (o, x) → k.world.objects o ≡ some x)
      → Returns (WaitResult k tid timeout u f) (wait_found k tid timeout f)
  unfolding wait_found
  wait_found-WaitResult k tid timeout u none inv found runs at = returns (refl, refl)
  wait_found-WaitResult k tid timeout u (some (o, x)) inv found runs at = go (is_sync x) refl
    where
      go :
          (b : Bool)
          → is_sync x ≡ b
          → Returns
              (λ (r : KResult Reschedule × KernelState S).
                if b
                then ((r.0 ≡ done reschedule)
                    × (r.1.tables ≡ k.tables)
                    × Inv r.1.world
                    × Resting k.world tid o timeout u x r.1.world)
                else ((r.0 ≡ failed handle_type_mismatch) × (r.1 ≡ k)))
              (if b
                then (do w ← wait_one k.world tid o timeout; ok (done reschedule, in_world k w))
                else ok (failed handle_type_mismatch, k))
      go true sync =
          Returns-bind
            (wait_one-Resting k.world tid o timeout u x inv found runs (at o x refl) sync)
            (λ w rest. returns (refl, refl, rest.0, rest.2))
      go false other = returns (refl, refl)

  -- In a world without stale wakers, `wait_sync_1` of a running thread ends without a panic. If the handle
  -- names a synchronization object, the thread is ready again if the object grants the wait and else sleeps
  -- last in the object's queue, with the timeout of the call, and no queue has a stale waker; else, and for
  -- no handle or a closed one, it fails with a type mismatch and changes nothing.
  pub wait_sync_1_call-WaitResult :
      (k : KernelState S) (pid tid : ℕ) (t : ObjectTable S ℕ) (u : CommonThread) (h : Option ℕ)
      (timeout : ℤ) (now : ℕ)
      → Inv k.world
      → get k.tables pid ≡ some t
      → find_thread tid k.world.threads ≡ some u
      → u.state ≡ running
      → Returns
          (WaitResult k tid (absolute (make_timeout timeout) now) u (named k t h))
          (wait_sync_1_call k pid tid h timeout now)
  unfolding wait_sync_1_call
  wait_sync_1_call-WaitResult k pid tid t u h timeout now inv at found runs =
      rw (found_at-named k pid t h at) (
        wait_found-WaitResult k tid (absolute (make_timeout timeout) now) u (named k t h) inv found
          runs (λ o x e. named-object k t h o x e))
