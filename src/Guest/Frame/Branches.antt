-- ===== src/Guest/Frame/Branches.antt =====
-- guest/src/lib.rs: the branches of system calls behind the lookup of a handle keep the registers that
-- hold no result.
use pomelo.Prelude.{
  ℕ, ◌≡◌, refl, Option, none, some, List, Bool, Bool-cases, inl, inr, true, false, Run, ok, ◌>>=◌,
  if◌then◌else◌,
}
use pomelo.Prelude.Int.{ℤ}
use pomelo.Kernel.World.{Waker, Object}
use pomelo.Kernel.Translate.{KernelState}
use pomelo.Kernel.Arbitration.{
  ArbitrationType, ArbitrationAction, decrement, ArbitrationFail, wait, wait_timeout,
}
use pomelo.Hle.Svc.{KResult, done, failed}
use pomelo.Hle.Sync.{is_sync}
use pomelo.Guest.Machine.{Platform, Guest, SvcResult, set_reg, go_on}
use pomelo.Guest.Calls.Objects.{signal_at, clear_at, set_at, cancel_at}
use pomelo.Guest.Calls.Waits.{close_at, wait_at}
use pomelo.Guest.Calls.Arbiters.{arbitrate_at, act, conclude}
use pomelo.Guest.Calls.Sessions.{give_message, connected, requested, accepted, replied}
use pomelo.Guest.Calls.Queries.{bind_at}
use pomelo.Prelude.{OnReturn, OnReturn-bind, after, panics, returned, panics, returned}
use pomelo.Guest.Frame.{Kept, frames, unset, set_first}

module _ {S M : Type 0} where
  pub signal_at-Kept : (g : Guest S M) (found : Option (ℕ × Object)) → Kept g (signal_at g found)
  unfolding signal_at
  signal_at-Kept g (some (o, Object.event s q)) = search frames
  signal_at-Kept g _ = search frames

  pub clear_at-Kept : (g : Guest S M) (found : Option (ℕ × Object)) → Kept g (clear_at g found)
  unfolding clear_at
  clear_at-Kept g (some (o, Object.event s q)) = search frames
  clear_at-Kept g _ = search frames

  pub set_at-Kept :
      (g : Guest S M) (initial interval : ℤ) (found : Option (ℕ × Object))
      → Kept g (set_at g initial interval found)
  unfolding set_at
  set_at-Kept g initial interval (some (o, Object.timer s q n i)) = search frames
  set_at-Kept g initial interval _ = search frames

  pub cancel_at-Kept : (g : Guest S M) (found : Option (ℕ × Object)) → Kept g (cancel_at g found)
  unfolding cancel_at
  cancel_at-Kept g (some (o, Object.timer s q n i)) = search frames
  cancel_at-Kept g _ = search frames

  pub wait_at-Kept :
      (g : Guest S M) (timeout : Option ℕ) (found : Option (ℕ × Object))
      → Kept g (wait_at g timeout found)
  unfolding wait_at
  wait_at-Kept g timeout none = search frames
  wait_at-Kept g timeout (some (o, x)) = elim (Bool-cases (is_sync x)) [
    | inl t ↦ rw t (search frames)
    | inr f ↦ rw f (search frames)
  ]

  pub set_maybe :
      (g g' : Guest S M) (b : Bool) (v : ℕ) (r : SvcResult)
      → g'.regs ≡ g.regs
      → g'.tls ≡ g.tls
      → Kept g (ok (if b then set_reg g' 0 v else g', r))
  set_maybe g g' true v r e t = set_first g g' v r e t
  set_maybe g g' false v r e t = unset g g' r e t

  pub close_at-Kept : (g : Guest S M) (h : Option ℕ) → Kept g (close_at g h)
  unfolding close_at
  close_at-Kept g none = search frames
  close_at-Kept g (some h) = search (frames, set_maybe)

  -- A step within a call that changes no register.
  abbrev pub Steady : Guest S M → Guest S M → Type 0
  Steady g g' = (g'.regs ≡ g.regs) × (g'.tls ≡ g.tls)

  pub act-Steady :
      (p : Platform S M) (g : Guest S M) (o : ℕ) (q : List (Waker × ℕ)) (addr word : ℕ) (value : ℤ)
      (action : Option ArbitrationAction)
      → OnReturn (Steady g) (act p g o q addr word value action)
  unfolding act
  act-Steady p g o q addr word value none = returned (refl, refl)
  act-Steady p g o q addr word value (some decrement) = search (after, returned)
  act-Steady p g o q addr word value (some ArbitrationAction.signal) = search (after, returned)

  pub after_act :
      {Q : Guest S M × SvcResult → Type 0} (p : Platform S M) (g : Guest S M) (o : ℕ)
      (q : List (Waker × ℕ)) (addr word : ℕ) (value : ℤ) (action : Option ArbitrationAction)
      {f : Guest S M → Run (Guest S M × SvcResult)}
      → ((g' : Guest S M) → Steady g g' → OnReturn Q (f g'))
      → OnReturn Q (act p g o q addr word value action >>= f)
  after_act p g o q addr word value action next =
      OnReturn-bind _ (act-Steady p g o q addr word value action) next

  pub conclude-Kept :
      (g g' : Guest S M) (o : ℕ) (q : List (Waker × ℕ)) (addr : ℕ) (fail : Option ArbitrationFail)
      → Steady g g'
      → Kept g (conclude g' o q addr fail)
  unfolding conclude
  conclude-Kept g g' o q addr none (e, t) = search (frames, e, t)
  conclude-Kept g g' o q addr (some wait) (e, t) = search (frames, e, t)
  conclude-Kept g g' o q addr (some wait_timeout) (e, t) = panics

  pub arbitrate_at-Kept :
      (p : Platform S M) (g : Guest S M) (kind : ArbitrationType) (addr : ℕ) (value : ℤ)
      (found : Option (ℕ × Object))
      → Kept g (arbitrate_at p g kind addr value found)
  unfolding arbitrate_at
  arbitrate_at-Kept p g kind addr value none = search frames
  arbitrate_at-Kept p g kind addr value (some (o, Object.arbiter q)) =
      search (after_act, conclude-Kept, after)
  arbitrate_at-Kept p g kind addr value _ = search frames

  pub give_message-Steady :
      (p : Platform S M) (g : Guest S M) → OnReturn (Steady g) (give_message p g)
  unfolding give_message
  give_message-Steady p g = search (after, returned)

  pub after_message :
      {Q : Guest S M × SvcResult → Type 0} (p : Platform S M) (g : Guest S M)
      {f : Guest S M → Run (Guest S M × SvcResult)}
      → ((g' : Guest S M) → Steady g g' → OnReturn Q (f g'))
      → OnReturn Q (give_message p g >>= f)
  after_message p g next = OnReturn-bind _ (give_message-Steady p g) next

  pub connected-Kept : (g : Guest S M) (r : KResult ℕ × KernelState S) → Kept g (connected g r)
  connected-Kept g (done h, k) = search frames
  connected-Kept g (failed e, k) = search frames

  pub requested-Kept :
      {A : Type 0} (g g' : Guest S M) (r : KResult A × KernelState S)
      → Steady g g'
      → Kept g (requested g' r)
  requested-Kept g g' (done a, k) (e, t) = search (frames, e, t)
  requested-Kept g g' (failed c, k) (e, t) = search (frames, e, t)

  pub replied-Kept :
      {A : Type 0} (g g' : Guest S M) (r : KResult A × KernelState S)
      → Steady g g'
      → Kept g (replied g' r)
  replied-Kept g g' (done a, k) (e, t) = search (frames, e, t)
  replied-Kept g g' (failed c, k) (e, t) = search (frames, e, t)

  pub accepted-Kept :
      (g : Guest S M) (r : KResult (Option ℕ) × KernelState S) → Kept g (accepted g r)
  accepted-Kept g (done (some h), k) = search frames
  accepted-Kept g (done none, k) = panics
  accepted-Kept g (failed e, k) = search frames

  pub bind_at-Kept :
      (g : Guest S M) (found : Option (ℕ × Object)) → Kept g (go_on (bind_at g found))
  unfolding bind_at
  bind_at-Kept g (some (o, Object.event s q)) = search frames
  bind_at-Kept g _ = search frames
