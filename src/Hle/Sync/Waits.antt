-- ===== src/Hle/Sync/Waits.antt =====
-- hle/src: what a wait for each object does, by the state of the object.
use mathlib.Core.Path.{subst}
use pomelo.Prelude.{
  ℕ, ◌≡◌, ◌≢◌, refl, sym, ap, ◌∙◌, Bool, true, false, Option, none, some, List, [], ◌∷◌, ◌++◌, ◌==◌,
  inl, inr, Bool-cases, All, All-append, Run, ok, Returns, returns, Returns-mono, Returns-value,
  eq_of_==, ◌>>=◌, if◌then◌else◌, ==_self, ==_of_ne, Returns-bind,
}
use pomelo.Kernel.Signal.{Signal, consume, unconsume}
use pomelo.Prelude.Int.{ℤ}
use pomelo.Kernel.World.{Waker, Object, World, put_object, find_thread}
use pomelo.Kernel.Wake.{wake, remove_wakers, remove_in}
use pomelo.Kernel.Wake.Removal.{queue_of}
use pomelo.Kernel.Wake.Live.{Live, Inv}
use pomelo.Kernel.Wake.Woken.{wake-Woken, Woken-Inv}
use pomelo.Hle.Notify.{modify}
use pomelo.Hle.Notify.Each.{Settled, Settled-same}
use pomelo.Hle.Sync.Grants.{
  Takes, Granted, set_event, set_timer, free_mutex, dead_thread, Blocked, clear_event, clear_timer,
  held_mutex, live_thread, at_server_session, at_client_session, at_server_port, at_client_port,
  consume-Takes, consume_unset,
}
use pomelo.Hle.Sync.{
  wait_signal, wait_mutex, wait_thread, is_sync, sync_wait_object, sync_wait, release_lock,
}

-- A write of an object whose queue is live keeps every queue live.
pub put-Inv :
    (w : World) (o : ℕ) (x : Object)
    → Inv w
    → All (Live w.threads o) (queue_of (some x))
    → Inv (put_object w o x)
put-Inv w o x inv h p = elim (Bool-cases (p == o)) [
  | inl e ↦ rw (e, eq_of_== p o e) h
  | inr e ↦ rw e (inv p)
]

-- The queue of an object that stands in the store is live.
pub live_queue :
    (w : World) (o : ℕ) (x : Object)
    → Inv w
    → w.objects o ≡ some x
    → All (Live w.threads o) (queue_of (some x))
live_queue w o x inv e = subst (λ m. All (Live w.threads o) (queue_of m)) e (inv o)

pub modify-Inv :
    (w : World) (o : ℕ) (f : Object → Object)
    → ((x : Object) → queue_of (some (f x)) ≡ queue_of (some x))
    → Inv w
    → Inv (modify w o f)
modify-Inv w o f same inv = go (w.objects o) refl
  where
    go : (m : Option Object) → w.objects o ≡ m → Inv (modify w o f)
    go none e = rw (e, modify) inv
    go (some x) e = rw (e, modify) (put-Inv w o (f x) inv (rw (same x) (live_queue w o x inv e)))

-- What a wait for the object `x` at `o` leaves. Granted: the thread is ready, and every object loses its
-- wakers. Blocked: only the object has changed, in its queue.
pub data Waited (w : World) (o : ℕ) (x : Object) (k : Waker) (v : World) : Type 0 where
  went_on :
      {y : Object}
      → Granted x y
      → Settled v.threads k
      → ((j : ℕ) → j ≢ k.thread → find_thread j v.threads ≡ find_thread j w.threads)
      → v.objects o ≡ some (remove_wakers k.thread y)
      → ((p : ℕ) → p ≢ o → v.objects p ≡ remove_in k.thread (w.objects p))
      → Waited w o x k v
  queued :
      {y : Object}
      → Blocked k x y
      → v.threads ≡ w.threads
      → v.objects o ≡ some y
      → ((p : ℕ) → p ≢ o → v.objects p ≡ w.objects p)
      → Waited w o x k v

pub record Outcome (w : World) (o : ℕ) (x : Object) (k : Waker) (v : World) : Type 0 where
  pub keeps : Inv v
  pub waited : Waited w o x k v

-- The queueing branch.
put-Outcome :
    {w : World} (o : ℕ) (x y : Object) (k : Waker)
    → Inv w
    → Live w.threads o k
    → All (Live w.threads o) (queue_of (some x))
    → Blocked k x y
    → queue_of (some y) ≡ queue_of (some x) ++ k ∷ []
    → Outcome w o x k (put_object w o y)
put-Outcome {w} o x y k inv l h b e = record {
  keeps =
      put-Inv w o y inv
        (rw e (All-append (Live w.threads o) (queue_of (some x)) (k ∷ []) h (l, tt)));
  waited = queued b refl (rw (==_self o) refl) (λ p ne. rw (==_of_ne p o ne) refl);
}

-- The branch that wakes, with the object rewritten to `y`, its queue as before.
wake-Waited :
    (w : World) (o : ℕ) (x y : Object) (k : Waker)
    → Granted x y
    → Inv w
    → Live w.threads o k
    → queue_of (some y) ≡ queue_of (some x)
    → All (Live w.threads o) (queue_of (some x))
    → Returns
        (λ (p : World × Bool). (p.1 ≡ true) × Outcome w o x k p.0)
        (wake (put_object w o y) k o)
wake-Waited w o x y k g inv l same h =
    let u : World = put_object w o y in
    let iu : Inv u = put-Inv w o y inv (rw same h) in
    Returns-mono (wake-Woken u iu o k l) (λ p woke. (
      woke.0,
      record {
        keeps = Woken-Inv iu woke.1;
        waited =
            went_on g (Settled-same l woke.1 k refl (inl l)) woke.1.others
              (woke.1.purged o ∙ rw (==_self o) refl)
              (λ q ne. woke.1.purged q ∙ rw (==_of_ne q o ne) refl);
      },
    ))

wake-Outcome :
    (w : World) (o : ℕ) (x y : Object) (k : Waker) (give_back : World → World)
    → Granted x y
    → Inv w
    → Live w.threads o k
    → queue_of (some y) ≡ queue_of (some x)
    → All (Live w.threads o) (queue_of (some x))
    → Returns
        (Outcome w o x k)
        (wake (put_object w o y) k o >>= λ p. if p.1 then ok p.0 else ok (give_back p.0))
wake-Outcome w o x y k give_back g inv l same h =
    Returns-bind (wake-Waited w o x y k g inv l same h) (λ p r. rw r.0 (returns r.1))

wait_signal-Outcome :
    (w : World) (o : ℕ) (s : Signal) (q : List Waker) (mk : Signal → List Waker → Object)
    (k : Waker)
    → ((s' : Signal) (q' : List Waker) → queue_of (some (mk s' q')) ≡ q')
    → ((s' : Signal) → Takes s s' → Granted (mk s q) (mk s' q))
    → (s.signaled ≡ false → Blocked k (mk s q) (mk s (q ++ k ∷ [])))
    → Inv w
    → All (Live w.threads o) (queue_of (some (mk s q)))
    → Live w.threads o k
    → Returns (Outcome w o (mk s q) k) (wait_signal w o s q mk k)
unfolding wait_signal
wait_signal-Outcome w o s q mk k at grants blocks inv h l = elim (Bool-cases (consume s).1) [
  | inl e ↦ rw e (
      wake-Outcome w o (mk s q) (mk (consume s).0 q) k
        (λ v. modify v o (pomelo.Hle.Notify.with_signal unconsume))
        (grants (consume s).0 (consume-Takes s e)) inv l (at (consume s).0 q ∙ sym (at s q)) h)
  | inr e ↦ rw e (
      returns (
        put-Outcome o (mk s q) (mk s (q ++ k ∷ [])) k inv l h (blocks (consume_unset s e))
          (at s (q ++ k ∷ []) ∙ ap (λ r. r ++ k ∷ []) (sym (at s q)))))
]

-- The signal of a wait that blocks.
unset_event :
    (s : Signal) (q : List Waker) (k : Waker)
    → s.signaled ≡ false
    → Blocked k (Object.event s q) (Object.event s (q ++ k ∷ []))
unset_event s q k e =
    subst
      (λ b.
        Blocked k (Object.event (record { reset_type = s.reset_type; signaled = b }) q)
          (Object.event (record { reset_type = s.reset_type; signaled = b }) (q ++ k ∷ [])))
      (sym e) (clear_event s.reset_type q)

unset_timer :
    (s : Signal) (q : List Waker) (n i : ℤ) (k : Waker)
    → s.signaled ≡ false
    → Blocked k (Object.timer s q n i) (Object.timer s (q ++ k ∷ []) n i)
unset_timer s q n i k e =
    subst
      (λ b.
        Blocked k (Object.timer (record { reset_type = s.reset_type; signaled = b }) q n i)
          (Object.timer (record { reset_type = s.reset_type; signaled = b }) (q ++ k ∷ []) n i))
      (sym e) (clear_timer s.reset_type q n i)

wait_mutex-Outcome :
    (w : World) (o : ℕ) (acquired : Bool) (q : List Waker) (k : Waker)
    → Inv w
    → All (Live w.threads o) q
    → Live w.threads o k
    → Returns (Outcome w o (Object.mutex acquired q) k) (wait_mutex w o acquired q k)
unfolding wait_mutex
wait_mutex-Outcome w o false q k inv h l =
    wake-Outcome w o (Object.mutex false q) (Object.mutex true q) k (λ v. modify v o release_lock)
      (free_mutex q) inv l refl h
wait_mutex-Outcome w o true q k inv h l =
    returns (put-Outcome o (Object.mutex true q) _ k inv l h (held_mutex q) refl)

wait_thread-Outcome :
    (w : World) (o tid : ℕ) (dead : Bool) (q : List Waker) (k : Waker)
    → w.objects o ≡ some (Object.thread tid dead q)
    → Inv w
    → All (Live w.threads o) q
    → Live w.threads o k
    → Returns (Outcome w o (Object.thread tid dead q) k) (wait_thread w o tid dead q k)
unfolding wait_thread
wait_thread-Outcome w o tid true q k at inv h l =
    let (p, run, woke) = Returns-value (wake-Woken w inv o k l) in
    rw run (
      returns (record {
        keeps = Woken-Inv inv woke.1;
        waited =
            went_on (dead_thread tid q) (Settled-same l woke.1 k refl (inl l)) woke.1.others
              (woke.1.purged o ∙ ap (remove_in k.thread) at) (λ p ne. woke.1.purged p);
      }))
wait_thread-Outcome w o tid false q k at inv h l =
    returns (put-Outcome o (Object.thread tid false q) _ k inv l h (live_thread tid q) refl)

sync_wait_object-Outcome :
    (w : World) (o : ℕ) (x : Object) (k : Waker)
    → w.objects o ≡ some x
    → is_sync x ≡ true
    → Inv w
    → All (Live w.threads o) (queue_of (some x))
    → Live w.threads o k
    → Returns (Outcome w o x k) (sync_wait_object w o x k)
unfolding sync_wait_object
sync_wait_object-Outcome w o (Object.event s q) k at e inv h l =
    wait_signal-Outcome w o s q Object.event k (λ s' q'. refl) (λ s' t. set_event q t)
      (unset_event s q k) inv h l
sync_wait_object-Outcome w o (Object.mutex a q) k at e inv h l =
    wait_mutex-Outcome w o a q k inv h l
sync_wait_object-Outcome w o (Object.timer s q n i) k at e inv h l =
    wait_signal-Outcome w o s q (λ s' q'. Object.timer s' q' n i) k (λ s' q'. refl)
      (λ s' t. set_timer q n i t) (unset_timer s q n i k) inv h l
sync_wait_object-Outcome w o (Object.thread t d q) k at e inv h l =
    wait_thread-Outcome w o t d q k at inv h l
sync_wait_object-Outcome w o (Object.server_session q r c) k at e inv h l =
    returns (put-Outcome o (Object.server_session q r c) _ k inv l h at_server_session refl)
sync_wait_object-Outcome w o (Object.client_session q s) k at e inv h l =
    returns (put-Outcome o (Object.client_session q s) _ k inv l h at_client_session refl)
sync_wait_object-Outcome w o (Object.server_port q r c) k at e inv h l =
    returns (put-Outcome o (Object.server_port q r c) _ k inv l h at_server_port refl)
sync_wait_object-Outcome w o (Object.client_port q s) k at e inv h l =
    returns (put-Outcome o (Object.client_port q s) _ k inv l h at_client_port refl)
sync_wait_object-Outcome w o (Object.arbiter q) k at e inv h l = absurd (cc)
sync_wait_object-Outcome w o Object.codeset k at e inv h l = absurd (cc)

-- In a world without stale wakers, a wait of a suspended thread on any synchronization object ends
-- without a panic and leaves no stale waker. If the object is a set event or timer, a mutex that nobody
-- holds or a thread that has ended, the wait is granted: the thread is ready, the signal is clear unless
-- it is sticky, the mutex is held, and every queue has lost the thread's wakers; no other thread changes.
-- Else, and for sessions and ports always, the waker is last in the object's queue, and nothing else
-- changes.
pub sync_wait-Outcome :
    (w : World) (o : ℕ) (x : Object) (k : Waker)
    → w.objects o ≡ some x
    → is_sync x ≡ true
    → Inv w
    → Live w.threads o k
    → Returns (Outcome w o x k) (sync_wait w o k)
unfolding sync_wait
sync_wait-Outcome w o x k at e inv l =
    subst
      (λ m.
        Returns (Outcome w o x k) (elim m [ none ↦ Run.panic | some y ↦ sync_wait_object w o y k ]))
      (sym at) (sync_wait_object-Outcome w o x k at e inv (live_queue w o x inv at) l)
