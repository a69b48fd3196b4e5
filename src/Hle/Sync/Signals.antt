-- ===== src/Hle/Sync/Signals.antt =====
-- hle/src/event.rs, timer.rs, mutex.rs, thread.rs: what a signal does, with no panic.
use pomelo.Prelude.{
  ℕ, ◌≡◌, ◌≢◌, ◌⊎◌, refl, sym, ap, ◌∙◌, Bool, true, false, Option, none, some, List, [], ◌∷◌, ◌++◌,
  ◌==◌, arith, inl, inr, not, Bool-cases, All, Run, ok, Returns, returns, Returns-mono,
  Returns-value, Returns-bind, eq_of_==, ==_self, ◌>>=◌, if◌then◌else◌, leb, ◌&&◌,
}
use pomelo.Prelude.Int.{ℤ}
use pomelo.Kernel.Signal.{Signal, signal, reset, is_sticky}
use pomelo.Kernel.World.{Waker, Object, World, put_object, find_thread}
use pomelo.Kernel.Wake.{wake_expect, drop_thread, remove_in}
use pomelo.Kernel.Wake.Removal.{queue_of}
use pomelo.Kernel.Wake.Live.{Live, Inv}
use pomelo.Kernel.Wake.Woken.{Woken, wake-Woken, Woken-Inv}
use pomelo.Hle.Notify.{modify, notify, with_queue, with_signal, wake_each}
use pomelo.Hle.Notify.Each.{Settled, Settled-same, wake_each-Readied}
use pomelo.Hle.Sync.{event_signal}
use pomelo.Hle.Sync.Waits.{put-Inv, live_queue}

-- The object at an address, rewritten.
pub modify_at :
    (w : World) (o : ℕ) (f : Object → Object) {x : Object}
    → w.objects o ≡ some x
    → (modify w o f).objects o ≡ some (f x)
modify_at w o f {x} e = rw (e, modify) (rw (==_self o) refl)

pub modify_at-Inv :
    (w : World) (o : ℕ) (f : Object → Object) (x : Object)
    → Inv w
    → w.objects o ≡ some x
    → All (Live w.threads o) (queue_of (some (f x)))
    → Inv (modify w o f)
modify_at-Inv w o f x inv at h = rw (at, modify) (put-Inv w o (f x) inv h)

pub modify-threads : (w : World) (o : ℕ) (f : Object → Object) → (modify w o f).threads ≡ w.threads
modify-threads w o f = go (w.objects o) refl
  where
    go : (m : Option Object) → w.objects o ≡ m → (modify w o f).threads ≡ w.threads
    go none e = rw (e, modify) refl
    go (some x) e = rw (e, modify) refl

-- `wake(..).expect(..)` at a live waker.
pub wake_expect-Woken :
    (w : World) (o : ℕ) (k : Waker)
    → Inv w
    → (l : Live w.threads o k) → Returns (Woken w o k l.waiter) (wake_expect w k o)
unfolding wake_expect
wake_expect-Woken w o k inv l =
    let (p, run, woke) = Returns-value (wake-Woken w inv o k l) in rw (run, woke.0) (returns woke.1)

-- An object as a function of its signal and its queue.
pub record Signals (mk : Signal → List Waker → Object) : Type 0 where
  pub queue : (s : Signal) (q : List Waker) → queue_of (some (mk s q)) ≡ q
  pub requeue : (s : Signal) (q r : List Waker) → with_queue r (mk s q) ≡ mk s r
  pub resignal : (s : Signal) (q : List Waker) → with_signal reset (mk s q) ≡ mk (reset s) q
  pub purge :
      (id : ℕ) (s : Signal) (q : List Waker)
      → remove_in id (some (mk s q)) ≡ some (mk s (drop_thread id q))

pub event-Signals : Signals Object.event
event-Signals = record {
  queue = λ s q. refl;
  requeue = λ s q r. refl;
  resignal = λ s q. refl;
  purge = λ id s q. refl;
}

pub timer-Signals : (n i : ℤ) → Signals (λ s q. Object.timer s q n i)
timer-Signals n i = record {
  queue = λ s q. refl;
  requeue = λ s q r. refl;
  resignal = λ s q. refl;
  purge = λ id s q. refl;
}

module _ (w : World) (o : ℕ) (mk : Signal → List Waker → Object) (s : Signal) where
  -- Every waiter is ready, the queue is empty, and the signal stays set.
  pub record AllWoken (q : List Waker) (v : World) : Type 0 where
    pub keeps : Inv v
    pub settled : All (Settled v.threads) q
    pub others :
        (j : ℕ) → All (λ k. k.thread ≢ j) q → find_thread j v.threads ≡ find_thread j w.threads
    pub object : v.objects o ≡ some (mk s [])

  -- The first waiter is ready and has left the queue, the signal is clear, no other thread changes.
  pub record FirstWoken (k : Waker) (q : List Waker) (v : World) : Type 0 where
    pub keeps : Inv v
    pub settled : Settled v.threads k
    pub others : (j : ℕ) → j ≢ k.thread → find_thread j v.threads ≡ find_thread j w.threads
    pub object : v.objects o ≡ some (mk (reset s) (drop_thread k.thread q))

  -- Without a waiter the signal stays set.
  pub record Kept (v : World) : Type 0 where
    pub keeps : Inv v
    pub threads : v.threads ≡ w.threads
    pub object : v.objects o ≡ some (mk s [])

  abbrev pub Notified : Bool → List Waker → World → Type 0
  Notified true q v = AllWoken q v
  Notified false [] v = Kept v
  Notified false (k ∷ ks) v = FirstWoken k (k ∷ ks) v

module _ {mk : Signal → List Waker → Object} (sig : Signals mk) (w : World) (o : ℕ)
    (s : Signal) where
  emptied-Inv :
      (v : World) (q : List Waker)
      → Inv v
      → v.objects o ≡ some (mk s q)
      → Inv (modify v o (with_queue []))
  emptied-Inv v q inv at =
      modify_at-Inv v o (with_queue []) (mk s q) inv at (rw (sig.requeue s q [], sig.queue s []) tt)

  notify-sticky :
      (q : List Waker)
      → Inv w
      → w.objects o ≡ some (mk s q)
      → Returns
          (AllWoken w o mk s q)
          (wake_each (modify w o (with_queue [])) o q >>= λ v. ok (modify v o (with_queue [])))
  notify-sticky q inv at =
      let emptied : World = modify w o (with_queue []) in
      let same : emptied.threads ≡ w.threads = modify-threads w o (with_queue []) in
      let at' : emptied.objects o ≡ some (mk s []) =
        modify_at w o (with_queue []) at ∙ ap some (sig.requeue s q []) in
      let live : All (Live w.threads o) q =
        rw (sig.queue s q) at (live_queue w o (mk s q) inv at) in
      let inv' : Inv emptied = emptied-Inv w q inv at in
      Returns-bind (wake_each-Readied emptied o q inv' (rw same live)) λ v r.
        let put_back : v.objects o ≡ some (mk s []) =
          r.untouched o (ap queue_of at' ∙ sig.queue s []) ∙ at' in
        returns (record {
          keeps = emptied-Inv v [] r.keeps put_back;
          settled = rw (modify-threads v o (with_queue [])) r.settled;
          others = λ j ne.
              ap (find_thread j) (modify-threads v o (with_queue []))
              ∙ r.others j ne
              ∙ ap (find_thread j) same;
          object = modify_at v o (with_queue []) put_back ∙ ap some (sig.requeue s [] []);
        })

  notify-first :
      (k : Waker) (ks : List Waker)
      → Inv w
      → w.objects o ≡ some (mk s (k ∷ ks))
      → Returns
          (FirstWoken w o mk s k (k ∷ ks))
          (wake_expect w k o >>= λ v. ok (modify v o (with_signal reset)))
  notify-first k ks inv at =
      let live : All (Live w.threads o) (k ∷ ks) =
        rw (sig.queue s (k ∷ ks)) at (live_queue w o (mk s (k ∷ ks)) inv at) in
      Returns-bind (wake_expect-Woken w o k inv live.0) λ v wk.
        let left : v.objects o ≡ some (mk s (drop_thread k.thread (k ∷ ks))) =
          wk.purged o ∙ ap (remove_in k.thread) at ∙ sig.purge k.thread s (k ∷ ks) in
        let inv' : Inv v = Woken-Inv inv wk in
        returns (record {
          keeps = modify_at-Inv v o (with_signal reset) _ inv' left (
              rw
                (
                  sig.resignal s (drop_thread k.thread (k ∷ ks)),
                  sig.queue (reset s) (drop_thread k.thread (k ∷ ks)),
                )
                (rw (sig.queue s (drop_thread k.thread (k ∷ ks))) at (live_queue v o _ inv' left)));
          settled =
              rw (modify-threads v o (with_signal reset))
                (Settled-same live.0 wk k refl (inl live.0));
          others =
              λ j ne. ap (find_thread j) (modify-threads v o (with_signal reset)) ∙ wk.others j ne;
          object = modify_at v o (with_signal reset) left ∙ ap some (sig.resignal s _);
        })

  pub notify-Notified :
      (q : List Waker)
      → Inv w
      → w.objects o ≡ some (mk s q)
      → Returns (Notified w o mk s (is_sticky s) q) (notify w o s q)
  unfolding notify
  notify-Notified q inv at = elim (Bool-cases (is_sticky s)) [
    | inl e ↦ rw e (notify-sticky q inv at)
    | inr e ↦ rw e (first q at)
  ]
    where
      first :
          (q : List Waker)
          → w.objects o ≡ some (mk s q)
          → Returns (Notified w o mk s false q) (elim (pomelo.Prelude.head? q) [
            | none ↦ ok w
            | some k ↦ wake_expect w k o >>= λ v. ok (modify v o (with_signal reset))
          ])
      first [] at = returns (record { keeps = inv; threads = refl; object = at })
      first (k ∷ ks) at = notify-first k ks inv at

-- In a world without stale wakers, signalling an event ends without a panic. A sticky event readies
-- every waiter and stays set; any other readies the first waiter only, which leaves the queue, and is
-- clear; without a waiter it stays set. No other thread changes, and no queue has a stale waker.
pub event_signal-Notified :
    (w : World) (o : ℕ) (s : Signal) (q : List Waker)
    → Inv w
    → w.objects o ≡ some (Object.event s q)
    → Returns
        (Notified
          (put_object w o (Object.event (signal s) q))
          o
          Object.event
          (signal s)
          (is_sticky s)
          q)
        (event_signal w o s q)
unfolding event_signal
event_signal-Notified w o s q inv at =
    notify-Notified event-Signals (put_object w o (Object.event (signal s) q)) o (signal s) q
      (put-Inv w o _ inv (live_queue w o (Object.event s q) inv at)) (rw (==_self o) refl)
