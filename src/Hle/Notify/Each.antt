-- ===== src/Hle/Notify/Each.antt =====
-- hle/src: the loop that wakes every waiter of an object readies each thread once, without a panic.
use pomelo.Prelude.{
  ℕ, ◌≡◌, ◌≢◌, ◌⊎◌, refl, sym, ap, ◌∙◌, Bool, some, List, [], ◌∷◌, ◌==◌, arith, inl, inr,
  Bool-cases, All, All-map, Returns, returns, Returns-bind, Returns-mono, eq_of_==, ne_of_==,
}
use pomelo.Kernel.World.{Waker, World, CommonThread, ThreadState, find_thread}
use pomelo.Kernel.Wake.{wake}
use pomelo.Kernel.Wake.Live.{Live, Inv, find_unique, remove_in_absent}
use pomelo.Kernel.Wake.Woken.{Woken, wake-Woken, Woken-Inv, Live-move, wake_spent}
use pomelo.Kernel.Wake.Removal.{queue_of}
use pomelo.Hle.Notify.{wake_each}

-- The thread of the waker is ready, and the waker is spent.
pub record Settled (ts : List CommonThread) (k : Waker) : Type 0 where
  pub waiter : CommonThread
  pub found : find_thread k.thread ts ≡ some waiter
  pub is_ready : waiter.state ≡ ThreadState.ready
  pub spent : waiter.wake_key ≢ k.key

abbrev pub Sound : List CommonThread → ℕ → Waker → Type 0
Sound ts o k = Live ts o k ⊎ Settled ts k

Settled-move :
    {w v : World} {o : ℕ} {k : Waker} {t : CommonThread}
    → Woken w o k t v
    → (j : Waker) → j.thread ≢ k.thread
    → Settled w.threads j
    → Settled v.threads j
Settled-move wk j ne m = record {
  waiter = m.waiter;
  found = wk.others j.thread ne ∙ m.found;
  is_ready = m.is_ready;
  spent = m.spent;
}

module _ {w v : World} {o : ℕ} {k : Waker} (l : Live w.threads o k)
    (wk : Woken w o k l.waiter v) where
  -- Another waker of the thread that has just been woken is spent.
  pub Settled-same : (j : Waker) → j.thread ≡ k.thread → Sound w.threads o j → Settled v.threads j
  Settled-same j e (inl m) = record {
    waiter = wk.woken;
    found = ap (λ i. find_thread i v.threads) e ∙ wk.found;
    is_ready = wk.wakes.is_ready;
    spent = λ h.
        let key : m.waiter.wake_key ≡ l.waiter.wake_key =
          ap (λ (t : CommonThread). t.wake_key) (find_unique _ m.found l.found e) in
        omega (arith, wk.wakes.next_key, m.current, key);
  }
  Settled-same j e (inr m) =
      let both : ThreadState.ready ≡ ThreadState.waiting =
        sym m.is_ready
        ∙ ap (λ (t : CommonThread). t.state) (find_unique _ m.found l.found e)
        ∙ l.waits in
      cc

  pub Settled-keep : (j : Waker) → Settled w.threads j → Settled v.threads j
  Settled-keep j m = elim (Bool-cases (j.thread == k.thread)) [
    | inl e ↦ Settled-same j (eq_of_== _ _ e) (inr m)
    | inr e ↦ Settled-move wk j (ne_of_== _ _ e) m
  ]

  Sound-move : (j : Waker) → Sound w.threads o j → Sound v.threads o j
  Sound-move j h = elim (Bool-cases (j.thread == k.thread)) [
    | inl e ↦ inr (Settled-same j (eq_of_== _ _ e) h)
    | inr e ↦ elim h [
      | inl m ↦ inl (Live-move wk j (ne_of_== _ _ e) m)
      | inr m ↦ inr (Settled-keep j m)
    ]
  ]

-- One wake-up of the loop.
record Step (w : World) (o : ℕ) (k : Waker) (v : World) : Type 0 where
  keeps : Inv v
  sound : (j : Waker) → Sound w.threads o j → Sound v.threads o j
  settled : Settled v.threads k
  keeps_settled : (j : Waker) → Settled w.threads j → Settled v.threads j
  others : (j : ℕ) → k.thread ≢ j → find_thread j v.threads ≡ find_thread j w.threads
  untouched : (p : ℕ) → queue_of (w.objects p) ≡ [] → v.objects p ≡ w.objects p

-- An object with an empty queue is not changed by a wake-up.
pub Woken-untouched :
    {w v : World} {o : ℕ} {k : Waker} {t : CommonThread}
    → Woken w o k t v
    → (p : ℕ) → queue_of (w.objects p) ≡ []
    → v.objects p ≡ w.objects p
Woken-untouched {w} {k} wk p e = wk.purged p ∙ remove_in_absent k.thread (w.objects p) (rw e tt)

wake-Step :
    (w : World) (o : ℕ) (k : Waker)
    → Inv w
    → Sound w.threads o k
    → Returns (λ (p : World × Bool). Step w o k p.0) (wake w k o)
wake-Step w o k inv (inl l) = Returns-mono (wake-Woken w inv o k l) (λ p h. record {
  keeps = Woken-Inv inv h.1;
  sound = Sound-move l h.1;
  settled = Settled-same l h.1 k refl (inl l);
  keeps_settled = Settled-keep l h.1;
  others = λ j ne. h.1.others j (λ e. ne (sym e));
  untouched = λ p e. Woken-untouched h.1 p e;
})
wake-Step w o k inv (inr m) = rw (wake_spent w o k m.found m.spent) (
    returns (record {
      keeps = inv;
      sound = λ j h. h;
      settled = m;
      keeps_settled = λ j h. h;
      others = λ j ne. refl;
      untouched = λ p e. refl;
    }))

-- After the loop the thread of each waker is ready, and no stale waker stands in any queue.
-- Threads without a waker in the list and objects without a queue are as before.
pub record Readied (w : World) (q : List Waker) (v : World) : Type 0 where
  pub keeps : Inv v
  pub settled : All (Settled v.threads) q
  pub others :
      (j : ℕ) → All (λ k. k.thread ≢ j) q → find_thread j v.threads ≡ find_thread j w.threads
  pub untouched : (p : ℕ) → queue_of (w.objects p) ≡ [] → v.objects p ≡ w.objects p

record Loop (w : World) (q : List Waker) (v : World) : Type 0 where
  readied : Readied w q v
  keeps_settled : (j : Waker) → Settled w.threads j → Settled v.threads j

wake_each-Loop :
    (w : World) (o : ℕ) (q : List Waker)
    → Inv w
    → All (Sound w.threads o) q
    → Returns (Loop w q) (wake_each w o q)
unfolding wake_each
wake_each-Loop w o [] inv h = returns (record {
  readied = record { keeps = inv; settled = tt; others = λ j ne. refl; untouched = λ p e. refl };
  keeps_settled = λ j m. m;
})
wake_each-Loop w o (k ∷ ks) inv h = Returns-bind (wake-Step w o k inv h.0) λ (v, done) st.
    Returns-mono
      (wake_each-Loop v o ks st.keeps
        (All-map (Sound w.threads o) (Sound v.threads o) ks st.sound h.1))
      λ u l. record {
        readied = record {
          keeps = l.readied.keeps;
          settled = (l.keeps_settled k st.settled, l.readied.settled);
          others = λ j ne. l.readied.others j ne.1 ∙ st.others j ne.0;
          untouched =
              λ p e. l.readied.untouched p (ap queue_of (st.untouched p e) ∙ e) ∙ st.untouched p e;
        };
        keeps_settled = λ j m. l.keeps_settled j (st.keeps_settled j m);
      }

-- In a world without stale wakers, waking each of a list of live wakers of one object ends without a
-- panic: the thread of each is ready, threads without a waker in the list and objects without a queue
-- are as before, and no queue has a stale waker.
pub wake_each-Readied :
    (w : World) (o : ℕ) (q : List Waker)
    → Inv w
    → All (Live w.threads o) q
    → Returns (Readied w q) (wake_each w o q)
wake_each-Readied w o q inv h =
    Returns-mono
      (wake_each-Loop w o q inv (All-map (Live w.threads o) (Sound w.threads o) q (λ j m. inl m) h))
      λ v l. l.readied
