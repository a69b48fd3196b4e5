-- ===== src/Kernel/Wake/Woken.antt =====
-- kernel/src/lib.rs: what a wake-up does, and that it leaves no stale waker.
use pomelo.Prelude.{
  ℕ, suc, ◌+◌, ◌%◌, ◌^◌, ◌≡◌, ◌≢◌, refl, sym, ap, ◌∙◌, Bool, true, false, Option, none, some, List,
  [], ◌∷◌, has, ◌==◌, arith, inl, inr, Bool-cases, All, All-map, ok, Returns, returns, ==_self,
  ==_of_eq, ne_of_==, ==_of_ne,
}
use pomelo.Kernel.World.{
  Waker, Objects, World, CommonThread, ThreadState, WaitType, Resume, WakeReason, find_thread,
  wait_sync_1, wait_sync_n, arbiter, sleep, check_opaque_id,
}
use pomelo.Kernel.Wake.{drop_thread, remove_in, remove_all, position, resume_after, wake_up, wake}
use pomelo.Kernel.Wake.Removal.{remove_all-at, queue_of, queue_of-remove_in}
use pomelo.Kernel.Wake.Live.{
  ForObject, Live, Inv, Free, find_thread-index, find_thread-set_thread, find_unique,
  remove_in_absent,
}

position_total : (o : ℕ) (os : List ℕ) → has o os ≡ true → (i : ℕ) × (position o os ≡ some i)
unfolding position
position_total o [] h = cc
position_total o (x ∷ xs) h = elim (Bool-cases (x == o)) [
  | inl e ↦ (0, rw e)
  | inr e ↦
      let (i, found) = position_total o xs (ground arith) in (suc i, rw (e, found, position) refl)
]

resume_total :
    (o : ℕ) (kind : WaitType) (os : List ℕ)
    → ForObject (some kind)
    → has o os ≡ true
    → (r : Resume) × (resume_after (WakeReason.object o) kind os ≡ ok r)
unfolding resume_after
resume_total o wait_sync_1 os f h = (Resume.normal, refl)
resume_total o wait_sync_n os f h =
    let (i, e) = position_total o os h in (Resume.wait_sync_n i, rw e)
resume_total o arbiter os f h = (Resume.normal, refl)
resume_total o sleep os f h = absurd f

-- What a wake-up by object `o` makes of a thread.
pub record Wakes (o : ℕ) (t u : CommonThread) : Type 0 where
  pub kind : WaitType
  pub waited : t.wait_type ≡ some kind
  pub resumes : resume_after (WakeReason.object o) kind t.wait_objects ≡ ok u.resume
  pub is_ready : u.state ≡ ThreadState.ready
  pub next_key : u.wake_key ≡ (t.wake_key + 1) % 2 ^ 64
  pub same_index : u.index ≡ t.index
  pub released : u.wait_objects ≡ []

wake_up_total :
    (o : ℕ) (s : Objects) (t : CommonThread)
    → ForObject t.wait_type
    → has o t.wait_objects ≡ true
    → (u : CommonThread) × Wakes o t u
      × (wake_up t (WakeReason.object o) s ≡ ok (u, remove_all t.index t.wait_objects s))
unfolding wake_up
wake_up_total o s t f h = go t.wait_type refl f
  where
    go :
        (k : Option WaitType)
        → t.wait_type ≡ k
        → ForObject k
        → (u : CommonThread) × Wakes o t u
          × (wake_up t (WakeReason.object o) s ≡ ok (u, remove_all t.index t.wait_objects s))
    go none e f = absurd f
    go (some kind) e f =
        let (r, er) = resume_total o kind t.wait_objects f h in
        (
          record t {
            state = ThreadState.ready;
            wake_key = (t.wake_key + 1) % 2 ^ 64;
            resume = r;
            wait_objects = [];
          },
          record {
            kind = kind;
            waited = e;
            resumes = er;
            is_ready = refl;
            next_key = refl;
            same_index = refl;
            released = refl;
          },
          simp (e, er),
        )

-- The world after a wake-up of the waker's thread, which was `t`: the thread is ready and its key has
-- moved on, no other thread changes, and every queue loses that thread's wakers.
pub record Woken (w : World) (o : ℕ) (k : Waker) (t : CommonThread) (v : World) : Type 0 where
  pub woken : CommonThread
  pub wakes : Wakes o t woken
  pub found : find_thread k.thread v.threads ≡ some woken
  pub others : (j : ℕ) → j ≢ k.thread → find_thread j v.threads ≡ find_thread j w.threads
  pub purged : (p : ℕ) → v.objects p ≡ remove_in k.thread (w.objects p)

-- In a world without stale wakers, a queue of an object that the thread does not wait for is free of it.
module _ (w : World) (inv : Inv w) (o : ℕ) (k : Waker) (l : Live w.threads o k) where
  live_same :
      {p : ℕ} {j : Waker}
      → Live w.threads p j
      → j.thread ≡ k.thread
      → has p l.waiter.wait_objects ≡ true
  live_same {p} m e =
      ap (λ t. has p t.wait_objects) (sym (find_unique _ m.found l.found e)) ∙ m.held

  queue-Free :
      (p : ℕ) → has p l.waiter.wait_objects ≡ false → Free k.thread (queue_of (w.objects p))
  queue-Free p absent =
      All-map (Live w.threads p) (λ j. j.thread ≢ k.thread) _ (λ j m e. absurd (cc (live_same m e)))
        (inv p)

  purged_at :
      (p : ℕ)
      → remove_all k.thread l.waiter.wait_objects w.objects p ≡ remove_in k.thread (w.objects p)
  purged_at p = elim (Bool-cases (has p l.waiter.wait_objects)) [
    | inl e ↦ remove_all-at k.thread l.waiter.wait_objects w.objects p ∙ rw e refl
    | inr e ↦
        remove_all-at k.thread l.waiter.wait_objects w.objects p
        ∙ rw e (sym (remove_in_absent k.thread (w.objects p) (queue-Free p e)))
  ]

  -- In a world without stale wakers, the wake-up by a live waker succeeds without a panic: the thread is
  -- ready and its key has moved on, no other thread changes, and every queue loses that thread's wakers.
  pub wake-Woken :
      Returns (λ ((v, done) : World × Bool). (done ≡ true) × Woken w o k l.waiter v) (wake w k o)
  unfolding wake
  wake-Woken =
      let (u, wakes, run) = wake_up_total o w.objects l.waiter l.kind l.held in
      let at : l.waiter.index ≡ k.thread = find_thread-index k.thread w.threads l.found in
      rw (l.found, ==_of_eq _ _ l.current, run)
        (returns (
          refl,
          record {
            woken = u;
            wakes = wakes;
            found =
                find_thread-set_thread k.thread k.thread u w.threads (wakes.same_index ∙ at)
                ∙ rw (==_self k.thread, l.found) refl;
            others = λ j ne.
                find_thread-set_thread k.thread j u w.threads (wakes.same_index ∙ at)
                ∙ rw (==_of_ne _ _ ne) refl;
            purged = λ p. rw at (purged_at p);
          },
        ))

pub Live-move :
    {w v : World} {o p : ℕ} {k : Waker} {t : CommonThread}
    → Woken w o k t v
    → (j : Waker) → j.thread ≢ k.thread
    → Live w.threads p j
    → Live v.threads p j
Live-move wk j ne m = record {
  waiter = m.waiter;
  found = wk.others j.thread ne ∙ m.found;
  waits = m.waits;
  current = m.current;
  kind = m.kind;
  held = m.held;
}

All-drop :
    {P Q : Waker → Type 0} (id : ℕ) (q : List Waker)
    → ((j : Waker) → j.thread ≢ id → P j → Q j)
    → All P q
    → All Q (drop_thread id q)
All-drop id [] f h = tt
All-drop id (j ∷ q) f h = elim (Bool-cases (check_opaque_id j id)) [
  | inl e ↦ rw e (All-drop id q f h.1)
  | inr e ↦ rw e (f j (ne_of_== j.thread id e) h.0, All-drop id q f h.1)
]

-- A world that is another one without the wakers of a thread, with all other threads as they were.
pub purged-Inv :
    (w v : World) (id : ℕ)
    → ((j : ℕ) → j ≢ id → find_thread j v.threads ≡ find_thread j w.threads)
    → ((p : ℕ) → v.objects p ≡ remove_in id (w.objects p))
    → Inv w
    → Inv v
purged-Inv w v id others purged inv p =
    rw (purged p, queue_of-remove_in id (w.objects p))
      (All-drop id (queue_of (w.objects p))
        (λ j ne m. record {
          waiter = m.waiter;
          found = others j.thread ne ∙ m.found;
          waits = m.waits;
          current = m.current;
          kind = m.kind;
          held = m.held;
        })
        (inv p))

-- A wake-up leaves no stale waker.
pub Woken-Inv :
    {w v : World} {o : ℕ} {k : Waker} {t : CommonThread} → Inv w → Woken w o k t v → Inv v
Woken-Inv {w} {v} {k} inv wk = purged-Inv w v k.thread wk.others wk.purged inv

-- A waker whose key has passed wakes nothing.
pub wake_spent :
    (w : World) (o : ℕ) (k : Waker) {t : CommonThread}
    → find_thread k.thread w.threads ≡ some t
    → t.wake_key ≢ k.key
    → wake w k o ≡ ok (w, false)
unfolding wake
wake_spent w o k {t} found ne = rw (found, ==_of_ne t.wake_key k.key ne)
