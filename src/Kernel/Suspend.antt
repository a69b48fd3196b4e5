-- ===== src/Kernel/Suspend.antt =====
-- kernel/src/lib.rs: `CommonThread::wait` and `KernelExt::suspend_thread`.
use pomelo.Prelude.{
  ℕ, ◌≡◌, ◌≢◌, refl, sym, ap, ◌∙◌, Bool, true, false, Option, some, List, has, All-map, Run, ok,
  Returns, returns, ◌>>=◌, ◌>>◌, expect, assert, ==_of_ne, ==_self,
}
use pomelo.Kernel.World.{
  ThreadState, running, WaitType, CommonThread, Waker, World, find_thread, set_thread,
}
use pomelo.Kernel.Wake.Removal.{queue_of}
use pomelo.Kernel.Wake.Live.{
  Live, Inv, ForObject, find_unique, find_thread-set_thread, find_thread-index,
}

abbrev pub is_running : ThreadState → Bool
is_running running = true
is_running _ = false

-- `CommonThread::wait`.
unfoldable pub thread_wait : CommonThread → List ℕ → Run CommonThread
thread_wait t objects = do
  assert (is_running t.state)
  ok (record t { wait_objects = objects; state = ThreadState.waiting })

-- `suspend_thread` of the current thread `tid`, with the waker that it gives.
unfoldable pub suspend_thread : World → ℕ → List ℕ → Option ℕ → WaitType → Run (World × Waker)
unfolding thread_wait
suspend_thread w tid objects timeout kind = do
  t ← expect (find_thread tid w.threads)
  u ← thread_wait t objects
  ok (
    record w {
      threads =
          set_thread tid (record u { wait_timeout = timeout; wait_type = some kind }) w.threads;
    },
    record { thread = u.index; key = u.wake_key },
  )

-- A suspension of the running thread `tid`.
pub record Suspended (w : World) (tid : ℕ) (objects : List ℕ) (kind : WaitType) (v : World)
    (k : Waker) : Type 0 where
  pub keeps : Inv v
  pub thread : k.thread ≡ tid
  pub same_objects : v.objects ≡ w.objects
  pub others : (j : ℕ) → j ≢ tid → find_thread j v.threads ≡ find_thread j w.threads
  pub live : (o : ℕ) → ForObject (some kind) → has o objects ≡ true → Live v.threads o k

-- In a world without stale wakers, suspending a running thread ends without a panic: its waker is live
-- for each object that it is to wait for, no object and no other thread changes, and no queue has a
-- stale waker.
pub suspend_thread-Suspended :
    (w : World) (tid : ℕ) (objects : List ℕ) (timeout : Option ℕ) (kind : WaitType)
    (t : CommonThread)
    → Inv w
    → find_thread tid w.threads ≡ some t
    → t.state ≡ running
    → Returns
        (λ ((v, k) : World × Waker). Suspended w tid objects kind v k)
        (suspend_thread w tid objects timeout kind)
unfolding suspend_thread
suspend_thread-Suspended w tid objects timeout kind t inv found runs = rw found (
    simp runs (
      returns (record {
        keeps = λ p.
            All-map (Live w.threads p) (Live _ p) (queue_of (w.objects p))
              (λ j m. record {
                waiter = m.waiter;
                found = others j.thread (λ e. clash m e) ∙ m.found;
                waits = m.waits;
                current = m.current;
                kind = m.kind;
                held = m.held;
              })
              (inv p);
        thread = at;
        same_objects = refl;
        others = others;
        live = λ o f h. record {
          waiter = u;
          found =
              ap (λ j. find_thread j (set_thread tid u w.threads)) at
              ∙ find_thread-set_thread tid tid u w.threads at
              ∙ rw (==_self tid, found) refl;
          waits = refl;
          current = refl;
          kind = f;
          held = h;
        };
      })))
  where
    at : t.index ≡ tid
    at = find_thread-index tid w.threads found

    u : CommonThread
    u = record t {
      wait_objects = objects;
      state = ThreadState.waiting;
      wait_timeout = timeout;
      wait_type = some kind;
    }

    others :
        (j : ℕ) → j ≢ tid → find_thread j (set_thread tid u w.threads) ≡ find_thread j w.threads
    others j ne = find_thread-set_thread tid j u w.threads at ∙ rw (==_of_ne j tid ne) refl

    clash : {p : ℕ} {j : Waker} → Live w.threads p j → j.thread ≡ tid → ⊥
    clash m e =
        let both : running ≡ ThreadState.waiting =
          sym runs
          ∙ ap (λ (x : CommonThread). x.state) (sym (find_unique w.threads m.found found e))
          ∙ m.waits in
        cc
