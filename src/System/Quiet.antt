-- ===== src/System/Quiet.antt =====
-- kernel/src/lib.rs: writes to threads and objects that concern no waiter.
use pomelo.Prelude.{
  ℕ, ◌≡◌, ◌≢◌, refl, sym, ap, ◌∙◌, Bool-cases, inl, inr, some, List, [], ◌∷◌, ◌++◌, map, All-map,
  ◌==◌, ==_of_ne,
}
use pomelo.Kernel.World.{Waker, CommonThread, ThreadState, World, find_thread, set_thread}
use pomelo.Kernel.Wake.Removal.{queue_of}
use pomelo.Kernel.Wake.Live.{Live, Inv, find_thread-set_thread, find_unique}

-- Live wakers do not see a change that leaves every waiting thread as it is.
pub threads-Inv :
    (w : World) (ts : List CommonThread)
    → ((j : ℕ) (t : CommonThread)
        → find_thread j w.threads ≡ some t
        → t.state ≡ ThreadState.waiting
        → find_thread j ts ≡ some t)
    → Inv w
    → Inv (record w { threads = ts })
threads-Inv w ts same inv p =
    All-map (Live w.threads p) (Live ts p) (queue_of (w.objects p))
      (λ j m. record {
        waiter = m.waiter;
        found = same j.thread m.waiter m.found m.waits;
        waits = m.waits;
        current = m.current;
        kind = m.kind;
        held = m.held;
      })
      (inv p)

-- A write to a thread that does not wait.
pub set_thread-Inv :
    (w : World) (tid : ℕ) (t u : CommonThread)
    → Inv w
    → find_thread tid w.threads ≡ some t
    → t.state ≢ ThreadState.waiting
    → u.index ≡ tid
    → Inv (record w { threads = set_thread tid u w.threads })
set_thread-Inv w tid t u inv found quiet at =
    threads-Inv w (set_thread tid u w.threads)
      (λ j x fx waits.
        find_thread-set_thread tid j u w.threads at
        ∙ rw
            (==_of_ne j tid (λ e. absurd (
              quiet (
                ap (λ (y : CommonThread). y.state) (find_unique w.threads found fx (sym e))
                ∙ waits))))
            fx)
      inv

find_append :
    (j : ℕ) (ts : List CommonThread) (u : CommonThread) {t : CommonThread}
    → find_thread j ts ≡ some t
    → find_thread j (ts ++ u ∷ []) ≡ some t
unfolding find_thread
find_append j [] u h = cc
find_append j (x ∷ ts) u h = elim (Bool-cases (x.index == j)) [
  | inl b ↦ rw b (rw b at h)
  | inr b ↦ rw b (find_append j ts u (rw b at h))
]

-- A thread behind the others.
pub append_thread-Inv :
    (w : World) (u : CommonThread) → Inv w → Inv (record w { threads = w.threads ++ u ∷ [] })
append_thread-Inv w u inv =
    threads-Inv w (w.threads ++ u ∷ []) (λ j x fx waits. find_append j w.threads u fx) inv

-- The wakers at an arbiter, with one more behind them.
pub waiters_append :
    (q : List (Waker × ℕ)) (k : Waker) (addr : ℕ)
    → map (λ (e : Waker × ℕ). e.0) (q ++ (k, addr) ∷ []) ≡ map (λ e. e.0) q ++ k ∷ []
waiters_append [] k addr = refl
waiters_append (x ∷ q) k addr = ap (λ r. x.0 ∷ r) (waiters_append q k addr)
