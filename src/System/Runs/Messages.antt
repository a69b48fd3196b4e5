-- ===== src/System/Runs/Messages.antt =====
-- kernel/src/lib.rs: a write to the message of a thread keeps the invariant of runs.
use pomelo.Prelude.{
  ℕ, ◌≡◌, refl, sym, ap, ◌∙◌, Bool-cases, inl, inr, some, List, [], ◌∷◌, All, All-map, ◌==◌,
  eq_of_==, some-inj, has, true,
}
use mathlib.Core.Path.{subst}
use pomelo.Prelude.Buffer.{Buffer}
use pomelo.Kernel.World.{CommonThread, Waker, World, find_thread, set_thread}
use pomelo.Kernel.Wake.Removal.{queue_of}
use pomelo.Kernel.Wake.Live.{
  Live, Inv, ForObject, find_thread-index, find_thread-set_thread, find_unique,
}
use pomelo.System.Steady.{Fit}

-- A thread that is found has what all have.
found_All :
    (P : CommonThread → Type 0) (i : ℕ) (ts : List CommonThread) (t : CommonThread)
    → All P ts
    → find_thread i ts ≡ some t
    → P t
unfolding find_thread
found_All P i [] t h e = cc
found_All P i (u ∷ ts) t h e = elim (Bool-cases (u.index == i)) [
  | inl b ↦ subst P (some-inj (rw b at e)) h.0
  | inr b ↦ found_All P i ts t h.1 (rw b at e)
]

pub message-Fit :
    (w : World) (i : ℕ) (t : CommonThread) (message : Buffer)
    → All Fit w.threads
    → find_thread i w.threads ≡ some t
    → Fit (record t { ipc_data = message })
message-Fit w i t message h e = found_All Fit i w.threads t h e

message-Live :
    (ts : List CommonThread) (i : ℕ) (t : CommonThread) (message : Buffer) (o : ℕ) (k : Waker)
    → find_thread i ts ≡ some t
    → Live ts o k
    → Live (set_thread i (record t { ipc_data = message }) ts) o k
message-Live ts i t message o k found m =
    let u : CommonThread = record t { ipc_data = message } in
    let at = find_thread-set_thread i k.thread u ts (find_thread-index i ts found) in
    elim (Bool-cases (k.thread == i)) [
      | inl b ↦
          let e : m.waiter ≡ t = find_unique ts m.found found (eq_of_== k.thread i b) in
          record {
            waiter = u;
            found = at ∙ rw (b, found) refl;
            waits = ap (λ (x : CommonThread). x.state) (sym e) ∙ m.waits;
            current = ap (λ (x : CommonThread). x.wake_key) (sym e) ∙ m.current;
            kind = subst (λ (x : CommonThread). ForObject x.wait_type) e m.kind;
            held = subst (λ (x : CommonThread). has o x.wait_objects ≡ true) e m.held;
          }
      | inr b ↦ record {
        waiter = m.waiter;
        found = at ∙ rw b m.found;
        waits = m.waits;
        current = m.current;
        kind = m.kind;
        held = m.held;
      }
    ]

pub message-Inv :
    (w : World) (i : ℕ) (t : CommonThread) (message : Buffer)
    → Inv w
    → find_thread i w.threads ≡ some t
    → Inv (record w { threads = set_thread i (record t { ipc_data = message }) w.threads })
message-Inv w i t message inv found = λ o.
    All-map (Live w.threads o) (Live (set_thread i (record t { ipc_data = message }) w.threads) o)
      (queue_of (w.objects o)) (λ k m. message-Live w.threads i t message o k found m) (inv o)
