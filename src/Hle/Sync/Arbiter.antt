-- ===== src/Hle/Sync/Arbiter.antt =====
-- hle/src/arbiter.rs: whom a signal of an address arbiter wakes.
use pomelo.Prelude.{
  ℕ, zero, suc, ◌<◌, ◌≡◌, ◌≢◌, refl, sym, ap, ◌∙◌, Bool, true, false, some, List, [], ◌∷◌, map,
  ◌==◌, arith, inl, inr, ltb, Bool-cases, All, Returns, returns, Returns-mono, Returns-bind,
  ==_self, if◌then◌else◌, ◌&&◌, take, drop, length,
}
use pomelo.Prelude.Int.{ℤ}
use pomelo.Kernel.World.{Waker, Object, World, put_object, find_thread}
use pomelo.Kernel.Wake.{remove_in}
use pomelo.Kernel.Wake.Removal.{queue_of}
use pomelo.Kernel.Wake.Live.{Live, Inv, Free, remove_in_absent}
use pomelo.Kernel.Wake.Woken.{Woken, Woken-Inv, Live-move}
use pomelo.Hle.Notify.Each.{Settled, Settled-same, Settled-keep}
use pomelo.Hle.Sync.{drain, spend, all_threads, signal_count, arbiter_signal, wake_listed}
use pomelo.Hle.Sync.Waits.{put-Inv, live_queue}
use pomelo.Hle.Sync.Signals.{wake_expect-Woken}

-- The wakers that wait on the address, in order, and the entries that wait on another.
pub waiting_at : ℕ → List (Waker × ℕ) → List Waker
waiting_at addr [] = []
waiting_at addr ((k, a) ∷ q) = if a == addr then k ∷ waiting_at addr q else waiting_at addr q

pub elsewhere : ℕ → List (Waker × ℕ) → List (Waker × ℕ)
elsewhere addr [] = []
elsewhere addr ((k, a) ∷ q) = if a == addr then elsewhere addr q else (k, a) ∷ elsewhere addr q

-- A signal with a count below the greatest `u32` drains the first wakers at the address, up to the
-- count; what stays is the rest of them, and every entry of another address.
pub drain_lem :
    (addr count : ℕ) (q : List (Waker × ℕ))
    → count < all_threads
    → ((drain addr count q).0 ≡ take count (waiting_at addr q))
      × (waiting_at addr (drain addr count q).1 ≡ drop count (waiting_at addr q))
      × (elsewhere addr (drain addr count q).1 ≡ elsewhere addr q)
unfolding drain waiting_at elsewhere
drain_lem addr zero [] h = (refl, refl, refl)
drain_lem addr (suc n) [] h = (refl, refl, refl)
drain_lem addr zero ((k, a) ∷ q) h = ground (arith, drain_lem addr zero q h)
drain_lem addr (suc n) ((k, a) ∷ q) h =
    ground (arith, drain_lem addr n q (omega arith), drain_lem addr (suc n) q h)

-- With the greatest `u32` it drains all of them.
pub drain_all :
    (addr : ℕ) (q : List (Waker × ℕ))
    → ((drain addr all_threads q).0 ≡ waiting_at addr q)
      × (waiting_at addr (drain addr all_threads q).1 ≡ [])
      × (elsewhere addr (drain addr all_threads q).1 ≡ elsewhere addr q)
unfolding drain waiting_at elsewhere
drain_all addr [] = (refl, refl, refl)
drain_all addr ((k, a) ∷ q) = ground (arith, drain_all addr q)

abbrev queued : List (Waker × ℕ) → List Waker
queued q = map (λ e. e.0) q

drain-All :
    (P : Waker → Type 0) (addr count : ℕ) (q : List (Waker × ℕ))
    → All P (queued q)
    → All P (drain addr count q).0 × All P (queued (drain addr count q).1)
unfolding drain
drain-All P addr count [] h = (tt, tt)
drain-All P addr count ((k, a) ∷ q) h = elim (Bool-cases ((a == addr) && ltb 0 count)) [
  | inl e ↦ rw e (let r = drain-All P addr (spend count) q h.1 in ((h.0, r.0), r.1))
  | inr e ↦ rw e (let r = drain-All P addr count q h.1 in (r.0, (h.0, r.1)))
]

-- No thread has two wakers in the queue.
abbrev pub Distinct : List Waker → Type 0
Distinct [] = Unit {0}
Distinct (k ∷ ks) = Free k.thread ks × Distinct ks

All-and :
    (k : Waker) (rest : List (Waker × ℕ)) (out : List Waker)
    → Free k.thread out
    → All (λ j. Free j.thread (queued rest)) out
    → All (λ j. (k.thread ≢ j.thread) × Free j.thread (queued rest)) out
All-and k rest [] f r = tt
All-and k rest (j ∷ js) f r = ((λ e. f.0 (sym e), r.0), All-and k rest js f.1 r.1)

drain-Distinct :
    (addr count : ℕ) (q : List (Waker × ℕ))
    → Distinct (queued q)
    → Distinct (drain addr count q).0
      × All (λ k. Free k.thread (queued (drain addr count q).1)) (drain addr count q).0
unfolding drain
drain-Distinct addr count [] h = (tt, tt)
drain-Distinct addr count ((k, a) ∷ q) h = elim (Bool-cases ((a == addr) && ltb 0 count)) [
  | inl e ↦ rw e (
      let r = drain-Distinct addr (spend count) q h.1 in
      let f = drain-All (λ j. j.thread ≢ k.thread) addr (spend count) q h.0 in
      ((f.0, r.0), (f.1, r.1)))
  | inr e ↦ rw e (
      let r = drain-Distinct addr count q h.1 in
      let f = drain-All (λ j. j.thread ≢ k.thread) addr count q h.0 in
      (r.0, All-and k (drain addr count q).1 (drain addr count q).0 f.0 r.1))
]

-- All the drained threads are ready, all others as they were, and the object keeps its queue.
pub record Drained (w : World) (o : ℕ) (out : List Waker) (x : Object) (v : World) : Type 0 where
  pub keeps : Inv v
  pub settled : All (Settled v.threads) out
  pub others :
      (j : ℕ) → All (λ k. k.thread ≢ j) out → find_thread j v.threads ≡ find_thread j w.threads
  pub object : v.objects o ≡ some x

record Progress (w : World) (o : ℕ) (out : List Waker) (x : Object) (v : World) : Type 0 where
  drained : Drained w o out x v
  keeps_settled : (j : Waker) → Settled w.threads j → Settled v.threads j

wake_listed-Progress :
    (w : World) (o : ℕ) (x : Object) (out : List Waker)
    → Inv w
    → All (Live w.threads o) out
    → Distinct out
    → All (λ k. Free k.thread (queue_of (some x))) out
    → w.objects o ≡ some x
    → Returns (Progress w o out x) (wake_listed w o out)
unfolding wake_listed
wake_listed-Progress w o x [] inv l d f at = returns (record {
  drained = record { keeps = inv; settled = tt; others = λ j ne. refl; object = at };
  keeps_settled = λ j m. m;
})
wake_listed-Progress w o x (k ∷ ks) inv l d f at =
    Returns-bind (wake_expect-Woken w o k inv l.0) λ v wk.
      let left : v.objects o ≡ some x =
        wk.purged o ∙ ap (remove_in k.thread) at ∙ remove_in_absent k.thread (some x) f.0 in
      Returns-mono
        (wake_listed-Progress v o x ks (Woken-Inv inv wk) (still ks d.0 l.1 wk) d.1 f.1 left)
        λ u p. record {
          drained = record {
            keeps = p.drained.keeps;
            settled = (p.keeps_settled k (Settled-same l.0 wk k refl (inl l.0)), p.drained.settled);
            others = λ j ne. p.drained.others j ne.1 ∙ wk.others j (λ e. ne.0 (sym e));
            object = p.drained.object;
          };
          keeps_settled = λ j m. p.keeps_settled j (Settled-keep l.0 wk j m);
        }
  where
    still :
        {v : World} (js : List Waker)
        → Free k.thread js
        → All (Live w.threads o) js
        → Woken w o k l.0.waiter v
        → All (Live v.threads o) js
    still [] g m wk = tt
    still (j ∷ js) g m wk = (Live-move wk j g.0 m.0, still js g.1 m.1 wk)

-- In a world without stale wakers, and with at most one waker of each thread in the arbiter's queue, a
-- signal ends without a panic: the drained threads are ready, no other thread changes, the queue holds
-- what `drain` left, and the result says whether a thread was drained.
pub arbiter_signal-Drained :
    (w : World) (o : ℕ) (q : List (Waker × ℕ)) (amount : ℤ) (addr : ℕ)
    → Inv w
    → Distinct (map (λ e. e.0) q)
    → w.objects o ≡ some (Object.arbiter q)
    → Returns
        (λ ((v, woke) : World × Bool).
          Drained w o
            (drain addr (signal_count amount) q).0
            (Object.arbiter (drain addr (signal_count amount) q).1)
            v
          × (woke ≡ ltb 0 (length (drain addr (signal_count amount) q).0)))
        (arbiter_signal w o q amount addr)
unfolding arbiter_signal
arbiter_signal-Drained w o q amount addr inv d at =
    let n = signal_count amount in
    let out = (drain addr n q).0 in
    let rest = (drain addr n q).1 in
    let live = drain-All (Live w.threads o) addr n q (live_queue w o (Object.arbiter q) inv at) in
    let apart = drain-Distinct addr n q d in
    let u : World = put_object w o (Object.arbiter rest) in
    Returns-bind
      (wake_listed-Progress u o (Object.arbiter rest) out
        (put-Inv w o (Object.arbiter rest) inv live.1) live.0 apart.0 apart.1 (rw (==_self o) refl))
      λ v p. returns (
        record {
          keeps = p.drained.keeps;
          settled = p.drained.settled;
          others = p.drained.others;
          object = p.drained.object;
        },
        any out,
      )
  where
    any : (ks : List Waker) → (elim ks [ [] ↦ false | j ∷ js ↦ true ]) ≡ ltb 0 (length ks)
    any [] = refl
    any (j ∷ js) = ground arith
