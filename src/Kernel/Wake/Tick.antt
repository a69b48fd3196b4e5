-- ===== src/Kernel/Wake/Tick.antt =====
-- kernel/src/lib.rs: `CommonThreadManager::tick_at` readies the threads whose wait has run out.
use mathlib.Core.Path.{subst}
use pomelo.Prelude.{
  ℕ, ◌+◌, ◌%◌, ◌^◌, ◌≡◌, ◌≢◌, refl, sym, ap, ◌∙◌, true, Option, none, some, List, [], ◌∷◌, ◌++◌,
  append_assoc, ◌==◌, if◌then◌else◌, arith, inl, inr, Bool-cases, All, All-map, All-append, ok,
  Returns, returns, Returns-bind, has, is_some, ==_self, ==_of_ne, ◌>>=◌, some-inj,
}
use pomelo.Kernel.World.{
  CommonThread, ThreadState, WaitType, sleep, arbiter, wait_sync_1, wait_sync_n, Resume, Objects,
  find_thread, WakeReason,
}
use pomelo.Kernel.Wake.{timed_out, tick_thread, tick_threads, wake_up, resume_after, remove_all}
use pomelo.Kernel.Wake.Removal.{remove_all-at, queue_of}
use pomelo.Kernel.Wake.Live.{Live, Inv, remove_in_absent}
use pomelo.Kernel.Wake.Woken.{purged-Inv}

-- What a tick makes of a thread: one whose wait has run out is ready and resumes with the timeout, or
-- normally from a sleep; any other stays as it is.
pub record Expired (t u : CommonThread) : Type 0 where
  pub is_ready : u.state ≡ ThreadState.ready
  pub next_key : u.wake_key ≡ (t.wake_key + 1) % 2 ^ 64
  pub same_index : u.index ≡ t.index
  pub kind : WaitType
  pub waited : t.wait_type ≡ some kind
  pub resumes : resume_after WakeReason.timeout kind t.wait_objects ≡ ok u.resume

abbrev pub Ticked : ℕ → List CommonThread → List CommonThread → Type 0
Ticked time [] [] = Unit {0}
Ticked time [] (u ∷ us) = ⊥
Ticked time (t ∷ ts) [] = ⊥
Ticked time (t ∷ ts) (u ∷ us) =
    (if timed_out time t then Expired t u else (u ≡ t)) × Ticked time ts us

-- No two threads have one index.
abbrev pub Indexed : List CommonThread → Type 0
Indexed [] = Unit {0}
Indexed (t ∷ ts) = All (λ x. x.index ≢ t.index) ts × Indexed ts

-- A thread whose wait has run out has a kind of wait.
abbrev pub Typed : ℕ → CommonThread → Type 0
Typed time t = timed_out time t ≡ true → is_some t.wait_type ≡ true

resume_timeout :
    (kind : WaitType) (os : List ℕ)
    → (r : Resume) × (resume_after WakeReason.timeout kind os ≡ ok r)
unfolding resume_after
resume_timeout sleep os = (Resume.normal, refl)
resume_timeout arbiter os = (Resume.timeout_reached, refl)
resume_timeout wait_sync_1 os = (Resume.timeout_reached, refl)
resume_timeout wait_sync_n os = (Resume.timeout_reached, refl)

wake_up-Expired :
    (t : CommonThread) (s : Objects)
    → is_some t.wait_type ≡ true
    → (u : CommonThread) × Expired t u
      × (wake_up t WakeReason.timeout s ≡ ok (u, remove_all t.index t.wait_objects s))
unfolding wake_up
wake_up-Expired t s typed = go t.wait_type refl typed
  where
    go :
        (k : Option WaitType)
        → t.wait_type ≡ k
        → is_some k ≡ true
        → (u : CommonThread) × Expired t u
          × (wake_up t WakeReason.timeout s ≡ ok (u, remove_all t.index t.wait_objects s))
    go none e typed = ground arith
    go (some kind) e typed =
        let (r, er) = resume_timeout kind t.wait_objects in
        (
          record t {
            state = ThreadState.ready;
            wake_key = (t.wake_key + 1) % 2 ^ 64;
            resume = r;
            wait_objects = [];
          },
          record {
            is_ready = refl;
            next_key = refl;
            same_index = refl;
            kind = kind;
            waited = e;
            resumes = er;
          },
          simp (e, er),
        )

find_thread-here :
    (pre : List CommonThread) (t : CommonThread) (ts : List CommonThread)
    → All (λ x. t.index ≢ x.index) pre
    → find_thread t.index (pre ++ t ∷ ts) ≡ some t
unfolding find_thread
find_thread-here [] t ts h = rw (==_self t.index) refl
find_thread-here (x ∷ xs) t ts h =
    rw (==_of_ne x.index t.index (λ e. h.0 (sym e))) (find_thread-here xs t ts h.1)

find_thread-replaced :
    (pre : List CommonThread) (t u : CommonThread) (ts : List CommonThread) (j : ℕ)
    → u.index ≡ t.index
    → j ≢ t.index
    → find_thread j (pre ++ u ∷ ts) ≡ find_thread j (pre ++ t ∷ ts)
unfolding find_thread
find_thread-replaced [] t u ts j same ne =
    rw (==_of_ne u.index j (λ e. ne (sym e ∙ same)), ==_of_ne t.index j (λ e. ne (sym e))) refl
find_thread-replaced (x ∷ xs) t u ts j same ne =
    ap (λ r. if x.index == j then some x else r) (find_thread-replaced xs t u ts j same ne)

-- One thread's wait runs out, between those before it and those behind.
expire-Inv :
    (pre : List CommonThread) (t u : CommonThread) (ts : List CommonThread) (s : Objects)
    → All (λ x. t.index ≢ x.index) pre
    → u.index ≡ t.index
    → Inv (record { threads = pre ++ t ∷ ts; objects = s })
    → Inv (record { threads = pre ++ u ∷ ts; objects = remove_all t.index t.wait_objects s })
expire-Inv pre t u ts s apart same inv =
    purged-Inv (record { threads = pre ++ t ∷ ts; objects = s })
      (record { threads = pre ++ u ∷ ts; objects = remove_all t.index t.wait_objects s }) t.index
      (λ j ne. find_thread-replaced pre t u ts j same ne)
      (λ p. elim (Bool-cases (has p t.wait_objects)) [
        | inl e ↦ remove_all-at t.index t.wait_objects s p ∙ rw e refl
        | inr e ↦
            remove_all-at t.index t.wait_objects s p
            ∙ rw e (
                sym (
                  remove_in_absent t.index (s p) (
                    All-map (Live (pre ++ t ∷ ts) p) (λ k. k.thread ≢ t.index) (queue_of (s p))
                      (λ k m here.
                        let held : has p t.wait_objects ≡ true =
                          ap (λ (x : CommonThread). has p x.wait_objects)
                            (some-inj (
                              sym (find_thread-here pre t ts apart)
                              ∙ ap (λ i. find_thread i (pre ++ t ∷ ts)) (sym here)
                              ∙ m.found))
                          ∙ m.held in
                        ground arith)
                      (inv p))))
      ])
      inv

-- The threads behind `pre`, and the objects, after the loop over `ts`.
abbrev Swept : ℕ → List CommonThread → List CommonThread → List CommonThread × Objects → Type 0
Swept time pre ts r = Ticked time ts r.0 × Inv (record { threads = pre ++ r.0; objects = r.1 })

sweep_rest :
    (time : ℕ) (pre : List CommonThread) (t u : CommonThread) (ts : List CommonThread) (s : Objects)
    → (if timed_out time t then Expired t u else (u ≡ t))
    → Returns (Swept time (pre ++ u ∷ []) ts) (tick_threads time ts s)
    → Returns (Swept time pre (t ∷ ts)) (tick_threads time ts s >>= λ (us, s'). ok (u ∷ us, s'))
sweep_rest time pre t u ts s head rest = Returns-bind rest (λ r swept. returns (
  (head, swept.0),
  subst (λ all. Inv (record { threads = all; objects = r.1 })) (append_assoc pre (u ∷ []) r.0)
      swept.1,
))

apart-snoc :
    (pre ts : List CommonThread) (t u : CommonThread)
    → u.index ≡ t.index
    → All (λ x. All (λ y. x.index ≢ y.index) pre) ts
    → All (λ x. x.index ≢ t.index) ts
    → All (λ x. All (λ y. x.index ≢ y.index) (pre ++ u ∷ [])) ts
apart-snoc pre [] t u same a b = tt
apart-snoc pre (x ∷ xs) t u same a b = (
  All-append (λ y. x.index ≢ y.index) pre (u ∷ []) a.0 (λ e. b.0 (e ∙ same), tt),
  apart-snoc pre xs t u same a.1 b.1,
)

sweep :
    (time : ℕ) (pre ts : List CommonThread) (s : Objects)
    → All (λ x. All (λ y. x.index ≢ y.index) pre) ts
    → Indexed ts
    → All (Typed time) ts
    → Inv (record { threads = pre ++ ts; objects = s })
    → Returns (Swept time pre ts) (tick_threads time ts s)
unfolding tick_threads tick_thread
sweep time pre [] s apart one typed inv = returns (tt, inv)
sweep time pre (t ∷ ts) s apart one typed inv = elim (Bool-cases (timed_out time t)) [
  | inl out ↦
      let (u, ex, run) = wake_up-Expired t s (typed.0 out) in
      let s' = remove_all t.index t.wait_objects s in
      let inv' = expire-Inv pre t u ts s apart.0 ex.same_index inv in
      rw (out, tick_thread, run)
        (sweep_rest time pre t u ts s' (rw out ex) (
          sweep time (pre ++ u ∷ []) ts s' (apart-snoc pre ts t u ex.same_index apart.1 one.0) one.1
            typed.1
            (subst (λ all. Inv (record { threads = all; objects = s' }))
              (sym (append_assoc pre (u ∷ []) ts)) inv')))
  | inr stays ↦
      rw (stays, tick_thread)
        (sweep_rest time pre t t ts s (rw stays refl) (
          sweep time (pre ++ t ∷ []) ts s (apart-snoc pre ts t t refl apart.1 one.0) one.1 typed.1 (
            subst (λ all. Inv (record { threads = all; objects = s }))
              (sym (append_assoc pre (t ∷ []) ts)) inv)))
]

-- In a world without stale wakers, in which no two threads have one index and every thread whose wait has
-- run out has a kind of wait, a tick ends without a panic: each thread whose wait has run out by `time` is
-- ready, with a new wake key, and resumes with the timeout (normally from a sleep), every other thread
-- is as before, and no queue has a stale waker.
pub tick_threads-Ticked :
    (time : ℕ) (ts : List CommonThread) (s : Objects)
    → Indexed ts
    → All (Typed time) ts
    → Inv (record { threads = ts; objects = s })
    → Returns
        (λ r. Ticked time ts r.0 × Inv (record { threads = r.0; objects = r.1 }))
        (tick_threads time ts s)
tick_threads-Ticked time ts s one typed inv = sweep time [] ts s (nothing ts) one typed inv
  where
    nothing :
        (us : List CommonThread)
        → All (λ (x : CommonThread). All (λ (y : CommonThread). x.index ≢ y.index) []) us
    nothing [] = tt
    nothing (u ∷ us) = (tt, nothing us)
