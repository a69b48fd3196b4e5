-- ===== src/System/Steady.antt =====
-- kernel/src/lib.rs and hle/src: what every operation on threads and objects keeps, whatever the state:
-- the threads and their indices, a kind of wait for each that waits, and arbiters' queues in which no
-- thread stands twice.
pub mod Operations
pub mod Waits
pub mod Turns
use pomelo.Prelude.{
  ℕ, ◌≡◌, ◌≢◌, refl, sym, ap, ◌∙◌, Bool, true, false, not, Bool-cases, inl, inr, Option, none, some,
  is_some, List, [], ◌∷◌, map, retain, All, Run, ok, panic, ◌>>=◌, ◌>>◌, expect, assert, ◌==◌,
  eq_of_==, if◌then◌else◌, some-inj,
}
use mathlib.Core.Path.{subst}
use pomelo.Kernel.World.{
  CommonThread, ThreadState, Waker, check_opaque_id, Object, Objects, World, put_object,
  find_thread, set_thread,
}
use pomelo.Kernel.Wake.{drop_thread_addr, remove_wakers, remove_in, remove_at, remove_all}
use pomelo.Kernel.Wake.Live.{Free, find_thread-index}
use pomelo.Hle.Notify.{modify}
use pomelo.Hle.Sync.Arbiter.{Distinct}

-- A thread that waits has a kind of wait.
abbrev pub Fit : CommonThread → Type 0
Fit t = t.state ≡ ThreadState.waiting → is_some t.wait_type ≡ true

-- No thread stands twice in the queue of an arbiter.
abbrev pub Tidy : Option Object → Type 0
Tidy (some (Object.arbiter q)) = Distinct (map (λ e. e.0) q)
Tidy _ = Unit {0}

abbrev pub indices : List CommonThread → List ℕ
indices ts = map (λ (t : CommonThread). t.index) ts

pub record Steady (w v : World) : Type 0 where
  pub fit : All Fit w.threads → All Fit v.threads
  pub same_indices : indices v.threads ≡ indices w.threads
  pub tidy : ((o : ℕ) → Tidy (w.objects o)) → (o : ℕ) → Tidy (v.objects o)

pub Steady-self : (w : World) → Steady w w
Steady-self w = record { fit = λ h. h; same_indices = refl; tidy = λ h. h }

pub Steady-trans : {u v w : World} → Steady u v → Steady v w → Steady u w
Steady-trans a b = record {
  fit = λ h. b.fit (a.fit h);
  same_indices = b.same_indices ∙ a.same_indices;
  tidy = λ h. b.tidy (a.tidy h);
}

Free-drop :
    (t id : ℕ) (q : List (Waker × ℕ))
    → Free t (map (λ e. e.0) q)
    → Free t (map (λ e. e.0) (drop_thread_addr id q))
Free-drop t id [] h = tt
Free-drop t id (e ∷ q) h = elim (Bool-cases (check_opaque_id e.0 id)) [
  | inl b ↦ rw b (Free-drop t id q h.1)
  | inr b ↦ rw b (h.0, Free-drop t id q h.1)
]

Distinct-drop :
    (id : ℕ) (q : List (Waker × ℕ))
    → Distinct (map (λ e. e.0) q)
    → Distinct (map (λ e. e.0) (drop_thread_addr id q))
Distinct-drop id [] h = tt
Distinct-drop id (e ∷ q) h = elim (Bool-cases (check_opaque_id e.0 id)) [
  | inl b ↦ rw b (Distinct-drop id q h.1)
  | inr b ↦ rw b (Free-drop e.0.thread id q h.0, Distinct-drop id q h.1)
]

remove_in-Tidy : (id : ℕ) (x : Option Object) → Tidy x → Tidy (remove_in id x)
remove_in-Tidy id none h = tt
remove_in-Tidy id (some (Object.arbiter q)) h = Distinct-drop id q h
remove_in-Tidy id (some (Object.event s q)) h = tt
remove_in-Tidy id (some (Object.mutex a q)) h = tt
remove_in-Tidy id (some (Object.timer s q n i)) h = tt
remove_in-Tidy id (some (Object.thread t d q)) h = tt
remove_in-Tidy id (some (Object.server_session q r c)) h = tt
remove_in-Tidy id (some (Object.client_session q s)) h = tt
remove_in-Tidy id (some (Object.server_port q r c)) h = tt
remove_in-Tidy id (some (Object.client_port q s)) h = tt
remove_in-Tidy id (some Object.codeset) h = tt

pub remove_all-Tidy :
    (id : ℕ) (os : List ℕ) (s : Objects)
    → ((o : ℕ) → Tidy (s o))
    → (o : ℕ) → Tidy (remove_all id os s o)
unfolding remove_all
remove_all-Tidy id [] s h = h
remove_all-Tidy id (p ∷ os) s h = remove_all-Tidy id os (remove_at id p s) (λ o.
    elim (Bool-cases (o == p)) [
      | inl b ↦ rw b (remove_in-Tidy id (s o) (h o))
      | inr b ↦ rw b (h o)
    ])

set_thread-Fit :
    (i : ℕ) (u : CommonThread) (ts : List CommonThread)
    → Fit u
    → All Fit ts
    → All Fit (set_thread i u ts)
unfolding set_thread
set_thread-Fit i u [] f h = tt
set_thread-Fit i u (t ∷ ts) f h = elim (Bool-cases (t.index == i)) [
  | inl b ↦ rw b (f, h.1)
  | inr b ↦ rw b (h.0, set_thread-Fit i u ts f h.1)
]

set_thread-indices :
    (i : ℕ) (u : CommonThread) (ts : List CommonThread)
    → u.index ≡ i
    → indices (set_thread i u ts) ≡ indices ts
unfolding set_thread
set_thread-indices i u [] e = refl
set_thread-indices i u (t ∷ ts) e = elim (Bool-cases (t.index == i)) [
  | inl b ↦ rw b (ap (λ j. j ∷ indices ts) (e ∙ sym (eq_of_== t.index i b)))
  | inr b ↦ rw b (ap (λ js. t.index ∷ js) (set_thread-indices i u ts e))
]

-- A thread that was found is written back with its index, and fit.
pub set_thread-Steady :
    (w : World) (i : ℕ) (u : CommonThread)
    → u.index ≡ i
    → Fit u
    → Steady w (record w { threads = set_thread i u w.threads })
set_thread-Steady w i u e f = record {
  fit = set_thread-Fit i u w.threads f;
  same_indices = set_thread-indices i u w.threads e;
  tidy = λ h. h;
}

pub put_object-Steady :
    (w : World) (o : ℕ) (x : Object)
    → (((p : ℕ) → Tidy (w.objects p)) → Tidy (some x))
    → Steady w (put_object w o x)
put_object-Steady w o x t = record {
  fit = λ h. h;
  same_indices = refl;
  tidy = λ h p. elim (Bool-cases (p == o)) [ inl b ↦ rw b (t h) | inr b ↦ rw b (h p) ];
}

-- A write through an object's cells that leaves an arbiter as it is.
pub modify-Steady :
    (w : World) (o : ℕ) (f : Object → Object)
    → ((x : Object) → Tidy (some x) → Tidy (some (f x)))
    → Steady w (modify w o f)
modify-Steady w o f t = go (w.objects o) refl
  where
    go :
        (m : Option Object)
        → w.objects o ≡ m
        → Steady w (elim m [ none ↦ w | some x ↦ put_object w o (f x) ])
    go none e = Steady-self w
    go (some x) e = put_object-Steady w o (f x) (λ h. t x (subst Tidy e (h o)))
