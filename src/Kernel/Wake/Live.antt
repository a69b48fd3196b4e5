-- ===== src/Kernel/Wake/Live.antt =====
-- kernel/src/lib.rs: the waker of a thread that still waits, and worlds without stale wakers.
use pomelo.Prelude.{
  ℕ, ◌≡◌, ◌≢◌, refl, sym, ap, ◌∙◌, true, Option, none, some, List, [], ◌∷◌, map, has, ◌==◌,
  if◌then◌else◌, arith, inl, inr, Bool-cases, All, eq_of_==, ==_of_ne,
}
use pomelo.Kernel.World.{
  Waker, Object, World, CommonThread, ThreadState, WaitType, find_thread, set_thread, sleep,
}
use pomelo.Kernel.Wake.{drop_thread, drop_thread_addr, remove_in}
use pomelo.Kernel.Wake.Removal.{queue_of}

-- A wait that an object ends.
abbrev pub ForObject : Option WaitType → Type 0
ForObject none = ⊥
ForObject (some sleep) = ⊥
ForObject (some _) = Unit

-- The waker of a thread that still waits, and for the object in whose queue the waker stands.
pub record Live (ts : List CommonThread) (o : ℕ) (k : Waker) : Type 0 where
  pub waiter : CommonThread
  pub found : find_thread k.thread ts ≡ some waiter
  pub waits : waiter.state ≡ ThreadState.waiting
  pub current : waiter.wake_key ≡ k.key
  pub kind : ForObject waiter.wait_type
  pub held : has o waiter.wait_objects ≡ true

-- Every waker in every queue is live.
abbrev pub Inv : World → Type 0
Inv w = (o : ℕ) → All (Live w.threads o) (queue_of (w.objects o))

pub find_thread-index :
    (i : ℕ) (ts : List CommonThread) {t : CommonThread} → find_thread i ts ≡ some t → t.index ≡ i
unfolding find_thread
find_thread-index i [] h = cc
find_thread-index i (t ∷ ts) h = elim (Bool-cases (t.index == i)) [
  | inl e ↦ ground (arith, eq_of_== t.index i e)
  | inr e ↦ find_thread-index i ts (rw e at h)
]

-- A write through `find_thread_mut` is what a later search for the same index finds, and no other
-- index sees it.
pub find_thread-set_thread :
    (i j : ℕ) (u : CommonThread) (ts : List CommonThread)
    → u.index ≡ i
    → find_thread j (set_thread i u ts) ≡ (
        if j == i
        then (elim (find_thread i ts) [ none ↦ none | some _ ↦ some u ])
        else find_thread j ts)
unfolding find_thread set_thread
find_thread-set_thread i j u [] h = ground arith
find_thread-set_thread i j u (t ∷ ts) h = ground (arith, find_thread-set_thread i j u ts h)

-- No waker of the thread.
abbrev pub Free : ℕ → List Waker → Type 0
Free id q = All (λ k. k.thread ≢ id) q

drop_thread_absent : (id : ℕ) (q : List Waker) → Free id q → drop_thread id q ≡ q
drop_thread_absent id [] h = refl
drop_thread_absent id (k ∷ q) h =
    rw (==_of_ne k.thread id h.0) (ap (λ r. k ∷ r) (drop_thread_absent id q h.1))

drop_thread_addr_absent :
    (id : ℕ) (q : List (Waker × ℕ)) → Free id (map (λ e. e.0) q) → drop_thread_addr id q ≡ q
drop_thread_addr_absent id [] h = refl
drop_thread_addr_absent id (x ∷ q) h =
    rw (==_of_ne x.0.thread id h.0) (ap (λ r. x ∷ r) (drop_thread_addr_absent id q h.1))

-- An object without wakers of the thread is not changed by their removal.
pub remove_in_absent : (id : ℕ) (x : Option Object) → Free id (queue_of x) → remove_in id x ≡ x
remove_in_absent id none h = refl
remove_in_absent id (some (Object.arbiter q)) h =
    ap (λ r. some (Object.arbiter r)) (drop_thread_addr_absent id q h)
remove_in_absent id (some Object.codeset) h = refl
remove_in_absent id (some (Object.event s q)) h =
    ap (λ r. some (Object.event s r)) (drop_thread_absent id q h)
remove_in_absent id (some (Object.mutex a q)) h =
    ap (λ r. some (Object.mutex a r)) (drop_thread_absent id q h)
remove_in_absent id (some (Object.timer s q n i)) h =
    ap (λ r. some (Object.timer s r n i)) (drop_thread_absent id q h)
remove_in_absent id (some (Object.thread t d q)) h =
    ap (λ r. some (Object.thread t d r)) (drop_thread_absent id q h)
remove_in_absent id (some (Object.server_session q r c)) h =
    ap (λ x. some (Object.server_session x r c)) (drop_thread_absent id q h)
remove_in_absent id (some (Object.client_session q s)) h =
    ap (λ x. some (Object.client_session x s)) (drop_thread_absent id q h)
remove_in_absent id (some (Object.server_port q r c)) h =
    ap (λ x. some (Object.server_port x r c)) (drop_thread_absent id q h)
remove_in_absent id (some (Object.client_port q s)) h =
    ap (λ x. some (Object.client_port x s)) (drop_thread_absent id q h)

pub find_unique :
    (ts : List CommonThread) {i j : ℕ} {t u : CommonThread}
    → find_thread i ts ≡ some t
    → find_thread j ts ≡ some u
    → i ≡ j
    → t ≡ u
find_unique ts {t} {u} p q e =
    let same : some t ≡ some u = sym p ∙ ap (λ n. find_thread n ts) e ∙ q in cc
