-- ===== src/System/Runs/Fresh.antt =====
-- kernel/src/lib.rs and hle/src: new objects and threads, and new waiters at arbiters, keep the invariant of
-- runs.
use pomelo.Prelude.{
  ℕ, ◌≡◌, ◌≢◌, refl, sym, ap, ◌∙◌, true, false, Bool-cases, inl, inr, none, some, List, [], ◌∷◌,
  ◌++◌, map, All, All-map, All-append, ◌==◌, ==_self,
}
use mathlib.Core.Path.{subst}
use pomelo.Kernel.World.{CommonThread, ThreadState, Waker, Object, World, find_thread}
use pomelo.Kernel.Wake.Removal.{queue_of}
use pomelo.Kernel.Wake.Live.{Live, Inv, Free, find_unique}
use pomelo.Kernel.Wake.Tick.{Indexed}
use pomelo.Kernel.Context.{new_common_thread, add_thread}
use pomelo.Hle.Sync.{is_sync}
use pomelo.Hle.Sync.Waits.{put-Inv, live_queue}
use pomelo.Hle.Sync.Arbiter.{Distinct}
use pomelo.System.Steady.{Fit, Tidy, indices, put_object-Steady}
use pomelo.System.Quiet.{waiters_append, append_thread-Inv}
use pomelo.System.Runs.{Good, Runs}

-- A list of indices without repetition.
abbrev Apart : List ℕ → Type 0
Apart [] = Unit {0}
Apart (i ∷ is) = All (λ j. j ≢ i) is × Apart is

others_apart :
    (i : ℕ) (ts : List CommonThread) → All (λ x. x.index ≢ i) ts → All (λ j. j ≢ i) (indices ts)
others_apart i [] h = tt
others_apart i (t ∷ ts) h = (h.0, others_apart i ts h.1)

others_back :
    (i : ℕ) (ts : List CommonThread) → All (λ j. j ≢ i) (indices ts) → All (λ x. x.index ≢ i) ts
others_back i [] h = tt
others_back i (t ∷ ts) h = (h.0, others_back i ts h.1)

Indexed-Apart : (ts : List CommonThread) → Indexed ts → Apart (indices ts)
Indexed-Apart [] h = tt
Indexed-Apart (t ∷ ts) h = (others_apart t.index ts h.0, Indexed-Apart ts h.1)

Apart-Indexed : (ts : List CommonThread) → Apart (indices ts) → Indexed ts
Apart-Indexed [] h = tt
Apart-Indexed (t ∷ ts) h = (others_back t.index ts h.0, Apart-Indexed ts h.1)

pub same_Indexed : (ts us : List CommonThread) → indices us ≡ indices ts → Indexed ts → Indexed us
same_Indexed ts us e h = Apart-Indexed us (subst Apart (sym e) (Indexed-Apart ts h))

-- An object without waiters, and one that is no arbiter.
pub empty-Tidy : (x : Object) → queue_of (some x) ≡ [] → Tidy (some x)
empty-Tidy (Object.arbiter q) e = subst Distinct (sym e) tt
empty-Tidy (Object.event s q) e = tt
empty-Tidy (Object.mutex a q) e = tt
empty-Tidy (Object.timer s q n i) e = tt
empty-Tidy (Object.thread t d q) e = tt
empty-Tidy (Object.server_session q r c) e = tt
empty-Tidy (Object.client_session q s) e = tt
empty-Tidy (Object.server_port q r c) e = tt
empty-Tidy (Object.client_port q s) e = tt
empty-Tidy Object.codeset e = tt

pub sync-Tidy : (x : Object) → is_sync x ≡ true → Tidy (some x)
sync-Tidy (Object.arbiter q) e = cc
sync-Tidy (Object.event s q) e = tt
sync-Tidy (Object.mutex a q) e = tt
sync-Tidy (Object.timer s q n i) e = tt
sync-Tidy (Object.thread t d q) e = tt
sync-Tidy (Object.server_session q r c) e = tt
sync-Tidy (Object.client_session q s) e = tt
sync-Tidy (Object.server_port q r c) e = tt
sync-Tidy (Object.client_port q s) e = tt
sync-Tidy Object.codeset e = tt

-- A thread with a new index behind the others.
append_Indexed :
    (tid : ℕ) (ts : List CommonThread) (u : CommonThread)
    → u.index ≡ tid
    → find_thread tid ts ≡ none
    → Indexed ts
    → Indexed (ts ++ u ∷ [])
unfolding find_thread
append_Indexed tid [] u e h d = (tt, tt)
append_Indexed tid (t ∷ ts) u e h d = elim (Bool-cases (t.index == tid)) [
  | inl b ↦ cc (rw b at h)
  | inr b ↦ (
    All-append (λ x. x.index ≢ t.index) ts (u ∷ []) d.0 ((λ s. differs b s), tt),
    append_Indexed tid ts u e (rw b at h) d.1,
  )
]
  where
    differs : (t.index == tid) ≡ false → u.index ≡ t.index → ⊥
    differs b s =
        let clash : false ≡ true = sym b ∙ ap (λ i. i == tid) (sym s ∙ e) ∙ ==_self tid in cc

pub add_thread-Good :
    (w : World) (pid tid place : ℕ)
    → find_thread tid w.threads ≡ none
    → Good w
    → Good (add_thread w pid tid place)
unfolding add_thread new_common_thread
add_thread-Good w pid tid place absent good = record {
  inv = put-Inv _ place (Object.thread tid false []) (append_thread-Inv w _ good.inv) tt;
  fit = All-append Fit w.threads _ good.fit (clash, tt);
  indexed = append_Indexed tid w.threads _ refl absent good.indexed;
  tidy = (put_object-Steady w place (Object.thread tid false []) (λ h. tt)).tidy good.tidy;
}
  where
    clash : Fit (new_common_thread pid tid place)
    clash e = let c : ThreadState.ready ≡ ThreadState.waiting = e in cc

-- The thread that runs is at no object, so its new waker there is the only one.
Distinct-snoc : (q : List Waker) (k : Waker) → Distinct q → Free k.thread q → Distinct (q ++ k ∷ [])
Distinct-snoc [] k d f = (tt, tt)
Distinct-snoc (j ∷ q) k d f = (
  All-append (λ (x : Waker). x.thread ≢ j.thread) q (k ∷ []) d.0 ((λ e. f.0 (sym e)), tt),
  Distinct-snoc q k d.1 f.1,
)

pub running_Free :
    (w : World) (tid o : ℕ) (x : Object)
    → Inv w
    → Runs w tid
    → w.objects o ≡ some x
    → Free tid (queue_of (some x))
running_Free w tid o x inv (t, found, runs) at =
    All-map (Live w.threads o) (λ j. j.thread ≢ tid) (queue_of (some x))
      (λ j m e.
        let clash : ThreadState.running ≡ ThreadState.waiting =
          sym runs
          ∙ ap (λ (y : CommonThread). y.state) (sym (find_unique w.threads m.found found e))
          ∙ m.waits in
        absurd cc)
      (live_queue w o x inv at)

pub arbiter_wait-Tidy :
    (w : World) (tid o : ℕ) (q : List (Waker × ℕ)) (k : Waker) (addr : ℕ)
    → Good w
    → Runs w tid
    → w.objects o ≡ some (Object.arbiter q)
    → k.thread ≡ tid
    → Tidy (some (Object.arbiter (q ++ (k, addr) ∷ [])))
arbiter_wait-Tidy w tid o q k addr good runs at e = subst Distinct (sym (waiters_append q k addr)) (
    Distinct-snoc (map (λ x. x.0) q) k (subst Tidy at (good.tidy o)) (
      subst (λ i. Free i (map (λ x. x.0) q)) (sym e)
        (running_Free w tid o (Object.arbiter q) good.inv runs at)))
