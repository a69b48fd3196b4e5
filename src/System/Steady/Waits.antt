-- ===== src/System/Steady/Waits.antt =====
-- kernel/src/lib.rs and hle/src: suspensions, waits, arbiters and exits are steady.
use pomelo.Prelude.{
  ℕ, ◌≡◌, refl, Bool, true, false, ◌&&◌, not, Bool-cases, inl, inr, Option, none, some, List, [],
  ◌∷◌, ◌++◌, map, ok, panic, ◌>>=◌, ◌>>◌, assert, ltb, ◌==◌, if◌then◌else◌, panics, returned,
  OnReturn-bind, either,
}
use pomelo.Prelude.Int.{ℤ}
use mathlib.Core.Path.{subst}
use pomelo.Kernel.Signal.{Signal, unconsume, consume}
use pomelo.Kernel.World.{
  CommonThread, ThreadState, WaitType, Waker, Object, World, find_thread, set_thread,
}
use pomelo.Kernel.Wake.Live.{Free, find_thread-index}
use pomelo.Kernel.Suspend.{suspend_thread, thread_wait, is_running}
use pomelo.Hle.Notify.{modify, with_signal}
use pomelo.Hle.Sync.{
  sync_wait, sync_wait_object, wait_signal, wait_mutex, wait_thread, release_lock, arbiter_signal,
  drain, spend, signal_count,
}
use pomelo.Hle.Sync.Arbiter.{Distinct}
use pomelo.System.Steady.{Tidy, Steady-self, set_thread-Steady, put_object-Steady, modify-Steady}
use pomelo.System.Steady.Operations.{
  Stays, StaysWith, first-StaysWith, from_Steady, after_expect, wake-Stays, wake_listed-Stays,
  resignal, lock-Tidy,
}

-- A suspension of the thread `tid`, with its waker.
pub suspend-Stays :
    (w : World) (tid : ℕ) (os : List ℕ) (timeout : Option ℕ) (kind : WaitType)
    → StaysWith Waker w (suspend_thread w tid os timeout kind)
unfolding suspend_thread thread_wait
suspend-Stays w tid os timeout kind =
    after_expect (find_thread tid w.threads)
      (λ t found. go t (find_thread-index tid w.threads found) (is_running t.state))
  where
    go :
        (t : CommonThread)
        → t.index ≡ tid
        → (b : Bool)
        → StaysWith Waker w (
            (assert b >> ok (record t { wait_objects = os; state = ThreadState.waiting })) >>= λ u.
            ok (
              record w {
                threads =
                    set_thread tid
                      (record u { wait_timeout = timeout; wait_type = some kind })
                      w.threads;
              },
              record { thread = u.index; key = u.wake_key },
            ))
    go t e true = returned (set_thread-Steady w tid _ e (λ r. refl))
    go t e false = panics

pub wait_signal-Stays :
    (w : World) (o : ℕ) (s : Signal) (q : List Waker) (mk : Signal → List Waker → Object)
    (k : Waker)
    → ((s' : Signal) (r : List Waker) → Tidy (some (mk s' r)))
    → Stays w (wait_signal w o s q mk k)
unfolding wait_signal
wait_signal-Stays w o s q mk k t =
    either (consume s).1 _ _
      (from_Steady (put_object-Steady w o (mk (consume s).0 q) (λ h. t (consume s).0 q)) (
        first-StaysWith _
          (λ (v, done). if done then ok v else ok (modify v o (with_signal unconsume)))
          (wake-Stays _ k o)
          (λ v done.
            either done _ _ (returned (Steady-self v)) (returned (resignal v o unconsume)))))
      (returned (put_object-Steady w o (mk s (q ++ k ∷ [])) (λ h. t s (q ++ k ∷ []))))

pub wait_mutex-Stays :
    (w : World) (o : ℕ) (acquired : Bool) (q : List Waker) (k : Waker)
    → Stays w (wait_mutex w o acquired q k)
unfolding wait_mutex
wait_mutex-Stays w o acquired q k =
    either (not acquired) _ _
      (from_Steady (put_object-Steady w o (Object.mutex true q) (λ h. tt)) (
        first-StaysWith _ (λ (v, done). if done then ok v else ok (modify v o release_lock))
          (wake-Stays _ k o)
          (λ v done.
            either done _ _ (returned (Steady-self v))
              (returned (modify-Steady v o release_lock lock-Tidy)))))
      (returned (put_object-Steady w o (Object.mutex true (q ++ k ∷ [])) (λ h. tt)))

pub wait_thread-Stays :
    (w : World) (o tid : ℕ) (dead : Bool) (q : List Waker) (k : Waker)
    → Stays w (wait_thread w o tid dead q k)
unfolding wait_thread
wait_thread-Stays w o tid dead q k =
    either dead _ _
      (first-StaysWith _ (λ (v, _). ok v) (wake-Stays w k o) (λ v done. returned (Steady-self v)))
      (returned (put_object-Steady w o (Object.thread tid dead (q ++ k ∷ [])) (λ h. tt)))

sync_wait_object-Stays :
    (w : World) (o : ℕ) (x : Object) (k : Waker) → Stays w (sync_wait_object w o x k)
unfolding sync_wait_object
sync_wait_object-Stays w o (Object.event s q) k =
    wait_signal-Stays w o s q Object.event k (λ s' r. tt)
sync_wait_object-Stays w o (Object.mutex a q) k = wait_mutex-Stays w o a q k
sync_wait_object-Stays w o (Object.timer s q n i) k =
    wait_signal-Stays w o s q (λ s' r. Object.timer s' r n i) k (λ s' r. tt)
sync_wait_object-Stays w o (Object.thread t d q) k = wait_thread-Stays w o t d q k
sync_wait_object-Stays w o (Object.server_session q r c) k =
    returned (put_object-Steady w o (Object.server_session (q ++ k ∷ []) r c) (λ h. tt))
sync_wait_object-Stays w o (Object.client_session q s) k =
    returned (put_object-Steady w o (Object.client_session (q ++ k ∷ []) s) (λ h. tt))
sync_wait_object-Stays w o (Object.server_port q r c) k =
    returned (put_object-Steady w o (Object.server_port (q ++ k ∷ []) r c) (λ h. tt))
sync_wait_object-Stays w o (Object.client_port q s) k =
    returned (put_object-Steady w o (Object.client_port (q ++ k ∷ []) s) (λ h. tt))
sync_wait_object-Stays w o (Object.arbiter q) k = panics
sync_wait_object-Stays w o Object.codeset k = panics

pub sync_wait-Stays : (w : World) (o : ℕ) (k : Waker) → Stays w (sync_wait w o k)
unfolding sync_wait
sync_wait-Stays w o k = go (w.objects o)
  where
    go : (m : Option Object) → Stays w (elim m [ none ↦ panic | some x ↦ sync_wait_object w o x k ])
    go none = panics
    go (some x) = sync_wait_object-Stays w o x k

-- What stays behind a drain is a part of the queue.
rest-Free :
    (addr count t : ℕ) (q : List (Waker × ℕ))
    → Free t (map (λ e. e.0) q)
    → Free t (map (λ e. e.0) (drain addr count q).1)
unfolding drain
rest-Free addr count t [] h = tt
rest-Free addr count t ((k, a) ∷ q) h = elim (Bool-cases ((a == addr) && ltb 0 count)) [
  | inl b ↦ rw b (rest-Free addr (spend count) t q h.1)
  | inr b ↦ rw b (h.0, rest-Free addr count t q h.1)
]

rest-Distinct :
    (addr count : ℕ) (q : List (Waker × ℕ))
    → Distinct (map (λ e. e.0) q)
    → Distinct (map (λ e. e.0) (drain addr count q).1)
unfolding drain
rest-Distinct addr count [] h = tt
rest-Distinct addr count ((k, a) ∷ q) h = elim (Bool-cases ((a == addr) && ltb 0 count)) [
  | inl b ↦ rw b (rest-Distinct addr (spend count) q h.1)
  | inr b ↦ rw b (rest-Free addr count k.thread q h.0, rest-Distinct addr count q h.1)
]

pub arbiter_signal-Stays :
    (w : World) (o : ℕ) (q : List (Waker × ℕ)) (amount : ℤ) (addr : ℕ)
    → w.objects o ≡ some (Object.arbiter q)
    → StaysWith Bool w (arbiter_signal w o q amount addr)
unfolding arbiter_signal
arbiter_signal-Stays w o q amount addr at =
    OnReturn-bind _
      (from_Steady
        (put_object-Steady w o (Object.arbiter (drain addr (signal_count amount) q).1)
          (λ h. rest-Distinct addr (signal_count amount) q (subst Tidy at (h o))))
        (wake_listed-Stays _ o (drain addr (signal_count amount) q).0))
      (λ v s. returned s)
