-- ===== src/System/Runs/Asked.antt =====
-- kernel/src/lib.rs and hle/src/session.rs: waits at arbiters, requests and responses leave no stale waker.
use pomelo.Prelude.{
  ℕ, ◌≡◌, refl, ap, ◌∙◌, Bool, true, false, Option, none, some, List, [], ◌∷◌, ◌++◌, map,
  All-append, ok, panic, ◌>>=◌, Returns-mono, ==_self, OnReturn, panics, returned, OnReturn-bind,
  Returns-ok,
}
use pomelo.Kernel.World.{WaitType, wait_sync_1, Waker, Object, World, put_object}
use pomelo.Kernel.Wake.Live.{Live, Inv}
use pomelo.Kernel.Suspend.{suspend_thread, Suspended, suspend_thread-Suspended}
use pomelo.Hle.Sync.{arbiter_wait}
use pomelo.Hle.Sync.Waits.{put-Inv, live_queue}
use pomelo.Hle.Session.{sync_request, respond, wake_first, enqueue_sync_request}
use pomelo.Hle.Session.Request.{enqueue_request-Served, wake_first-Served}
use pomelo.System.Quiet.{waiters_append}
use pomelo.System.Runs.{Runs}
use pomelo.System.Runs.Stepped.{Sound, of_Returns}

-- A suspension of the thread that runs, and the new waker at an arbiter.
pub arbitrate-Inv :
    (w u : World) (tid o : ℕ) (q : List (Waker × ℕ)) (k : Waker) (addr : ℕ)
    → Inv w
    → Runs w tid
    → w.objects o ≡ some (Object.arbiter q)
    → suspend_thread w tid (o ∷ []) none WaitType.arbiter ≡ ok (u, k)
    → Inv (arbiter_wait u o q k addr)
unfolding arbiter_wait
arbitrate-Inv w u tid o q k addr inv (t, found, runs) at e =
    let s =
      Returns-ok (suspend_thread-Suspended w tid (o ∷ []) none WaitType.arbiter t inv found runs)
        e in
    put-Inv u o (Object.arbiter (q ++ (k, addr) ∷ [])) s.keeps (
      rw (waiters_append q k addr) (
        All-append (Live u.threads o) (map (λ e. e.0) q) (k ∷ [])
          (live_queue u o (Object.arbiter q) s.keeps
            (ap (λ (f : ℕ → Option Object). f o) s.same_objects ∙ at))
          (s.live o tt (rw (==_self o) refl), tt)))

pub request-Inv :
    (w u : World) (tid o : ℕ) (q : List Waker) (server : ℕ) (k : Waker)
    → Inv w
    → Runs w tid
    → w.objects o ≡ some (Object.client_session q server)
    → suspend_thread w tid (o ∷ []) none wait_sync_1 ≡ ok (u, k)
    → OnReturn (λ (r : World × Bool). Inv r.0) (sync_request u o q server k)
unfolding sync_request
request-Inv w u tid o q server k inv (t, found, runs) at e = go (u.objects server) refl
  where
    s : Suspended w tid (o ∷ []) wait_sync_1 u k
    s = Returns-ok (suspend_thread-Suspended w tid (o ∷ []) none wait_sync_1 t inv found runs) e

    queued : World
    queued = put_object u o (Object.client_session (q ++ k ∷ []) server)

    queued-Inv : Inv queued
    queued-Inv = put-Inv u o (Object.client_session (q ++ k ∷ []) server) s.keeps (
        All-append (Live u.threads o) q (k ∷ [])
          (live_queue u o (Object.client_session q server) s.keeps
            (ap (λ (f : ℕ → Option Object). f o) s.same_objects ∙ at))
          (s.live o tt (rw (==_self o) refl), tt))

    go :
        (m : Option Object)
        → u.objects server ≡ m
        → OnReturn
            (λ (r : World × Bool). Inv r.0)
            (elim m [
              | none ↦ ok (u, false)
              | some x ↦ elim x [
                | Object.server_session sq requests client ↦
                    enqueue_sync_request queued server sq requests client k.thread >>= λ v.
                    ok (v, true)
                | _ ↦ ok (u, false)
              ]
            ])
    go none at' = returned s.keeps
    go (some (Object.server_session sq requests client)) at' =
        OnReturn-bind _
          (of_Returns (
            Returns-mono
              (enqueue_request-Served queued server sq requests client k.thread queued-Inv
                (live_queue u server _ s.keeps at'))
              (λ v h. h.keeps)))
          (λ v i. returned i)
    go (some (Object.event s' q')) at' = returned s.keeps
    go (some _) at' = returned s.keeps

pub respond-Inv : (w : World) (client : Option ℕ) → Inv w → Sound (respond w client)
unfolding respond
respond-Inv w none inv = panics
respond-Inv w (some client) inv = go (w.objects client) refl
  where
    go :
        (m : Option Object)
        → w.objects client ≡ m
        → Sound (elim m [
          | none ↦ panic
          | some x ↦ elim x [
            | Object.client_session q server ↦ wake_first w client q
            | Object.client_port q server ↦ wake_first w client q
            | _ ↦ panic
          ]
        ])
    go none at = panics
    go (some (Object.client_session q server)) at = of_Returns (
        Returns-mono
          (wake_first-Served w client q (λ p. Object.client_session p server)
            (record { queue = λ p. refl; requeue = λ p r. refl; removal = λ id p. refl }) inv
            (live_queue w client _ inv at) at)
          (λ v h. h.keeps))
    go (some (Object.client_port q server)) at = of_Returns (
        Returns-mono
          (wake_first-Served w client q (λ p. Object.client_port p server)
            (record { queue = λ p. refl; requeue = λ p r. refl; removal = λ id p. refl }) inv
            (live_queue w client _ inv at) at)
          (λ v h. h.keeps))
    go (some (Object.event s q)) at = panics
    go (some _) at = panics
