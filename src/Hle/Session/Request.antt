-- ===== src/Hle/Session/Request.antt =====
-- hle/src/session.rs and port.rs: requests, replies and sessions reach the threads that wait for them.
use pomelo.Prelude.{
  ℕ, ◌≡◌, ◌≢◌, refl, ap, ◌∙◌, Option, some, List, [], ◌∷◌, ◌++◌, All, Returns, returns,
  Returns-mono, ==_self, inl, sym,
}
use mathlib.Core.Path.{subst}
use pomelo.Kernel.World.{Waker, Object, CommonThread, World, put_object, find_thread}
use pomelo.Kernel.Wake.{drop_thread, remove_in, remove_wakers}
use pomelo.Kernel.Wake.Removal.{queue_of}
use pomelo.Kernel.Wake.Live.{Live, Inv}
use pomelo.Kernel.Wake.Woken.{Woken-Inv}
use pomelo.Hle.Notify.{modify, with_queue}
use pomelo.Hle.Notify.Each.{Settled, Settled-same}
use pomelo.Hle.Sync.Waits.{put-Inv, live_queue}
use pomelo.Hle.Sync.Signals.{wake_expect-Woken, modify_at, modify_at-Inv, modify-threads}
use pomelo.Hle.Session.{wake_first, enqueue_sync_request, enqueue_session, respond}

-- The first waiter of an object's queue, if any, is ready, and all others are as before.
abbrev pub FirstReady : List CommonThread → List Waker → World → Type 0
FirstReady threads [] v = v.threads ≡ threads
FirstReady threads (k ∷ ks) v =
    Settled v.threads k × ((j : ℕ) → j ≢ k.thread → find_thread j v.threads ≡ find_thread j threads)

-- The waiters behind the first, without further wakers of its thread.
abbrev pub rest_of : List Waker → List Waker
rest_of [] = []
rest_of (k ∷ ks) = drop_thread k.thread ks

-- After the first waiter of the object is woken: it is ready, the object has the rest of the queue, and
-- no queue has a stale waker.
pub record Served (threads : List CommonThread) (o : ℕ) (q : List Waker) (mk : List Waker → Object)
    (v : World) : Type 0 where
  pub keeps : Inv v
  pub ready : FirstReady threads q v
  pub object : v.objects o ≡ some (mk (rest_of q))

-- An object but for its queue.
pub record Queued (mk : List Waker → Object) : Type 0 where
  pub queue : (q : List Waker) → queue_of (some (mk q)) ≡ q
  pub requeue : (p q : List Waker) → with_queue p (mk q) ≡ mk p
  pub removal : (id : ℕ) (q : List Waker) → remove_wakers id (mk q) ≡ mk (drop_thread id q)

pub wake_first-Served :
    (w : World) (o : ℕ) (q : List Waker) (mk : List Waker → Object)
    → Queued mk
    → Inv w
    → All (Live w.threads o) q
    → w.objects o ≡ some (mk q)
    → Returns (Served w.threads o q mk) (wake_first w o q)
unfolding wake_first
wake_first-Served w o [] mk shape inv live at =
    returns (record { keeps = inv; ready = refl; object = at })
wake_first-Served w o (k ∷ ks) mk shape inv live at =
    let left : World = modify w o (with_queue ks) in
    let same : left.threads ≡ w.threads = modify-threads w o (with_queue ks) in
    let first : Live left.threads o k = rw same live.0 in
    let taken : with_queue ks (mk (k ∷ ks)) ≡ mk ks = shape.requeue ks (k ∷ ks) in
    let there : left.objects o ≡ some (mk ks) = modify_at w o (with_queue ks) at ∙ ap some taken in
    let inv' : Inv left = modify_at-Inv w o (with_queue ks) _ inv at (
      subst (All (Live w.threads o)) (sym (ap (λ x. queue_of (some x)) taken ∙ shape.queue ks))
        live.1) in
    Returns-mono (wake_expect-Woken left o k inv' first) (λ v wk. record {
      keeps = Woken-Inv inv' wk;
      ready = (
        Settled-same first wk k refl (inl first),
        λ j ne. wk.others j ne ∙ ap (find_thread j) same,
      );
      object = wk.purged o ∙ ap (remove_in k.thread) there ∙ ap some (shape.removal k.thread ks);
    })

-- The same when the object has just been put into the world with the waiters that it had.
wake_first-put_object :
    (w : World) (o : ℕ) (q : List Waker) (mk : List Waker → Object)
    → Queued mk
    → Inv w
    → All (Live w.threads o) q
    → Returns (Served w.threads o q mk) (wake_first (put_object w o (mk q)) o q)
wake_first-put_object w o q mk shape inv live =
    wake_first-Served (put_object w o (mk q)) o q mk shape
      (put-Inv w o (mk q) inv (subst (All (Live w.threads o)) (sym (shape.queue q)) live)) live
      (rw (==_self o) refl)

-- A request, for a queue of live wakers.
pub enqueue_request-Served :
    (w : World) (o : ℕ) (q : List Waker) (requests : List ℕ) (client : Option ℕ) (tid : ℕ)
    → Inv w
    → All (Live w.threads o) q
    → Returns
        (Served w.threads o q (λ p. Object.server_session p (requests ++ tid ∷ []) client))
        (enqueue_sync_request w o q requests client tid)
unfolding enqueue_sync_request
enqueue_request-Served w o q requests client tid inv live =
    wake_first-put_object w o q (λ p. Object.server_session p (requests ++ tid ∷ []) client)
      (record { queue = λ p. refl; requeue = λ p r. refl; removal = λ id p. refl }) inv live

-- In a world without stale wakers, a request to a server session ends without a panic: it is the last of
-- the session's requests, the first waiter of the session, if any, is ready and has left the queue, no
-- other thread changes, and no queue has a stale waker.
pub enqueue_sync_request-Served :
    (w : World) (o : ℕ) (q : List Waker) (requests : List ℕ) (client : Option ℕ) (tid : ℕ)
    → Inv w
    → w.objects o ≡ some (Object.server_session q requests client)
    → Returns
        (Served w.threads o q (λ p. Object.server_session p (requests ++ tid ∷ []) client))
        (enqueue_sync_request w o q requests client tid)
enqueue_sync_request-Served w o q requests client tid inv at =
    enqueue_request-Served w o q requests client tid inv (live_queue w o _ inv at)

-- In a world without stale wakers, a session that a client makes at a server port is the last of the
-- port's sessions, the first waiter of the port, if any, is ready and has left the queue, no other
-- thread changes, and no queue has a stale waker; there is no panic.
pub enqueue_session-Served :
    (w : World) (o : ℕ) (q : List Waker) (sessions : List ℕ) (client : Option ℕ) (session : ℕ)
    → Inv w
    → w.objects o ≡ some (Object.server_port q sessions client)
    → Returns
        (Served w.threads o q (λ p. Object.server_port p (sessions ++ session ∷ []) client))
        (enqueue_session w o q sessions client session)
unfolding enqueue_session
enqueue_session-Served w o q sessions client session inv at =
    wake_first-put_object w o q (λ p. Object.server_port p (sessions ++ session ∷ []) client)
      (record { queue = λ p. refl; requeue = λ p r. refl; removal = λ id p. refl }) inv
      (live_queue w o _ inv at)

-- In a world without stale wakers, the response to a client session ends without a panic: its first
-- waiter, if any, is ready and has left the queue, no other thread changes, and no queue has a stale
-- waker.
pub respond-Served :
    (w : World) (client : ℕ) (q : List Waker) (server : ℕ)
    → Inv w
    → w.objects client ≡ some (Object.client_session q server)
    → Returns
        (Served w.threads client q (λ p. Object.client_session p server))
        (respond w (some client))
unfolding respond
respond-Served w client q server inv at =
    rw (at, respond)
      (wake_first-Served w client q (λ p. Object.client_session p server)
        (record { queue = λ p. refl; requeue = λ p r. refl; removal = λ id p. refl }) inv
        (live_queue w client _ inv at) at)
