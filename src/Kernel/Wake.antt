-- ===== src/Kernel/Wake.antt =====
-- kernel/src/lib.rs: `CommonThread::wake_up`, `CommonThreadManager::wake_up_thread` and `tick_at`,
-- `WakerImpl`, and the `remove_wakers_by_opaque_id` of each object of hle/src.
pub mod Removal
pub mod Live
pub mod Woken
pub mod Tick
use pomelo.Prelude.{
  ℕ, suc, ◌+◌, ◌%◌, ◌^◌, Bool, true, false, ◌&&◌, not, Option, none, some, List, [], ◌∷◌, retain,
  Run, ok, panic, ◌>>=◌, expect, ◌==◌, leb, if◌then◌else◌,
}
use pomelo.Kernel.World.{
  ThreadState, WaitType, wait_sync_1, wait_sync_n, arbiter, sleep, Resume, normal, timeout_reached,
  WakeReason, timeout, CommonThread, Waker, check_opaque_id, Object, Objects, World, put,
  find_thread, set_thread,
}

-- `retain(|waker| !waker.check_opaque_id(id))`.
abbrev pub drop_thread : ℕ → List Waker → List Waker
drop_thread id q = retain (λ w. not (check_opaque_id w id)) q

abbrev pub drop_thread_addr : ℕ → List (Waker × ℕ) → List (Waker × ℕ)
drop_thread_addr id q = retain (λ e. not (check_opaque_id e.0 id)) q

abbrev pub remove_wakers : ℕ → Object → Object
remove_wakers id (Object.event s q) = Object.event s (drop_thread id q)
remove_wakers id (Object.mutex a q) = Object.mutex a (drop_thread id q)
remove_wakers id (Object.timer s q n i) = Object.timer s (drop_thread id q) n i
remove_wakers id (Object.arbiter q) = Object.arbiter (drop_thread_addr id q)
remove_wakers id (Object.thread t d q) = Object.thread t d (drop_thread id q)
remove_wakers id (Object.server_session q r c) = Object.server_session (drop_thread id q) r c
remove_wakers id (Object.client_session q s) = Object.client_session (drop_thread id q) s
remove_wakers id (Object.server_port q r c) = Object.server_port (drop_thread id q) r c
remove_wakers id (Object.client_port q s) = Object.client_port (drop_thread id q) s
remove_wakers id Object.codeset = Object.codeset

abbrev pub remove_in : ℕ → Option Object → Option Object
remove_in id none = none
remove_in id (some x) = some (remove_wakers id x)

abbrev pub remove_at : ℕ → ℕ → Objects → Objects
remove_at id o s p = if p == o then remove_in id (s p) else s p

-- The loop of `wake_up` over the objects that the thread waits for.
unfoldable pub remove_all : ℕ → List ℕ → Objects → Objects
remove_all id [] s = s
remove_all id (o ∷ os) s = remove_all id os (remove_at id o s)

-- `Iterator::position`.
unfoldable pub position : ℕ → List ℕ → Option ℕ
position o [] = none
position o (x ∷ xs) =
    if x == o then some 0 else elim (position o xs) [ none ↦ none | some i ↦ some (suc i) ]

-- How the thread resumes, by the reason of the wake-up and the kind of wait.
unfoldable pub resume_after : WakeReason → WaitType → List ℕ → Run Resume
resume_after timeout sleep os = ok normal
resume_after timeout arbiter os = ok timeout_reached
resume_after timeout wait_sync_1 os = ok timeout_reached
resume_after timeout wait_sync_n os = ok timeout_reached
resume_after (WakeReason.object o) sleep os = panic
resume_after (WakeReason.object o) arbiter os = ok normal
resume_after (WakeReason.object o) wait_sync_1 os = ok normal
resume_after (WakeReason.object o) wait_sync_n os = do
  i ← expect (position o os)
  ok (Resume.wait_sync_n i)

-- `CommonThread::wake_up`.
unfoldable pub wake_up : CommonThread → WakeReason → Objects → Run (CommonThread × Objects)
wake_up t reason s = do
  kind ← expect t.wait_type
  r ← resume_after reason kind t.wait_objects
  ok (
    record t {
      state = ThreadState.ready;
      wake_key = (t.wake_key + 1) % 2 ^ 64;
      resume = r;
      wait_objects = [];
    },
    remove_all t.index t.wait_objects s,
  )

-- `wake_up_thread`, which is also `WakerImpl::wake`: `false` is `Err(())`.
unfoldable pub wake : World → Waker → ℕ → Run (World × Bool)
wake w k object = do
  t ← expect (find_thread k.thread w.threads)
  if t.wake_key == k.key
      then (do
        (t', s) ← wake_up t (WakeReason.object object) w.objects
        ok (record { threads = set_thread k.thread t' w.threads; objects = s }, true))
      else ok (w, false)

-- `waker.wake(..).expect(..)`.
unfoldable pub wake_expect : World → Waker → ℕ → Run World
wake_expect w k object = do (w', done) ← wake w k object; if done then ok w' else panic

abbrev pub is_waiting : ThreadState → Bool
is_waiting ThreadState.waiting = true
is_waiting _ = false

-- A thread whose wait has run out at `time`.
abbrev pub timed_out : ℕ → CommonThread → Bool
timed_out time t =
    is_waiting t.state && elim t.wait_timeout [ none ↦ false | some at ↦ leb at time ]

unfoldable pub tick_thread : ℕ → CommonThread → Objects → Run (CommonThread × Objects)
tick_thread time t s = if timed_out time t then wake_up t timeout s else ok (t, s)

-- `CommonThreadManager::tick_at`: each thread in turn, over the objects as they then are.
unfoldable pub tick_threads : ℕ → List CommonThread → Objects → Run (List CommonThread × Objects)
unfolding tick_thread
tick_threads time [] s = ok ([], s)
tick_threads time (t ∷ ts) s = do
  (t', s') ← tick_thread time t s
  (ts', s'') ← tick_threads time ts s'
  ok (t' ∷ ts', s'')
