-- ===== src/Kernel/Run.antt =====
-- kernel/src/lib.rs: the run loop of `KernelImpl`, but for the thread's own code between the two halves
-- of `run_thread`.
use pomelo.Prelude.{
  ℕ, Bool, true, false, Option, none, some, List, [], ◌∷◌, ◌++◌, Run, ok, panic, ◌>>=◌, ◌>>◌,
  assert, expect, ◌==◌, if◌then◌else◌,
}
use pomelo.Kernel.World.{ThreadState, CommonThread, Resume, Object, World, find_thread, set_thread}
use pomelo.Kernel.Suspend.{is_running}
use pomelo.Kernel.Wake.{tick_threads}
use pomelo.Hle.Sync.{timer_tick, thread_exit, event_signal}

abbrev pub is_ready : ThreadState → Bool
is_ready ThreadState.ready = true
is_ready _ = false

-- `CommonThreadManager::next_thread`: the first thread that is ready.
unfoldable pub next_thread : List CommonThread → Option ℕ
next_thread [] = none
next_thread (t ∷ ts) = if is_ready t.state then some t.index else next_thread ts

-- `run_next`: the scheduled thread, or the next one.
unfoldable pub pick_next : World → Option ℕ → Option ℕ
unfolding next_thread
pick_next w none = next_thread w.threads
pick_next w (some tid) = some tid

-- `run_thread` up to `thread.resume`: the thread runs, with what it resumes with.
unfoldable pub begin_run : World → ℕ → Run (World × Resume)
begin_run w tid = do
  t ← expect (find_thread tid w.threads)
  assert (is_ready t.state)
  ok (
    record w {
      threads =
          set_thread tid (record t { state = ThreadState.running; resume = Resume.normal })
            w.threads;
    },
    t.resume,
  )

-- `run_thread` behind it: a thread that still runs is ready.
unfoldable pub end_run : World → ℕ → Run World
end_run w tid = do
  t ← expect (find_thread tid w.threads)
  if is_running t.state
      then ok
          (record w { threads = set_thread tid (record t { state = ThreadState.ready }) w.threads })
      else ok w

-- `tick_at` over the object references `os` that the object manager still has.
unfoldable pub tick_objects : World → List ℕ → ℕ → Run World
tick_objects w [] time = ok w
tick_objects w (o ∷ os) time = do
  v ← elim (w.objects o) [
    | some x ↦ elim x [ Object.timer s q n i ↦ timer_tick w o s q n i time | _ ↦ ok w ]
    | none ↦ ok w
  ]
  tick_objects v os time

unfoldable pub tick_at : World → List ℕ → ℕ → Run World
unfolding tick_objects
tick_at w os time = do
  (ts, s) ← tick_threads time w.threads w.objects
  tick_objects (record { threads = ts; objects = s }) os time

-- `exit_thread` of the current thread: its object is told.
unfoldable pub exit_thread : World → ℕ → Run World
exit_thread w tid = do
  t ← expect (find_thread tid w.threads)
  let v = record w { threads = set_thread tid (record t { state = ThreadState.done }) w.threads }
  elim (v.objects t.kobj) [
    | some x ↦ elim x [ Object.thread id dead q ↦ thread_exit v t.kobj id dead q | _ ↦ panic ]
    | none ↦ panic
  ]

-- The interrupts that are bound to events; a later binding stands first.
abbrev pub Interrupts : Type 0
Interrupts = List (ℕ × ℕ)

unfoldable pub unbind_interrupt : Interrupts → ℕ → Interrupts
unbind_interrupt [] name = []
unbind_interrupt (x ∷ xs) name =
    if x.0 == name then unbind_interrupt xs name else x ∷ unbind_interrupt xs name

unfoldable pub bind_interrupt : Interrupts → ℕ → ℕ → Interrupts
unfolding unbind_interrupt
bind_interrupt bound name event = (name, event) ∷ unbind_interrupt bound name

unfoldable pub bound_to : Interrupts → ℕ → Option ℕ
bound_to [] name = none
bound_to (x ∷ xs) name = if x.0 == name then some x.1 else bound_to xs name

-- `ActiveInterrupts::activate`.
abbrev pub activate : List ℕ → ℕ → List ℕ
activate active name = active ++ name ∷ []

-- `tick` behind `tick_at`: the event of each active interrupt is signalled.
unfoldable pub drain_interrupts : World → Interrupts → List ℕ → Run World
unfolding bound_to
drain_interrupts w bound [] = ok w
drain_interrupts w bound (name ∷ names) = do
  v ← elim (bound_to bound name) [
    | none ↦ ok w
    | some o ↦ elim (w.objects o) [
      | some x ↦ elim x [ Object.event s q ↦ event_signal w o s q | _ ↦ panic ]
      | none ↦ panic
    ]
  ]
  drain_interrupts v bound names

unfoldable pub tick : World → List ℕ → ℕ → Interrupts → List ℕ → Run World
unfolding tick_at drain_interrupts
tick w os time bound active = do v ← tick_at w os time; drain_interrupts v bound active
