-- ===== src/Hle/Sync/Grants.antt =====
-- hle/src/event.rs, mutex.rs, timer.rs, thread.rs, session.rs, port.rs: which waits are granted at once,
-- and which are queued, told apart by the state of the object alone.
use pomelo.Prelude.{ℕ, Option, ◌≡◌, refl, Bool, true, false, List, [], ◌∷◌, ◌++◌}
use pomelo.Prelude.Int.{ℤ}
use pomelo.Kernel.Signal.{ResetType, Signal, one_shot, sticky, pulse, consume}
use pomelo.Kernel.World.{Waker, Object}

-- A signal that is set, and what a wait leaves of it: only a sticky one stays set.
pub data Takes : Signal → Signal → Type 0 where
  stays :
      Takes
        (record { reset_type = sticky; signaled = true })
        (record { reset_type = sticky; signaled = true })
  clears_one_shot :
      Takes
        (record { reset_type = one_shot; signaled = true })
        (record { reset_type = one_shot; signaled = false })
  clears_pulse :
      Takes
        (record { reset_type = pulse; signaled = true })
        (record { reset_type = pulse; signaled = false })

-- A wait that the object grants at once, and the object behind it.
pub data Granted : Object → Object → Type 0 where
  set_event :
      {s s' : Signal} (q : List Waker) → Takes s s' → Granted (Object.event s q) (Object.event s' q)
  set_timer :
      {s s' : Signal} (q : List Waker) (n i : ℤ)
      → Takes s s'
      → Granted (Object.timer s q n i) (Object.timer s' q n i)
  free_mutex : (q : List Waker) → Granted (Object.mutex false q) (Object.mutex true q)
  dead_thread : (t : ℕ) (q : List Waker) → Granted (Object.thread t true q) (Object.thread t true q)

-- A wait that blocks: the waker is last in the queue, and nothing else of the object changes.
pub data Blocked (k : Waker) : Object → Object → Type 0 where
  clear_event :
      (r : ResetType) (q : List Waker)
      → Blocked k
          (Object.event (record { reset_type = r; signaled = false }) q)
          (Object.event (record { reset_type = r; signaled = false }) (q ++ k ∷ []))
  clear_timer :
      (r : ResetType) (q : List Waker) (n i : ℤ)
      → Blocked k
          (Object.timer (record { reset_type = r; signaled = false }) q n i)
          (Object.timer (record { reset_type = r; signaled = false }) (q ++ k ∷ []) n i)
  held_mutex : (q : List Waker) → Blocked k (Object.mutex true q) (Object.mutex true (q ++ k ∷ []))
  live_thread :
      (t : ℕ) (q : List Waker)
      → Blocked k (Object.thread t false q) (Object.thread t false (q ++ k ∷ []))
  at_server_session :
      {q : List Waker} {r : List ℕ} {c : Option ℕ}
      → Blocked k (Object.server_session q r c) (Object.server_session (q ++ k ∷ []) r c)
  at_client_session :
      {q : List Waker} {s : ℕ}
      → Blocked k (Object.client_session q s) (Object.client_session (q ++ k ∷ []) s)
  at_server_port :
      {q : List Waker} {r : List ℕ} {c : Option ℕ}
      → Blocked k (Object.server_port q r c) (Object.server_port (q ++ k ∷ []) r c)
  at_client_port :
      {q : List Waker} {s : ℕ}
      → Blocked k (Object.client_port q s) (Object.client_port (q ++ k ∷ []) s)

-- `consume` takes a signal that is set, and no other.
pub consume-Takes : (s : Signal) → (consume s).1 ≡ true → Takes s (consume s).0
consume-Takes s e = go s.reset_type s.signaled e
  where
    go :
        (r : ResetType) (b : Bool)
        → (consume (record { reset_type = r; signaled = b })).1 ≡ true
        → Takes
            (record { reset_type = r; signaled = b })
            (consume (record { reset_type = r; signaled = b })).0
    go sticky true e = stays
    go one_shot true e = clears_one_shot
    go pulse true e = clears_pulse
    go r false e = cc

pub consume_unset : (s : Signal) → (consume s).1 ≡ false → s.signaled ≡ false
consume_unset s e = go s.signaled e
  where
    go :
        (b : Bool)
        → (consume (record { reset_type = s.reset_type; signaled = b })).1 ≡ false
        → b ≡ false
    go true e = cc
    go false e = refl
