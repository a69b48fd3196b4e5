-- ===== src/Kernel/World.antt =====
-- kernel/src/lib.rs: `CommonThread`, `CommonThreadManager` and the store of kernel objects, which
-- threads and handle tables share by reference. A reference (`KObjectRef`) is the number under which
-- the object stands in the store; equal numbers are equal pointers.
use pomelo.Prelude.{ℕ, Bool, Option, none, some, List, [], ◌∷◌, ◌==◌, if◌then◌else◌}
use pomelo.Prelude.Int.{ℤ}
use pomelo.Prelude.Buffer.{Buffer}
use pomelo.Kernel.Signal.{Signal}

pub data ThreadState : Type 0 where
  running ready paused waiting done : ThreadState

pub data WaitType : Type 0 where
  wait_sync_1 wait_sync_n arbiter sleep : WaitType

pub data Resume : Type 0 where
  normal timeout_reached : Resume
  wait_sync_n : ℕ → Resume

pub data WakeReason : Type 0 where
  timeout : WakeReason
  object : ℕ → WakeReason

pub record CommonThread : Type 0 where
  pub index : ℕ
  pub pid : ℕ
  pub state : ThreadState
  pub wait_objects : List ℕ
  pub wake_key : ℕ
  pub wait_timeout : Option ℕ
  pub wait_type : Option WaitType
  pub resume : Resume
  pub kobj : ℕ
  pub ipc_data : Buffer

-- `WakerImpl`.
pub record Waker : Type 0 where
  pub thread : ℕ
  pub key : ℕ

abbrev pub check_opaque_id : Waker → ℕ → Bool
check_opaque_id w id = w.thread == id

-- The objects of hle/src with the state that each keeps. A weak reference is a number too.
pub data Object : Type 0 where
  event : Signal → List Waker → Object
  mutex : Bool → List Waker → Object
  timer : Signal → List Waker → (next_ns interval : ℤ) → Object
  arbiter : List (Waker × ℕ) → Object
  thread : ℕ → Bool → List Waker → Object
  server_session : List Waker → List ℕ → Option ℕ → Object
  client_session : List Waker → ℕ → Object
  server_port : List Waker → List ℕ → Option ℕ → Object
  client_port : List Waker → ℕ → Object
  codeset : Object

-- An address of the store that holds nothing is free, or its object has been dropped.
abbrev pub Objects : Type 0
Objects = ℕ → Option Object

pub record World : Type 0 where
  pub threads : List CommonThread
  pub objects : Objects

abbrev pub put : Objects → ℕ → Object → Objects
put s o x p = if p == o then some x else s p

abbrev pub put_object : World → ℕ → Object → World
put_object w o x = record w { objects = put w.objects o x }

-- `find_thread`: the first thread with the index.
unfoldable pub find_thread : ℕ → List CommonThread → Option CommonThread
find_thread i [] = none
find_thread i (t ∷ ts) = if t.index == i then some t else find_thread i ts

-- A write through the reference that `find_thread_mut` gives.
unfoldable pub set_thread : ℕ → CommonThread → List CommonThread → List CommonThread
set_thread i u [] = []
set_thread i u (t ∷ ts) = if t.index == i then u ∷ ts else t ∷ set_thread i u ts
