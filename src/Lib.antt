-- ===== src/Lib.antt =====
-- pomelo runs the system calls of a guest program on a small kernel of its own. The kernel
-- (kernel/src) keeps threads, processes, the objects that threads wait for, messages between
-- processes, and physical memory. The host library (hle/src) implements the objects and the system
-- calls; a service is a host thread that answers messages. A guest (guest/src, guest_dynarmic/src)
-- calls the same system calls from translated code. cli/src starts it all.
--
-- What stands where:
--   Prelude          numbers, lists, runs that may panic, byte buffers
--   Kernel/Signal, Kernel/Arbitration, Kernel/World
--                    kernel/src/lib.rs: signals, timeouts, arbitration; threads and objects
--   Kernel/Wake, Kernel/Suspend
--                    kernel/src/lib.rs: wake_up, wake_up_thread, tick_at, suspend_thread
--   Hle/Notify, Hle/Sync
--                    hle/src/event.rs, mutex.rs, timer.rs, arbiter.rs, thread.rs
--   Hle/Sync/Grants, Hle/Sync/Timers
--                    which waits an object grants at once, and when a timer fires, by their states
--   Kernel/Handles   kernel/src/object_manager.rs: the handle table of a process
--   Kernel/Translate kernel/src/lib.rs: translate_ipc, with the handles that it gives the receiver
--   Kernel/Ports, Kernel/Run
--                    kernel/src/lib.rs: named ports; the run loop, ticks and interrupts
--   Hle/WaitSync     hle/src/svc.rs: wait_sync_1 and wait_sync_n behind the lookup of the handles
--   Hle/Session      hle/src/session.rs, port.rs: requests, replies and sessions at a port
--   Hle/Svc          hle/src/svc.rs: the system calls over the handles of the current process
--   Hle/Services     hle/src/service/srv.rs: the services that the manager knows
--   Hle/Services/Manager
--                    the requests that the manager answers, and those of SrvInterface
--   Ipc              kernel/src/ipc.rs: headers, parameters, writers and readers
--   Memory           kernel/src/memory: the trait Memory as an interface, pages, the block
--                    lists of the memory manager (kmm.rs) and the spans of virtual memory
--                    (virt.rs)
--   Kernel/Context   kernel/src/lib.rs: the rest of KernelImpl, new processes and threads
--   Guest            guest/src/lib.rs: the places of thread-local storage of a guest process
--   Guest/Machine, Guest/Calls, Guest/Dispatch
--                    guest/src/lib.rs, guest_abstraction.rs: registers and memory of a guest thread,
--                    each system call, handle_svc and handle_resume
--   Guest/Frame, Guest/Shared
--                    what no system call changes; the calls that the host has too
--   Kernel/Handles/Refine
--                    a handle table as a partial function
--   Guest/Dynarmic   guest_dynarmic/src/lib.rs: the memory of a guest
--   System/Steady, System/Quiet
--                    what every operation on threads and objects keeps
--   System/Progress  that the run loop has a turn to give when a thread was woken
--   System/Runs      runs of the kernel as steps in any order, and their invariant; the wait for
--                    several objects is no step, since it breaks the invariant (Hle/WaitSync/Stale)
--   Tests            concrete worlds, messages and memories
--
-- State. A World is the list of the kernel's threads and a store of objects. Objects are shared by
-- reference in the code (Rc and RefCell); here a reference is the number under which the object
-- stands in the store, and a call through it reads and writes the store; where the allocator puts a
-- new object is an argument. A KernelState adds the handle tables of the processes. A function that
-- the code runs on such an object takes the world, the number and the object's fields as they are
-- at the call. A waker is a thread's index and its wake key, as in the code; a waker is live for an object
-- while its thread waits for it with that key.
--
-- Panics (expect, unwrap, assert!, an index out of bounds) are the value panic of the type Run.
-- Sums that can overflow wrap around, as they do in a release build; u8, u32 and u64 fields are
-- natural numbers with the wrap written out.
--
-- Loops over linked blocks take fuel, and a run that needs more is a panic here; the theorems ask
-- for more fuel than the list has blocks, which is enough since each round goes to the next block.
-- The loop over the translate parameters of a message takes as many rounds as there are words left,
-- and each round takes a word at least.
--
-- The loop of a handle table over the generator's numbers has no bound in the code; here it takes
-- fuel, and its theorem asks that one of so many numbers is a handle that is not in use.
--
-- The byteorder crate is the interface ByteOrder: words of four bytes that are read back as they
-- were written, and little_endian shows that it can be met. Two theorems ask more of it, as a hypothesis of
-- theirs: on the names of services, and on the memory of a guest. The
-- xorshift crate is the interface Generator, with no law.
--
-- A Guest is a thread of a guest process in a system call. Its registers are a function of their
-- numbers; its memory is reached through the interface MemoryMap, since the recompiler has it. The ticks
-- of GetSystemTick are a parameter: the code computes them by floating point. Reads for a line of
-- console output are kept, since they may panic.
--
-- A request of the service manager for a session ends in a wait, behind which only the message is written;
-- the model gives the message and the kernel's state at the wait. The theorem on the names of services asks
-- of the byteorder crate that four bytes are a word of 32 bits and are written back, as little_endian does.
--
-- The crate dynarmic is the interface MemoryImpl: bytes and words of the guest's memory, and pages. The
-- theorems ask that an aligned word is its four bytes in the order of the byteorder crate, and that a byte
-- written at a mapped address stays; the flat memory of Tests/Dynarmic shows that both can be met.
--
-- Not modelled: reference counts and the drop of objects, console output, the asynchronous runtime
-- of host threads, with the loops of services, code sets, the host thread that waits for an interrupt,
-- dynamic casts of objects (an object's type is its constructor), the calls that the
-- recompiler makes back, the layouts of formats/src, and the command line.
pub mod Prelude
pub mod Guest
pub mod Hle
pub mod Ipc
pub mod Kernel
pub mod Memory
pub mod System
pub mod Tests
