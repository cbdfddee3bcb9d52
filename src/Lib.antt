-- ===== src/Lib.antt =====
-- The C code of the ThreadedFFI plugin (plugin/src and plugin/includes): foreign calls and
-- callbacks of the image through libffi, on the thread of the virtual machine or on worker
-- threads.
--
-- Machine models what the C code runs on: a heap of structures, one constructor of `Block` for
-- each `struct` (Machine.Blocks), the static variables `callbackQueue` and `mainThreadWorker`,
-- and commands over them. An access to memory that is not allocated, or not written, is the run
-- `fault`; an early `return` is `stop`; a wait that cannot go on is `blocked`. An address is
-- never given twice. `malloc` grants as many requests as `budget` says, so every failure of it
-- is a branch.
-- Host has the two parameters of the model: `Vm`, the `interpreterProxy` of the virtual machine
-- with its object memory, and `Ffi`, libffi. Both are records of operations over an unknown
-- world.
--
-- Semaphores: plugin/src/semaphores, the POSIX semaphore and the semaphore of the image, called
-- through the function pointers of `Semaphore`. `sem_wait` that a signal interrupts is retried;
-- the interruptions to come are a number in the state, which bounds the loop. Semaphores.Apple
-- is the variant for macOS, over Grand Central Dispatch as a parameter, and Semaphores.Variants
-- compares both.
-- Queue: plugin/src/queue/threadSafeQueue.c. Queue.Cells and Queue.Contents say when the chain
-- of nodes represents a list, Queue.Put and Queue.Take what each half of an operation does to
-- it, Queue.Frames what it leaves, Queue.Channel adds a POSIX semaphore that counts the
-- elements, Queue.Pending one of the image, and Queue.Fifo compares runs with lists.
-- Queue.Threads cuts the put and the take at their accesses to shared memory: `step_put` and
-- `step_take` run one piece, and `Step` interleaves any number of threads that put with one that
-- takes. Queue.Threads.Invariant is what holds between the steps, Queue.Threads.Shared and Links
-- what the writes do, Moves, Puts, Section, Taker and Takes what each step does;
-- Queue.Threads.Safety, Exclusion and Progress are about runs, and Race has two threads that
-- take.
-- Worker: plugin/src/worker/worker.c and workerTask.c. A worker is a runner with a queue of
-- tasks. Worker.Tasks says what tasks the queue may hold, Worker.Serve what a round does with
-- each, and Worker.Run what `worker_run` does with all; Worker.Dispatch is about the thread that
-- hands a call to a worker, and Primitives.Workers.Callout about both ends. Worker.Frames,
-- Worker.Beside and Worker.Handed say what other writes leave of the queue, Worker.Calls, Return
-- and Answer what the image does about a callback, Worker.Prepare, Await and Waking what the
-- thread of the callback does; Worker.Reentry has the wait of a callback on the worker's own
-- thread, Worker.Crossing a callback on another: each function of the plugin runs to its end or
-- to its next wait before a function on another thread begins. Worker.Creation and
-- Worker.Lifetime are about the creation of a worker and its release, and Worker.Unqueued about
-- a worker whose queue could not be made. The fuel of `worker_run` bounds its rounds; one round
-- more than there are tasks is enough. `pthread_create` takes from a budget of threads and
-- records the worker that its thread runs.
-- Utils: plugin/src/utils.c and the macros of plugin/includes/macros.h. Utils.Steps has rules of
-- proof for the helpers, and Utils.Reads says what they read and write.
-- Callbacks: plugin/src/callbacks/callbacks.c and plugin/src/sameThread/sameThread.c.
-- `callbackFrontend` is cut where the image runs: `callback_frontend_on_same_thread` goes up to
-- `ptEnterInterpreterFromCallback`, and `callback_frontend_resume` is what is left when the
-- image has left for the context that `sigsetjmp` filled. Callbacks.Creation is about
-- `callback_new`, Callbacks.Stack and Callbacks.Extends about the chain of invocations of a
-- runner, Callbacks.Invocation and Callbacks.Frontend about the call of a callback, and
-- Callbacks.Session about sequences of calls and returns: `siglongjmp` is `jump`, which drops
-- activations of the C stack. For a worker, `callback_frontend_wait` is what is left of
-- `callbackFrontend` when the image runs: Callbacks.Apart keeps the worker's queue apart from
-- the pending callbacks, Callbacks.OnWorker is about the call of such a callback, Callbacks.Read
-- about the read of it, Callbacks.Answered about its return, and Callbacks.Reentry about the
-- whole of it. Callbacks.Abandoned is about an interpreter that comes back to C.
-- Primitives.Callbacks.Register and Registration follow `primitiveRegisterCallback` through all
-- of its branches.
-- Primitives: the primitives of callbackPrimitives.c, workerPrimitives.c, sameThread.c,
-- primitiveCalls.c, primitiveUtils.c, functionDefinitionPrimitives.c, typesPrimitives.c, types.c
-- and the functions of PThreadedPlugin.c, each a command.
-- TestLibrary: testLibrary, the foreign functions that the tests of the image call:
-- TestLibrary.Types and TestLibrary.Sums for the integer types of basic_types.c,
-- TestLibrary.Memory and TestLibrary.Buffers and TestLibrary.Strings for its arrays and strings,
-- TestLibrary.Callbacks and TestLibrary.Loops for callbacks.c, registerCallback.c and callout.c,
-- TestLibrary.Structures for structures.c, TestLibrary.Floats for the numbers whose arithmetic
-- is a parameter. The static variables of that library are part of its world; what a function
-- pointer does is a parameter.
-- Tests: a small virtual machine and libffi, and runs at concrete inputs.
--
-- An array that is filled by a loop is the list of the elements written so far. Integers of the
-- image are natural numbers; an `int` is taken modulo 2 ^ 32. `pthread_mutex_init` takes from a
-- budget of mutexes. The size of the memory that `malloc` grants counts only in `dup_string`,
-- and what that memory holds is a parameter there; so is what `malloc` left in the array of
-- offsets of `primitiveInitializeStructType`. The thread that `callbackFromAnotherThread` starts
-- is done before `pthread_create` comes back, or runs later. A mutex is held or not, and a lock
-- that is held blocks. Outside Queue.Threads the operations of the queue run without another
-- thread between them.
--
-- Not modelled: what is printed, and the Smalltalk code in src.
pub mod Prelude
pub mod Machine
pub mod Host
pub mod Semaphores
pub mod Queue
pub mod Worker
pub mod Utils
pub mod Callbacks
pub mod Primitives
pub mod TestLibrary
pub mod Tests
