-- ===== src/Machine/Blocks.antt =====
-- The structures that the plugin allocates, one constructor of `Block` for each: the headers
-- callbacks.h, pSemaphore.h, workerTask.h and the `struct`s of threadSafeQueue.c and worker.c.
use threaded_ffi_plugin.Prelude.{ℕ, Bool, Option, none, some, List, []}

abbrev pub Ptr : Type 0
Ptr = ℕ

abbrev pub null : Ptr
null = 0

-- the functions that a `Semaphore`'s three pointers can name
pub data SemaphoreFunction : Type 0 where
  pharo_wait pharo_signal pharo_free : SemaphoreFunction
  platform_wait platform_signal platform_free : SemaphoreFunction

pub record Semaphore : Type 0 where
  pub handle : Ptr
  pub wait : SemaphoreFunction
  pub signal : SemaphoreFunction
  pub free : SemaphoreFunction

-- `mutex` says whether the mutex is held.
pub record TsQueue : Type 0 where
  pub first : Ptr
  pub last : Ptr
  pub mutex : Bool
  pub semaphore : Ptr

pub record TsQueueNode : Type 0 where
  pub element : Ptr
  pub next : Ptr

pub data WorkerTaskType : Type 0 where
  callout callback_return : WorkerTaskType

-- `none` in a field is memory that nothing has written yet.
pub record WorkerTask : Type 0 where
  pub kind : WorkerTaskType
  pub an_external_function : Option Ptr
  pub cif : Option Ptr
  pub parameters_address : Option Ptr
  pub return_holder_address : Option Ptr
  pub semaphore_index : Option ℕ
  pub queue_handle : Option Ptr
  pub callback_semaphore : Option Ptr

-- the functions that a `Runner`'s three pointers can name
pub data RunnerFunction : Type 0 where
  worker_enter worker_return worker_prepare : RunnerFunction
  same_thread_enter same_thread_exit same_thread_prepare : RunnerFunction

pub record Runner : Type 0 where
  pub callback_enter_function : RunnerFunction
  pub callback_exit_function : RunnerFunction
  pub callback_prepare_invocation : RunnerFunction
  pub callback_stack : Ptr

-- A `Worker*` is used as the `Runner*` of its first field.
pub record Worker : Type 0 where
  pub runner : Runner
  pub thread_id : ℕ
  pub task_queue : Ptr
  pub self_thread : ℕ
  pub next : Ptr

-- `prepared` says whether `ffi_prep_cif` has filled the `cif` in.
pub record Callback : Type 0 where
  pub runner : Option Ptr
  pub user_data : Option Ptr
  pub closure : Option Ptr
  pub prepared : Bool
  pub function_address : Option Ptr
  pub parameter_types : Option Ptr

pub record CallbackInvocation : Type 0 where
  pub callback : Ptr
  pub return_holder : Ptr
  pub arguments : Ptr
  pub payload : Option Ptr
  pub previous : Ptr

-- `ffi_type` of a struct: libffi keeps the size and the alignment.
pub record StructType : Type 0 where
  pub size : ℕ
  pub alignment : ℕ
  pub elements : Ptr

pub data Block : Type 0 where
  -- allocated, and not written yet
  raw : Block
  -- a `sem_t` with its value
  sem : ℕ → Block
  semaphore : Semaphore → Block
  queue : TsQueue → Block
  node : TsQueueNode → Block
  task : WorkerTask → Block
  worker : Worker → Block
  -- the static `sameThreadRunner`
  runner : Runner → Block
  callback : Callback → Block
  -- a local variable of `callbackFrontend`
  invocation : CallbackInvocation → Block
  -- `void**`, `ffi_type**`
  pointers : List Ptr → Block
  -- `size_t*`
  sizes : List ℕ → Block
  struct_type : StructType → Block
  -- `ffi_cif`, with its `arg_types`
  cif : Ptr → Block
  -- `char*` with its bytes
  bytes : List ℕ → Block
  -- `VMCallbackContext`
  callback_context : Block

abbrev pub as_sem : Block → Option ℕ
as_sem (sem n) = some n
as_sem _ = none

abbrev pub as_semaphore : Block → Option Semaphore
as_semaphore (semaphore s) = some s
as_semaphore _ = none

abbrev pub as_queue : Block → Option TsQueue
as_queue (queue q) = some q
as_queue _ = none

abbrev pub as_node : Block → Option TsQueueNode
as_node (node n) = some n
as_node _ = none

abbrev pub as_task : Block → Option WorkerTask
as_task (task t) = some t
as_task _ = none

abbrev pub as_worker : Block → Option Worker
as_worker (worker w) = some w
as_worker _ = none

abbrev pub as_callback : Block → Option Callback
as_callback (callback c) = some c
as_callback _ = none

abbrev pub as_invocation : Block → Option CallbackInvocation
as_invocation (invocation i) = some i
as_invocation _ = none

-- A `Runner*`: the static one, or a worker's first field.
abbrev pub as_runner : Block → Option Runner
as_runner (runner r) = some r
as_runner (worker w) = some w.runner
as_runner _ = none

-- the whole block of a `Runner*`
abbrev pub as_runner_block : Block → Option Block
as_runner_block (runner r) = some (runner r)
as_runner_block (worker w) = some (worker w)
as_runner_block _ = none

-- the elements of an array that have been written so far
abbrev pub as_pointers : Block → Option (List Ptr)
as_pointers raw = some []
as_pointers (pointers ps) = some ps
as_pointers _ = none

abbrev pub as_struct_type : Block → Option StructType
as_struct_type (struct_type t) = some t
as_struct_type _ = none

abbrev pub as_cif : Block → Option Ptr
as_cif (cif types) = some types
as_cif _ = none

abbrev pub as_bytes : Block → Option (List ℕ)
as_bytes (bytes bs) = some bs
as_bytes _ = none
