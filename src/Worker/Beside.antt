-- ===== src/Worker/Beside.antt =====
-- The blocks that neither a worker nor its queue writes: such as the semaphore that a callback waits
-- on, and the callback's invocation.
use mathlib.Core.Path.{subst}
use threaded_ffi_plugin.Prelude.{ℕ, ◌≡◌, ◌≢◌, sym, ap, ◌∙◌, Option, some}
use threaded_ffi_plugin.Machine.{Ptr, Block, sem, queue, node, task, worker, Worker, State}
use threaded_ffi_plugin.Queue.Cells.{Blocks}
use threaded_ffi_plugin.Queue.Contents.{IsOther}

abbrev pub IsBeside : Option Block → Type 0
IsBeside (some (sem n)) = ⊥
IsBeside (some (queue q)) = ⊥
IsBeside (some (node n)) = ⊥
IsBeside (some (task t)) = ⊥
IsBeside (some (worker w)) = ⊥
IsBeside _ = Unit {0}

pub IsOther-IsBeside : (x : Option Block) → IsBeside x → IsOther x
IsOther-IsBeside (some (node n)) is = is
IsOther-IsBeside (some (queue q)) is = is
IsOther-IsBeside _ is = tt

pub beside-ne_sem : (x : Block) → IsBeside (some x) → (n : ℕ) → x ≢ sem n
beside-ne_sem x is n e = subst (λ y. IsBeside (some y)) e is

-- Where such a block stands, no other block does.
pub beside-ne :
    (b : Blocks) (p r : Ptr) (x y : Option Block)
    → b p ≡ x
    → b r ≡ y
    → IsBeside x
    → ¬ IsBeside y
    → p ≢ r
beside-ne b p r x y ep er is not_is e = not_is (subst IsBeside (sym ep ∙ ap b e ∙ er) is)

-- A run keeps those blocks.
abbrev pub Besides : {W : Type 0} → State W → State W → Type 0
Besides s s' =
    (p : Ptr) (x : Block)
    → IsBeside (some x)
    → (s.heap).block p ≡ some x
    → (s'.heap).block p ≡ some x

-- The worker at `w` is as it was; or it belongs to another thread at most.
abbrev pub KeepsWorker : {W : Type 0} → State W → State W → Ptr → Type 0
KeepsWorker s s' w =
    (x : Worker) → (s.heap).block w ≡ some (worker x) → (s'.heap).block w ≡ some (worker x)

abbrev pub KeepsRunner : {W : Type 0} → State W → State W → Ptr → Type 0
KeepsRunner s s' w =
    (x : Worker)
    → (s.heap).block w ≡ some (worker x)
    → (y : Worker) × ((s'.heap).block w ≡ some (worker y)) × (y.runner ≡ x.runner)
