-- ===== src/Queue/Threads/Invariant.antt =====
-- What is true of the threads at one queue between their steps.
use native.Mathlib.Decide.{ℕ_discrete}
use mathlib.Core.Path.{subst}
use threaded_ffi_plugin.Prelude.{
  ℕ, ◌+◌, ◌≤◌, ◌<◌, ◌≡◌, ◌≢◌, sym, ◌∙◌, Bool, true, false, some, List, [], ◌∷◌, ◌++◌, length, arith,
}
use threaded_ffi_plugin.Machine.{Ptr, null, TsQueue}
use threaded_ffi_plugin.Semaphores.{sem_value_max}
use threaded_ffi_plugin.Queue.Cells.{Blocks, Cells, last_ptr, has, elements, node_block}
use threaded_ffi_plugin.Queue.Threads.{
  Putting, idle, called, filled, locked, hung, linked, unlocked, Taking, waiting, woken, found,
  seen, holding, unlinked, leaving, gave_null, System,
}
use threaded_ffi_plugin.Queue.Threads.Family.{update, total}
use threaded_ffi_plugin.Queue.Threads.Shared.{IsShared}

-- who holds the mutex; `hanging i n` has hung the node `n` and has not made it the last one
pub data Owner : Type 0 where
  nobody : Owner
  putter : ℕ → Owner
  hanging : ℕ → Ptr → Owner
  taker : Owner

abbrev pub is_held : Owner → Bool
is_held nobody = false
is_held _ = true

-- who alone knows an address
pub data Whose : Type 0 where
  unowned : Whose
  of_thread : ℕ → Whose
  of_taker : Whose

-- the last node, or where it is yet to be recorded, the hung one
abbrev pub IsTail : Owner → TsQueue → Cells → Type 0
IsTail nobody r cells = r.last ≡ last_ptr cells
IsTail (putter i) r cells = r.last ≡ last_ptr cells
IsTail (hanging i n) r cells = last_ptr cells ≡ n
IsTail taker r cells = r.last ≡ last_ptr cells

pub record IsPrivate (b : Blocks) (cells : Cells) (whose : Ptr → Whose) (me : Whose) (n v x : Ptr)
    : Type 0 where
  pub real : n ≢ null
  pub here : b n ≡ some (node_block v x)
  pub out : has n cells ≡ false
  pub mine : whose n ≡ me

module _ (b : Blocks) (cells : Cells) (owner : Owner) (whose : Ptr → Whose) where
  abbrev pub PutFact : ℕ → Putting → Type 0
  PutFact i (filled n v) = IsPrivate b cells whose (of_thread i) n v null
  PutFact i (locked n v) = IsPrivate b cells whose (of_thread i) n v null × (owner ≡ putter i)
  PutFact i (hung n) = owner ≡ hanging i n
  PutFact i linked = owner ≡ putter i
  PutFact i _ = Unit {0}

  abbrev pub IsGone : Ptr → Ptr → Type 0
  IsGone a v = (x : Ptr) × IsPrivate b cells whose of_taker a v x

  abbrev pub TakeFact : Taking → Type 0
  TakeFact (found a) = (v : Ptr) × (rest : Cells) × (cells ≡ (a, v) ∷ rest)
  TakeFact (seen a v) = (rest : Cells) × (cells ≡ (a, v) ∷ rest)
  TakeFact (holding a v) = (rest : Cells) × (cells ≡ (a, v) ∷ rest) × (owner ≡ taker)
  TakeFact (unlinked a v) = IsGone a v × (owner ≡ taker)
  TakeFact (leaving a v) = IsGone a v
  TakeFact gave_null = ⊥
  TakeFact _ = Unit {0}

-- A put that has linked its node owes a signal; one that has a node to link spares room for it.
abbrev pub owes : Putting → ℕ
owes (hung n) = 1
owes linked = 1
owes unlocked = 1
owes _ = 0

abbrev pub spares : Putting → ℕ
spares (filled n v) = 1
spares (locked n v) = 1
spares _ = 0

-- A take that has waited has the right to one element.
abbrev pub claims : Taking → ℕ
claims woken = 1
claims (found a) = 1
claims (seen a v) = 1
claims (holding a v) = 1
claims _ = 0

abbrev pub in_flight : Taking → List Ptr
in_flight (unlinked a v) = v ∷ []
in_flight (leaving a v) = v ∷ []
in_flight _ = []

-- A thread that puts, or the one that takes, has locked the mutex and not yet unlocked it.
abbrev pub InSection : Putting → Type 0
InSection (locked n v) = Unit {0}
InSection (hung n) = Unit {0}
InSection linked = Unit {0}
InSection _ = ⊥

abbrev pub TakesIn : Taking → Type 0
TakesIn (holding a v) = Unit {0}
TakesIn (unlinked a v) = Unit {0}
TakesIn _ = ⊥

-- The thread that owns the mutex is between its lock and its unlock.
abbrev pub Owned : ℕ → Owner → (ℕ → Putting) → Taking → Type 0
Owned threads nobody f c = Unit {0}
Owned threads (putter i) f c = (i < threads) × InSection (f i)
Owned threads (hanging i n) f c = (i < threads) × InSection (f i)
Owned threads taker f c = TakesIn c

pub record IsSound {W : Type 0} (q semaphore h threads : ℕ) (t : System W) : Type 0 where
  pub cells : Cells
  pub owner : Owner
  pub whose : Ptr → Whose
  pub r : TsQueue
  pub count : ℕ
  pub shared : IsShared q semaphore h t.memory cells r count
  pub held : r.mutex ≡ is_held owner
  pub tail : IsTail owner r cells
  pub putting : (i : ℕ) → PutFact (t.memory.heap).block cells owner whose i (t.putting i)
  pub taking : TakeFact (t.memory.heap).block cells owner whose t.taking
  pub counted : count + total owes threads t.putting + claims t.taking ≡ length cells
  pub room : (t.memory.heap).budget + total spares threads t.putting + length cells ≤ sem_value_max
  pub owned : Owned threads owner t.putting t.taking
  pub fifo : t.was_put ≡ t.given ++ (in_flight t.taking ++ elements cells)

-- What only `me` knows outlives a step.
abbrev pub Stays : Blocks → Blocks → Cells → Cells → (Ptr → Whose) → (Ptr → Whose) → Whose → Type 0
Stays b b' cells cells' whose whose' me =
    (n v x : Ptr)
    → IsPrivate b cells whose me n v x
    → (b' n ≡ b n) × (has n cells' ≡ false) × (whose' n ≡ me)

-- How the facts of one thread outlive a step of another.
module _ (b b' : Blocks) (cells cells' : Cells) (owner owner' : Owner)
    (whose whose' : Ptr → Whose) where
  IsPrivate-Stays :
      (me : Whose) (n v x : Ptr)
      → Stays b b' cells cells' whose whose' me
      → IsPrivate b cells whose me n v x
      → IsPrivate b' cells' whose' me n v x
  IsPrivate-Stays me n v x stays is =
      let (same, out, mine) = stays n v x is in
      record { real = is.real; here = same ∙ is.here; out = out; mine = mine }

  pub PutFact-frame :
      (j : ℕ) (p : Putting)
      → Stays b b' cells cells' whose whose' (of_thread j)
      → (owner ≡ putter j → owner' ≡ putter j)
      → ((n : Ptr) → owner ≡ hanging j n → owner' ≡ hanging j n)
      → PutFact b cells owner whose j p
      → PutFact b' cells' owner' whose' j p
  PutFact-frame j (filled n v) stays puts hangs is = IsPrivate-Stays (of_thread j) n v null stays is
  PutFact-frame j (locked n v) stays puts hangs (is, own) =
      (IsPrivate-Stays (of_thread j) n v null stays is, puts own)
  PutFact-frame j (hung n) stays puts hangs own = hangs n own
  PutFact-frame j linked stays puts hangs own = puts own
  PutFact-frame j idle stays puts hangs is = tt
  PutFact-frame j (called v) stays puts hangs is = tt
  PutFact-frame j unlocked stays puts hangs is = tt

  pub TakeFact-frame :
      (c : Taking)
      → Stays b b' cells cells' whose whose' of_taker
      → (owner ≡ taker → owner' ≡ taker)
      → ((d : Ptr × Ptr) (rest : Cells) → cells ≡ d ∷ rest → (rest' : Cells) × (cells' ≡ d ∷ rest'))
      → TakeFact b cells owner whose c
      → TakeFact b' cells' owner' whose' c
  TakeFact-frame (found a) stays own grows (v, rest, e) =
      let (rest', e') = grows (a, v) rest e in (v, rest', e')
  TakeFact-frame (seen a v) stays own grows (rest, e) = grows (a, v) rest e
  TakeFact-frame (holding a v) stays own grows (rest, e, mine) =
      let (rest', e') = grows (a, v) rest e in (rest', e', own mine)
  TakeFact-frame (unlinked a v) stays own grows ((x, is), mine) =
      ((x, IsPrivate-Stays of_taker a v x stays is), own mine)
  TakeFact-frame (leaving a v) stays own grows (x, is) =
      (x, IsPrivate-Stays of_taker a v x stays is)
  TakeFact-frame gave_null stays own grows is = is
  TakeFact-frame waiting stays own grows is = tt
  TakeFact-frame woken stays own grows is = tt

-- The thread `i` has moved to `p`.
pub PutFact-update :
    (b : Blocks) (cells : Cells) (owner : Owner) (whose : Ptr → Whose) (f : ℕ → Putting) (i : ℕ)
    (p : Putting)
    → PutFact b cells owner whose i p
    → ((j : ℕ) → j ≢ i → PutFact b cells owner whose j (f j))
    → (j : ℕ) → PutFact b cells owner whose j (update f i p j)
PutFact-update b cells owner whose f i p mine others j = elim (ℕ_discrete j i) [
  | yes e ↦
      subst (λ k. PutFact b cells owner whose k (update f i p k)) (sym e)
        (subst (PutFact b cells owner whose i) (sym (ground arith)) mine)
  | no differ ↦ subst (PutFact b cells owner whose j) (sym (ground arith)) (others j differ)
]

pub InSection-update :
    (f : ℕ → Putting) (i : ℕ) (p : Putting) → InSection p → InSection (update f i p i)
InSection-update f i p a = subst InSection (sym (ground arith)) a

update-other : (f : ℕ → Putting) (i : ℕ) (p : Putting) (j : ℕ) → j ≢ i → update f i p j ≡ f j
update-other f i p j differ = ground arith

-- A thread that does not own the mutex moves.
pub Owned-update :
    (threads : ℕ) (o : Owner) (f : ℕ → Putting) (c : Taking) (i : ℕ) (p : Putting)
    → ¬ InSection (f i)
    → Owned threads o f c
    → Owned threads o (update f i p) c
Owned-update threads nobody f c i p outside own = tt
Owned-update threads (putter j) f c i p outside (lt, a) = (
  lt,
  subst InSection (sym (update-other f i p j (λ e. outside (subst (λ k. InSection (f k)) e a)))) a,
)
Owned-update threads (hanging j n) f c i p outside (lt, a) = (
  lt,
  subst InSection (sym (update-other f i p j (λ e. outside (subst (λ k. InSection (f k)) e a)))) a,
)
Owned-update threads taker f c i p outside own = own

pub Owned-take :
    (threads : ℕ) (o : Owner) (f : ℕ → Putting) (c c' : Taking)
    → ¬ TakesIn c
    → Owned threads o f c
    → Owned threads o f c'
Owned-take threads nobody f c c' outside own = tt
Owned-take threads (putter j) f c c' outside own = own
Owned-take threads (hanging j n) f c c' outside own = own
Owned-take threads taker f c c' outside own = absurd (outside own)
