-- ===== src/Queue/Cells.antt =====
-- What a queue of threadSafeQueue.c stands for: its nodes in order, each with its element.
use threaded_ffi_plugin.Prelude.{
  ◌≤◌, ◌<◌, ◌≡◌, ◌≢◌, refl, ap, Bool, true, false, ◌||◌, Option, none, some, List, [], ◌∷◌, ◌++◌,
  ◌==◌, arith,
}
use threaded_ffi_plugin.Machine.{Ptr, null, Block, queue, node, Heap}

abbrev pub Blocks : Type 0
Blocks = Ptr → Option Block

abbrev pub Cells : Type 0
Cells = List (Ptr × Ptr)

abbrev pub head_ptr : Cells → Ptr
head_ptr [] = null
head_ptr ((a, _) ∷ _) = a

abbrev pub last_ptr : Cells → Ptr
last_ptr [] = null
last_ptr ((a, _) ∷ []) = a
last_ptr (_ ∷ c ∷ cs) = last_ptr (c ∷ cs)

abbrev pub last_element : Cells → Ptr
last_element [] = null
last_element ((_, v) ∷ []) = v
last_element (_ ∷ c ∷ cs) = last_element (c ∷ cs)

abbrev pub elements : Cells → List Ptr
elements [] = []
elements ((_, v) ∷ cs) = v ∷ elements cs

abbrev pub has : Ptr → Cells → Bool
has p [] = false
has p ((a, _) ∷ cs) = (p == a) || has p cs

abbrev pub node_block : Ptr → Ptr → Block
node_block v n = node (record { element = v; next = n })

-- The nodes are allocated, distinct, and chained up to `NULL`.
abbrev pub Linked : Blocks → Cells → Type 0
Linked b [] = Unit {0}
Linked b ((a, v) ∷ cs) =
    (b a ≡ some (node_block v (head_ptr cs))) × (a ≢ null) × (has a cs ≡ false) × Linked b cs

-- the queue structure over `cells`, with its mutex free
abbrev pub queue_block : Ptr → Cells → Block
queue_block semaphore cells =
    queue (record {
      first = head_ptr cells;
      last = last_ptr cells;
      mutex = false;
      semaphore = semaphore;
    })

pub record IsQueue (b : Blocks) (q semaphore : Ptr) (cells : Cells) : Type 0 where
  pub ne_null : q ≢ null
  pub shape : b q ≡ some (queue_block semaphore cells)
  pub linked : Linked b cells

-- Nothing is allocated from `next` on, nor at `NULL`.
pub record IsHeap (h : Heap) : Type 0 where
  pub next_pos : 0 < h.next
  pub fresh : (p : Ptr) → h.next ≤ p → h.block p ≡ none
  pub at_null : h.block null ≡ none

-- The nodes do not change where the blocks at their addresses do not.
pub Linked-frame :
    (b c : Blocks) (cells : Cells)
    → ((p : Ptr) → has p cells ≡ true → c p ≡ b p)
    → Linked b cells
    → Linked c cells
Linked-frame b c [] same l = tt
Linked-frame b c ((a, v) ∷ cs) same (e, nn, out, l) =
    (ground (arith, same a), nn, out, Linked-frame b c cs (λ p i. same p (ground arith)) l)

-- What is no node of this shape is none of the nodes.
pub not-has :
    (b : Blocks) (p : Ptr) (cells : Cells)
    → Linked b cells
    → ((v n : Ptr) → b p ≢ some (node_block v n))
    → has p cells ≡ false
not-has b p [] l differs = refl
not-has b p ((a, v) ∷ cs) (e, nn, out, l) differs =
    ground (arith, not-has b p cs l differs, differs v (head_ptr cs))

-- The last node of a list that is not empty.
pub last-node :
    (b : Blocks) (c : Ptr × Ptr) (cs : Cells)
    → Linked b (c ∷ cs)
    → (b (last_ptr (c ∷ cs)) ≡ some (node_block (last_element (c ∷ cs)) null))
      × (last_ptr (c ∷ cs) ≢ null)
      × (has (last_ptr (c ∷ cs)) (c ∷ cs) ≡ true)
last-node b (a, v) [] (e, nn, out, l) = (e, nn, ground arith)
last-node b (a, v) (c ∷ cs) (e, nn, out, l) =
    let (e', nn', i) = last-node b c cs l in (e', nn', ground arith)

pub head_ptr-append :
    (c : Ptr × Ptr) (cs ds : Cells) → head_ptr ((c ∷ cs) ++ ds) ≡ head_ptr (c ∷ cs)
head_ptr-append (a, v) cs ds = refl

pub last_ptr-append : (cs : Cells) (a v : Ptr) → last_ptr (cs ++ (a, v) ∷ []) ≡ a
last_ptr-append [] a v = refl
last_ptr-append ((b, w) ∷ []) a v = refl
last_ptr-append ((b, w) ∷ c ∷ cs) a v = last_ptr-append (c ∷ cs) a v

pub has-append :
    (p : Ptr) (cs : Cells) (a v : Ptr) → has p (cs ++ (a, v) ∷ []) ≡ (has p cs || (p == a))
has-append p [] a v = ground arith
has-append p ((b, w) ∷ cs) a v = ground (arith, has-append p cs a v)

pub elements-append :
    (cs : Cells) (a v : Ptr) → elements (cs ++ (a, v) ∷ []) ≡ elements cs ++ v ∷ []
elements-append [] a v = refl
elements-append ((b, w) ∷ cs) a v = ap (◌∷◌ w) (elements-append cs a v)
