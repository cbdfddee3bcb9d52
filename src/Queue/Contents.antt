-- ===== src/Queue/Contents.antt =====
-- Which writes keep a queue's contents, and what contents the writes of a put and a take leave.
use mathlib.Core.Path.{subst}
use threaded_ffi_plugin.Prelude.{
  sym, ◌≡◌, ◌≢◌, refl, ap, false, Option, none, some, [], ◌∷◌, ◌++◌, ◌==◌, if◌then◌else◌, arith,
  ◌∙◌,
}
use threaded_ffi_plugin.Machine.{Ptr, null, Block, queue, node}
use threaded_ffi_plugin.Queue.Cells.{
  Blocks, Cells, last_ptr, last_element, has, queue_block, node_block, Linked, IsQueue, not-has,
  last-node, Linked-frame, has-append,
}

abbrev pub update : Blocks → Ptr → Option Block → Blocks
update b p x q = if q == p then x else b q

-- A block that is neither a node nor a queue can be written.
abbrev pub IsOther : Option Block → Type 0
IsOther (some (node n)) = ⊥
IsOther (some (queue q)) = ⊥
IsOther _ = Unit {0}

pub update_ne : (b : Blocks) (p : Ptr) (x : Option Block) (r : Ptr) → r ≢ p → update b p x r ≡ b r
update_ne b p x r ne = ground arith

pub Linked-update :
    (b : Blocks) (cells : Cells) (p : Ptr) (x : Option Block)
    → Linked b cells
    → has p cells ≡ false
    → Linked (update b p x) cells
Linked-update b cells p x l out =
    Linked-frame b (update b p x) cells
      (λ r i. update_ne b p x r (λ e. cc (ap (λ z. has z cells) e))) l

other-not-has :
    (b : Blocks) (p : Ptr) (cells : Cells) → Linked b cells → IsOther (b p) → has p cells ≡ false
other-not-has b p cells l o = not-has b p cells l (λ v n e. subst IsOther e o)

-- The queue itself is none of its nodes.
pub queue-not-has :
    (b : Blocks) (q semaphore : Ptr) (cells : Cells)
    → IsQueue b q semaphore cells
    → has q cells ≡ false
queue-not-has b q semaphore cells is = not-has b q cells is.linked (λ v n e. cc (is.shape, e))

pub IsQueue-other :
    (b : Blocks) (q semaphore : Ptr) (cells : Cells) (p : Ptr) (x : Option Block)
    → IsQueue b q semaphore cells
    → IsOther (b p)
    → IsQueue (update b p x) q semaphore cells
IsQueue-other b q semaphore cells p x is o = record {
  ne_null = is.ne_null;
  shape = update_ne b p x q (λ e. subst IsOther (ap b (sym e) ∙ is.shape) o) ∙ is.shape;
  linked = Linked-update b cells p x is.linked (other-not-has b p cells is.linked o);
}

-- The queue is written over `rest`, and the first node is given back.
pub IsQueue-take :
    (b : Blocks) (q semaphore a v : Ptr) (rest : Cells)
    → IsQueue b q semaphore ((a, v) ∷ rest)
    → IsQueue (update (update b q (some (queue_block semaphore rest))) a none) q semaphore rest
IsQueue-take b q semaphore a v rest is =
    let apart = queue-not-has b q semaphore ((a, v) ∷ rest) is in
    let b' = update b q (some (queue_block semaphore rest)) in
    record {
      ne_null = is.ne_null;
      shape = ground arith;
      linked =
          Linked-update b' rest a none
            (Linked-update b rest q (some (queue_block semaphore rest)) is.linked.3 (ground arith))
            is.linked.2;
    }

-- The last node is linked to a new node `n`.
abbrev pub linked_last : Blocks → Cells → Ptr → Blocks
linked_last b [] n = b
linked_last b (c ∷ cs) n =
    update b (last_ptr (c ∷ cs)) (some (node_block (last_element (c ∷ cs)) n))

pub Linked-append :
    (b : Blocks) (cells : Cells) (n v : Ptr)
    → Linked b cells
    → n ≢ null
    → b n ≡ some (node_block v null)
    → has n cells ≡ false
    → Linked (linked_last b cells n) (cells ++ (n, v) ∷ [])
Linked-append b [] n v l nn e out = (e, nn, refl, tt)
Linked-append b ((a, w) ∷ []) n v (e', nn', out', l) nn e out =
    (ground arith, nn', ground arith, (ground arith, nn, refl, tt))
Linked-append b ((a, w) ∷ c ∷ cs) n v (e', nn', out', l) nn e out =
    let (_, _, within) = last-node b c cs l in
    (
      update_ne b (last_ptr (c ∷ cs)) (some (node_block (last_element (c ∷ cs)) n)) a
            (λ p. cc (within, ap (λ z. has z (c ∷ cs)) p))
          ∙ e',
      nn',
      rw (has-append a (c ∷ cs) n v) (ground arith),
      Linked-append b (c ∷ cs) n v l nn e (ground arith),
    )

-- what a put of `v` in a new node `n` leaves
abbrev pub enqueued : Blocks → (q semaphore : Ptr) → Cells → (n v : Ptr) → Blocks
enqueued b q semaphore cells n v =
    update (linked_last (update b n (some (node_block v null))) cells n) q
      (some (queue_block semaphore (cells ++ (n, v) ∷ [])))

pub IsQueue-put :
    (b : Blocks) (q semaphore : Ptr) (cells : Cells) (n v : Ptr)
    → IsQueue b q semaphore cells
    → n ≢ null
    → b n ≡ none
    → IsQueue (enqueued b q semaphore cells n v) q semaphore (cells ++ (n, v) ∷ [])
IsQueue-put b q semaphore cells n v is nn fresh =
    let b' = update b n (some (node_block v null)) in
    let new = not-has b n cells is.linked (λ w m e. cc) in
    record {
      ne_null = is.ne_null;
      shape = ground arith;
      linked =
          Linked-update (linked_last b' cells n) (cells ++ (n, v) ∷ []) q _
            (Linked-append b' cells n v (Linked-update b cells n _ is.linked new) nn (ground arith)
              new)
            (has-append q cells n v
              ∙ ground (arith, queue-not-has b q semaphore cells is, is.shape, ap b));
    }
