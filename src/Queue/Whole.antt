-- ===== src/Queue/Whole.antt =====
-- The two loops over a whole queue: `threadsafe_queue_size` and `threadsafe_queue_free`.
use threaded_ffi_plugin.Prelude.{
  ℕ, zero, suc, ◌+◌, ◌≤◌, ◌<◌, ◌≡◌, ◌≢◌, refl, ap, ◌∙◌, Bool-cases, inl, inr, eq-false, true, false,
  ◌||◌, none, [], ◌∷◌, length, ◌==◌, if◌then◌else◌, arith,
}
use threaded_ffi_plugin.Machine.{Ptr, null, State, ok, write, as_node}
use threaded_ffi_plugin.Machine.Access.{load-ok, free-ok, write-same}
use threaded_ffi_plugin.Queue.{
  int_max, count_nodes, threadsafe_queue_size, free_nodes, threadsafe_queue_free,
}
use threaded_ffi_plugin.Queue.Cells.{
  Cells, head_ptr, has, node_block, queue_block, Linked, Linked-frame, not-has, IsQueue,
}
use threaded_ffi_plugin.Queue.Contents.{update_ne}
use threaded_ffi_plugin.Queue.Steps.{
  structure, put, put-put, Holds-put, load-queue, lock-ok, unlock-ok,
}
use threaded_ffi_plugin.Queue.Channel.{IsQueue-Holds}

has-≢ : (p a : Ptr) (cs : Cells) → has a cs ≡ false → has p cs ≡ true → p ≢ a
has-≢ p a cs out i j = cc (out, i, ap (λ x. has x cs) j)

module _ {W : Type 0} where
  count_nodes-Linked :
      (cells : Cells) (fuel size : ℕ) (s : State W)
      → length cells < fuel
      → size + length cells ≤ int_max
      → Linked (s.heap).block cells
      → count_nodes fuel size (head_ptr cells) s ≡ ok (size + length cells) s
  unfolding count_nodes
  count_nodes-Linked [] zero size s more small l = absurd (omega (arith, more))
  count_nodes-Linked [] (suc fuel) size s more small l = ap (λ n. ok n s) (omega arith)
  count_nodes-Linked (c ∷ cells) zero size s more small l = absurd (omega (arith, more))
  count_nodes-Linked ((a, v) ∷ cells) (suc fuel) size s more small (e, nn, out, l) =
      rw
        (
          eq-false a null nn,
          load-ok s a (node_block v (head_ptr cells)) nn e as_node _ refl,
          eq-false size int_max (omega (arith, small)),
        )
        (count_nodes-Linked cells fuel (size + 1) s (omega (arith, more)) (omega (arith, small)) l
          ∙ ap (λ n. ok n s) (omega arith))

  IsQueue-out :
      (q semaphore : Ptr) (cells : Cells) (s : State W)
      → IsQueue (s.heap).block q semaphore cells
      → has q cells ≡ false
  IsQueue-out q semaphore cells s is =
      not-has (s.heap).block q cells is.linked (λ v n e. cc (e, is.shape))

  -- Given more fuel than it has nodes, and no more nodes than an `int` counts, `threadsafe_queue_size`
  -- answers their number and changes nothing.
  pub threadsafe_queue_size_lem :
      (q semaphore fuel : ℕ) (cells : Cells) (s : State W)
      → IsQueue (s.heap).block q semaphore cells
      → length cells < fuel
      → length cells ≤ int_max
      → threadsafe_queue_size fuel q s ≡ ok (length cells) s
  unfolding threadsafe_queue_size
  threadsafe_queue_size_lem q semaphore fuel cells s is more small =
      let r = structure semaphore cells in
      let held = record r { mutex = true } in
      let h = IsQueue-Holds q semaphore cells s is in
      let h' = Holds-put s q held is.ne_null in
      let l =
        Linked-frame (s.heap).block ((put s q held).heap).block cells
          (λ p i.
            update_ne (s.heap).block q _ p (has-≢ p q cells (IsQueue-out q semaphore cells s is) i))
          is.linked in
      rw
        (
          lock-ok h refl,
          load-queue h',
          count_nodes-Linked cells fuel 0 (put s q held) more (omega (arith, small)) l,
          unlock-ok h',
        )
        (ap (ok (0 + length cells)) (put-put s q held r ∙ write-same s q _ is.shape)
          ∙ ap (λ n. ok n s) (omega arith))

  free_nodes-Linked :
      (cells : Cells) (fuel : ℕ) (s : State W)
      → length cells < fuel
      → Linked (s.heap).block cells
      → (t : State W) × (free_nodes fuel (head_ptr cells) s ≡ ok tt t)
        × ((p : Ptr) → (t.heap).block p ≡ (if has p cells then none else (s.heap).block p))
  unfolding free_nodes
  free_nodes-Linked [] zero s more l = absurd (omega (arith, more))
  free_nodes-Linked [] (suc fuel) s more l = (s, refl, λ p. refl)
  free_nodes-Linked (c ∷ cells) zero s more l = absurd (omega (arith, more))
  free_nodes-Linked ((a, v) ∷ cells) (suc fuel) s more (e, nn, out, l) =
      let s1 : State W = write s a none in
      let (t, run, gone) = free_nodes-Linked cells fuel s1 (omega (arith, more)) (
        Linked-frame (s.heap).block (s1.heap).block cells
          (λ p i. update_ne (s.heap).block a none p (has-≢ p a cells out i)) l) in
      (
        t,
        rw
            (
              eq-false a null nn,
              load-ok s a (node_block v (head_ptr cells)) nn e as_node _ refl,
              free-ok s a _ nn e,
            )
            run,
        λ p. elim (Bool-cases (has p cells)) [
          | inl i ↦ ground (arith, gone p, i)
          | inr i ↦ ground (arith, gone p, i)
        ],
      )

  -- Given more fuel than there are nodes, `threadsafe_queue_free` gives the queue and every node back,
  -- and no other block: neither the elements nor the semaphore.
  pub threadsafe_queue_free_lem :
      (q semaphore fuel : ℕ) (cells : Cells) (s : State W)
      → IsQueue (s.heap).block q semaphore cells
      → length cells < fuel
      → (t : State W) × (threadsafe_queue_free fuel q s ≡ ok tt t)
        × ((p : Ptr)
            → (t.heap).block p ≡ (if (p == q) || has p cells then none else (s.heap).block p))
  unfolding threadsafe_queue_free
  threadsafe_queue_free_lem q semaphore fuel cells s is more =
      let (t, run, gone) = free_nodes-Linked cells fuel s more is.linked in
      (
        write t q none,
        rw (
          load-queue (IsQueue-Holds q semaphore cells s is),
          run,
          free-ok t q (queue_block semaphore cells) is.ne_null
              (gone q ∙ rw (IsQueue-out q semaphore cells s is) is.shape),
        ),
        λ p. elim (Bool-cases (has p cells)) [
          | inl i ↦ ground (arith, gone p, i)
          | inr i ↦ ground (arith, gone p, i)
        ],
      )
