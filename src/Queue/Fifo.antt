-- ===== src/Queue/Fifo.antt =====
-- A queue with a platform semaphore, compared with a first-in first-out list over sequences of puts
-- and takes.
use mathlib.Core.Option
use threaded_ffi_plugin.Prelude.{
  ℕ, suc, ◌+◌, ◌≤◌, ◌≡◌, refl, Option, none, some, List, [], ◌∷◌, ◌++◌, arith, length,
  length-append,
}
use threaded_ffi_plugin.Machine.{Ptr, State, Cmd, Run, ok, blocked, and_then, ◌>>=◌, ◌>>◌, pure}
use threaded_ffi_plugin.Host.{Vm}
use threaded_ffi_plugin.Semaphores.Wait.{settled}
use threaded_ffi_plugin.Semaphores.{sem_value_max}
use threaded_ffi_plugin.Queue.{threadsafe_queue_put, threadsafe_queue_take}
use threaded_ffi_plugin.Queue.Cells.{Cells, elements, elements-append}
use threaded_ffi_plugin.Queue.Channel.{
  IsChannel, taken, take-cons, taken-IsChannel, take-nil, sent, put-sent, sent-IsChannel,
}

pub data Op : Type 0 where
  put : Ptr → Op
  take : Op

abbrev pub puts : List Op → ℕ
puts [] = 0
puts (put v ∷ ops) = suc (puts ops)
puts (take ∷ ops) = puts ops

-- The abstract queue: what the takes give and what is left, or `none` where a take has to wait.
unfoldable pub fifo : List Op → List Ptr → Option (List Ptr × List Ptr)
fifo [] xs = some ([], xs)
fifo (put v ∷ ops) xs = fifo ops (xs ++ v ∷ [])
fifo (take ∷ ops) [] = none
fifo (take ∷ ops) (x ∷ xs) = Option.map (λ r. (x ∷ r.0, r.1)) (fifo ops xs)

module _ {W : Type 0} ⦃vm : Vm W⦄ where
  -- the calls in order, with the results of the takes
  pub run : Ptr → List Op → Cmd W (List Ptr)
  run q [] = pure []
  run q (put v ∷ ops) = do threadsafe_queue_put q v; run q ops
  run q (take ∷ ops) = do v ← threadsafe_queue_take q; vs ← run q ops; pure (v ∷ vs)

-- The run ends with the results and contents that `fifo` gives, and blocks where it gives none.
abbrev pub Agrees :
    {W : Type 0} → (q semaphore h : Ptr) → Option (List Ptr × List Ptr) → Run W (List Ptr) → Type 0
Agrees {W} q semaphore h none r = (s : State W) × (r ≡ blocked s)
Agrees {W} q semaphore h (some (vs, xs)) r =
    (s : State W) × (cells : Cells) × (r ≡ ok vs s)
    × IsChannel s q semaphore h cells
    × (elements cells ≡ xs)

module _ {W : Type 0} ⦃vm : Vm W⦄ (q semaphore h : Ptr) where
  Agrees-cons :
      (v : Ptr) (o : Option (List Ptr × List Ptr)) (r : Run W (List Ptr))
      → Agrees q semaphore h o r
      → Agrees q semaphore h (Option.map (λ z. (v ∷ z.0, z.1)) o) (and_then r (λ vs. pure (v ∷ vs)))
  Agrees-cons v none r (s, e) = (s, rw e)
  Agrees-cons v (some (vs, xs)) r (s, cells, e, ch, l) = (s, cells, rw e, ch, l)

  -- Any sequence of puts and takes behaves as the list: the takes give the elements in the order of
  -- the puts, none lost and none twice, and a take blocks exactly if the list is empty. Memory for
  -- a node of each put and the range of the semaphore have to suffice.
  pub run-fifo :
      (ops : List Op) (cells : Cells) (s : State W)
      → IsChannel s q semaphore h cells
      → puts ops ≤ (s.heap).budget
      → length cells + puts ops ≤ sem_value_max
      → Agrees q semaphore h (fifo ops (elements cells)) (run q ops s)
  unfolding fifo run
  run-fifo [] cells s ch room small = (s, cells, refl, ch, refl)
  run-fifo (put v ∷ ops) cells s ch room small =
      rw
        (
          put-sent q semaphore h v cells s ch (omega arith) (omega arith),
          ← elements-append cells (s.heap).next v,
        )
        (run-fifo ops (cells ++ ((s.heap).next, v) ∷ []) (sent q semaphore h v cells s)
          (sent-IsChannel q semaphore h v cells s ch) (omega arith)
          (omega (arith, length-append cells (((s.heap).next, v) ∷ []))))
  run-fifo (take ∷ ops) [] s ch room small = (settled s, rw (take-nil q semaphore h s ch))
  run-fifo (take ∷ ops) ((a, v) ∷ rest) s ch room small =
      rw (take-cons q semaphore h a v rest s ch) (
        Agrees-cons v (fifo ops (elements rest)) (run q ops (taken q semaphore h a v rest s)) (
          run-fifo ops rest (taken q semaphore h a v rest s)
            (taken-IsChannel q semaphore h a v rest s ch) room (omega arith)))
