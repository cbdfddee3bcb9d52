-- ===== src/Queue/Channel.antt =====
-- A queue whose semaphore is one of the platform, as the workers use it.
use mathlib.Core.Path.{subst}
use threaded_ffi_plugin.Prelude.{
  ◌+◌, ◌<◌, ◌≡◌, ◌≢◌, ap, Option, none, some, [], ◌∷◌, ◌++◌, arith, ◌∙◌, sym, length, length-append,
}
use threaded_ffi_plugin.Machine.{Ptr, Block, queue, sem, State, ok, blocked, write}
use threaded_ffi_plugin.Host.{Vm}
use threaded_ffi_plugin.Semaphores.{sem_value_max}
use threaded_ffi_plugin.Semaphores.Wait.{IsPlatform, settled, wait-suc, wait-zero, signal-platform}
use threaded_ffi_plugin.Queue.{threadsafe_queue_put, threadsafe_queue_take}
use threaded_ffi_plugin.Queue.Steps.{Holds, load-queue, structure}
use threaded_ffi_plugin.Queue.Cells.{Cells, head_ptr, node_block, IsQueue, IsHeap}
use threaded_ffi_plugin.Queue.Contents.{
  update_ne, IsOther, IsQueue-other, IsQueue-put, IsQueue-take,
}
use threaded_ffi_plugin.Queue.Frames.{enqueued-other, dequeued-other, IsHeap-write, IsHeap-appended}
use threaded_ffi_plugin.Queue.Put.{appended, put-signal}
use threaded_ffi_plugin.Queue.Take.{dequeued, take_first-cons}

-- The queue at `q` over `cells`, whose semaphore counts the elements with the `sem_t` at `h`.
pub record IsChannel {W : Type 0} (s : State W) (q semaphore h : Ptr) (cells : Cells) : Type 0 where
  pub is_queue : IsQueue (s.heap).block q semaphore cells
  pub is_platform : IsPlatform s semaphore h (length cells)
  pub is_heap : IsHeap s.heap

pub IsQueue-Holds :
    {W : Type 0} (q semaphore : Ptr) (cells : Cells) (s : State W)
    → IsQueue (s.heap).block q semaphore cells
    → Holds s q (structure semaphore cells)
IsQueue-Holds q semaphore cells s is = record { ne_null = is.ne_null; here = is.shape }

module _ {W : Type 0} (q semaphore h a v : Ptr) (rest : Cells) (s : State W) where
  -- the state after a take of the first cell
  abbrev pub taken : State W
  taken = dequeued (write (settled s) h (some (sem (length rest)))) q semaphore a rest

  unsignalled :
      IsChannel s q semaphore h ((a, v) ∷ rest)
      → IsQueue
          (write (settled s) h (some (sem (length rest)))).heap.block
          q
          semaphore
          ((a, v) ∷ rest)
  unsignalled ch =
      IsQueue-other (s.heap).block q semaphore ((a, v) ∷ rest) h _ ch.is_queue
        (subst IsOther (sym ch.is_platform.counts) tt)

  -- A take from a channel that is not empty gives the first element, and leaves the rest.
  pub take-cons : IsChannel s q semaphore h ((a, v) ∷ rest) → threadsafe_queue_take q s ≡ ok v taken
  unfolding threadsafe_queue_take
  take-cons ch =
      rw
        (
          load-queue (IsQueue-Holds q semaphore ((a, v) ∷ rest) s ch.is_queue),
          wait-suc semaphore h (length rest) s ch.is_platform,
        )
        (take_first-cons q semaphore (write (settled s) h (some (sem (length rest)))) a v rest
          (unsignalled ch))

  pub taken-IsChannel :
      IsChannel s q semaphore h ((a, v) ∷ rest) → IsChannel taken q semaphore h rest
  taken-IsChannel ch =
      let b = (write (settled s) h (some (sem (length rest)))).heap.block in
      let is = unsignalled ch in
      let sem_h : semaphore ≢ h =
        λ i. cc (ch.is_platform.shape, ch.is_platform.counts, ap ((s.heap).block) i) in
      let platform = ch.is_platform in
      let heap1 =
        IsHeap-write (settled s) h (some (sem (length rest))) _ ch.is_heap platform.counts in
      let s1 : State W = write (settled s) h (some (sem (length rest))) in
      let heap2 = IsHeap-write s1 q (some (queue (structure semaphore rest))) _ heap1 is.shape in
      record {
        is_queue = IsQueue-take b q semaphore a v rest is;
        is_platform = record {
          ne_null = platform.ne_null;
          handle_ne_null = platform.handle_ne_null;
          shape =
              dequeued-other b q semaphore a v rest semaphore _ is (ground (arith, platform.shape))
                tt;
          counts = dequeued-other b q semaphore a v rest h _ is (ground arith) tt;
        };
        is_heap =
            IsHeap-write (write s1 q (some (queue (structure semaphore rest)))) a none
              (node_block v (head_ptr rest)) heap2
              (update_ne b q (some (queue (structure semaphore rest))) a
                  (λ i. cc (is.linked.0, is.shape, ap b i))
                ∙ is.linked.0);
      }

-- A take changes no other block.
pub taken-other :
    {W : Type 0} (q semaphore h a v : Ptr) (rest : Cells) (s : State W) (p : Ptr) (x : Block)
    → IsChannel s q semaphore h ((a, v) ∷ rest)
    → (s.heap).block p ≡ some x
    → IsOther (some x)
    → p ≢ h
    → (taken q semaphore h a v rest s).heap.block p ≡ some x
taken-other q semaphore h a v rest s p x ch e o p_h =
    dequeued-other (write (settled s) h (some (sem (length rest)))).heap.block q semaphore a v rest
      p x (unsignalled q semaphore h a v rest s ch)
      (update_ne (s.heap).block h (some (sem (length rest))) p p_h ∙ e) o

-- Writing a block that is neither part of the queue nor of its semaphore keeps the channel.
pub IsChannel-write :
    {W : Type 0} (q semaphore h : Ptr) (cells : Cells) (s : State W) (p : Ptr) (x : Block)
    (y : Option Block)
    → IsChannel s q semaphore h cells
    → (s.heap).block p ≡ some x
    → IsOther (some x)
    → p ≢ semaphore
    → p ≢ h
    → IsChannel (write s p y) q semaphore h cells
IsChannel-write q semaphore h cells s p x y ch e o p_s p_h = record {
  is_queue =
      IsQueue-other (s.heap).block q semaphore cells p y ch.is_queue (subst IsOther (sym e) o);
  is_platform = record {
    ne_null = ch.is_platform.ne_null;
    handle_ne_null = ch.is_platform.handle_ne_null;
    shape = update_ne (s.heap).block p y semaphore (λ i. p_s (sym i)) ∙ ch.is_platform.shape;
    counts = update_ne (s.heap).block p y h (λ i. p_h (sym i)) ∙ ch.is_platform.counts;
  };
  is_heap = IsHeap-write s p y x ch.is_heap e;
}

-- The world is no part of a channel.
pub IsChannel-world :
    {W : Type 0} (q semaphore h : Ptr) (cells : Cells) (s : State W) (world : W)
    → IsChannel s q semaphore h cells
    → IsChannel (record s { world = world }) q semaphore h cells
IsChannel-world q semaphore h cells s world ch = record {
  is_queue = ch.is_queue;
  is_platform = record {
    ne_null = ch.is_platform.ne_null;
    handle_ne_null = ch.is_platform.handle_ne_null;
    shape = ch.is_platform.shape;
    counts = ch.is_platform.counts;
  };
  is_heap = ch.is_heap;
}

module _ {W : Type 0} (q semaphore h : Ptr) (s : State W) where
  -- A take from an empty channel blocks.
  pub take-nil : IsChannel s q semaphore h [] → threadsafe_queue_take q s ≡ blocked (settled s)
  unfolding threadsafe_queue_take
  take-nil ch = rw (
    load-queue (IsQueue-Holds q semaphore [] s ch.is_queue),
    wait-zero semaphore h s ch.is_platform,
  )

module _ {W : Type 0} ⦃vm : Vm W⦄ (q semaphore h v : Ptr) (cells : Cells) (s : State W) where
  -- the state after a put
  abbrev pub sent : State W
  sent = write (appended s q semaphore cells v) h (some (sem (length cells + 1)))

  appended-IsPlatform :
      IsChannel s q semaphore h cells
      → IsPlatform (appended s q semaphore cells v) semaphore h (length cells)
  appended-IsPlatform ch =
      let b = (s.heap).block in
      let n = (s.heap).next in
      let platform = ch.is_platform in
      let fresh = ch.is_heap.fresh n (omega arith) in
      record {
        ne_null = platform.ne_null;
        handle_ne_null = platform.handle_ne_null;
        shape =
            enqueued-other b q semaphore cells n v semaphore _ ch.is_queue fresh platform.shape tt;
        counts = enqueued-other b q semaphore cells n v h _ ch.is_queue fresh platform.counts tt;
      }

  -- A put always comes back, unless memory or the semaphore's range is exhausted.
  pub put-sent :
      IsChannel s q semaphore h cells
      → (s.heap).budget ≢ 0
      → length cells < sem_value_max
      → threadsafe_queue_put q v s ≡ ok tt sent
  put-sent ch room small = rw (
    put-signal q semaphore v cells s ch.is_queue ch.is_heap room,
    signal-platform semaphore h (length cells) (appended s q semaphore cells v)
        (appended-IsPlatform ch) small,
  )

  pub sent-IsChannel :
      IsChannel s q semaphore h cells
      → IsChannel sent q semaphore h (cells ++ ((s.heap).next, v) ∷ [])
  sent-IsChannel ch =
      let b = (s.heap).block in
      let n = (s.heap).next in
      let fresh = ch.is_heap.fresh n (omega arith) in
      let is =
        IsQueue-put b q semaphore cells n v ch.is_queue (ground (arith, ch.is_heap.next_pos))
          fresh in
      let platform = appended-IsPlatform ch in
      let heap = IsHeap-appended s q semaphore v cells ch.is_queue ch.is_heap in
      let sem_h : semaphore ≢ h =
        λ i. cc (ch.is_platform.shape, ch.is_platform.counts, ap ((s.heap).block) i) in
      record {
        is_queue =
            IsQueue-other (appended s q semaphore cells v).heap.block q semaphore
              (cells ++ (n, v) ∷ []) h _ is (subst IsOther (sym platform.counts) tt);
        is_platform = record {
          ne_null = platform.ne_null;
          handle_ne_null = platform.handle_ne_null;
          shape =
              update_ne (appended s q semaphore cells v).heap.block h _ semaphore sem_h
              ∙ platform.shape;
          counts = ground (arith, length-append cells ((n, v) ∷ []));
        };
        is_heap = IsHeap-write (appended s q semaphore cells v) h _ _ heap platform.counts;
      }
