-- ===== src/Queue/Threads/Links.antt =====
-- A node is hung behind the last one, and the first node is taken out.
use threaded_ffi_plugin.Prelude.{
  ℕ, ◌≡◌, ◌≢◌, refl, sym, ap, ◌∙◌, false, some, [], ◌∷◌, ◌++◌, ◌==◌, eq-false,
}
use threaded_ffi_plugin.Machine.{Ptr, null, TsQueue, TsQueueNode, node, State, ok, write}
use threaded_ffi_plugin.Queue.{unlink}
use threaded_ffi_plugin.Queue.Cells.{
  Cells, head_ptr, last_ptr, last_element, has, node_block, last-node,
}
use threaded_ffi_plugin.Queue.Contents.{update_ne, Linked-append}
use threaded_ffi_plugin.Queue.Steps.{put, load-queue, set_first-ok, set_next-ok}
use threaded_ffi_plugin.Queue.Take.{not-alone, unlink-last, unlink-more}
use threaded_ffi_plugin.Queue.Frames.{IsHeap-write}
use threaded_ffi_plugin.Queue.Threads.{hang}
use threaded_ffi_plugin.Queue.Threads.Shared.{
  IsShared, IsPlatform-write, Keeps, queue-IsShared, queue-Keeps,
}

-- The structure without the first node, which is still allocated.
abbrev pub shifted : TsQueue → Cells → TsQueue
shifted r rest = record r { first = head_ptr rest; last = last_ptr rest }

module _ {W : Type 0} (q semaphore h : Ptr) (s : State W) (r : TsQueue) (count : ℕ) where
  -- The mutex stays as it is, and so does `last`, which is then no longer the last node.
  pub record HasHung (cells : Cells) (n v : Ptr) (s' : State W) (r' : TsQueue) : Type 0 where
    pub runs : hang q n s ≡ ok tt s'
    pub shared : IsShared q semaphore h s' (cells ++ (n, v) ∷ []) r' count
    pub mutex : r'.mutex ≡ r.mutex
    pub budget : (s'.heap).budget ≡ (s.heap).budget
    pub keeps : Keeps (s.heap).block cells (s'.heap).block

  pub hang-ok :
      (cells : Cells) (n v : Ptr)
      → IsShared q semaphore h s cells r count
      → r.last ≡ last_ptr cells
      → n ≢ null
      → (s.heap).block n ≡ some (node_block v null)
      → has n cells ≡ false
      → (s' : State W) × (r' : TsQueue) × HasHung cells n v s' r'
  unfolding hang
  hang-ok [] n v is last real at out =
      let r' : TsQueue = record r { first = n } in
      (
        put s q r',
        r',
        record {
          runs = rw (load-queue is.holds, is.front) (set_first-ok is.holds n);
          shared = queue-IsShared is ((n, v) ∷ []) r' refl refl (at, real, refl, tt);
          mutex = refl;
          budget = refl;
          keeps = queue-Keeps is r';
        },
      )
  hang-ok ((a, w) ∷ cs) n v is last real at out =
      let b = (s.heap).block in
      let l = last_ptr ((a, w) ∷ cs) in
      let m : TsQueueNode = record { element = last_element ((a, w) ∷ cs); next = null } in
      let m' : TsQueueNode = record m { next = n } in
      let (at_last, nn, within) = last-node b (a, w) cs is.chain in
      let first : (r.first == null) ≡ false = rw is.front (eq-false a null is.chain.1) in
      (
        write s l (some (node m')),
        r,
        record {
          runs = rw (load-queue is.holds, first, last) (set_next-ok s l n m nn at_last);
          shared = record {
            holds = record {
              ne_null = is.holds.ne_null;
              here = update_ne b l _ q (λ j. cc (at_last, is.holds.here, ap b j)) ∙ is.holds.here;
            };
            front = is.front;
            source = is.source;
            chain = Linked-append b ((a, w) ∷ cs) n v is.chain real at out;
            platform =
                IsPlatform-write s semaphore h count l _ is.platform
                  (λ j. cc (at_last, is.platform.shape, ap b j))
                  (λ j. cc (at_last, is.platform.counts, ap b j));
            heap = IsHeap-write s l _ _ is.heap at_last;
          };
          mutex = refl;
          budget = refl;
          keeps =
              λ p v x e i. update_ne b l _ p (λ j. cc (i, within, ap (λ z. has z ((a, w) ∷ cs)) j));
        },
      )

  pub unlink-ok :
      (a v : Ptr) (rest : Cells)
      → IsShared q semaphore h s ((a, v) ∷ rest) r count
      → r.last ≡ last_ptr ((a, v) ∷ rest)
      → unlink q a s ≡ ok tt (put s q (shifted r rest))
  unlink-ok a v [] is last = unlink-last s q r is.holds a (is.front ∙ sym last)
  unlink-ok a v (d ∷ rest) is last =
      let c : TsQueueNode = record { element = v; next = head_ptr (d ∷ rest) } in
      unlink-more s q r is.holds a c
        (λ j. not-alone (s.heap).block a v d rest is.chain (sym is.front ∙ j ∙ last)) is.chain.1
        is.chain.0
      ∙ rw (sym last) refl
