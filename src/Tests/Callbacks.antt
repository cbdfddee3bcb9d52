-- ===== src/Tests/Callbacks.antt =====
-- The callbacks of plugin/src/callbacks at concrete inputs.
use threaded_ffi_plugin.Prelude.{
  inr, ◌||◌, refl, true, false, Option, some, none, [], ◌∷◌, ◌==◌, ◌≡◌, if◌then◌else◌, arith,
}
use threaded_ffi_plugin.Machine.{
  callback_context, fault, stop, null, ◌>>=◌, ◌>>◌, Ptr, Block, State, Callback, ok, semaphore,
  callback, pointers, pharo_wait, pharo_signal, pharo_free,
}
use threaded_ffi_plugin.Queue.Cells.{queue_block}
use threaded_ffi_plugin.Queue.Pending.{IsPending}
use threaded_ffi_plugin.Callbacks.{
  callback_frontend_abandon, return_invocation, callback_new, callback_release,
  callback_frontend_on_same_thread,
}
use threaded_ffi_plugin.Callbacks.Release.{Registered, IsString, callback_release_lem}
use threaded_ffi_plugin.Callbacks.Abandoned.{abandoned, abandon-dangles}
use threaded_ffi_plugin.Callbacks.Creation.{
  SameBut, AllottedOne, creation_world, made, callback_new_lem,
}
use threaded_ffi_plugin.Callbacks.Stack.{RunsOn, Activation, same_thread_runner}
use threaded_ffi_plugin.Callbacks.Frontend.{CanEnter, entered, frontend-entered}
use threaded_ffi_plugin.Callbacks.Session.{Session, Steps, enter, here, later, return_from}
use threaded_ffi_plugin.Callbacks.Session.Return.{
  Inv, Returned, returned_state, return_from-innermost, return_from-Returned,
}
use threaded_ffi_plugin.Callbacks.Session.Invariant.{Steps-Inv}
use threaded_ffi_plugin.Primitives.Callbacks.{set_user_data, primitive_unregister_callback}
use threaded_ffi_plugin.Primitives.Callbacks.Unregister.{ended, unregister_callback_lem}
use threaded_ffi_plugin.Primitives.Callbacks.Lifetime.{callback_release-callback_new}
use threaded_ffi_plugin.Tests.SmallVm.{external_address, World, vm, ffi, world, state_with}

-- the same-thread runner at 3, the queue of pending callbacks at 2 with the external semaphore 9
-- at 1, a callback at 4, and two parameter types at 5
abbrev this : Callback
this = record {
  runner = some 3;
  user_data = some 0;
  closure = some 700;
  prepared = true;
  function_address = some 701;
  parameter_types = some 5;
}

abbrev blocks : Ptr → Option Block
blocks p =
    if p == 1
    then some (
        semaphore
          (record { handle = 9; wait = pharo_wait; signal = pharo_signal; free = pharo_free }))
    else if p == 2
    then some (queue_block 1 [])
    else if p == 3
    then some (same_thread_runner 0)
    else if p == 4
    then some (callback this)
    else if p == 5
    then some (pointers (601 ∷ 602 ∷ []))
    else none

abbrev idle : State World
idle = record (state_with 6 blocks world) { callback_queue = 2 }

idle-IsPending : IsPending idle 2 1 9 []
idle-IsPending = record {
  is_queue = record { ne_null = omega arith; shape = refl; linked = tt };
  is_pharo = record { ne_null = omega arith; shape = refl };
  is_heap = record { next_pos = omega arith; fresh = λ p le. ground arith; at_null = refl };
}

idle-Inv : Inv 3 1 9 idle []
idle-Inv = record {
  on = record { ne_null = omega arith; shape = refl; stack = tt };
  cells = [];
  pending = idle-IsPending;
  queue_ne_null = omega arith;
}

can : CanEnter 4 80 81 3 1 9 this [] [] idle
can = record {
  ne_null = omega arith;
  shape = refl;
  runner = refl;
  on = idle-Inv.on;
  pending = idle-IsPending;
  room = omega arith;
}

abbrev busy : State World
busy = entered 4 80 81 3 1 9 this [] [] idle

frontend-entered_example : callback_frontend_on_same_thread 4 80 81 idle ≡ ok (6, 8) busy
frontend-entered_example = frontend-entered 4 80 81 3 1 9 this [] [] idle can

abbrev activation : Activation
activation = record { invocation = 6; context = 8 }

abbrev start : Session World
start = record { state = idle; live = [] }

abbrev called : Session World
called = record { state = busy; live = activation ∷ [] }

to_called : Steps 3 start called
to_called = later here (
    enter 4 80 81 this activation (omega arith) refl refl (omega arith)
      (frontend-entered 4 80 81 3 1 9 this [] [] idle can) refl)

Steps-Inv_example : Inv 3 1 9 busy (activation ∷ [])
Steps-Inv_example = Steps-Inv 3 1 9 start called to_called idle-Inv

return_from-innermost_example :
    return_from 3 6 (activation ∷ []) busy
    ≡ ok []
        (returned_state 3 1 9 activation [] busy (Steps-Inv 3 1 9 start called to_called idle-Inv))
return_from-innermost_example =
    return_from-innermost 3 1 9 activation [] busy (Steps-Inv 3 1 9 start called to_called idle-Inv)

return_from-Returned_example :
    Returned 3 1 9 6 (activation ∷ []) busy (return_from 3 6 (activation ∷ []) busy)
return_from-Returned_example =
    return_from-Returned 3 1 9 6 (activation ∷ []) busy (omega arith)
      (Steps-Inv 3 1 9 start called to_called idle-Inv)

callback_new_lem_example :
    (s' : State World) × (callback_new 3 5 2 603 idle ≡ ok 6 s')
    × (s'.world ≡ creation_world 3 5 (601 ∷ 602 ∷ []) 2 603 idle)
    × SameBut idle s' 6 (some (made 3 5 (601 ∷ 602 ∷ []) 2 603 idle))
    × AllottedOne idle s'
callback_new_lem_example =
    callback_new_lem 3 5 (601 ∷ 602 ∷ []) 2 603 idle idle-IsPending.is_heap (omega arith)
      (omega arith) (pointers (601 ∷ 602 ∷ [])) refl refl

registered : Registered idle 4 700 5 0 this
registered = record {
  ne_null = omega arith;
  shape = refl;
  has_closure = refl;
  has_types = refl;
  has_data = refl;
  types_ne_null = omega arith;
  x = pointers (601 ∷ 602 ∷ []);
  at_types = refl;
  types_cb = omega arith;
  data_cb = omega arith;
  data_types = omega arith;
}

callback_release_lem_example :
    (t : State World) × (callback_release 4 idle ≡ ok tt t)
    × (t.world ≡ world)
    × ((q : Ptr) → (t.heap).block q ≡ (if (q == 4) || (q == 5) || (q == 0) then none else blocks q))
callback_release_lem_example =
    callback_release_lem idle 4 700 5 0 this registered (inr (refl, refl))

busy-RunsOn : RunsOn (busy.heap).block 3 (activation ∷ [])
busy-RunsOn = (Steps-Inv 3 1 9 start called to_called idle-Inv).on

abandon-dangles_example :
    (callback_frontend_abandon 6 8 busy ≡ ok tt (abandoned 3 6 8 [] busy busy-RunsOn))
    × ((abandoned 3 6 8 [] busy busy-RunsOn).heap.block 3 ≡ some (same_thread_runner 6))
    × ((abandoned 3 6 8 [] busy busy-RunsOn).heap.block 6 ≡ none)
    × ((abandoned 3 6 8 [] busy busy-RunsOn).heap.block 8 ≡ some callback_context)
    × (return_invocation 3 6 (abandoned 3 6 8 [] busy busy-RunsOn) ≡ fault)
abandon-dangles_example = abandon-dangles 3 6 8 [] busy busy-RunsOn

callback_release-callback_new_example :
    (u : State World) × ((callback_new 3 5 2 603 >>= λ cb. (do
      set_user_data cb null
      callback_release cb))
        idle
      ≡ ok tt u)
    × (u.world ≡ world)
    × ((q : Ptr) → (u.heap).block q ≡ (if q == 5 then none else blocks q))
callback_release-callback_new_example =
    callback_release-callback_new 3 5 (601 ∷ 602 ∷ []) 2 603 idle idle-IsPending.is_heap
      (omega arith) (omega arith) refl refl

-- the argument 40 is an external address, which holds 4
abbrev asked : State World
asked = record idle {
  world = record world {
    stack = 40 ∷ [];
    word = λ p. if p == 40 then external_address else if p == 42 then 4 else 0;
  };
}

asked-Registered : Registered asked 4 700 5 0 this
asked-Registered = record {
  ne_null = omega arith;
  shape = refl;
  has_closure = refl;
  has_types = refl;
  has_data = refl;
  types_ne_null = omega arith;
  x = pointers (601 ∷ 602 ∷ []);
  at_types = refl;
  types_cb = omega arith;
  data_cb = omega arith;
  data_types = omega arith;
}

unregister_callback_lem_example :
    (true ≡ false
      → primitive_unregister_callback asked
        ≡ stop (record asked { world = vm.primitive_fail asked.world }))
    × (true ≡ true
        → vm.word_at 42 asked.world ≡ null
        → primitive_unregister_callback asked ≡ ok tt (record asked { world = ended asked.world }))
    × ((cb closure types user_data : Ptr) (c : Callback)
        → true ≡ true
        → vm.word_at 42 asked.world ≡ cb
        → Registered asked cb closure types user_data c
        → IsString asked user_data
        → (t : State World) × (primitive_unregister_callback asked ≡ ok tt t)
          × (t.world ≡ ended (ffi.closure_free closure asked.world))
          × ((q : Ptr)
              → (t.heap).block q
                ≡ (if (q == cb) || (q == types) || (q == user_data) then none else blocks q)))
unregister_callback_lem_example = unregister_callback_lem 40 asked refl refl refl

-- its third part at the callback at 4
releases_four :
    (t : State World) × (primitive_unregister_callback asked ≡ ok tt t)
    × (t.world ≡ ended asked.world)
    × ((q : Ptr) → (t.heap).block q ≡ (if (q == 4) || (q == 5) || (q == 0) then none else blocks q))
releases_four =
    (unregister_callback_lem 40 asked refl refl refl).2 4 700 5 0 this refl refl asked-Registered
      (inr (refl, refl))
