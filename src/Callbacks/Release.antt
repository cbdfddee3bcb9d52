-- ===== src/Callbacks/Release.antt =====
-- `callback_release` of plugin/src/callbacks/callbacks.c.
use native.Mathlib.Decide.{ℕ_discrete}
use threaded_ffi_plugin.Prelude.{
  ◌≡◌, ◌≢◌, refl, sym, ◌∙◌, ◌⊎◌, inl, inr, ◌||◌, none, some, ◌==◌, if◌then◌else◌, eq-false, arith,
}
use threaded_ffi_plugin.Machine.{
  Ptr, null, Block, Callback, callback, as_callback, State, ok, write,
}
use threaded_ffi_plugin.Machine.Access.{load-ok, free-ok}
use threaded_ffi_plugin.Host.{Vm, Ffi}
use threaded_ffi_plugin.Queue.Contents.{update_ne}
use threaded_ffi_plugin.Callbacks.{callback_release}

-- A callback that was registered: its closure, its array of types and its debug string, which may
-- be `NULL`, are three other blocks.
pub record Registered {W : Type 0} (s : State W) (cb closure types user_data : Ptr) (c : Callback)
    : Type 0 where
  pub ne_null : cb ≢ null
  pub shape : (s.heap).block cb ≡ some (callback c)
  pub has_closure : c.closure ≡ some closure
  pub has_types : c.parameter_types ≡ some types
  pub has_data : c.user_data ≡ some user_data
  pub types_ne_null : types ≢ null
  pub x : Block
  pub at_types : (s.heap).block types ≡ some x
  pub types_cb : types ≢ cb
  pub data_cb : user_data ≢ cb
  pub data_types : user_data ≢ types

-- the debug string: a block, or `NULL`
abbrev pub IsString : {W : Type 0} → State W → Ptr → Type 0
IsString s p =
    ((p ≢ null) × (y : Block) × ((s.heap).block p ≡ some y))
    ⊎ ((p ≡ null) × ((s.heap).block p ≡ none))

module _ {W : Type 0} ⦃vm : Vm W⦄ ⦃ffi : Ffi W⦄ (s : State W) (cb closure types user_data : Ptr)
    (c : Callback) (reg : Registered s cb closure types user_data c) where
  -- The release of a registered callback gives its closure to libffi, and the callback, its array of
  -- types and its debug string, if it has one, to the heap, and no other block.
  pub callback_release_lem :
      IsString s user_data
      → (t : State W) × (callback_release cb s ≡ ok tt t)
        × (t.world ≡ ffi.closure_free closure s.world)
        × ((q : Ptr)
            → (t.heap).block q
              ≡ (if (q == cb) || (q == types) || (q == user_data) then none else (s.heap).block q))
  unfolding callback_release
  callback_release_lem (inl (real, y, at)) =
      let s1 : State W = record s { world = ffi.closure_free closure s.world } in
      let s2 : State W = write s1 types none in
      let s3 : State W = write s2 user_data none in
      (
        write s3 cb none,
        rw
            (
              load-ok s cb (callback c) reg.ne_null reg.shape as_callback c refl,
              reg.has_closure,
              reg.has_types,
              free-ok s1 types reg.x reg.types_ne_null reg.at_types,
              reg.has_data,
              eq-false user_data null real,
              free-ok s2 user_data y real
                  (update_ne (s.heap).block types none user_data reg.data_types ∙ at),
            )
            (free-ok s3 cb (callback c) reg.ne_null (
              update_ne (s2.heap).block user_data none cb (λ j. reg.data_cb (sym j))
              ∙ update_ne (s.heap).block types none cb (λ j. reg.types_cb (sym j))
              ∙ reg.shape)),
        refl,
        λ q. ground arith,
      )
  callback_release_lem (inr (absent, nothing)) =
      let s1 : State W = record s { world = ffi.closure_free closure s.world } in
      let s2 : State W = write s1 types none in
      (
        write s2 cb none,
        rw
            (
              load-ok s cb (callback c) reg.ne_null reg.shape as_callback c refl,
              reg.has_closure,
              reg.has_types,
              free-ok s1 types reg.x reg.types_ne_null reg.at_types,
              reg.has_data,
              absent,
            )
            (free-ok s2 cb (callback c) reg.ne_null
              (update_ne (s.heap).block types none cb (λ j. reg.types_cb (sym j)) ∙ reg.shape)),
        refl,
        λ q. elim (ℕ_discrete q user_data) [
          | yes e ↦ rw e (ground (arith, nothing))
          | no other ↦ ground arith
        ],
      )
