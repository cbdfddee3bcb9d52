-- ===== src/Machine/Results.antt =====
-- What two runs that are equal have in common, and how runs are continued.
use threaded_ffi_plugin.Prelude.{◌≡◌, refl, ap}
use threaded_ffi_plugin.Machine.{State, Run, Cmd, ok, stop, blocked, fault, out_of_fuel, and_then}

module _ {W A : Type 0} (d : State W) (a : A) where
  unfoldable pub state_of : Run W A → State W
  state_of (ok b s) = s
  state_of (stop s) = s
  state_of (blocked s) = s
  state_of _ = d

  value_of : Run W A → A
  value_of (ok b s) = b
  value_of _ = a

module _ {W A : Type 0} where
  pub ok-state : {a b : A} {s t : State W} → ok a s ≡ ok b t → s ≡ t
  unfolding state_of
  ok-state {a} {b} {s} e = ap (state_of s a) e

  pub ok-value : {a b : A} {s t : State W} → ok a s ≡ ok b t → a ≡ b
  unfolding value_of
  ok-value {a} {b} {s} e = ap (value_of s a) e

  -- The value `a` only says of which type the run would give one.
  pub stop-state : (a : A) {s t : State W} → ◌≡◌ {A = Run W A} (stop s) (stop t) → s ≡ t
  unfolding state_of
  stop-state a {s} e = ap (state_of s a) e

module _ {W A B : Type 0} where
  -- Two continuations of a run that agree where it ends well.
  pub and_then-ext :
      (r : Run W A) (f g : A → Cmd W B)
      → ((a : A) (t : State W) → r ≡ ok a t → f a t ≡ g a t)
      → and_then r f ≡ and_then r g
  and_then-ext (ok a t) f g same = same a t refl
  and_then-ext (stop t) f g same = refl
  and_then-ext (blocked t) f g same = refl
  and_then-ext fault f g same = refl
  and_then-ext out_of_fuel f g same = refl

  pub and_then-and_then :
      {C : Type 0} (r : Run W A) (f : A → Cmd W B) (g : B → Cmd W C)
      → and_then (and_then r f) g ≡ and_then r (λ a t. and_then (f a t) g)
  and_then-and_then (ok a t) f g = refl
  and_then-and_then (stop t) f g = refl
  and_then-and_then (blocked t) f g = refl
  and_then-and_then fault f g = refl
  and_then-and_then out_of_fuel f g = refl
