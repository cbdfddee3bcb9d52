-- ===== src/Worker/Requests.antt =====
-- Requests followed by others.
use threaded_ffi_plugin.Prelude.{◌+◌, ◌≡◌, refl, ap, false, List, [], ◌∷◌, ◌++◌, map, arith}
use threaded_ffi_plugin.Machine.{Ptr}
use threaded_ffi_plugin.Host.{Vm, Ffi}
use threaded_ffi_plugin.Worker.Tasks.{
  Request, call, return_to, return_here, effects, signals, served, left, returns,
}
use threaded_ffi_plugin.Worker.Calls.{Call, request}

-- Without a return to the worker's own thread, all requests are served, and what follows them.
module _ (rs' : List Request) where
  pub served-append :
      (rs : List Request) → returns rs ≡ false → served (rs ++ rs') ≡ rs ++ served rs'
  served-append [] ends = refl
  served-append (call f c p r i ∷ rs) ends = ap (◌∷◌ (call f c p r i)) (served-append rs ends)
  served-append (return_to p r ∷ rs) ends = ap (◌∷◌ (return_to p r)) (served-append rs ends)
  served-append (return_here ∷ rs) ends = absurd cc

  pub left-append : (rs : List Request) → returns rs ≡ false → left (rs ++ rs') ≡ left rs'
  left-append [] ends = refl
  left-append (call f c p r i ∷ rs) ends = left-append rs ends
  left-append (return_to p r ∷ rs) ends = left-append rs ends
  left-append (return_here ∷ rs) ends = absurd cc

  pub returns-append : (rs : List Request) → returns rs ≡ false → returns (rs ++ rs') ≡ returns rs'
  returns-append [] ends = refl
  returns-append (call f c p r i ∷ rs) ends = returns-append rs ends
  returns-append (return_to p r ∷ rs) ends = returns-append rs ends
  returns-append (return_here ∷ rs) ends = absurd cc

  pub signals-append :
      (p : Ptr) (rs : List Request) → signals p (rs ++ rs') ≡ signals p rs + signals p rs'
  signals-append p [] = omega arith
  signals-append p (call f c a b i ∷ rs) = signals-append p rs
  signals-append p (return_to a b ∷ rs) = ground (arith, signals-append p rs)
  signals-append p (return_here ∷ rs) = signals-append p rs

  pub effects-append :
      {W : Type 0} ⦃vm : Vm W⦄ ⦃ffi : Ffi W⦄ (rs : List Request) (world : W)
      → effects (rs ++ rs') world ≡ effects rs' (effects rs world)
  effects-append [] world = refl
  effects-append (r ∷ rs) world = effects-append rs _

-- calls return nowhere and signal no other thread
pub returns-calls : (cs : List Call) → returns (map request cs) ≡ false
returns-calls [] = refl
returns-calls (c ∷ cs) = returns-calls cs

pub signals-calls : (p : Ptr) (cs : List Call) → signals p (map request cs) ≡ 0
signals-calls p [] = refl
signals-calls p (c ∷ cs) = signals-calls p cs
