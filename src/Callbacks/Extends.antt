-- ===== src/Callbacks/Extends.antt =====
-- What blocks that are added leave of a runner's stack of invocations.
use threaded_ffi_plugin.Prelude.{◌≡◌, ◌≢◌, refl, ap, false, none, some, [], ◌∷◌, List, arith}
use threaded_ffi_plugin.Machine.{Ptr, Block}
use threaded_ffi_plugin.Queue.Cells.{Blocks}
use threaded_ffi_plugin.Queue.Contents.{IsOther}
use threaded_ffi_plugin.Callbacks.Stack.{Activation, top, uses, IsStack, same_thread_runner}

-- Every block of `b` that is no part of a queue, but for the one at `r`, stands in `c` too.
abbrev pub Extends : Blocks → Blocks → Ptr → Type 0
Extends b c r = (p : Ptr) (x : Block) → b p ≡ some x → IsOther (some x) → p ≢ r → c p ≡ some x

pub Extends-trans : (b c d : Blocks) (r : Ptr) → Extends b c r → Extends c d r → Extends b d r
Extends-trans b c d r f g p x e o differ = g p x (f p x e o differ) o differ

pub IsStack-Extends :
    (b c : Blocks) (r : Ptr) (live now : List Activation)
    → Extends b c r
    → b r ≡ some (same_thread_runner (top now))
    → IsStack b live
    → IsStack c live
IsStack-Extends b c r [] now ext at_r is = tt
IsStack-Extends b c r (a ∷ live) now ext at_r (ni, nc, (v, e, prev, pay), ctx, out_i, out_c, rest) =
    (
      ni,
      nc,
      (v, ext a.invocation _ e tt (λ j. cc (e, at_r, ap b j)), prev, pay),
      ext a.context _ ctx tt (λ j. cc (ctx, at_r, ap b j)),
      out_i,
      out_c,
      IsStack-Extends b c r live now ext at_r rest,
    )

pub unused :
    (b : Blocks) (live : List Activation) (p : Ptr)
    → IsStack b live
    → b p ≡ none
    → uses p live ≡ false
unused b [] p is e = refl
unused b (a ∷ live) p (ni, nc, (v, at, prev, pay), ctx, out_i, out_c, rest) e =
    let p_i : p ≢ a.invocation = λ j. cc (e, at, ap b j) in
    let p_c : p ≢ a.context = λ j. cc (e, ctx, ap b j) in ground (arith, unused b live p rest e)
