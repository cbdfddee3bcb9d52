-- ===== src/Queue/Threads/Family.antt =====
-- Values indexed by thread, and what the threads below a bound have altogether.
use native.Mathlib.Decide.{ℕ_discrete}
use threaded_ffi_plugin.Prelude.{ℕ, zero, suc, ◌+◌, ◌≤◌, ◌<◌, ◌≡◌, refl, ◌==◌, if◌then◌else◌, arith}

module _ {A : Type 0} where
  abbrev pub update : (ℕ → A) → ℕ → A → ℕ → A
  update threads i a j = if j == i then a else threads j

  module _ (weight : A → ℕ) where
    pub total : (bound : ℕ) → (ℕ → A) → ℕ
    total zero threads = 0
    total (suc bound) threads = weight (threads bound) + total bound threads

    module _ (threads : ℕ → A) where
      module _ (i : ℕ) (a : A) where
        -- A thread above the bound does not count.
        total-above :
            (bound : ℕ) → bound ≤ i → total bound (update threads i a) ≡ total bound threads
        unfolding total
        total-above zero le = refl
        total-above (suc bound) le = ground (arith, total-above bound (omega (arith, le)))

        -- A change at one thread moves its weight.
        pub total-update :
            (bound : ℕ)
            → i < bound
            → weight (threads i) + total bound (update threads i a) ≡ weight a + total bound threads
        unfolding total
        total-update zero lt = absurd (omega (arith, lt))
        total-update (suc bound) lt = elim (ℕ_discrete i bound) [
          | yes e ↦ ground (arith, e, total-above bound)
          | no other ↦ ground (arith, total-update bound)
        ]

      pub total-zero :
          (bound : ℕ) → ((i : ℕ) → i < bound → weight (threads i) ≡ 0) → total bound threads ≡ 0
      unfolding total
      total-zero zero weightless = refl
      total-zero (suc bound) weightless = omega (
        arith,
        weightless bound (omega arith),
        total-zero bound (λ i lt. weightless i (omega (arith, lt))),
      )

      -- What one thread weighs, all weigh together.
      pub weight-le_total : (i bound : ℕ) → i < bound → weight (threads i) ≤ total bound threads
      unfolding total
      weight-le_total i zero lt = absurd (omega (arith, lt))
      weight-le_total i (suc bound) lt = elim (ℕ_discrete i bound) [
        | yes e ↦ rw e (omega arith)
        | no other ↦ omega (arith, weight-le_total i bound (omega (arith, lt, other)))
      ]
