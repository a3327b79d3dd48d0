-- ===== src/Prelude/Search.antt =====
-- A loop over indices that stops at the first one with a property.
use Prim.Native.Nat.{ℕ, suc, ◌+◌, ◌≤◌, ◌<◌}
use mathlib.Core.Path.{◌≡◌, subst}
use native.Mathlib.Omega.{arith}
use native.Mathlib.Decide.{ℕ_discrete}

-- The run over the indices from `i` to `i + n` is that of the first with the property, or `miss`.
pub data First (A : Type 0) (P : ℕ → Type 0) (hit : ℕ → A) (miss : A) (n i : ℕ) (run : A)
    : Type 0 where
  at :
      (j : ℕ)
      → i ≤ j
      → j < i + n
      → P j
      → ((k : ℕ) → i ≤ k → k < j → ¬ P k)
      → run ≡ hit j
      → First A P hit miss n i run
  nowhere : ((k : ℕ) → i ≤ k → k < i + n → ¬ P k) → run ≡ miss → First A P hit miss n i run

-- One more index in front, without the property.
pub First-beside :
    {A : Type 0} {P : ℕ → Type 0} {hit : ℕ → A} {miss : A} (n i : ℕ) (run : A)
    → ¬ P i
    → First A P hit miss n (i + 1) run
    → First A P hit miss (suc n) i run
First-beside {P} n i run no_i (at j a b c d e) =
    at j (omega arith) (omega arith) c
      (λ k l u. elim (ℕ_discrete i k) [
        | yes q ↦ subst (λ (k : ℕ). ¬ P k) q no_i
        | no q ↦ d k (omega arith) u
      ])
      e
First-beside {P} n i run no_i (nowhere d e) =
    nowhere
      (λ k l u. elim (ℕ_discrete i k) [
        | yes q ↦ subst (λ (k : ℕ). ¬ P k) q no_i
        | no q ↦ d k (omega arith) (omega arith)
      ])
      e
