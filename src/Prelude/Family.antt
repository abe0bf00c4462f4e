-- ===== src/Prelude/Family.antt =====
-- Families indexed by thread: one thread changed, and a weight summed over the first `n` threads.
use Prim.Native.Nat.{ℕ, zero, suc, ◌+◌, ◌≤◌, ◌<◌}
use mathlib.Core.Path.{◌≡◌, refl, ap}
use mathlib.Core.Logic.{◌≢◌, inl, inr}
use native.Mathlib.Omega.{arith}
use interprocess_comm.Prelude.Tests.{◌==◌, if◌then◌else◌, Bool-cases}

abbrev pub put {ℓ} : {A : Type ℓ} → (ℕ → A) → ℕ → A → ℕ → A
put f i a j = if j == i then a else f j

module _ {ℓ} {A : Type ℓ} (w : A → ℕ) where
  unfoldable pub weigh : ℕ → (ℕ → A) → ℕ
  weigh zero f = 0
  weigh (suc n) f = weigh n f + w (f n)

  weigh-put_beyond : (n : ℕ) (f : ℕ → A) (i : ℕ) (a : A) → n ≤ i → weigh n (put f i a) ≡ weigh n f
  unfolding weigh
  weigh-put_beyond zero f i a h = refl
  weigh-put_beyond (suc n) f i a h = ground (arith, weigh-put_beyond n f i a)

  -- Only the weight of the changed thread counts.
  pub weigh-put :
      (n : ℕ) (f : ℕ → A) (i : ℕ) (a : A) → i < n → weigh n (put f i a) + w (f i) ≡ weigh n f + w a
  unfolding weigh
  weigh-put zero f i a h = absurd (omega arith)
  weigh-put (suc n) f i a h = elim (Bool-cases (n == i)) [
    | inl last ↦ ground (arith, weigh-put_beyond n f i a)
    | inr below ↦ ground (arith, weigh-put n f i a)
  ]

  -- Two entries weigh together at most what all do.
  pub weigh-two :
      (o : A)
      → w o ≡ 0
      → (n i j : ℕ) (f : ℕ → A) → i < n
      → j < n
      → i ≢ j
      → w (f i) + w (f j) ≤ weigh n f
  weigh-two o z n i j f li lj ne =
      let a = weigh-put n f i o li in
      let b = weigh-put n (put f i o) j o lj in
      let c : put f i o j ≡ f j = ground arith in omega (arith, ap w c)

  pub weigh-one : (o : A) → w o ≡ 0 → (n i : ℕ) (f : ℕ → A) → i < n → w (f i) ≤ weigh n f
  weigh-one o z n i f li = omega (arith, weigh-put n f i o li)

  pub weigh-zero : (n : ℕ) (f : ℕ → A) → ((i : ℕ) → i < n → w (f i) ≡ 0) → weigh n f ≡ 0
  unfolding weigh
  weigh-zero zero f z = refl
  weigh-zero (suc n) f z =
      omega (arith, weigh-zero n f (λ i h. z i (omega (arith, h))), z n (omega arith))
