-- ===== src/Ledger/Sum.antt =====
-- Sums over a range of numbers.
use mlx_nic_driver.Base.{
  ℕ, zero, suc, ◌+◌, ◌≤◌, ◌<◌, ◌≡◌, ◌≢◌, refl, ap, arith, ◌==◌, Bool-cases, inl, inr,
}

-- The sum of `f` over `left` numbers from `i` on.
unfoldable pub sum : (left i : ℕ) → (ℕ → ℕ) → ℕ
sum zero i f = 0
sum (suc left) i f = f i + sum left (i + 1) f

pub sum_same :
    (left i : ℕ) (f g : ℕ → ℕ)
    → ((k : ℕ) → i ≤ k → k < i + left → f k ≡ g k)
    → sum left i f ≡ sum left i g
unfolding sum
sum_same zero i f g e = refl
sum_same (suc left) i f g e =
    let here = e i (omega arith) (omega arith) in
    let rest = sum_same left (i + 1) f g (λ k lo hi. e k (omega arith) (omega arith)) in
    omega (arith, here, rest)

pub sum_zero :
    (left i : ℕ) (f : ℕ → ℕ) → ((k : ℕ) → i ≤ k → k < i + left → f k ≡ 0) → sum left i f ≡ 0
unfolding sum
sum_zero zero i f e = refl
sum_zero (suc left) i f e =
    let here = e i (omega arith) (omega arith) in
    let rest = sum_zero left (i + 1) f (λ k lo hi. e k (omega arith) (omega arith)) in
    omega (arith, here, rest)

-- Functions that differ at `q` alone.
pub sum_changed :
    (left i q : ℕ) (f g : ℕ → ℕ)
    → i ≤ q
    → q < i + left
    → ((k : ℕ) → k ≢ q → f k ≡ g k)
    → sum left i f + g q ≡ sum left i g + f q
unfolding sum
sum_changed zero i q f g lo hi e = omega arith
sum_changed (suc left) i q f g lo hi e = elim (Bool-cases (i == q)) [
  | inl same ↦
      let at : i ≡ q = ground arith in
      let rest = sum_same left (i + 1) f g (λ k from to. e k (omega arith)) in
      let here : f i ≡ f q = ap f at in let there : g i ≡ g q = ap g at in omega arith
  | inr other ↦
      let apart : i ≢ q = ground arith in
      let here = e i apart in
      let rest = sum_changed left (i + 1) q f g (omega arith) (omega arith) e in omega arith
]
