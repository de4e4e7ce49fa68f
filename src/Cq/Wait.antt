-- ===== src/Cq/Wait.antt =====
-- About the loop of `mlx5_poll_cq`.
use mlx_nic_driver.Base.{
  ℕ, zero, suc, ◌+◌, ◌-◌, ◌*◌, ◌^◌, ◌≤◌, ◌<◌, ◌≡◌, ◌≢◌, arith, none, some, false,
}
use native.Mathlib.Nat.{add-zero}
use mlx_nic_driver.Word.{Bytes}
use mlx_nic_driver.Cq.{
  Cq, idle, got, poll_cq_once, poll_loop, poll_cq, Timeout, ms, negative, is_zero,
  cq_fast_poll_spins, next_ms,
}

-- The polls that a wait may still make.
abbrev pub polls_left : Timeout → ℕ → ℕ → ℕ
polls_left (ms t) elapsed spins = (t + 1 - elapsed) * 1000001 + spins
polls_left negative elapsed spins = 0

-- The numbers that occur fit an `int`.
abbrev AreInts : Timeout → ℕ → Type 0
AreInts (ms t) elapsed = (t < 2 ^ 31 - 1) × (elapsed < 2 ^ 31)
AreInts negative elapsed = Unit

loop_total :
    (fuel : ℕ) (views : ℕ → Bytes) (now : ℕ) (timeout : Timeout) (elapsed spins : ℕ) (cq : Cq)
    → AreInts timeout elapsed
    → polls_left timeout elapsed spins < fuel
    → poll_loop fuel views now timeout elapsed spins cq ≢ none
unfolding poll_loop
loop_total zero views now timeout elapsed spins cq ints h = elim h [ ]
loop_total (suc fuel) views now negative elapsed spins cq ints h = cc
loop_total (suc fuel) views now (ms t) elapsed spins cq ints h =
    let cq' = (poll_cq_once (views now) cq).1 in
    ground (
      arith,
      loop_total fuel views (now + 1) (ms t) elapsed (spins - 1) cq' ints,
      loop_total fuel views (now + 1) (ms t) (next_ms elapsed) cq_fast_poll_spins cq',
    )

-- A wait with a timeout of `t` milliseconds, below INT_MAX, ends after at most (t + 2) * 1000001 polls: with
-- that much fuel, `poll_cq` returns.
pub poll_cq_total :
    (fuel : ℕ) (views : ℕ → Bytes) (now : ℕ) (t : ℕ) (cq : Cq)
    → t < 2 ^ 31 - 1
    → (t + 2) * 1000001 ≤ fuel
    → poll_cq fuel views now (ms t) cq ≢ none
unfolding poll_cq
poll_cq_total fuel views now t cq int h =
    ground (arith, loop_total fuel views now (ms t) 0 cq_fast_poll_spins cq (int, omega arith))

shift : (n j : ℕ) → n + suc j ≡ n + 1 + j
shift n j = omega arith

loop_finds :
    (fuel : ℕ) (views : ℕ → Bytes) (now t elapsed spins k : ℕ) (cq : Cq) (b w : ℕ) (cq' : Cq)
    → ((j : ℕ) → j < k → poll_cq_once (views (now + j)) cq ≡ (idle, cq))
    → poll_cq_once (views (now + k)) cq ≡ (got b w, cq')
    → t < 2 ^ 31
    → elapsed ≤ t
    → k < fuel
    → k ≤ (t - elapsed) * 1000001 + spins
    → poll_loop fuel views now (ms t) elapsed spins cq ≡ some (some (b, w), cq', now + k + 1)
unfolding poll_loop
loop_finds zero views now t elapsed spins k cq b w cq' quiet found int early enough room =
    elim enough [ ]
loop_finds (suc fuel) views now t elapsed spins zero cq b w cq' quiet found int early enough room =
    let found' : poll_cq_once (views now) cq ≡ (got b w, cq') = rw add-zero at found in ground arith
loop_finds (suc fuel) views now t elapsed spins (suc k) cq b w cq' quiet found int early enough
      room =
    let first : poll_cq_once (views now) cq ≡ (idle, cq) = rw add-zero at (quiet 0 (omega arith)) in
    let quiet' = λ (j : ℕ) (h : j < k). rw (shift now j) at (quiet (suc j) (omega arith)) in
    let found' = rw (shift now k) at found in
    let slept =
      loop_finds fuel views (now + 1) t (next_ms elapsed) cq_fast_poll_spins k cq b w cq' quiet'
        found' int in
    let spun =
      loop_finds fuel views (now + 1) t elapsed (spins - 1) k cq b w cq' quiet' found' int in
    ground (arith, first, slept, spun)

-- A completion that the ring shows at the k-th poll, after k idle ones, is returned by a wait
-- with a timeout of `t` > 0 milliseconds, an `int`, provided that k ≤ (t + 1) * 1000001 - 1 and the fuel
-- exceeds k: the consumer then stands behind that completion.
pub poll_cq_finds :
    (fuel : ℕ) (views : ℕ → Bytes) (now t k : ℕ) (cq : Cq) (b w : ℕ) (cq' : Cq)
    → 0 < t
    → t < 2 ^ 31
    → k < fuel
    → k < (t + 1) * 1000001
    → ((j : ℕ) → j < k → poll_cq_once (views (now + j)) cq ≡ (idle, cq))
    → poll_cq_once (views (now + k)) cq ≡ (got b w, cq')
    → poll_cq fuel views now (ms t) cq ≡ some (some (b, w), cq', now + k + 1)
unfolding poll_cq
poll_cq_finds fuel views now t k cq b w cq' pos int enough room quiet found =
    let nonzero : is_zero (ms t) ≡ false = ground arith in
    rw nonzero (
      loop_finds fuel views now t 0 cq_fast_poll_spins k cq b w cq' quiet found int (omega arith)
        enough (omega arith))
