-- ===== src/Cq.antt =====
-- Completion queues: `mlx5_poll_cq_once_mode`, `mlx5_poll_cq` and `mlx5_cq_update_consumer` of
-- src/mlx5.c. The device writes the ring while it is polled, so a poll takes the ring's bytes as
-- they are at that moment, and a wait takes a stream of them, one for each poll.
pub mod Ring
pub mod Wait
use mlx_nic_driver.Base.{
  ℕ, zero, suc, ◌+◌, ◌-◌, ◌*◌, ◌/◌, ◌%◌, ◌^◌, Bool, true, false, not, ◌||◌, Option, none, some, ltb,
  leb, ◌==◌, if◌then◌else◌,
}
use mlx_nic_driver.Word.{Bytes, u8, u32, low_bits, shr, put_be32, get_be16, get_be32}

abbrev pub cq_cqe_count : ℕ
cq_cqe_count = 2048

abbrev pub cqe_size : ℕ
cqe_size = 64

abbrev pub cqe_req_err : ℕ
cqe_req_err = 13

abbrev pub cqe_resp_err : ℕ
cqe_resp_err = 14

abbrev pub cq_fast_poll_spins : ℕ
cq_fast_poll_spins = 1000000

-- `struct mlx5_cq_res`, with the bytes of its doorbell record page.
pub record Cq : Type 0 where
  pub dbr : Bytes
  pub cqn : ℕ
  pub cons_index : ℕ
  pub valid : Bool

-- The return values 0, -1 and 1; the last with what goes through the out parameters.
pub data Poll : Type 0 where
  idle : Poll
  failed : Poll
  got : ℕ → ℕ → Poll

unfoldable pub cq_update_consumer : Cq → Cq
cq_update_consumer cq = record cq { dbr = put_be32 0 (low_bits cq.cons_index 24) cq.dbr }

-- One poll of the ring `mem`.
unfoldable pub poll_cq_once_mode : Bytes → Bool → Cq → Poll × Cq
unfolding cq_update_consumer
poll_cq_once_mode mem update_consumer cq =
    let cqe : ℕ = low_bits cq.cons_index 11 * cqe_size in
    let op_own : ℕ = mem (cqe + 0x3f) in
    let opcode : ℕ = shr op_own 4 in
    let owner : ℕ = low_bits op_own 1 in
    let expected_owner : ℕ = low_bits (cq.cons_index / cq_cqe_count) 1 in
    let byte_cnt : ℕ = get_be32 mem (cqe + 0x2c) in
    let wqe_counter : ℕ = get_be16 mem (cqe + 0x3c) in
    let advanced : Cq = record cq { cons_index = u32 (cq.cons_index + 1) } in
    let cq' : Cq = if update_consumer then cq_update_consumer advanced else advanced in
    if not (owner == expected_owner)
    then (idle, cq)
    else if opcode == cqe_req_err || opcode == cqe_resp_err
    then (failed, cq')
    else (got byte_cnt wqe_counter, cq')

unfoldable pub poll_cq_once : Bytes → Cq → Poll × Cq
unfolding poll_cq_once_mode
poll_cq_once mem cq = poll_cq_once_mode mem true cq

-- An `int timeout_ms`, below 2^31 where it is not negative.
pub data Timeout : Type 0 where
  ms : ℕ → Timeout
  negative : Timeout

-- An `int` is kept as its 32 bits; from 2^31 on it is negative. What C leaves undefined, an
-- `elapsed` past INT_MAX, wraps.
abbrev pub within : ℕ → Timeout → Bool
within elapsed (ms t) = leb (2 ^ 31) elapsed || leb elapsed t
within elapsed negative = false

abbrev pub next_ms : ℕ → ℕ
next_ms elapsed = (elapsed + 1) % 2 ^ 32

abbrev pub is_zero : Timeout → Bool
is_zero (ms t) = t == 0
is_zero negative = false

-- What a wait returns: `none` is -1, `some` the byte count and WQE counter of a completion.
abbrev pub Waited : Type 0
Waited = Option (ℕ × ℕ)

abbrev pub waited_of : Poll → Waited
waited_of idle = none
waited_of failed = none
waited_of (got b w) = some (b, w)

-- The loop of `mlx5_poll_cq`. `now` counts the polls of the ring so far, and is where the stream
-- `views` is read. The outer `none` means that the fuel ran out.
unfoldable pub poll_loop : ℕ → (ℕ → Bytes) → ℕ → Timeout → ℕ → ℕ → Cq → Option (Waited × Cq × ℕ)
poll_loop zero views now timeout elapsed spins cq = none
poll_loop (suc fuel) views now timeout elapsed spins cq =
    let (polled, cq') = poll_cq_once (views now) cq in
    let spin = poll_loop fuel views (now + 1) timeout elapsed (spins - 1) cq' in
    let slept = poll_loop fuel views (now + 1) timeout (next_ms elapsed) cq_fast_poll_spins cq' in
    if not (within elapsed timeout) then some (none, cq, now) else elim polled [
      | got b w ↦ some (some (b, w), cq', now + 1)
      | failed ↦ some (none, cq', now + 1)
      | idle ↦ if not (spins == 0) then spin else slept
    ]

unfoldable pub poll_cq : ℕ → (ℕ → Bytes) → ℕ → Timeout → Cq → Option (Waited × Cq × ℕ)
unfolding poll_loop
poll_cq fuel views now timeout cq =
    let (polled, cq') = poll_cq_once (views now) cq in
    if is_zero timeout
    then some (waited_of polled, cq', now + 1)
    else poll_loop fuel views now timeout 0 cq_fast_poll_spins cq
