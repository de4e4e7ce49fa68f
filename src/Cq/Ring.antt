-- ===== src/Cq/Ring.antt =====
-- About a completion queue's ring with owner bits, against the completions of the device.
use mlx_nic_driver.Base.{
  ℕ, ◌+◌, ◌*◌, ◌/◌, ◌%◌, ◌^◌, ◌≤◌, ◌<◌, ◌≡◌, ◌≢◌, ◌||◌, Bool, refl, arith, if◌then◌else◌, ◌==◌, ltb,
  ◌-◌, Bool-cases, ltb→lt, ltb-false, inl, inr,
}
use mlx_nic_driver.Word.{Bytes, get_be16, get_be32}
use mlx_nic_driver.Cq.{
  Cq, Poll, idle, failed, got, cq_update_consumer, poll_cq_once_mode, cqe_req_err, cqe_resp_err,
}

-- A completion as the device reports it; `low` is the CQE format and the solicited bit.
pub record Cqe : Type 0 where
  pub opcode : ℕ
  pub low : ℕ
  pub byte_cnt : ℕ
  pub wqe_counter : ℕ

-- The 64 bytes at `off` hold `c` with the owner bit `owner`.
pub record IsCqe (mem : Bytes) (off : ℕ) (c : Cqe) (owner : ℕ) : Type 0 where
  pub op_own : mem (off + 0x3f) ≡ c.opcode * 16 + c.low * 2 + owner
  pub low_fits : c.low < 8
  pub count : get_be32 mem (off + 0x2c) ≡ c.byte_cnt
  pub counter : get_be16 mem (off + 0x3c) ≡ c.wqe_counter

-- The ring after the device has written completions 0 to `produced - 1`: completion n stands in
-- slot n % 2048 with the parity of its round, and a slot never written holds the 0xff of
-- `mlx5_ctx_create_cq`.
pub record HoldsCqes (mem : Bytes) (cqes : ℕ → Cqe) (produced : ℕ) : Type 0 where
  pub written :
      (n : ℕ)
      → n < produced
      → produced ≤ n + 2048
      → IsCqe mem (n % 2048 * 64) (cqes n) (n / 2048 % 2)
  pub fresh : (s : ℕ) → s < 2048 → produced ≤ s → mem (s * 64 + 0x3f) ≡ 0xff

-- What the consumer sees of a completion.
abbrev pub outcome : Cqe → Poll
outcome c =
    if c.opcode == cqe_req_err || c.opcode == cqe_resp_err
    then failed
    else got c.byte_cnt c.wqe_counter

slot_lem : (n : ℕ) → n % 2 ^ 32 % 2 ^ 11 ≡ n % 2048
slot_lem n = omega arith

round_lem : (n : ℕ) → n % 2 ^ 32 / 2048 % 2 ^ 1 ≡ n / 2048 % 2
round_lem n = omega arith

-- The owner bit of a slot that the device has not yet written in this round is the other one.
owner_stale :
    (mem : Bytes) (cqes : ℕ → Cqe) (n : ℕ)
    → HoldsCqes mem cqes n
    → mem (n % 2048 * 64 + 0x3f) % 2 ≡ (n / 2048 + 1) % 2
owner_stale mem cqes n holds = elim (Bool-cases (ltb n 2048)) [
  | inl first ↦
      let h : n < 2048 = ltb→lt n 2048 first in
      let slot : n % 2048 ≡ n = omega arith in
      rw slot (omega (arith, holds.fresh n h (omega arith)))
  | inr later ↦
      let h : 2048 ≤ n = ltb-false n 2048 later in
      let slot : (n - 2048) % 2048 ≡ n % 2048 = omega arith in
      let at = (holds.written (n - 2048) (omega arith) (omega arith)).op_own in
      omega (arith, rw slot at at)
]

module _ (mem : Bytes) (update : Bool) (cq : Cq) (n : ℕ) (at : cq.cons_index ≡ n % 2 ^ 32) where
  abbrev slot_at : ℕ
  slot_at = n % 2048 * 64

  poll_idle : mem (slot_at + 0x3f) % 2 ≢ n / 2048 % 2 → poll_cq_once_mode mem update cq ≡ (idle, cq)
  unfolding poll_cq_once_mode
  poll_idle ne = rw (at, slot_lem, round_lem) (ground arith)

  poll_ready :
      (c : Cqe)
      → IsCqe mem slot_at c (n / 2048 % 2)
      → ((poll_cq_once_mode mem update cq).0 ≡ outcome c)
        × ((poll_cq_once_mode mem update cq).1.cons_index ≡ (n + 1) % 2 ^ 32)
  unfolding poll_cq_once_mode cq_update_consumer
  poll_ready c holds =
      let op = holds.op_own in
      let low = holds.low_fits in
      let parity : mem (slot_at + 0x3f) % 2 ^ 1 ≡ n / 2048 % 2 = omega arith in
      let opcode : mem (slot_at + 0x3f) / 2 ^ 4 ≡ c.opcode = omega arith in
      rw (at, slot_lem, round_lem, parity, opcode, holds.count, holds.counter) (ground arith)

-- Polling a ring that holds the device's completions, with all before `n` consumed, finds
-- nothing exactly when the device has written no completion `n`; else it yields completion `n`,
-- and only an advance of the consumer index by one.
pub poll_refines :
    (mem : Bytes) (cqes : ℕ → Cqe) (produced n : ℕ) (update : Bool) (cq : Cq)
    → HoldsCqes mem cqes produced
    → n ≤ produced
    → produced ≤ n + 2048
    → cq.cons_index ≡ n % 2 ^ 32
    → ((poll_cq_once_mode mem update cq).0 ≡ (if n == produced then idle else outcome (cqes n)))
      × ((poll_cq_once_mode mem update cq).1.cons_index
          ≡ (if n == produced then n else n + 1) % 2 ^ 32)
poll_refines mem cqes produced n update cq holds le room at = elim (Bool-cases (n == produced)) [
  | inl e ↦
      let same : n ≡ produced = ground arith in
      let stale = owner_stale mem cqes n (rw same holds) in
      rw (e, poll_idle mem update cq n at (omega (arith, stale))) (refl, at)
  | inr lt ↦ rw lt (poll_ready mem update cq n at (cqes n) (holds.written n (ground arith) room))
]
