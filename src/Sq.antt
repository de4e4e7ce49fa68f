-- ===== src/Sq.antt =====
-- Send queues: `mlx5_sq_prepare_send_raw`, `mlx5_sq_ring_send`, `mlx5_sq_reclaim_cqe` and
-- `mlx5_sq_poll_tx_cq` of src/mlx5.c. Indices are the 32-bit counters of the source.
pub mod Reclaim
pub mod Wqe
use mlx_nic_driver.Base.{
  ℕ, zero, suc, ◌+◌, ◌-◌, ◌*◌, ◌/◌, ◌%◌, ◌^◌, Bool, true, false, not, ◌||◌, Option, none, some,
  List, ◌∷◌, ltb, leb, ◌==◌, if◌then◌else◌,
}
use mlx_nic_driver.Word.{
  Bytes, u16, u32, low_bits, shr, put8, put_be16, put_be32, get_be64, memset, memcpy,
}
use mlx_nic_driver.Cq.{Cq, Poll, idle, failed, got, Timeout, ms, poll_cq, poll_cq_once}

abbrev pub sq_wqe_count : ℕ
sq_wqe_count = 8192

abbrev pub send_wqe_bb_log : ℕ
send_wqe_bb_log = 6

abbrev pub opcode_send : ℕ
opcode_send = 0x0a

abbrev pub wqe_ctrl_cq_update : ℕ
wqe_ctrl_cq_update = 8

abbrev pub tx_test_min_frame : ℕ
tx_test_min_frame = 60

abbrev pub tx_test_max_inline_frame : ℕ
tx_test_max_inline_frame = 98

abbrev pub uar_page_size : ℕ
uar_page_size = 4096

abbrev pub bf_offset : ℕ
bf_offset = 0x800

-- `struct mlx5_sq_res`, with the bytes of its WQE ring and of its doorbell record page.
pub record Sq : Type 0 where
  pub ring : Bytes
  pub dbr : Bytes
  pub sqn : ℕ
  pub prod_index : ℕ
  pub cons_index : ℕ
  pub valid : Bool

-- The byte offset of the slot of the next WQE.
abbrev pub next_wqe : Sq → ℕ
next_wqe sq = low_bits sq.prod_index 13 * 2 ^ send_wqe_bb_log

-- The 16-byte segments and the 64-byte blocks of a full-inline WQE.
abbrev pub segments : ℕ → ℕ
segments frame_len = u32 ((30 + frame_len + 15) / 16)

abbrev pub blocks : ℕ → ℕ
blocks frame_len = u32 (segments frame_len + 3) / 4

-- The bytes that the function writes at `wqe`.
unfoldable pub write_send_wqe : (tisn sqn pi : ℕ) → Bytes → ℕ → Bool → ℕ → Bytes → Bytes
unfolding put_be16 put_be32
write_send_wqe tisn sqn pi frame frame_len request_completion wqe ring =
    let cleared = memset wqe 0 (blocks frame_len * 2 ^ send_wqe_bb_log) ring in
    let ctrl0 = put_be32 wqe (low_bits pi 16 * 2 ^ 8 + opcode_send) cleared in
    let ctrl1 = put_be32 (wqe + 4) (low_bits sqn 24 * 2 ^ 8 + segments frame_len) ctrl0 in
    let ctrl2 = put8 (wqe + 0x0b) (if request_completion then wqe_ctrl_cq_update else 0) ctrl1 in
    let ctrl3 = put_be32 (wqe + 0x0c) (low_bits tisn 24) ctrl2 in
    let eth = put_be16 (wqe + 0x1c) (u16 frame_len) ctrl3 in
    memcpy (wqe + 0x20) frame 2 (frame_len - 2) (memcpy (wqe + 0x1e) frame 0 2 eth)

-- `none` is -1; else the queue and `*wqe_out`, the offset of the WQE in the ring.
unfoldable pub prepare_send_raw : ℕ → Bytes → ℕ → Bool → Sq → Option (Sq × ℕ)
prepare_send_raw tisn frame frame_len request_completion sq =
    let wqe : ℕ = next_wqe sq in
    if ltb frame_len tx_test_min_frame || ltb tx_test_max_inline_frame frame_len
    then none
    else if not (blocks frame_len == 2)
    then none
    else some (
      record sq {
        ring =
            write_send_wqe tisn sq.sqn sq.prod_index frame frame_len request_completion wqe sq.ring;
        prod_index = u32 (sq.prod_index + blocks frame_len);
      },
      wqe,
    )

-- BAR0: its size, and the 64-bit words written to it with the offset of each, newest first.
pub record Bar : Type 0 where
  pub size : ℕ
  pub doorbells : List (ℕ × ℕ)

-- `none` is -1. The word is the first eight bytes of the last WQE, in the order of memory.
unfoldable pub ring_send : ℕ → ℕ → Sq → Bar → Option (Sq × Bar)
unfolding put_be32 get_be64
ring_send uar last_wqe sq bar =
    let uar_off : ℕ = uar * uar_page_size + bf_offset in
    if ltb bar.size (uar_off + 8)
    then none
    else some (
      record sq { dbr = put_be32 4 (low_bits sq.prod_index 16) sq.dbr },
      record bar { doorbells = (uar_off, get_be64 sq.ring last_wqe) ∷ bar.doorbells },
    )

-- `x & 0xffff0000` is `shr x 16 * 2 ^ 16`.
unfoldable pub reclaim_cqe : ℕ → Sq → Sq
reclaim_cqe wqe_counter sq =
    let completed : ℕ = shr sq.cons_index 16 * 2 ^ 16 + wqe_counter in
    let completed' : ℕ =
      if ltb completed sq.cons_index then u32 (completed + 2 ^ 16) else completed in
    record sq { cons_index = u32 (completed' + 2) }

-- The outer `none` means that the fuel ran out. `some (false, …)` is a return of -1 or 0.
unfoldable pub poll_tx_cq_wait : ℕ → (ℕ → Bytes) → ℕ → Cq → Sq → Option (Bool × Cq × Sq × ℕ)
unfolding reclaim_cqe
poll_tx_cq_wait fuel views now cq sq = elim (poll_cq fuel views now (ms 1000) cq) [
  | none ↦ none
  | some (none, cq', now') ↦ some (false, cq', sq, now')
  | some (some (b, w), cq', now') ↦ some (true, cq', reclaim_cqe w sq, now')
]

-- The branch without a wait.
unfoldable pub poll_tx_cq_once : Bytes → Cq → Sq → Poll × Cq × Sq
unfolding reclaim_cqe
poll_tx_cq_once mem cq sq =
    let (polled, cq') = poll_cq_once mem cq in
    elim polled [
      | idle ↦ (idle, cq', sq)
      | failed ↦ (failed, cq', sq)
      | got b w ↦ (got b w, cq', reclaim_cqe w sq)
    ]
