-- ===== src/Tests/Transmit.antt =====
-- Tests of the transmit path.
use mlx_nic_driver.Base.{◌+◌, ◌*◌, ◌%◌, ◌≤◌, ◌≡◌, ◌≢◌, ◌↔◌, refl, arith, true, none, some}
use mlx_nic_driver.Word.{get_be32}
use mlx_nic_driver.Sq.{Sq, prepare_send_raw, reclaim_cqe}
use mlx_nic_driver.Sq.Wqe.{prepare_send_raw_wqe, prepare_send_raw_accepts}
use mlx_nic_driver.Sq.Reclaim.{reclaim_cqe_index}
use mlx_nic_driver.Dev.{Dev, ok, io, set_error}
use mlx_nic_driver.Tx.{Tx, tx_start, tx_burst_q, store_tx}
use mlx_nic_driver.Tx.Burst.{HasRoom, Burst, tx_burst_q_sends}
use mlx_nic_driver.Tx.Fault.{tx_burst_q_bad_frame}
use mlx_nic_driver.Tests.{sq, dev, pkts, bad_pkts, views}

-- Room for three packets, at the end of the ring.
dev-HasRoom : HasRoom dev.uar pkts 3 (tx_start 0 0 dev)
dev-HasRoom = record {
  start = refl;
  some_pkts = omega arith;
  range = omega arith;
  even = refl;
  room = omega arith;
  fits = λ j h. (omega arith, omega arith);
  bar_fits = omega arith;
}

tx_burst_q_sends_example :
    (t' : Tx) × (tx_burst_q 2 views 0 (some dev) 0 (some pkts) 3
      ≡ some (3, some (set_error ok (store_tx 0 t' dev)), 0))
    × Burst dev.uar dev.tisn pkts 3 (tx_start 0 0 dev) t'
tx_burst_q_sends_example =
    tx_burst_q_sends 0 views 0 dev 0 pkts 3 refl refl (omega arith) dev-HasRoom

tx_burst_q_bad_frame_example :
    (dev' : Dev) × (tx_burst_q 1 views 0 (some dev) 0 (some bad_pkts) 2 ≡ some (0, some dev', 0))
    × (dev'.last_error ≡ io)
    × (dev'.bar ≡ dev.bar)
    × ((dev'.queues 0).sq.prod_index ≡ 8192)
    × ((dev'.queues 0).sq.cons_index ≡ 8190)
tx_burst_q_bad_frame_example =
    tx_burst_q_bad_frame 0 views 0 dev 0 bad_pkts 2 1 refl refl (omega arith) (omega arith)
      (λ j h. ground arith) (λ h. ground arith) (omega arith) (omega arith)

abbrev after_send : Sq
after_send = elim (prepare_send_raw 3 (λ k. k % 256) 98 true sq) [ none ↦ sq | some (s, w) ↦ s ]

accepted : prepare_send_raw 3 (λ k. k % 256) 98 true sq ≡ some (after_send, 8190 * 64)
unfolding prepare_send_raw
accepted = refl

prepare_send_raw_wqe_example :
    (get_be32 after_send.ring (8190 * 64 + 4) ≡ 7 * 256 + 8)
    × (after_send.ring (8190 * 64 + 0x0b) ≡ 8)
    × (after_send.prod_index ≡ 8192)
prepare_send_raw_wqe_example =
    let lem = prepare_send_raw_wqe 3 (λ k. k % 256) 98 true sq after_send (8190 * 64) accepted in
    (lem.2, lem.3, lem.8)

prepare_send_raw_accepts_example :
    (prepare_send_raw 3 (λ k. 0) 99 true sq ≢ none) ↔ ((60 ≤ 99) × (99 ≤ 98))
prepare_send_raw_accepts_example = prepare_send_raw_accepts 3 (λ k. 0) 99 true sq

reclaim_cqe_index_example : (reclaim_cqe 8194 sq).cons_index ≡ 8196
reclaim_cqe_index_example = reclaim_cqe_index sq 8190 8194 refl (omega arith) (omega arith)
