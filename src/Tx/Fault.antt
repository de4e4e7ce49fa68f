-- ===== src/Tx/Fault.antt =====
-- A burst that meets a frame of a wrong length.
use native.Mathlib.Nat.{add-zero}
use mlx_nic_driver.Base.{
  ℕ, zero, suc, ◌+◌, ◌*◌, ◌%◌, ◌^◌, ◌≤◌, ◌<◌, ◌≡◌, ◌∙◌, refl, arith, Bool, true, false, none, some,
  Option-cases, inl, inr, ◌==◌,
}
use mlx_nic_driver.Word.{Bytes}
use mlx_nic_driver.Sq.{Sq, prepare_send_raw}
use mlx_nic_driver.Sq.Wqe.{prepare_send_raw_accepts}
use mlx_nic_driver.Dev.{Dev, io, has_tx, set_error}
use mlx_nic_driver.Tx.{
  Pkt, Tx, fail, prepare_batch, post_round, tx_round, tx_loop, tx_burst_q, used_wqebbs, batch_of,
  tx_start, store_tx,
}
use mlx_nic_driver.Tx.Batch.{Fits, prepare-Sent}

next_pkt : (sent i j : ℕ) → sent + (i + suc j) ≡ sent + (i + 1 + j)
next_pkt sent i j = omega arith

prepare_refuses :
    (tisn : ℕ) (pkt : Pkt) (completion : Bool) (sq : Sq)
    → ¬ Fits pkt
    → prepare_send_raw tisn pkt.data_bytes pkt.len completion sq ≡ none
prepare_refuses tisn pkt completion sq unfit =
    let iff = prepare_send_raw_accepts tisn pkt.data_bytes pkt.len completion sq in
    elim (Option-cases (prepare_send_raw tisn pkt.data_bytes pkt.len completion sq)) [
      | inl e ↦ e
      | inr (r, e) ↦ absurd (unfit (iff.0 (λ z. cc)))
    ]

-- The batch stops at the first frame that does not fit, with the WQEs of those before it
-- prepared.
batch_stops :
    (k left i batch tisn : ℕ) (pkts : ℕ → Pkt) (sent last : ℕ) (sq : Sq)
    → ((j : ℕ) → j < k → Fits (pkts (sent + (i + j))))
    → ¬ Fits (pkts (sent + (i + k)))
    → k < left
    → sq.prod_index < 2 ^ 32
    → ((prepare_batch left i batch tisn pkts sent last sq).0 ≡ false)
      × ((prepare_batch left i batch tisn pkts sent last sq).1.prod_index
          ≡ (sq.prod_index + 2 * k) % 2 ^ 32)
      × ((prepare_batch left i batch tisn pkts sent last sq).1.cons_index ≡ sq.cons_index)
unfolding prepare_batch
batch_stops k zero i batch tisn pkts sent last sq fits unfit h range = elim h [ ]
batch_stops zero (suc left) i batch tisn pkts sent last sq fits unfit h range =
    let refused =
      prepare_refuses tisn (pkts (sent + i)) (i + 1 == batch) sq (rw add-zero at unfit) in
    rw (refused, prepare_batch) (refl, omega arith, refl)
batch_stops (suc k) (suc left) i batch tisn pkts sent last sq fits unfit h range =
    let fits0 : Fits (pkts (sent + i)) = rw add-zero at (fits 0 (omega arith)) in
    let one = prepare-Sent tisn (pkts (sent + i)) (i + 1 == batch) sq fits0 in
    let rest =
      batch_stops k left (i + 1) batch tisn pkts sent (sq.prod_index % 8192 * 64) one.after
        (λ j below. rw next_pkt at (fits (suc j) (omega arith))) (rw next_pkt at unfit)
        (omega arith) (omega (arith, one.index)) in
    rw (one.result, prepare_batch) (rest.0, omega (arith, rest.1, one.index), rest.2 ∙ one.same.0)

-- The round of such a batch fails before the doorbell.
post_round_stops :
    (uar tisn : ℕ) (pkts : ℕ → Pkt) (nb : ℕ) (t : Tx)
    → (prepare_batch nb 0 nb tisn pkts t.sent 0 t.sq).0 ≡ false
    → post_round uar tisn pkts nb t
      ≡ fail (record t { sq = (prepare_batch nb 0 nb tisn pkts t.sent 0 t.sq).1 })
unfolding post_round
post_round_stops uar tisn pkts nb t e = rw e

-- A burst on an open device whose queue has room for all its packets at once, in which frame k is the first that has not 60
-- to 98 bytes: the call returns 0 with the error `io` and rings no doorbell, but the producer
-- index has moved past the k frames before it, and the consumer index has not. The next doorbell
-- sends them, although the caller was told that none was sent.
pub tx_burst_q_bad_frame :
    (fuel : ℕ) (views : ℕ → Bytes) (now : ℕ) (dev : Dev) (q : ℕ) (pkts : ℕ → Pkt) (nb k : ℕ)
    → dev.started ≡ true
    → has_tx dev.config ≡ true
    → q < dev.queue_count
    → k < nb
    → ((j : ℕ) → j < k → Fits (pkts j))
    → ¬ Fits (pkts k)
    → (dev.queues q).sq.prod_index < 2 ^ 32
    → used_wqebbs (dev.queues q).sq + 2 * nb ≤ 8192
    → (dev' : Dev) × (tx_burst_q (suc fuel) views now (some dev) q (some pkts) nb
        ≡ some (0, some dev', now))
      × (dev'.last_error ≡ io)
      × (dev'.bar ≡ dev.bar)
      × ((dev'.queues q).sq.prod_index ≡ ((dev.queues q).sq.prod_index + 2 * k) % 2 ^ 32)
      × ((dev'.queues q).sq.cons_index ≡ (dev.queues q).sq.cons_index)
unfolding tx_burst_q tx_loop tx_round
tx_burst_q_bad_frame fuel views now dev q pkts nb k started tx exists below fits unfit range room =
    let sq = (dev.queues q).sq in
    let at : (j : ℕ) → 0 + (0 + j) ≡ j = λ j. omega arith in
    let stop =
      batch_stops k nb 0 nb dev.tisn pkts 0 0 sq (λ j h. rw (at j) (fits j h)) (rw (at k) unfit)
        below range in
    let t = tx_start q now dev in
    let whole : batch_of nb t ≡ nb = ground (arith, room) in
    let t' : Tx = record t { sq = (prepare_batch nb 0 nb dev.tisn pkts 0 0 sq).1 } in
    let stops = post_round_stops dev.uar dev.tisn pkts nb t stop.0 in
    let round : post_round dev.uar dev.tisn pkts (batch_of nb t) t ≡ fail t' = rw whole stops in
    (
      set_error io (store_tx q t' dev),
      ground (arith, round, started, tx),
      refl,
      refl,
      ground (arith, stop.1),
      ground (arith, stop.2),
    )
