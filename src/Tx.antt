-- ===== src/Tx.antt =====
-- Transmit: `mlxnicd_tx_burst_q`, `mlxnicd_tx_burst` and `mlxnicd_tx_flush_q` of src/mlx5.c.
-- `views` is the queue's completion ring as each poll finds it, and `now` counts the polls.
pub mod Batch
pub mod Sends
pub mod Burst
pub mod Fault
use mlx_nic_driver.Base.{
  ℕ, zero, suc, ◌+◌, ◌-◌, ◌*◌, ◌/◌, ◌%◌, ◌^◌, Bool, true, false, not, ◌||◌, Option, none, some, ltb,
  leb, ◌==◌, if◌then◌else◌,
}
use mlx_nic_driver.Word.{Bytes, u16, sub32}
use mlx_nic_driver.Cq.{Cq}
use mlx_nic_driver.Sq.{Sq, Bar, sq_wqe_count, prepare_send_raw, ring_send, poll_tx_cq_wait}
use mlx_nic_driver.Dev.{Err, ok, inval, state, io, Dev, Queue, has_tx, set_queue, set_error}

-- `struct mlxnicd_pkt` to be sent: the frame's bytes and its length.
pub record Pkt : Type 0 where
  pub data_bytes : Bytes
  pub len : ℕ

-- The fuel of one wait of 1000 ms.
pub wait_fuel : ℕ
wait_fuel = 1002 * 1000001

-- The `for` loop over a batch, from packet `i` on with `left` to go: false is its early return.
-- The last component is `last_wqe`.
unfoldable pub prepare_batch :
    (left i batch : ℕ) → (tisn : ℕ) → (ℕ → Pkt) → (sent : ℕ) → ℕ → Sq → Bool × Sq × ℕ
prepare_batch zero i batch tisn pkts sent last sq = (true, sq, last)
prepare_batch (suc left) i batch tisn pkts sent last sq =
    let pkt : Pkt = pkts (sent + i) in
    elim (prepare_send_raw tisn pkt.data_bytes pkt.len (i + 1 == batch) sq) [
      | none ↦ (false, sq, last)
      | some (sq', wqe) ↦ prepare_batch left (i + 1) batch tisn pkts sent wqe sq'
    ]

-- The state of the outer loop, and how a round of it ends: `stuck` means that the fuel of a wait
-- ran out.
pub record Tx : Type 0 where
  pub sent : ℕ
  pub cq : Cq
  pub sq : Sq
  pub bar : Bar
  pub now : ℕ

pub data Round : Type 0 where
  again : Tx → Round
  fail : Tx → Round
  stuck : Round

abbrev pub used_wqebbs : Sq → ℕ
used_wqebbs sq = sub32 sq.prod_index sq.cons_index

abbrev pub available_pkts : Sq → ℕ
available_pkts sq = (sq_wqe_count - used_wqebbs sq) / 2

-- The batch of a round that has room.
abbrev pub batch_of : ℕ → Tx → ℕ
batch_of nb_pkts t =
    let rest : ℕ = nb_pkts - t.sent in
    if ltb (available_pkts t.sq) rest then u16 (available_pkts t.sq) else rest

-- Prepare a batch and ring the doorbell.
unfoldable pub post_round : (uar tisn : ℕ) → (ℕ → Pkt) → ℕ → Tx → Round
post_round uar tisn pkts batch t =
    let (prepared, sq', last) = prepare_batch batch 0 batch tisn pkts t.sent 0 t.sq in
    if not prepared then fail (record t { sq = sq' }) else elim (ring_send uar last sq' t.bar) [
      | none ↦ fail (record t { sq = sq' })
      | some (sq'', bar') ↦ again (record t { sent = u16 (t.sent + batch); sq = sq''; bar = bar' })
    ]

-- Wait for a completion.
unfoldable pub reclaim_round : (ℕ → Bytes) → Tx → Round
unfolding wait_fuel
reclaim_round views t = elim (poll_tx_cq_wait wait_fuel views t.now t.cq t.sq) [
  | none ↦ stuck
  | some (true, cq', sq', now') ↦ again (record t { cq = cq'; sq = sq'; now = now' })
  | some (false, cq', sq', now') ↦ fail (record t { cq = cq'; sq = sq'; now = now' })
]

-- A round of the outer loop, at `sent < nb_pkts`.
unfoldable pub tx_round : (uar tisn : ℕ) → (ℕ → Bytes) → (ℕ → Pkt) → ℕ → Tx → Round
tx_round uar tisn views pkts nb_pkts t =
    if ltb sq_wqe_count (used_wqebbs t.sq)
    then fail t
    else if available_pkts t.sq == 0
    then reclaim_round views t
    else post_round uar tisn pkts (batch_of nb_pkts t) t

-- True is an end with all packets sent. `none` means that the fuel ran out.
unfoldable pub tx_loop : ℕ → (uar tisn : ℕ) → (ℕ → Bytes) → (ℕ → Pkt) → ℕ → Tx → Option (Bool × Tx)
tx_loop zero uar tisn views pkts nb_pkts t = none
tx_loop (suc fuel) uar tisn views pkts nb_pkts t =
    if not (ltb t.sent nb_pkts)
    then some (true, t)
    else elim (tx_round uar tisn views pkts nb_pkts t) [
      | stuck ↦ none
      | fail t' ↦ some (false, t')
      | again t' ↦ tx_loop fuel uar tisn views pkts nb_pkts t'
    ]

abbrev pub store_tx : ℕ → Tx → Dev → Dev
store_tx q t dev = record (set_queue q (record (dev.queues q) { tx_cq = t.cq; sq = t.sq }) dev) {
  bar = t.bar;
}

abbrev pub tx_start : ℕ → ℕ → Dev → Tx
tx_start q now dev = record {
  sent = 0;
  cq = (dev.queues q).tx_cq;
  sq = (dev.queues q).sq;
  bar = dev.bar;
  now = now;
}

-- The result is the count of packets, the device and the polls so far. `none` for the device or
-- the packets is NULL.
unfoldable pub tx_burst_q :
    ℕ → (ℕ → Bytes) → ℕ → Option Dev → ℕ → Option (ℕ → Pkt) → ℕ → Option (ℕ × Option Dev × ℕ)
tx_burst_q fuel views now none q pkts nb_pkts = some (0, none, now)
tx_burst_q fuel views now (some dev) q none nb_pkts = some (0, some dev, now)
tx_burst_q fuel views now (some dev) q (some pkts) nb_pkts =
    if not dev.started || not (has_tx dev.config)
    then some (0, some (set_error state dev), now)
    else if leb dev.queue_count q
    then some (0, some (set_error inval dev), now)
    else elim (tx_loop fuel dev.uar dev.tisn views pkts nb_pkts (tx_start q now dev)) [
      | none ↦ none
      | some (true, t) ↦ some (t.sent, some (set_error ok (store_tx q t dev)), t.now)
      | some (false, t) ↦ some (t.sent, some (set_error io (store_tx q t dev)), t.now)
    ]

unfoldable pub tx_burst :
    ℕ → (ℕ → Bytes) → ℕ → Option Dev → Option (ℕ → Pkt) → ℕ → Option (ℕ × Option Dev × ℕ)
unfolding tx_burst_q
tx_burst fuel views now dev pkts nb_pkts = tx_burst_q fuel views now dev 0 pkts nb_pkts

-- The loop of `mlxnicd_tx_flush_q`.
unfoldable pub flush_loop : ℕ → (ℕ → Bytes) → Tx → Option (Bool × Tx)
flush_loop zero views t = none
flush_loop (suc fuel) views t =
    if t.sq.cons_index == t.sq.prod_index then some (true, t) else elim (reclaim_round views t) [
      | stuck ↦ none
      | fail t' ↦ some (false, t')
      | again t' ↦ flush_loop fuel views t'
    ]

-- True is the return of 0.
unfoldable pub tx_flush_q : ℕ → (ℕ → Bytes) → ℕ → Option Dev → ℕ → Option (Bool × Option Dev × ℕ)
tx_flush_q fuel views now none q = some (false, none, now)
tx_flush_q fuel views now (some dev) q =
    if not dev.started || not (has_tx dev.config)
    then some (false, some dev, now)
    else if leb dev.queue_count q
    then some (false, some (set_error inval dev), now)
    else elim (flush_loop fuel views (tx_start q now dev)) [
      | none ↦ none
      | some (true, t) ↦ some (true, some (set_error ok (store_tx q t dev)), t.now)
      | some (false, t) ↦ some (false, some (set_error io (store_tx q t dev)), t.now)
    ]
