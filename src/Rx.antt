-- ===== src/Rx.antt =====
-- Receive: `mlxnicd_rx_burst_q`, `mlxnicd_rx_burst`, `mlxnicd_rx_release_q` and
-- `mlxnicd_rx_release` of src/mlx5.c. `views` is the queue's completion ring as each poll finds
-- it, and `now` counts the polls.
pub mod Drain
pub mod Release
use mlx_nic_driver.Base.{
  ℕ, zero, suc, ◌+◌, ◌-◌, ◌%◌, ◌^◌, Bool, true, false, not, ◌&&◌, ◌||◌, Option, none, some, List,
  [], ◌∷◌, ltb, leb, ◌==◌, if◌then◌else◌,
}
use mlx_nic_driver.Word.{Bytes, u16}
use mlx_nic_driver.Cq.{
  Cq, Poll, idle, failed, got, Timeout, is_zero, poll_cq_once_mode, cq_update_consumer,
}
use mlx_nic_driver.Rq.{Rq, RxPacket, rx_packet, rx_poll_one, post_buffers}
use mlx_nic_driver.Dev.{
  Err, ok, inval, state, io, timeout, Dev, Queue, has_rx, set_queue, set_error,
}

-- A received packet as the caller sees it: the address of the driver's buffer and the length.
pub record Received : Type 0 where
  pub addr : ℕ
  pub len : ℕ

-- How the loop stops: with the error that it stores, if it stores one.
pub record Rx : Type 0 where
  pub pkts : List Received
  pub error : Option Err
  pub cq : Cq
  pub now : ℕ

abbrev pub received_of : RxPacket → Received
received_of p = record { addr = p.addr; len = p.len }

-- A stop after `received` packets on a poll that yields none.
abbrev pub timed_out : ℕ → Option Err
timed_out received = if received == 0 then some timeout else none

-- The rounds that do not wait, `left` of them. The packets are those of these rounds.
unfoldable pub rx_poll_loop : ℕ → ℕ → (ℕ → Bytes) → ℕ → Rq → Cq → Rx
rx_poll_loop zero received views now rq cq = record { pkts = []; error = none; cq = cq; now = now }
rx_poll_loop (suc left) received views now rq cq =
    let (polled, cq') = poll_cq_once_mode (views now) false cq in
    elim polled [
      | idle ↦ record { pkts = []; error = timed_out received; cq = cq'; now = now + 1 }
      | failed ↦ record { pkts = []; error = timed_out received; cq = cq'; now = now + 1 }
      | got b w ↦ elim (rx_packet b w rq) [
        | none ↦ record { pkts = []; error = some io; cq = cq'; now = now + 1 }
        | some p ↦
            let rest = rx_poll_loop left (received + 1) views (now + 1) rq cq' in
            record rest { pkts = received_of p ∷ rest.pkts }
      ]
    ]

-- The whole loop: the first packet may be waited for. The rounds after it are those above.
-- `none` means that the fuel of the wait ran out.
unfoldable pub rx_loop : ℕ → ℕ → (ℕ → Bytes) → ℕ → Timeout → Rq → Cq → Option Rx
unfolding rx_poll_loop
rx_loop fuel zero views now t rq cq = some (rx_poll_loop 0 0 views now rq cq)
rx_loop fuel (suc left) views now t rq cq =
    if is_zero t
    then some (rx_poll_loop (suc left) 0 views now rq cq)
    else elim (rx_poll_one fuel views now t cq rq) [
      | none ↦ none
      | some (none, cq', now') ↦
          some (record { pkts = []; error = some timeout; cq = cq'; now = now' })
      | some (some p, cq', now') ↦
          let rest = rx_poll_loop left 1 views now' rq cq' in
          some (record rest { pkts = received_of p ∷ rest.pkts })
    ]

abbrev pub count : List Received → ℕ
count [] = 0
count (p ∷ ps) = suc (count ps)

-- After the loop: with packets the consumer index is published and the packets are owed.
unfoldable pub rx_finish : ℕ → Rx → Dev → Dev
unfolding cq_update_consumer
rx_finish q r dev =
    let queue : Queue = dev.queues q in
    let n : ℕ = count r.pkts in
    let idle_dev : Dev = set_queue q (record queue { rx_cq = r.cq }) dev in
    let busy_dev : Dev =
      set_queue q
        (record queue {
          rx_cq = cq_update_consumer r.cq;
          rx_outstanding = u16 (queue.rx_outstanding + n);
        })
        dev in
    if ltb 0 n
    then set_error ok busy_dev
    else elim r.error [ none ↦ idle_dev | some e ↦ set_error e idle_dev ]

-- The packets, the device and the polls so far. `none` for the device is NULL, and false says
-- that `pkts` is NULL.
unfoldable pub rx_burst_q :
    ℕ
    → (ℕ → Bytes)
    → ℕ
    → Option Dev
    → ℕ
    → Bool
    → ℕ
    → Timeout
    → Option (List Received × Option Dev × ℕ)
rx_burst_q fuel views now none q room nb_pkts t = some ([], none, now)
rx_burst_q fuel views now (some dev) q room nb_pkts t =
    let queue : Queue = dev.queues q in
    if not room
    then some ([], some dev, now)
    else if not dev.started || not (has_rx dev.config)
    then some ([], some (set_error state dev), now)
    else if leb dev.queue_count q
    then some ([], some (set_error inval dev), now)
    else elim (rx_loop fuel nb_pkts views now t queue.rq queue.rx_cq) [
      | none ↦ none
      | some r ↦ some (r.pkts, some (rx_finish q r dev), r.now)
    ]

unfoldable pub rx_burst :
    ℕ → (ℕ → Bytes) → ℕ → Option Dev → Bool → ℕ → Timeout → Option (List Received × Option Dev × ℕ)
unfolding rx_burst_q
rx_burst fuel views now dev room nb_pkts t = rx_burst_q fuel views now dev 0 room nb_pkts t

-- True is the return of 0.
unfoldable pub rx_release_q : Option Dev → ℕ → ℕ → Bool × Option Dev
rx_release_q none q nb_pkts = (false, none)
rx_release_q (some dev) q nb_pkts =
    let queue : Queue = dev.queues q in
    let (posted, rq', host') = post_buffers dev.mkey nb_pkts queue.rq dev.host in
    let reposted : Dev = record (set_queue q (record queue { rq = rq' }) dev) { host = host' } in
    let released : Dev =
      record (set_queue q
        (record queue { rq = rq'; rx_outstanding = u16 (queue.rx_outstanding + 2 ^ 16 - nb_pkts) })
        dev) { host = host' } in
    if not dev.started || not (has_rx dev.config)
    then (false, some (set_error state dev))
    else if leb dev.queue_count q || ltb queue.rx_outstanding nb_pkts
    then (false, some (set_error inval dev))
    else if nb_pkts == 0
    then (true, some (set_error ok dev))
    else if posted
    then (true, some (set_error ok released))
    else (false, some (set_error io reposted))

unfoldable pub rx_release : Option Dev → ℕ → Bool × Option Dev
unfolding rx_release_q
rx_release dev nb_pkts = rx_release_q dev 0 nb_pkts
