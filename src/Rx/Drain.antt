-- ===== src/Rx/Drain.antt =====
-- About the rounds of `mlxnicd_rx_burst_q` that do not wait.
use mlx_nic_driver.Base.{
  ℕ, zero, suc, ◌+◌, ◌-◌, ◌%◌, ◌^◌, ◌≤◌, ◌<◌, ◌≡◌, ◌≢◌, ◌∙◌, ap, refl, arith, false, some, List, [],
  ◌∷◌, ◌==◌, if◌then◌else◌, ltb, Bool-cases, inl, inr,
}
use native.Mathlib.Nat.{add-zero}
use mlx_nic_driver.Word.{Bytes}
use mlx_nic_driver.Cq.{Cq, got, idle, poll_cq_once_mode}
use mlx_nic_driver.Cq.Ring.{Cqe, HoldsCqes, poll_refines}
use mlx_nic_driver.Rq.{Rq, rx_packet}
use mlx_nic_driver.Rx.{Received, rx_poll_loop}

-- The completion is for a packet in a buffer that is there.
abbrev pub IsDelivery : Rq → Cqe → Type 0
IsDelivery rq c =
    (c.opcode ≢ 13) × (c.opcode ≢ 14) × ((rq.rx_pages (c.wqe_counter % 4096)).addr ≢ 0)

abbrev pub delivery : Rq → Cqe → Received
delivery rq c = record { addr = (rq.rx_pages (c.wqe_counter % 4096)).addr; len = c.byte_cnt }

-- The first `k` packets from completion `n` on.
abbrev pub deliveries : Rq → (ℕ → Cqe) → ℕ → ℕ → List Received
deliveries rq cqes n zero = []
deliveries rq cqes n (suc k) = delivery rq (cqes n) ∷ deliveries rq cqes (n + 1) k

packet_there :
    (b w : ℕ) (rq : Rq)
    → (rq.rx_pages (w % 4096)).addr ≢ 0
    → rx_packet b w rq
      ≡ some (record {
        addr = (rq.rx_pages (w % 4096)).addr;
        len = b;
        slot = w % 4096;
        wqe_counter = w;
      })
unfolding rx_packet
packet_there b w rq here = ground arith

taken_step :
    (nb produced n : ℕ)
    → n < produced
    → (if ltb (suc nb) (produced - n) then suc nb else produced - n)
      ≡ suc (if ltb nb (produced - (n + 1)) then nb else produced - (n + 1))
taken_step nb produced n lt = ground arith

-- If the device has written the completions up to `produced`, at most a ring ahead of `n`, all
-- before `n` are consumed and every one from `n` on is the delivery of a packet, neither an error
-- nor for a slot without a buffer, then a burst of `nb` polls takes min(nb, produced - n) packets
-- in the order in which they came, and the consumer index stands behind them.
pub rx_poll_loop_drains :
    (nb received : ℕ) (views : ℕ → Bytes) (now : ℕ) (rq : Rq) (cq : Cq) (cqes : ℕ → Cqe)
    (produced n : ℕ)
    → ((k : ℕ) → HoldsCqes (views k) cqes produced)
    → ((k : ℕ) → n ≤ k → k < produced → IsDelivery rq (cqes k))
    → n ≤ produced
    → produced ≤ n + 2048
    → cq.cons_index ≡ n % 2 ^ 32
    → ((rx_poll_loop nb received views now rq cq).pkts
        ≡ deliveries rq cqes n (if ltb nb (produced - n) then nb else produced - n))
      × ((rx_poll_loop nb received views now rq cq).cq.cons_index
          ≡ (n + (if ltb nb (produced - n) then nb else produced - n)) % 2 ^ 32)
unfolding rx_poll_loop
rx_poll_loop_drains zero received views now rq cq cqes produced n holds fine le room at =
    elim (Bool-cases (ltb 0 (produced - n))) [
      | inl e ↦ rw e (refl, rw add-zero at)
      | inr e ↦
          let none_left : produced - n ≡ 0 = ground arith in rw (none_left, add-zero) (refl, at)
    ]
rx_poll_loop_drains (suc nb) received views now rq cq cqes produced n holds fine le room at =
    let (seen, moved) = poll_refines (views now) cqes produced n false cq (holds now) le room at in
    elim (Bool-cases (n == produced)) [
      | inl e ↦
          let none_left : produced - n ≡ 0 = ground arith in
          let quiet : (poll_cq_once_mode (views now) false cq).0 ≡ idle = rw e at seen in
          let stay : (poll_cq_once_mode (views now) false cq).1.cons_index ≡ n % 2 ^ 32 =
            rw e at moved in
          let stop : ltb (suc nb) 0 ≡ false = ground arith in
          rw (none_left, quiet, stop, rx_poll_loop, add-zero) (refl, stay)
      | inr e ↦
          let cq' = (poll_cq_once_mode (views now) false cq).1 in
          let here : IsDelivery rq (cqes n) = fine n (ground arith) (ground arith) in
          let seen' : (poll_cq_once_mode (views now) false cq).0
              ≡ got (cqes n).byte_cnt (cqes n).wqe_counter =
            ground (arith, here, seen) in
          let moved' : (cq'.cons_index ≡ (n + 1) % 2 ^ 32) = rw e at moved in
          let rest =
            rx_poll_loop_drains nb (received + 1) views (now + 1) rq cq' cqes produced (n + 1) holds
              (λ k low. fine k (omega (arith, low))) (ground arith) (ground arith) moved' in
          let step = taken_step nb produced n (ground arith) in
          let packet = packet_there (cqes n).byte_cnt (cqes n).wqe_counter rq here.2 in
          rw (seen', rx_poll_loop, step, packet)
            (ap (λ ps. delivery rq (cqes n) ∷ ps) rest.0, rest.1 ∙ omega arith)
    ]
