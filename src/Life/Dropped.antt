-- ===== src/Life/Dropped.antt =====
-- About the account over the cleanup of one queue.
use mlx_nic_driver.Base.{ℕ, ◌+◌, ◌≡◌, sym, subst, arith, true, false, ◌||◌, Bool-cases, inl, inr}
use mlx_nic_driver.Dma.{DmaPage, no_page}
use mlx_nic_driver.Cmd.{Firmware, Ctx}
use mlx_nic_driver.Obj.Cqs.{CqRes, destroy_cq}
use mlx_nic_driver.Obj.Sqs.{SqRes, destroy_sq}
use mlx_nic_driver.Obj.Rqs.{RqRes, destroy_rq}
use mlx_nic_driver.Steps.{Moves}
use mlx_nic_driver.Ledger.{Probe, owns}
use mlx_nic_driver.Ledger.Call.{Paid-recount, owns-no_page}
use mlx_nic_driver.Ledger.Objects.{owns_cq, owns_sq, destroy_cq-Paying}
use mlx_nic_driver.Ledger.Queues.{
  owns_rq, owns_slots, owns_slots-no_page, destroy_sq-Paying, destroy_rq-Paying,
}
use mlx_nic_driver.Life.Runtime.{QueueState}
use mlx_nic_driver.Life.Cleanup.{drop_rq, drop_sq, drop_rx_cq, drop_tx_cq, drop_queue, has_page}
use mlx_nic_driver.Life.Account.{owns_queue}
use mlx_nic_driver.Life.Queue.{QueuePaid, Made}

module _ (x : Probe) (b n : ℕ) (fw : Firmware) where
  -- The receive queue is gone; then also the send queue, and so on.
  abbrev RqGone : QueueState → Type 0
  RqGone s = QueuePaid x b n s × (owns_rq x s.queue.rq ≡ 0)

  abbrev SqGone : QueueState → Type 0
  SqGone s = QueuePaid x b n s × (owns_rq x s.queue.rq ≡ 0) × (owns_sq x s.queue.sq ≡ 0)

  abbrev RxGone : QueueState → Type 0
  RxGone s =
      QueuePaid x b n s
      × (owns_rq x s.queue.rq ≡ 0)
      × (owns_sq x s.queue.sq ≡ 0)
      × (owns_cq x s.queue.rx_cq ≡ 0)

  abbrev pub AllGone : QueueState → Type 0
  AllGone s = QueuePaid x b n s × (owns_queue x s.queue ≡ 0)

  no_page_here : (p : DmaPage) → has_page p ≡ false → owns x p ≡ 0
  no_page_here p e = ground arith

  destroy_rq_empty : (res : RqRes) (ctx : Ctx) → owns_rq x (destroy_rq fw res ctx).1 ≡ 0
  unfolding destroy_rq
  destroy_rq_empty res ctx =
      let none_left : owns_slots x (λ s. no_page) ≡ 0 = owns_slots-no_page x in
      elim (Bool-cases res.rq.valid) [
        | inl e ↦ rw e (omega (arith, owns-no_page x, none_left))
        | inr e ↦ rw e (omega (arith, owns-no_page x, none_left))
      ]

  drop_rq-Moves : Moves (Made x b n) RqGone (drop_rq fw)
  unfolding drop_rq
  drop_rq-Moves s (paid, tidy) =
      let rq = s.queue.rq in
      let rest = owns_cq x s.queue.tx_cq + (owns_cq x s.queue.rx_cq + owns_sq x s.queue.sq) + n in
      let (done, res, ctx) = destroy_rq fw rq s.ctx in
      let after =
        destroy_rq-Paying x b rest fw rq s.ctx (Paid-recount x b _ _ s.ctx (omega arith) paid) in
      let gone = destroy_rq_empty rq s.ctx in
      elim (Bool-cases (
        rq.rq.valid
        || has_page rq.rq_page
        || has_page rq.dbr_page
        || has_page (rq.rq.rx_pages 0))) [
          | inl there ↦
              let result : drop_rq fw s
                  ≡ (done, record { queue = record s.queue { rq = res }; ctx = ctx }) =
                ground (arith, there) in
              subst (λ t. RqGone t.1) (sym result)
                (Paid-recount x b _ _ ctx (omega arith) after, gone)
          | inr absent ↦
              let result : drop_rq fw s ≡ (true, s) = ground (arith, absent) in
              subst (λ t. RqGone t.1) (sym result) (paid, tidy (ground (arith, absent)))
        ]

  destroy_sq_empty : (res : SqRes) (ctx : Ctx) → owns_sq x (destroy_sq fw res ctx).1 ≡ 0
  unfolding destroy_sq
  destroy_sq_empty res ctx = elim (Bool-cases res.sq.valid) [
    | inl e ↦ rw e (omega (arith, owns-no_page x))
    | inr e ↦ rw e (omega (arith, owns-no_page x))
  ]

  drop_sq-Moves : Moves RqGone SqGone (drop_sq fw)
  unfolding drop_sq
  drop_sq-Moves s (paid, no_rq_left) =
      let sq = s.queue.sq in
      let rest = owns_cq x s.queue.tx_cq + (owns_cq x s.queue.rx_cq + owns_rq x s.queue.rq) + n in
      let (done, res, ctx) = destroy_sq fw sq s.ctx in
      let after =
        destroy_sq-Paying x b rest fw sq s.ctx (Paid-recount x b _ _ s.ctx (omega arith) paid) in
      let gone = destroy_sq_empty sq s.ctx in
      elim (Bool-cases
        (sq.sq.valid || has_page sq.sq_page || has_page sq.dbr_page || has_page sq.tx_page)) [
          | inl there ↦
              let result : drop_sq fw s
                  ≡ (done, record { queue = record s.queue { sq = res }; ctx = ctx }) =
                ground (arith, there) in
              subst (λ t. SqGone t.1) (sym result)
                (Paid-recount x b _ _ ctx (omega arith) after, no_rq_left, gone)
          | inr absent ↦
              let result : drop_sq fw s ≡ (true, s) = ground (arith, absent) in
              let r = no_page_here sq.sq_page (ground (arith, absent)) in
              let d = no_page_here sq.dbr_page (ground (arith, absent)) in
              let t = no_page_here sq.tx_page (ground (arith, absent)) in
              subst (λ t. SqGone t.1) (sym result) (paid, no_rq_left, omega arith)
        ]

  destroy_cq_empty : (res : CqRes) (ctx : Ctx) → owns_cq x (destroy_cq fw res ctx).1 ≡ 0
  unfolding destroy_cq
  destroy_cq_empty res ctx = elim (Bool-cases res.cq.valid) [
    | inl e ↦ rw e (omega (arith, owns-no_page x))
    | inr e ↦ rw e (omega (arith, owns-no_page x))
  ]

  drop_rx_cq-Moves : Moves SqGone RxGone (drop_rx_cq fw)
  unfolding drop_rx_cq
  drop_rx_cq-Moves s (paid, no_rq_left, no_sq_left) =
      let cq = s.queue.rx_cq in
      let rest = owns_cq x s.queue.tx_cq + (owns_sq x s.queue.sq + owns_rq x s.queue.rq) + n in
      let (done, res, ctx) = destroy_cq fw cq s.ctx in
      let after =
        destroy_cq-Paying x b rest fw cq s.ctx (Paid-recount x b _ _ s.ctx (omega arith) paid) in
      let gone = destroy_cq_empty cq s.ctx in
      elim (Bool-cases (cq.cq.valid || has_page cq.cq_page || has_page cq.dbr_page)) [
        | inl there ↦
            let result : drop_rx_cq fw s
                ≡ (done, record { queue = record s.queue { rx_cq = res }; ctx = ctx }) =
              ground (arith, there) in
            subst (λ t. RxGone t.1) (sym result)
              (Paid-recount x b _ _ ctx (omega arith) after, no_rq_left, no_sq_left, gone)
        | inr absent ↦
            let result : drop_rx_cq fw s ≡ (true, s) = ground (arith, absent) in
            let r = no_page_here cq.cq_page (ground (arith, absent)) in
            let d = no_page_here cq.dbr_page (ground (arith, absent)) in
            subst (λ t. RxGone t.1) (sym result) (paid, no_rq_left, no_sq_left, omega arith)
      ]

  drop_tx_cq-Moves : Moves RxGone AllGone (drop_tx_cq fw)
  unfolding drop_tx_cq
  drop_tx_cq-Moves s (paid, no_rq_left, no_sq_left, no_rx_left) =
      let cq = s.queue.tx_cq in
      let rest = owns_cq x s.queue.rx_cq + (owns_sq x s.queue.sq + owns_rq x s.queue.rq) + n in
      let (done, res, ctx) = destroy_cq fw cq s.ctx in
      let after =
        destroy_cq-Paying x b rest fw cq s.ctx (Paid-recount x b _ _ s.ctx (omega arith) paid) in
      let gone = destroy_cq_empty cq s.ctx in
      elim (Bool-cases (cq.cq.valid || has_page cq.cq_page || has_page cq.dbr_page)) [
        | inl there ↦
            let result : drop_tx_cq fw s
                ≡ (done, record { queue = record s.queue { tx_cq = res }; ctx = ctx }) =
              ground (arith, there) in
            subst (λ t. AllGone t.1) (sym result)
              (Paid-recount x b _ _ ctx (omega arith) after, omega arith)
        | inr absent ↦
            let result : drop_tx_cq fw s ≡ (true, s) = ground (arith, absent) in
            let r = no_page_here cq.cq_page (ground (arith, absent)) in
            let d = no_page_here cq.dbr_page (ground (arith, absent)) in
            subst (λ t. AllGone t.1) (sym result) (paid, omega arith)
      ]

  -- The cleanup of a queue gives back what its making took.
  pub drop_queue-Moves : Moves (Made x b n) AllGone (drop_queue fw)
  drop_queue-Moves s made =
      let s1 = (drop_rq fw s).1 in
      let s2 = (drop_sq fw s1).1 in
      let s3 = (drop_rx_cq fw s2).1 in
      drop_tx_cq-Moves s3 (drop_rx_cq-Moves s2 (drop_sq-Moves s1 (drop_rq-Moves s made)))
