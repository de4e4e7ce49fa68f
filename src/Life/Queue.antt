-- ===== src/Life/Queue.antt =====
-- About the account over the objects of one queue: as `mlxnicd_dev_start` makes them, and as the
-- cleanup takes them down.
use mlx_nic_driver.Base.{ℕ, ◌+◌, ◌≡◌, sym, subst, ap, arith, Bool, false, ◌∙◌}
use mlx_nic_driver.Cmd.{Firmware, Ctx}
use mlx_nic_driver.Cq.{Cq}
use mlx_nic_driver.Obj.Rqs.{create_rq, no_rq}
use mlx_nic_driver.Layout.{tx_cq_iova, rx_cq_iova}
use mlx_nic_driver.Steps.{Moves, then-Moves, when-Moves, when}
use mlx_nic_driver.Ledger.{Probe, owns, Ledger, recount}
use mlx_nic_driver.Ledger.Call.{owns_list, Paid, Paid-recount, owns-no_page}
use mlx_nic_driver.Ledger.Objects.{owns_cq, owns_sq, create_cq-Paying}
use mlx_nic_driver.Ledger.Queues.{
  owns_rq, owns_slots, owns_slots-no_page, create_sq-Paying, create_rq-Paying,
}
use mlx_nic_driver.Ledger.Posts.{post_buffers-Stocked, post_buffers_valid}
use mlx_nic_driver.Life.Runtime.{QueueRes, QueueState}
use mlx_nic_driver.Life.Start.{
  Parts, make_tx_cq, make_sq, ready_sq, make_rx_cq, make_rq, ready_rq, post_rq, make_tx, make_rx,
  make_queue,
}
use mlx_nic_driver.Life.Account.{owns_queue, purse}
use mlx_nic_driver.Life.Frugal.{modify_sq_ready-Frugal, modify_rq_ready-Frugal}

-- A receive queue that is not valid has no pages, so that the cleanup may pass it over.
abbrev pub IsTidy : Probe → QueueRes → Type 0
IsTidy x q = q.rq.rq.valid ≡ false → owns_rq x q.rq ≡ 0

module _ (x : Probe) (b n : ℕ) where
  abbrev pub QueuePaid : QueueState → Type 0
  QueuePaid s = Paid x b (owns_queue x s.queue + n) s.ctx

  -- Nothing is made yet; then the completion queue, the send queue, and so on may be there.
  abbrev pub Blank : QueueState → Type 0
  Blank s =
      QueuePaid s
      × (owns_cq x s.queue.tx_cq ≡ 0)
      × (owns_sq x s.queue.sq ≡ 0)
      × (owns_cq x s.queue.rx_cq ≡ 0)
      × (owns_rq x s.queue.rq ≡ 0)

  abbrev NoSq : QueueState → Type 0
  NoSq s =
      QueuePaid s
      × (owns_sq x s.queue.sq ≡ 0)
      × (owns_cq x s.queue.rx_cq ≡ 0)
      × (owns_rq x s.queue.rq ≡ 0)

  abbrev NoRx : QueueState → Type 0
  NoRx s = QueuePaid s × (owns_cq x s.queue.rx_cq ≡ 0) × (owns_rq x s.queue.rq ≡ 0)

  abbrev NoRq : QueueState → Type 0
  NoRq s = QueuePaid s × (owns_rq x s.queue.rq ≡ 0)

  abbrev pub Made : QueueState → Type 0
  Made s = QueuePaid s × IsTidy x s.queue

  module _ (fw : Firmware) (p : Parts) (q : ℕ) where
    make_tx_cq-Moves : Moves Blank NoSq (make_tx_cq fw p q)
    unfolding make_tx_cq
    make_tx_cq-Moves s (paid, tx, sq, rx, rq) =
        let made =
          create_cq-Paying x b (owns_queue x s.queue + n) fw p.uar p.eq (tx_cq_iova q)
            (tx_cq_iova q + 0x00040000) s.ctx paid in
        (Paid-recount x b _ _ (make_tx_cq fw p q s).1.ctx (omega arith) made, sq, rx, rq)

    make_sq-Moves : Moves NoSq NoRx (make_sq fw p q)
    unfolding make_sq
    make_sq-Moves s (paid, sq, rx, rq) =
        let made =
          create_sq-Paying x b (owns_queue x s.queue + n) fw p.uar p.pd p.tisn s.queue.tx_cq.cq q
            s.ctx paid in
        (Paid-recount x b _ _ (make_sq fw p q s).1.ctx (omega arith) made, rx, rq)

    same_purse : (m : ℕ) (c c' : Ctx) → purse c' ≡ purse c → Paid x b m c → Paid x b m c'
    same_purse m c c' e paid = subst (λ t. Ledger x b (owns_list x t.1 + m) t.0) (sym e) paid

    ready_sq-Moves : Moves NoRx NoRx (ready_sq fw)
    unfolding ready_sq
    ready_sq-Moves s (paid, rx, rq) = (
      same_purse _ s.ctx (ready_sq fw s).1.ctx (modify_sq_ready-Frugal fw s.queue.sq.sq s.ctx) paid,
      rx,
      rq,
    )

    make_rx_cq-Moves : Moves NoRx NoRq (make_rx_cq fw p q)
    unfolding make_rx_cq
    make_rx_cq-Moves s (paid, rx, rq) =
        let made =
          create_cq-Paying x b (owns_queue x s.queue + n) fw p.uar p.eq (rx_cq_iova q)
            (rx_cq_iova q + 0x00040000) s.ctx paid in
        (Paid-recount x b _ _ (make_rx_cq fw p q s).1.ctx (omega arith) made, rq)

    create_rq_invalid :
        (cq : Cq) (ctx : Ctx)
        → (create_rq fw p.pd p.q_counter cq q ctx).1.rq.valid ≡ false
        → (create_rq fw p.pd p.q_counter cq q ctx).1 ≡ no_rq q
    unfolding create_rq
    create_rq_invalid cq ctx e = ground arith

    no_rq-owns_rq : owns_rq x (no_rq q) ≡ 0
    no_rq-owns_rq = omega (arith, owns-no_page x, owns_slots-no_page x)

    make_rq-Moves : Moves NoRq Made (make_rq fw p q)
    unfolding make_rq
    make_rq-Moves s (paid, rq) =
        let made =
          create_rq-Paying x b (owns_queue x s.queue + n) fw p.pd p.q_counter s.queue.rx_cq.cq q
            s.ctx paid in
        (
          Paid-recount x b _ _ (make_rq fw p q s).1.ctx (omega arith) made,
          λ invalid.
              ap (owns_rq x) (create_rq_invalid s.queue.rx_cq.cq s.ctx invalid) ∙ no_rq-owns_rq,
        )

    ready_rq-Moves : Moves Made Made (ready_rq fw)
    unfolding ready_rq
    ready_rq-Moves s (paid, tidy) = (
      same_purse _ s.ctx (ready_rq fw s).1.ctx (modify_rq_ready-Frugal fw s.queue.rq.rq s.ctx) paid,
      tidy,
    )

    post_rq-Moves : (count : ℕ) → Moves Made Made (post_rq p count)
    unfolding post_rq
    post_rq-Moves count s (paid, tidy) =
        let rq = s.queue.rq in
        let others =
          owns_cq x s.queue.tx_cq
          + (owns_cq x s.queue.rx_cq
              + (owns_sq x s.queue.sq + (owns x rq.rq_page + owns x rq.dbr_page))) in
        let rest = owns_list x s.ctx.fw_pages + (others + n) in
        let posted =
          post_buffers-Stocked x b rest p.mkey count rq.rq s.ctx.host
            (recount x b _ (owns_slots x rq.rq.rx_pages + rest) s.ctx.host (omega arith) paid) in
        let (same, unchanged) = post_buffers_valid p.mkey count rq.rq s.ctx.host in
        (
          recount x b _ _ (post_rq p count s).1.ctx.host (omega arith) posted,
          λ invalid.
              let was : rq.rq.valid ≡ false = sym same ∙ invalid in
              ap (λ r. owns_rq x (record rq { rq = r })) (unchanged was) ∙ tidy was,
        )

    make_tx-Moves : Moves Blank NoRx (make_tx fw p q)
    make_tx-Moves =
        then-Moves Blank NoSq NoRx (make_tx_cq fw p q) _ make_tx_cq-Moves
          (then-Moves NoSq NoRx NoRx (make_sq fw p q) (ready_sq fw) make_sq-Moves ready_sq-Moves
            (λ s h. h))
          (λ s (paid, sq, rx, rq). (paid, rx, rq))

    none_yet : (s : QueueState) → NoRq s → Made s
    none_yet s (paid, rq) = (paid, λ invalid. rq)

    make_rx-Moves : (count : ℕ) → Moves NoRx Made (make_rx fw p count q)
    make_rx-Moves count =
        then-Moves NoRx NoRq Made (make_rx_cq fw p q) _ make_rx_cq-Moves
          (then-Moves NoRq Made Made (make_rq fw p q) _ make_rq-Moves
            (then-Moves Made Made Made (ready_rq fw) (post_rq p count) ready_rq-Moves
              (post_rq-Moves count) (λ s h. h))
            (λ s h. h))
          none_yet

    -- However far the making of a queue comes, what it took is there to be given back.
    pub make_queue-Moves :
        (want_tx want_rx : Bool) (count : ℕ)
        → Moves Blank Made (make_queue fw want_tx want_rx count p q)
    make_queue-Moves want_tx want_rx count =
        then-Moves Blank NoRx Made (when want_tx (make_tx fw p q))
          (when want_rx (make_rx fw p count q))
          (when-Moves Blank NoRx want_tx (make_tx fw p q) make_tx-Moves
            (λ s (paid, tx, sq, rx, rq). (paid, rx, rq)))
          (when-Moves NoRx Made want_rx (make_rx fw p count q) (make_rx-Moves count)
            (λ s h. none_yet s (h.0, h.2)))
          (λ s h. none_yet s (h.0, h.2))
