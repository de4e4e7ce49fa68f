-- ===== src/Life/Cleanup.antt =====
-- `mlx5_test_runtime_cleanup` of src/mlx5.c.
use mlx_nic_driver.Base.{
  ℕ, zero, suc, ◌+◌, Bool, true, not, ◌&&◌, ◌||◌, List, [], ◌∷◌, ◌==◌, if◌then◌else◌,
}
use mlx_nic_driver.Dma.{DmaPage}
use mlx_nic_driver.Cmd.{Firmware}
use mlx_nic_driver.Obj.Ids.{
  destroy_eq, destroy_tis, destroy_mkey, dealloc_transport_domain, dealloc_q_counter, dealloc_pd,
  dealloc_uar,
}
use mlx_nic_driver.Obj.Cqs.{destroy_cq}
use mlx_nic_driver.Obj.Sqs.{destroy_sq}
use mlx_nic_driver.Obj.Rqs.{destroy_rq}
use mlx_nic_driver.Obj.Steer.{
  delete_rx_fte, destroy_rx_flow_group, destroy_rx_flow_table, destroy_tir, destroy_rqt,
}
use mlx_nic_driver.Steps.{Step, sweep}
use mlx_nic_driver.Vfio.{is_some}
use mlx_nic_driver.Life.{ctx_close}
use mlx_nic_driver.Life.Runtime.{
  Runtime, QueueState, number, exec_step, obj_step, when_at, done_step, set_rqt, set_tir, set_ft,
  set_fg, set_fte, set_eq, at_queue,
}

abbrev pub drop_steering : Firmware → List (Step Runtime)
drop_steering fw =
    when_at (λ rt. rt.fte.valid) (obj_step (λ rt. delete_rx_fte fw rt.ft rt.fte) set_fte)
    ∷ when_at (λ rt. rt.fg.valid) (obj_step (λ rt. destroy_rx_flow_group fw rt.ft rt.fg) set_fg)
    ∷ when_at (λ rt. rt.ft.valid) (obj_step (λ rt. destroy_rx_flow_table fw rt.ft) set_ft)
    ∷ when_at (λ rt. rt.tir.valid) (obj_step (λ rt. destroy_tir fw rt.tir) set_tir)
    ∷ when_at (λ rt. rt.rqt.valid) (obj_step (λ rt. destroy_rqt fw rt.rqt) set_rqt)
    ∷ []

abbrev pub has_page : DmaPage → Bool
has_page p = not (p.addr == 0)

unfoldable pub drop_rq : Firmware → Step QueueState
drop_rq fw s =
    let rq = s.queue.rq in
    let (done, res, ctx) = destroy_rq fw rq s.ctx in
    if rq.rq.valid || has_page rq.rq_page || has_page rq.dbr_page || has_page (rq.rq.rx_pages 0)
    then (done, record { queue = record s.queue { rq = res }; ctx = ctx })
    else (true, s)

unfoldable pub drop_sq : Firmware → Step QueueState
drop_sq fw s =
    let sq = s.queue.sq in
    let (done, res, ctx) = destroy_sq fw sq s.ctx in
    if sq.sq.valid || has_page sq.sq_page || has_page sq.dbr_page || has_page sq.tx_page
    then (done, record { queue = record s.queue { sq = res }; ctx = ctx })
    else (true, s)

unfoldable pub drop_rx_cq : Firmware → Step QueueState
drop_rx_cq fw s =
    let cq = s.queue.rx_cq in
    let (done, res, ctx) = destroy_cq fw cq s.ctx in
    if cq.cq.valid || has_page cq.cq_page || has_page cq.dbr_page
    then (done, record { queue = record s.queue { rx_cq = res }; ctx = ctx })
    else (true, s)

unfoldable pub drop_tx_cq : Firmware → Step QueueState
drop_tx_cq fw s =
    let cq = s.queue.tx_cq in
    let (done, res, ctx) = destroy_cq fw cq s.ctx in
    if cq.cq.valid || has_page cq.cq_page || has_page cq.dbr_page
    then (done, record { queue = record s.queue { tx_cq = res }; ctx = ctx })
    else (true, s)

abbrev pub drop_queue : Firmware → Step QueueState
drop_queue fw = sweep (drop_rq fw ∷ drop_sq fw ∷ drop_rx_cq fw ∷ drop_tx_cq fw ∷ [])

-- The loop from queue `q` on, with `left` queues to go.
unfoldable pub drop_queues : Firmware → (left q : ℕ) → Step Runtime
unfolding drop_rq drop_sq drop_rx_cq drop_tx_cq
drop_queues fw zero q rt = (true, rt)
drop_queues fw (suc left) q rt =
    let (done, rt') = at_queue q (drop_queue fw) rt in
    let (rest, rt'') = drop_queues fw left (q + 1) rt' in (done && rest, rt'')

unfoldable pub drop_eq : Firmware → Step Runtime
drop_eq fw =
    when_at (λ rt. rt.eq.valid || has_page rt.eq.page) (obj_step (λ rt. destroy_eq fw rt.eq) set_eq)

abbrev pub drop_numbers : Firmware → List (Step Runtime)
drop_numbers fw =
    when_at (λ rt. is_some rt.tisn) (exec_step (λ rt. destroy_tis fw (number rt.tisn)) done_step)
    ∷ when_at (λ rt. not (rt.mkey == 0)) (exec_step (λ rt. destroy_mkey fw rt.mkey) done_step)
    ∷ when_at (λ rt. is_some rt.tdn)
        (exec_step (λ rt. dealloc_transport_domain fw (number rt.tdn)) done_step)
    ∷ when_at (λ rt. is_some rt.q_counter)
        (exec_step (λ rt. dealloc_q_counter fw (number rt.q_counter)) done_step)
    ∷ when_at (λ rt. not (rt.pd == 0)) (exec_step (λ rt. dealloc_pd fw rt.pd) done_step)
    ∷ when_at (λ rt. not (rt.uar == 0)) (exec_step (λ rt. dealloc_uar fw rt.uar) done_step)
    ∷ []

-- True is a return code of 0 from every call; the caller's code comes first.
unfoldable pub cleanup : Firmware → Step Runtime
unfolding drop_queues drop_eq
cleanup fw rt =
    let (steered, rt1) = sweep (drop_steering fw) rt in
    let (queued, rt2) = drop_queues fw rt1.queue_count 0 rt1 in
    let (evented, rt3) = drop_eq fw rt2 in
    let (numbered, rt4) = sweep (drop_numbers fw) rt3 in
    (steered && queued && evented && numbered, record rt4 { session = ctx_close rt4.session })
