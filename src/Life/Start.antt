-- ===== src/Life/Start.antt =====
-- The calls of `mlxnicd_dev_start` of src/mlx5.c after the context is open.
use mlx_nic_driver.Base.{
  ℕ, zero, suc, ◌+◌, Bool, true, false, ◌||◌, Option, none, some, List, [], ◌∷◌,
}
use mlx_nic_driver.Word.{Bytes}
use mlx_nic_driver.Cmd.{Firmware}
use mlx_nic_driver.Rq.{post_buffers}
use mlx_nic_driver.Obj.Setup.{
  enable_hca, set_issi, query_pages, query_pages_for_give, query_dtor, query_paos,
  query_hca_cap_raw, set_hca_cap_raw, hca_cap_size,
}
use mlx_nic_driver.Obj.Ids.{
  Eq, init_hca, enable_vport_promisc, alloc_uar, alloc_pd, alloc_transport_domain, alloc_q_counter,
  create_pa_mkey, create_tis, create_eq,
}
use mlx_nic_driver.Obj.Cqs.{create_cq}
use mlx_nic_driver.Obj.Sqs.{create_sq, modify_sq_ready}
use mlx_nic_driver.Obj.Rqs.{create_rq, modify_rq_ready}
use mlx_nic_driver.Obj.Steer.{
  create_rqt, create_indirect_tir, create_rx_flow_table, set_rx_flow_table_root,
  create_rx_flow_group, set_rx_fte_to_tir,
}
use mlx_nic_driver.Pages.{give_pages}
use mlx_nic_driver.Layout.{tx_cq_iova, rx_cq_iova}
use mlx_nic_driver.Steps.{Step, ◌then◌, run, when}
use mlx_nic_driver.Life.Runtime.{
  Runtime, QueueState, number, exec_step, obj_step, done_step, set_rqt, set_tir, set_ft, set_fg,
  set_fte, set_eq, at_queue,
}

abbrev pub set_uar : Option ℕ → Step Runtime
set_uar none rt = (false, rt)
set_uar (some n) rt = (true, record rt { uar = n })

abbrev pub set_pd : Option ℕ → Step Runtime
set_pd none rt = (false, rt)
set_pd (some n) rt = (true, record rt { pd = n })

abbrev pub set_tdn : Option ℕ → Step Runtime
set_tdn none rt = (false, rt)
set_tdn (some n) rt = (true, record rt { tdn = some n })

abbrev pub set_q_counter : Option ℕ → Step Runtime
set_q_counter none rt = (false, rt)
set_q_counter (some n) rt = (true, record rt { q_counter = some n })

abbrev pub set_mkey : Option ℕ → Step Runtime
set_mkey none rt = (false, rt)
set_mkey (some n) rt = (true, record rt { mkey = n })

abbrev pub set_tisn : Option ℕ → Step Runtime
set_tisn none rt = (false, rt)
set_tisn (some n) rt = (true, record rt { tisn = some n })

abbrev pub set_cap : Option Bytes → Step Runtime
set_cap none rt = (false, rt)
set_cap (some cap) rt = (true, record rt { hca_cap = cap })

-- The firmware gets the pages that it asked for.
abbrev pub give_asked : Firmware → Option (ℕ × ℕ) → Step Runtime
give_asked fw none rt = (false, rt)
give_asked fw (some (function_id, num_pages)) rt =
    exec_step (λ r. give_pages fw function_id num_pages) done_step rt

-- One phase of pages: the query that prints, and the one whose answer is followed.
abbrev pub page_phase : Firmware → (boot : Bool) → List (Step Runtime)
page_phase fw boot =
    exec_step (λ rt. query_pages fw boot) done_step
    ∷ exec_step (λ rt. query_pages_for_give fw boot) (give_asked fw)
    ∷ []

abbrev pub boot : Firmware → List (Step Runtime)
boot fw =
    exec_step (λ rt. enable_hca fw) done_step
    ∷ exec_step (λ rt. set_issi fw) done_step
    ∷ run (page_phase fw true)
    ∷ exec_step (λ rt. query_dtor fw) done_step
    ∷ exec_step (λ rt. query_hca_cap_raw fw 1 hca_cap_size) set_cap
    ∷ exec_step (λ rt. set_hca_cap_raw fw 0 rt.hca_cap hca_cap_size) done_step
    ∷ run (page_phase fw false)
    ∷ exec_step (λ rt. init_hca fw) done_step
    ∷ exec_step (λ rt. query_paos fw 1) done_step
    ∷ []

abbrev pub numbers : Firmware → (want_tx want_rx : Bool) → List (Step Runtime)
numbers fw want_tx want_rx =
    when want_rx (exec_step (λ rt. enable_vport_promisc fw) done_step)
    ∷ exec_step (λ rt. alloc_uar fw) set_uar
    ∷ exec_step (λ rt. alloc_pd fw) set_pd
    ∷ exec_step (λ rt. alloc_transport_domain fw) set_tdn
    ∷ when want_rx (exec_step (λ rt. alloc_q_counter fw) set_q_counter)
    ∷ when (want_tx || want_rx) (exec_step (λ rt. create_pa_mkey fw rt.pd) set_mkey)
    ∷ when want_tx (exec_step (λ rt. create_tis fw (number rt.tdn)) set_tisn)
    ∷ []

unfoldable pub make_eq : Firmware → Step Runtime
make_eq fw = obj_step (λ rt. create_eq fw rt.uar) set_eq

-- What the queues are made of.
pub record Parts : Type 0 where
  pub uar : ℕ
  pub pd : ℕ
  pub tisn : ℕ
  pub q_counter : ℕ
  pub mkey : ℕ
  pub eq : Eq

abbrev pub parts : Runtime → Parts
parts rt = record {
  uar = rt.uar;
  pd = rt.pd;
  tisn = number rt.tisn;
  q_counter = number rt.q_counter;
  mkey = rt.mkey;
  eq = rt.eq;
}

unfoldable pub make_tx_cq : Firmware → Parts → (q : ℕ) → Step QueueState
make_tx_cq fw p q s =
    let (done, res, ctx) =
      create_cq fw p.uar p.eq (tx_cq_iova q) (tx_cq_iova q + 0x00040000) s.ctx in
    (done, record { queue = record s.queue { tx_cq = res }; ctx = ctx })

unfoldable pub make_sq : Firmware → Parts → (q : ℕ) → Step QueueState
make_sq fw p q s =
    let (done, res, ctx) = create_sq fw p.uar p.pd p.tisn s.queue.tx_cq.cq q s.ctx in
    (done, record { queue = record s.queue { sq = res }; ctx = ctx })

unfoldable pub ready_sq : Firmware → Step QueueState
ready_sq fw s =
    let (done, ctx) = modify_sq_ready fw s.queue.sq.sq s.ctx in (done, record s { ctx = ctx })

unfoldable pub make_rx_cq : Firmware → Parts → (q : ℕ) → Step QueueState
make_rx_cq fw p q s =
    let (done, res, ctx) =
      create_cq fw p.uar p.eq (rx_cq_iova q) (rx_cq_iova q + 0x00040000) s.ctx in
    (done, record { queue = record s.queue { rx_cq = res }; ctx = ctx })

unfoldable pub make_rq : Firmware → Parts → (q : ℕ) → Step QueueState
make_rq fw p q s =
    let (done, res, ctx) = create_rq fw p.pd p.q_counter s.queue.rx_cq.cq q s.ctx in
    (done, record { queue = record s.queue { rq = res }; ctx = ctx })

unfoldable pub ready_rq : Firmware → Step QueueState
ready_rq fw s =
    let (done, ctx) = modify_rq_ready fw s.queue.rq.rq s.ctx in (done, record s { ctx = ctx })

unfoldable pub post_rq : Parts → (count : ℕ) → Step QueueState
post_rq p count s =
    let (done, rq, host) = post_buffers p.mkey count s.queue.rq.rq s.ctx.host in
    (
      done,
      record {
        queue = record s.queue { rq = record s.queue.rq { rq = rq } };
        ctx = record s.ctx { host = host };
      },
    )

abbrev pub make_tx : Firmware → Parts → (q : ℕ) → Step QueueState
make_tx fw p q = make_tx_cq fw p q then make_sq fw p q then ready_sq fw

abbrev pub make_rx : Firmware → Parts → (count q : ℕ) → Step QueueState
make_rx fw p count q = make_rx_cq fw p q then make_rq fw p q then ready_rq fw then post_rq p count

abbrev pub make_queue :
    Firmware → (want_tx want_rx : Bool) → (count : ℕ) → Parts → (q : ℕ) → Step QueueState
make_queue fw want_tx want_rx count p q =
    when want_tx (make_tx fw p q) then when want_rx (make_rx fw p count q)

-- The loop from queue `q` on, with `left` queues to go.
unfoldable pub make_queues : Firmware → (want_tx want_rx : Bool) → (count left q : ℕ) → Step Runtime
unfolding make_tx_cq make_sq ready_sq make_rx_cq make_rq ready_rq post_rq
make_queues fw want_tx want_rx count zero q rt = (true, rt)
make_queues fw want_tx want_rx count (suc left) q rt =
    let (done, rt') = at_queue q (make_queue fw want_tx want_rx count (parts rt) q) rt in
    elim done [
      | true ↦ make_queues fw want_tx want_rx count left (q + 1) rt'
      | false ↦ (false, rt')
    ]

abbrev pub steering : Firmware → List (Step Runtime)
steering fw =
    obj_step (λ rt. create_rqt fw (λ q. (rt.queues q).rq.rq) rt.queue_count) set_rqt
    ∷ obj_step (λ rt. create_indirect_tir fw (number rt.tdn) rt.rqt) set_tir
    ∷ obj_step (λ rt. create_rx_flow_table fw) set_ft
    ∷ exec_step (λ rt. set_rx_flow_table_root fw rt.ft) done_step
    ∷ obj_step (λ rt. create_rx_flow_group fw rt.ft) set_fg
    ∷ obj_step (λ rt. set_rx_fte_to_tir fw rt.ft rt.fg rt.tir) set_fte
    ∷ []

abbrev pub queues_of : Firmware → (want_tx want_rx : Bool) → (count : ℕ) → Step Runtime
queues_of fw want_tx want_rx count rt = make_queues fw want_tx want_rx count rt.queue_count 0 rt

unfoldable pub bring_up : Firmware → (want_tx want_rx : Bool) → (count : ℕ) → Step Runtime
unfolding make_eq make_queues
bring_up fw want_tx want_rx count =
    run (boot fw)
    then run (numbers fw want_tx want_rx)
    then make_eq fw
    then queues_of fw want_tx want_rx count
    then when want_rx (run (steering fw))
