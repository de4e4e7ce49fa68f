-- ===== src/Life/Undo.antt =====
-- About the steps of the cleanup that concern neither the queues nor the event queue.
use mlx_nic_driver.Base.{◌≡◌, refl, Bool, not, ◌==◌, All}
use mlx_nic_driver.Cmd.{Firmware, Ctx}
use mlx_nic_driver.Obj.Ids.{
  destroy_tis, destroy_mkey, dealloc_transport_domain, dealloc_q_counter, dealloc_pd, dealloc_uar,
}
use mlx_nic_driver.Obj.Steer.{
  Res, delete_rx_fte, destroy_rx_flow_group, destroy_rx_flow_table, destroy_tir, destroy_rqt,
}
use mlx_nic_driver.Vfio.{is_some}
use mlx_nic_driver.Life.Runtime.{
  Runtime, number, done_step, exec_step, obj_step, when_at, set_rqt, set_tir, set_ft, set_fg,
  set_fte,
}
use mlx_nic_driver.Life.Cleanup.{drop_steering, drop_numbers}
use mlx_nic_driver.Life.Account.{
  Quiet, Frugal, purse, holdings, exec_step-Quiet, obj_step-Quiet, when_at-Quiet, done_step-Quiet,
}
use mlx_nic_driver.Life.Frugal.{
  destroy_tis-Frugal, destroy_mkey-Frugal, dealloc_transport_domain-Frugal,
  dealloc_q_counter-Frugal, dealloc_pd-Frugal, dealloc_uar-Frugal, delete_rx_fte-Frugal,
  destroy_rx_flow_group-Frugal, destroy_rx_flow_table-Frugal, destroy_tir-Frugal,
  destroy_rqt-Frugal,
}

-- A call that yields a success or a failure, under a test.
when_done :
    (test : Runtime → Bool) (f : Runtime → Ctx → Bool × Ctx)
    → ((rt : Runtime) → Frugal (f rt))
    → Quiet (when_at test (exec_step f done_step))
when_done test f frugal =
    when_at-Quiet test (exec_step f done_step) (exec_step-Quiet f done_step frugal done_step-Quiet)

when_object :
    (test : Runtime → Bool) (f : Runtime → Ctx → Bool × Res × Ctx) (keep : Res → Runtime → Runtime)
    → ((rt : Runtime) (ctx : Ctx) → purse (f rt ctx).2 ≡ purse ctx)
    → ((r : Res) (rt : Runtime) → holdings (keep r rt) ≡ holdings rt)
    → Quiet (when_at test (obj_step f keep))
when_object test f keep frugal quiet =
    when_at-Quiet test (obj_step f keep) (obj_step-Quiet f keep frugal quiet)

module _ (fw : Firmware) where
  pub drop_numbers-Quiet : All Quiet (drop_numbers fw)
  drop_numbers-Quiet =
      let destroy_tis_quiet =
        when_done (λ rt. is_some rt.tisn) (λ rt. destroy_tis fw (number rt.tisn))
          (λ rt. destroy_tis-Frugal fw (number rt.tisn)) in
      let destroy_mkey_quiet =
        when_done (λ rt. not (rt.mkey == 0)) (λ rt. destroy_mkey fw rt.mkey)
          (λ rt. destroy_mkey-Frugal fw rt.mkey) in
      let dealloc_transport_domain_quiet =
        when_done (λ rt. is_some rt.tdn) (λ rt. dealloc_transport_domain fw (number rt.tdn))
          (λ rt. dealloc_transport_domain-Frugal fw (number rt.tdn)) in
      let dealloc_q_counter_quiet =
        when_done (λ rt. is_some rt.q_counter) (λ rt. dealloc_q_counter fw (number rt.q_counter))
          (λ rt. dealloc_q_counter-Frugal fw (number rt.q_counter)) in
      let dealloc_pd_quiet =
        when_done (λ rt. not (rt.pd == 0)) (λ rt. dealloc_pd fw rt.pd)
          (λ rt. dealloc_pd-Frugal fw rt.pd) in
      let dealloc_uar_quiet =
        when_done (λ rt. not (rt.uar == 0)) (λ rt. dealloc_uar fw rt.uar)
          (λ rt. dealloc_uar-Frugal fw rt.uar) in
      (
        destroy_tis_quiet,
        (
          destroy_mkey_quiet,
          (
            dealloc_transport_domain_quiet,
            (dealloc_q_counter_quiet, (dealloc_pd_quiet, (dealloc_uar_quiet, tt))),
          ),
        ),
      )

  pub drop_steering-Quiet : All Quiet (drop_steering fw)
  drop_steering-Quiet =
      let delete_rx_fte_quiet =
        when_object (λ rt. rt.fte.valid) (λ rt. delete_rx_fte fw rt.ft rt.fte) set_fte
          (λ rt. delete_rx_fte-Frugal fw rt.ft rt.fte) (λ r rt. refl) in
      let destroy_rx_flow_group_quiet =
        when_object (λ rt. rt.fg.valid) (λ rt. destroy_rx_flow_group fw rt.ft rt.fg) set_fg
          (λ rt. destroy_rx_flow_group-Frugal fw rt.ft rt.fg) (λ r rt. refl) in
      let destroy_rx_flow_table_quiet =
        when_object (λ rt. rt.ft.valid) (λ rt. destroy_rx_flow_table fw rt.ft) set_ft
          (λ rt. destroy_rx_flow_table-Frugal fw rt.ft) (λ r rt. refl) in
      let destroy_tir_quiet =
        when_object (λ rt. rt.tir.valid) (λ rt. destroy_tir fw rt.tir) set_tir
          (λ rt. destroy_tir-Frugal fw rt.tir) (λ r rt. refl) in
      let destroy_rqt_quiet =
        when_object (λ rt. rt.rqt.valid) (λ rt. destroy_rqt fw rt.rqt) set_rqt
          (λ rt. destroy_rqt-Frugal fw rt.rqt) (λ r rt. refl) in
      (
        delete_rx_fte_quiet,
        (
          destroy_rx_flow_group_quiet,
          (destroy_rx_flow_table_quiet, (destroy_tir_quiet, (destroy_rqt_quiet, tt))),
        ),
      )
