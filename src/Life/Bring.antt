-- ===== src/Life/Bring.antt =====
-- About the steps of a start that concern neither pages nor queues.
use mlx_nic_driver.Base.{ℕ, refl, Bool, ◌||◌, Option, none, some, All}
use mlx_nic_driver.Word.{Bytes}
use mlx_nic_driver.Cmd.{Firmware}
use mlx_nic_driver.Obj.Ids.{
  enable_vport_promisc, alloc_uar, alloc_pd, alloc_transport_domain, alloc_q_counter,
  create_pa_mkey, create_tis,
}
use mlx_nic_driver.Obj.Steer.{
  create_rqt, create_indirect_tir, create_rx_flow_table, set_rx_flow_table_root,
  create_rx_flow_group, set_rx_fte_to_tir,
}
use mlx_nic_driver.Life.Runtime.{
  number, done_step, exec_step, set_rqt, set_tir, set_ft, set_fg, set_fte,
}
use mlx_nic_driver.Life.Start.{
  set_uar, set_pd, set_tdn, set_q_counter, set_mkey, set_tisn, set_cap, numbers, steering,
}
use mlx_nic_driver.Life.Account.{
  Quiet, exec_step-Quiet, obj_step-Quiet, when-Quiet, done_step-Quiet,
}
use mlx_nic_driver.Life.Frugal

set_uar-Quiet : (n : Option ℕ) → Quiet (set_uar n)
set_uar-Quiet none rt = refl
set_uar-Quiet (some n) rt = refl

set_pd-Quiet : (n : Option ℕ) → Quiet (set_pd n)
set_pd-Quiet none rt = refl
set_pd-Quiet (some n) rt = refl

set_tdn-Quiet : (n : Option ℕ) → Quiet (set_tdn n)
set_tdn-Quiet none rt = refl
set_tdn-Quiet (some n) rt = refl

set_q_counter-Quiet : (n : Option ℕ) → Quiet (set_q_counter n)
set_q_counter-Quiet none rt = refl
set_q_counter-Quiet (some n) rt = refl

set_mkey-Quiet : (n : Option ℕ) → Quiet (set_mkey n)
set_mkey-Quiet none rt = refl
set_mkey-Quiet (some n) rt = refl

set_tisn-Quiet : (n : Option ℕ) → Quiet (set_tisn n)
set_tisn-Quiet none rt = refl
set_tisn-Quiet (some n) rt = refl

pub set_cap-Quiet : (cap : Option Bytes) → Quiet (set_cap cap)
set_cap-Quiet none rt = refl
set_cap-Quiet (some cap) rt = refl

module _ (fw : Firmware) where
  pub numbers-Quiet : (want_tx want_rx : Bool) → All Quiet (numbers fw want_tx want_rx)
  numbers-Quiet want_tx want_rx =
      let enable_vport_promisc_quiet =
        when-Quiet want_rx (exec_step (λ rt. enable_vport_promisc fw) done_step) (
          exec_step-Quiet (λ rt. enable_vport_promisc fw) done_step
            (λ rt. Frugal.enable_vport_promisc-Frugal fw) done_step-Quiet) in
      let alloc_uar_quiet =
        exec_step-Quiet (λ rt. alloc_uar fw) set_uar (λ rt. Frugal.alloc_uar-Frugal fw)
          set_uar-Quiet in
      let alloc_pd_quiet =
        exec_step-Quiet (λ rt. alloc_pd fw) set_pd (λ rt. Frugal.alloc_pd-Frugal fw) set_pd-Quiet in
      let alloc_transport_domain_quiet =
        exec_step-Quiet (λ rt. alloc_transport_domain fw) set_tdn
          (λ rt. Frugal.alloc_transport_domain-Frugal fw) set_tdn-Quiet in
      let alloc_q_counter_quiet =
        when-Quiet want_rx (exec_step (λ rt. alloc_q_counter fw) set_q_counter) (
          exec_step-Quiet (λ rt. alloc_q_counter fw) set_q_counter
            (λ rt. Frugal.alloc_q_counter-Frugal fw) set_q_counter-Quiet) in
      let create_pa_mkey_quiet =
        when-Quiet (want_tx || want_rx) (exec_step (λ rt. create_pa_mkey fw rt.pd) set_mkey) (
          exec_step-Quiet (λ rt. create_pa_mkey fw rt.pd) set_mkey
            (λ rt. Frugal.create_pa_mkey-Frugal fw rt.pd) set_mkey-Quiet) in
      let create_tis_quiet =
        when-Quiet want_tx (exec_step (λ rt. create_tis fw (number rt.tdn)) set_tisn) (
          exec_step-Quiet (λ rt. create_tis fw (number rt.tdn)) set_tisn
            (λ rt. Frugal.create_tis-Frugal fw (number rt.tdn)) set_tisn-Quiet) in
      (
        enable_vport_promisc_quiet,
        (
          alloc_uar_quiet,
          (
            alloc_pd_quiet,
            (
              alloc_transport_domain_quiet,
              (alloc_q_counter_quiet, (create_pa_mkey_quiet, (create_tis_quiet, tt))),
            ),
          ),
        ),
      )

  pub steering-Quiet : All Quiet (steering fw)
  steering-Quiet =
      let create_rqt_quiet =
        obj_step-Quiet (λ rt. create_rqt fw (λ q. (rt.queues q).rq.rq) rt.queue_count) set_rqt
          (λ rt. Frugal.create_rqt-Frugal fw (λ q. (rt.queues q).rq.rq) rt.queue_count)
          (λ r rt. refl) in
      let create_indirect_tir_quiet =
        obj_step-Quiet (λ rt. create_indirect_tir fw (number rt.tdn) rt.rqt) set_tir
          (λ rt. Frugal.create_indirect_tir-Frugal fw (number rt.tdn) rt.rqt) (λ r rt. refl) in
      let create_rx_flow_table_quiet =
        obj_step-Quiet (λ rt. create_rx_flow_table fw) set_ft
          (λ rt. Frugal.create_rx_flow_table-Frugal fw) (λ r rt. refl) in
      let set_rx_flow_table_root_quiet =
        exec_step-Quiet (λ rt. set_rx_flow_table_root fw rt.ft) done_step
          (λ rt. Frugal.set_rx_flow_table_root-Frugal fw rt.ft) done_step-Quiet in
      let create_rx_flow_group_quiet =
        obj_step-Quiet (λ rt. create_rx_flow_group fw rt.ft) set_fg
          (λ rt. Frugal.create_rx_flow_group-Frugal fw rt.ft) (λ r rt. refl) in
      let set_rx_fte_to_tir_quiet =
        obj_step-Quiet (λ rt. set_rx_fte_to_tir fw rt.ft rt.fg rt.tir) set_fte
          (λ rt. Frugal.set_rx_fte_to_tir-Frugal fw rt.ft rt.fg rt.tir) (λ r rt. refl) in
      (
        create_rqt_quiet,
        (
          create_indirect_tir_quiet,
          (
            create_rx_flow_table_quiet,
            (
              set_rx_flow_table_root_quiet,
              (create_rx_flow_group_quiet, (set_rx_fte_to_tir_quiet, tt)),
            ),
          ),
        ),
      )
