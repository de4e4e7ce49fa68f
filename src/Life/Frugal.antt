-- ===== src/Life/Frugal.antt =====
-- The calls that take nothing from the allocator and the IOMMU and give nothing back.
use mlx_nic_driver.Base.{ℕ, ◌+◌, ◌≡◌, arith, Bool}
use mlx_nic_driver.Word.{Bytes, put8, put_be16, put_be32}
use mlx_nic_driver.Cmd.{Firmware, Ctx}
use mlx_nic_driver.Rq.{Rq}
use mlx_nic_driver.Sq.{Sq}
use mlx_nic_driver.Obj.{command, command_on}
use mlx_nic_driver.Obj.Setup.{
  enable_hca, set_issi, query_pages, query_pages_for_give, query_dtor, query_paos,
  query_hca_cap_raw, set_hca_cap_raw, set_hca_cap_raw_in,
}
use mlx_nic_driver.Obj.Ids.{
  init_hca, enable_vport_promisc, alloc_uar, alloc_pd, alloc_transport_domain, alloc_q_counter,
  create_pa_mkey, create_tis, destroy_tis, destroy_mkey, dealloc_transport_domain,
  dealloc_q_counter, dealloc_pd, dealloc_uar,
}
use mlx_nic_driver.Obj.Sqs.{modify_sq_ready, modify_sq_ready_in}
use mlx_nic_driver.Obj.Rqs.{modify_rq_ready, modify_rq_ready_in}
use mlx_nic_driver.Obj.Steer.{
  Res, on_table, create_rqt, create_rqt_in, create_indirect_tir, create_indirect_tir_in,
  create_rx_flow_table, set_rx_flow_table_root, create_rx_flow_group, set_rx_fte_to_tir,
  set_rx_fte_in, delete_rx_fte, destroy_rx_flow_group, destroy_rx_flow_table, destroy_tir,
  destroy_rqt,
}
use mlx_nic_driver.Life.Account.{Frugal, purse, cmd_exec-purse}

module _ (fw : Firmware) where
  pub enable_hca-Frugal : Frugal (enable_hca fw)
  unfolding enable_hca
  enable_hca-Frugal ctx = cmd_exec-purse fw _ _ _ ctx

  pub set_issi-Frugal : Frugal (set_issi fw)
  unfolding set_issi
  set_issi-Frugal ctx = cmd_exec-purse fw _ _ _ ctx

  pub query_pages-Frugal : (boot : Bool) → Frugal (query_pages fw boot)
  unfolding query_pages
  query_pages-Frugal boot ctx = cmd_exec-purse fw _ _ _ ctx

  pub query_pages_for_give-Frugal : (boot : Bool) → Frugal (query_pages_for_give fw boot)
  unfolding query_pages_for_give
  query_pages_for_give-Frugal boot ctx = cmd_exec-purse fw _ _ _ ctx

  pub query_dtor-Frugal : Frugal (query_dtor fw)
  unfolding query_dtor
  query_dtor-Frugal ctx = cmd_exec-purse fw _ _ _ ctx

  pub query_paos-Frugal : (port : ℕ) → Frugal (query_paos fw port)
  unfolding query_paos
  query_paos-Frugal port ctx = cmd_exec-purse fw _ _ _ ctx

  pub init_hca-Frugal : Frugal (init_hca fw)
  unfolding init_hca
  init_hca-Frugal ctx = cmd_exec-purse fw _ _ _ ctx

  pub enable_vport_promisc-Frugal : Frugal (enable_vport_promisc fw)
  unfolding enable_vport_promisc
  enable_vport_promisc-Frugal ctx = cmd_exec-purse fw _ _ _ ctx

  pub alloc_uar-Frugal : Frugal (alloc_uar fw)
  unfolding alloc_uar
  alloc_uar-Frugal ctx = cmd_exec-purse fw _ _ _ ctx

  pub alloc_pd-Frugal : Frugal (alloc_pd fw)
  unfolding alloc_pd
  alloc_pd-Frugal ctx = cmd_exec-purse fw _ _ _ ctx

  pub alloc_transport_domain-Frugal : Frugal (alloc_transport_domain fw)
  unfolding alloc_transport_domain
  alloc_transport_domain-Frugal ctx = cmd_exec-purse fw _ _ _ ctx

  pub alloc_q_counter-Frugal : Frugal (alloc_q_counter fw)
  unfolding alloc_q_counter
  alloc_q_counter-Frugal ctx = cmd_exec-purse fw _ _ _ ctx

  pub create_pa_mkey-Frugal : (pd : ℕ) → Frugal (create_pa_mkey fw pd)
  unfolding create_pa_mkey
  create_pa_mkey-Frugal pd ctx = cmd_exec-purse fw _ _ _ ctx

  pub create_tis-Frugal : (tdn : ℕ) → Frugal (create_tis fw tdn)
  unfolding create_tis
  create_tis-Frugal tdn ctx = cmd_exec-purse fw _ _ _ ctx

  pub destroy_tis-Frugal : (tisn : ℕ) → Frugal (destroy_tis fw tisn)
  unfolding destroy_tis
  destroy_tis-Frugal tisn ctx = cmd_exec-purse fw _ _ _ ctx

  pub destroy_mkey-Frugal : (mkey : ℕ) → Frugal (destroy_mkey fw mkey)
  unfolding destroy_mkey
  destroy_mkey-Frugal mkey ctx = cmd_exec-purse fw _ _ _ ctx

  pub dealloc_transport_domain-Frugal : (tdn : ℕ) → Frugal (dealloc_transport_domain fw tdn)
  unfolding dealloc_transport_domain
  dealloc_transport_domain-Frugal tdn ctx = cmd_exec-purse fw _ _ _ ctx

  pub dealloc_q_counter-Frugal : (id : ℕ) → Frugal (dealloc_q_counter fw id)
  unfolding dealloc_q_counter
  dealloc_q_counter-Frugal id ctx = cmd_exec-purse fw _ _ _ ctx

  pub dealloc_pd-Frugal : (pd : ℕ) → Frugal (dealloc_pd fw pd)
  unfolding dealloc_pd
  dealloc_pd-Frugal pd ctx = cmd_exec-purse fw _ _ _ ctx

  pub dealloc_uar-Frugal : (uar : ℕ) → Frugal (dealloc_uar fw uar)
  unfolding dealloc_uar
  dealloc_uar-Frugal uar ctx = cmd_exec-purse fw _ _ _ ctx

  pub query_hca_cap_raw-Frugal : (opmod len : ℕ) → Frugal (query_hca_cap_raw fw opmod len)
  unfolding query_hca_cap_raw
  query_hca_cap_raw-Frugal opmod len ctx =
      let same = cmd_exec-purse fw (put_be16 0x06 opmod (command 0x100)) 16 4112 ctx in
      ground (arith, same)

  pub set_hca_cap_raw-Frugal :
      (type : ℕ) (cap : Bytes) (len : ℕ) → Frugal (set_hca_cap_raw fw type cap len)
  unfolding set_hca_cap_raw
  set_hca_cap_raw-Frugal type cap len ctx =
      let same = cmd_exec-purse fw (set_hca_cap_raw_in type cap len) (0x10 + len) 16 ctx in
      ground (arith, same)

  pub modify_sq_ready-Frugal : (sq : Sq) → Frugal (modify_sq_ready fw sq)
  unfolding modify_sq_ready
  modify_sq_ready-Frugal sq ctx =
      let same = cmd_exec-purse fw (modify_sq_ready_in sq.sqn) 0x220 16 ctx in ground (arith, same)

  pub modify_rq_ready-Frugal : (rq : Rq) → Frugal (modify_rq_ready fw rq)
  unfolding modify_rq_ready
  modify_rq_ready-Frugal rq ctx =
      let same = cmd_exec-purse fw (modify_rq_ready_in rq.rqn) 0x220 16 ctx in ground (arith, same)

  pub set_rx_flow_table_root-Frugal : (ft : Res) → Frugal (set_rx_flow_table_root fw ft)
  unfolding set_rx_flow_table_root
  set_rx_flow_table_root-Frugal ft ctx =
      let same = cmd_exec-purse fw (on_table 0x92f ft.id) 0x80 0x80 ctx in ground (arith, same)

  pub create_rqt-Frugal :
      (rqs : ℕ → Rq) (count : ℕ) (ctx : Ctx) → purse (create_rqt fw rqs count ctx).2 ≡ purse ctx
  unfolding create_rqt
  create_rqt-Frugal rqs count ctx =
      let same = cmd_exec-purse fw (create_rqt_in count rqs) 336 16 ctx in ground (arith, same)

  pub create_indirect_tir-Frugal :
      (tdn : ℕ) (rqt : Res) (ctx : Ctx) → purse (create_indirect_tir fw tdn rqt ctx).2 ≡ purse ctx
  unfolding create_indirect_tir
  create_indirect_tir-Frugal tdn rqt ctx =
      let same = cmd_exec-purse fw (create_indirect_tir_in tdn rqt.id) 0x110 16 ctx in
      ground (arith, same)

  pub create_rx_flow_table-Frugal : (ctx : Ctx) → purse (create_rx_flow_table fw ctx).2 ≡ purse ctx
  unfolding create_rx_flow_table
  create_rx_flow_table-Frugal ctx =
      let same =
        cmd_exec-purse fw (put8 0x1b 0 (put8 0x19 0 (put8 0x10 0 (command 0x930)))) 0x40 16 ctx in
      ground (arith, same)

  pub create_rx_flow_group-Frugal :
      (ft : Res) (ctx : Ctx) → purse (create_rx_flow_group fw ft ctx).2 ≡ purse ctx
  unfolding create_rx_flow_group
  create_rx_flow_group-Frugal ft ctx =
      let same =
        cmd_exec-purse fw (put8 0x3f 0 (put_be32 0x20 0 (put_be32 0x18 0 (on_table 0x933 ft.id))))
          0x2000 16 ctx in
      ground (arith, same)

  pub set_rx_fte_to_tir-Frugal :
      (ft fg tir : Res) (ctx : Ctx) → purse (set_rx_fte_to_tir fw ft fg tir ctx).2 ≡ purse ctx
  unfolding set_rx_fte_to_tir
  set_rx_fte_to_tir-Frugal ft fg tir ctx =
      let same = cmd_exec-purse fw (set_rx_fte_in ft.id fg.id tir.id) 0x348 16 ctx in
      ground (arith, same)

  pub delete_rx_fte-Frugal :
      (ft fte : Res) (ctx : Ctx) → purse (delete_rx_fte fw ft fte ctx).2 ≡ purse ctx
  unfolding delete_rx_fte
  delete_rx_fte-Frugal ft fte ctx =
      let same = cmd_exec-purse fw (put_be32 0x20 fte.id (on_table 0x938 ft.id)) 0x40 16 ctx in
      ground (arith, same)

  pub destroy_rx_flow_group-Frugal :
      (ft fg : Res) (ctx : Ctx) → purse (destroy_rx_flow_group fw ft fg ctx).2 ≡ purse ctx
  unfolding destroy_rx_flow_group
  destroy_rx_flow_group-Frugal ft fg ctx =
      let same = cmd_exec-purse fw (put_be32 0x18 fg.id (on_table 0x934 ft.id)) 0x200 16 ctx in
      ground (arith, same)

  pub destroy_rx_flow_table-Frugal :
      (ft : Res) (ctx : Ctx) → purse (destroy_rx_flow_table fw ft ctx).2 ≡ purse ctx
  unfolding destroy_rx_flow_table
  destroy_rx_flow_table-Frugal ft ctx =
      let same = cmd_exec-purse fw (on_table 0x931 ft.id) 32 16 ctx in ground (arith, same)

  pub destroy_tir-Frugal : (tir : Res) (ctx : Ctx) → purse (destroy_tir fw tir ctx).2 ≡ purse ctx
  unfolding destroy_tir
  destroy_tir-Frugal tir ctx =
      let same = cmd_exec-purse fw (command_on 0x902 tir.id) 16 16 ctx in ground (arith, same)

  pub destroy_rqt-Frugal : (rqt : Res) (ctx : Ctx) → purse (destroy_rqt fw rqt ctx).2 ≡ purse ctx
  unfolding destroy_rqt
  destroy_rqt-Frugal rqt ctx =
      let same = cmd_exec-purse fw (command_on 0x918 rqt.id) 16 16 ctx in ground (arith, same)
