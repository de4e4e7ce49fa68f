-- ===== src/Life/Opening.antt =====
-- About the account over `mlx5_cmd_ctx_open`, stage by stage.
use mlx_nic_driver.Base.{
  ℕ, ◌+◌, ◌≡◌, ◌≢◌, refl, sym, subst, arith, Bool, true, false, Option, none, some, [], ◌∷◌, ◌∙◌,
  Bool-cases, inl, inr, ◌==◌, if◌then◌else◌,
}
use mlx_nic_driver.Dma.{DmaPage, Host, alloc_aligned_zero, vfio_dma_map}
use mlx_nic_driver.Vfio.{Process, Kernel, vfio_device_open, vfio_device_close}
use mlx_nic_driver.Vfio.Balance.{vfio_device_open_balance}
use mlx_nic_driver.Steps.{◌then◌, run, Outcome, Leads, then-Leads, run-Leads}
use mlx_nic_driver.Ledger.{Probe, mapping, memory, Ledger, recount}
use mlx_nic_driver.Ledger.Call.{Paid}
use mlx_nic_driver.Life.Account.{owns_buffers}
use mlx_nic_driver.Life.{
  Regs, Session, cleared, with_host, with_regs, check_cmdif, await_ready, wait_fw_ready, alloc_into,
  map_at, take_over, set_cmdq, set_inbox, set_outbox, alloc_all, map_all, open_steps, cmdq_page,
  inbox_page, outbox_page, ctx_close, ctx_open, close_failed, cmdq_iova, cmdq_size, inbox_iova,
  outbox_iova,
}
use mlx_nic_driver.Mbox.{mbox_size}
use mlx_nic_driver.Word.{shr}
use mlx_nic_driver.Life.Opened.{
  GrantedBlock, GrantedMap, alloc_aligned_zero-GrantedBlock, vfio_dma_map-GrantedMap,
  ctx_close-Ledger,
}
use mlx_nic_driver.Life.Stages.{
  Bare, HasCmdq, HasInbox, blocks, HasAll, one_map, two_maps, three_maps, Open, Bare-Open,
  HasCmdq-Open, HasInbox-Open, three_maps-Open, two_maps-Open, one_map-Open, HasAll-Open,
}

module _ (x : Probe) (b : ℕ) (p0 : Process) where
  -- One allocation into a field.
  alloc_step :
      (P Q : Session → Type 0) (n : Session → ℕ) (set : ℕ → Session → Session)
      → ((s : Session) → P s → Ledger x b (n s) s.ctx.host)
      → ((s : Session) (h : Host) → P s → Ledger x b (n s) h → P (with_host h s))
      → ((s : Session) (a : ℕ) (h : Host)
          → P s
          → a ≢ 0
          → Ledger x b (memory x a + n s) h
          → Q (set a (with_host h s)))
      → ((s : Session) → P s → Open x b p0 s)
      → Leads P Q (Open x b p0) (alloc_into set)
  unfolding alloc_into
  alloc_step P Q n set account failed got to_open s p =
      go (alloc_aligned_zero s.ctx.host) refl
        (alloc_aligned_zero-GrantedBlock x b (n s) s.ctx.host (account s p))
    where
      go :
          (t : Option ℕ × Host)
          → alloc_aligned_zero s.ctx.host ≡ t
          → GrantedBlock x b (n s) t
          → Outcome Q (Open x b p0) (alloc_into set s)
      go (none, h) e l =
          let result : alloc_into set s ≡ (false, with_host h s) = ground (arith, e) in
          subst (Outcome Q (Open x b p0)) (sym result) (to_open (with_host h s) (failed s h p l))
      go (some a, h) e (ne, l) =
          let result : alloc_into set s ≡ (true, set a (with_host h s)) = ground (arith, e) in
          subst (Outcome Q (Open x b p0)) (sym result) (got s a h p ne l)

  alloc_all-Leads : Leads (Bare x b p0) (HasAll x b p0 (λ s. 0)) (Open x b p0) (run alloc_all)
  alloc_all-Leads =
      run-Leads (Bare x b p0) (HasCmdq x b p0) (HasAll x b p0 (λ s. 0)) (Open x b p0)
        (alloc_into set_cmdq) (alloc_into set_inbox ∷ alloc_into set_outbox ∷ [])
        (alloc_step (Bare x b p0) (HasCmdq x b p0) (λ s. 0) set_cmdq (λ s p. p.0)
          (λ s h p l. (l, p.1, p.2, p.3, p.4))
          (λ s a h p ne l. (recount x b _ (memory x a) h (omega arith) l, ne, p.2, p.3, p.4))
          (Bare-Open x b p0))
        (run-Leads (HasCmdq x b p0) (HasInbox x b p0) (HasAll x b p0 (λ s. 0)) (Open x b p0)
          (alloc_into set_inbox) (alloc_into set_outbox ∷ [])
          (alloc_step (HasCmdq x b p0) (HasInbox x b p0) (λ s. memory x s.cmdq) set_inbox
            (λ s p. p.0) (λ s h p l. (l, p.1, p.2, p.3, p.4))
            (λ s a h p ne l.
              (recount x b _ (memory x s.cmdq + memory x a) h (omega arith) l, p.1, ne, p.3, p.4))
            (HasCmdq-Open x b p0))
          (run-Leads (HasInbox x b p0) (HasAll x b p0 (λ s. 0)) (HasAll x b p0 (λ s. 0))
            (Open x b p0) (alloc_into set_outbox) []
            (alloc_step (HasInbox x b p0) (HasAll x b p0 (λ s. 0))
              (λ s. memory x s.cmdq + memory x s.inbox) set_outbox (λ s p. p.0)
              (λ s h p l. (l, p.1, p.2, p.3, p.4))
              (λ s a h p ne l. (
                recount x b _ (0 + (memory x s.cmdq + (memory x s.inbox + memory x a))) h
                    (omega arith) l,
                p.1,
                p.2,
                ne,
                p.4,
              ))
              (HasInbox-Open x b p0))
            (λ s p. p)))

  -- One mapping of a buffer that is there.
  map_step :
      (m m' : Session → ℕ) (page : Session → DmaPage) (iova len : ℕ)
      → ((s : Session)
          → HasAll x b p0 m s
          → ((page s).addr ≢ 0) × (map_at iova len s ≡ map_at (page s).iova (page s).len s))
      → ((s : Session) (h : Host)
          → (m (with_host h s) ≡ m s) × (m' (with_host h s) ≡ mapping x (page s) + m s))
      → ((s : Session) → HasAll x b p0 m s → Open x b p0 s)
      → Leads (HasAll x b p0 m) (HasAll x b p0 m') (Open x b p0) (map_at iova len)
  unfolding map_at
  map_step m m' page iova len there counted to_open s p =
      let (ne, same) = there s p in
      subst (Outcome (HasAll x b p0 m') (Open x b p0)) (sym same) (
        go (vfio_dma_map (page s).iova (page s).len s.ctx.host) refl
          (vfio_dma_map-GrantedMap x b (m s + (blocks x b p0) s) (page s) s.ctx.host ne p.0))
    where
      go :
          (t : Bool × Host)
          → vfio_dma_map (page s).iova (page s).len s.ctx.host ≡ t
          → GrantedMap x b (m s + (blocks x b p0) s) (page s) t
          → Outcome (HasAll x b p0 m') (Open x b p0) (map_at (page s).iova (page s).len s)
      go (true, h) e l =
          let result : map_at (page s).iova (page s).len s ≡ (true, with_host h s) =
            ground (arith, e) in
          let count = counted s h in
          subst (Outcome (HasAll x b p0 m') (Open x b p0)) (sym result) (
            recount x b _ (m' (with_host h s) + (blocks x b p0) s) h (omega (arith, count.1)) l,
            p.1,
            p.2,
            p.3,
            p.4,
          )
      go (false, h) e l =
          let result : map_at (page s).iova (page s).len s ≡ (false, with_host h s) =
            ground (arith, e) in
          let count = counted s h in
          subst (Outcome (HasAll x b p0 m') (Open x b p0)) (sym result) (
            to_open (with_host h s) (
              recount x b _ (m (with_host h s) + (blocks x b p0) s) h (omega (arith, count.0)) l,
              p.1,
              p.2,
              p.3,
              p.4,
            ))

  map_all-Leads :
      Leads (HasAll x b p0 (λ s. 0)) (HasAll x b p0 (three_maps x b p0)) (Open x b p0) (run map_all)
  map_all-Leads =
      run-Leads (HasAll x b p0 (λ s. 0)) (HasAll x b p0 (one_map x b p0))
        (HasAll x b p0 (three_maps x b p0)) (Open x b p0) (map_at cmdq_iova cmdq_size)
        (map_at inbox_iova mbox_size ∷ map_at outbox_iova mbox_size ∷ [])
        (map_step (λ s. 0) (one_map x b p0) cmdq_page cmdq_iova cmdq_size (λ s p. (p.1, refl))
          (λ s h. (refl, omega arith)) (HasAll-Open x b p0))
        (run-Leads (HasAll x b p0 (one_map x b p0)) (HasAll x b p0 (two_maps x b p0))
          (HasAll x b p0 (three_maps x b p0)) (Open x b p0) (map_at inbox_iova mbox_size)
          (map_at outbox_iova mbox_size ∷ [])
          (map_step (one_map x b p0) (two_maps x b p0) inbox_page inbox_iova mbox_size
            (λ s p. (p.2, refl)) (λ s h. (refl, refl)) (one_map-Open x b p0))
          (run-Leads (HasAll x b p0 (two_maps x b p0)) (HasAll x b p0 (three_maps x b p0))
            (HasAll x b p0 (three_maps x b p0)) (Open x b p0) (map_at outbox_iova mbox_size) []
            (map_step (two_maps x b p0) (three_maps x b p0) outbox_page outbox_iova mbox_size
              (λ s p. (p.3, refl)) (λ s h. (refl, refl)) (two_maps-Open x b p0))
            (λ s p. p)))

  -- The registers are not part of the account.
  check_cmdif-Leads : Leads (Bare x b p0) (Bare x b p0) (Open x b p0) check_cmdif
  unfolding check_cmdif
  check_cmdif-Leads s p = either (shr (s.regs.read s.regs.reads 0x004) 16 == 5)
    where
      either :
          (t : Bool)
          → Outcome
              (Bare x b p0)
              (Open x b p0)
              (t, with_regs (record s.regs { reads = s.regs.reads + 1 }) s)
      either true = p
      either false = Bare-Open x b p0 s p

  await_ready-Leads : Leads (Bare x b p0) (Bare x b p0) (Open x b p0) await_ready
  unfolding await_ready
  await_ready-Leads s p = either (wait_fw_ready 501 s.regs)
    where
      either : (t : Bool × Regs) → Outcome (Bare x b p0) (Open x b p0) (t.0, with_regs t.1 s)
      either (true, r) = p
      either (false, r) = Bare-Open x b p0 s p

  take_over-Leads : Leads (HasAll x b p0 (three_maps x b p0)) (Open x b p0) (Open x b p0) take_over
  unfolding take_over
  take_over-Leads s p = three_maps-Open x b p0 s p

  open_steps-Leads : Leads (Bare x b p0) (Open x b p0) (Open x b p0) open_steps
  open_steps-Leads =
      then-Leads (Bare x b p0) (Bare x b p0) (Open x b p0) (Open x b p0) check_cmdif
        (await_ready then run alloc_all then run map_all then take_over) check_cmdif-Leads
        (then-Leads (Bare x b p0) (Bare x b p0) (Open x b p0) (Open x b p0) await_ready
          (run alloc_all then run map_all then take_over) await_ready-Leads
          (then-Leads (Bare x b p0) (HasAll x b p0 (λ s. 0)) (Open x b p0) (Open x b p0)
            (run alloc_all) (run map_all then take_over) alloc_all-Leads
            (then-Leads (HasAll x b p0 (λ s. 0)) (HasAll x b p0 (three_maps x b p0)) (Open x b p0)
              (Open x b p0) (run map_all) take_over map_all-Leads take_over-Leads)))

  -- What is left when nothing is open.
  abbrev pub Nothing : Session → Type 0
  Nothing s = Ledger x b 0 s.ctx.host × (s.process ≡ p0)

  pub ctx_close-Nothing :
      (s : Session)
      → Paid x b (owns_buffers x s) s.ctx
      → (vfio_device_close s.dev s.process).1 ≡ p0
      → Nothing (ctx_close s)
  unfolding ctx_close
  ctx_close-Nothing s paid closes = (ctx_close-Ledger x b s paid, closes)

  closed : (s : Session) → Open x b p0 s → Nothing (ctx_close s)
  closed s (l, (closes, none_given)) =
      ctx_close-Nothing s (rw none_given (recount x b _ _ s.ctx.host (omega arith) l)) closes

  -- Opening the context fails with everything given back, or yields one whose closing does so.
  pub ctx_open-Open :
      (kernel : Kernel) (s : Session)
      → Ledger x b 0 s.ctx.host
      → s.process ≡ p0
      → Outcome (Open x b p0) Nothing (ctx_open kernel s)
  unfolding ctx_open
  ctx_open-Open kernel s l e =
      let (done, dev, process, written) = vfio_device_open kernel s.process in
      let (failed, opened) = vfio_device_open_balance kernel s.process in
      let s0 : Session = record (cleared s) { dev = dev; process = process } in
      elim (Bool-cases done) [
        | inl y ↦ rw y (
            finish (open_steps s0)
              (open_steps-Leads s0 (l, refl, refl, refl, ((opened y).1 ∙ e, refl))))
        | inr n ↦ rw n (l, failed n ∙ e)
      ]
    where
      finish :
          (t : Bool × Session)
          → Outcome (Open x b p0) (Open x b p0) t
          → Outcome (Open x b p0) Nothing (close_failed t)
      finish (true, s') o = o
      finish (false, s') o = closed s' o
