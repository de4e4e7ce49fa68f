-- ===== src/Life/Stages.antt =====
-- The stages of `mlx5_cmd_ctx_open`, and what each of them leaves to be given back.
use mlx_nic_driver.Base.{ℕ, ◌+◌, ◌≡◌, ◌≢◌, arith, []}
use mlx_nic_driver.Dma.{DmaPage}
use mlx_nic_driver.Vfio.{Process, vfio_device_close}
use mlx_nic_driver.Ledger.{Probe, owns, mapping, memory, Ledger, recount}
use mlx_nic_driver.Life.Account.{owns_buffers}
use mlx_nic_driver.Life.{Session, cmdq_page, inbox_page, outbox_page}
use mlx_nic_driver.Life.Opened.{slack}

module _ (x : Probe) (b : ℕ) (p0 : Process) where
  -- Closing the device would leave the process with what it had before; no page is given yet.
  abbrev pub Plain : Session → Type 0
  Plain s = ((vfio_device_close s.dev s.process).1 ≡ p0) × (s.ctx.fw_pages ≡ [])

  abbrev pub Bare : Session → Type 0
  Bare s = Ledger x b 0 s.ctx.host × (s.cmdq ≡ 0) × (s.inbox ≡ 0) × (s.outbox ≡ 0) × Plain s

  abbrev pub HasCmdq : Session → Type 0
  HasCmdq s =
      Ledger x b (memory x s.cmdq) s.ctx.host
      × (s.cmdq ≢ 0)
      × (s.inbox ≡ 0)
      × (s.outbox ≡ 0)
      × Plain s

  abbrev pub HasInbox : Session → Type 0
  HasInbox s =
      Ledger x b (memory x s.cmdq + memory x s.inbox) s.ctx.host
      × (s.cmdq ≢ 0)
      × (s.inbox ≢ 0)
      × (s.outbox ≡ 0)
      × Plain s

  abbrev pub blocks : Session → ℕ
  blocks s = memory x s.cmdq + (memory x s.inbox + memory x s.outbox)

  -- All buffers are allocated, and `m` mappings made.
  abbrev pub HasAll : (Session → ℕ) → Session → Type 0
  HasAll m s =
      Ledger x b (m s + blocks s) s.ctx.host
      × (s.cmdq ≢ 0)
      × (s.inbox ≢ 0)
      × (s.outbox ≢ 0)
      × Plain s

  abbrev pub one_map : Session → ℕ
  one_map s = mapping x (cmdq_page s)

  abbrev pub two_maps : Session → ℕ
  two_maps s = mapping x (inbox_page s) + one_map s

  abbrev pub three_maps : Session → ℕ
  three_maps s = mapping x (outbox_page s) + two_maps s

  -- What a failure leaves, and a success.
  abbrev pub Open : Session → Type 0
  Open s = Ledger x b (owns_buffers x s) s.ctx.host × Plain s

  pub at_null : (p : DmaPage) → p.addr ≡ 0 → owns x p ≡ 0
  at_null p e = ground arith

  pub Bare-Open : (s : Session) → Bare s → Open s
  Bare-Open s (l, c, i, o, plain) =
      let ec = at_null (cmdq_page s) c in
      let ei = at_null (inbox_page s) i in
      let eo = at_null (outbox_page s) o in
      (recount x b 0 (owns_buffers x s) s.ctx.host (omega arith) l, plain)

  pub HasCmdq-Open : (s : Session) → HasCmdq s → Open s
  HasCmdq-Open s (l, c, i, o, plain) =
      let ei = at_null (inbox_page s) i in
      let eo = at_null (outbox_page s) o in
      (
        recount x b _ (owns_buffers x s) s.ctx.host (omega arith)
            (slack x b _ (cmdq_page s) s.ctx.host l),
        plain,
      )

  pub HasInbox-Open : (s : Session) → HasInbox s → Open s
  HasInbox-Open s (l, c, i, o, plain) =
      let eo = at_null (outbox_page s) o in
      let l1 = slack x b _ (inbox_page s) s.ctx.host (slack x b _ (cmdq_page s) s.ctx.host l) in
      (recount x b _ (owns_buffers x s) s.ctx.host (omega arith) l1, plain)

  pub three_maps-Open : (s : Session) → HasAll three_maps s → Open s
  three_maps-Open s (l, c, i, o, plain) =
      (recount x b _ (owns_buffers x s) s.ctx.host (omega arith) l, plain)

  pub two_maps-Open : (s : Session) → HasAll two_maps s → Open s
  two_maps-Open s (l, c, i, o, plain) = three_maps-Open s (
    recount x b _ _ s.ctx.host (omega arith) (slack x b _ (outbox_page s) s.ctx.host l),
    c,
    i,
    o,
    plain,
  )

  pub one_map-Open : (s : Session) → HasAll one_map s → Open s
  one_map-Open s (l, c, i, o, plain) = two_maps-Open s (
    recount x b _ _ s.ctx.host (omega arith) (slack x b _ (inbox_page s) s.ctx.host l),
    c,
    i,
    o,
    plain,
  )

  pub HasAll-Open : (s : Session) → HasAll (λ s. 0) s → Open s
  HasAll-Open s (l, c, i, o, plain) = one_map-Open s (
    recount x b _ _ s.ctx.host (omega arith) (slack x b _ (cmdq_page s) s.ctx.host l),
    c,
    i,
    o,
    plain,
  )
