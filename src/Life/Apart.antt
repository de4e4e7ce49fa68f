-- ===== src/Life/Apart.antt =====
-- About the places of the regions that the driver maps: `mlx5_cmd_ctx_open`, `mlx5_ctx_give_pages`
-- and the queue loop of `mlxnicd_dev_start` in src/mlx5.c together.
use mlx_nic_driver.Base.{ℕ, ◌+◌, ◌*◌, ◌≤◌, ◌<◌, ◌≡◌, ◌≢◌, ◌↔◌, ◌∙◌, sym, ap, arith}
use mlx_nic_driver.Dma.{DmaPage, Region}
use mlx_nic_driver.Pages.{max_fw_pages}
use mlx_nic_driver.Layout.{
  Use, cmdq, inbox, outbox, eq, fw_page, tx_cq, tx_cq_dbr, sq, sq_dbr, tx_packet, rx_cq, rx_cq_dbr,
  rq, rq_dbr, rx_buffer, base, size, InUse, InUse-apart,
}
use mlx_nic_driver.Life.Placed.{
  region_of, Placed, At, Mailboxes-At, make_eq-At, fw_page-At, make_tx_cq-At, make_sq-At,
  make_rx_cq-At, make_rq-At, Posted-At,
}

region_of-At :
    (u : Use) (p : DmaPage) (r : Region)
    → At u p
    → region_of p ≡ r
    → (r.iova ≡ base u) × (r.len ≡ size u)
region_of-At u p r at e = (sym (ap (λ t. t.iova) e) ∙ at.0, sym (ap (λ t. t.len) e) ∙ at.1)

-- What is placed is in use, where the table has it.
module _ (queues fw_pages : ℕ) where
  Placed-InUse :
      (u : Use) (r : Region)
      → Placed queues fw_pages u r
      → InUse queues fw_pages u × (r.iova ≡ base u) × (r.len ≡ size u)
  Placed-InUse cmdq r (m, e) =
      let t = sym e ∙ (Mailboxes-At m).0 in (tt, ap (λ x. x.iova) t, ap (λ x. x.len) t)
  Placed-InUse inbox r (m, e) =
      let t = sym e ∙ (Mailboxes-At m).1 in (tt, ap (λ x. x.iova) t, ap (λ x. x.len) t)
  Placed-InUse outbox r (m, e) =
      let t = sym e ∙ (Mailboxes-At m).2 in (tt, ap (λ x. x.iova) t, ap (λ x. x.len) t)
  Placed-InUse eq r (fw, rt, rt', made, e) =
      let t = region_of-At eq rt'.eq.page r (make_eq-At fw rt rt' made) e in (tt, t.0, t.1)
  Placed-InUse (fw_page i) r (few, fw, function_id, num_pages, ctx, page, fit, there, e) =
      let t =
        region_of-At (fw_page i) page r (fw_page-At fw function_id num_pages ctx i page fit there)
          e in
      (few, t.0, t.1)
  Placed-InUse (tx_cq q) r (few, s, (fw, p, s0, made), e) =
      let t = region_of-At (tx_cq q) s.queue.tx_cq.cq_page r (make_tx_cq-At fw p q s0 s made).0 e in
      (few, t.0, t.1)
  Placed-InUse (tx_cq_dbr q) r (few, s, (fw, p, s0, made), e) =
      let t =
        region_of-At (tx_cq_dbr q) s.queue.tx_cq.dbr_page r (make_tx_cq-At fw p q s0 s made).1 e in
      (few, t.0, t.1)
  Placed-InUse (sq q) r (few, s, (fw, p, s0, made), e) =
      let t = region_of-At (sq q) s.queue.sq.sq_page r (make_sq-At fw p q s0 s made).0 e in
      (few, t.0, t.1)
  Placed-InUse (sq_dbr q) r (few, s, (fw, p, s0, made), e) =
      let t = region_of-At (sq_dbr q) s.queue.sq.dbr_page r (make_sq-At fw p q s0 s made).1 e in
      (few, t.0, t.1)
  Placed-InUse (tx_packet q) r (few, s, (fw, p, s0, made), e) =
      let t = region_of-At (tx_packet q) s.queue.sq.tx_page r (make_sq-At fw p q s0 s made).2 e in
      (few, t.0, t.1)
  Placed-InUse (rx_cq q) r (few, s, (fw, p, s0, made), e) =
      let t = region_of-At (rx_cq q) s.queue.rx_cq.cq_page r (make_rx_cq-At fw p q s0 s made).0 e in
      (few, t.0, t.1)
  Placed-InUse (rx_cq_dbr q) r (few, s, (fw, p, s0, made), e) =
      let t =
        region_of-At (rx_cq_dbr q) s.queue.rx_cq.dbr_page r (make_rx_cq-At fw p q s0 s made).1 e in
      (few, t.0, t.1)
  Placed-InUse (rq q) r (few, s, (fw, p, s0, made), e) =
      let t = region_of-At (rq q) s.queue.rq.rq_page r (make_rq-At fw p q s0 s made).0 e in
      (few, t.0, t.1)
  Placed-InUse (rq_dbr q) r (few, s, (fw, p, s0, made), e) =
      let t = region_of-At (rq_dbr q) s.queue.rq.dbr_page r (make_rq-At fw p q s0 s made).1 e in
      (few, t.0, t.1)
  Placed-InUse (rx_buffer q slot) r (few, page, posted, e) =
      let there = Posted-At q slot page posted in
      let t = region_of-At (rx_buffer q slot) page r there.1 e in ((few, there.0), t.0, t.1)

-- An address of a region.
abbrev pub In : Region → ℕ → Type 0
In r x = (r.iova ≤ x) × (x < r.iova + r.len)

-- The regions that the driver maps for two different uses have no common address, with at most 8
-- queues and 4096 firmware pages: the mailboxes of the commands, the pages of the firmware, the
-- event queue, and of every queue the rings, the doorbell records and the buffers.
pub Placed-apart :
    (queues fw_pages : ℕ) (a b : Use) (r s : Region) (x : ℕ)
    → queues ≤ 8
    → fw_pages ≤ 4096
    → Placed queues fw_pages a r
    → Placed queues fw_pages b s
    → a ≢ b
    → In r x
    → ¬ In s x
Placed-apart queues fw_pages a b r s x few pages pa pb ne ha hb =
    let (ua, ia, la) = Placed-InUse queues fw_pages a r pa in
    let (ub, ib, lb) = Placed-InUse queues fw_pages b s pb in
    InUse-apart queues fw_pages a b x few pages ua ub ne (rw (ia, la) at ha) (rw (ib, lb) at hb)

-- The limit `max_fw_pages` is too high for that. For each of the 8 queues it admits the 32 pages
-- from number 4096 + 256 * q on; and a page that is given shares an address with the ring of the TX
-- completion queue q exactly if it is one of those.
pub fw_page-tx_cq :
    (q i : ℕ) (r s : Region)
    → q < 8
    → Placed 8 max_fw_pages (fw_page i) r
    → Placed 8 max_fw_pages (tx_cq q) s
    → (4096 + 256 * q + 31 < max_fw_pages)
      × (((x : ℕ) × In r x × In s x) ↔ ((4096 + 256 * q ≤ i) × (i < 4096 + 256 * q + 32)))
fw_page-tx_cq q i r s few page ring =
    let (ua, ia, la) = Placed-InUse 8 max_fw_pages (fw_page i) r page in
    let (ub, ib, lb) = Placed-InUse 8 max_fw_pages (tx_cq q) s ring in
    (
      omega arith,
      (
        (λ (x, hr, hs). omega (arith, ia, la, ib, lb)),
        (λ h. (r.iova, omega (arith, ia, la, ib, lb), omega (arith, ia, la, ib, lb))),
      ),
    )
