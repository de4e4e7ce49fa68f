-- ===== src/Life/Placed.antt =====
-- Where the driver puts its regions: those that the calls of src/mlx5.c really ask for, against
-- the table of Layout.
use mlx_nic_driver.Base.{
  ℕ, zero, suc, ◌+◌, ◌*◌, ◌%◌, ◌<◌, ◌≡◌, arith, Bool, true, some, List, [], ◌∷◌, get_elem?,
}
use mlx_nic_driver.Dma.{DmaPage, Region, Host, dma_region_alloc, dma_page_alloc, vfio_dma_map}
use mlx_nic_driver.Cmd.{Firmware, Ctx}
use mlx_nic_driver.Pages.{give_pages}
use mlx_nic_driver.Pages.Numbered.{Fit, Numbered, give_pages-Fit}
use mlx_nic_driver.Rq.{Rq, post_one}
use mlx_nic_driver.Obj.Ids.{create_eq}
use mlx_nic_driver.Obj.Cqs.{create_cq, alloc_cq_pages}
use mlx_nic_driver.Obj.Sqs.{create_sq, alloc_sq_pages}
use mlx_nic_driver.Obj.Rqs.{create_rq, alloc_rq_pages}
use mlx_nic_driver.Layout.{
  Use, cmdq, inbox, outbox, eq, fw_page, tx_cq, tx_cq_dbr, sq, sq_dbr, tx_packet, rx_cq, rx_cq_dbr,
  rq, rq_dbr, rx_buffer, base, size,
}
use mlx_nic_driver.Steps.{run}
use mlx_nic_driver.Life.{Session, map_all, map_at}
use mlx_nic_driver.Life.Runtime.{Runtime, QueueState}
use mlx_nic_driver.Life.Start.{Parts, make_eq, make_tx_cq, make_sq, make_rx_cq, make_rq}

abbrev pub region_of : DmaPage → Region
region_of p = record { iova = p.iova; len = p.len }

-- The regions of the mailboxes, as `mlx5_cmd_ctx_open` maps them, the last first.
pub record Mailboxes : Type 0 where
  pub before : Session
  pub after : Session
  pub cmdq_region : Region
  pub inbox_region : Region
  pub outbox_region : Region
  pub mapped : run map_all before ≡ (true, after)
  pub added :
      after.ctx.host.mapped ≡ outbox_region ∷ inbox_region ∷ cmdq_region ∷ before.ctx.host.mapped

-- A successful step of the loop over the queues.
abbrev pub Made : (Firmware → Parts → ℕ → QueueState → Bool × QueueState) → ℕ → QueueState → Type 0
Made make q s' = (fw : Firmware) × (p : Parts) × (s : QueueState) × (make fw p q s ≡ (true, s'))

-- A buffer that posting adds to slot `s` of the queue that was made as number `q`.
pub record Posted (q s : ℕ) (page : DmaPage) : Type 0 where
  pub made : QueueState
  pub from : Made make_rq q made
  pub mkey : ℕ
  pub before : Rq
  pub after : Rq
  pub host : Host
  pub host' : Host
  pub same : before.rx_iova_base ≡ made.queue.rq.rq.rx_iova_base
  pub slot : before.prod_index % 4096 ≡ s
  pub missing : (before.rx_pages s).addr ≡ 0
  pub posted : post_one mkey before host ≡ (true, after, host')
  pub there : after.rx_pages s ≡ page

-- The region that the driver uses for something, with `queues` queues and `fw_pages` pages given:
-- that of the call that makes it.
abbrev pub Placed : (queues fw_pages : ℕ) → Use → Region → Type 0
Placed queues fw_pages cmdq r = (m : Mailboxes) × (m.cmdq_region ≡ r)
Placed queues fw_pages inbox r = (m : Mailboxes) × (m.inbox_region ≡ r)
Placed queues fw_pages outbox r = (m : Mailboxes) × (m.outbox_region ≡ r)
Placed queues fw_pages eq r =
    (fw : Firmware) × (rt rt' : Runtime) × (make_eq fw rt ≡ (true, rt'))
    × (region_of rt'.eq.page ≡ r)
Placed queues fw_pages (fw_page i) r =
    (i < fw_pages)
    × (fw : Firmware) × (function_id num_pages : ℕ) × (ctx : Ctx) × (page : DmaPage) × Fit ctx
    × (get_elem? (give_pages fw function_id num_pages ctx).1.fw_pages i ≡ some page)
    × (region_of page ≡ r)
Placed queues fw_pages (tx_cq q) r =
    (q < queues) × (s : QueueState) × Made make_tx_cq q s × (region_of s.queue.tx_cq.cq_page ≡ r)
Placed queues fw_pages (tx_cq_dbr q) r =
    (q < queues) × (s : QueueState) × Made make_tx_cq q s × (region_of s.queue.tx_cq.dbr_page ≡ r)
Placed queues fw_pages (sq q) r =
    (q < queues) × (s : QueueState) × Made make_sq q s × (region_of s.queue.sq.sq_page ≡ r)
Placed queues fw_pages (sq_dbr q) r =
    (q < queues) × (s : QueueState) × Made make_sq q s × (region_of s.queue.sq.dbr_page ≡ r)
Placed queues fw_pages (tx_packet q) r =
    (q < queues) × (s : QueueState) × Made make_sq q s × (region_of s.queue.sq.tx_page ≡ r)
Placed queues fw_pages (rx_cq q) r =
    (q < queues) × (s : QueueState) × Made make_rx_cq q s × (region_of s.queue.rx_cq.cq_page ≡ r)
Placed queues fw_pages (rx_cq_dbr q) r =
    (q < queues) × (s : QueueState) × Made make_rx_cq q s × (region_of s.queue.rx_cq.dbr_page ≡ r)
Placed queues fw_pages (rq q) r =
    (q < queues) × (s : QueueState) × Made make_rq q s × (region_of s.queue.rq.rq_page ≡ r)
Placed queues fw_pages (rq_dbr q) r =
    (q < queues) × (s : QueueState) × Made make_rq q s × (region_of s.queue.rq.dbr_page ≡ r)
Placed queues fw_pages (rx_buffer q slot) r =
    (q < queues) × (page : DmaPage) × Posted q slot page × (region_of page ≡ r)

-- At the place and of the length of the table.
abbrev pub At : Use → DmaPage → Type 0
At u p = (p.iova ≡ base u) × (p.len ≡ size u)

pub make_sq-At :
    (fw : Firmware) (p : Parts) (q : ℕ) (s s' : QueueState)
    → make_sq fw p q s ≡ (true, s')
    → At (sq q) s'.queue.sq.sq_page
      × At (sq_dbr q) s'.queue.sq.dbr_page
      × At (tx_packet q) s'.queue.sq.tx_page
unfolding make_sq create_sq alloc_sq_pages dma_region_alloc dma_page_alloc
make_sq-At fw p q s s' e =
    ((ground arith, ground arith), (ground arith, ground arith), (ground arith, ground arith))

pub make_tx_cq-At :
    (fw : Firmware) (p : Parts) (q : ℕ) (s s' : QueueState)
    → make_tx_cq fw p q s ≡ (true, s')
    → At (tx_cq q) s'.queue.tx_cq.cq_page × At (tx_cq_dbr q) s'.queue.tx_cq.dbr_page
unfolding make_tx_cq create_cq alloc_cq_pages dma_region_alloc dma_page_alloc
make_tx_cq-At fw p q s s' e = ((ground arith, ground arith), (ground arith, ground arith))

pub make_rx_cq-At :
    (fw : Firmware) (p : Parts) (q : ℕ) (s s' : QueueState)
    → make_rx_cq fw p q s ≡ (true, s')
    → At (rx_cq q) s'.queue.rx_cq.cq_page × At (rx_cq_dbr q) s'.queue.rx_cq.dbr_page
unfolding make_rx_cq create_cq alloc_cq_pages dma_region_alloc dma_page_alloc
make_rx_cq-At fw p q s s' e = ((ground arith, ground arith), (ground arith, ground arith))

pub make_rq-At :
    (fw : Firmware) (p : Parts) (q : ℕ) (s s' : QueueState)
    → make_rq fw p q s ≡ (true, s')
    → At (rq q) s'.queue.rq.rq_page
      × At (rq_dbr q) s'.queue.rq.dbr_page
      × (s'.queue.rq.rq.rx_iova_base ≡ base (rx_buffer q 0))
unfolding make_rq create_rq alloc_rq_pages dma_region_alloc dma_page_alloc
make_rq-At fw p q s s' e =
    ((ground arith, ground arith), (ground arith, ground arith), ground arith)

pub make_eq-At :
    (fw : Firmware) (rt rt' : Runtime) → make_eq fw rt ≡ (true, rt') → At eq rt'.eq.page
unfolding make_eq create_eq dma_page_alloc
make_eq-At fw rt rt' e = (ground arith, ground arith)

pub Posted-At : (q s : ℕ) (page : DmaPage) → Posted q s page → (s < 4096) × At (rx_buffer q s) page
unfolding post_one dma_page_alloc
Posted-At q s page b =
    let (fw, p, from, made) = b.from in
    let start = (make_rq-At fw p q from b.made made).2 in
    let posted = b.posted in
    (
      omega (arith, b.slot),
      (
        ground (arith, start, b.same, b.slot, b.missing, b.posted, b.there),
        ground (arith, start, b.same, b.slot, b.missing, b.posted, b.there),
      ),
    )

pub Mailboxes-At :
    (m : Mailboxes)
    → (m.cmdq_region ≡ record { iova = base cmdq; len = size cmdq })
      × (m.inbox_region ≡ record { iova = base inbox; len = size inbox })
      × (m.outbox_region ≡ record { iova = base outbox; len = size outbox })
unfolding map_at vfio_dma_map
Mailboxes-At m = (
  ground (arith, m.mapped, m.added),
  ground (arith, m.mapped, m.added),
  ground (arith, m.mapped, m.added),
)

get_elem?-Numbered :
    (i n : ℕ) (ps : List DmaPage) (p : DmaPage)
    → Numbered n ps
    → get_elem? ps i ≡ some p
    → (p.iova ≡ 0x03000000 + (n + i) * 4096) × (p.len ≡ 4096)
get_elem?-Numbered i n [] p ok e = absurd (ground (arith, e))
get_elem?-Numbered zero n (q ∷ ps) p ok e = (ground (arith, ok.0, e), ground (arith, ok.1, e))
get_elem?-Numbered (suc i) n (q ∷ ps) p ok e =
    let rest = get_elem?-Numbered i (n + 1) ps p ok.2 e in (omega (arith, rest.0), rest.1)

pub fw_page-At :
    (fw : Firmware) (function_id num_pages : ℕ) (ctx : Ctx) (i : ℕ) (page : DmaPage)
    → Fit ctx
    → get_elem? (give_pages fw function_id num_pages ctx).1.fw_pages i ≡ some page
    → At (fw_page i) page
fw_page-At fw function_id num_pages ctx i page fit e =
    let given = (give_pages-Fit fw function_id num_pages ctx fit).0.numbered in
    let there =
      get_elem?-Numbered i 0 (give_pages fw function_id num_pages ctx).1.fw_pages page given e in
    (omega (arith, there.0), there.1)
