-- ===== src/Layout.antt =====
-- The I/O addresses that the driver hands out, from the constants of `mlx5_cmd_ctx_open`,
-- `mlx5_ctx_give_pages`, `mlx5_ctx_create_eq`, `mlx5_ctx_create_sq`, `mlx5_ctx_create_rq` and the
-- queue loop of `mlxnicd_dev_start` in src/mlx5.c: every region of a device with `queues` queues
-- whose firmware has been given `fw_pages` pages.
use mlx_nic_driver.Base.{ℕ, ◌+◌, ◌*◌, ◌≤◌, ◌<◌, ◌≢◌, ◌⊎◌, inl, inr, ap, refl, arith}
use mathlib.Core.Path.{ap₂}
use mlx_nic_driver.Obj.Sqs.{sq_iova}
use mlx_nic_driver.Obj.Rqs.{rq_iova}
use mlx_nic_driver.Pages.{fw_iova_base}
use native.Mathlib.Decide.{ℕ_discrete}

-- The arguments of `mlx5_ctx_create_cq` in the queue loop.
abbrev pub tx_cq_iova : ℕ → ℕ
tx_cq_iova q = 0x04000000 + q * 0x00100000

abbrev pub rx_cq_iova : ℕ → ℕ
rx_cq_iova q = 0x0a000000 + q * 0x00200000

pub data Use : Type 0 where
  cmdq inbox outbox eq : Use
  fw_page : ℕ → Use
  tx_cq tx_cq_dbr sq sq_dbr tx_packet : ℕ → Use
  rx_cq rx_cq_dbr rq rq_dbr : ℕ → Use
  rx_buffer : ℕ → ℕ → Use

abbrev pub base : Use → ℕ
base cmdq = 0x01000000
base inbox = 0x01800000
base outbox = 0x02000000
base eq = 0x07200000
base (fw_page i) = fw_iova_base + i * 4096
base (tx_cq q) = tx_cq_iova q
base (tx_cq_dbr q) = tx_cq_iova q + 0x00040000
base (sq q) = sq_iova q
base (sq_dbr q) = sq_iova q + 0x00080000
base (tx_packet q) = sq_iova q + 0x00081000
base (rx_cq q) = rx_cq_iova q
base (rx_cq_dbr q) = rx_cq_iova q + 0x00040000
base (rq q) = rq_iova q
base (rq_dbr q) = rq_iova q + 0x00010000
base (rx_buffer q s) = rq_iova q + 0x00100000 + s * 4096

abbrev pub size : Use → ℕ
size inbox = 1048576
size outbox = 1048576
size (tx_cq q) = 2048 * 64
size (rx_cq q) = 2048 * 64
size (sq q) = 8192 * 64
size (rq q) = 4096 * 16
size other = 4096

-- The uses that occur.
abbrev pub InUse : ℕ → ℕ → Use → Type 0
InUse queues fw_pages (fw_page i) = i < fw_pages
InUse queues fw_pages (tx_cq q) = q < queues
InUse queues fw_pages (tx_cq_dbr q) = q < queues
InUse queues fw_pages (sq q) = q < queues
InUse queues fw_pages (sq_dbr q) = q < queues
InUse queues fw_pages (tx_packet q) = q < queues
InUse queues fw_pages (rx_cq q) = q < queues
InUse queues fw_pages (rx_cq_dbr q) = q < queues
InUse queues fw_pages (rq q) = q < queues
InUse queues fw_pages (rq_dbr q) = q < queues
InUse queues fw_pages (rx_buffer q s) = (q < queues) × (s < 4096)
InUse queues fw_pages other = Unit

abbrev pub Holds : Use → ℕ → Type 0
Holds a x = (base a ≤ x) × (x < base a + size a)

buffers_differ : (q s r t : ℕ) → rx_buffer q s ≢ rx_buffer r t → (q ≢ r) ⊎ (s ≢ t)
buffers_differ q s r t ne = elim (ℕ_discrete q r) [
  | no other ↦ inl other
  | yes same ↦ inr (λ e. ne (ap₂ rx_buffer same e))
]

-- With at most 8 queues and 4096 firmware pages, two different regions have no common address.
pub InUse-apart :
    (queues fw_pages : ℕ) (a b : Use) (x : ℕ)
    → queues ≤ 8
    → fw_pages ≤ 4096
    → InUse queues fw_pages a
    → InUse queues fw_pages b
    → a ≢ b
    → Holds a x
    → Holds b x
    → ⊥
InUse-apart queues fw_pages cmdq cmdq x few pages ua ub ne ha hb = ne refl
InUse-apart queues fw_pages inbox inbox x few pages ua ub ne ha hb = ne refl
InUse-apart queues fw_pages outbox outbox x few pages ua ub ne ha hb = ne refl
InUse-apart queues fw_pages eq eq x few pages ua ub ne ha hb = ne refl
InUse-apart queues fw_pages (fw_page i) (fw_page j) x few pages ua ub ne ha hb =
    let differ : i ≢ j = λ e. ne (ap fw_page e) in omega arith
InUse-apart queues fw_pages (tx_cq i) (tx_cq j) x few pages ua ub ne ha hb =
    let differ : i ≢ j = λ e. ne (ap tx_cq e) in omega arith
InUse-apart queues fw_pages (tx_cq_dbr i) (tx_cq_dbr j) x few pages ua ub ne ha hb =
    let differ : i ≢ j = λ e. ne (ap tx_cq_dbr e) in omega arith
InUse-apart queues fw_pages (sq i) (sq j) x few pages ua ub ne ha hb =
    let differ : i ≢ j = λ e. ne (ap sq e) in omega arith
InUse-apart queues fw_pages (sq_dbr i) (sq_dbr j) x few pages ua ub ne ha hb =
    let differ : i ≢ j = λ e. ne (ap sq_dbr e) in omega arith
InUse-apart queues fw_pages (tx_packet i) (tx_packet j) x few pages ua ub ne ha hb =
    let differ : i ≢ j = λ e. ne (ap tx_packet e) in omega arith
InUse-apart queues fw_pages (rx_cq i) (rx_cq j) x few pages ua ub ne ha hb =
    let differ : i ≢ j = λ e. ne (ap rx_cq e) in omega arith
InUse-apart queues fw_pages (rx_cq_dbr i) (rx_cq_dbr j) x few pages ua ub ne ha hb =
    let differ : i ≢ j = λ e. ne (ap rx_cq_dbr e) in omega arith
InUse-apart queues fw_pages (rq i) (rq j) x few pages ua ub ne ha hb =
    let differ : i ≢ j = λ e. ne (ap rq e) in omega arith
InUse-apart queues fw_pages (rq_dbr i) (rq_dbr j) x few pages ua ub ne ha hb =
    let differ : i ≢ j = λ e. ne (ap rq_dbr e) in omega arith
InUse-apart queues fw_pages (rx_buffer q s) (rx_buffer r t) x few pages ua ub ne ha hb =
    let differ : (q ≢ r) ⊎ (s ≢ t) = buffers_differ q s r t ne in omega arith
InUse-apart queues fw_pages a b x few pages ua ub ne ha hb = omega arith
