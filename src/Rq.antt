-- ===== src/Rq.antt =====
-- Receive queues: `mlx5_rq_post_buffers` and `mlx5_rx_poll_one` of src/mlx5.c.
pub mod Post
pub mod Loop
pub mod Buffers
use mlx_nic_driver.Base.{
  ℕ, zero, suc, ◌+◌, ◌-◌, ◌*◌, ◌/◌, ◌%◌, ◌^◌, Bool, true, false, not, ◌||◌, Option, none, some, ltb,
  leb, ◌==◌, if◌then◌else◌,
}
use mlx_nic_driver.Word.{Bytes, u32, low_bits, put_be32, put_be64, memset}
use mlx_nic_driver.Dma.{DmaPage, no_page, Host, dma_page_alloc, page_size}
use mlx_nic_driver.Cq.{Cq, Timeout, poll_cq}

abbrev pub rq_wqe_count : ℕ
rq_wqe_count = 4096

abbrev pub rx_buffer_size : ℕ
rx_buffer_size = 2048

abbrev pub hw_start_padding : ℕ
hw_start_padding = 0x80000000

-- `struct mlx5_rq_res`, with the bytes of its WQE ring and of its doorbell record page. `rx_pages`
-- is the array of RX buffers, by slot.
pub record Rq : Type 0 where
  pub ring : Bytes
  pub dbr : Bytes
  pub rx_pages : ℕ → DmaPage
  pub rqn : ℕ
  pub prod_index : ℕ
  pub rx_iova_base : ℕ
  pub valid : Bool

abbrev pub set_page : ℕ → DmaPage → (ℕ → DmaPage) → ℕ → DmaPage
set_page slot page pages i = if i == slot then page else pages i

-- The 16 bytes of a receive WQE; the length and the padding flag do not overlap.
unfoldable pub write_rx_wqe : ℕ → ℕ → ℕ → Bytes → Bytes
write_rx_wqe wqe mkey iova ring = put_be64 (wqe + 8) iova (
    put_be32 (wqe + 4) mkey
      (put_be32 wqe (rx_buffer_size + hw_start_padding) (memset wqe 0 16 ring)))

-- A round of the loop for which the page of slot `slot` is at `iova`.
abbrev pub post_wqe : ℕ → ℕ → ℕ → Rq → Rq
post_wqe slot iova mkey rq = record rq {
  ring = write_rx_wqe (slot * 16) mkey iova rq.ring;
  prod_index = u32 (rq.prod_index + 1);
}

-- One round: false is the early return of -1, when a page is needed and refused.
unfoldable pub post_one : ℕ → Rq → Host → Bool × Rq × Host
post_one mkey rq host =
    let slot : ℕ = low_bits rq.prod_index 12 in
    let page : DmaPage = rq.rx_pages slot in
    let (got, host') = dma_page_alloc (rq.rx_iova_base + slot * page_size) host in
    if page.addr == 0
    then elim got [
      | none ↦ (false, record rq { rx_pages = set_page slot no_page rq.rx_pages }, host')
      | some p ↦ (
        true,
        post_wqe slot p.iova mkey (record rq { rx_pages = set_page slot p rq.rx_pages }),
        host',
      )
    ]
    else (true, post_wqe slot page.iova mkey rq, host)

unfoldable pub post_loop : ℕ → ℕ → Rq → Host → Bool × Rq × Host
post_loop zero mkey rq host = (true, rq, host)
post_loop (suc left) mkey rq host =
    let (posted, rq', host') = post_one mkey rq host in
    elim posted [ true ↦ post_loop left mkey rq' host' | false ↦ (false, rq', host') ]

-- Both doorbell words get the producer index.
unfoldable pub rq_ring : Rq → Rq
rq_ring rq = record rq {
  dbr = put_be32 4 (low_bits rq.prod_index 24) (put_be32 0 (low_bits rq.prod_index 24) rq.dbr);
}

unfoldable pub post_buffers : ℕ → ℕ → Rq → Host → Bool × Rq × Host
unfolding rq_ring
post_buffers mkey count rq host =
    let (posted, rq', host') = post_loop count mkey rq host in
    if not rq.valid
    then (false, rq, host)
    else if count == 0 || ltb rq_wqe_count count
    then (false, rq, host)
    else if posted
    then (true, rq_ring rq', host')
    else (false, rq', host')

-- `struct mlx5_rx_packet`; `addr` is the address of the driver's buffer.
pub record RxPacket : Type 0 where
  pub addr : ℕ
  pub len : ℕ
  pub slot : ℕ
  pub wqe_counter : ℕ

-- The part after the wait: `none` is -1.
unfoldable pub rx_packet : ℕ → ℕ → Rq → Option RxPacket
rx_packet byte_cnt wqe_counter rq =
    let slot : ℕ = low_bits wqe_counter 12 in
    let page : DmaPage = rq.rx_pages slot in
    if page.addr == 0
    then none
    else some (record { addr = page.addr; len = byte_cnt; slot = slot; wqe_counter = wqe_counter })

-- The outer `none` means that the fuel ran out, `some (none, …)` is -1. `pkt` is not NULL.
unfoldable pub rx_poll_one :
    ℕ → (ℕ → Bytes) → ℕ → Timeout → Cq → Rq → Option (Option RxPacket × Cq × ℕ)
unfolding rx_packet
rx_poll_one fuel views now timeout cq rq =
    if not rq.valid then some (none, cq, now) else elim (poll_cq fuel views now timeout cq) [
      | none ↦ none
      | some (none, cq', now') ↦ some (none, cq', now')
      | some (some (b, w), cq', now') ↦ some (rx_packet b w rq, cq', now')
    ]
