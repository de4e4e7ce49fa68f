-- ===== src/Obj/Rqs.antt =====
-- Receive queues: `mlx5_ctx_create_rq`, `mlx5_ctx_modify_rq_ready` and `mlx5_ctx_destroy_rq`.
use mlx_nic_driver.Base.{
  ℕ, zero, suc, ◌+◌, ◌*◌, ◌^◌, Bool, true, false, not, Option, none, some, if◌then◌else◌,
}
use mlx_nic_driver.Word.{Bytes, zeroed, low_bits, put8, put_be32, put_be64}
use mlx_nic_driver.Dma.{
  DmaPage, no_page, Host, dma_region_alloc, dma_page_alloc, dma_page_free, fill_pas,
}
use mlx_nic_driver.Cq.{Cq}
use mlx_nic_driver.Rq.{Rq, rq_wqe_count}
use mlx_nic_driver.Cmd.{Firmware, Ctx, cmd_exec}
use mlx_nic_driver.Obj.{command, command_on, id24, exec_done}

-- `struct mlx5_rq_res`: its two pages, and what the datapath uses.
pub record RqRes : Type 0 where
  pub rq_page : DmaPage
  pub dbr_page : DmaPage
  pub rq : Rq

abbrev pub rq_iova : ℕ → ℕ
rq_iova queue_id = 0x0c000000 + queue_id * 0x02000000

-- The queue before it is created: zeroed, but for the base of its buffers.
abbrev pub new_rq : ℕ → Rq
new_rq queue_id = record {
  ring = zeroed;
  dbr = zeroed;
  rx_pages = λ s. no_page;
  rqn = 0;
  prod_index = 0;
  rx_iova_base = rq_iova queue_id + 0x00100000;
  valid = false;
}

abbrev pub no_rq : ℕ → RqRes
no_rq queue_id = record { rq_page = no_page; dbr_page = no_page; rq = new_rq queue_id }

abbrev pub rq_dma_bytes : ℕ
rq_dma_bytes = rq_wqe_count * 16

abbrev pub rq_page_count : ℕ
rq_page_count = 16

unfoldable pub create_rq_in : (pd counter_set_id cqn dbr_iova ring_iova : ℕ) → Bytes
create_rq_in pd counter_set_id cqn dbr_iova ring_iova =
    let context : Bytes =
      put8 0x2c counter_set_id (put_be32 0x28 (low_bits cqn 24) (command 0x908)) in
    let wq : Bytes = put8 0x73 12 (
      put8 0x71 4 (
        put_be64 0x60 dbr_iova (put_be32 0x58 (low_bits pd 24) (put8 0x50 (1 * 2 ^ 4) context)))) in
    fill_pas 0x110 ring_iova rq_page_count wq

-- The pages, both or none.
unfoldable pub alloc_rq_pages : ℕ → Host → Option (DmaPage × DmaPage) × Host
alloc_rq_pages queue_id h =
    let (ring, h1) = dma_region_alloc (rq_iova queue_id) rq_dma_bytes h in
    let (dbr, h2) = dma_page_alloc (rq_iova queue_id + 0x00010000) h1 in
    elim ring [
      | none ↦ (none, h1)
      | some r ↦ elim dbr [ none ↦ (none, dma_page_free r h2) | some d ↦ (some (r, d), h2) ]
    ]

-- The two pages of the queue; the ring's goes last.
unfoldable pub free_rq_pages : (ring dbr : DmaPage) → Host → Host
free_rq_pages ring dbr h = dma_page_free ring (dma_page_free dbr h)

unfoldable pub create_rq :
    Firmware → (pd counter_set_id : ℕ) → Cq → (queue_id : ℕ) → Ctx → Bool × RqRes × Ctx
create_rq fw pd counter_set_id cq queue_id ctx =
    let (pages, host) = alloc_rq_pages queue_id ctx.host in
    if not cq.valid then (false, no_rq queue_id, ctx) else elim pages [
      | none ↦ (false, no_rq queue_id, record ctx { host = host })
      | some (r, d) ↦
          let inp : Bytes = create_rq_in pd counter_set_id cq.cqn d.iova r.iova in
          let (done, out, ctx') = cmd_exec fw inp 0x210 16 (record ctx { host = host }) in
          if done
          then (
            true,
            record {
              rq_page = r;
              dbr_page = d;
              rq = record (new_rq queue_id) { rqn = id24 out; valid = true };
            },
            ctx',
          )
          else (false, no_rq queue_id, record ctx' { host = free_rq_pages r d ctx'.host })
    ]

unfoldable pub modify_rq_ready_in : ℕ → Bytes
modify_rq_ready_in rqn =
    put8 0x21 (1 * 2 ^ 4) (put_be32 8 (0 * 2 ^ 28 + low_bits rqn 24) (command 0x909))

unfoldable pub modify_rq_ready : Firmware → Rq → Ctx → Bool × Ctx
modify_rq_ready fw rq ctx =
    if not rq.valid then (false, ctx) else exec_done fw (modify_rq_ready_in rq.rqn) 0x220 ctx

-- The loop over the RX buffers from slot `i` on, with `left` slots to go.
unfoldable pub free_buffers : (left i : ℕ) → (ℕ → DmaPage) → Host → Host
free_buffers zero i pages h = h
free_buffers (suc left) i pages h = free_buffers left (i + 1) pages (dma_page_free (pages i) h)

unfoldable pub free_rq : RqRes → Host → Host
free_rq res h =
    free_rq_pages res.rq_page res.dbr_page (free_buffers rq_wqe_count 0 res.rq.rx_pages h)

unfoldable pub destroy_rq : Firmware → RqRes → Ctx → Bool × RqRes × Ctx
destroy_rq fw res ctx =
    let (done, ctx') = exec_done fw (command_on 0x90a res.rq.rqn) 16 ctx in
    let dropped : RqRes = record {
      rq_page = no_page;
      dbr_page = no_page;
      rq = record res.rq { rx_pages = λ s. no_page };
    } in
    if res.rq.valid
    then (
      done,
      record dropped { rq = record dropped.rq { valid = not done } },
      record ctx' { host = free_rq res ctx'.host },
    )
    else (true, dropped, record ctx { host = free_rq res ctx.host })
