-- ===== src/Obj/Sqs.antt =====
-- Send queues: `mlx5_ctx_create_sq`, `mlx5_ctx_modify_sq_ready` and `mlx5_ctx_destroy_sq`.
use mlx_nic_driver.Base.{
  ℕ, ◌+◌, ◌*◌, ◌^◌, Bool, true, false, not, Option, none, some, if◌then◌else◌,
}
use mlx_nic_driver.Word.{Bytes, zeroed, low_bits, put8, put_be16, put_be32, put_be64}
use mlx_nic_driver.Dma.{
  DmaPage, no_page, Host, dma_region_alloc, dma_page_alloc, dma_page_free, fill_pas,
}
use mlx_nic_driver.Cq.{Cq}
use mlx_nic_driver.Sq.{Sq, sq_wqe_count}
use mlx_nic_driver.Cmd.{Firmware, Ctx, cmd_exec}
use mlx_nic_driver.Obj.{command, command_on, id24, exec_done}

-- `struct mlx5_sq_res`: its three pages, and what the datapath uses.
pub record SqRes : Type 0 where
  pub sq_page : DmaPage
  pub dbr_page : DmaPage
  pub tx_page : DmaPage
  pub sq : Sq

abbrev pub no_queue : Sq
no_queue = record {
  ring = zeroed;
  dbr = zeroed;
  sqn = 0;
  prod_index = 0;
  cons_index = 0;
  valid = false;
}

abbrev pub no_sq : SqRes
no_sq = record { sq_page = no_page; dbr_page = no_page; tx_page = no_page; sq = no_queue }

abbrev pub sq_dma_bytes : ℕ
sq_dma_bytes = sq_wqe_count * 2 ^ 6

abbrev pub sq_page_count : ℕ
sq_page_count = 128

abbrev pub sq_iova : ℕ → ℕ
sq_iova queue_id = 0x05000000 + queue_id * 0x00100000

-- The context at 0x20, and the work queue at 0x50 of it.
unfoldable pub create_sq_in : (uar pd tisn cqn dbr_iova ring_iova : ℕ) → Bytes
create_sq_in uar pd tisn cqn dbr_iova ring_iova =
    let context : Bytes =
      put_be32 0x4c (low_bits tisn 24) (
        put_be16 0x40 1 (put_be32 0x28 (low_bits cqn 24) (put8 0x20 (0x10 + 1) (command 0x904)))) in
    let wq : Bytes = put8 0x73 13 (
      put8 0x71 6 (
        put_be64 0x60 dbr_iova (
          put_be32 0x5c (low_bits uar 24)
            (put_be32 0x58 (low_bits pd 24) (put8 0x50 (1 * 2 ^ 4) context))))) in
    fill_pas 0x110 ring_iova sq_page_count wq

-- The pages, all three or none.
unfoldable pub alloc_sq_pages : ℕ → Host → Option (DmaPage × DmaPage × DmaPage) × Host
alloc_sq_pages queue_id h =
    let (ring, h1) = dma_region_alloc (sq_iova queue_id) sq_dma_bytes h in
    let (dbr, h2) = dma_page_alloc (sq_iova queue_id + 0x00080000) h1 in
    let (tx, h3) = dma_page_alloc (sq_iova queue_id + 0x00081000) h2 in
    elim ring [
      | none ↦ (none, h1)
      | some r ↦ elim dbr [
        | none ↦ (none, dma_page_free r h2)
        | some d ↦ elim tx [
          | none ↦ (none, dma_page_free r (dma_page_free d h3))
          | some t ↦ (some (r, d, t), h3)
        ]
      ]
    ]

unfoldable pub free_sq_pages : (ring dbr tx : DmaPage) → Host → Host
free_sq_pages ring dbr tx h = dma_page_free ring (dma_page_free dbr (dma_page_free tx h))

unfoldable pub create_sq :
    Firmware → (uar pd tisn : ℕ) → Cq → (queue_id : ℕ) → Ctx → Bool × SqRes × Ctx
create_sq fw uar pd tisn cq queue_id ctx =
    let (pages, host) = alloc_sq_pages queue_id ctx.host in
    if not cq.valid then (false, no_sq, ctx) else elim pages [
      | none ↦ (false, no_sq, record ctx { host = host })
      | some (r, d, t) ↦
          let inp : Bytes = create_sq_in uar pd tisn cq.cqn d.iova r.iova in
          let (done, out, ctx') = cmd_exec fw inp 0x510 16 (record ctx { host = host }) in
          if done
          then (
            true,
            record {
              sq_page = r;
              dbr_page = d;
              tx_page = t;
              sq = record no_queue { sqn = id24 out; valid = true };
            },
            ctx',
          )
          else (false, no_sq, record ctx' { host = free_sq_pages r d t ctx'.host })
    ]

unfoldable pub modify_sq_ready_in : ℕ → Bytes
modify_sq_ready_in sqn =
    put8 0x21 (1 * 2 ^ 4) (put_be32 8 (0 * 2 ^ 28 + low_bits sqn 24) (command 0x905))

unfoldable pub modify_sq_ready : Firmware → Sq → Ctx → Bool × Ctx
modify_sq_ready fw sq ctx =
    if not sq.valid then (false, ctx) else exec_done fw (modify_sq_ready_in sq.sqn) 0x220 ctx

unfoldable pub destroy_sq : Firmware → SqRes → Ctx → Bool × SqRes × Ctx
destroy_sq fw res ctx =
    let (done, ctx') = exec_done fw (command_on 0x906 res.sq.sqn) 16 ctx in
    let dropped : SqRes = record res { sq_page = no_page; dbr_page = no_page; tx_page = no_page } in
    if res.sq.valid
    then (
      done,
      record dropped { sq = record res.sq { valid = not done } },
      record ctx' { host = free_sq_pages res.sq_page res.dbr_page res.tx_page ctx'.host },
    )
    else (
      true,
      dropped,
      record ctx { host = free_sq_pages res.sq_page res.dbr_page res.tx_page ctx.host },
    )
