-- ===== src/Obj/Cqs.antt =====
-- Completion queues: `mlx5_ctx_create_cq` and `mlx5_ctx_destroy_cq`.
use mlx_nic_driver.Base.{ℕ, ◌*◌, Bool, true, false, not, Option, none, some, if◌then◌else◌}
use mlx_nic_driver.Word.{Bytes, zeroed, shr, put8, put_be32, put_be64}
use mlx_nic_driver.Dma.{
  DmaPage, no_page, Host, dma_region_alloc, dma_page_alloc, dma_page_free, fill_pas,
}
use mlx_nic_driver.Cq.{Cq, cq_cqe_count, cqe_size}
use mlx_nic_driver.Cmd.{Firmware, Ctx, cmd_exec}
use mlx_nic_driver.Obj.{command, command_on, id24, exec_done}
use mlx_nic_driver.Obj.Ids.{Eq}

-- `struct mlx5_cq_res`: its two pages, what the ring's bytes are, and what the datapath uses.
pub record CqRes : Type 0 where
  pub cq_page : DmaPage
  pub dbr_page : DmaPage
  pub ring : Bytes
  pub cq : Cq

abbrev pub no_cq : CqRes
no_cq = record {
  cq_page = no_page;
  dbr_page = no_page;
  ring = zeroed;
  cq = record { dbr = zeroed; cqn = 0; cons_index = 0; valid = false };
}

abbrev pub cq_dma_bytes : ℕ
cq_dma_bytes = cq_cqe_count * cqe_size

abbrev pub cq_page_count : ℕ
cq_page_count = 32

unfoldable pub create_cq_in : (uar eqn dbr_iova cq_iova : ℕ) → Bytes
create_cq_in uar eqn dbr_iova cq_iova = fill_pas 0x110 cq_iova cq_page_count (
    put_be64 0x48 dbr_iova (
      put8 0x28 0 (
        put_be32 0x24 eqn (
          put8 0x1f uar
            (put8 0x1e (shr uar 8) (put8 0x1d (shr uar 16) (put8 0x1c 11 (command 0x400))))))))

-- The pages, both or none.
unfoldable pub alloc_cq_pages : (cq_iova dbr_iova : ℕ) → Host → Option (DmaPage × DmaPage) × Host
alloc_cq_pages cq_iova dbr_iova h =
    let (ring, h1) = dma_region_alloc cq_iova cq_dma_bytes h in
    let (dbr, h2) = dma_page_alloc dbr_iova h1 in
    elim ring [
      | none ↦ (none, h1)
      | some r ↦ elim dbr [ none ↦ (none, dma_page_free r h2) | some d ↦ (some (r, d), h2) ]
    ]

unfoldable pub free_cq_pages : (ring dbr : DmaPage) → Host → Host
free_cq_pages ring dbr h = dma_page_free ring (dma_page_free dbr h)

unfoldable pub create_cq :
    Firmware → (uar : ℕ) → Eq → (cq_iova dbr_iova : ℕ) → Ctx → Bool × CqRes × Ctx
create_cq fw uar eq cq_iova dbr_iova ctx =
    let (pages, host) = alloc_cq_pages cq_iova dbr_iova ctx.host in
    if not eq.valid then (false, no_cq, ctx) else elim pages [
      | none ↦ (false, no_cq, record ctx { host = host })
      | some (r, d) ↦
          let (done, out, ctx') =
            cmd_exec fw (create_cq_in uar eq.eqn d.iova r.iova) 0x210 16
              (record ctx { host = host }) in
          if done
          then (
            true,
            record {
              cq_page = r;
              dbr_page = d;
              ring = λ i. 0xff;
              cq = record { dbr = zeroed; cqn = id24 out; cons_index = 0; valid = true };
            },
            ctx',
          )
          else (false, no_cq, record ctx' { host = free_cq_pages r d ctx'.host })
    ]

unfoldable pub destroy_cq : Firmware → CqRes → Ctx → Bool × CqRes × Ctx
destroy_cq fw res ctx =
    let (done, ctx') = exec_done fw (command_on 0x401 res.cq.cqn) 16 ctx in
    let dropped : CqRes = record res { cq_page = no_page; dbr_page = no_page } in
    if res.cq.valid
    then (
      done,
      record dropped { cq = record res.cq { valid = not done } },
      record ctx' { host = free_cq_pages res.cq_page res.dbr_page ctx'.host },
    )
    else (true, dropped, record ctx { host = free_cq_pages res.cq_page res.dbr_page ctx.host })
