-- ===== src/Pages.antt =====
-- Pages for the firmware: `mlx5_ctx_give_pages` of src/mlx5.c.
pub mod Numbered
use mlx_nic_driver.Base.{
  ℕ, zero, suc, ◌+◌, ◌-◌, ◌*◌, ◌%◌, ◌^◌, Bool, true, false, ◌||◌, Option, none, some, List, [], ◌∷◌,
  ◌++◌, ltb, ◌==◌, if◌then◌else◌, length,
}
use mlx_nic_driver.Word.{Bytes, zeroed, put_be16, put_be32, put_be64}
use mlx_nic_driver.Dma.{DmaPage, Host, alloc_aligned_zero, vfio_dma_map, free_block}
use mlx_nic_driver.Cmd.{Firmware, Ctx, cmd_exec}
use mlx_nic_driver.Obj.{exec_done}

abbrev pub max_fw_pages : ℕ
max_fw_pages = 8192

abbrev pub fw_iova_base : ℕ
fw_iova_base = 0x03000000

-- A round of the loop: allocate, map, remember. `none` is the early return of -1.
unfoldable pub give_one : (iova : ℕ) → Ctx → Bool × Ctx
give_one iova ctx =
    let (block, h1) = alloc_aligned_zero ctx.host in
    let (mapped, h2) = vfio_dma_map iova 4096 h1 in
    elim block [
      | none ↦ (false, record ctx { host = h1 })
      | some addr ↦
          let page : DmaPage = record { addr = addr; iova = iova; len = 4096 } in
          if mapped
          then (true, record ctx { host = h2; fw_pages = ctx.fw_pages ++ (page ∷ []) })
          else (false, record ctx { host = free_block addr h2 })
    ]

-- The loop at page `i`, with `left` pages to go, filling the list in `inp`.
unfoldable pub give_loop : (left i base_iova : ℕ) → Bytes → Ctx → Bool × Bytes × Ctx
give_loop zero i base_iova inp ctx = (true, inp, ctx)
give_loop (suc left) i base_iova inp ctx =
    let (got, ctx') = give_one (base_iova + i * 4096) ctx in
    elim got [
      | true ↦
          give_loop left (i + 1) base_iova (put_be64 (0x10 + i * 8) (base_iova + i * 4096) inp) ctx'
      | false ↦ (false, inp, ctx')
    ]

unfoldable pub give_pages : Firmware → (function_id num_pages : ℕ) → Ctx → Bool × Ctx
give_pages fw function_id num_pages ctx =
    let count : ℕ = length ctx.fw_pages in
    let (got, list, ctx') = give_loop num_pages 0 (fw_iova_base + count * 4096) zeroed ctx in
    let inp : Bytes =
      put_be32 0x0c num_pages
        (put_be16 0x0a function_id (put_be16 0x06 1 (put_be16 0 0x108 list))) in
    if num_pages == 0
    then (true, ctx)
    else if ltb max_fw_pages num_pages || ltb max_fw_pages (count + num_pages)
    then (false, ctx)
    else if got
    then exec_done fw inp (16 + num_pages * 8) ctx'
    else (false, ctx')
