-- ===== src/Obj/Ids.antt =====
-- Objects that are a number: UAR, protection domain, counter set, transport domain, TIS and
-- memory key; and the event queue, which has a page.
use mlx_nic_driver.Base.{ℕ, ◌+◌, ◌*◌, ◌^◌, Bool, true, false, Option, none, some, if◌then◌else◌}
use mlx_nic_driver.Word.{Bytes, u32, low_bits, shr, put8, put_be32, put_be64, get_be32}
use mlx_nic_driver.Dma.{DmaPage, no_page, dma_page_alloc, dma_page_free}
use mlx_nic_driver.Cmd.{Firmware, Ctx, cmd_exec}
use mlx_nic_driver.Obj.{command, command_on, exec_id, exec_done}

unfoldable pub init_hca : Firmware → Ctx → Bool × Ctx
init_hca fw ctx = exec_done fw (command 0x102) 32 ctx

unfoldable pub alloc_uar : Firmware → Ctx → Option ℕ × Ctx
alloc_uar fw ctx = exec_id fw (command 0x802) 16 ctx

unfoldable pub dealloc_uar : Firmware → ℕ → Ctx → Bool × Ctx
dealloc_uar fw uar ctx = exec_done fw (command_on 0x803 uar) 16 ctx

unfoldable pub alloc_pd : Firmware → Ctx → Option ℕ × Ctx
alloc_pd fw ctx = exec_id fw (command 0x800) 16 ctx

unfoldable pub dealloc_pd : Firmware → ℕ → Ctx → Bool × Ctx
dealloc_pd fw pd ctx = exec_done fw (command_on 0x801 pd) 16 ctx

unfoldable pub alloc_q_counter : Firmware → Ctx → Option ℕ × Ctx
alloc_q_counter fw ctx =
    let (done, out, ctx') = cmd_exec fw (command 0x771) 16 16 ctx in
    (if done then some (out 0x0b) else none, ctx')

unfoldable pub dealloc_q_counter : Firmware → ℕ → Ctx → Bool × Ctx
dealloc_q_counter fw counter_set_id ctx =
    exec_done fw (put8 0x0b counter_set_id (command 0x772)) 16 ctx

unfoldable pub alloc_transport_domain : Firmware → Ctx → Option ℕ × Ctx
alloc_transport_domain fw ctx = exec_id fw (command 0x816) 16 ctx

unfoldable pub dealloc_transport_domain : Firmware → ℕ → Ctx → Bool × Ctx
dealloc_transport_domain fw tdn ctx = exec_done fw (command_on 0x817 tdn) 16 ctx

unfoldable pub create_tis_in : ℕ → Bytes
create_tis_in tdn = put_be32 (0x100 + 0x120) (low_bits tdn 24) (command 0x912)

unfoldable pub create_tis : Firmware → ℕ → Ctx → Option ℕ × Ctx
create_tis fw tdn ctx = exec_id fw (create_tis_in tdn) 0x600 ctx

unfoldable pub destroy_tis : Firmware → ℕ → Ctx → Bool × Ctx
destroy_tis fw tisn ctx = exec_done fw (command_on 0x914 tisn) 16 ctx

-- The key context: lw and lr, all queue pairs, length64, and the protection domain.
unfoldable pub create_pa_mkey_in : ℕ → Bytes
create_pa_mkey_in pd = put8 0x1f pd (
    put8 0x1e (shr pd 8) (
      put8 0x1d (shr pd 16) (
        put8 0x1c 0x80
          (put8 0x16 0xff (put8 0x15 0xff (put8 0x14 0xff (put8 0x12 0x18 (command 0x200))))))))

-- The key is the index with a low byte of 0.
unfoldable pub create_pa_mkey : Firmware → ℕ → Ctx → Option ℕ × Ctx
create_pa_mkey fw pd ctx =
    let (index, ctx') = exec_id fw (create_pa_mkey_in pd) 0x110 ctx in
    (elim index [ none ↦ none | some i ↦ some (u32 (i * 2 ^ 8)) ], ctx')

unfoldable pub destroy_mkey : Firmware → ℕ → Ctx → Bool × Ctx
destroy_mkey fw mkey ctx = exec_done fw (command_on 0x202 (shr mkey 8)) 16 ctx

unfoldable pub enable_vport_promisc : Firmware → Ctx → Bool × Ctx
enable_vport_promisc fw ctx =
    let inp : Bytes =
      put_be32 0x1f0 (2 ^ 31 + 2 ^ 30 + 2 ^ 29) (put_be32 0x0c (2 ^ 4) (command 0x755)) in
    let (done, out, ctx') = cmd_exec fw inp 0x200 0x80 ctx in (done, ctx')

-- `struct mlx5_eq_res`.
pub record Eq : Type 0 where
  pub page : DmaPage
  pub eqn : ℕ
  pub valid : Bool

abbrev pub no_eq : Eq
no_eq = record { page = no_page; eqn = 0; valid = false }

-- 16 entries of the UAR, in the one page at `iova`.
unfoldable pub create_eq_in : (uar iova : ℕ) → Bytes
create_eq_in uar iova = put_be64 0x110 iova (
    put8 0x28 0 (
      put8 0x27 0 (
        put8 0x1f uar
          (put8 0x1e (shr uar 8) (put8 0x1d (shr uar 16) (put8 0x1c 4 (command 0x301)))))))

unfoldable pub create_eq : Firmware → ℕ → Ctx → Bool × Eq × Ctx
create_eq fw uar ctx =
    let (page, host) = dma_page_alloc 0x07200000 ctx.host in
    elim page [
      | none ↦ (false, no_eq, record ctx { host = host })
      | some p ↦
          let (done, out, ctx') =
            cmd_exec fw (create_eq_in uar p.iova) 0x118 16 (record ctx { host = host }) in
          if done
          then (true, record { page = p; eqn = low_bits (get_be32 out 8) 8; valid = true }, ctx')
          else (false, no_eq, record ctx' { host = dma_page_free p ctx'.host })
    ]

unfoldable pub destroy_eq : Firmware → Eq → Ctx → Bool × Eq × Ctx
destroy_eq fw eq ctx =
    let (done, ctx') = exec_done fw (put8 0x0b eq.eqn (command 0x302)) 16 ctx in
    if eq.valid
    then (
      done,
      record eq { page = no_page; valid = if done then false else true },
      record ctx' { host = dma_page_free eq.page ctx'.host },
    )
    else (true, record eq { page = no_page }, record ctx { host = dma_page_free eq.page ctx.host })
