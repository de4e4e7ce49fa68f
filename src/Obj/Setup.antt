-- ===== src/Obj/Setup.antt =====
-- The commands that bring the device up before any object is made: `mlx5_ctx_query_issi`,
-- `mlx5_ctx_enable_hca`, `mlx5_ctx_set_issi`, `mlx5_ctx_query_pages`, the capabilities, and the
-- access to the registers DTOR and PAOS. Of a query only what a caller uses is kept.
use mlx_nic_driver.Base.{ℕ, ◌+◌, ◌*◌, Bool, false, ◌||◌, Option, none, some, ltb, if◌then◌else◌}
use mlx_nic_driver.Word.{Bytes, zeroed, put8, put_be16, get_be16, get_be32, memcpy}
use mlx_nic_driver.Cmd.{Firmware, Ctx, cmd_exec}
use mlx_nic_driver.Obj.{command, exec_done}

abbrev pub hca_cap_size : ℕ
hca_cap_size = 4096

unfoldable pub query_issi : Firmware → Ctx → Bool × Ctx
query_issi fw ctx = let (done, out, ctx') = cmd_exec fw (command 0x10a) 16 128 ctx in (done, ctx')

unfoldable pub enable_hca : Firmware → Ctx → Bool × Ctx
enable_hca fw ctx = exec_done fw (command 0x104) 32 ctx

unfoldable pub set_issi : Firmware → Ctx → Bool × Ctx
set_issi fw ctx = exec_done fw (put_be16 0x0a 1 (command 0x10b)) 32 ctx

abbrev pub query_pages_in : Bool → Bytes
query_pages_in boot = put_be16 0x06 (if boot then 1 else 2) (command 0x107)

unfoldable pub query_pages : Firmware → (boot : Bool) → Ctx → Bool × Ctx
query_pages fw boot ctx =
    let (done, out, ctx') = cmd_exec fw (query_pages_in boot) 32 32 ctx in (done, ctx')

-- The query in `mlxnicd_dev_start`: the function and the number of pages that it asks for.
unfoldable pub query_pages_for_give : Firmware → (boot : Bool) → Ctx → Option (ℕ × ℕ) × Ctx
query_pages_for_give fw boot ctx =
    let (done, out, ctx') = cmd_exec fw (query_pages_in boot) 32 32 ctx in
    (if done then some (get_be16 out 0x0a, get_be32 out 0x0c) else none, ctx')

-- A read of a register of the device.
abbrev pub access_reg : ℕ → Bytes
access_reg reg = put_be16 0x0a reg (put_be16 0x06 1 (command 0x805))

unfoldable pub query_dtor : Firmware → Ctx → Bool × Ctx
query_dtor fw ctx =
    let (done, out, ctx') = cmd_exec fw (access_reg 0xc00e) 80 80 ctx in (done, ctx')

unfoldable pub query_paos : Firmware → (local_port : ℕ) → Ctx → Bool × Ctx
query_paos fw local_port ctx =
    let inp : Bytes = put8 17 local_port (access_reg 0x5006) in
    let (done, out, ctx') = cmd_exec fw inp 80 80 ctx in (done, ctx')

-- The first `cap_len` bytes of the capabilities; `none` is -1.
unfoldable pub query_hca_cap_raw : Firmware → (opmod cap_len : ℕ) → Ctx → Option Bytes × Ctx
query_hca_cap_raw fw opmod cap_len ctx =
    let inp : Bytes = put_be16 0x06 opmod (command 0x100) in
    let (done, out, ctx') = cmd_exec fw inp 16 (0x10 + hca_cap_size) ctx in
    if ltb hca_cap_size cap_len || ltb (0x10 + hca_cap_size) (0x10 + cap_len)
    then (none, ctx)
    else (if done then some (memcpy 0 out 0x10 cap_len zeroed) else none, ctx')

unfoldable pub set_hca_cap_raw_in : (cap_type : ℕ) → Bytes → (cap_len : ℕ) → Bytes
set_hca_cap_raw_in cap_type cap cap_len =
    memcpy 0x10 cap 0 cap_len (put_be16 0x06 (cap_type * 2) (command 0x109))

unfoldable pub set_hca_cap_raw :
    Firmware → (cap_type : ℕ) → Bytes → (cap_len : ℕ) → Ctx → Bool × Ctx
set_hca_cap_raw fw cap_type cap cap_len ctx =
    if ltb hca_cap_size cap_len
    then (false, ctx)
    else exec_done fw (set_hca_cap_raw_in cap_type cap cap_len) (0x10 + cap_len) ctx
