-- ===== src/Obj/Steer.antt =====
-- Receive steering: the RQ table, the TIR, the flow table, its group and its entry.
use mlx_nic_driver.Base.{
  ℕ, zero, suc, ◌+◌, ◌*◌, ◌%◌, ◌^◌, Bool, true, false, not, ◌||◌, Option, none, some, ◌==◌,
  if◌then◌else◌,
}
use mlx_nic_driver.Word.{Bytes, low_bits, shr, put8, put_be16, put_be32}
use mlx_nic_driver.Rq.{Rq}
use mlx_nic_driver.Cmd.{Firmware, Ctx, cmd_exec}
use mlx_nic_driver.Obj.{command, command_on, exec_id, exec_done}

abbrev pub rqt_entry_count : ℕ
rqt_entry_count = 16

-- `struct mlx5_rqt_res`, `mlx5_tir_res`, `mlx5_flow_table_res`, `mlx5_flow_group_res` and
-- `mlx5_fte_res` are a number and whether it is valid.
pub record Res : Type 0 where
  pub id : ℕ
  pub valid : Bool

abbrev pub no_res : Res
no_res = record { id = 0; valid = false }

abbrev pub made : Option ℕ × Ctx → Bool × Res × Ctx
made (none, ctx) = (false, no_res, ctx)
made (some id, ctx) = (true, record { id = id; valid = true }, ctx)

abbrev pub dropped : Res → Bool × Ctx → Bool × Res × Ctx
dropped res (done, ctx) = (done, record res { valid = if done then false else res.valid }, ctx)

unfoldable pub fill_rqt : (left i queue_count : ℕ) → (ℕ → Rq) → Bytes → Bytes
fill_rqt zero i queue_count rqs p = p
fill_rqt (suc left) i queue_count rqs p =
    fill_rqt left (i + 1) queue_count rqs
      (put_be32 (0x20 + 0xf0 + i * 4) (low_bits (rqs (i % queue_count)).rqn 24) p)

unfoldable pub create_rqt_in : ℕ → (ℕ → Rq) → Bytes
create_rqt_in queue_count rqs =
    fill_rqt rqt_entry_count 0 queue_count rqs
      (put_be16 0x3a rqt_entry_count (put_be16 0x36 rqt_entry_count (command 0x916)))

unfoldable pub create_rqt : Firmware → (ℕ → Rq) → ℕ → Ctx → Bool × Res × Ctx
create_rqt fw rqs queue_count ctx =
    if queue_count == 0 || not (rqs 0).valid
    then (false, no_res, ctx)
    else made (exec_id fw (create_rqt_in queue_count rqs) (0x110 + rqt_entry_count * 4) ctx)

unfoldable pub destroy_rqt : Firmware → Res → Ctx → Bool × Res × Ctx
destroy_rqt fw rqt ctx =
    if not rqt.valid
    then (true, rqt, ctx)
    else dropped rqt (exec_done fw (command_on 0x918 rqt.id) 16 ctx)

unfoldable pub put_tdn : ℕ → Bytes → Bytes
put_tdn tdn p = put8 0x47 tdn (put8 0x46 (shr tdn 8) (put8 0x45 (shr tdn 16) p))

unfoldable pub create_direct_tir : Firmware → ℕ → Rq → Ctx → Bool × Res × Ctx
create_direct_tir fw tdn rq ctx =
    if not rq.valid
    then (false, no_res, ctx)
    else made
        (exec_id fw (put_tdn tdn (put_be32 0x3c (low_bits rq.rqn 24) (command 0x900))) 0x110 ctx)

-- Indirect dispatch over the table by the UDP/IPv4 four-tuple, with the inverted XOR hash.
unfoldable pub create_indirect_tir_in : (tdn rqtn : ℕ) → Bytes
create_indirect_tir_in tdn rqtn = put_tdn tdn (
    put_be32 0x70 0x4000000f
      (put8 0x44 0x10 (put_be32 0x40 (low_bits rqtn 24) (put8 0x24 0x10 (command 0x900)))))

unfoldable pub create_indirect_tir : Firmware → ℕ → Res → Ctx → Bool × Res × Ctx
create_indirect_tir fw tdn rqt ctx =
    if not rqt.valid
    then (false, no_res, ctx)
    else made (exec_id fw (create_indirect_tir_in tdn rqt.id) 0x110 ctx)

unfoldable pub destroy_tir : Firmware → Res → Ctx → Bool × Res × Ctx
destroy_tir fw tir ctx =
    if not tir.valid
    then (true, tir, ctx)
    else dropped tir (exec_done fw (command_on 0x902 tir.id) 16 ctx)

-- A command on a flow table of the NIC's receive side.
abbrev pub on_table : (op table_id : ℕ) → Bytes
on_table op table_id = put_be32 0x14 (low_bits table_id 24) (put8 0x10 0 (command op))

unfoldable pub create_rx_flow_table : Firmware → Ctx → Bool × Res × Ctx
create_rx_flow_table fw ctx =
    made (exec_id fw (put8 0x1b 0 (put8 0x19 0 (put8 0x10 0 (command 0x930)))) 0x40 ctx)

unfoldable pub destroy_rx_flow_table : Firmware → Res → Ctx → Bool × Res × Ctx
destroy_rx_flow_table fw ft ctx =
    if not ft.valid
    then (true, ft, ctx)
    else dropped ft (exec_done fw (on_table 0x931 ft.id) 32 ctx)

unfoldable pub create_rx_flow_group : Firmware → Res → Ctx → Bool × Res × Ctx
create_rx_flow_group fw ft ctx =
    if not ft.valid
    then (false, no_res, ctx)
    else made (
        exec_id fw (put8 0x3f 0 (put_be32 0x20 0 (put_be32 0x18 0 (on_table 0x933 ft.id)))) 0x2000
          ctx)

unfoldable pub destroy_rx_flow_group : Firmware → (ft fg : Res) → Ctx → Bool × Res × Ctx
destroy_rx_flow_group fw ft fg ctx =
    if not fg.valid
    then (true, fg, ctx)
    else if not ft.valid
    then (false, fg, ctx)
    else dropped fg (exec_done fw (put_be32 0x18 fg.id (on_table 0x934 ft.id)) 0x200 ctx)

unfoldable pub set_rx_flow_table_root : Firmware → Res → Ctx → Bool × Ctx
set_rx_flow_table_root fw ft ctx =
    let (done, out, ctx') = cmd_exec fw (on_table 0x92f ft.id) 0x80 0x80 ctx in
    if not ft.valid then (false, ctx) else (done, ctx')

-- Forward what comes from the uplink to the TIR.
unfoldable pub set_rx_fte_in : (table_id group_id tirn : ℕ) → Bytes
set_rx_fte_in table_id group_id tirn = put_be32 0x340 (2 * 2 ^ 24 + low_bits tirn 24) (
    put_be32 0x50 (1 * 2 ^ 28 + 1)
      (put_be32 0x4c 4 (put_be32 0x44 group_id (put_be32 0x20 0 (on_table 0x936 table_id)))))

unfoldable pub set_rx_fte_to_tir : Firmware → (ft fg tir : Res) → Ctx → Bool × Res × Ctx
set_rx_fte_to_tir fw ft fg tir ctx =
    let (done, ctx') = exec_done fw (set_rx_fte_in ft.id fg.id tir.id) 0x348 ctx in
    if not ft.valid || not fg.valid || not tir.valid
    then (false, no_res, ctx)
    else if done
    then (true, record { id = 0; valid = true }, ctx')
    else (false, no_res, ctx')

unfoldable pub delete_rx_fte : Firmware → (ft fte : Res) → Ctx → Bool × Res × Ctx
delete_rx_fte fw ft fte ctx =
    if not fte.valid
    then (true, fte, ctx)
    else if not ft.valid
    then (false, fte, ctx)
    else dropped fte (exec_done fw (put_be32 0x20 fte.id (on_table 0x938 ft.id)) 0x40 ctx)
