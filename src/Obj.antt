-- ===== src/Obj.antt =====
-- The objects of the device that src/mlx5.c creates and destroys by commands. An operation takes
-- the firmware and the command context and yields what goes to the caller, with the new context.
-- `true` is the return of 0.
pub mod Ids
pub mod Setup
pub mod Cqs
pub mod Sqs
pub mod Rqs
pub mod Steer
pub mod Clean
pub mod Names
pub mod Pas
use mlx_nic_driver.Base.{ℕ, ◌*◌, ◌%◌, ◌^◌, Bool, Option, none, some, if◌then◌else◌}
use mlx_nic_driver.Word.{Bytes, zeroed, low_bits, get_be32, put_be16, put_be32}
use mlx_nic_driver.Cmd.{Firmware, Ctx, cmd_exec}

-- A zeroed input with the opcode.
abbrev pub command : ℕ → Bytes
command op = put_be16 0 op zeroed

-- The same with a 24-bit object number at byte 8.
abbrev pub command_on : ℕ → ℕ → Bytes
command_on op id = put_be32 8 (low_bits id 24) (command op)

-- `get_be32(out + 0x08) & 0x00ffffff`
abbrev pub id24 : Bytes → ℕ
id24 out = low_bits (get_be32 out 8) 24

-- A command with 16 bytes of output that yields an object number.
abbrev pub exec_id : Firmware → Bytes → ℕ → Ctx → Option ℕ × Ctx
exec_id fw inp in_len ctx =
    let (done, out, ctx') = cmd_exec fw inp in_len 16 ctx in
    (if done then some (id24 out) else none, ctx')

-- A command with 16 bytes of output that yields nothing.
abbrev pub exec_done : Firmware → Bytes → ℕ → Ctx → Bool × Ctx
exec_done fw inp in_len ctx = let (done, out, ctx') = cmd_exec fw inp in_len 16 ctx in (done, ctx')
