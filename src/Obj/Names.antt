-- ===== src/Obj/Names.antt =====
-- About the object numbers in creation and destruction commands.
use mlx_nic_driver.Base.{ℕ, ◌*◌, ◌/◌, ◌%◌, ◌^◌, ◌<◌, ◌≡◌, ◌∙◌, refl, arith, some}
use mlx_nic_driver.Word.{Bytes, get_be16, get_be32, zeroed}
use mlx_nic_driver.Word.Laws.{get_be32-put_be32, get_be16-put_be16, get_be16_same, put_be32_outside}
use mlx_nic_driver.Cmd.{Firmware, Ctx, cmd_exec}
use mlx_nic_driver.Obj.{command, command_on, id24, exec_done}
use mlx_nic_driver.Obj.Ids.{create_pa_mkey, create_pa_mkey_in, destroy_mkey}

pub command_on_lem :
    (op id : ℕ)
    → op < 2 ^ 16
    → (get_be16 (command_on op id) 0 ≡ op) × (get_be32 (command_on op id) 8 ≡ id % 2 ^ 24)
command_on_lem op id fits = (
  get_be16_same (command_on op id) (command op) 0
        (λ i lo hi. put_be32_outside (command op) 8 (id % 2 ^ 24) i (omega arith))
      ∙ get_be16-put_be16 zeroed 0 op fits,
  get_be32-put_be32 (command op) 8 (id % 2 ^ 24) (omega arith),
)

-- A memory key that a creation yields is a multiple of 256 below 2^32, and destroying it is a
-- command with opcode 0x202 for the very index that the firmware's reply gave.
pub destroy_mkey-create_pa_mkey :
    (fw fw' : Firmware) (pd mkey : ℕ) (ctx ctx' : Ctx)
    → create_pa_mkey fw pd ctx ≡ (some mkey, ctx')
    → (inp : Bytes) × (destroy_mkey fw' mkey ctx' ≡ exec_done fw' inp 16 ctx')
      × (get_be16 inp 0 ≡ 0x202)
      × (get_be32 inp 8 ≡ id24 (cmd_exec fw (create_pa_mkey_in pd) 0x110 16 ctx).1)
      × (mkey % 256 ≡ 0)
      × (mkey < 2 ^ 32)
unfolding create_pa_mkey destroy_mkey
destroy_mkey-create_pa_mkey fw fw' pd mkey ctx ctx' e =
    let index = id24 (cmd_exec fw (create_pa_mkey_in pd) 0x110 16 ctx).1 in
    let key : mkey ≡ index * 2 ^ 8 % 2 ^ 32 = ground arith in
    let named = command_on_lem 0x202 (mkey / 2 ^ 8) (omega arith) in
    (
      command_on 0x202 (mkey / 2 ^ 8),
      refl,
      named.0,
      named.1 ∙ omega arith,
      omega arith,
      omega arith,
    )
