-- ===== src/Cmd.antt =====
-- The command interface: `mlx5_cmd_exec` of src/mlx5.c. The firmware is not this program's code:
-- it is an argument, a function from the memory that it finds at a doorbell to its answer.
-- Prints, barriers and pauses have no effect on the state.
pub mod Desc
pub mod Request
pub mod Reply
pub mod Token
use mlx_nic_driver.Base.{
  ℕ, zero, suc, ◌+◌, ◌-◌, ◌*◌, ◌%◌, ◌^◌, Bool, true, false, not, ◌&&◌, ◌||◌, Option, none, some,
  List, ltb, ◌==◌, if◌then◌else◌,
}
use mlx_nic_driver.Word.{
  Bytes, u8, u32, low_bits, zeroed, put8, put_be32, put_be64, memset, memcpy, xor8, not8,
}
use mlx_nic_driver.Dma.{DmaPage, Host}
use mlx_nic_driver.Mbox.{
  Source, mbox_size, mbox_stride, num_blocks_for_extra, setup_mailbox_chain,
  copy_from_mailbox_chain,
}

abbrev pub desc_size : ℕ
desc_size = 64

abbrev pub pci_cmd_xport : ℕ
pci_cmd_xport = 7

abbrev pub poll_count : ℕ
poll_count = 1000000

-- The firmware's answer: the first `after` reads of the status byte still find the descriptor as
-- the driver left it, all later ones find `desc`, and then `outbox` stands too.
pub record Answer : Type 0 where
  pub after : ℕ
  pub desc : Bytes
  pub outbox : Bytes

-- The number of the command, the descriptor, the input mailbox and the output mailbox.
abbrev pub Firmware : Type 0
Firmware = ℕ → Bytes → Bytes → Bytes → Answer

-- `struct mlx5_cmd_ctx`, with the memory of the command queue's entry and of both mailboxes.
-- `commands` counts the doorbells rung so far.
pub record Ctx : Type 0 where
  pub desc : Bytes
  pub inbox : Bytes
  pub outbox : Bytes
  pub inbox_iova : ℕ
  pub outbox_iova : ℕ
  pub token : ℕ
  pub commands : ℕ
  pub fw_pages : List DmaPage
  pub host : Host

-- The token of this command, and the one that is stored.
unfoldable pub take_token : ℕ → ℕ × ℕ
take_token t =
    let bumped : ℕ = if u8 (t + 1) == 0 then 1 else u8 (t + 1) in
    if t == 0 then (bumped, u8 (bumped + 1)) else (t, bumped)

abbrev pub inline_len : ℕ → ℕ
inline_len len = if ltb len 16 then len else 16

abbrev pub extra_len : ℕ → ℕ
extra_len len = if ltb 16 len then len - 16 else 0

abbrev pub too_large : ℕ → Bool
too_large extra = ltb mbox_size (num_blocks_for_extra extra * mbox_stride)

unfoldable pub start_desc : Bytes → ℕ → Bytes → Bytes
start_desc inp in_len desc =
    memcpy 16 inp 0 (inline_len in_len)
      (put_be32 4 (u32 in_len) (put8 0 pci_cmd_xport (memset 0 0 desc_size desc)))

-- A mailbox, if there is data beyond the inline bytes; its address goes to `at`.
unfoldable pub attach :
    (at iova : ℕ) → Source → (extra token : ℕ) → Bytes → Bytes → Option (Bytes × Bytes)
attach at iova src extra token mbox desc =
    if extra == 0 then some (mbox, desc) else elim (setup_mailbox_chain iova src extra token mbox) [
      | none ↦ none
      | some mbox' ↦ some (mbox', put_be64 at iova desc)
    ]

-- The descriptor handed over to the hardware, and its signature.
unfoldable pub own_desc : (out_len token : ℕ) → Bytes → Bytes
own_desc out_len token desc = put8 63 1 (put8 60 token (put_be32 56 (u32 out_len) desc))

unfoldable pub sign_desc : Bytes → Bytes
sign_desc desc = put8 61 (not8 (xor8 desc 0 desc_size)) desc

abbrev pub is_hw : Bytes → Bool
is_hw desc = low_bits (desc 63) 1 == 1

-- The descriptor at the r-th read.
abbrev pub seen : Bytes → Answer → ℕ → Bytes
seen desc answer r = if ltb r answer.after then desc else answer.desc

-- The polling loop: the number of reads when it is left.
unfoldable pub wait_owner : ℕ → ℕ → Bytes → Answer → ℕ
wait_owner zero r desc answer = r
wait_owner (suc left) r desc answer = elim (is_hw (seen desc answer r)) [
  | true ↦ wait_owner left (r + 1) desc answer
  | false ↦ r + 1
]

-- What the caller finds in `out`.
unfoldable pub collect : ℕ → Bytes → Bytes → Bytes
collect out_len desc outbox =
    let inline : Bytes = memcpy 0 desc 32 (inline_len out_len) zeroed in
    if extra_len out_len == 0
    then inline
    else copy_from_mailbox_chain (extra_len out_len) outbox 16 inline

-- From the doorbell on. True is the return of 0; the bytes are those of `out`, which every caller
-- passes zeroed.
unfoldable pub submit : Firmware → ℕ → Ctx → Bool × Bytes × Ctx
submit fw out_len ctx =
    let answer : Answer = fw ctx.commands ctx.desc ctx.inbox ctx.outbox in
    let reads : ℕ = wait_owner poll_count 0 ctx.desc answer in
    let desc' : Bytes = seen ctx.desc answer reads in
    let outbox' : Bytes = if ltb reads answer.after then ctx.outbox else answer.outbox in
    let out : Bytes = collect out_len desc' outbox' in
    let ctx' : Ctx = record ctx { desc = desc'; outbox = outbox'; commands = ctx.commands + 1 } in
    if is_hw desc'
    then (false, zeroed, ctx')
    else if ltb 0 out_len && not (out 0 == 0)
    then (false, out, ctx')
    else (true, out, ctx')

unfoldable pub cmd_exec : Firmware → Bytes → (in_len out_len : ℕ) → Ctx → Bool × Bytes × Ctx
cmd_exec fw inp in_len out_len ctx =
    let (token, next) = take_token ctx.token in
    let taken : Ctx = record ctx { token = next } in
    let desc0 : Bytes = start_desc inp in_len ctx.desc in
    let inbox0 : Bytes = memset 0 0 mbox_size ctx.inbox in
    let outbox0 : Bytes = memset 0 0 mbox_size ctx.outbox in
    let cleared : Ctx = record taken { desc = desc0; inbox = inbox0; outbox = outbox0 } in
    if too_large (extra_len in_len) || too_large (extra_len out_len)
    then (false, zeroed, taken)
    else elim (attach 8 ctx.inbox_iova (some (inp, 16)) (extra_len in_len) token inbox0 desc0) [
      | none ↦ (false, zeroed, cleared)
      | some (inbox1, desc1) ↦
          elim (attach 48 ctx.outbox_iova none (extra_len out_len) token outbox0 desc1) [
            | none ↦ (false, zeroed, record cleared { desc = desc1; inbox = inbox1 })
            | some (outbox1, desc2) ↦ submit fw out_len (record taken {
              desc = sign_desc (own_desc out_len token desc2);
              inbox = inbox1;
              outbox = outbox1;
            })
          ]
    ]
