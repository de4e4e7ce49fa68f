-- ===== src/Mbox.antt =====
-- Mailboxes of the command interface: `setup_mailbox_block`, `sign_mailbox_block`,
-- `setup_mailbox_chain` and `copy_from_mailbox_chain` of src/mlx5.c. A mailbox is a megabyte of
-- pages, of which each holds one block: 512 bytes of data and 64 of control.
pub mod Chain
pub mod Signed
pub mod Copy
pub mod Follow
use mlx_nic_driver.Base.{ℕ, zero, suc, ◌+◌, ◌-◌, ◌*◌, ◌/◌, Option, none, some, ltb, if◌then◌else◌}
use mlx_nic_driver.Word.{Bytes, put8, put_be32, put_be64, memset, memcpy, xor8, not8, u32}

abbrev pub block_size : ℕ
block_size = 512

abbrev pub prot_block_size : ℕ
prot_block_size = 576

abbrev pub mbox_stride : ℕ
mbox_stride = 4096

abbrev pub mbox_size : ℕ
mbox_size = 1048576

unfoldable pub setup_mailbox_block : ℕ → (next_iova block_num token : ℕ) → Bytes → Bytes
setup_mailbox_block block next_iova block_num token p = put8 (block + block_size + 61) token (
    put_be32 (block + block_size + 56) block_num
      (put_be64 (block + block_size + 48) next_iova (memset block 0 prot_block_size p)))

-- The first signature covers the control part, the second the whole block.
unfoldable pub sign_control : ℕ → Bytes → Bytes
sign_control block p =
    put8 (block + block_size + 62)
      (not8 (xor8 p (block + block_size) (prot_block_size - block_size - 2))) p

unfoldable pub sign_mailbox_block : ℕ → Bytes → Bytes
sign_mailbox_block block p =
    put8 (block + prot_block_size - 1)
      (not8 (xor8 (sign_control block p) block (prot_block_size - 1))) (sign_control block p)

unfoldable pub num_blocks_for_extra : ℕ → ℕ
num_blocks_for_extra extra = (extra + block_size - 1) / block_size

-- Where the data of a chain comes from: `none` is NULL.
abbrev pub Source : Type 0
Source = Option (Bytes × ℕ)

-- The data bytes of block `i`.
abbrev pub copy_len : ℕ → ℕ → ℕ
copy_len extra i =
    if ltb block_size (extra - i * block_size) then block_size else extra - i * block_size

-- memcpy(block, src + off, copy), unless src is NULL.
abbrev pub fill_block : Source → ℕ → ℕ → ℕ → Bytes → Bytes
fill_block none block off copy p = p
fill_block (some (src, from)) block off copy p = memcpy block src (from + off) copy p

-- A round of the loop of `setup_mailbox_chain`.
unfoldable pub write_block : (nblocks base_iova : ℕ) → Source → (extra token i : ℕ) → Bytes → Bytes
write_block nblocks base_iova src extra token i p =
    let block : ℕ = i * mbox_stride in
    let next : ℕ = if ltb (i + 1) nblocks then base_iova + (i + 1) * mbox_stride else 0 in
    sign_mailbox_block block (
      fill_block src block (i * block_size) (copy_len extra i)
        (setup_mailbox_block block next (u32 i) token p))

unfoldable pub chain_from :
    (left i nblocks base_iova : ℕ) → Source → (extra token : ℕ) → Bytes → Bytes
chain_from zero i nblocks base_iova src extra token p = p
chain_from (suc left) i nblocks base_iova src extra token p =
    chain_from left (i + 1) nblocks base_iova src extra token
      (write_block nblocks base_iova src extra token i p)

-- `none` is -1.
unfoldable pub setup_mailbox_chain : ℕ → Source → (extra token : ℕ) → Bytes → Option Bytes
setup_mailbox_chain base_iova src extra token mbox =
    let nblocks : ℕ = num_blocks_for_extra extra in
    if ltb mbox_size (nblocks * mbox_stride)
    then none
    else some (chain_from nblocks 0 nblocks base_iova src extra token mbox)

unfoldable pub copy_loop : (left i extra : ℕ) → Bytes → ℕ → Bytes → Bytes
copy_loop zero i extra mbox at dst = dst
copy_loop (suc left) i extra mbox at dst =
    copy_loop left (i + 1) extra mbox at
      (memcpy (at + i * block_size) mbox (i * mbox_stride) (copy_len extra i) dst)

-- To `dst + at`.
unfoldable pub copy_from_mailbox_chain : (extra : ℕ) → Bytes → ℕ → Bytes → Bytes
copy_from_mailbox_chain extra mbox at dst =
    copy_loop (num_blocks_for_extra extra) 0 extra mbox at dst
