-- ===== src/Mbox/Follow.antt =====
-- The chain of `setup_mailbox_chain` as the firmware reads it: by the pointers in the blocks.
use mlx_nic_driver.Base.{
  ℕ, zero, suc, ◌+◌, ◌-◌, ◌*◌, ◌≤◌, ◌<◌, ◌≡◌, ◌∙◌, false, ap, refl, arith, ltb, ◌==◌, if◌then◌else◌,
}
use native.Mathlib.Nat.{zero-add}
use mlx_nic_driver.Word.{Bytes, get_be64, memcpy}
use mlx_nic_driver.Mbox.{copy_len, copy_loop, copy_from_mailbox_chain, num_blocks_for_extra}
use mlx_nic_driver.Mbox.Signed.{IsBlock}

-- `left` bytes, 512 of each block, from the block at the address `addr` on, to `dst + at`. The
-- mailbox starts at the address `base`. A mailbox has 256 pages, which bound the blocks read.
unfoldable pub follow : (blocks base : ℕ) → Bytes → (addr left at : ℕ) → Bytes → Bytes
follow zero base mbox addr left at dst = dst
follow (suc blocks) base mbox addr left at dst =
    let copy : ℕ = if ltb 512 left then 512 else left in
    let next : ℕ = get_be64 mbox (addr - base + 560) in
    let rest =
      follow blocks base mbox next (left - 512) (at + 512)
        (memcpy at mbox (addr - base) copy dst) in
    if left == 0 then dst else rest

pub follow_nothing :
    (blocks base : ℕ) (mbox : Bytes) (addr at : ℕ) (dst : Bytes)
    → follow blocks base mbox addr 0 at dst ≡ dst
unfolding follow
follow_nothing zero base mbox addr at dst = refl
follow_nothing (suc blocks) base mbox addr at dst = refl

module _ (extra base token : ℕ) (mbox : Bytes) (at : ℕ)
    (links : (i : ℕ)
      → i * 512 < extra
      → IsBlock mbox i (num_blocks_for_extra extra) base token) where
  -- A round of both: the block that is read is the same, and the next one starts in line.
  follow-copy_loop :
      (left blocks i : ℕ) (dst : Bytes)
      → left ≤ blocks
      → i + left ≡ num_blocks_for_extra extra
      → (addr : ℕ) → (0 < left → addr ≡ base + i * 4096)
      → follow blocks base mbox addr (extra - i * 512) (at + i * 512) dst
        ≡ copy_loop left i extra mbox at dst
  unfolding follow copy_loop num_blocks_for_extra
  follow-copy_loop zero blocks i dst few all addr here =
      let none_left : extra - i * 512 ≡ 0 = omega arith in
      ap (λ n. follow blocks base mbox addr n (at + i * 512) dst) none_left
      ∙ follow_nothing blocks base mbox addr (at + i * 512) dst
  follow-copy_loop (suc left) zero i dst few all addr here = absurd (omega arith)
  follow-copy_loop (suc left) (suc blocks) i dst few all addr here =
      let more : (extra - i * 512 == 0) ≡ false = ground arith in
      let cell : addr - base ≡ i * 4096 = omega (arith, here (omega arith)) in
      let dst' = memcpy (at + i * 512) mbox (i * 4096) (copy_len extra i) dst in
      let next = get_be64 mbox (i * 4096 + 560) in
      let round : follow (suc blocks) base mbox addr (extra - i * 512) (at + i * 512) dst
          ≡ follow blocks base mbox next (extra - i * 512 - 512) (at + i * 512 + 512) dst' =
        rw (more, cell) refl in
      let fewer : extra - i * 512 - 512 ≡ extra - (i + 1) * 512 = omega arith in
      let behind : at + i * 512 + 512 ≡ at + (i + 1) * 512 = omega arith in
      let link = (links i (omega arith)).next in
      let line : 0 < left → next ≡ base + (i + 1) * 4096 = λ h. ground (arith, link) in
      let rest = follow-copy_loop left blocks (i + 1) dst' (omega arith) (omega arith) next line in
      round ∙ rw (fewer, behind) rest

-- For a chain that is linked, following the pointers gives what `copy_from_mailbox_chain` copies.
pub follow-copy_from_mailbox_chain :
    (extra base token : ℕ) (mbox : Bytes) (at : ℕ) (dst : Bytes)
    → ((i : ℕ) → i * 512 < extra → IsBlock mbox i (num_blocks_for_extra extra) base token)
    → extra ≤ 131072
    → follow 256 base mbox base extra at dst ≡ copy_from_mailbox_chain extra mbox at dst
unfolding copy_from_mailbox_chain num_blocks_for_extra
follow-copy_from_mailbox_chain extra base token mbox at dst links few =
    let start =
      follow-copy_loop extra base token mbox at links (num_blocks_for_extra extra) 256 0 dst
        (omega arith) (zero-add (num_blocks_for_extra extra)) base (λ h. omega arith) in
    let whole : extra - 0 * 512 ≡ extra = omega arith in
    let from : at + 0 * 512 ≡ at = omega arith in rw (whole, from) at start
