-- ===== src/Mbox/Copy.antt =====
-- About `copy_from_mailbox_chain` on a chain of `setup_mailbox_chain`.
use native.Mathlib.Nat.{zero-add}
use mlx_nic_driver.Base.{
  ℕ, zero, suc, ◌+◌, ◌-◌, ◌*◌, ◌/◌, ◌%◌, ◌^◌, ◌≤◌, ◌<◌, ◌≡◌, ◌⊎◌, ◌∙◌, inl, inr, ap, refl, arith,
  some, ltb, if◌then◌else◌, Bool-cases, ltb→lt, ltb-false,
}
use mlx_nic_driver.Word.{Bytes, memcpy}
use mlx_nic_driver.Mbox.{
  setup_mailbox_block, write_block, chain_from, fill_block, copy_len, copy_loop,
  copy_from_mailbox_chain, setup_mailbox_chain, num_blocks_for_extra,
}
use mlx_nic_driver.Mbox.Chain.{sign_outside, chain_page, setup_mailbox_chain-eq-some}

module _ (extra : ℕ) (mbox : Bytes) (at : ℕ) where
  copy_outside :
      (left i : ℕ) (dst : Bytes) (x : ℕ)
      → (x < at + i * 512) ⊎ (at + extra ≤ x)
      → copy_loop left i extra mbox at dst x ≡ dst x
  unfolding copy_loop
  copy_outside zero i dst x h = refl
  copy_outside (suc left) i dst x h =
      copy_outside left (i + 1) (memcpy (at + i * 512) mbox (i * 4096) (copy_len extra i) dst) x
        (omega arith)
      ∙ ground arith

  copy_inside :
      (left i : ℕ) (dst : Bytes) (k : ℕ)
      → i * 512 ≤ k
      → k < (i + left) * 512
      → k < extra
      → copy_loop left i extra mbox at dst (at + k) ≡ mbox (k / 512 * 4096 + k % 512)
  unfolding copy_loop
  copy_inside zero i dst k lo hi fits = absurd (omega arith)
  copy_inside (suc left) i dst k lo hi fits =
      let here = memcpy (at + i * 512) mbox (i * 4096) (copy_len extra i) dst in
      elim (Bool-cases (ltb k ((i + 1) * 512))) [
        | inr later ↦
            copy_inside left (i + 1) here k (ltb-false k ((i + 1) * 512) later) (omega arith) fits
        | inl now ↦
            let below : k < (i + 1) * 512 = ltb→lt k ((i + 1) * 512) now in
            let cell : i * 4096 + (at + k - (at + i * 512)) ≡ k / 512 * 4096 + k % 512 =
              omega arith in
            copy_outside left (i + 1) here (at + k) (omega arith) ∙ ground (arith, ap mbox cell)
      ]

-- The data of block i: byte r of it is byte i * 512 + r of the source.
write_data :
    (nblocks base_iova : ℕ) (src : Bytes) (from extra token i : ℕ) (p : Bytes) (r : ℕ)
    → r < 512
    → i * 512 + r < extra
    → write_block nblocks base_iova (some (src, from)) extra token i p (i * 4096 + r)
      ≡ src (from + (i * 512 + r))
unfolding write_block
write_data nblocks base_iova src from extra token i p r low fits =
    let block = i * 4096 in
    let next = if ltb (i + 1) nblocks then base_iova + (i + 1) * 4096 else 0 in
    let fresh = setup_mailbox_block block next (i % 2 ^ 32) token p in
    let filled = fill_block (some (src, from)) block (i * 512) (copy_len extra i) fresh in
    let cell : from + i * 512 + (block + r - block) ≡ from + (i * 512 + r) = omega arith in
    sign_outside block filled (block + r) (omega arith) ∙ ground (arith, ap src cell)

-- What `setup_mailbox_chain` lays out, `copy_from_mailbox_chain` gives back: byte k of the
-- destination is byte k of the source for all k below the length, and the rest of the
-- destination is as it was.
pub copy_from_mailbox_chain-setup_mailbox_chain :
    (base_iova : ℕ) (src : Bytes) (from extra token : ℕ) (mbox mbox' : Bytes) (at : ℕ) (dst : Bytes)
    → setup_mailbox_chain base_iova (some (src, from)) extra token mbox ≡ some mbox'
    → ((k : ℕ) → k < extra → copy_from_mailbox_chain extra mbox' at dst (at + k) ≡ src (from + k))
      × ((x : ℕ)
          → (x < at) ⊎ (at + extra ≤ x)
          → copy_from_mailbox_chain extra mbox' at dst x ≡ dst x)
unfolding copy_from_mailbox_chain num_blocks_for_extra
copy_from_mailbox_chain-setup_mailbox_chain base_iova src from extra token mbox mbox' at dst e =
    let nblocks = (extra + 512 - 1) / 512 in
    let chain : mbox' ≡ chain_from nblocks 0 nblocks base_iova (some (src, from)) extra token mbox =
      (setup_mailbox_chain-eq-some base_iova (some (src, from)) extra token mbox mbox' e).0 in
    (
      (λ k fits.
          let (before, page) =
            chain_page nblocks base_iova (some (src, from)) extra token nblocks 0 (k / 512) mbox
              (omega arith) in
          let whole : k / 512 * 512 + k % 512 ≡ k = omega arith in
          copy_inside extra mbox' at nblocks 0 dst k (omega arith) (omega arith) fits
          ∙ ap (λ m. m (k / 512 * 4096 + k % 512)) chain
          ∙ page (k / 512 * 4096 + k % 512) (omega arith) (omega arith)
          ∙ rw zero-add (
              write_data nblocks base_iova src from extra token (k / 512) before (k % 512)
                (omega arith) (omega arith))
          ∙ ap (λ j. src (from + j)) whole),
      (λ x h. copy_outside extra mbox' at nblocks 0 dst x (omega arith)),
    )
