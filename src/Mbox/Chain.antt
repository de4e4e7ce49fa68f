-- ===== src/Mbox/Chain.antt =====
-- About the pages that `setup_mailbox_chain` writes.
use native.Mathlib.Nat.{add-zero}
use mlx_nic_driver.Base.{
  ℕ, zero, suc, ◌+◌, ◌*◌, ◌%◌, ◌^◌, ◌≤◌, ◌<◌, ◌≡◌, ◌⊎◌, ◌∙◌, refl, arith, ltb, if◌then◌else◌, none,
  some,
}
use mlx_nic_driver.Word.{Bytes, put_be64, memset}
use mlx_nic_driver.Word.Laws.{put_be64_outside, put_be32_outside}
use mlx_nic_driver.Mbox.{
  Source, setup_mailbox_block, sign_control, sign_mailbox_block, write_block, chain_from,
  setup_mailbox_chain, num_blocks_for_extra, fill_block, copy_len,
}

pub setup_outside :
    (block next num token : ℕ) (p : Bytes) (x : ℕ)
    → (x < block) ⊎ (block + 576 ≤ x)
    → setup_mailbox_block block next num token p x ≡ p x
unfolding setup_mailbox_block
setup_outside block next num token p x h = ground (
  arith,
  put_be64_outside (memset block 0 576 p) (block + 512 + 48) next x,
  put_be32_outside (put_be64 (block + 512 + 48) next (memset block 0 576 p)) (block + 512 + 56) num
      x,
)

pub sign_outside :
    (block : ℕ) (p : Bytes) (x : ℕ)
    → (x < block + 512 + 62) ⊎ (block + 576 ≤ x)
    → sign_mailbox_block block p x ≡ p x
unfolding sign_mailbox_block sign_control
sign_outside block p x h = ground arith

pub fill_outside :
    (src : Source) (block off copy : ℕ) (p : Bytes) (x : ℕ)
    → copy ≤ 512
    → (x < block) ⊎ (block + 512 ≤ x)
    → fill_block src block off copy p x ≡ p x
fill_outside none block off copy p x few h = refl
fill_outside (some (src, from)) block off copy p x few h = ground arith

pub copy_len_few : (extra i : ℕ) → copy_len extra i ≤ 512
copy_len_few extra i = ground arith

module _ (nblocks base_iova : ℕ) (src : Source) (extra token : ℕ) where
  write_outside :
      (i : ℕ) (p : Bytes) (x : ℕ)
      → (x < i * 4096) ⊎ ((i + 1) * 4096 ≤ x)
      → write_block nblocks base_iova src extra token i p x ≡ p x
  unfolding write_block
  write_outside i p x h =
      let block = i * 4096 in
      let next = if ltb (i + 1) nblocks then base_iova + (i + 1) * 4096 else 0 in
      let fresh = setup_mailbox_block block next (i % 2 ^ 32) token p in
      let few = copy_len_few extra i in
      let filled = fill_block src block (i * 512) (copy_len extra i) fresh in
      sign_outside block filled x (omega arith)
      ∙ fill_outside src block (i * 512) (copy_len extra i) fresh x few (omega arith)
      ∙ setup_outside block next (i % 2 ^ 32) token p x (omega arith)

  chain_outside :
      (left i : ℕ) (p : Bytes) (x : ℕ)
      → (x < i * 4096) ⊎ ((i + left) * 4096 ≤ x)
      → chain_from left i nblocks base_iova src extra token p x ≡ p x
  unfolding chain_from
  chain_outside zero i p x h = refl
  chain_outside (suc left) i p x h =
      chain_outside left (i + 1) (write_block nblocks base_iova src extra token i p) x (omega arith)
      ∙ write_outside i p x (omega arith)

  -- Page i + j is what a write of block i + j leaves on some page.
  pub chain_page :
      (left i j : ℕ) (p : Bytes)
      → j < left
      → (before : Bytes) × ((x : ℕ)
          → (i + j) * 4096 ≤ x
          → x < (i + j + 1) * 4096
          → chain_from left i nblocks base_iova src extra token p x
            ≡ write_block nblocks base_iova src extra token (i + j) before x)
  unfolding chain_from
  chain_page zero i j p h = absurd (omega arith)
  chain_page (suc left) i zero p h = (
    p,
    (λ x lo hi. rw add-zero (
        chain_outside left (i + 1) (write_block nblocks base_iova src extra token i p) x
          (omega arith))),
  )
  chain_page (suc left) i (suc j) p h =
      let next : i + suc j ≡ i + 1 + j = omega arith in
      rw next (
        chain_page left (i + 1) j (write_block nblocks base_iova src extra token i p) (omega arith))

pub setup_mailbox_chain-eq-some :
    (base_iova : ℕ) (src : Source) (extra token : ℕ) (mbox mbox' : Bytes)
    → setup_mailbox_chain base_iova src extra token mbox ≡ some mbox'
    → (mbox'
        ≡ chain_from
            (num_blocks_for_extra extra)
            0
            (num_blocks_for_extra extra)
            base_iova
            src
            extra
            token
            mbox)
      × (num_blocks_for_extra extra * 4096 ≤ 1048576)
unfolding setup_mailbox_chain
setup_mailbox_chain-eq-some base_iova src extra token mbox mbox' e = (ground arith, ground arith)
