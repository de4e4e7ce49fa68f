-- ===== src/Mbox/Signed.antt =====
-- About the control fields of the blocks of `setup_mailbox_chain`.
use native.Mathlib.Nat.{zero-add}
use mlx_nic_driver.Base.{
  ℕ, suc, ◌+◌, ◌-◌, ◌*◌, ◌%◌, ◌^◌, ◌≤◌, ◌<◌, ◌≡◌, ◌≢◌, ◌↔◌, ◌∙◌, ap, arith, none, some, ltb,
  if◌then◌else◌,
}
use mlx_nic_driver.Word.{Bytes, xor8, not8, put8, put_be32, put_be64, get_be32, get_be64, memset}
use mlx_nic_driver.Word.Xor.{bit_xor-not8, xor8-byte, xor8_same, xor8-suc}
use mlx_nic_driver.Word.Laws.{
  get_be32-put_be32, get_be64-put_be64, get_be32_same, get_be64_same, put_be32_outside,
  put_be32-byte, put_be64-byte,
}
use mlx_nic_driver.Mbox.{
  Source, setup_mailbox_block, sign_control, sign_mailbox_block, write_block, chain_from,
  fill_block, copy_len, setup_mailbox_chain, num_blocks_for_extra,
}
use mlx_nic_driver.Mbox.Chain.{
  sign_outside, fill_outside, chain_page, copy_len_few, setup_mailbox_chain-eq-some,
}

-- A signature byte behind a range makes its exclusive or 0xff.
signed :
    (p s : Bytes) (off len : ℕ)
    → ((i : ℕ) → off ≤ i → i < off + len → p i < 256)
    → ((i : ℕ) → off ≤ i → i < off + len → s i ≡ p i)
    → s (off + len) ≡ not8 (xor8 p off len) % 256
    → xor8 s off (suc len) ≡ 255
signed p s off len bytes same last =
    let byte = xor8-byte p off len bytes in
    let small : not8 (xor8 p off len) % 256 ≡ not8 (xor8 p off len) = omega arith in
    xor8-suc s off len
    ∙ rw (xor8_same s p off len same, last, small) (bit_xor-not8 (xor8 p off len) byte)

sign_lem :
    (block : ℕ) (p : Bytes)
    → ((i : ℕ) → block ≤ i → i < block + 576 → p i < 256)
    → (xor8 (sign_mailbox_block block p) (block + 512) 63 ≡ 255)
      × (xor8 (sign_mailbox_block block p) block 576 ≡ 255)
unfolding sign_mailbox_block sign_control
sign_lem block p bytes = (
  signed p (sign_mailbox_block block p) (block + 512) 62
      (λ i lo hi. bytes i (omega arith) (omega arith)) (λ i lo hi. ground arith) (ground arith),
  signed (sign_control block p) (sign_mailbox_block block p) block 575
      (λ i lo hi. ground (arith, bytes i (omega arith) (omega arith))) (λ i lo hi. ground arith)
      (ground arith),
)

setup_fields :
    (block next num token : ℕ) (p : Bytes)
    → next < 2 ^ 64
    → num < 2 ^ 32
    → token < 256
    → (get_be64 (setup_mailbox_block block next num token p) (block + 560) ≡ next)
      × (get_be32 (setup_mailbox_block block next num token p) (block + 568) ≡ num)
      × (setup_mailbox_block block next num token p (block + 573) ≡ token)
unfolding setup_mailbox_block
setup_fields block next num token p next_fits num_fits token_fits =
    let blank = memset block 0 576 p in
    let linked = put_be64 (block + 512 + 48) next blank in
    let numbered = put_be32 (block + 512 + 56) num linked in
    let result = put8 (block + 512 + 61) token numbered in
    let next_at : block + 560 ≡ block + 512 + 48 = omega arith in
    let num_at : block + 568 ≡ block + 512 + 56 = omega arith in
    let same_next =
      get_be64_same result linked (block + 512 + 48)
        (λ i lo hi. ground (arith, put_be32_outside linked (block + 512 + 56) num i)) in
    let same_num = get_be32_same result numbered (block + 512 + 56) (λ i lo hi. ground arith) in
    (
      ap (get_be64 result) next_at
          ∙ same_next
          ∙ get_be64-put_be64 blank (block + 512 + 48) next next_fits,
      ap (get_be32 result) num_at
          ∙ same_num
          ∙ get_be32-put_be32 linked (block + 512 + 56) num num_fits,
      ground arith,
    )

setup_bytes :
    (block next num token : ℕ) (p : Bytes) (i : ℕ)
    → block ≤ i
    → i < block + 576
    → setup_mailbox_block block next num token p i < 256
unfolding setup_mailbox_block
setup_bytes block next num token p i lo hi =
    let blank = memset block 0 576 p in
    let linked = put_be64 (block + 512 + 48) next blank in
    let zero_byte : blank i < 256 = ground arith in
    let linked_byte = put_be64-byte blank (block + 512 + 48) next i zero_byte in
    let byte = put_be32-byte linked (block + 512 + 56) num i linked_byte in ground (arith, byte)

-- The bytes of a source, where there is one.
abbrev pub AreBytes : Source → Type 0
AreBytes none = Unit
AreBytes (some (src, from)) = (i : ℕ) → src i < 256

fill_bytes :
    (src : Source) (block off copy : ℕ) (p : Bytes) (i : ℕ)
    → AreBytes src
    → p i < 256
    → fill_block src block off copy p i < 256
fill_bytes none block off copy p i bytes h = h
fill_bytes (some (src, from)) block off copy p i bytes h =
    ground (arith, bytes (from + off + (i - block)))

-- Block `i` of a chain of `nblocks` blocks at `base_iova`.
pub record IsBlock (mbox : Bytes) (i nblocks base_iova token : ℕ) : Type 0 where
  pub next :
      get_be64 mbox (i * 4096 + 560)
      ≡ (if ltb (i + 1) nblocks then base_iova + (i + 1) * 4096 else 0)
  pub number : get_be32 mbox (i * 4096 + 568) ≡ i
  pub token_byte : mbox (i * 4096 + 573) ≡ token
  pub control : xor8 mbox (i * 4096 + 512) 63 ≡ 255
  pub whole : xor8 mbox (i * 4096) 576 ≡ 255

write-IsBlock :
    (nblocks base_iova : ℕ) (src : Source) (extra token i : ℕ) (p : Bytes)
    → AreBytes src
    → i < 2 ^ 32
    → nblocks * 4096 + base_iova < 2 ^ 64
    → token < 256
    → IsBlock (write_block nblocks base_iova src extra token i p) i nblocks base_iova token
unfolding write_block
write-IsBlock nblocks base_iova src extra token i p bytes fits base_fits token_fits =
    let block = i * 4096 in
    let next = if ltb (i + 1) nblocks then base_iova + (i + 1) * 4096 else 0 in
    let next_fits : next < 2 ^ 64 = ground arith in
    let fresh = setup_mailbox_block block next (i % 2 ^ 32) token p in
    let filled = fill_block src block (i * 512) (copy_len extra i) fresh in
    let s = write_block nblocks base_iova src extra token i p in
    let fields = setup_fields block next (i % 2 ^ 32) token p next_fits (omega arith) token_fits in
    let same : (x : ℕ) → block + 512 ≤ x → x < block + 574 → s x ≡ fresh x = λ x lo hi.
      sign_outside block filled x (omega arith)
      ∙ fill_outside src block (i * 512) (copy_len extra i) fresh x (copy_len_few extra i)
          (omega arith) in
    let signs = sign_lem block filled (λ x lo hi.
      fill_bytes src block (i * 512) (copy_len extra i) fresh x bytes
        (setup_bytes block next (i % 2 ^ 32) token p x lo hi)) in
    record {
      next =
          get_be64_same s fresh (block + 560) (λ x lo hi. same x (omega arith) (omega arith))
          ∙ fields.0;
      number =
          get_be32_same s fresh (block + 568) (λ x lo hi. same x (omega arith) (omega arith))
          ∙ fields.1
          ∙ omega arith;
      token_byte = same (block + 573) (omega arith) (omega arith) ∙ fields.2;
      control = signs.0;
      whole = signs.1;
    }

IsBlock-same :
    (p q : Bytes) (i nblocks base_iova token : ℕ)
    → ((x : ℕ) → i * 4096 ≤ x → x < (i + 1) * 4096 → p x ≡ q x)
    → IsBlock q i nblocks base_iova token
    → IsBlock p i nblocks base_iova token
IsBlock-same p q i nblocks base_iova token same b = record {
  next =
      get_be64_same p q (i * 4096 + 560) (λ x lo hi. same x (omega arith) (omega arith)) ∙ b.next;
  number =
      get_be32_same p q (i * 4096 + 568) (λ x lo hi. same x (omega arith) (omega arith)) ∙ b.number;
  token_byte = same (i * 4096 + 573) (omega arith) (omega arith) ∙ b.token_byte;
  control =
      xor8_same p q (i * 4096 + 512) 63 (λ x lo hi. same x (omega arith) (omega arith)) ∙ b.control;
  whole = xor8_same p q (i * 4096) 576 (λ x lo hi. same x (omega arith) (omega arith)) ∙ b.whole;
}

accepts :
    (base_iova : ℕ) (src : Source) (extra token : ℕ) (mbox : Bytes)
    → (setup_mailbox_chain base_iova src extra token mbox ≢ none) ↔ (extra ≤ 131072)
unfolding setup_mailbox_chain num_blocks_for_extra
accepts base_iova src extra token mbox = ((λ h. ground arith), (λ h. ground arith))

-- `setup_mailbox_chain` succeeds exactly for at most 131072 bytes of data, and then every block
-- of the chain has the address of the next one (0 in the last), its own number, the token, and
-- both signatures, for a mailbox whose addresses stay below 2^64.
pub setup_mailbox_chain-IsBlock :
    (base_iova : ℕ) (src : Source) (extra token : ℕ) (mbox : Bytes)
    → AreBytes src
    → base_iova + 2 ^ 20 < 2 ^ 64
    → token < 256
    → ((setup_mailbox_chain base_iova src extra token mbox ≢ none) ↔ (extra ≤ 131072))
      × ((mbox' : Bytes)
          → setup_mailbox_chain base_iova src extra token mbox ≡ some mbox'
          → (i : ℕ) → i * 512 < extra
          → IsBlock mbox' i (num_blocks_for_extra extra) base_iova token)
unfolding num_blocks_for_extra
setup_mailbox_chain-IsBlock base_iova src extra token mbox bytes base_fits token_fits = (
  accepts base_iova src extra token mbox,
  (λ mbox' e i below.
      let n = num_blocks_for_extra extra in
      let (chain, room) = setup_mailbox_chain-eq-some base_iova src extra token mbox mbox' e in
      let (before, page) = chain_page n base_iova src extra token n 0 i mbox (omega arith) in
      let block =
        write-IsBlock n base_iova src extra token i before bytes (omega arith) (omega arith)
          token_fits in
      rw chain (
        IsBlock-same (chain_from n 0 n base_iova src extra token mbox)
          (write_block n base_iova src extra token i before) i n base_iova token
          (λ x lo hi. rw zero-add at (page x (omega arith) (omega arith))) block)),
)
