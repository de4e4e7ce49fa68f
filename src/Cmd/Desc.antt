-- ===== src/Cmd/Desc.antt =====
-- The parts of a command's descriptor.
use mlx_nic_driver.Base.{
  ℕ, zero, suc, ◌+◌, ◌-◌, ◌%◌, ◌^◌, ◌≤◌, ◌<◌, ◌≡◌, ◌⊎◌, ◌∙◌, inl, inr, ap, refl, arith, false, some,
  ◌==◌, bit_xor, Option-cases,
}
use mlx_nic_driver.Word.{Bytes, xor8, put8, put_be32, put_be64, get_be32, get_be64, memset}
use mlx_nic_driver.Word.Xor.{
  bit_xor-zero, bit_xor-byte, xor8-byte, xor8_same, signed_tail, xor8-suc,
}
use mlx_nic_driver.Word.Laws.{
  get_be32-put_be32, get_be64-put_be64, get_be32_same, put_be32_outside, put_be64_outside,
  put_be32-byte, put_be64-byte,
}
use mlx_nic_driver.Mbox.{Source, setup_mailbox_chain}
use mlx_nic_driver.Mbox.Signed.{AreBytes, setup_mailbox_chain-IsBlock}
use mlx_nic_driver.Cmd.{inline_len, start_desc, attach, own_desc, sign_desc}

-- A descriptor that the hardware owns, before it is signed.
pub record IsOwned (d : Bytes) : Type 0 where
  pub bytes : (i : ℕ) → i < 64 → d i < 256
  pub blank : (d 61 ≡ 0) × (d 62 ≡ 0)
  pub owner : d 63 ≡ 1

last_three :
    (d : Bytes) → xor8 d 0 64 ≡ bit_xor (bit_xor (bit_xor (xor8 d 0 61) (d 61)) (d 62)) (d 63)
last_three d =
    xor8-suc d 0 63
    ∙ ap (λ x. bit_xor x (d 63)) (xor8-suc d 0 62)
    ∙ ap (λ x. bit_xor (bit_xor x (d 62)) (d 63)) (xor8-suc d 0 61)

-- The signature makes the exclusive or of the descriptor 0xff.
pub sign_desc_lem : (d : Bytes) → IsOwned d → xor8 (sign_desc d) 0 64 ≡ 255
unfolding sign_desc
sign_desc_lem d owned =
    let x = xor8 d 0 61 in
    let byte : x < 256 = xor8-byte d 0 61 (λ i lo hi. owned.bytes i (omega arith)) in
    let before : xor8 d 0 64 ≡ bit_xor x 1 =
      last_three d
      ∙ rw (owned.blank.0, owned.blank.1, owned.owner, bit_xor-zero x byte, bit_xor-zero x byte)
          refl in
    let few = bit_xor-byte x 1 byte (omega arith) in
    let same : xor8 (sign_desc d) 0 61 ≡ x =
      xor8_same (sign_desc d) d 0 61 (λ i lo hi. ground arith) in
    let at61 : sign_desc d 61 ≡ 255 - bit_xor x 1 = rw before (omega arith) in
    let at62 : sign_desc d 62 ≡ 0 = owned.blank.1 in
    let at63 : sign_desc d 63 ≡ 1 = owned.owner in
    last_three (sign_desc d) ∙ rw (same, at61, at62, at63) (signed_tail x byte)

-- The descriptor and the mailbox after `attach`.
pub record Attached (at iova : ℕ) (src : Source) (extra token : ℕ) (mbox desc mbox' desc' : Bytes)
    : Type 0 where
  pub outside : (i : ℕ) → (i < at) ⊎ (at + 8 ≤ i) → desc' i ≡ desc i
  pub bytes : (i : ℕ) → desc i < 256 → desc' i < 256
  pub pointer : 0 < extra → get_be64 desc' at ≡ iova
  pub chain : 0 < extra → setup_mailbox_chain iova src extra token mbox ≡ some mbox'

pub attach-Attached :
    (at iova : ℕ) (src : Source) (extra token : ℕ) (mbox desc : Bytes)
    → AreBytes src
    → token < 256
    → iova + 2 ^ 20 < 2 ^ 64
    → extra ≤ 131072
    → (mbox' desc' : Bytes) × (attach at iova src extra token mbox desc ≡ some (mbox', desc'))
      × Attached at iova src extra token mbox desc mbox' desc'
unfolding attach
attach-Attached at iova src zero token mbox desc bytes token_fits iova_fits few = (
  mbox,
  desc,
  refl,
  record {
    outside = λ i h. refl;
    bytes = λ i h. h;
    pointer = λ h. absurd (omega arith);
    chain = λ h. absurd (omega arith);
  },
)
attach-Attached at iova src (suc extra) token mbox desc bytes token_fits iova_fits few =
    let accepts =
      (setup_mailbox_chain-IsBlock iova src (suc extra) token mbox bytes iova_fits token_fits).0 in
    let nonzero : (suc extra == 0) ≡ false = ground arith in
    elim (Option-cases (setup_mailbox_chain iova src (suc extra) token mbox)) [
      | inl refused ↦ absurd (accepts.1 few refused)
      | inr (m, e) ↦ (
        m,
        put_be64 at iova desc,
        rw (nonzero, e) refl,
        record {
          outside = λ i h. put_be64_outside desc at iova i h;
          bytes = λ i h. put_be64-byte desc at iova i h;
          pointer = λ h. get_be64-put_be64 desc at iova (omega arith);
          chain = λ h. e;
        },
      )
    ]

pub start_desc_lem :
    (inp : Bytes) (in_len : ℕ) (desc : Bytes)
    → ((i : ℕ) → inp i < 256)
    → in_len < 2 ^ 32
    → (start_desc inp in_len desc 0 ≡ 7)
      × (get_be32 (start_desc inp in_len desc) 4 ≡ in_len)
      × ((k : ℕ) → k < inline_len in_len → start_desc inp in_len desc (16 + k) ≡ inp k)
      × ((i : ℕ) → i < 64 → start_desc inp in_len desc i < 256)
      × ((i : ℕ) → 32 ≤ i → i < 64 → start_desc inp in_len desc i ≡ 0)
unfolding start_desc
start_desc_lem inp in_len desc bytes fits =
    let base = put8 0 7 (memset 0 0 64 desc) in
    let sized = put_be32 4 (in_len % 2 ^ 32) base in
    let d = start_desc inp in_len desc in
    (
      ground (arith, put_be32_outside base 4 (in_len % 2 ^ 32) 0),
      get_be32_same d sized 4 (λ i lo hi. ground arith)
          ∙ get_be32-put_be32 base 4 (in_len % 2 ^ 32) (omega arith)
          ∙ omega arith,
      (λ k h. let cell : 0 + (16 + k - 16) ≡ k = omega arith in ground (arith, ap inp cell)),
      (λ i h. ground (arith, put_be32-byte base 4 (in_len % 2 ^ 32) i, bytes (i - 16))),
      (λ i lo hi. ground (arith, put_be32_outside base 4 (in_len % 2 ^ 32) i)),
    )

-- A descriptor with both mailboxes attached becomes a request.
pub owned_lem :
    (out_len token : ℕ) (d : Bytes)
    → ((i : ℕ) → i < 64 → d i < 256)
    → ((i : ℕ) → 56 ≤ i → i < 64 → d i ≡ 0)
    → out_len < 2 ^ 32
    → token < 256
    → IsOwned (own_desc out_len token d)
      × (get_be32 (own_desc out_len token d) 56 ≡ out_len)
      × (own_desc out_len token d 60 ≡ token)
      × ((i : ℕ) → i < 56 → own_desc out_len token d i ≡ d i)
unfolding own_desc
owned_lem out_len token d bytes blank fits token_fits =
    let sized = put_be32 56 (out_len % 2 ^ 32) d in
    let o = own_desc out_len token d in
    (
      record {
        bytes = λ i h. ground (arith, put_be32-byte d 56 (out_len % 2 ^ 32) i (bytes i h));
        blank = (
          ground (arith, put_be32_outside d 56 (out_len % 2 ^ 32) 61, blank 61),
          ground (arith, put_be32_outside d 56 (out_len % 2 ^ 32) 62, blank 62),
        );
        owner = ground arith;
      },
      get_be32_same o sized 56 (λ i lo hi. ground arith)
          ∙ get_be32-put_be32 d 56 (out_len % 2 ^ 32) (omega arith)
          ∙ omega arith,
      ground arith,
      (λ i h. ground (arith, put_be32_outside d 56 (out_len % 2 ^ 32) i)),
    )
