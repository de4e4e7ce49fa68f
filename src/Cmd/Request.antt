-- ===== src/Cmd/Request.antt =====
-- About what a doorbell shows the firmware in `mlx5_cmd_exec`.
use mlx_nic_driver.Base.{
  ℕ, ◌+◌, ◌*◌, ◌-◌, ◌^◌, ◌≤◌, ◌<◌, ◌≡◌, ◌≢◌, ◌⊎◌, ◌∙◌, inl, inr, ap, refl, arith, true, false, none,
  some, ltb, ◌==◌, Bool-cases, ltb→lt, ltb-false,
}
use mlx_nic_driver.Word.{Bytes, xor8, get_be32, get_be64, memset, memcpy, zeroed}
use mlx_nic_driver.Word.Laws.{get_be32_same, get_be64_same}
use mlx_nic_driver.Mbox.{num_blocks_for_extra, setup_mailbox_chain}
use mlx_nic_driver.Mbox.Copy.{copy_from_mailbox_chain-setup_mailbox_chain}
use mlx_nic_driver.Mbox.Signed.{IsBlock, setup_mailbox_chain-IsBlock}
use mlx_nic_driver.Mbox.Follow.{follow, follow_nothing, follow-copy_from_mailbox_chain}
use mlx_nic_driver.Cmd.Token.{take_token_lem}
use mlx_nic_driver.Cmd.{
  Firmware, Ctx, take_token, inline_len, extra_len, start_desc, attach, own_desc, sign_desc, is_hw,
  submit, cmd_exec, too_large,
}
use mlx_nic_driver.Cmd.Desc.{sign_desc_lem, attach-Attached, start_desc_lem, owned_lem}

-- The request as the firmware reads it, with the mailbox at `inbox_iova`: up to 16 bytes of the
-- descriptor, then the blocks, from the pointer in the descriptor on.
abbrev pub request : Bytes → (inbox_iova : ℕ) → Bytes → ℕ → Bytes
request desc inbox_iova inbox len =
    let inline : Bytes = memcpy 0 desc 16 (inline_len len) zeroed in
    follow 256 inbox_iova inbox (get_be64 desc 8) (extra_len len) 16 inline

-- The state `sent` at the doorbell is a request of `in_len` bytes from `inp` for an output of
-- `out_len` bytes.
pub record IsRequest (inp : Bytes) (in_len out_len : ℕ) (ctx sent : Ctx) : Type 0 where
  pub kind : sent.desc 0 ≡ 7
  pub in_size : get_be32 sent.desc 4 ≡ in_len
  pub out_size : get_be32 sent.desc 56 ≡ out_len
  pub token_byte : sent.desc 60 ≡ (take_token ctx.token).0
  pub owner : is_hw sent.desc ≡ true
  pub signature : xor8 sent.desc 0 64 ≡ 255
  pub in_chain : 16 < in_len → get_be64 sent.desc 8 ≡ ctx.inbox_iova
  pub out_chain : 16 < out_len → get_be64 sent.desc 48 ≡ ctx.outbox_iova
  pub content : (k : ℕ) → k < in_len → request sent.desc ctx.inbox_iova sent.inbox in_len k ≡ inp k
  pub same :
      (sent.commands ≡ ctx.commands) × (sent.host ≡ ctx.host) × (sent.fw_pages ≡ ctx.fw_pages)

request_data :
    (inp desc inbox mbox : Bytes) (len iova token : ℕ)
    → ((k : ℕ) → k < inline_len len → desc (16 + k) ≡ inp k)
    → (0 < extra_len len
        → setup_mailbox_chain iova (some (inp, 16)) (extra_len len) token mbox ≡ some inbox)
    → ((i : ℕ) → inp i < 256)
    → iova + 2 ^ 20 < 2 ^ 64
    → token < 256
    → (0 < extra_len len → get_be64 desc 8 ≡ iova)
    → extra_len len ≤ 131072
    → (k : ℕ) → k < len
    → request desc iova inbox len k ≡ inp k
request_data inp desc inbox mbox len iova token inline chain bytes fits token_fits pointer few k h =
    let head : Bytes = memcpy 0 desc 16 (inline_len len) zeroed in
    let first : k < 16 → head k ≡ inp k = λ low.
      let cell : 16 + (k - 0) ≡ 16 + k = omega arith in ground (arith, ap desc cell, inline k) in
    elim (Bool-cases (extra_len len == 0)) [
      | inl none_left ↦
          let nothing : extra_len len ≡ 0 = ground arith in
          let stays = follow_nothing 256 iova inbox (get_be64 desc 8) 16 head in
          ap (λ n. follow 256 iova inbox (get_be64 desc 8) n 16 head k) nothing
          ∙ ap (λ m. m k) stays
          ∙ first (ground arith)
      | inr more ↦
          let some_left : 0 < extra_len len = ground arith in
          let (inside, outside) =
            copy_from_mailbox_chain-setup_mailbox_chain iova inp 16 (extra_len len) token mbox inbox
              16 head (chain some_left) in
          let blocks =
            setup_mailbox_chain-IsBlock iova (some (inp, 16)) (extra_len len) token mbox bytes fits
              token_fits in
          let links : (i : ℕ)
              → i * 512 < extra_len len
              → IsBlock inbox i (num_blocks_for_extra (extra_len len)) iova token =
            blocks.1 inbox (chain some_left) in
          let followed =
            follow-copy_from_mailbox_chain (extra_len len) iova token inbox 16 head links few in
          let start : get_be64 desc 8 ≡ iova = pointer some_left in
          ap (λ a. follow 256 iova inbox a (extra_len len) 16 head k) start
          ∙ ap (λ m. m k) followed
          ∙ (elim (Bool-cases (ltb k 16)) [
            | inl low ↦ outside k (inl (ltb→lt k 16 low)) ∙ first (ltb→lt k 16 low)
            | inr high ↦
                let from : 16 ≤ k = ltb-false k 16 high in
                let cell : 16 + (k - 16) ≡ k = omega arith in
                let there : k - 16 < extra_len len = ground arith in
                rw cell at (inside (k - 16) there)
          ])
    ]

fits_lem : (len : ℕ) → len ≤ 131088 → too_large (extra_len len) ≡ false
unfolding num_blocks_for_extra
fits_lem len few = ground arith

exec_submits :
    (fw : Firmware) (inp : Bytes) (in_len out_len : ℕ) (ctx : Ctx)
    (inbox desc1 outbox desc2 : Bytes)
    → in_len ≤ 131088
    → out_len ≤ 131088
    → attach 8 ctx.inbox_iova
        (some (inp, 16))
        (extra_len in_len)
        (take_token ctx.token).0
        (memset 0 0 1048576 ctx.inbox)
        (start_desc inp in_len ctx.desc)
      ≡ some (inbox, desc1)
    → attach 48 ctx.outbox_iova none
        (extra_len out_len)
        (take_token ctx.token).0
        (memset 0 0 1048576 ctx.outbox)
        desc1
      ≡ some (outbox, desc2)
    → cmd_exec fw inp in_len out_len ctx
      ≡ submit fw out_len (record ctx {
        token = (take_token ctx.token).1;
        desc = sign_desc (own_desc out_len (take_token ctx.token).0 desc2);
        inbox = inbox;
        outbox = outbox;
      })
unfolding cmd_exec
exec_submits fw inp in_len out_len ctx inbox desc1 outbox desc2 in_few out_few e1 e2 =
    let in_fits = fits_lem in_len in_few in
    let out_fits = fits_lem out_len out_few in rw (in_fits, out_fits, e1, e2) refl

sign_outside : (d : Bytes) (i : ℕ) → i ≢ 61 → sign_desc d i ≡ d i
unfolding sign_desc
sign_outside d i ne = ground arith

-- A command with at most 131088 bytes in and out gets to the doorbell. There the hardware owns the
-- descriptor, its type is 7, its exclusive or is 0xff, it holds both lengths, the token, and the
-- address of each mailbox that is used; and the firmware, reading 16 bytes from it and the rest
-- from the chain, which it follows from the pointer in the descriptor along the pointer to the
-- next block in each block, gets the input as it was given. The addresses of the mailboxes stay below
-- 2^64.
pub cmd_exec-IsRequest :
    (fw : Firmware) (inp : Bytes) (in_len out_len : ℕ) (ctx : Ctx)
    → ((i : ℕ) → inp i < 256)
    → in_len ≤ 131088
    → out_len ≤ 131088
    → ctx.token < 256
    → ctx.inbox_iova + 2 ^ 20 < 2 ^ 64
    → ctx.outbox_iova + 2 ^ 20 < 2 ^ 64
    → (sent : Ctx) × (cmd_exec fw inp in_len out_len ctx ≡ submit fw out_len sent)
      × IsRequest inp in_len out_len ctx sent
cmd_exec-IsRequest fw inp in_len out_len ctx bytes in_few out_few token_fits in_fits out_fits =
    let token = (take_token ctx.token).0 in
    let token_byte : token < 256 = (take_token_lem ctx.token token_fits).1 in
    let d0 = start_desc inp in_len ctx.desc in
    let start = start_desc_lem inp in_len ctx.desc bytes (omega arith) in
    let mbox = memset 0 0 1048576 ctx.inbox in
    let (inbox, d1, e1, a1) =
      attach-Attached 8 ctx.inbox_iova (some (inp, 16)) (extra_len in_len) token mbox d0 bytes
        token_byte in_fits (ground arith) in
    let (outbox, d2, e2, a2) =
      attach-Attached 48 ctx.outbox_iova none (extra_len out_len) token
        (memset 0 0 1048576 ctx.outbox) d1 tt token_byte out_fits (ground arith) in
    let (owned, size, tok, below) =
      owned_lem out_len token d2 (λ i h. a2.bytes i (a1.bytes i (start.3 i h)))
        (λ i lo hi.
          a2.outside i (omega arith) ∙ a1.outside i (omega arith) ∙ start.4 i (omega arith) hi)
        (omega arith) token_byte in
    let o = own_desc out_len token d2 in
    let d = sign_desc o in
    let head : (i : ℕ) → i < 48 → (i < 8) ⊎ (16 ≤ i) → d i ≡ d0 i = λ i h far.
      sign_outside o i (omega arith)
      ∙ below i (omega arith)
      ∙ a2.outside i (omega arith)
      ∙ a1.outside i far in
    let in_chain : 0 < extra_len in_len → get_be64 d 8 ≡ ctx.inbox_iova = λ h.
      get_be64_same d d1 8 (λ i lo hi.
        sign_outside o i (omega arith) ∙ below i (omega arith) ∙ a2.outside i (omega arith))
      ∙ a1.pointer h in
    (
      record ctx { token = (take_token ctx.token).1; desc = d; inbox = inbox; outbox = outbox },
      exec_submits fw inp in_len out_len ctx inbox d1 outbox d2 in_few out_few e1 e2,
      record {
        kind = head 0 (omega arith) (omega arith) ∙ start.0;
        in_size = get_be32_same d d0 4 (λ i lo hi. head i (omega arith) (omega arith)) ∙ start.1;
        out_size = get_be32_same d o 56 (λ i lo hi. sign_outside o i (omega arith)) ∙ size;
        token_byte = sign_outside o 60 (omega arith) ∙ tok;
        owner = let own : d 63 ≡ 1 = sign_outside o 63 (omega arith) ∙ owned.owner in rw own refl;
        signature = sign_desc_lem o owned;
        in_chain = λ h. in_chain (ground arith);
        out_chain = λ h.
            get_be64_same d d2 48
              (λ i lo hi. sign_outside o i (omega arith) ∙ below i (omega arith))
            ∙ a2.pointer (ground arith);
        content =
            request_data inp d inbox mbox in_len ctx.inbox_iova token
              (λ k h. head (16 + k) (ground arith) (omega arith) ∙ start.2 k h) a1.chain bytes
              in_fits token_byte in_chain (ground arith);
        same = (refl, refl, refl);
      },
    )
