-- ===== src/Cmd/Reply.antt =====
-- The end of a command: what `mlx5_cmd_exec` returns after the doorbell.
use mlx_nic_driver.Base.{
  ℕ, zero, suc, ◌+◌, ◌≤◌, ◌<◌, ◌≡◌, refl, arith, Bool, true, false, not, ◌&&◌, ltb, ◌==◌,
  Bool-cases, inl, inr,
}
use mlx_nic_driver.Word.{Bytes, zeroed}
use mlx_nic_driver.Cmd.{Answer, Firmware, Ctx, is_hw, wait_owner, collect, submit}

wait_lem :
    (left r : ℕ) (desc : Bytes) (answer : Answer)
    → is_hw desc ≡ true
    → is_hw answer.desc ≡ false
    → r ≤ answer.after
    → (answer.after < r + left → wait_owner left r desc answer ≡ answer.after + 1)
      × (r + left ≤ answer.after → wait_owner left r desc answer ≡ r + left)
unfolding wait_owner
wait_lem zero r desc answer hw sw le = ((λ h. absurd (omega arith)), (λ h. omega arith))
wait_lem (suc left) r desc answer hw sw le = (
  ground (arith, wait_lem left (r + 1) desc answer),
  ground (arith, wait_lem left (r + 1) desc answer),
)

-- The status that the firmware put in the first byte of the output is a success.
abbrev pub succeeded : ℕ → Bytes → Bool
succeeded out_len out = not (ltb 0 out_len && not (out 0 == 0))

-- A doorbell on a descriptor that the hardware owns, to a firmware that gives it back. If the
-- answer is there before the polls run out, the call yields the answer's output bytes, and fails
-- exactly when their status byte is not 0; if it comes later, the call fails and its memory stays
-- as it was.
pub submit_outcome :
    (fw : Firmware) (out_len : ℕ) (ctx : Ctx) (answer : Answer)
    → fw ctx.commands ctx.desc ctx.inbox ctx.outbox ≡ answer
    → is_hw ctx.desc ≡ true
    → is_hw answer.desc ≡ false
    → (answer.after ≤ 1000000
        → submit fw out_len ctx ≡ (
          succeeded out_len (collect out_len answer.desc answer.outbox),
          collect out_len answer.desc answer.outbox,
          record ctx { desc = answer.desc; outbox = answer.outbox; commands = ctx.commands + 1 },
        ))
      × (1000000 < answer.after
          → submit fw out_len ctx ≡ (false, zeroed, record ctx { commands = ctx.commands + 1 }))
unfolding submit
submit_outcome fw out_len ctx answer e hw sw =
    let (early, late) = wait_lem 1000000 0 ctx.desc answer hw sw (omega arith) in
    (
      (λ soon.
          let reads = wait_owner 1000000 0 ctx.desc answer in
          let there : ltb reads answer.after ≡ false = ground (arith, early, late) in
          let out = collect out_len answer.desc answer.outbox in
          elim (Bool-cases (ltb 0 out_len && not (out 0 == 0))) [
            | inl bad ↦ rw (e, there, sw, bad) refl
            | inr good ↦ rw (e, there, sw, good) refl
          ]),
      (λ h.
          let polled = late (omega arith) in
          let early_yet : ltb 1000000 answer.after ≡ true = ground arith in
          rw (e, polled, early_yet, hw) refl),
    )
