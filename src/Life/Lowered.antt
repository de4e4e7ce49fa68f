-- ===== src/Life/Lowered.antt =====
-- About the account over the cleanup of the runtime.
use mlx_nic_driver.Base.{ℕ, zero, suc, ◌+◌, ◌≡◌, ◌≢◌, ◌≤◌, ap, arith, Bool-cases, inl, inr, ◌||◌}
use mlx_nic_driver.Cmd.{Firmware, Ctx}
use mlx_nic_driver.Obj.Ids.{Eq, destroy_eq}
use mlx_nic_driver.Vfio.{Process}
use mlx_nic_driver.Steps.{Moves, sweep, sweep-Keeps}
use mlx_nic_driver.Ledger.{Probe, owns, recount}
use mlx_nic_driver.Ledger.Call.{owns_list, owns-no_page}
use mlx_nic_driver.Ledger.Objects.{destroy_eq-Paying}
use mlx_nic_driver.Ledger.Sum.{sum, sum_same}
use mlx_nic_driver.Life.Runtime.{QueueRes, QueueState, Runtime, set_queue, at_queue}
use mlx_nic_driver.Life.Cleanup.{
  drop_steering, drop_queue, drop_queues, drop_eq, drop_numbers, cleanup, has_page,
}
use mlx_nic_driver.Life.Account.{
  owns_queue, Holdings, holdings, All-Quiet, set_queue_other, set_queue_all,
}
use mlx_nic_driver.Life.Queue.{IsTidy}
use mlx_nic_driver.Life.Dropped.{drop_queue-Moves}
use mlx_nic_driver.Life.Covers.{Covers, buffers, Closes, owned, Full}
use mlx_nic_driver.Life.Undo.{drop_steering-Quiet, drop_numbers-Quiet}
use mlx_nic_driver.Life.Opening.{Nothing, ctx_close-Nothing}

-- Sums that `drop_queues-Moves` meets, with their terms as variables.
next_queue : (l a e q s : ℕ) → l + (a + (e + (q + s))) ≡ l + (q + (a + (e + s)))
next_queue l a e q s = omega arith

queue_gone : (l q a e s t : ℕ) → q ≡ 0 → t ≡ s → l + (q + (a + (e + s))) ≡ l + (a + (e + t))
queue_gone l q a e s t none_left same = omega arith

above : (q k : ℕ) → q + 1 ≤ k → k ≢ q
above q k lo = omega arith

module _ (x : Probe) (b : ℕ) (p0 : Process) (fw : Firmware) where
  -- Queues from `q` on are left, `left` of them; then the event queue; then the context.
  abbrev From : (left q : ℕ) → Holdings → Type 0
  From left q h =
      Covers x b p0 (buffers x b p0 h + (owns x h.eq.page + sum left q (owned x b p0 h.queues))) h
      × ((i : ℕ) → IsTidy x (h.queues i))
      × Closes x b p0 h

  abbrev OnlyEq : Holdings → Type 0
  OnlyEq h = Covers x b p0 (buffers x b p0 h + owns x h.eq.page) h × Closes x b p0 h

  abbrev OnlyContext : Holdings → Type 0
  OnlyContext h = Covers x b p0 (buffers x b p0 h) h × Closes x b p0 h

  gone-IsTidy : (q : QueueRes) → owns_queue x q ≡ 0 → IsTidy x q
  gone-IsTidy q gone invalid = omega (arith, gone)

  drop_queues-Moves :
      (left q : ℕ)
      → Moves (λ rt. From left q (holdings rt)) (λ rt. OnlyEq (holdings rt)) (drop_queues fw left q)
  unfolding drop_queues sum
  drop_queues-Moves zero q rt (l, tidy, closes) =
      (recount x b _ _ rt.session.ctx.host (omega arith) l, closes)
  drop_queues-Moves (suc left) q rt (l, tidy, closes) =
      let h = holdings rt in
      let s : QueueState = record { queue = rt.queues q; ctx = rt.session.ctx } in
      let rest =
        buffers x b p0 h + (owns x h.eq.page + sum left (q + 1) (owned x b p0 rt.queues)) in
      let (paid, gone) = drop_queue-Moves x b rest fw s (
        recount x b _ (owns_list x rt.session.ctx.fw_pages + (owns_queue x s.queue + rest))
            rt.session.ctx.host
            (next_queue (owns_list x rt.session.ctx.fw_pages) (buffers x b p0 h) (owns x h.eq.page)
              (owned x b p0 rt.queues q) (sum left (q + 1) (owned x b p0 rt.queues)))
            l,
        tidy q,
      ) in
      let s' = (drop_queue fw s).1 in
      let queues' = set_queue q s'.queue rt.queues in
      let others =
        sum_same left (q + 1) (owned x b p0 queues') (owned x b p0 rt.queues)
          (λ k lo hi. ap (owns_queue x) (set_queue_other q s'.queue rt.queues k (above q k lo))) in
      let total = buffers x b p0 h + (owns x h.eq.page + sum left (q + 1) (owned x b p0 queues')) in
      drop_queues-Moves left (q + 1) (at_queue q (drop_queue fw) rt).1 (
        recount x b _ (owns_list x s'.ctx.fw_pages + total) s'.ctx.host
            (queue_gone (owns_list x s'.ctx.fw_pages) (owns_queue x s'.queue) (buffers x b p0 h)
              (owns x h.eq.page) (sum left (q + 1) (owned x b p0 rt.queues))
              (sum left (q + 1) (owned x b p0 queues')) gone others)
            paid,
        (λ i.
            set_queue_all (IsTidy x) q s'.queue rt.queues i (gone-IsTidy s'.queue gone)
              (λ apart. tidy i)),
        closes,
      )

  destroy_eq_empty : (eq : Eq) (ctx : Ctx) → owns x (destroy_eq fw eq ctx).1.page ≡ 0
  unfolding destroy_eq
  destroy_eq_empty eq ctx = elim (Bool-cases eq.valid) [
    | inl e ↦ rw e (owns-no_page x)
    | inr e ↦ rw e (owns-no_page x)
  ]

  drop_eq-Moves : Moves (λ rt. OnlyEq (holdings rt)) (λ rt. OnlyContext (holdings rt)) (drop_eq fw)
  unfolding drop_eq
  drop_eq-Moves rt (l, closes) =
      let h = holdings rt in
      let (done, eq, ctx) = destroy_eq fw rt.eq rt.session.ctx in
      let after = destroy_eq-Paying x b (buffers x b p0 h) fw rt.eq rt.session.ctx (
        recount x b _ (owns_list x rt.session.ctx.fw_pages + (owns x rt.eq.page + buffers x b p0 h))
          rt.session.ctx.host (omega arith) l) in
      let gone = destroy_eq_empty rt.eq rt.session.ctx in
      elim (Bool-cases (rt.eq.valid || has_page rt.eq.page)) [
        | inl there ↦ rw there (
          recount x b _ (owns_list x ctx.fw_pages + buffers x b p0 h) ctx.host (omega (arith, gone))
              after,
          closes,
        )
        | inr absent ↦
            let none_left : owns x rt.eq.page ≡ 0 = ground (arith, absent) in
            rw absent (recount x b _ _ rt.session.ctx.host (omega arith) l, closes)
      ]

  -- The cleanup gives back everything that the runtime holds.
  pub cleanup-Nothing :
      (rt : Runtime) → Full x b p0 (holdings rt) → Nothing x b p0 (cleanup fw rt).1.session
  unfolding cleanup
  cleanup-Nothing rt full =
      let rt1 = (sweep (drop_steering fw) rt).1 in
      let rt2 = (drop_queues fw rt1.queue_count 0 rt1).1 in
      let rt3 = (drop_eq fw rt2).1 in
      let rt4 = (sweep (drop_numbers fw) rt3).1 in
      let full1 =
        sweep-Keeps (λ r. Full x b p0 (holdings r)) (drop_steering fw)
          (All-Quiet (Full x b p0) (drop_steering fw) (drop_steering-Quiet fw)) rt full in
      let left3 = drop_eq-Moves rt2 (drop_queues-Moves rt1.queue_count 0 rt1 full1) in
      let left4 =
        sweep-Keeps (λ r. OnlyContext (holdings r)) (drop_numbers fw)
          (All-Quiet OnlyContext (drop_numbers fw) (drop_numbers-Quiet fw)) rt3 left3 in
      ctx_close-Nothing x b p0 rt4.session left4.0 left4.1
