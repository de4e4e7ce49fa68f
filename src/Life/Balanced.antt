-- ===== src/Life/Balanced.antt =====
-- About what a start and a stop of the device leave behind.
use mlx_nic_driver.Base.{
  ℕ, ◌≡◌, ◌≤◌, refl, sym, subst, ap, arith, Bool, true, false, [], if◌then◌else◌,
}
use mlx_nic_driver.Dma.{no_page}
use mlx_nic_driver.Dma.Laws.{NonNull}
use mlx_nic_driver.Cmd.{Firmware}
use mlx_nic_driver.Dev.{ok, err_from_rc, has_tx, has_rx}
use mlx_nic_driver.Vfio.{Process, Kernel}
use mlx_nic_driver.Steps.{Outcome}
use mlx_nic_driver.Ledger.{
  Probe, region, block, owns, held, count_block, count_region, Ledger, recount,
}
use mlx_nic_driver.Ledger.Call.{owns-no_page}
use mlx_nic_driver.Ledger.Sum.{sum, sum_zero}
use mlx_nic_driver.Ledger.Queues.{owns_slots-no_page}
use mlx_nic_driver.Life.{Session, ctx_open}
use mlx_nic_driver.Life.Runtime.{Runtime, runtime_init, zeroed_queue}
use mlx_nic_driver.Life.Cleanup.{cleanup}
use mlx_nic_driver.Life.Start.{bring_up}
use mlx_nic_driver.Life.Device.{Handle, opening, ended, start_with, dev_start, dev_stop}
use mlx_nic_driver.Life.Account.{holdings}
use mlx_nic_driver.Life.Covers.{owned, Fresh, Full}
use mlx_nic_driver.Life.Raised.{bring_up-Moves}
use mlx_nic_driver.Life.Stages.{Open}
use mlx_nic_driver.Life.Opening.{Nothing, ctx_open-Open}
use mlx_nic_driver.Life.Lowered.{cleanup-Nothing}

module _ (x : Probe) (b : ℕ) (p0 : Process) (fw : Firmware) where
  -- A start: what it took is there to be given back, or given back.
  abbrev Started : Bool × Handle → Type 0
  Started (true, dev) = (dev.started ≡ true) × Full x b p0 (holdings dev.rt)
  Started (false, dev) = Nothing x b p0 dev.rt.session

  zeroed_sum : (n : ℕ) → sum n 0 (owned x b p0 (λ q. zeroed_queue)) ≡ 0
  zeroed_sum n =
      let none_left = owns_slots-no_page x in
      sum_zero n 0 (owned x b p0 (λ q. zeroed_queue))
        (λ k lo hi. omega (arith, owns-no_page x, none_left))

  opened_Fresh :
      (dev : Handle) (s : Session)
      → Open x b p0 s
      → Fresh x b p0 (holdings (record (opening dev) { session = s }))
  unfolding runtime_init
  opened_Fresh dev s (l, (closes, none_given)) =
      let none_left = owns_slots-no_page x in
      let empty : owns x no_page ≡ 0 = owns-no_page x in
      (
        rw none_given (recount x b _ _ s.ctx.host (omega arith) l),
        empty,
        (λ i. (
          omega (arith, empty),
          omega (arith, empty),
          omega (arith, empty),
          omega (arith, empty, none_left),
        )),
        closes,
      )

  pub dev_start-Started :
      (kernel : Kernel) (dev : Handle)
      → dev.started ≡ false
      → Ledger x b 0 dev.rt.session.ctx.host
      → dev.rt.session.process ≡ p0
      → Started (dev_start fw kernel dev)
  unfolding dev_start runtime_init
  dev_start-Started kernel dev idle l e =
      let opened = ctx_open kernel (opening dev).session in
      let result : dev_start fw kernel dev ≡ start_with fw dev opened =
        ap (λ c. if c then (true, record dev { last_error = ok }) else start_with fw dev opened)
          idle in
      subst Started (sym result) (go opened (ctx_open-Open x b p0 kernel (opening dev).session l e))
    where
      ran : (t : Bool × Runtime) → Full x b p0 (holdings t.1) → Started (ended fw dev t)
      ran (true, rt) full = (refl, full)
      ran (false, rt) full = cleanup-Nothing x b p0 fw rt full

      go :
          (t : Bool × Session)
          → Outcome (Open x b p0) (Nothing x b p0) t
          → Started (start_with fw dev t)
      go (false, s) nothing_left = nothing_left
      go (true, s) opened =
          let full =
            bring_up-Moves x b p0 fw (has_tx dev.config) (has_rx dev.config)
              dev.config.rx_post_count (record (opening dev) { session = s })
              (opened_Fresh dev s opened) in
          ran
            (bring_up fw (has_tx dev.config) (has_rx dev.config) dev.config.rx_post_count
              (record (opening dev) { session = s }))
            full

-- What a call leaves of what there was before: no region mapped but those that the IOMMU refused
-- to unmap, each block as often as before, and the same descriptors and mappings of the process.
pub record GivenBack (before after : Session) : Type 0 where
  pub unmapped :
      (iova len : ℕ)
      → count_region iova len after.ctx.host.mapped ≤ count_region iova len after.ctx.host.refused
  pub blocks : (a : ℕ) → count_block a after.ctx.host.heap ≡ count_block a before.ctx.host.heap
  pub process : after.process ≡ before.process

-- The account of a device that holds nothing.
ledger_before :
    (x : Probe) (s : Session)
    → NonNull s.ctx.host
    → s.ctx.host.mapped ≡ []
    → Ledger x (held x s.ctx.host) 0 s.ctx.host
ledger_before (region i l) s sane none_mapped = (sane, rw none_mapped (omega arith))
ledger_before (block a) s sane none_mapped = (sane, omega arith)

given_back :
    (before after : Session)
    → ((x : Probe) → Nothing x (held x before.ctx.host) before.process after)
    → GivenBack before after
given_back before after nothing_left = record {
  unmapped = λ i l. omega (arith, (nothing_left (region i l)).0.1);
  blocks = λ a. omega (arith, (nothing_left (block a)).0.1);
  process = (nothing_left (block 0)).1;
}

account :
    (fw : Firmware) (kernel : Kernel) (dev : Handle)
    → dev.started ≡ false
    → NonNull dev.rt.session.ctx.host
    → dev.rt.session.ctx.host.mapped ≡ []
    → (x : Probe)
    → Started x (held x dev.rt.session.ctx.host) dev.rt.session.process fw (dev_start fw kernel dev)
account fw kernel dev idle sane none_mapped x =
    let s = dev.rt.session in
    dev_start-Started x (held x s.ctx.host) s.process fw kernel dev idle
      (ledger_before x s sane none_mapped) refl

-- What a start comes to: if it fails, everything is given back; if it succeeds, a stop does so,
-- whatever firmware answers it.
abbrev pub IsBalanced : Firmware → Handle → Bool × Handle → Type 0
IsBalanced fw dev (false, dev') = GivenBack dev.rt.session dev'.rt.session
IsBalanced fw dev (true, dev') = GivenBack dev.rt.session (dev_stop fw dev').rt.session

dev_stop-Nothing :
    (x : Probe) (b : ℕ) (p0 : Process) (fw : Firmware) (dev : Handle)
    → dev.started ≡ true
    → Full x b p0 (holdings dev.rt)
    → Nothing x b p0 (dev_stop fw dev).rt.session
unfolding dev_stop runtime_init
dev_stop-Nothing x b p0 fw dev started full =
    let (cleaned, rt) = cleanup fw dev.rt in
    let stopped : Handle = record dev {
      rt = runtime_init rt;
      started = false;
      last_error = err_from_rc cleaned;
      rx_outstanding = λ q. 0;
    } in
    let result : dev_stop fw dev ≡ stopped = ap (λ c. if c then stopped else dev) started in
    subst (λ d. Nothing x b p0 d.rt.session) (sym result) (cleanup-Nothing x b p0 fw dev.rt full)

-- A start either fails and gives everything back, or succeeds, and a stop then gives everything
-- back: no region stays mapped but one whose unmapping was refused as often, every block is
-- allocated as often as before, and the process has the descriptors and mappings that it had. This
-- is so whatever the kernel, the allocator, the IOMMU and the firmware answer, at whichever call
-- the start fails. The device is not started and has no region mapped before, and the allocator
-- yields no NULL.
pub dev_start-IsBalanced :
    (fw fw' : Firmware) (kernel : Kernel) (dev : Handle)
    → dev.started ≡ false
    → NonNull dev.rt.session.ctx.host
    → dev.rt.session.ctx.host.mapped ≡ []
    → IsBalanced fw' dev (dev_start fw kernel dev)
dev_start-IsBalanced fw fw' kernel dev idle sane none_mapped =
    go (dev_start fw kernel dev) (account fw kernel dev idle sane none_mapped)
  where
    go :
        (t : Bool × Handle)
        → ((x : Probe) → Started x (held x dev.rt.session.ctx.host) dev.rt.session.process fw t)
        → IsBalanced fw' dev t
    go (false, dev') nothing_left = given_back dev.rt.session dev'.rt.session nothing_left
    go (true, dev') full = given_back dev.rt.session (dev_stop fw' dev').rt.session (λ x.
        dev_stop-Nothing x (held x dev.rt.session.ctx.host) dev.rt.session.process fw' dev'
          (full x).0 (full x).1)
