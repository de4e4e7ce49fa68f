-- ===== src/Life/Account.antt =====
-- What of the runtime the account of regions and blocks depends on, and the steps that leave it
-- alone.
use mlx_nic_driver.Base.{
  ℕ, ◌+◌, ◌≡◌, refl, sym, subst, ap, arith, Bool, true, false, List, [], ◌∷◌, ◌∙◌, ◌≢◌, ◌==◌, All,
  Bool-cases, inl, inr,
}
use mathlib.Core.Path.{ap₂}
use mlx_nic_driver.Word.{Bytes}
use mlx_nic_driver.Dma.{DmaPage, Host}
use mlx_nic_driver.Cmd.{Firmware, Ctx, cmd_exec}
use mlx_nic_driver.Obj.Clean.{cmd_exec_host}
use mlx_nic_driver.Pages.Numbered.{cmd_exec_fw_pages}
use mlx_nic_driver.Obj.Ids.{Eq}
use mlx_nic_driver.Steps.{Step, Keeps, when}
use mlx_nic_driver.Vfio.{VfioDevice, Process}
use mlx_nic_driver.Ledger.{Probe, owns}
use mlx_nic_driver.Ledger.Objects.{owns_cq, owns_sq}
use mlx_nic_driver.Ledger.Queues.{owns_rq}
use mlx_nic_driver.Life.{Session, cmdq_page, inbox_page, outbox_page}
use mlx_nic_driver.Life.Runtime.{
  QueueRes, Runtime, set_queue, exec_step, obj_step, when_at, done_step, with_ctx,
}

abbrev pub owns_queue : Probe → QueueRes → ℕ
owns_queue x q = owns_cq x q.tx_cq + (owns_cq x q.rx_cq + (owns_sq x q.sq + owns_rq x q.rq))

abbrev pub owns_buffers : Probe → Session → ℕ
owns_buffers x s = owns x (cmdq_page s) + (owns x (inbox_page s) + owns x (outbox_page s))

-- What the account of a context depends on.
abbrev pub Purse : Type 0
Purse = Host × List DmaPage

abbrev pub purse : Ctx → Purse
purse ctx = (ctx.host, ctx.fw_pages)

-- What else there is to give back, and how many queues.
pub record Holdings : Type 0 where
  pub purse : Purse
  pub cmdq : ℕ
  pub inbox : ℕ
  pub outbox : ℕ
  pub dev : VfioDevice
  pub process : Process
  pub eq : Eq
  pub queues : ℕ → QueueRes
  pub queue_count : ℕ

abbrev pub holdings : Runtime → Holdings
holdings rt = record {
  purse = purse rt.session.ctx;
  cmdq = rt.session.cmdq;
  inbox = rt.session.inbox;
  outbox = rt.session.outbox;
  dev = rt.session.dev;
  process = rt.session.process;
  eq = rt.eq;
  queues = rt.queues;
  queue_count = rt.queue_count;
}

abbrev pub Quiet : Step Runtime → Type 0
Quiet f = (rt : Runtime) → holdings (f rt).1 ≡ holdings rt

-- A call on the context that takes nothing and gives nothing back.
abbrev pub Frugal : {A : Type 0} → (Ctx → A × Ctx) → Type 0
Frugal f = (ctx : Ctx) → purse (f ctx).1 ≡ purse ctx

pub cmd_exec-purse :
    (fw : Firmware) (inp : Bytes) (in_len out_len : ℕ) (ctx : Ctx)
    → purse (cmd_exec fw inp in_len out_len ctx).2 ≡ purse ctx
cmd_exec-purse fw inp in_len out_len ctx =
    ap₂ (λ h ps. (h, ps)) (cmd_exec_host fw inp in_len out_len ctx)
      (cmd_exec_fw_pages fw inp in_len out_len ctx)

with_ctx-holdings :
    (rt : Runtime) (c : Ctx)
    → purse c ≡ purse rt.session.ctx
    → holdings (with_ctx c rt) ≡ holdings rt
with_ctx-holdings rt c e = ap (λ p. record (holdings rt) { purse = p }) e

pub exec_step-Quiet :
    {A : Type 0} (f : Runtime → Ctx → A × Ctx) (keep : A → Step Runtime)
    → ((rt : Runtime) → Frugal (f rt))
    → ((a : A) → Quiet (keep a))
    → Quiet (exec_step f keep)
exec_step-Quiet f keep frugal quiet rt =
    quiet (f rt rt.session.ctx).0 (with_ctx (f rt rt.session.ctx).1 rt)
    ∙ with_ctx-holdings rt (f rt rt.session.ctx).1 (frugal rt rt.session.ctx)

pub obj_step-Quiet :
    {A : Type 0} (f : Runtime → Ctx → Bool × A × Ctx) (keep : A → Runtime → Runtime)
    → ((rt : Runtime) (ctx : Ctx) → purse (f rt ctx).2 ≡ purse ctx)
    → ((a : A) (rt : Runtime) → holdings (keep a rt) ≡ holdings rt)
    → Quiet (obj_step f keep)
obj_step-Quiet f keep frugal quiet rt =
    quiet (f rt rt.session.ctx).1 (with_ctx (f rt rt.session.ctx).2 rt)
    ∙ with_ctx-holdings rt (f rt rt.session.ctx).2 (frugal rt rt.session.ctx)

pub when-Quiet : (b : Bool) (f : Step Runtime) → Quiet f → Quiet (when b f)
when-Quiet true f quiet rt = quiet rt
when-Quiet false f quiet rt = refl

pub when_at-Quiet : (test : Runtime → Bool) (f : Step Runtime) → Quiet f → Quiet (when_at test f)
when_at-Quiet test f quiet rt = when-Quiet (test rt) f quiet rt

pub done_step-Quiet : (done : Bool) → Quiet (done_step done)
done_step-Quiet done rt = refl

-- A quiet step keeps whatever is said of the holdings.
pub Quiet-Keeps :
    (P : Holdings → Type 0) (f : Step Runtime) → Quiet f → Keeps (λ rt. P (holdings rt)) f
Quiet-Keeps P f quiet rt p = subst P (sym (quiet rt)) p

pub All-Quiet :
    (P : Holdings → Type 0) (fs : List (Step Runtime))
    → All Quiet fs
    → All (Keeps (λ rt. P (holdings rt))) fs
All-Quiet P [] all = tt
All-Quiet P (f ∷ fs) all = (Quiet-Keeps P f all.0, All-Quiet P fs all.1)

-- A queue that is set, and the others.
pub set_queue_same : (q : ℕ) (r : QueueRes) (queues : ℕ → QueueRes) → set_queue q r queues q ≡ r
set_queue_same q r queues = elim (Bool-cases (q == q)) [
  | inl e ↦ rw e refl
  | inr e ↦ absurd (ground arith)
]

pub set_queue_other :
    (q : ℕ) (r : QueueRes) (queues : ℕ → QueueRes) (i : ℕ)
    → i ≢ q
    → set_queue q r queues i ≡ queues i
set_queue_other q r queues i apart = elim (Bool-cases (i == q)) [
  | inl e ↦ absurd (ground arith)
  | inr e ↦ rw e refl
]

pub set_queue_all :
    (P : QueueRes → Type 0) (q : ℕ) (r : QueueRes) (queues : ℕ → QueueRes) (i : ℕ)
    → P r
    → (i ≢ q → P (queues i))
    → P (set_queue q r queues i)
set_queue_all P q r queues i there others = elim (Bool-cases (i == q)) [
  | inl e ↦ rw e there
  | inr e ↦ rw e (others (ground arith))
]
