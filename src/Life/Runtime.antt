-- ===== src/Life/Runtime.antt =====
-- `struct mlx5_test_runtime` of src/mlx5.c, and the steps on it.
use mlx_nic_driver.Base.{ℕ, Bool, false, Option, none, some, ◌==◌, if◌then◌else◌}
use mlx_nic_driver.Word.{Bytes, zeroed}
use mlx_nic_driver.Dma.{no_page}
use mlx_nic_driver.Cmd.{Ctx}
use mlx_nic_driver.Obj.Ids.{Eq, no_eq}
use mlx_nic_driver.Obj.Cqs.{CqRes, no_cq}
use mlx_nic_driver.Obj.Sqs.{SqRes, no_sq}
use mlx_nic_driver.Obj.Rqs.{RqRes}
use mlx_nic_driver.Obj.Steer.{Res, no_res}
use mlx_nic_driver.Steps.{Step, when}
use mlx_nic_driver.Life.{Session, cleared}

-- The entries of one queue in the arrays.
pub record QueueRes : Type 0 where
  pub tx_cq : CqRes
  pub rx_cq : CqRes
  pub sq : SqRes
  pub rq : RqRes

abbrev pub zeroed_queue : QueueRes
zeroed_queue = record {
  tx_cq = no_cq;
  rx_cq = no_cq;
  sq = no_sq;
  rq = record {
    rq_page = no_page;
    dbr_page = no_page;
    rq = record {
      ring = zeroed;
      dbr = zeroed;
      rx_pages = λ s. no_page;
      rqn = 0;
      prod_index = 0;
      rx_iova_base = 0;
      valid = false;
    };
  };
}

-- Transport domain, counter set and TIS are `none` while their flag is not set.
pub record Runtime : Type 0 where
  pub session : Session
  pub uar : ℕ
  pub pd : ℕ
  pub tdn : Option ℕ
  pub q_counter : Option ℕ
  pub tisn : Option ℕ
  pub mkey : ℕ
  pub eq : Eq
  pub queues : ℕ → QueueRes
  pub queue_count : ℕ
  pub rqt : Res
  pub tir : Res
  pub ft : Res
  pub fg : Res
  pub fte : Res
  pub hca_cap : Bytes

-- `mlx5_test_runtime_init`. The descriptors are 0 there, not -1; they are set before their use.
unfoldable pub runtime_init : Runtime → Runtime
runtime_init rt = record {
  session = cleared rt.session;
  uar = 0;
  pd = 0;
  tdn = none;
  q_counter = none;
  tisn = none;
  mkey = 0;
  eq = no_eq;
  queues = λ q. zeroed_queue;
  queue_count = 0;
  rqt = no_res;
  tir = no_res;
  ft = no_res;
  fg = no_res;
  fte = no_res;
  hca_cap = zeroed;
}

abbrev pub number : Option ℕ → ℕ
number none = 0
number (some n) = n

abbrev pub with_ctx : Ctx → Runtime → Runtime
with_ctx c rt = record rt { session = record rt.session { ctx = c } }

abbrev pub set_queue : ℕ → QueueRes → (ℕ → QueueRes) → ℕ → QueueRes
set_queue q r queues i = if i == q then r else queues i

-- A call on the context, and what its result goes to.
abbrev pub exec_step : {A : Type 0} → (Runtime → Ctx → A × Ctx) → (A → Step Runtime) → Step Runtime
exec_step f keep rt = let (a, ctx) = f rt rt.session.ctx in keep a (with_ctx ctx rt)

-- A call that yields an object, which goes to its place whether the call succeeds or not.
abbrev pub obj_step :
    {A : Type 0} → (Runtime → Ctx → Bool × A × Ctx) → (A → Runtime → Runtime) → Step Runtime
obj_step f keep rt = let (done, a, ctx) = f rt rt.session.ctx in (done, keep a (with_ctx ctx rt))

abbrev pub when_at : (Runtime → Bool) → Step Runtime → Step Runtime
when_at test f rt = when (test rt) f rt

-- Where a result is only a success or a failure.
abbrev pub done_step : Bool → Step Runtime
done_step done rt = (done, rt)

abbrev pub set_rqt : Res → Runtime → Runtime
set_rqt r rt = record rt { rqt = r }

abbrev pub set_tir : Res → Runtime → Runtime
set_tir r rt = record rt { tir = r }

abbrev pub set_ft : Res → Runtime → Runtime
set_ft r rt = record rt { ft = r }

abbrev pub set_fg : Res → Runtime → Runtime
set_fg r rt = record rt { fg = r }

abbrev pub set_fte : Res → Runtime → Runtime
set_fte r rt = record rt { fte = r }

abbrev pub set_eq : Eq → Runtime → Runtime
set_eq e rt = record rt { eq = e }

-- The objects of one queue, and the context.
pub record QueueState : Type 0 where
  pub queue : QueueRes
  pub ctx : Ctx

-- A step on queue `q`.
abbrev pub at_queue : ℕ → Step QueueState → Step Runtime
at_queue q f rt =
    let (done, s) = f (record { queue = rt.queues q; ctx = rt.session.ctx }) in
    (done, with_ctx s.ctx (record rt { queues = set_queue q s.queue rt.queues }))
