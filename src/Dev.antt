-- ===== src/Dev.antt =====
-- The device handle of include/mlxnicd.h and the part of its state that the datapath of
-- src/mlx5.c uses: `struct mlxnicd_dev`, `struct mlxnicd_dev_config`, and the queue arrays of
-- `struct mlx5_test_runtime`, one record for the objects of one queue.
pub mod Configure
use mlx_nic_driver.Base.{
  ℕ, ◌+◌, ◌/◌, ◌%◌, ◌^◌, Bool, true, false, not, ◌&&◌, ◌||◌, Option, none, some, ltb, ◌==◌,
  if◌then◌else◌,
}
use mlx_nic_driver.Word.{low_bits, shr}
use mlx_nic_driver.Dma.{Host}
use mlx_nic_driver.Cq.{Cq}
use mlx_nic_driver.Sq.{Sq, Bar}
use mlx_nic_driver.Rq.{Rq, rq_wqe_count}

-- `enum mlxnicd_error`.
pub data Err : Type 0 where
  ok inval state io timeout unsupported : Err

-- `mlxnicd_err_from_rc`; false is a return code other than 0.
abbrev pub err_from_rc : Bool → Err
err_from_rc true = ok
err_from_rc false = io

pub record Config : Type 0 where
  pub flags : ℕ
  pub rx_post_count : ℕ
  pub queue_count : ℕ
  pub log_verbose : Bool

-- `flags & MLXNICD_DEV_F_TX`, `flags & MLXNICD_DEV_F_RX`
abbrev pub has_tx : Config → Bool
has_tx c = low_bits c.flags 1 == 1

abbrev pub has_rx : Config → Bool
has_rx c = low_bits (shr c.flags 1) 1 == 1

pub record Queue : Type 0 where
  pub tx_cq : Cq
  pub rx_cq : Cq
  pub sq : Sq
  pub rq : Rq
  pub rx_outstanding : ℕ

-- `queue_count` is that of the runtime.
pub record Dev : Type 0 where
  pub config : Config
  pub queue_count : ℕ
  pub uar : ℕ
  pub mkey : ℕ
  pub tisn : ℕ
  pub bar : Bar
  pub host : Host
  pub queues : ℕ → Queue
  pub started : Bool
  pub last_error : Err

abbrev pub max_queues : ℕ
max_queues = 8

abbrev pub set_queue : ℕ → Queue → Dev → Dev
set_queue q queue dev = record dev { queues = λ i. if i == q then queue else dev.queues i }

abbrev pub set_error : Err → Dev → Dev
set_error e dev = record dev { last_error = e }

unfoldable pub config_init : Config
config_init = record {
  flags = 0;
  rx_post_count = rq_wqe_count;
  queue_count = 1;
  log_verbose = false;
}

-- What `mlxnicd_dev_configure` rejects, in its order; `dev` and `config` are not NULL.
unfoldable pub config_error : Dev → Config → Option Err
config_error dev c =
    if dev.started
    then some state
    else if low_bits c.flags 2 == 0
    then some inval
    else if ltb rq_wqe_count c.rx_post_count
    then some inval
    else if ltb max_queues c.queue_count
    then some inval
    else none

abbrev pub defaulted : Config → Config
defaulted c = record c {
  rx_post_count = if c.rx_post_count == 0 then rq_wqe_count else c.rx_post_count;
  queue_count = if c.queue_count == 0 then 1 else c.queue_count;
}

-- True is the return of 0, false that of -1. A NULL device is the `none` of the first argument.
unfoldable pub configure : Option Dev → Option Config → Bool × Option Dev
unfolding config_error
configure none c = (false, none)
configure (some dev) none = (false, some (set_error inval dev))
configure (some dev) (some c) = elim (config_error dev c) [
  | some e ↦ (false, some (set_error e dev))
  | none ↦ (true, some (set_error ok (record dev { config = defaulted c })))
]

unfoldable pub last_error : Option Dev → Err
last_error none = inval
last_error (some dev) = dev.last_error
