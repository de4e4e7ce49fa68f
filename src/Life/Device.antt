-- ===== src/Life/Device.antt =====
-- `mlxnicd_dev_open`, `mlxnicd_dev_start`, `mlxnicd_dev_stop` and `mlxnicd_dev_close` of
-- src/mlx5.c: `struct mlxnicd_dev` with its runtime. The switches of the log are left out.
use mlx_nic_driver.Base.{
  ℕ, Bool, true, false, not, ◌&&◌, ◌||◌, Option, none, some, List, leb, length, ◌==◌, if◌then◌else◌,
}
use mlx_nic_driver.Cmd.{Firmware}
use mlx_nic_driver.Dev.{Err, ok, io, err_from_rc, Config, config_init, has_tx, has_rx}
use mlx_nic_driver.Vfio.{Kernel}
use mlx_nic_driver.Life.{Session, ctx_open}
use mlx_nic_driver.Life.Runtime.{Runtime, runtime_init}
use mlx_nic_driver.Life.Start.{bring_up}
use mlx_nic_driver.Life.Cleanup.{cleanup}

pub record Handle : Type 0 where
  pub config : Config
  pub rt : Runtime
  pub started : Bool
  pub last_error : Err
  pub rx_outstanding : ℕ → ℕ

-- `none` is -1. The string is that of the PCI address, and `memory` is what calloc yields; its
-- runtime brings the world that the device will run in.
unfoldable pub dev_open :
    (has_out : Bool) → Option (List ℕ) → (memory : Option Runtime) → Option Handle
dev_open has_out none memory = none
dev_open has_out (some bdf) none = none
dev_open has_out (some bdf) (some world) =
    if not has_out || length bdf == 0
    then none
    else if leb 32 (length bdf)
    then none
    else some (record {
      config = config_init;
      rt = runtime_init world;
      started = false;
      last_error = ok;
      rx_outstanding = λ q. 0;
    })

-- The runtime with which the context is opened.
abbrev pub opening : Handle → Runtime
opening dev = record (runtime_init dev.rt) { queue_count = dev.config.queue_count }

-- The end of a start: `out` with a return code other than 0, or the success.
abbrev pub ended : Firmware → Handle → Bool × Runtime → Bool × Handle
ended fw dev (true, rt) =
    (true, record dev { rt = rt; started = true; last_error = ok; rx_outstanding = λ q. 0 })
ended fw dev (false, rt) =
    let (cleaned, rt') = cleanup fw rt in
    (
      false,
      record dev { rt = rt'; last_error = err_from_rc (false && cleaned); rx_outstanding = λ q. 0 },
    )

abbrev pub start_with : Firmware → Handle → Bool × Session → Bool × Handle
start_with fw dev (false, s) =
    (false, record dev { rt = record (opening dev) { session = s }; last_error = io })
start_with fw dev (true, s) = ended fw dev (
    bring_up fw (has_tx dev.config) (has_rx dev.config) dev.config.rx_post_count
      (record (opening dev) { session = s }))

unfoldable pub dev_start : Firmware → Kernel → Handle → Bool × Handle
unfolding ctx_open bring_up cleanup runtime_init
dev_start fw kernel dev =
    if dev.started
    then (true, record dev { last_error = ok })
    else start_with fw dev (ctx_open kernel (opening dev).session)

unfoldable pub dev_stop : Firmware → Handle → Handle
unfolding cleanup runtime_init
dev_stop fw dev =
    let (cleaned, rt) = cleanup fw dev.rt in
    if dev.started
    then record dev {
      rt = runtime_init rt;
      started = false;
      last_error = err_from_rc cleaned;
      rx_outstanding = λ q. 0;
    }
    else dev

-- What is left of a device that is closed is the world that it ran in.
unfoldable pub dev_close : Firmware → Option Handle → Option Runtime
unfolding dev_stop
dev_close fw none = none
dev_close fw (some dev) = some (dev_stop fw dev).rt
