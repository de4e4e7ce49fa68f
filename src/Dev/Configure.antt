-- ===== src/Dev/Configure.antt =====
-- `mlxnicd_dev_configure`.
use mlx_nic_driver.Base.{◌≤◌, ◌<◌, ◌≡◌, ◌↔◌, ◌⊎◌, arith, true, false, some, if◌then◌else◌}
use mlx_nic_driver.Dev.{
  ok, inval, state, Config, Dev, has_tx, has_rx, configure, defaulted, set_error,
}

-- A configuration that `mlxnicd_dev_start` can run with.
pub record IsRunnable (c : Config) : Type 0 where
  pub posts : 0 < c.rx_post_count
  pub posts_fit : c.rx_post_count ≤ 4096
  pub queues : 0 < c.queue_count
  pub queues_fit : c.queue_count ≤ 8
  pub some_path : (has_tx c ≡ true) ⊎ (has_rx c ≡ true)

-- A call on a device and a configuration succeeds exactly when the device is not started, TX or
-- RX is on, and the counts are within 4096 and 8.
pub configure_accepts :
    (dev : Dev) (c : Config)
    → ((configure (some dev) (some c)).0 ≡ true) ↔ (
        (dev.started ≡ false)
        × ((has_tx c ≡ true) ⊎ (has_rx c ≡ true))
        × (c.rx_post_count ≤ 4096)
        × (c.queue_count ≤ 8))
unfolding configure
configure_accepts dev c = ((λ h. ground arith), (λ h. ground arith))

-- A call that succeeds leaves a runnable configuration and the error cleared; one that fails
-- changes nothing but the last error, which then is `state` on a started device and `inval`
-- otherwise.
pub configure_outcome :
    (dev : Dev) (c : Config)
    → (((configure (some dev) (some c)).0 ≡ true)
        × IsRunnable (defaulted c)
        × ((configure (some dev) (some c)).1
            ≡ some (set_error ok (record dev { config = defaulted c }))))
      ⊎ (((configure (some dev) (some c)).0 ≡ false)
          × ((configure (some dev) (some c)).1
              ≡ some (set_error (if dev.started then state else inval) dev)))
unfolding configure
configure_outcome dev c = ground arith
