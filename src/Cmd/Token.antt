-- ===== src/Cmd/Token.antt =====
-- About the tokens of `mlx5_cmd_exec`.
use mlx_nic_driver.Base.{ℕ, ◌<◌, ◌≢◌, arith}
use mlx_nic_driver.Cmd.{take_token}

-- Whatever byte the context holds, the token of a command is a byte other than 0, the next
-- command's token is another one, and from a byte other than 0 the context never falls back to 0.
pub take_token_lem :
    (t : ℕ)
    → t < 256
    → ((take_token t).0 ≢ 0)
      × ((take_token t).0 < 256)
      × ((take_token t).1 ≢ 0)
      × ((take_token (take_token t).1).0 ≢ (take_token t).0)
unfolding take_token
take_token_lem t h = (ground arith, ground arith, ground arith, ground arith)
