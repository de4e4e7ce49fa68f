-- ===== src/Sq/Reclaim.antt =====
-- About `mlx5_sq_reclaim_cqe`.
use mlx_nic_driver.Base.{ℕ, ◌+◌, ◌%◌, ◌^◌, ◌≤◌, ◌<◌, ◌≡◌, arith}
use mlx_nic_driver.Sq.{Sq, reclaim_cqe}

-- Let `cons` and `done` be the unbounded counts behind the consumer index and behind the WQE
-- that the completion is for, with fewer than 2^16 blocks between them. From the low 16 bits of
-- `done` the function finds the index after that WQE, whatever wraps.
pub reclaim_cqe_index :
    (sq : Sq) (cons done : ℕ)
    → sq.cons_index ≡ cons % 2 ^ 32
    → cons ≤ done
    → done < cons + 2 ^ 16
    → (reclaim_cqe (done % 2 ^ 16) sq).cons_index ≡ (done + 2) % 2 ^ 32
unfolding reclaim_cqe
reclaim_cqe_index sq cons done at le room = ground arith
