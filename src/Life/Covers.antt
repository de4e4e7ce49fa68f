-- ===== src/Life/Covers.antt =====
-- The account of all that a runtime holds, at each stage of a start.
use mlx_nic_driver.Base.{ℕ, ◌+◌, ◌≡◌, ◌≤◌, arith}
use mlx_nic_driver.Vfio.{Process, vfio_device_close}
use mlx_nic_driver.Ledger.{Probe, owns, Ledger, recount}
use mlx_nic_driver.Ledger.Call.{owns_list}
use mlx_nic_driver.Ledger.Objects.{owns_cq, owns_sq}
use mlx_nic_driver.Ledger.Sum.{sum, sum_zero}
use mlx_nic_driver.Ledger.Queues.{owns_rq}
use mlx_nic_driver.Life.Runtime.{QueueRes}
use mlx_nic_driver.Life.Account.{owns_queue, Holdings}
use mlx_nic_driver.Life.Queue.{IsTidy}

module _ (x : Probe) (b : ℕ) (p0 : Process) where
  -- The account of all holdings, for `m` of what is looked for.
  abbrev pub Covers : ℕ → Holdings → Type 0
  Covers m h = Ledger x b (owns_list x h.purse.1 + m) h.purse.0

  abbrev pub buffers : Holdings → ℕ
  buffers h =
      owns x (record { addr = h.cmdq; iova = 0x01000000; len = 4096 })
      + (owns x (record { addr = h.inbox; iova = 0x01800000; len = 1048576 })
          + owns x (record { addr = h.outbox; iova = 0x02000000; len = 1048576 }))

  abbrev pub Closes : Holdings → Type 0
  Closes h = (vfio_device_close h.dev h.process).1 ≡ p0

  abbrev pub IsBlank : QueueRes → Type 0
  IsBlank q =
      (owns_cq x q.tx_cq ≡ 0)
      × (owns_sq x q.sq ≡ 0)
      × (owns_cq x q.rx_cq ≡ 0)
      × (owns_rq x q.rq ≡ 0)

  abbrev pub owned : (ℕ → QueueRes) → ℕ → ℕ
  owned queues q = owns_queue x (queues q)

  -- Before there is an event queue; before there is a queue from `q` on; and in general.
  abbrev pub Fresh : Holdings → Type 0
  Fresh h =
      Covers (buffers h) h × (owns x h.eq.page ≡ 0) × ((i : ℕ) → IsBlank (h.queues i)) × Closes h

  abbrev pub Upto : ℕ → Holdings → Type 0
  Upto q h =
      Covers (buffers h + (owns x h.eq.page + sum h.queue_count 0 (owned h.queues))) h
      × ((i : ℕ) → q ≤ i → IsBlank (h.queues i))
      × ((i : ℕ) → IsTidy x (h.queues i))
      × Closes h

  abbrev pub Full : Holdings → Type 0
  Full h =
      Covers (buffers h + (owns x h.eq.page + sum h.queue_count 0 (owned h.queues))) h
      × ((i : ℕ) → IsTidy x (h.queues i))
      × Closes h

  pub blank_sum :
      (n : ℕ) (queues : ℕ → QueueRes) → ((i : ℕ) → IsBlank (queues i)) → sum n 0 (owned queues) ≡ 0
  blank_sum n queues blank =
      sum_zero n 0 (owned queues) (λ k lo hi. let (tx, sq, rx, rq) = blank k in omega arith)

  pub Fresh-Upto : (h : Holdings) → Fresh h → Upto 0 h
  Fresh-Upto h (l, e, blank, closes) =
      let none_yet = blank_sum h.queue_count h.queues blank in
      (
        recount x b _ _ h.purse.0 (omega arith) l,
        (λ i lo. blank i),
        (λ i invalid. (blank i).3),
        closes,
      )

  pub Upto-Full : (q : ℕ) (h : Holdings) → Upto q h → Full h
  Upto-Full q h (l, blank, tidy, closes) = (l, tidy, closes)
