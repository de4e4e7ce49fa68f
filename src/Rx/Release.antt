-- ===== src/Rx/Release.antt =====
-- Giving packets back: what `mlxnicd_rx_release_q` accepts, and what it leaves behind.
use mlx_nic_driver.Base.{
  ℕ, ◌+◌, ◌-◌, ◌%◌, ◌^◌, ◌≤◌, ◌<◌, ◌≡◌, ◌≢◌, ◌↔◌, ◌⊎◌, inl, inr, refl, arith, true, false, some,
  ◌==◌, Bool-cases, ap, ◌∙◌,
}
use mlx_nic_driver.Word.{u16}
use mlx_nic_driver.Rq.{post_buffers}
use mlx_nic_driver.Rq.Post.{IsPosted}
use mlx_nic_driver.Rq.Loop.{Ready}
use mlx_nic_driver.Rq.Buffers.{Grants, post_buffers_granted, post_buffers_posts}
use mlx_nic_driver.Dev.{Dev, Queue, inval, state, has_rx, ok, set_error, set_queue}
use mlx_nic_driver.Rx.{rx_release_q}

-- A call that the driver takes.
abbrev pub IsRelease : Dev → ℕ → ℕ → Type 0
IsRelease dev q nb =
    (dev.started ≡ true)
    × (has_rx dev.config ≡ true)
    × (q < dev.queue_count)
    × (nb ≤ (dev.queues q).rx_outstanding)

-- On a host that refuses nothing, with a valid receive queue that owes at most its 4096 buffers,
-- a release succeeds exactly when the device is started with RX, the queue is one of its queues
-- and no more packets are given back than are owed.
pub rx_release_q_accepts :
    (dev : Dev) (q nb : ℕ)
    → Grants dev.host
    → (dev.queues q).rq.valid ≡ true
    → (dev.queues q).rx_outstanding ≤ 4096
    → ((rx_release_q (some dev) q nb).0 ≡ true) ↔ IsRelease dev q nb
unfolding rx_release_q
rx_release_q_accepts dev q nb grants valid few = (
  (λ h. ground arith),
  (λ h.
      ground (arith, h, post_buffers_granted dev.mkey nb (dev.queues q).rq dev.host grants valid)),
)

-- A release that the driver does not take changes nothing but the last error: `state` when the
-- device is not started or has no RX, `inval` otherwise.
pub rx_release_q_refuses :
    (dev : Dev) (q nb : ℕ)
    → ¬ IsRelease dev q nb
    → ((dev.started ≡ true)
        × (has_rx dev.config ≡ true)
        × (rx_release_q (some dev) q nb ≡ (false, some (set_error inval dev))))
      ⊎ (((dev.started ≡ false) ⊎ (has_rx dev.config ≡ false))
          × (rx_release_q (some dev) q nb ≡ (false, some (set_error state dev))))
unfolding rx_release_q
rx_release_q_refuses dev q nb h = ground arith

-- What a release of `nb` packets leaves behind.
pub record Released (dev : Dev) (q nb : ℕ) (dev' : Dev) : Type 0 where
  pub owed : (dev'.queues q).rx_outstanding ≡ (dev.queues q).rx_outstanding - nb
  pub index : (dev'.queues q).rq.prod_index ≡ ((dev.queues q).rq.prod_index + nb) % 2 ^ 32
  pub posted :
      (k : ℕ)
      → k < nb
      → IsPosted dev.mkey (dev'.queues q).rq (((dev.queues q).rq.prod_index + k) % 4096)
  pub others : (r : ℕ) → r ≢ q → dev'.queues r ≡ dev.queues r

abbrev released_queue : Dev → ℕ → ℕ → Queue
released_queue dev q nb = record (dev.queues q) {
  rq = (post_buffers dev.mkey nb (dev.queues q).rq dev.host).1;
  rx_outstanding = u16 ((dev.queues q).rx_outstanding + 2 ^ 16 - nb);
}

abbrev released : Dev → ℕ → ℕ → Dev
released dev q nb =
    let host = (post_buffers dev.mkey nb (dev.queues q).rq dev.host).2 in
    set_error ok (record (set_queue q (released_queue dev q nb) dev) { host = host })

same_queue : (dev : Dev) (q nb : ℕ) → (released dev q nb).queues q ≡ released_queue dev q nb
same_queue dev q nb = let here : (q == q) ≡ true = ground arith in rw here refl

-- A release of some packets that succeeds posted their buffers.
released_lem :
    (dev : Dev) (q nb : ℕ) (dev' : Dev)
    → rx_release_q (some dev) q nb ≡ (true, some dev')
    → nb ≢ 0
    → ((post_buffers dev.mkey nb (dev.queues q).rq dev.host).0 ≡ true)
      × (nb ≤ (dev.queues q).rx_outstanding)
      × (dev' ≡ released dev q nb)
unfolding rx_release_q
released_lem dev q nb dev' e ne = (ground arith, ground arith, ground arith)

released_none :
    (dev : Dev) (q nb : ℕ) (dev' : Dev)
    → rx_release_q (some dev) q nb ≡ (true, some dev')
    → nb ≡ 0
    → dev' ≡ set_error ok dev
unfolding rx_release_q
released_none dev q nb dev' e none_given = ground arith

-- A release that succeeds takes `nb` off the packets owed, posts as many buffers from the
-- producer index on, and touches no other queue.
pub rx_release_q_posts :
    (dev : Dev) (q nb : ℕ) (dev' : Dev)
    → Ready dev.mkey (dev.queues q).rq dev.host
    → (dev.queues q).rx_outstanding < 2 ^ 16
    → rx_release_q (some dev) q nb ≡ (true, some dev')
    → Released dev q nb dev'
unfolding rx_release_q
rx_release_q_posts dev q nb dev' ready fits e = elim (Bool-cases (nb == 0)) [
  | inl nothing ↦
      let zero_pkts : nb ≡ 0 = ground arith in
      rw (released_none dev q nb dev' e zero_pkts) (record {
        owed = ground arith;
        index = ground (arith, ready.index_fits);
        posted = λ k h. absurd (omega arith);
        others = λ r ne. refl;
      })
  | inr some_pkts ↦
      let (ran, owed, result) = released_lem dev q nb dev' e (ground arith) in
      let run = post_buffers dev.mkey nb (dev.queues q).rq dev.host in
      let posts =
        post_buffers_posts dev.mkey nb (dev.queues q).rq dev.host run.1 run.2 ready
          (ap (λ b. (b, run.1, run.2)) ran) in
      rw result (record {
        owed = ap (λ c. c.rx_outstanding) (same_queue dev q nb) ∙ omega arith;
        index = ap (λ c. c.rq.prod_index) (same_queue dev q nb) ∙ posts.3;
        posted = λ k h. rw (same_queue dev q nb) (posts.4 k h);
        others = λ r ne. ground arith;
      })
]
