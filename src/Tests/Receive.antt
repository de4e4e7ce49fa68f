-- ===== src/Tests/Receive.antt =====
-- Tests of completion queues and of the receive path.
use mlx_nic_driver.Base.{
  ℕ, zero, suc, ◌+◌, ◌*◌, ◌/◌, ◌%◌, ◌≡◌, ◌≢◌, ◌↔◌, ◌⊎◌, ap, refl, arith, true, false, none, some,
  [], ◌∷◌,
}
use mlx_nic_driver.Word.{get_be16, get_be32, put_be16, put_be32}
use mlx_nic_driver.Cq.{Cq, got, ms, poll_cq, poll_cq_once, poll_cq_once_mode}
use mlx_nic_driver.Cq.Ring.{HoldsCqes, IsCqe, poll_refines}
use mlx_nic_driver.Cq.Wait.{poll_cq_total, poll_cq_finds}
use mlx_nic_driver.Rq.{Rq, post_buffers}
use mlx_nic_driver.Rq.Loop.{Ready}
use mlx_nic_driver.Rq.Post.{IsPosted}
use mlx_nic_driver.Rq.Buffers.{post_buffers_posts, post_buffers_granted, Grants}
use mlx_nic_driver.Dev.{Dev, inval, state, ok, set_error, set_queue}
use mlx_nic_driver.Rx.{rx_poll_loop, rx_release_q}
use mlx_nic_driver.Rx.Drain.{rx_poll_loop_drains}
use mlx_nic_driver.Rx.Release.{
  IsRelease, Released, rx_release_q_accepts, rx_release_q_refuses, rx_release_q_posts,
}
use mlx_nic_driver.Tests.{host, queue, cq, rq, dev, cqes, cq_ring, views}

cq_ring-HoldsCqes : HoldsCqes cq_ring cqes 1
unfolding put_be16 put_be32 get_be16 get_be32
cq_ring-HoldsCqes = record {
  written = λ n h room. first n (omega arith);
  fresh = λ s h old. ground arith;
}
  where
    first : (n : ℕ) → n ≡ 0 → IsCqe cq_ring (n % 2048 * 64) (cqes n) (n / 2048 % 2)
    first zero e = record { op_own = refl; low_fits = omega arith; count = refl; counter = refl }
    first (suc n) e = absurd (omega arith)

abbrev paged : Rq
paged = record rq {
  rx_pages = λ s. record { addr = s + 1; iova = 0x0c100000 + s * 4096; len = 4096 };
}

rx_poll_loop_drains_example :
    ((rx_poll_loop 5 0 views 0 paged cq).pkts ≡ record { addr = 1; len = 60 } ∷ [])
    × ((rx_poll_loop 5 0 views 0 paged cq).cq.cons_index ≡ 1)
rx_poll_loop_drains_example =
    rx_poll_loop_drains 5 0 views 0 paged cq cqes 1 0 (λ k. cq_ring-HoldsCqes)
      (λ k lo hi.
        ((λ e. absurd (omega arith)), (λ e. absurd (omega arith)), (λ e. absurd (omega arith))))
      (omega arith) (omega arith) refl

poll_refines_example :
    ((poll_cq_once_mode cq_ring true cq).0 ≡ got 60 0)
    × ((poll_cq_once_mode cq_ring true cq).1.cons_index ≡ 1)
poll_refines_example =
    poll_refines cq_ring cqes 1 0 true cq cq_ring-HoldsCqes (omega arith) (omega arith) refl

poll_cq_total_example : poll_cq (2 * 1000001) views 0 (ms 0) cq ≢ none
poll_cq_total_example = poll_cq_total (2 * 1000001) views 0 0 cq (omega arith) (omega arith)

abbrev polled : Cq
polled = (poll_cq_once cq_ring cq).1

found : poll_cq_once cq_ring cq ≡ (got 60 0, polled)
unfolding poll_cq_once poll_cq_once_mode put_be16 put_be32 get_be16 get_be32
found = refl

poll_cq_finds_example : poll_cq 1 views 0 (ms 1) cq ≡ some (some (60, 0), polled, 1)
poll_cq_finds_example =
    poll_cq_finds 1 views 0 1 0 cq 60 0 polled (omega arith) (omega arith) (omega arith)
      (omega arith) (λ j h. absurd (omega arith)) found

rq-Ready : Ready 0x100 rq host
rq-Ready = record {
  has = λ s h. absurd (h refl);
  nonnull = λ k a e. ground arith;
  key_fits = omega arith;
  index_fits = omega arith;
  base_fits = omega arith;
}

host-Grants : Grants host
host-Grants = ((λ k e. ground arith), (λ k. refl))

posts_two : (post_buffers 0x100 2 rq host).0 ≡ true
posts_two = post_buffers_granted 0x100 2 rq host host-Grants refl (omega arith) (omega arith)

post_buffers_granted_example : (post_buffers 0x100 2 rq host).0 ≡ true
post_buffers_granted_example =
    post_buffers_granted 0x100 2 rq host host-Grants refl (omega arith) (omega arith)

abbrev posted_rq : Rq
posted_rq = (post_buffers 0x100 2 rq host).1

post_buffers_posts_example :
    (posted_rq.prod_index ≡ 4097) × IsPosted 0x100 posted_rq 4095 × IsPosted 0x100 posted_rq 0
post_buffers_posts_example =
    let lem =
      post_buffers_posts 0x100 2 rq host posted_rq (post_buffers 0x100 2 rq host).2 rq-Ready
        (ap (λ b. (b, posted_rq, (post_buffers 0x100 2 rq host).2)) posts_two) in
    (lem.3, lem.4 0 (omega arith), lem.4 1 (omega arith))

rx_release_q_accepts_example : ((rx_release_q (some dev) 0 2).0 ≡ true) ↔ IsRelease dev 0 2
rx_release_q_accepts_example = rx_release_q_accepts dev 0 2 host-Grants refl (omega arith)

rx_release_q_refuses_example :
    ((true ≡ true)
      × (true ≡ true)
      × (rx_release_q (some dev) 0 3 ≡ (false, some (set_error inval dev))))
    ⊎ (((true ≡ false) ⊎ (true ≡ false))
        × (rx_release_q (some dev) 0 3 ≡ (false, some (set_error state dev))))
rx_release_q_refuses_example = rx_release_q_refuses dev 0 3 (λ h. absurd (omega arith))

abbrev released_dev : Dev
released_dev =
    let reposted : Dev = set_queue 0 (record queue { rq = posted_rq; rx_outstanding = 0 }) dev in
    set_error ok (record reposted { host = (post_buffers 0x100 2 rq host).2 })

release_succeeds : rx_release_q (some dev) 0 2 ≡ (true, some released_dev)
unfolding rx_release_q
release_succeeds = rw posts_two refl

rx_release_q_posts_example : Released dev 0 2 released_dev
rx_release_q_posts_example =
    rx_release_q_posts dev 0 2 released_dev rq-Ready (omega arith) release_succeeds
