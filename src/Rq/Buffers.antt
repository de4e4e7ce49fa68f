-- ===== src/Rq/Buffers.antt =====
-- `mlx5_rq_post_buffers` as a whole.
use mlx_nic_driver.Base.{
  ℕ, zero, suc, ◌+◌, ◌%◌, ◌^◌, ◌≤◌, ◌<◌, ◌≡◌, ◌≢◌, ◌∙◌, refl, arith, true, none,
}
use mlx_nic_driver.Word.{get_be32, put_be32}
use mlx_nic_driver.Word.Laws.{get_be32-put_be32, get_be32_same, put_be32_outside}
use mlx_nic_driver.Dma.{Host, dma_page_alloc}
use mlx_nic_driver.Rq.{Rq, post_one, post_loop, post_buffers, rq_ring}
use mlx_nic_driver.Rq.Post.{IsPosted}
use mlx_nic_driver.Rq.Loop.{Ready, loop-Posts}

doorbells-rq_ring :
    (rq : Rq)
    → (get_be32 (rq_ring rq).dbr 0 ≡ rq.prod_index % 2 ^ 24)
      × (get_be32 (rq_ring rq).dbr 4 ≡ rq.prod_index % 2 ^ 24)
unfolding rq_ring
doorbells-rq_ring rq =
    let first = put_be32 0 (rq.prod_index % 2 ^ 24) rq.dbr in
    (
      get_be32_same (rq_ring rq).dbr first 0
            (λ i lo hi. put_be32_outside first 4 (rq.prod_index % 2 ^ 24) i (omega arith))
          ∙ get_be32-put_be32 rq.dbr 0 (rq.prod_index % 2 ^ 24) (omega arith),
      get_be32-put_be32 first 4 (rq.prod_index % 2 ^ 24) (omega arith),
    )

-- What a successful run went through.
record Ran (mkey count : ℕ) (rq : Rq) (host : Host) (rq' : Rq) (host' : Host) : Type 0 where
  last : Rq
  valid : rq.valid ≡ true
  some_buffers : 0 < count
  few : count ≤ 4096
  looped : post_loop count mkey rq host ≡ (true, last, host')
  result : rq' ≡ rq_ring last

post_buffers-Ran :
    (mkey count : ℕ) (rq : Rq) (host : Host) (rq' : Rq) (host' : Host)
    → post_buffers mkey count rq host ≡ (true, rq', host')
    → Ran mkey count rq host rq' host'
unfolding post_buffers
post_buffers-Ran mkey count rq host rq' host' e = record {
  last = (post_loop count mkey rq host).1;
  valid = ground arith;
  some_buffers = ground arith;
  few = ground arith;
  looped = ground arith;
  result = ground arith;
}

rung : {mkey : ℕ} {rq : Rq} {s : ℕ} → IsPosted mkey rq s → IsPosted mkey (rq_ring rq) s
unfolding rq_ring
rung p = record { present = p.present; size = p.size; lkey = p.lkey; buffer = p.buffer }

-- A run that succeeds posts the `count` slots from the producer index on, round the ring of
-- 4096: each holds a receive WQE of 2048 bytes for its own buffer under the memory key, a slot
-- posted before that is not among them keeps its WQE, the producer index grows by `count`
-- modulo 2^32, and both doorbell words hold its low 24 bits. It succeeds only for a valid queue
-- and 1 to 4096 buffers.
pub post_buffers_posts :
    (mkey count : ℕ) (rq : Rq) (host : Host) (rq' : Rq) (host' : Host)
    → Ready mkey rq host
    → post_buffers mkey count rq host ≡ (true, rq', host')
    → (rq.valid ≡ true)
      × (0 < count)
      × (count ≤ 4096)
      × (rq'.prod_index ≡ (rq.prod_index + count) % 2 ^ 32)
      × ((k : ℕ) → k < count → IsPosted mkey rq' ((rq.prod_index + k) % 4096))
      × ((s : ℕ)
          → ((k : ℕ) → k < count → s ≢ (rq.prod_index + k) % 4096)
          → IsPosted mkey rq s
          → IsPosted mkey rq' s)
      × (get_be32 rq'.dbr 0 ≡ rq'.prod_index % 2 ^ 24)
      × (get_be32 rq'.dbr 4 ≡ rq'.prod_index % 2 ^ 24)
unfolding rq_ring
post_buffers_posts mkey count rq host rq' host' ready e =
    let ran = post_buffers-Ran mkey count rq host rq' host' e in
    let posts = loop-Posts count mkey rq host ran.last host' ran.few ready ran.looped in
    let bells = doorbells-rq_ring ran.last in
    rw ran.result (
      ran.valid,
      ran.some_buffers,
      ran.few,
      posts.index,
      (λ k h. rung (posts.posted k h)),
      (λ s apart old. rung (posts.kept s apart old)),
      bells.0,
      bells.1,
    )

-- An allocator and an IOMMU that refuse nothing.
abbrev pub Grants : Host → Type 0
Grants h = ((k : ℕ) → h.memalign k ≢ none) × ((k : ℕ) → h.map_ok k ≡ true)

post_one_granted :
    (mkey : ℕ) (rq : Rq) (host : Host)
    → Grants host
    → ((post_one mkey rq host).0 ≡ true) × Grants (post_one mkey rq host).2
unfolding post_one dma_page_alloc
post_one_granted mkey rq host grants = (
  ground (arith, grants.0 host.allocs, grants.1 host.maps),
  ((λ k. ground (arith, grants.0 k)), (λ k. ground (arith, grants.1 k))),
)

post_loop_granted :
    (n mkey : ℕ) (rq : Rq) (host : Host) → Grants host → (post_loop n mkey rq host).0 ≡ true
unfolding post_loop
post_loop_granted zero mkey rq host grants = refl
post_loop_granted (suc n) mkey rq host grants =
    let one = post_one_granted mkey rq host grants in
    rw (one.0, post_loop)
      (post_loop_granted n mkey (post_one mkey rq host).1 (post_one mkey rq host).2 one.1)

-- On a host that refuses nothing a run for a valid queue and 1 to 4096 buffers succeeds.
pub post_buffers_granted :
    (mkey count : ℕ) (rq : Rq) (host : Host)
    → Grants host
    → rq.valid ≡ true
    → 0 < count
    → count ≤ 4096
    → (post_buffers mkey count rq host).0 ≡ true
unfolding post_buffers
post_buffers_granted mkey count rq host grants valid pos few =
    ground (arith, post_loop_granted count mkey rq host grants)
