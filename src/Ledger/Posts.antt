-- ===== src/Ledger/Posts.antt =====
-- About the account over `mlx5_rq_post_buffers` and `mlx5_ctx_give_pages`, which take pages in
-- loops.
use mlx_nic_driver.Base.{
  ℕ, zero, suc, ◌+◌, ◌*◌, ◌%◌, ◌<◌, ◌≡◌, refl, sym, subst, arith, Bool, true, false, not, ◌||◌,
  Option, none, some, ◌==◌, Bool-cases, inl, inr, ltb, ◌∙◌,
}
use mlx_nic_driver.Dma.{DmaPage, no_page, Host, dma_page_alloc}
use mlx_nic_driver.Rq.{Rq, set_page, post_one, post_loop, post_buffers, post_wqe, rq_ring}
use mlx_nic_driver.Ledger.{Probe, owns, Ledger, Granted, recount, dma_page_alloc-Granted}
use mlx_nic_driver.Ledger.Call.{owns-no_page}
use mlx_nic_driver.Ledger.Sum.{sum_changed}
use mlx_nic_driver.Ledger.Queues.{owns_slots}

module _ (x : Probe) (b n : ℕ) where
  -- The account of the buffers' slots, and `n` besides.
  abbrev pub Stocked : Bool × Rq × Host → Type 0
  Stocked (done, rq, h) = Ledger x b (owns_slots x rq.rx_pages + n) h

  -- A slot without a page gets one.
  slot_filled :
      (pages : ℕ → DmaPage) (slot : ℕ) (p : DmaPage)
      → slot < 4096
      → owns x (pages slot) ≡ 0
      → owns x p + (owns_slots x pages + n) ≡ owns_slots x (set_page slot p pages) + n
  slot_filled pages slot p low empty =
      let changed =
        sum_changed 4096 0 slot (λ s. owns x (pages s)) (λ s. owns x (set_page slot p pages s))
          (omega arith) low (λ k apart. ground arith) in
      let here : owns x (set_page slot p pages slot) ≡ owns x p = ground arith in
      omega (arith, changed, here, empty)

  empty_slot : (p : DmaPage) → (p.addr == 0) ≡ true → owns x p ≡ 0
  empty_slot p e = ground arith

  post_one-Stocked :
      (mkey : ℕ) (rq : Rq) (h : Host)
      → Ledger x b (owns_slots x rq.rx_pages + n) h
      → Stocked (post_one mkey rq h)
  unfolding post_one
  post_one-Stocked mkey rq h l =
      elim (Bool-cases ((rq.rx_pages (rq.prod_index % 4096)).addr == 0)) [
        | inr there ↦
            let page = rq.rx_pages (rq.prod_index % 4096) in
            let result : post_one mkey rq h
                ≡ (true, post_wqe (rq.prod_index % 4096) page.iova mkey rq, h) =
              ground (arith, there) in
            subst Stocked (sym result) l
        | inl missing ↦
            filled missing (dma_page_alloc (rq.rx_iova_base + rq.prod_index % 4096 * 4096) h) refl (
              dma_page_alloc-Granted x b (owns_slots x rq.rx_pages + n)
                (rq.rx_iova_base + rq.prod_index % 4096 * 4096) h l)
      ]
    where
      filled :
          ((rq.rx_pages (rq.prod_index % 4096)).addr == 0) ≡ true
          → (t : Option DmaPage × Host)
          → dma_page_alloc (rq.rx_iova_base + rq.prod_index % 4096 * 4096) h ≡ t
          → Granted x b (owns_slots x rq.rx_pages + n) t
          → Stocked (post_one mkey rq h)
      filled missing (none, h') e l' =
          let slot = rq.prod_index % 4096 in
          let result : post_one mkey rq h
              ≡ (false, record rq { rx_pages = set_page slot no_page rq.rx_pages }, h') =
            ground (arith, e, missing) in
          let same =
            slot_filled rq.rx_pages slot no_page (omega arith)
              (empty_slot (rq.rx_pages slot) missing) in
          subst Stocked (sym result) (recount x b _ _ h' (omega (arith, same, owns-no_page x)) l')
      filled missing (some p, h') e l' =
          let slot = rq.prod_index % 4096 in
          let result : post_one mkey rq h ≡ (
            true,
            post_wqe slot p.iova mkey (record rq { rx_pages = set_page slot p rq.rx_pages }),
            h',
          ) =
            ground (arith, e, missing) in
          let same =
            slot_filled rq.rx_pages slot p (omega arith) (empty_slot (rq.rx_pages slot) missing) in
          subst Stocked (sym result) (recount x b _ _ h' same l')

  post_loop-Stocked :
      (count mkey : ℕ) (rq : Rq) (h : Host)
      → Ledger x b (owns_slots x rq.rx_pages + n) h
      → Stocked (post_loop count mkey rq h)
  unfolding post_loop
  post_loop-Stocked zero mkey rq h l = l
  post_loop-Stocked (suc count) mkey rq h l =
      go (post_one mkey rq h) refl (post_one-Stocked mkey rq h l)
        (λ rq' h' l'. post_loop-Stocked count mkey rq' h' l')
    where
      go :
          (t : Bool × Rq × Host)
          → post_one mkey rq h ≡ t
          → Stocked t
          → ((rq' : Rq) (h' : Host)
              → Ledger x b (owns_slots x rq'.rx_pages + n) h'
              → Stocked (post_loop count mkey rq' h'))
          → Stocked (post_loop (suc count) mkey rq h)
      go (true, rq', h') e l' next =
          let result : post_loop (suc count) mkey rq h ≡ post_loop count mkey rq' h' =
            ground (arith, e) in
          subst Stocked (sym result) (next rq' h' l')
      go (false, rq', h') e l' next =
          let result : post_loop (suc count) mkey rq h ≡ (false, rq', h') = ground (arith, e) in
          subst Stocked (sym result) l'

  pub post_buffers-Stocked :
      (mkey count : ℕ) (rq : Rq) (h : Host)
      → Ledger x b (owns_slots x rq.rx_pages + n) h
      → Stocked (post_buffers mkey count rq h)
  unfolding post_buffers rq_ring
  post_buffers-Stocked mkey count rq h l =
      go (post_loop count mkey rq h) refl (post_loop-Stocked count mkey rq h l)
    where
      kept : post_buffers mkey count rq h ≡ (false, rq, h) → Stocked (post_buffers mkey count rq h)
      kept result = subst Stocked (sym result) l

      go :
          (t : Bool × Rq × Host)
          → post_loop count mkey rq h ≡ t
          → Stocked t
          → Stocked (post_buffers mkey count rq h)
      go (posted, rq', h') e l' = elim (Bool-cases (not rq.valid || count == 0 || ltb 4096 count)) [
        | inl refused ↦ kept (ground (arith, refused))
        | inr fine ↦ elim (Bool-cases posted) [
          | inl y ↦
              let result : post_buffers mkey count rq h ≡ (true, rq_ring rq', h') =
                ground (arith, e, fine, y) in
              subst Stocked (sym result) l'
          | inr stopped ↦
              let result : post_buffers mkey count rq h ≡ (false, rq', h') =
                ground (arith, e, fine, stopped) in
              subst Stocked (sym result) l'
        ]
      ]

-- Neither validity nor, on a queue that is not valid, anything else changes.
post_one_valid : (mkey : ℕ) (rq : Rq) (h : Host) → (post_one mkey rq h).1.valid ≡ rq.valid
unfolding post_one
post_one_valid mkey rq h = ground arith

post_loop_valid :
    (count mkey : ℕ) (rq : Rq) (h : Host) → (post_loop count mkey rq h).1.valid ≡ rq.valid
unfolding post_loop
post_loop_valid zero mkey rq h = refl
post_loop_valid (suc count) mkey rq h =
    let one = post_one_valid mkey rq h in
    let rest = post_loop_valid count mkey (post_one mkey rq h).1 (post_one mkey rq h).2 in
    elim (Bool-cases (post_one mkey rq h).0) [
      | inl y ↦ rw (y, post_loop) (rest ∙ one)
      | inr stopped ↦ rw (stopped, post_loop) one
    ]

pub post_buffers_valid :
    (mkey count : ℕ) (rq : Rq) (h : Host)
    → ((post_buffers mkey count rq h).1.valid ≡ rq.valid)
      × (rq.valid ≡ false → (post_buffers mkey count rq h).1 ≡ rq)
unfolding post_buffers rq_ring
post_buffers_valid mkey count rq h =
    let same = post_loop_valid count mkey rq h in (ground (arith, same), λ e. ground (arith, e))
