-- ===== src/Ledger/Alloc.antt =====
-- About the account over the allocation of the pages of a queue, all or none.
use mlx_nic_driver.Base.{ℕ, ◌+◌, ◌≡◌, refl, sym, subst, arith, Option, none, some}
use mlx_nic_driver.Dma.{DmaPage, Host, dma_region_alloc, dma_page_alloc, dma_page_free}
use mlx_nic_driver.Obj.Cqs.{cq_dma_bytes, alloc_cq_pages}
use mlx_nic_driver.Obj.Sqs.{sq_dma_bytes, sq_iova, alloc_sq_pages}
use mlx_nic_driver.Obj.Rqs.{rq_dma_bytes, rq_iova, alloc_rq_pages}
use mlx_nic_driver.Ledger.{
  Probe, owns, Ledger, Granted, recount, dma_page_free-Ledger, dma_region_alloc-Granted,
}

-- Two pages, or none.
abbrev pub GrantedTwo : Probe → (b n : ℕ) → Option (DmaPage × DmaPage) × Host → Type 0
GrantedTwo x b n (none, h) = Ledger x b n h
GrantedTwo x b n (some (r, d), h) = Ledger x b (owns x r + (owns x d + n)) h

abbrev pub GrantedThree : Probe → (b n : ℕ) → Option (DmaPage × DmaPage × DmaPage) × Host → Type 0
GrantedThree x b n (none, h) = Ledger x b n h
GrantedThree x b n (some (r, d, t), h) = Ledger x b (owns x r + (owns x d + (owns x t + n))) h

module _ (x : Probe) (b n : ℕ) where
  granted :
      (iova len m : ℕ) (h : Host) (t : Option DmaPage × Host)
      → dma_region_alloc iova len h ≡ t
      → Ledger x b m h
      → Granted x b m t
  granted iova len m h t e l = subst (Granted x b m) e (dma_region_alloc-Granted x b m iova len h l)

  -- The second page on top of the first one, which goes back if it is refused.
  two_pages :
      (alloc : Host → Option (DmaPage × DmaPage) × Host) (iova len iova' : ℕ)
      → ((h h1 : Host) → dma_region_alloc iova len h ≡ (none, h1) → alloc h ≡ (none, h1))
      → ((h h1 h2 : Host) (r : DmaPage)
          → dma_region_alloc iova len h ≡ (some r, h1)
          → dma_region_alloc iova' 4096 h1 ≡ (none, h2)
          → alloc h ≡ (none, dma_page_free r h2))
      → ((h h1 h2 : Host) (r d : DmaPage)
          → dma_region_alloc iova len h ≡ (some r, h1)
          → dma_region_alloc iova' 4096 h1 ≡ (some d, h2)
          → alloc h ≡ (some (r, d), h2))
      → (h : Host) → Ledger x b n h
      → GrantedTwo x b n (alloc h)
  two_pages alloc iova len iova' no_ring no_dbr both h l = first (dma_region_alloc iova len h) refl
    where
      second :
          (r : DmaPage) (h1 : Host)
          → dma_region_alloc iova len h ≡ (some r, h1)
          → (t : Option DmaPage × Host) → dma_region_alloc iova' 4096 h1 ≡ t
          → GrantedTwo x b n (alloc h)
      second r h1 e (none, h2) e2 =
          let has =
            granted iova' 4096 (owns x r + n) h1 (none, h2) e2
              (granted iova len n h (some r, h1) e l) in
          subst (GrantedTwo x b n) (sym (no_dbr h h1 h2 r e e2))
            (dma_page_free-Ledger x b n r h2 has)
      second r h1 e (some d, h2) e2 =
          let has =
            granted iova' 4096 (owns x r + n) h1 (some d, h2) e2
              (granted iova len n h (some r, h1) e l) in
          subst (GrantedTwo x b n) (sym (both h h1 h2 r d e e2)) (
            recount x b (owns x d + (owns x r + n)) (owns x r + (owns x d + n)) h2 (omega arith)
              has)

      first :
          (t : Option DmaPage × Host) → dma_region_alloc iova len h ≡ t → GrantedTwo x b n (alloc h)
      first (none, h1) e =
          subst (GrantedTwo x b n) (sym (no_ring h h1 e)) (granted iova len n h (none, h1) e l)
      first (some r, h1) e = second r h1 e (dma_region_alloc iova' 4096 h1) refl

  pub alloc_cq_pages-GrantedTwo :
      (cq_iova dbr_iova : ℕ) (h : Host)
      → Ledger x b n h
      → GrantedTwo x b n (alloc_cq_pages cq_iova dbr_iova h)
  unfolding alloc_cq_pages dma_page_alloc
  alloc_cq_pages-GrantedTwo cq_iova dbr_iova h =
      two_pages (alloc_cq_pages cq_iova dbr_iova) cq_iova cq_dma_bytes dbr_iova
        (λ h h1 e. ground (arith, e)) (λ h h1 h2 r e e2. ground (arith, e, e2))
        (λ h h1 h2 r d e e2. ground (arith, e, e2)) h

  pub alloc_rq_pages-GrantedTwo :
      (queue_id : ℕ) (h : Host) → Ledger x b n h → GrantedTwo x b n (alloc_rq_pages queue_id h)
  unfolding alloc_rq_pages dma_page_alloc
  alloc_rq_pages-GrantedTwo q h =
      two_pages (alloc_rq_pages q) (rq_iova q) rq_dma_bytes (rq_iova q + 0x00010000)
        (λ h h1 e. ground (arith, e)) (λ h h1 h2 r e e2. ground (arith, e, e2))
        (λ h h1 h2 r d e e2. ground (arith, e, e2)) h

  pub alloc_sq_pages-GrantedThree :
      (q : ℕ) (h : Host) → Ledger x b n h → GrantedThree x b n (alloc_sq_pages q h)
  unfolding alloc_sq_pages dma_page_alloc
  alloc_sq_pages-GrantedThree q h l = first (dma_region_alloc (sq_iova q) sq_dma_bytes h) refl
    where
      third :
          (r d : DmaPage) (h1 h2 : Host)
          → dma_region_alloc (sq_iova q) sq_dma_bytes h ≡ (some r, h1)
          → dma_region_alloc (sq_iova q + 0x00080000) 4096 h1 ≡ (some d, h2)
          → Ledger x b (owns x d + (owns x r + n)) h2
          → (t : Option DmaPage × Host) → dma_region_alloc (sq_iova q + 0x00081000) 4096 h2 ≡ t
          → GrantedThree x b n (alloc_sq_pages q h)
      third r d h1 h2 e e2 has (none, h3) e3 =
          let result : alloc_sq_pages q h ≡ (none, dma_page_free r (dma_page_free d h3)) =
            ground (arith, e, e2, e3) in
          let has3 = granted _ 4096 (owns x d + (owns x r + n)) h2 (none, h3) e3 has in
          subst (GrantedThree x b n) (sym result) (
            dma_page_free-Ledger x b n r (dma_page_free d h3)
              (dma_page_free-Ledger x b (owns x r + n) d h3 has3))
      third r d h1 h2 e e2 has (some p, h3) e3 =
          let result : alloc_sq_pages q h ≡ (some (r, d, p), h3) = ground (arith, e, e2, e3) in
          let has3 = granted _ 4096 (owns x d + (owns x r + n)) h2 (some p, h3) e3 has in
          subst (GrantedThree x b n) (sym result)
            (recount x b _ (owns x r + (owns x d + (owns x p + n))) h3 (omega arith) has3)

      second :
          (r : DmaPage) (h1 : Host)
          → dma_region_alloc (sq_iova q) sq_dma_bytes h ≡ (some r, h1)
          → (t : Option DmaPage × Host) → dma_region_alloc (sq_iova q + 0x00080000) 4096 h1 ≡ t
          → GrantedThree x b n (alloc_sq_pages q h)
      second r h1 e (none, h2) e2 =
          let result : alloc_sq_pages q h ≡ (none, dma_page_free r h2) = ground (arith, e, e2) in
          subst (GrantedThree x b n) (sym result) (
            dma_page_free-Ledger x b n r h2
              (granted _ 4096 (owns x r + n) h1 (none, h2) e2 (granted _ _ n h (some r, h1) e l)))
      second r h1 e (some d, h2) e2 =
          third r d h1 h2 e e2
            (granted _ 4096 (owns x r + n) h1 (some d, h2) e2 (granted _ _ n h (some r, h1) e l))
            (dma_region_alloc (sq_iova q + 0x00081000) 4096 h2) refl

      first :
          (t : Option DmaPage × Host)
          → dma_region_alloc (sq_iova q) sq_dma_bytes h ≡ t
          → GrantedThree x b n (alloc_sq_pages q h)
      first (none, h1) e =
          let result : alloc_sq_pages q h ≡ (none, h1) = ground (arith, e) in
          subst (GrantedThree x b n) (sym result) (granted _ _ n h (none, h1) e l)
      first (some r, h1) e = second r h1 e (dma_region_alloc (sq_iova q + 0x00080000) 4096 h1) refl
