-- ===== src/Ledger/Queues.antt =====
-- About the account over the creation and the destruction of send and receive queues.
use mlx_nic_driver.Base.{
  ℕ, zero, suc, ◌+◌, ◌≡◌, refl, sym, subst, arith, true, false, not, Option, none, some, Bool-cases,
  inl, inr,
}
use mlx_nic_driver.Word.{Bytes}
use mlx_nic_driver.Dma.{DmaPage, no_page, Host, dma_page_free}
use mlx_nic_driver.Cmd.{Firmware, Ctx, cmd_exec}
use mlx_nic_driver.Cq.{Cq}
use mlx_nic_driver.Obj.{command_on, id24}
use mlx_nic_driver.Obj.Sqs.{
  SqRes, no_sq, no_queue, alloc_sq_pages, free_sq_pages, create_sq, create_sq_in, destroy_sq,
}
use mlx_nic_driver.Obj.Rqs.{
  RqRes, no_rq, new_rq, alloc_rq_pages, free_rq_pages, create_rq, create_rq_in, destroy_rq, free_rq,
  free_buffers,
}
use mlx_nic_driver.Ledger.{Probe, owns, Ledger, recount, dma_page_free-Ledger}
use mlx_nic_driver.Ledger.Sum.{sum, sum_zero}
use mlx_nic_driver.Ledger.Alloc.{
  GrantedThree, alloc_rq_pages-GrantedTwo, alloc_sq_pages-GrantedThree,
}
use mlx_nic_driver.Ledger.Call.{
  owns_list, Paid, Paying, cmd_exec-Paid, owns-no_page, finish, nothing, finish-Paying, two_created,
  given_back,
}
use mlx_nic_driver.Ledger.Objects.{owns_sq}

abbrev pub owns_slots : Probe → (ℕ → DmaPage) → ℕ
owns_slots x pages = sum 4096 0 (λ s. owns x (pages s))

abbrev pub owns_rq : Probe → RqRes → ℕ
owns_rq x res = owns x res.rq_page + owns x res.dbr_page + owns_slots x res.rq.rx_pages

pub owns_slots-no_page : (x : Probe) → owns_slots x (λ s. no_page) ≡ 0
owns_slots-no_page x = sum_zero 4096 0 (λ s. owns x no_page) (λ k lo hi. owns-no_page x)

module _ (x : Probe) (b n : ℕ) (fw : Firmware) where
  free_sq_pages-Ledger :
      (r d t : DmaPage) (k : ℕ) (h : Host)
      → Ledger x b (owns x r + (owns x d + owns x t) + k) h
      → Ledger x b k (free_sq_pages r d t h)
  unfolding free_sq_pages
  free_sq_pages-Ledger r d t k h l =
      dma_page_free-Ledger x b k r (dma_page_free d (dma_page_free t h)) (
        dma_page_free-Ledger x b (owns x r + k) d (dma_page_free t h) (
          dma_page_free-Ledger x b (owns x d + (owns x r + k)) t h
            (recount x b _ (owns x t + (owns x d + (owns x r + k))) h (omega arith) l)))

  no_sq-owns_sq : owns_sq x no_sq ≡ 0
  no_sq-owns_sq = rw (owns-no_page x) refl

  pub create_sq-Paying :
      (uar pd tisn : ℕ) (cq : Cq) (q : ℕ) (ctx : Ctx)
      → Paid x b n ctx
      → Paying (owns_sq x) x b n (create_sq fw uar pd tisn cq q ctx)
  unfolding create_sq
  create_sq-Paying uar pd tisn cq q ctx paid = elim (Bool-cases cq.valid) [
    | inr invalid ↦
        let result : create_sq fw uar pd tisn cq q ctx ≡ (false, no_sq, ctx) =
          ground (arith, invalid) in
        subst (Paying (owns_sq x) x b n) (sym result)
          (nothing x b n fw (owns_sq x) no_sq false ctx ctx.host no_sq-owns_sq paid)
    | inl valid ↦
        paged valid (alloc_sq_pages q ctx.host) refl
          (alloc_sq_pages-GrantedThree x b (owns_list x ctx.fw_pages + n) q ctx.host paid)
  ]
    where
      paged :
          cq.valid ≡ true
          → (t : Option (DmaPage × DmaPage × DmaPage) × Host) → alloc_sq_pages q ctx.host ≡ t
          → GrantedThree x b (owns_list x ctx.fw_pages + n) t
          → Paying (owns_sq x) x b n (create_sq fw uar pd tisn cq q ctx)
      paged valid (none, h) e l =
          let result : create_sq fw uar pd tisn cq q ctx ≡ (false, no_sq, record ctx { host = h }) =
            ground (arith, e, valid) in
          subst (Paying (owns_sq x) x b n) (sym result)
            (nothing x b n fw (owns_sq x) no_sq false ctx h no_sq-owns_sq l)
      paged valid (some (r, d, t), h) e l =
          let inp = create_sq_in uar pd tisn cq.cqn d.iova r.iova in
          let kept : Bytes → SqRes = λ out. record {
            sq_page = r;
            dbr_page = d;
            tx_page = t;
            sq = record no_queue { sqn = id24 out; valid = true };
          } in
          let result : create_sq fw uar pd tisn cq q ctx
              ≡ finish fw inp 0x510 (record ctx { host = h }) kept no_sq (free_sq_pages r d t) =
            ground (arith, e, valid) in
          let all = owns x r + (owns x d + owns x t) in
          subst (Paying (owns_sq x) x b n) (sym result) (
            finish-Paying x b n fw (owns_sq x) inp 0x510 ctx h kept no_sq (free_sq_pages r d t) all
              no_sq-owns_sq (λ out. refl) (free_sq_pages-Ledger r d t)
              (recount x b _ (all + (owns_list x ctx.fw_pages + n)) h (omega arith) l))

  pub destroy_sq-Paying :
      (res : SqRes) (ctx : Ctx)
      → Paid x b (owns_sq x res + n) ctx
      → Paying (owns_sq x) x b n (destroy_sq fw res ctx)
  unfolding destroy_sq
  destroy_sq-Paying res ctx paid =
      let left : SqRes = record res { sq_page = no_page; dbr_page = no_page; tx_page = no_page } in
      let inp = command_on 0x906 res.sq.sqn in
      let ran_it = cmd_exec fw inp 16 16 ctx in
      let free = free_sq_pages res.sq_page res.dbr_page res.tx_page in
      let back = free_sq_pages-Ledger res.sq_page res.dbr_page res.tx_page in
      elim (Bool-cases res.sq.valid) [
        | inl e ↦ rw e (
            given_back x b n fw (owns_sq x) (owns_sq x res) left ran_it.0 free ran_it.2
              no_sq-owns_sq back (cmd_exec-Paid x b (owns_sq x res + n) fw inp 16 16 ctx paid))
        | inr e ↦ rw e (
            given_back x b n fw (owns_sq x) (owns_sq x res) left true free ctx no_sq-owns_sq back
              paid)
      ]

  free_rq_pages-Ledger :
      (r d : DmaPage) (k : ℕ) (h : Host)
      → Ledger x b (owns x r + owns x d + k) h
      → Ledger x b k (free_rq_pages r d h)
  unfolding free_rq_pages
  free_rq_pages-Ledger r d k h l = dma_page_free-Ledger x b k r (dma_page_free d h) (
      dma_page_free-Ledger x b (owns x r + k) d h
        (recount x b _ (owns x d + (owns x r + k)) h (omega arith) l))

  empty_rq :
      (res : RqRes)
      → res.rq_page ≡ no_page
      → res.dbr_page ≡ no_page
      → res.rq.rx_pages ≡ (λ s. no_page)
      → owns_rq x res ≡ 0
  empty_rq res e f g =
      let ring : owns x res.rq_page ≡ 0 = rw e (owns-no_page x) in
      let dbr : owns x res.dbr_page ≡ 0 = rw f (owns-no_page x) in
      let slots : owns_slots x res.rq.rx_pages ≡ 0 = rw g (owns_slots-no_page x) in omega arith

  pub create_rq-Paying :
      (pd counter : ℕ) (cq : Cq) (q : ℕ) (ctx : Ctx)
      → Paid x b n ctx
      → Paying (owns_rq x) x b n (create_rq fw pd counter cq q ctx)
  unfolding create_rq
  create_rq-Paying pd counter cq q ctx paid =
      let none_left : owns_rq x (no_rq q) ≡ 0 = empty_rq (no_rq q) refl refl refl in
      elim (Bool-cases cq.valid) [
        | inr invalid ↦
            let result : create_rq fw pd counter cq q ctx ≡ (false, no_rq q, ctx) =
              ground (arith, invalid) in
            subst (Paying (owns_rq x) x b n) (sym result)
              (nothing x b n fw (owns_rq x) (no_rq q) false ctx ctx.host none_left paid)
        | inl valid ↦
            two_created x b n fw (owns_rq x) ctx (alloc_rq_pages q ctx.host)
              (create_rq fw pd counter cq q ctx)
              (λ r d. create_rq_in pd counter cq.cqn d.iova r.iova) 0x210
              (λ r d out. record {
                rq_page = r;
                dbr_page = d;
                rq = record (new_rq q) { rqn = id24 out; valid = true };
              })
              (no_rq q) free_rq_pages none_left (λ r d out. omega (arith, owns_slots-no_page x))
              free_rq_pages-Ledger (λ h e. ground (arith, e, valid))
              (λ r d h e. ground (arith, e, valid))
              (alloc_rq_pages-GrantedTwo x b (owns_list x ctx.fw_pages + n) q ctx.host paid)
      ]

  free_buffers-Ledger :
      (left i : ℕ) (pages : ℕ → DmaPage) (k : ℕ) (h : Host)
      → Ledger x b (sum left i (λ s. owns x (pages s)) + k) h
      → Ledger x b k (free_buffers left i pages h)
  unfolding free_buffers sum
  free_buffers-Ledger zero i pages k h l = recount x b _ k h (omega arith) l
  free_buffers-Ledger (suc left) i pages k h l =
      let rest = sum left (i + 1) (λ s. owns x (pages s)) in
      free_buffers-Ledger left (i + 1) pages k (dma_page_free (pages i) h) (
        dma_page_free-Ledger x b (rest + k) (pages i) h
          (recount x b _ (owns x (pages i) + (rest + k)) h (omega arith) l))

  free_rq-Ledger :
      (res : RqRes) (k : ℕ) (h : Host)
      → Ledger x b (owns_rq x res + k) h
      → Ledger x b k (free_rq res h)
  unfolding free_rq
  free_rq-Ledger res k h l =
      let pages = owns x res.rq_page + owns x res.dbr_page in
      free_rq_pages-Ledger res.rq_page res.dbr_page k (free_buffers 4096 0 res.rq.rx_pages h) (
        free_buffers-Ledger 4096 0 res.rq.rx_pages (pages + k) h
          (recount x b _ (owns_slots x res.rq.rx_pages + (pages + k)) h (omega arith) l))

  pub destroy_rq-Paying :
      (res : RqRes) (ctx : Ctx)
      → Paid x b (owns_rq x res + n) ctx
      → Paying (owns_rq x) x b n (destroy_rq fw res ctx)
  unfolding destroy_rq free_rq
  destroy_rq-Paying res ctx paid =
      let left : RqRes = record {
        rq_page = no_page;
        dbr_page = no_page;
        rq = record res.rq { rx_pages = λ s. no_page };
      } in
      let inp = command_on 0x90a res.rq.rqn in
      let ran_it = cmd_exec fw inp 16 16 ctx in
      let none_left : owns_rq x left ≡ 0 = empty_rq left refl refl refl in
      elim (Bool-cases res.rq.valid) [
        | inl e ↦ rw e (
            given_back x b n fw (owns_rq x) (owns_rq x res)
              (record left { rq = record left.rq { valid = not ran_it.0 } }) ran_it.0 (free_rq res)
              ran_it.2 none_left (free_rq-Ledger res)
              (cmd_exec-Paid x b (owns_rq x res + n) fw inp 16 16 ctx paid))
        | inr e ↦ rw e (
            given_back x b n fw (owns_rq x) (owns_rq x res) left true (free_rq res) ctx none_left
              (free_rq-Ledger res) paid)
      ]
