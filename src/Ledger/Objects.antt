-- ===== src/Ledger/Objects.antt =====
-- About the account over the creation and the destruction of the event queue and of completion
-- queues.
use mlx_nic_driver.Base.{
  ℕ, ◌+◌, ◌≡◌, refl, sym, subst, arith, true, false, Option, none, some, if◌then◌else◌, Bool-cases,
  inl, inr,
}
use mlx_nic_driver.Word.{Bytes, zeroed, low_bits, get_be32}
use mlx_nic_driver.Dma.{DmaPage, no_page, Host, dma_page_alloc, dma_page_free}
use mlx_nic_driver.Cmd.{Firmware, Ctx, cmd_exec}
use mlx_nic_driver.Obj.{command, command_on, id24}
use mlx_nic_driver.Word.{put8}
use mlx_nic_driver.Obj.Ids.{Eq, no_eq, create_eq, create_eq_in, destroy_eq}
use mlx_nic_driver.Obj.Cqs.{
  CqRes, no_cq, alloc_cq_pages, free_cq_pages, create_cq, create_cq_in, destroy_cq,
}
use mlx_nic_driver.Obj.Sqs.{SqRes}
use mlx_nic_driver.Ledger.Alloc.{alloc_cq_pages-GrantedTwo}
use mlx_nic_driver.Ledger.{
  Probe, owns, Ledger, Granted, recount, dma_page_free-Ledger, dma_page_alloc-Granted,
}
use mlx_nic_driver.Ledger.Call.{
  owns_list, Paid, cmd_exec-Paid, Paying, owns-no_page, finish, nothing, finish-Paying, two_created,
  given_back,
}

abbrev pub owns_cq : Probe → CqRes → ℕ
owns_cq x res = owns x res.cq_page + owns x res.dbr_page

abbrev pub owns_sq : Probe → SqRes → ℕ
owns_sq x res = owns x res.sq_page + (owns x res.dbr_page + owns x res.tx_page)

module _ (x : Probe) (b n : ℕ) (fw : Firmware) where
  pub free_cq_pages-Ledger :
      (r d : DmaPage) (k : ℕ) (h : Host)
      → Ledger x b (owns x r + owns x d + k) h
      → Ledger x b k (free_cq_pages r d h)
  unfolding free_cq_pages
  free_cq_pages-Ledger r d k h l = dma_page_free-Ledger x b k r (dma_page_free d h) (
      dma_page_free-Ledger x b (owns x r + k) d h
        (recount x b _ (owns x d + (owns x r + k)) h (omega arith) l))

  pub create_cq-Paying :
      (uar : ℕ) (eq : Eq) (cq_iova dbr_iova : ℕ) (ctx : Ctx)
      → Paid x b n ctx
      → Paying (owns_cq x) x b n (create_cq fw uar eq cq_iova dbr_iova ctx)
  unfolding create_cq
  create_cq-Paying uar eq cq_iova dbr_iova ctx paid =
      let none_left : owns_cq x no_cq ≡ 0 = rw (owns-no_page x) refl in
      elim (Bool-cases eq.valid) [
        | inr invalid ↦
            let result : create_cq fw uar eq cq_iova dbr_iova ctx ≡ (false, no_cq, ctx) =
              ground (arith, invalid) in
            subst (Paying (owns_cq x) x b n) (sym result)
              (nothing x b n fw (owns_cq x) no_cq false ctx ctx.host none_left paid)
        | inl valid ↦
            two_created x b n fw (owns_cq x) ctx (alloc_cq_pages cq_iova dbr_iova ctx.host)
              (create_cq fw uar eq cq_iova dbr_iova ctx)
              (λ r d. create_cq_in uar eq.eqn d.iova r.iova) 0x210
              (λ r d out. record {
                cq_page = r;
                dbr_page = d;
                ring = λ i. 0xff;
                cq = record { dbr = zeroed; cqn = id24 out; cons_index = 0; valid = true };
              })
              no_cq free_cq_pages none_left (λ r d out. refl) free_cq_pages-Ledger
              (λ h e. ground (arith, e, valid)) (λ r d h e. ground (arith, e, valid))
              (alloc_cq_pages-GrantedTwo x b (owns_list x ctx.fw_pages + n) cq_iova dbr_iova
                ctx.host paid)
      ]

  pub destroy_cq-Paying :
      (res : CqRes) (ctx : Ctx)
      → Paid x b (owns_cq x res + n) ctx
      → Paying (owns_cq x) x b n (destroy_cq fw res ctx)
  unfolding destroy_cq
  destroy_cq-Paying res ctx paid =
      let left : CqRes = record res { cq_page = no_page; dbr_page = no_page } in
      let inp = command_on 0x401 res.cq.cqn in
      let back = free_cq_pages-Ledger res.cq_page res.dbr_page in
      elim (Bool-cases res.cq.valid) [
        | inl e ↦ rw e (
            given_back x b n fw (owns_cq x) (owns_cq x res) left (cmd_exec fw inp 16 16 ctx).0
              (free_cq_pages res.cq_page res.dbr_page) (cmd_exec fw inp 16 16 ctx).2
              (rw (owns-no_page x) refl) back
              (cmd_exec-Paid x b (owns_cq x res + n) fw inp 16 16 ctx paid))
        | inr e ↦ rw e (
            given_back x b n fw (owns_cq x) (owns_cq x res) left true
              (free_cq_pages res.cq_page res.dbr_page) ctx (rw (owns-no_page x) refl) back paid)
      ]

  pub create_eq-Paying :
      (uar : ℕ) (ctx : Ctx)
      → Paid x b n ctx
      → Paying (λ eq. owns x eq.page) x b n (create_eq fw uar ctx)
  unfolding create_eq
  create_eq-Paying uar ctx paid =
      go (dma_page_alloc 0x07200000 ctx.host) refl
        (dma_page_alloc-Granted x b (owns_list x ctx.fw_pages + n) 0x07200000 ctx.host paid)
    where
      go :
          (t : Option DmaPage × Host)
          → dma_page_alloc 0x07200000 ctx.host ≡ t
          → Granted x b (owns_list x ctx.fw_pages + n) t
          → Paying (λ eq. owns x eq.page) x b n (create_eq fw uar ctx)
      go (none, h) e l =
          let result : create_eq fw uar ctx ≡ (false, no_eq, record ctx { host = h }) =
            ground (arith, e) in
          subst (Paying (λ eq. owns x eq.page) x b n) (sym result)
            (nothing x b n fw (λ eq. owns x eq.page) no_eq false ctx h (owns-no_page x) l)
      go (some p, h) e l =
          let kept : Bytes → Eq =
            λ out. record { page = p; eqn = low_bits (get_be32 out 8) 8; valid = true } in
          let result : create_eq fw uar ctx
              ≡ finish fw (create_eq_in uar p.iova) 0x118 (record ctx { host = h }) kept no_eq
                  (dma_page_free p) =
            ground (arith, e) in
          subst (Paying (λ eq. owns x eq.page) x b n) (sym result) (
            finish-Paying x b n fw (λ eq. owns x eq.page) (create_eq_in uar p.iova) 0x118 ctx h kept
              no_eq (dma_page_free p) (owns x p) (owns-no_page x) (λ out. refl)
              (λ k h'. dma_page_free-Ledger x b k p h') l)

  pub destroy_eq-Paying :
      (eq : Eq) (ctx : Ctx)
      → Paid x b (owns x eq.page + n) ctx
      → Paying (λ eq. owns x eq.page) x b n (destroy_eq fw eq ctx)
  unfolding destroy_eq
  destroy_eq-Paying eq ctx paid =
      let inp = put8 0x0b eq.eqn (command 0x302) in
      let ran_it = cmd_exec fw inp 16 16 ctx in
      let back : (k : ℕ) (h : Host)
          → Ledger x b (owns x eq.page + k) h
          → Ledger x b k (dma_page_free eq.page h) =
        λ k h. dma_page_free-Ledger x b k eq.page h in
      elim (Bool-cases eq.valid) [
        | inl e ↦ rw e (
            given_back x b n fw (λ q. owns x q.page) (owns x eq.page)
              (record eq { page = no_page; valid = if ran_it.0 then false else true }) ran_it.0
              (dma_page_free eq.page) ran_it.2 (owns-no_page x) back
              (cmd_exec-Paid x b (owns x eq.page + n) fw inp 16 16 ctx paid))
        | inr e ↦ rw e (
            given_back x b n fw (λ q. owns x q.page) (owns x eq.page) (record eq { page = no_page })
              true (dma_page_free eq.page) ctx (owns-no_page x) back paid)
      ]
