-- ===== src/Obj/Clean.antt =====
-- About the pages of a completion queue over its creation and destruction.
use mlx_nic_driver.Base.{
  ℕ, if◌then◌else◌, ◌≡◌, ◌∙◌, refl, sym, ap, subst, arith, Bool, true, false, Option, none, some,
  Bool-cases, inl, inr,
}
use mlx_nic_driver.Word.{Bytes, zeroed}
use mlx_nic_driver.Dma.{DmaPage, Host, dma_region_alloc, dma_page_alloc, dma_page_free}
use mlx_nic_driver.Dma.Laws.{
  NonNull, Same, dma_region_alloc-free, dma_region_alloc_refused, dma_region_alloc-NonNull,
  dma_page_free-Same, dma_page_free-Releases, dma_region_alloc-Releases, Releases,
}
use mlx_nic_driver.Cmd.{Firmware, Ctx, cmd_exec, submit}
use mlx_nic_driver.Obj.{command_on, id24}
use mlx_nic_driver.Obj.Ids.{Eq}
use mlx_nic_driver.Obj.Cqs.{
  CqRes, cq_dma_bytes, alloc_cq_pages, free_cq_pages, create_cq, destroy_cq, create_cq_in, no_cq,
}

-- A command touches neither the allocator nor the IOMMU.
pub cmd_exec_host :
    (fw : Firmware) (inp : Bytes) (in_len out_len : ℕ) (ctx : Ctx)
    → (cmd_exec fw inp in_len out_len ctx).2.host ≡ ctx.host
unfolding cmd_exec submit
cmd_exec_host fw inp in_len out_len ctx = ground arith

-- The allocator yields no NULL, and the IOMMU refuses no unmapping.
abbrev Sound : Host → Type 0
Sound h = NonNull h × Releases h

after :
    (iova len : ℕ) (h h1 : Host) (r : Option DmaPage)
    → Sound h
    → dma_region_alloc iova len h ≡ (r, h1)
    → Sound h1
after iova len h h1 r (nonnull, grants) e =
    let got : dma_region_alloc iova len h ≡ (r, h1) = e in
    (
      subst NonNull (ap (λ t. t.1) got) (dma_region_alloc-NonNull iova len h nonnull),
      subst Releases (ap (λ t. t.1) got) (dma_region_alloc-Releases iova len h grants),
    )

-- A second page on top of what is there: given back, or refused.
alloc_then_free :
    (iova len : ℕ) (h h1 : Host) (r : DmaPage)
    → Sound h
    → dma_region_alloc iova len h ≡ (some r, h1)
    → (later : Host) → Releases later
    → Same later h1
    → Same (dma_page_free r later) h
alloc_then_free iova len h h1 r (nonnull, grants) e later grants_later same =
    let freed =
      dma_page_free-Same r later h1 grants_later
        (after iova len h h1 (some r) (nonnull, grants) e).1 same in
    let whole = dma_region_alloc-free iova len h r h1 nonnull e in
    (
      freed.0 ∙ whole.5 ∙ ap (λ b. if b then h.mapped else h1.mapped) (grants h.unmaps),
      freed.1 ∙ whole.4,
    )

-- What an allocation of two pages came to: with both given back, or none got, the program has
-- what it had.
abbrev pub Kept : Host → Option (DmaPage × DmaPage) × Host → Type 0
Kept h (none, h') = Same h' h
Kept h (some (r, d), h') = Same (free_cq_pages r d h') h

alloc_cq_pages-Kept :
    (cq_iova dbr_iova : ℕ) (h : Host) → Sound h → Kept h (alloc_cq_pages cq_iova dbr_iova h)
unfolding alloc_cq_pages free_cq_pages dma_page_alloc
alloc_cq_pages-Kept cq_iova dbr_iova h sound = first (dma_region_alloc cq_iova cq_dma_bytes h) refl
  where
    second :
        (r : DmaPage) (h1 : Host)
        → dma_region_alloc cq_iova cq_dma_bytes h ≡ (some r, h1)
        → (t : Option DmaPage × Host) → dma_region_alloc dbr_iova 4096 h1 ≡ t
        → Kept h (alloc_cq_pages cq_iova dbr_iova h)
    second r h1 e (none, h2) e2 =
        let quiet = dma_region_alloc_refused dbr_iova 4096 h1 h2 e2 in
        let result : alloc_cq_pages cq_iova dbr_iova h ≡ (none, dma_page_free r h2) =
          ground (arith, e, e2) in
        let grants = subst Releases (ap (λ t. t.1) e2) (
          dma_region_alloc-Releases dbr_iova 4096 h1
            (after cq_iova cq_dma_bytes h h1 (some r) sound e).1) in
        subst (Kept h) (sym result)
          (alloc_then_free cq_iova cq_dma_bytes h h1 r sound e h2 grants quiet)
    second r h1 e (some d, h2) e2 =
        let sound1 = after cq_iova cq_dma_bytes h h1 (some r) sound e in
        let sound2 = after dbr_iova 4096 h1 h2 (some d) sound1 e2 in
        let inner = alloc_then_free dbr_iova 4096 h1 h2 d sound1 e2 h2 sound2.1 (refl, refl) in
        let result : alloc_cq_pages cq_iova dbr_iova h ≡ (some (r, d), h2) =
          ground (arith, e, e2) in
        subst (Kept h) (sym result) (
          alloc_then_free cq_iova cq_dma_bytes h h1 r sound e (dma_page_free d h2)
            (dma_page_free-Releases d h2 sound2.1) inner)

    first :
        (t : Option DmaPage × Host)
        → dma_region_alloc cq_iova cq_dma_bytes h ≡ t
        → Kept h (alloc_cq_pages cq_iova dbr_iova h)
    first (none, h1) e =
        let result : alloc_cq_pages cq_iova dbr_iova h ≡ (none, h1) = ground (arith, e) in
        subst (Kept h) (sym result) (dma_region_alloc_refused cq_iova cq_dma_bytes h h1 e)
    first (some r, h1) e = second r h1 e (dma_region_alloc dbr_iova 4096 h1) refl

destroy_cq_host :
    (fw : Firmware) (res : CqRes) (ctx : Ctx)
    → (destroy_cq fw res ctx).2.host ≡ free_cq_pages res.cq_page res.dbr_page ctx.host
unfolding destroy_cq
destroy_cq_host fw res ctx =
    let same = cmd_exec_host fw (command_on 0x401 res.cq.cqn) 16 16 ctx in
    elim (Bool-cases res.cq.valid) [ inl e ↦ rw (e, same) refl | inr e ↦ rw e refl ]

-- What a creation came to: if it failed the program has what it had, and if not, it has so after
-- a destruction.
abbrev pub IsClean : Firmware → Ctx → Bool × CqRes × Ctx → Type 0
IsClean fw ctx (false, res, ctx') = Same ctx'.host ctx.host
IsClean fw ctx (true, res, ctx') = Same (destroy_cq fw res ctx').2.host ctx.host

module _ (fw fw' : Firmware) (uar : ℕ) (eq : Eq) (cq_iova dbr_iova : ℕ) (ctx : Ctx) where
  abbrev created : Bool × CqRes × Ctx
  created = create_cq fw uar eq cq_iova dbr_iova ctx

  abbrev ran : (r d : DmaPage) → Host → Bool × Bytes × Ctx
  ran r d h = cmd_exec fw (create_cq_in uar eq.eqn d.iova r.iova) 0x210 16 (record ctx { host = h })

  abbrev made : (r d : DmaPage) → Host → CqRes
  made r d h = record {
    cq_page = r;
    dbr_page = d;
    ring = λ i. 0xff;
    cq = record { dbr = zeroed; cqn = id24 (ran r d h).1; cons_index = 0; valid = true };
  }

  ran_clean :
      (r d : DmaPage) (h : Host)
      → eq.valid ≡ true
      → alloc_cq_pages cq_iova dbr_iova ctx.host ≡ (some (r, d), h)
      → Kept ctx.host (some (r, d), h)
      → IsClean fw' ctx created
  unfolding create_cq
  ran_clean r d h valid e kept =
      let (done, out, after_run) = ran r d h in
      let same : after_run.host ≡ h =
        cmd_exec_host fw (create_cq_in uar eq.eqn d.iova r.iova) 0x210 16
          (record ctx { host = h }) in
      elim (Bool-cases done) [
        | inl y ↦
            let result : created ≡ (true, made r d h, after_run) = ground (arith, e, valid, y) in
            let freed = destroy_cq_host fw' (made r d h) after_run in
            subst (IsClean fw' ctx) (sym result) (rw (freed, same) kept)
        | inr n ↦
            let result : created
                ≡ (false, no_cq, record after_run { host = free_cq_pages r d after_run.host }) =
              ground (arith, e, valid, n) in
            subst (IsClean fw' ctx) (sym result) (rw same kept)
      ]

  paged :
      eq.valid ≡ true
      → (t : Option (DmaPage × DmaPage) × Host) → alloc_cq_pages cq_iova dbr_iova ctx.host ≡ t
      → Kept ctx.host t
      → IsClean fw' ctx created
  unfolding create_cq
  paged valid (some (r, d), h) e kept = ran_clean r d h valid e kept
  paged valid (none, h) e kept =
      let result : created ≡ (false, no_cq, record ctx { host = h }) = ground (arith, e, valid) in
      subst (IsClean fw' ctx) (sym result) kept

-- Creating a completion queue either fails with every page given back, or yields a queue whose
-- destruction gives them back: in both cases the regions mapped and the blocks allocated are
-- those of before, whatever the firmware answers to either command. The allocator yields no NULL,
-- and the IOMMU refuses no unmapping.
pub create_cq-IsClean :
    (fw fw' : Firmware) (uar : ℕ) (eq : Eq) (cq_iova dbr_iova : ℕ) (ctx : Ctx)
    → NonNull ctx.host
    → Releases ctx.host
    → IsClean fw' ctx (create_cq fw uar eq cq_iova dbr_iova ctx)
unfolding create_cq
create_cq-IsClean fw fw' uar eq cq_iova dbr_iova ctx nonnull grants = elim (Bool-cases eq.valid) [
  | inr invalid ↦
      let result : create_cq fw uar eq cq_iova dbr_iova ctx ≡ (false, no_cq, ctx) =
        ground (arith, invalid) in
      subst (IsClean fw' ctx) (sym result) (refl, refl)
  | inl valid ↦
      paged fw fw' uar eq cq_iova dbr_iova ctx valid (alloc_cq_pages cq_iova dbr_iova ctx.host) refl
        (alloc_cq_pages-Kept cq_iova dbr_iova ctx.host (nonnull, grants))
]
