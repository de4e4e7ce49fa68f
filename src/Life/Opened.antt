-- ===== src/Life/Opened.antt =====
-- About the account over the opening and the closing of the command context.
use mlx_nic_driver.Base.{
  ℕ, ◌+◌, ◌≡◌, ◌≢◌, refl, sym, subst, arith, Bool, true, false, Option, none, some, List, [], ◌∷◌,
}
use mlx_nic_driver.Dma.{DmaPage, Host, alloc_aligned_zero, vfio_dma_map, vfio_dma_unmap, free_block}
use mlx_nic_driver.Ledger.{
  Probe, region, block, mapping, memory, Ledger, Ledger-sane, recount, like, unmap_page,
  unmap_page-Ledger, free_ptr, free_ptr-Ledger,
}
use mlx_nic_driver.Ledger.Call.{owns_list, Paid}
use mlx_nic_driver.Life.Account.{owns_buffers}
use mlx_nic_driver.Life.{
  Session, unmap_pages, free_pages, cmdq_page, inbox_page, outbox_page, ctx_close,
}

abbrev mapped_list : Probe → List DmaPage → ℕ
mapped_list x [] = 0
mapped_list x (p ∷ ps) = mapping x p + mapped_list x ps

abbrev memory_list : Probe → List DmaPage → ℕ
memory_list x [] = 0
memory_list x (p ∷ ps) = memory x p.addr + memory_list x ps

owns_list_split :
    (x : Probe) (ps : List DmaPage) → owns_list x ps ≡ mapped_list x ps + memory_list x ps
owns_list_split x [] = refl
owns_list_split x (p ∷ ps) = omega (arith, owns_list_split x ps)

module _ (x : Probe) (b : ℕ) where
  unmap_pages-Ledger :
      (n : ℕ) (ps : List DmaPage) (h : Host)
      → Ledger x b (mapped_list x ps + n) h
      → Ledger x b n (unmap_pages ps h)
  unfolding unmap_pages vfio_dma_unmap
  unmap_pages-Ledger n [] h l = recount x b _ n h (omega arith) l
  unmap_pages-Ledger n (p ∷ ps) h l = unmap_pages-Ledger n ps (unmap_page p h) (
      unmap_page-Ledger x b (mapped_list x ps + n) p h
        (recount x b _ (mapping x p + (mapped_list x ps + n)) h (omega arith) l))

  free_pages-Ledger :
      (n : ℕ) (ps : List DmaPage) (h : Host)
      → Ledger x b (memory_list x ps + n) h
      → Ledger x b n (free_pages ps h)
  unfolding free_pages free_block
  free_pages-Ledger n [] h l = recount x b _ n h (omega arith) l
  free_pages-Ledger n (p ∷ ps) h l = free_pages-Ledger n ps (free_ptr p.addr h) (
      free_ptr-Ledger x b (memory_list x ps + n) p.addr h
        (recount x b _ (memory x p.addr + (memory_list x ps + n)) h (omega arith) l))

  -- Closing the context gives back its buffers and the firmware's pages.
  pub ctx_close-Ledger :
      (s : Session) → Paid x b (owns_buffers x s) s.ctx → Ledger x b 0 (ctx_close s).ctx.host
  unfolding ctx_close vfio_dma_unmap free_block
  ctx_close-Ledger s paid =
      let c = cmdq_page s in
      let i = inbox_page s in
      let o = outbox_page s in
      let pages = s.ctx.fw_pages in
      let kept = memory x s.cmdq + (memory x s.inbox + memory x s.outbox) + memory_list x pages in
      let h0 = s.ctx.host in
      let h1 = unmap_page o h0 in
      let h2 = unmap_page i h1 in
      let h3 = unmap_page c h2 in
      let l0 : Ledger x b
          (mapping x o + (mapping x i + (mapping x c + (mapped_list x pages + kept)))) h0 =
        recount x b _ _ h0 (omega (arith, owns_list_split x pages)) paid in
      let l3 =
        unmap_page-Ledger x b _ c h2
          (unmap_page-Ledger x b _ i h1 (unmap_page-Ledger x b _ o h0 l0)) in
      let h4 = unmap_pages pages h3 in
      let l4 : Ledger x b
          (memory x s.outbox + (memory x s.inbox + (memory x s.cmdq + (memory_list x pages + 0))))
          h4 =
        recount x b kept _ h4 (omega arith) (unmap_pages-Ledger kept pages h3 l3) in
      let h5 = free_ptr s.outbox h4 in
      let h6 = free_ptr s.inbox h5 in
      let l6 = free_ptr-Ledger x b _ s.inbox h5 (free_ptr-Ledger x b _ s.outbox h4 l4) in
      free_pages-Ledger 0 pages (free_ptr s.cmdq h6) (free_ptr-Ledger x b _ s.cmdq h6 l6)

-- What an allocation and a mapping come to.
abbrev pub GrantedBlock : Probe → (b n : ℕ) → Option ℕ × Host → Type 0
GrantedBlock x b n (none, h) = Ledger x b n h
GrantedBlock x b n (some a, h) = (a ≢ 0) × Ledger x b (memory x a + n) h

abbrev pub GrantedMap : Probe → (b n : ℕ) → DmaPage → Bool × Host → Type 0
GrantedMap x b n p (true, h) = Ledger x b (mapping x p + n) h
GrantedMap x b n p (false, h) = Ledger x b n h

pub alloc_aligned_zero-GrantedBlock :
    (x : Probe) (b n : ℕ) (h : Host) → Ledger x b n h → GrantedBlock x b n (alloc_aligned_zero h)
unfolding alloc_aligned_zero
alloc_aligned_zero-GrantedBlock x b n h l = go (h.memalign h.allocs) refl
  where
    more :
        (y : Probe) (a : ℕ)
        → a ≢ 0
        → Ledger y b n h
        → Ledger y b (memory y a + n) (record h { allocs = h.allocs + 1; heap = a ∷ h.heap })
    more (region i k) a ne (sane, few) = (sane, omega (arith, few))
    more (block c) a ne (sane, same) = (sane, ground arith)

    go : (o : Option ℕ) → h.memalign h.allocs ≡ o → GrantedBlock x b n (alloc_aligned_zero h)
    go none e =
        let h' : Host = record h { allocs = h.allocs + 1 } in
        let result : alloc_aligned_zero h ≡ (none, h') = ground (arith, e) in
        subst (GrantedBlock x b n) (sym result)
          (like x b n h h' (Ledger-sane x b n h l) refl refl refl l)
    go (some a) e =
        let ne = Ledger-sane x b n h l h.allocs a e in
        let result : alloc_aligned_zero h
            ≡ (some a, record h { allocs = h.allocs + 1; heap = a ∷ h.heap }) =
          ground (arith, e) in
        subst (GrantedBlock x b n) (sym result) (ne, more x a ne l)

pub vfio_dma_map-GrantedMap :
    (x : Probe) (b n : ℕ) (p : DmaPage) (h : Host)
    → p.addr ≢ 0
    → Ledger x b n h
    → GrantedMap x b n p (vfio_dma_map p.iova p.len h)
unfolding vfio_dma_map
vfio_dma_map-GrantedMap x b n p h ne l = go (h.map_ok h.maps) refl
  where
    more :
        (y : Probe)
        → Ledger y b n h
        → Ledger y b (mapping y p + n) (record h {
          maps = h.maps + 1;
          mapped = record { iova = p.iova; len = p.len } ∷ h.mapped;
        })
    more (region i k) (sane, few) = (sane, ground arith)
    more (block c) (sane, same) = (sane, omega (arith, same))

    go : (ok : Bool) → h.map_ok h.maps ≡ ok → GrantedMap x b n p (vfio_dma_map p.iova p.len h)
    go true e =
        let result : vfio_dma_map p.iova p.len h ≡ (
          true,
          record h { maps = h.maps + 1; mapped = record { iova = p.iova; len = p.len } ∷ h.mapped },
        ) =
          ground (arith, e) in
        subst (GrantedMap x b n p) (sym result) (more x l)
    go false e =
        let h' : Host = record h { maps = h.maps + 1 } in
        let result : vfio_dma_map p.iova p.len h ≡ (false, h') = ground (arith, e) in
        subst (GrantedMap x b n p) (sym result)
          (like x b n h h' (Ledger-sane x b n h l) refl refl refl l)

pub slack :
    (x : Probe) (b n : ℕ) (p : DmaPage) (h : Host) → Ledger x b n h → Ledger x b (mapping x p + n) h
slack (region i k) b n p h (sane, few) = (sane, omega (arith, few))
slack (block a) b n p h (sane, same) = (sane, omega (arith, same))
