-- ===== src/Ledger/Given.antt =====
-- About the account over `mlx5_ctx_give_pages`.
use mlx_nic_driver.Base.{
  ℕ, zero, suc, ◌+◌, ◌*◌, ◌≡◌, refl, sym, subst, arith, Bool, true, false, ◌||◌, Option, none, some,
  List, [], ◌∷◌, ◌++◌, ltb, ◌==◌, length, Bool-cases, inl, inr,
}
use mlx_nic_driver.Word.{Bytes, zeroed, put_be16, put_be32, put_be64}
use mlx_nic_driver.Dma.{DmaPage, Host, alloc_aligned_zero, vfio_dma_map, free_block}
use mlx_nic_driver.Cmd.{Firmware, Ctx}
use mlx_nic_driver.Pages.{give_one, give_loop, give_pages}
use mlx_nic_driver.Ledger.{Probe, owns, recount, Ledger-sane, like, took}
use mlx_nic_driver.Ledger.Call.{owns_list, Paid, cmd_exec-Paid}

owns_list-append :
    (x : Probe) (ps : List DmaPage) (p : DmaPage)
    → owns_list x (ps ++ (p ∷ [])) ≡ owns x p + owns_list x ps
owns_list-append x [] p = refl
owns_list-append x (q ∷ ps) p = omega (arith, owns_list-append x ps p)

module _ (x : Probe) (b n : ℕ) where
  abbrev PaidOne : Bool × Ctx → Type 0
  PaidOne (done, ctx) = Paid x b n ctx

  give_one-PaidOne : (iova : ℕ) (ctx : Ctx) → Paid x b n ctx → PaidOne (give_one iova ctx)
  unfolding give_one alloc_aligned_zero vfio_dma_map free_block
  give_one-PaidOne iova ctx paid = blocks (ctx.host.memalign ctx.host.allocs) refl
    where
      like_before :
          (h : Host)
          → h.mapped ≡ ctx.host.mapped
          → h.heap ≡ ctx.host.heap
          → h.refused ≡ ctx.host.refused
          → h.memalign ≡ ctx.host.memalign
          → give_one iova ctx ≡ (false, record ctx { host = h })
          → PaidOne (give_one iova ctx)
      like_before h e f k g result = subst PaidOne (sym result) (
          like x b (owns_list x ctx.fw_pages + n) ctx.host h
            (rw g (Ledger-sane x b (owns_list x ctx.fw_pages + n) ctx.host paid)) e f k paid)

      maps :
          (a : ℕ)
          → ctx.host.memalign ctx.host.allocs ≡ some a
          → (ok : Bool) → ctx.host.map_ok ctx.host.maps ≡ ok
          → PaidOne (give_one iova ctx)
      maps a e true e2 =
          let page : DmaPage = record { addr = a; iova = iova; len = 4096 } in
          let h : Host = record ctx.host {
            allocs = ctx.host.allocs + 1;
            heap = a ∷ ctx.host.heap;
            maps = ctx.host.maps + 1;
            mapped = record { iova = iova; len = 4096 } ∷ ctx.host.mapped;
          } in
          let ctx' : Ctx = record ctx { host = h; fw_pages = ctx.fw_pages ++ (page ∷ []) } in
          let result : give_one iova ctx ≡ (true, ctx') = ground (arith, e, e2) in
          let more =
            took x b (owns_list x ctx.fw_pages + n) page ctx.host (ctx.host.allocs + 1)
              (ctx.host.maps + 1)
              (Ledger-sane x b (owns_list x ctx.fw_pages + n) ctx.host paid ctx.host.allocs a e)
              paid in
          subst PaidOne (sym result) (
            recount x b _ (owns_list x (ctx.fw_pages ++ (page ∷ [])) + n) h
              (omega (arith, owns_list-append x ctx.fw_pages page)) more)
      maps a e false e2 =
          let h : Host = record ctx.host {
            allocs = ctx.host.allocs + 1;
            maps = ctx.host.maps + 1;
          } in
          like_before h refl refl refl refl (ground (arith, e, e2))

      blocks : (o : Option ℕ) → ctx.host.memalign ctx.host.allocs ≡ o → PaidOne (give_one iova ctx)
      blocks none e =
          like_before (record ctx.host { allocs = ctx.host.allocs + 1 }) refl refl refl refl
            (ground (arith, e))
      blocks (some a) e = maps a e (ctx.host.map_ok ctx.host.maps) refl

  abbrev PaidLoop : Bool × Bytes × Ctx → Type 0
  PaidLoop (done, inp, ctx) = Paid x b n ctx

  give_loop-PaidLoop :
      (left i base : ℕ) (inp : Bytes) (ctx : Ctx)
      → Paid x b n ctx
      → PaidLoop (give_loop left i base inp ctx)
  unfolding give_loop
  give_loop-PaidLoop zero i base inp ctx paid = paid
  give_loop-PaidLoop (suc left) i base inp ctx paid =
      go (give_one (base + i * 4096) ctx) refl (give_one-PaidOne (base + i * 4096) ctx paid)
        (give_loop-PaidLoop left (i + 1) base (put_be64 (0x10 + i * 8) (base + i * 4096) inp))
    where
      go :
          (t : Bool × Ctx)
          → give_one (base + i * 4096) ctx ≡ t
          → PaidOne t
          → ((c : Ctx)
              → Paid x b n c
              → PaidLoop
                  (give_loop left (i + 1) base (put_be64 (0x10 + i * 8) (base + i * 4096) inp) c))
          → PaidLoop (give_loop (suc left) i base inp ctx)
      go (false, c) e p next =
          let result : give_loop (suc left) i base inp ctx ≡ (false, inp, c) = ground (arith, e) in
          subst PaidLoop (sym result) p
      go (true, c) e p next =
          let result : give_loop (suc left) i base inp ctx
              ≡ give_loop left (i + 1) base (put_be64 (0x10 + i * 8) (base + i * 4096) inp) c =
            ground (arith, e) in
          subst PaidLoop (sym result) (next c p)

  -- Every page that the firmware is given is on the list, also if giving them stops half-way.
  pub give_pages-Paid :
      (fw : Firmware) (function_id num_pages : ℕ) (ctx : Ctx)
      → Paid x b n ctx
      → Paid x b n (give_pages fw function_id num_pages ctx).1
  unfolding give_pages
  give_pages-Paid fw function_id num_pages ctx paid =
      let count = length ctx.fw_pages in
      let (got, pas, c) = give_loop num_pages 0 (0x03000000 + count * 4096) zeroed ctx in
      let looped = give_loop-PaidLoop num_pages 0 (0x03000000 + count * 4096) zeroed ctx paid in
      let inp =
        put_be32 0x0c num_pages
          (put_be16 0x0a function_id (put_be16 0x06 1 (put_be16 0 0x108 pas))) in
      elim (Bool-cases (num_pages == 0)) [
        | inl nothing ↦ rw nothing paid
        | inr some_pages ↦ elim (Bool-cases (ltb 8192 num_pages || ltb 8192 (count + num_pages))) [
          | inl many ↦ rw (some_pages, many) paid
          | inr few ↦ elim (Bool-cases got) [
            | inr stopped ↦ rw (some_pages, few, stopped) looped
            | inl done ↦
                rw (some_pages, few, done)
                  (cmd_exec-Paid x b n fw inp (16 + num_pages * 8) 16 c looped)
          ]
        ]
      ]
