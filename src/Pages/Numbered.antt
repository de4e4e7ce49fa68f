-- ===== src/Pages/Numbered.antt =====
-- About the list of pages that `mlx5_ctx_give_pages` keeps.
use mlx_nic_driver.Base.{
  ℕ, zero, suc, ◌+◌, ◌*◌, ◌≤◌, ◌≡◌, ◌⊎◌, ◌∙◌, inl, inr, ap, refl, sym, subst, arith, Bool, true,
  false, ◌||◌, Option, none, some, List, [], ◌∷◌, ◌++◌, ltb, ◌==◌, length, length-append,
  Bool-cases,
}
use native.Mathlib.Nat.{add-zero}
use mlx_nic_driver.Word.{Bytes, zeroed, put_be16, put_be32, put_be64}
use mlx_nic_driver.Dma.{DmaPage, Host, alloc_aligned_zero, vfio_dma_map, free_block}
use mlx_nic_driver.Cmd.{Firmware, Ctx, cmd_exec, submit}
use mlx_nic_driver.Pages.{give_one, give_loop, give_pages}

-- The pages of the list are at page `n` and after, in order, one page long.
abbrev pub Numbered : ℕ → List DmaPage → Type 0
Numbered n [] = Unit
Numbered n (p ∷ ps) = (p.iova ≡ 0x03000000 + n * 4096) × (p.len ≡ 4096) × Numbered (n + 1) ps

Numbered-append :
    (n : ℕ) (ps : List DmaPage) (p : DmaPage)
    → Numbered n ps
    → p.iova ≡ 0x03000000 + (n + length ps) * 4096
    → p.len ≡ 4096
    → Numbered n (ps ++ (p ∷ []))
Numbered-append n [] p ok at len = (rw add-zero at at, len, tt)
Numbered-append n (q ∷ ps) p ok at len =
    let next : n + suc (length ps) ≡ n + 1 + length ps = omega arith in
    (ok.0, ok.1, Numbered-append (n + 1) ps p ok.2 (rw next at at) len)

-- The context is fit: its pages are numbered, and there are at most 8192 of them.
pub record Fit (ctx : Ctx) : Type 0 where
  pub numbered : Numbered 0 ctx.fw_pages
  pub few : length ctx.fw_pages ≤ 8192

-- A round appends one page at its address, or leaves the list as it was.
abbrev Gave : ℕ → Ctx → Bool × Ctx → Type 0
Gave iova ctx (true, ctx') =
    (p : DmaPage) × (ctx'.fw_pages ≡ ctx.fw_pages ++ (p ∷ [])) × (p.iova ≡ iova) × (p.len ≡ 4096)
Gave iova ctx (false, ctx') = ctx'.fw_pages ≡ ctx.fw_pages

give_one-Gave : (iova : ℕ) (ctx : Ctx) → Gave iova ctx (give_one iova ctx)
unfolding give_one
give_one-Gave iova ctx = blocks (alloc_aligned_zero ctx.host) refl
  where
    maps :
        (addr : ℕ) (h1 : Host)
        → alloc_aligned_zero ctx.host ≡ (some addr, h1)
        → (t : Bool × Host) → vfio_dma_map iova 4096 h1 ≡ t
        → Gave iova ctx (give_one iova ctx)
    maps addr h1 e (true, h2) e2 =
        let page : DmaPage = record { addr = addr; iova = iova; len = 4096 } in
        let result : give_one iova ctx
            ≡ (true, record ctx { host = h2; fw_pages = ctx.fw_pages ++ (page ∷ []) }) =
          ground (arith, e, e2) in
        subst (Gave iova ctx) (sym result) (page, refl, refl, refl)
    maps addr h1 e (false, h2) e2 =
        let result : give_one iova ctx ≡ (false, record ctx { host = free_block addr h2 }) =
          ground (arith, e, e2) in
        subst (Gave iova ctx) (sym result) refl

    blocks :
        (t : Option ℕ × Host) → alloc_aligned_zero ctx.host ≡ t → Gave iova ctx (give_one iova ctx)
    blocks (none, h1) e =
        let result : give_one iova ctx ≡ (false, record ctx { host = h1 }) = ground (arith, e) in
        subst (Gave iova ctx) (sym result) refl
    blocks (some addr, h1) e = maps addr h1 e (vfio_dma_map iova 4096 h1) refl

-- The loop keeps the pages numbered and adds at most one per round, and all of them if it ends.
abbrev Looped : ℕ → Ctx → Bool × Bytes × Ctx → Type 0
Looped left ctx (done, inp, ctx') =
    Numbered 0 ctx'.fw_pages
    × (length ctx'.fw_pages ≤ length ctx.fw_pages + left)
    × ((done ≡ false) ⊎ (length ctx'.fw_pages ≡ length ctx.fw_pages + left))

give_loop-Looped :
    (left i base : ℕ) (inp : Bytes) (ctx : Ctx)
    → base + i * 4096 ≡ 0x03000000 + length ctx.fw_pages * 4096
    → Numbered 0 ctx.fw_pages
    → Looped left ctx (give_loop left i base inp ctx)
unfolding give_loop
give_loop-Looped zero i base inp ctx at ok = (ok, omega arith, inr (omega arith))
give_loop-Looped (suc left) i base inp ctx at ok =
    go (give_one (base + i * 4096) ctx) refl (give_one-Gave (base + i * 4096) ctx)
      (give_loop-Looped left (i + 1) base (put_be64 (0x10 + i * 8) (base + i * 4096) inp))
  where
    go :
        (t : Bool × Ctx)
        → give_one (base + i * 4096) ctx ≡ t
        → Gave (base + i * 4096) ctx t
        → ((c : Ctx)
            → base + (i + 1) * 4096 ≡ 0x03000000 + length c.fw_pages * 4096
            → Numbered 0 c.fw_pages
            → Looped left c
                (give_loop left (i + 1) base (put_be64 (0x10 + i * 8) (base + i * 4096) inp) c))
        → Looped (suc left) ctx (give_loop (suc left) i base inp ctx)
    go (false, ctx') e same next =
        let result : give_loop (suc left) i base inp ctx ≡ (false, inp, ctx') = ground (arith, e) in
        subst (Looped (suc left) ctx) (sym result) (rw same (ok, omega arith, inl refl))
    go (true, ctx') e (p, more, at_p, len_p) next =
        let result : give_loop (suc left) i base inp ctx
            ≡ give_loop left (i + 1) base (put_be64 (0x10 + i * 8) (base + i * 4096) inp) ctx' =
          ground (arith, e) in
        let longer : length ctx'.fw_pages ≡ length ctx.fw_pages + 1 =
          ap length more ∙ length-append ctx.fw_pages (p ∷ []) in
        let ok' : Numbered 0 ctx'.fw_pages =
          rw more (Numbered-append 0 ctx.fw_pages p ok (omega (arith, at_p)) len_p) in
        let rest = next ctx' (omega arith) ok' in
        subst (Looped (suc left) ctx) (sym result)
          (rest.0, omega (arith, rest.1), ground (arith, rest.2))

pub cmd_exec_fw_pages :
    (fw : Firmware) (inp : Bytes) (in_len out_len : ℕ) (ctx : Ctx)
    → (cmd_exec fw inp in_len out_len ctx).2.fw_pages ≡ ctx.fw_pages
unfolding cmd_exec submit
cmd_exec_fw_pages fw inp in_len out_len ctx = ground arith

-- Giving pages keeps the context fit, whether it succeeds or not: the k-th page that the driver
-- has handed out is at 0x03000000 + k * 4096, and there are never more than 8192. A call that
-- succeeds has handed out all the pages asked for.
pub give_pages-Fit :
    (fw : Firmware) (function_id num_pages : ℕ) (ctx : Ctx)
    → Fit ctx
    → Fit (give_pages fw function_id num_pages ctx).1
      × (((give_pages fw function_id num_pages ctx).0 ≡ false)
          ⊎ (length (give_pages fw function_id num_pages ctx).1.fw_pages
              ≡ length ctx.fw_pages + num_pages))
unfolding give_pages
give_pages-Fit fw function_id num_pages ctx fit =
    let count = length ctx.fw_pages in
    let run = give_loop num_pages 0 (0x03000000 + count * 4096) zeroed ctx in
    let looped =
      give_loop-Looped num_pages 0 (0x03000000 + count * 4096) zeroed ctx (omega arith)
        fit.numbered in
    let inp =
      put_be32 0x0c num_pages
        (put_be16 0x0a function_id (put_be16 0x06 1 (put_be16 0 0x108 run.1))) in
    let same = cmd_exec_fw_pages fw inp (16 + num_pages * 8) 16 run.2 in
    elim (Bool-cases (num_pages == 0)) [
      | inl nothing ↦ rw nothing (fit, inr (ground arith))
      | inr some_pages ↦ elim (Bool-cases (ltb 8192 num_pages || ltb 8192 (count + num_pages))) [
        | inl many ↦ rw (some_pages, many) (fit, inl refl)
        | inr few ↦
            let bound : count + num_pages ≤ 8192 = ground arith in
            let fits : Fit run.2 = record { numbered = looped.0; few = omega (arith, looped.1) } in
            elim (Bool-cases run.0) [
              | inr stopped ↦ rw (some_pages, few, stopped) (fits, inl refl)
              | inl done ↦
                  rw (some_pages, few, done)
                    (
                      record { numbered = rw same looped.0; few = rw same fits.few },
                      inr (ap length same ∙ ground (arith, looped.2)),
                    )
            ]
      ]
    ]
