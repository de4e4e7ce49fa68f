-- ===== src/Ledger/Call.antt =====
-- About the account over a call on the command context that makes or takes down an object.
use mlx_nic_driver.Base.{
  ℕ, ◌+◌, ◌≡◌, refl, sym, subst, arith, Bool, true, false, Option, none, some, List, [], ◌∷◌,
  if◌then◌else◌, Bool-cases, inl, inr,
}
use mlx_nic_driver.Word.{Bytes}
use mlx_nic_driver.Dma.{DmaPage, no_page, Host}
use mlx_nic_driver.Cmd.{Firmware, Ctx, cmd_exec}
use mlx_nic_driver.Ledger.Alloc.{GrantedTwo}
use mlx_nic_driver.Obj.Clean.{cmd_exec_host}
use mlx_nic_driver.Pages.Numbered.{cmd_exec_fw_pages}
use mlx_nic_driver.Ledger.{Probe, region, block, owns, Ledger, recount}

abbrev pub owns_list : Probe → List DmaPage → ℕ
owns_list x [] = 0
owns_list x (p ∷ ps) = owns x p + owns_list x ps

-- The account of a command context: the firmware's pages, and `n` besides.
abbrev pub Paid : Probe → (b n : ℕ) → Ctx → Type 0
Paid x b n ctx = Ledger x b (owns_list x ctx.fw_pages + n) ctx.host

pub Paid-recount : (x : Probe) (b n m : ℕ) (ctx : Ctx) → n ≡ m → Paid x b n ctx → Paid x b m ctx
Paid-recount x b n m ctx e = subst (λ k. Paid x b k ctx) e

-- A command takes nothing and gives nothing back.
pub cmd_exec-Paid :
    (x : Probe) (b n : ℕ) (fw : Firmware) (inp : Bytes) (in_len out_len : ℕ) (ctx : Ctx)
    → Paid x b n ctx
    → Paid x b n (cmd_exec fw inp in_len out_len ctx).2
cmd_exec-Paid x b n fw inp in_len out_len ctx paid =
    rw (cmd_exec_host fw inp in_len out_len ctx, cmd_exec_fw_pages fw inp in_len out_len ctx) paid

module _ (x : Probe) (b n : ℕ) where
  -- What the command of a creation leaves, with `m` more owned.
  ran :
      (m : ℕ) (ctx : Ctx) (h : Host) (fw : Firmware) (inp : Bytes) (in_len : ℕ)
      → Ledger x b (m + (owns_list x ctx.fw_pages + n)) h
      → Ledger x b
          (m + (owns_list x (cmd_exec fw inp in_len 16 (record ctx { host = h })).2.fw_pages + n))
          (cmd_exec fw inp in_len 16 (record ctx { host = h })).2.host
  ran m ctx h fw inp in_len l =
      let start : Ctx = record ctx { host = h } in
      rw (cmd_exec_host fw inp in_len 16 start, cmd_exec_fw_pages fw inp in_len 16 start) l

-- The account after an operation that yields a result that owns `owned` of it.
abbrev pub Paying : {A : Type 0} → (A → ℕ) → Probe → (b n : ℕ) → Bool × A × Ctx → Type 0
Paying owned x b n (done, res, ctx) = Paid x b (owned res + n) ctx

pub owns-no_page : (x : Probe) → owns x no_page ≡ 0
owns-no_page (region i l) = refl
owns-no_page (block a) = refl

-- The end of a creation: a command, and the pages given back if it fails.
abbrev pub finish :
    {A : Type 0} → Firmware → Bytes → ℕ → Ctx → (Bytes → A) → A → (Host → Host) → Bool × A × Ctx
finish fw inp in_len ctx kept dropped give_back =
    let (done, out, ctx') = cmd_exec fw inp in_len 16 ctx in
    if done
    then (true, kept out, ctx')
    else (false, dropped, record ctx' { host = give_back ctx'.host })

module _ (x : Probe) (b n : ℕ) (fw : Firmware) where
  pub nothing :
      {A : Type 0} (owned : A → ℕ) (res : A) (done : Bool) (ctx : Ctx) (h : Host)
      → owned res ≡ 0
      → Ledger x b (owns_list x ctx.fw_pages + n) h
      → Paying owned x b n (done, res, record ctx { host = h })
  nothing owned res done ctx h e l =
      recount x b _ (owns_list x ctx.fw_pages + (owned res + n)) h (omega (arith, e)) l

  pub finish-Paying :
      {A : Type 0} (owned : A → ℕ) (inp : Bytes) (in_len : ℕ) (ctx : Ctx) (h : Host)
      (kept : Bytes → A) (dropped : A) (give_back : Host → Host) (m : ℕ)
      → owned dropped ≡ 0
      → ((out : Bytes) → owned (kept out) ≡ m)
      → ((k : ℕ) (h' : Host) → Ledger x b (m + k) h' → Ledger x b k (give_back h'))
      → Ledger x b (m + (owns_list x ctx.fw_pages + n)) h
      → Paying owned x b n (finish fw inp in_len (record ctx { host = h }) kept dropped give_back)
  finish-Paying owned inp in_len ctx h kept dropped give_back m none_left all back l =
      let (done, out, after_run) = cmd_exec fw inp in_len 16 (record ctx { host = h }) in
      let rest = owns_list x after_run.fw_pages in
      let paid = ran x b n m ctx h fw inp in_len l in
      elim (Bool-cases done) [
        | inl y ↦
            rw (y, all out)
              (recount x b (m + (rest + n)) (rest + (m + n)) after_run.host (omega arith) paid)
        | inr failed ↦ rw failed (
            nothing owned dropped false after_run (give_back after_run.host) none_left
              (back (rest + n) after_run.host paid))
      ]

  -- A creation that takes two pages and runs one command.
  pub two_created :
      {A : Type 0} (owned : A → ℕ) (ctx : Ctx) (pages : Option (DmaPage × DmaPage) × Host)
      (made : Bool × A × Ctx) (inp : DmaPage → DmaPage → Bytes) (in_len : ℕ)
      (kept : DmaPage → DmaPage → Bytes → A) (dropped : A)
      (give_back : DmaPage → DmaPage → Host → Host)
      → owned dropped ≡ 0
      → ((r d : DmaPage) (out : Bytes) → owned (kept r d out) ≡ owns x r + owns x d)
      → ((r d : DmaPage) (k : ℕ) (h : Host)
          → Ledger x b (owns x r + owns x d + k) h
          → Ledger x b k (give_back r d h))
      → ((h : Host) → pages ≡ (none, h) → made ≡ (false, dropped, record ctx { host = h }))
      → ((r d : DmaPage) (h : Host)
          → pages ≡ (some (r, d), h)
          → made
            ≡ finish fw
                (inp r d)
                in_len
                (record ctx { host = h })
                (kept r d)
                dropped
                (give_back r d))
      → GrantedTwo x b (owns_list x ctx.fw_pages + n) pages
      → Paying owned x b n made
  two_created {A} owned ctx pages made inp in_len kept dropped give_back none_left all back refused
        got =
      go pages refl
    where
      go :
          (t : Option (DmaPage × DmaPage) × Host)
          → pages ≡ t
          → GrantedTwo x b (owns_list x ctx.fw_pages + n) t
          → Paying owned x b n made
      go (none, h) e l =
          subst (Paying owned x b n) (sym (refused h e))
            (nothing owned dropped false ctx h none_left l)
      go (some (r, d), h) e l = subst (Paying owned x b n) (sym (got r d h e)) (
          finish-Paying owned (inp r d) in_len ctx h (kept r d) dropped (give_back r d)
            (owns x r + owns x d) none_left (all r d) (back r d)
            (recount x b _ (owns x r + owns x d + (owns_list x ctx.fw_pages + n)) h (omega arith)
              l))

  -- What a destruction gives back.
  pub given_back :
      {A : Type 0} (owned : A → ℕ) (m : ℕ) (res : A) (done : Bool) (give_back : Host → Host)
      (ctx : Ctx)
      → owned res ≡ 0
      → ((k : ℕ) (h : Host) → Ledger x b (m + k) h → Ledger x b k (give_back h))
      → Paid x b (m + n) ctx
      → Paying owned x b n (done, res, record ctx { host = give_back ctx.host })
  given_back owned m res done give_back ctx none_left back paid =
      nothing owned res done ctx (give_back ctx.host) none_left (
        back (owns_list x ctx.fw_pages + n) ctx.host
          (recount x b _ (m + (owns_list x ctx.fw_pages + n)) ctx.host (omega arith) paid))
