-- ===== src/Life/Registers.antt =====
-- About the registers of the command queue over an opening and a closing of the context.
use mlx_nic_driver.Base.{
  ℕ, ◌+◌, ◌≡◌, Bool, true, false, Option, none, some, List, [], ◌∷◌, ◌==◌, if◌then◌else◌,
}
use mlx_nic_driver.Steps.{◌then◌}
use mlx_nic_driver.Life.{Session, ctx_close}

-- What was last written to a register.
abbrev pub last_write : ℕ → List (ℕ × ℕ) → Option ℕ
last_write off [] = none
last_write off (w ∷ ws) = if w.0 == off then some w.1 else last_write off ws

-- Both registers of the command queue were last written with these values.
abbrev pub Wrote : (high low : ℕ) → Session → Type 0
Wrote high low s =
    (last_write 0x010 s.regs.writes ≡ some high) × (last_write 0x014 s.regs.writes ≡ some low)

module _ (bar : ℕ) where
  -- Nothing is saved yet.
  abbrev Unsaved : Session → Type 0
  Unsaved s = (s.cmdq_h_orig ≡ 0) × (s.cmdq_l_sz_orig ≡ 0) × (s.dev.bar0 ≡ some bar)

  -- What is saved was read from the two registers, one after the other.
  abbrev Saved : Session → Type 0
  Saved s =
      ((r : ℕ) × (s.cmdq_h_orig ≡ s.regs.read r 0x010)
        × (s.cmdq_l_sz_orig ≡ s.regs.read (r + 1) 0x014))
      × (s.dev.bar0 ≡ some bar)

-- What an opening does to the registers of the command queue.
abbrev pub IsRestored : Bool × Session → Type 0
IsRestored (true, s) =
    (r : ℕ) × Wrote (s.regs.read r 0x010) (s.regs.read (r + 1) 0x014) (ctx_close s)
IsRestored (false, s) = Wrote 0 0 s
