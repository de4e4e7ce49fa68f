-- ===== src/Vfio/Balance.antt =====
-- About the descriptors and the mapping of `vfio_device_open` and `vfio_device_close`.
use mlx_nic_driver.Base.{
  ℕ, Option, none, some, Option-cases, inl, inr, ◌≡◌, ◌∙◌, ◌+◌, if◌then◌else◌, arith, true, false,
  ◌/◌, ◌%◌,
}
use mlx_nic_driver.Vfio.{
  VfioDevice, Process, Kernel, enable_bus_master, vfio_device_close, vfio_device_open, is_some,
  flag,
}

-- The command register: what it held, or what was written over it.
abbrev pub register : (held : ℕ) → (written : Option ℕ) → ℕ
register held none = held
register held (some cmd) = cmd

-- The device can be driven: it is open and mapped, and bit 2 of its command register, which held
-- `held`, is set, all other bits as they were.
pub record IsUsable (dev : VfioDevice) (held : Option ℕ) (written : Option ℕ) : Type 0 where
  pub container : is_some dev.container_fd ≡ true
  pub group : is_some dev.group_fd ≡ true
  pub device : is_some dev.device_fd ≡ true
  pub bar0 : is_some dev.bar0 ≡ true
  pub master :
      (cmd : ℕ) × (held ≡ some cmd)
      × (register cmd written / 4 % 2 ≡ 1)
      × (register cmd written / 8 ≡ cmd / 8)
      × (register cmd written % 4 ≡ cmd % 4)
      × (dev.pci_command ≡ register cmd written)

-- What an opening writes to the command register, and what it notes of it.
wrote :
    (k : Kernel) (p : Process) (cmd : ℕ)
    → k.command ≡ some cmd
    → (vfio_device_open k p).0 ≡ true
    → (vfio_device_open k p).3 ≡ (if flag cmd 2 then none else some (cmd + 4))
unfolding vfio_device_open enable_bus_master
wrote k p cmd told e = ground (arith, told)

noted :
    (k : Kernel) (p : Process) (cmd : ℕ)
    → k.command ≡ some cmd
    → (vfio_device_open k p).0 ≡ true
    → (vfio_device_open k p).1.pci_command ≡ (if flag cmd 2 then cmd else cmd + 4)
unfolding vfio_device_open enable_bus_master
noted k p cmd told e = ground (arith, told)

told_of :
    (k : Kernel) (p : Process)
    → (vfio_device_open k p).0 ≡ true
    → (cmd : ℕ) × (k.command ≡ some cmd)
unfolding vfio_device_open enable_bus_master
told_of k p e = elim (Option-cases k.command) [
  | inl silent ↦ absurd (ground (arith, silent))
  | inr told ↦ told
]

-- With bit 2 added where it is missing, the register has it, and all else as before.
set_bit :
    (cmd : ℕ)
    → let r : ℕ = register cmd (if flag cmd 2 then none else some (cmd + 4)) in
      (r / 4 % 2 ≡ 1)
      × (r / 8 ≡ cmd / 8)
      × (r % 4 ≡ cmd % 4)
      × ((if flag cmd 2 then cmd else cmd + 4) ≡ r)
set_bit cmd = (ground arith, ground arith, ground arith, ground arith)

IsUsable-master :
    (k : Kernel) (p : Process)
    → (vfio_device_open k p).0 ≡ true
    → (cmd : ℕ) × (k.command ≡ some cmd)
      × (register cmd (vfio_device_open k p).3 / 4 % 2 ≡ 1)
      × (register cmd (vfio_device_open k p).3 / 8 ≡ cmd / 8)
      × (register cmd (vfio_device_open k p).3 % 4 ≡ cmd % 4)
      × ((vfio_device_open k p).1.pci_command ≡ register cmd (vfio_device_open k p).3)
IsUsable-master k p e =
    let (cmd, told) = told_of k p e in
    let set = set_bit cmd in
    let stored = noted k p cmd told e ∙ set.3 in
    let w = wrote k p cmd told e in (cmd, told, rw w set.0, rw w set.1, rw w set.2, rw w stored)

-- An opening either fails and leaves the process with the descriptors and mappings that it had,
-- or it yields a usable device: its descriptors are open and BAR0 is mapped, the PCI command
-- register has the bus master bit set and every other bit as the kernel reported it, and
-- `pci_command` is that register; and closing the device leaves the process with what it had.
pub vfio_device_open_balance :
    (k : Kernel) (p : Process)
    → ((vfio_device_open k p).0 ≡ false → (vfio_device_open k p).2 ≡ p)
      × ((vfio_device_open k p).0 ≡ true
          → IsUsable (vfio_device_open k p).1 k.command (vfio_device_open k p).3
            × ((vfio_device_close (vfio_device_open k p).1 (vfio_device_open k p).2).1 ≡ p))
unfolding vfio_device_open vfio_device_close enable_bus_master
vfio_device_open_balance k p = (
  (λ e. ground arith),
  (λ e. (
    record {
      container = ground arith;
      group = ground arith;
      device = ground arith;
      bar0 = ground arith;
      master = IsUsable-master k p e;
    },
    ground arith,
  )),
)
