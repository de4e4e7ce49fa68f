-- ===== src/Vfio.antt =====
-- Opening and closing the device through VFIO: `vfio_device_open`, `vfio_enable_bus_master` and
-- `vfio_device_close` of src/vfio.c. The kernel's answers to the system calls of one opening are
-- an argument; prints are left out.
pub mod Balance
use mlx_nic_driver.Base.{
  ℕ, zero, suc, ◌+◌, ◌*◌, ◌/◌, ◌%◌, ◌^◌, Bool, true, false, not, ◌&&◌, ◌||◌, Option, none, some,
  List, [], ◌∷◌, ◌==◌, if◌then◌else◌,
}
use mlx_nic_driver.Word.{low_bits, shr}
use mlx_nic_driver.Dma.{erase_block}
use mlx_nic_driver.Steps.{Step, run, guard}

-- A descriptor of -1 and a region that is not mapped are `none`.
pub record VfioDevice : Type 0 where
  pub container_fd : Option ℕ
  pub group_fd : Option ℕ
  pub device_fd : Option ℕ
  pub bar0 : Option ℕ
  pub bar0_size : ℕ
  pub bar0_offset : ℕ
  pub pci_command : ℕ

abbrev pub no_device : VfioDevice
no_device = record {
  container_fd = none;
  group_fd = none;
  device_fd = none;
  bar0 = none;
  bar0_size = 0;
  bar0_offset = 0;
  pci_command = 0;
}

-- What the process has open and mapped.
pub record Process : Type 0 where
  pub fds : List ℕ
  pub bars : List ℕ

-- The device as it is filled in, and the process. `command` is what was last written to the PCI
-- command register, if anything was.
pub record Opening : Type 0 where
  pub dev : VfioDevice
  pub process : Process
  pub command : Option ℕ

-- VFIO_DEVICE_GET_REGION_INFO
pub record RegionInfo : Type 0 where
  pub flags : ℕ
  pub size : ℕ
  pub offset : ℕ

-- The kernel's answers, in the order of the calls; `none` is a failure, and so is `false`.
-- `ready`, `bound` and `named` are what the files of the device say: the outcomes of `vfio_check`,
-- of the comparison of the driver's name with "vfio-pci", and of the group's path.
pub record Kernel : Type 0 where
  pub ready : Bool
  pub bound : Bool
  pub named : Bool
  pub container : Option ℕ
  pub version : ℕ
  pub type1 : Bool
  pub group : Option ℕ
  pub status : Option ℕ
  pub set_container : Bool
  pub set_iommu : Bool
  pub device : Option ℕ
  pub info : Option ℕ
  pub config : Bool
  pub command : Option ℕ
  pub command_written : Bool
  pub region : Option RegionInfo
  pub mmap : Option ℕ

abbrev pub flag : ℕ → ℕ → Bool
flag flags bit = low_bits (shr flags bit) 1 == 1

abbrev pub flag_of : Option ℕ → ℕ → Bool
flag_of none bit = false
flag_of (some flags) bit = flag flags bit

-- A call that yields a descriptor.
abbrev pub opened : Option ℕ → Process → Process
opened none p = p
opened (some fd) p = record p { fds = fd ∷ p.fds }

-- `close_if_open`
abbrev pub close_if_open : Option ℕ → Process → Process
close_if_open none p = p
close_if_open (some fd) p = record p { fds = erase_block fd p.fds }

abbrev pub munmap_if : Option ℕ → Process → Process
munmap_if none p = p
munmap_if (some bar) p = record p { bars = erase_block bar p.bars }

abbrev pub is_some : {A : Type 0} → Option A → Bool
is_some none = false
is_some (some a) = true

abbrev pub open_container : Kernel → Step Opening
open_container k o = (
  is_some k.container,
  record o {
    dev = record o.dev { container_fd = k.container };
    process = opened k.container o.process;
  },
)

abbrev pub open_group : Kernel → Step Opening
open_group k o = (
  is_some k.group,
  record o { dev = record o.dev { group_fd = k.group }; process = opened k.group o.process },
)

abbrev pub get_device : Kernel → Step Opening
get_device k o = (
  is_some k.device,
  record o { dev = record o.dev { device_fd = k.device }; process = opened k.device o.process },
)

abbrev pub with_command : ℕ → Opening → Opening
with_command cmd o = record o { dev = record o.dev { pci_command = cmd } }

-- `vfio_enable_bus_master`: bit 2 of the PCI command register, unless it is set.
unfoldable pub enable_bus_master : Kernel → Step Opening
enable_bus_master k o = if not k.config then (false, o) else elim k.command [
  | none ↦ (false, o)
  | some cmd ↦
      let seen : Opening = with_command cmd o in
      let wanted : ℕ = cmd + 4 in
      if flag cmd 2
      then (true, seen)
      else if k.command_written
      then (true, record (with_command wanted o) { command = some wanted })
      else (false, seen)
]

abbrev pub map_bar0 : Kernel → RegionInfo → Step Opening
map_bar0 k info o =
    let dev : VfioDevice = record o.dev { bar0_size = info.size; bar0_offset = info.offset } in
    elim k.mmap [
      | none ↦ (false, record o { dev = dev })
      | some bar ↦ (
        true,
        record o {
          dev = record dev { bar0 = some bar };
          process = record o.process { bars = bar ∷ o.process.bars };
        },
      )
    ]

abbrev pub get_bar0 : Kernel → Step Opening
get_bar0 k o = elim k.region [
  | none ↦ (false, o)
  | some info ↦ if not (flag info.flags 2) || info.size == 0 then (false, o) else map_bar0 k info o
]

-- The calls from the container on, each with `goto fail`.
abbrev pub open_steps : Kernel → List (Step Opening)
open_steps k =
    open_container k
    ∷ guard (k.version == 0)
    ∷ guard k.type1
    ∷ open_group k
    ∷ guard (flag_of k.status 0)
    ∷ guard k.set_container
    ∷ guard k.set_iommu
    ∷ get_device k
    ∷ guard (flag_of k.info 1)
    ∷ enable_bus_master k
    ∷ get_bar0 k
    ∷ []

-- The container is taken off the group in between, which leaves nothing open.
unfoldable pub vfio_device_close : VfioDevice → Process → VfioDevice × Process
vfio_device_close dev p = (
  record dev {
    container_fd = none;
    group_fd = none;
    device_fd = none;
    bar0 = none;
    bar0_size = 0;
    bar0_offset = 0;
  },
  close_if_open dev.container_fd
      (close_if_open dev.group_fd (close_if_open dev.device_fd (munmap_if dev.bar0 p))),
)

-- The last component is the value written to the PCI command register, if one was.
unfoldable pub vfio_device_open : Kernel → Process → Bool × VfioDevice × Process × Option ℕ
unfolding enable_bus_master vfio_device_close
vfio_device_open k p =
    let (done, o) = run (open_steps k) (record { dev = no_device; process = p; command = none }) in
    let (closed, p') = vfio_device_close o.dev o.process in
    if not (k.ready && k.bound && k.named)
    then (false, no_device, p, none)
    else if done
    then (true, o.dev, o.process, o.command)
    else (false, closed, p', o.command)
