-- ===== src/Tests/Lifetime.antt =====
-- Tests of the device's life: opening, starting and stopping it.
use mlx_nic_driver.Base.{◌≡◌, refl, arith, true, false, none, some, [], ◌∷◌}
use mlx_nic_driver.Word.{zeroed}
use mlx_nic_driver.Dma.Laws.{NonNull}
use mlx_nic_driver.Dev.{ok}
use mlx_nic_driver.Vfio.{
  no_device, Process, Kernel, vfio_device_open, vfio_device_close, enable_bus_master,
}
use mlx_nic_driver.Vfio.Balance.{IsUsable, vfio_device_open_balance}
use mlx_nic_driver.Life.{Session, Regs, ctx_open}
use mlx_nic_driver.Life.Runtime.{Runtime, zeroed_queue}
use mlx_nic_driver.Life.Device.{Handle, dev_start}
use mlx_nic_driver.Life.Balanced.{IsBalanced, dev_start-IsBalanced}
use mlx_nic_driver.Obj.Ids.{no_eq}
use mlx_nic_driver.Obj.Steer.{no_res}
use mlx_nic_driver.Tests.{config, fw, ctx}

-- A kernel that grants everything.
abbrev kernel : Kernel
kernel = record {
  ready = true;
  bound = true;
  named = true;
  container = some 3;
  version = 0;
  type1 = true;
  group = some 4;
  status = some 1;
  set_container = true;
  set_iommu = true;
  device = some 5;
  info = some 2;
  config = true;
  command = some 2;
  command_written = true;
  region = some (record { flags = 7; size = 0x2000000; offset = 0 });
  mmap = some 0x7000;
}

-- The same, but for a BAR0 that cannot be mapped.
abbrev no_mmap : Kernel
no_mmap = record kernel { mmap = none }

abbrev process : Process
process = record { fds = 2 ∷ 1 ∷ 0 ∷ []; bars = [] }

-- A device with the wrong revision of the command interface.
abbrev old_regs : Regs
old_regs = record { read = λ k off. 0x00040000; reads = 0; writes = [] }

abbrev session : Session
session = record {
  ctx = ctx;
  dev = no_device;
  process = process;
  regs = old_regs;
  cmdq = 0;
  inbox = 0;
  outbox = 0;
  cmdq_h_orig = 0;
  cmdq_l_sz_orig = 0;
}

abbrev runtime : Runtime
runtime = record {
  session = session;
  uar = 0;
  pd = 0;
  tdn = none;
  q_counter = none;
  tisn = none;
  mkey = 0;
  eq = no_eq;
  queues = λ q. zeroed_queue;
  queue_count = 0;
  rqt = no_res;
  tir = no_res;
  ft = no_res;
  fg = no_res;
  fte = no_res;
  hca_cap = zeroed;
}

abbrev handle : Handle
handle = record {
  config = config;
  rt = runtime;
  started = false;
  last_error = ok;
  rx_outstanding = λ q. 0;
}

host-NonNull : NonNull session.ctx.host
host-NonNull k a e = ground arith

dev_start-IsBalanced_example : IsBalanced fw handle (dev_start fw kernel handle)
dev_start-IsBalanced_example = dev_start-IsBalanced fw fw kernel handle refl host-NonNull refl

vfio_device_open_balance_example :
    ((vfio_device_open kernel process).0 ≡ false → (vfio_device_open kernel process).2 ≡ process)
    × ((vfio_device_open kernel process).0 ≡ true
        → IsUsable
            (vfio_device_open kernel process).1
            kernel.command
            (vfio_device_open kernel process).3
          × ((vfio_device_close
                (vfio_device_open kernel process).1
                (vfio_device_open kernel process).2).1
              ≡ process))
vfio_device_open_balance_example = vfio_device_open_balance kernel process

refused_mmap :
    vfio_device_open no_mmap process
    ≡ (false, record no_device { pci_command = 6 }, process, some 6)
unfolding vfio_device_open enable_bus_master vfio_device_close
refused_mmap = refl

-- The revision is refused before the registers are read.
old_device : (ctx_open kernel session).0 ≡ false
unfolding ctx_open vfio_device_open enable_bus_master
old_device = refl
