-- ===== src/Tests.antt =====
-- Concrete data for the tests, and the tests of each group in a child module.
pub mod Transmit
pub mod Receive
pub mod Control
pub mod Objects
pub mod Frames
pub mod Lifetime
pub mod Addresses
pub mod Benchmark
use mlx_nic_driver.Base.{
  ℕ, zero, suc, ◌+◌, ◌*◌, ◌/◌, ◌%◌, ◌^◌, Bool, true, false, Option, none, some, List, [], ◌∷◌, ltb,
  ◌==◌, if◌then◌else◌,
}
use mlx_nic_driver.Word.{Bytes, zeroed, put8, put_be32, put_be16}
use mlx_nic_driver.Dma.{DmaPage, no_page, Host}
use mlx_nic_driver.Cq.{Cq}
use mlx_nic_driver.Cq.Ring.{Cqe}
use mlx_nic_driver.Sq.{Sq, Bar}
use mlx_nic_driver.Rq.{Rq}
use mlx_nic_driver.Cmd.{Answer, Firmware, Ctx}
use mlx_nic_driver.Dev.{Dev, Queue, Config, ok}
use mlx_nic_driver.Tx.{Pkt}

-- An allocator and an IOMMU that grant everything, and an allocator that is out of memory.
abbrev pub host : Host
host = record {
  memalign = λ k. some (k * 4096 + 4096);
  map_ok = λ k. true;
  unmap_ok = λ k. true;
  allocs = 0;
  maps = 0;
  unmaps = 0;
  mapped = [];
  heap = [];
  refused = [];
}

abbrev pub full_host : Host
full_host = record host { memalign = λ k. none }

abbrev pub cq : Cq
cq = record { dbr = zeroed; cqn = 5; cons_index = 0; valid = true }

abbrev pub sq : Sq
sq = record {
  ring = zeroed;
  dbr = zeroed;
  sqn = 7;
  prod_index = 8190;
  cons_index = 8190;
  valid = true;
}

abbrev pub rq : Rq
rq = record {
  ring = zeroed;
  dbr = zeroed;
  rx_pages = λ s. no_page;
  rqn = 9;
  prod_index = 4095;
  rx_iova_base = 0x0c100000;
  valid = true;
}

abbrev pub bar : Bar
bar = record { size = 2 ^ 20; doorbells = [] }

abbrev pub config : Config
config = record { flags = 3; rx_post_count = 4096; queue_count = 1; log_verbose = false }

abbrev pub queue : Queue
queue = record { tx_cq = cq; rx_cq = cq; sq = sq; rq = rq; rx_outstanding = 2 }

abbrev pub dev : Dev
dev = record {
  config = config;
  queue_count = 1;
  uar = 1;
  mkey = 0x100;
  tisn = 3;
  bar = bar;
  host = host;
  queues = λ q. queue;
  started = true;
  last_error = ok;
}

-- Frames of 60 bytes; the last of `bad_pkts` is too short.
abbrev pub pkts : ℕ → Pkt
pkts i = record { data_bytes = λ k. k % 256; len = 60 }

abbrev pub bad_pkts : ℕ → Pkt
bad_pkts i = record { data_bytes = λ k. k % 256; len = if i == 1 then 59 else 60 }

-- A completion ring with one completion, for a frame of 60 bytes in slot 0, and views of it.
abbrev pub cqes : ℕ → Cqe
cqes n = record { opcode = 2; low = 0; byte_cnt = 60; wqe_counter = 0 }

abbrev pub cq_ring : Bytes
cq_ring = put_be16 0x3c 0 (put_be32 0x2c 60 (put8 0x3f 0x20 (λ i. 0xff)))

abbrev pub views : ℕ → Bytes
views k = cq_ring

-- A firmware that answers with object number 0x33 at once.
abbrev pub fw : Firmware
fw n desc inbox outbox = record {
  after = 0;
  desc = put_be32 40 0x33 (put8 63 0 desc);
  outbox = outbox;
}

abbrev pub ctx : Ctx
ctx = record {
  desc = zeroed;
  inbox = zeroed;
  outbox = zeroed;
  inbox_iova = 0x01800000;
  outbox_iova = 0x02000000;
  token = 255;
  commands = 0;
  fw_pages = [];
  host = host;
}
