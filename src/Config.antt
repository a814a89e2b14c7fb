-- ===== src/Config.antt =====
-- lib/config.h and the constants and enumerations of lib/timestone_i.h.
use timestone.Base.{ℕ, ◌-◌, ◌/◌, ◌^◌}

-- ULONG_MAX - 1
abbrev pub max_version : ℕ
max_version = 2 ^ 64 - 2

abbrev pub min_version : ℕ
min_version = 0

abbrev pub init_ptr_set_size : ℕ
init_ptr_set_size = 512

abbrev pub tvlog_size : ℕ
tvlog_size = 2 ^ 20

abbrev pub tvlog_high_mark : ℕ
tvlog_high_mark = tvlog_size - tvlog_size / 4

abbrev pub tvlog_low_mark : ℕ
tvlog_low_mark = tvlog_size / 2

abbrev pub oplog_size : ℕ
oplog_size = 2 ^ 20

abbrev pub oplog_high_mark : ℕ
oplog_high_mark = oplog_size - oplog_size / 4

abbrev pub ckptlog_size : ℕ
ckptlog_size = 2 ^ 22

abbrev pub ckptlog_high_mark : ℕ
ckptlog_high_mark = ckptlog_size - ckptlog_size / 4

abbrev pub ckptlog_low_mark : ℕ
ckptlog_low_mark = ckptlog_high_mark - ckptlog_size / 8

-- TYPE_ACTUAL is 0, so it is also what a zeroed header says.
pub data ObjType : Type 0 where
  actual wrt_set copy free nvlog_entry bogus : ObjType

-- the request codes of a log reclamation, with 0 for no request
abbrev pub reclaim_tvlog_best_effort : ℕ
reclaim_tvlog_best_effort = 0x10

abbrev pub reclaim_tvlog_ckpt : ℕ
reclaim_tvlog_ckpt = 0x11

abbrev pub reclaim_ckptlog_best_effort : ℕ
reclaim_ckptlog_best_effort = 0x20

abbrev pub reclaim_ckptlog_writeback : ℕ
reclaim_ckptlog_writeback = 0x21

abbrev pub reclaim_ckptlog_writeback_all : ℕ
reclaim_ckptlog_writeback_all = 0x22
