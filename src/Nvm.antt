-- ===== src/Nvm.antt =====
-- lib/nvm.c and lib/nvlog.c: the root object of the heap in non-volatile memory, which is prepared when
-- the heap is opened. `loaded` is the root as the heap's library gives it, `is_created` whether that
-- made a new heap; `left_over` is what the variable `need_recovery` holds before it is set.
pub mod Crash
use timestone.Base.{
  ℕ, ◌+◌, ◌^◌, ◌≡◌, Bool, true, false, not, ◌&&◌, Option, none, some, ◌==◌, if◌then◌else◌, add_u64,
}
use timestone.Config.{min_version}

-- ts_nvm_root_obj_t; 0 is NULL.
pub record Root : Type 0 where
  pub magic : ℕ
  pub gen_id : ℕ
  pub next : ℕ
  pub last_ckpt_clk : ℕ

abbrev pub nvpool_magic : ℕ
nvpool_magic = 0x6E6F7453656D6954

-- The stores before the first barrier, and the one behind it.
abbrev pub clear_root : Root → Root
clear_root r = record r { magic = 0; next = 0; last_ckpt_clk = min_version }

abbrev pub set_magic : Root → Root
set_magic r = record r { magic = nvpool_magic }

abbrev pub next_gen : Root → Root
next_gen r = record r { gen_id = add_u64 r.gen_id 1 }

abbrev pub is_prepared : Root → Bool
is_prepared r = r.magic == nvpool_magic

-- The root, and whether a recovery is needed; `none` is a heap that cannot be loaded.
unfoldable pub nvm_init_heap : Option Root → Bool → Bool → Option (Root × Bool)
nvm_init_heap none is_created left_over = none
nvm_init_heap (some r) is_created left_over =
    let root = if is_prepared r then r else set_magic (clear_root r) in
    let bad_magic = if is_prepared r then left_over else true in
    let with_logs = if not bad_magic && not (root.next == 0) then true else bad_magic in
    some (next_gen root, if is_created then false else with_logs)

-- The clock is stored only if it is another one.
unfoldable pub nvlog_set_last_ckpt_clk : Root → ℕ → Root
nvlog_set_last_ckpt_clk r clk =
    if r.last_ckpt_clk == clk then r else record r { last_ckpt_clk = clk }

abbrev pub nvlog_get_last_ckpt_clk : Root → ℕ
nvlog_get_last_ckpt_clk r = r.last_ckpt_clk
