-- ===== src/Tests/Validation.antt =====
-- The read set of a transaction that has read one object, with a copy at 8.
use timestone.Base.{◌≡◌, ◌↔◌, refl, Bool, true, false, some, List, [], ◌∷◌, arith}
use timestone.Memory.{Memory, Obj, new_vhdr}
use timestone.Tvlog.{zero_chs}
use timestone.Isolation.{serializability, Isolation, stale_read_occurred, validate_read_set}
use timestone.Isolation.Validate.{ReadEntry, AllLatest, validate_read_set-AllLatest}

abbrev memory : Memory
memory = record {
  act = λ a. record { p_act_vhdr = some a; gen_id = 0; index = 0; obj_size = 0; obj = [] };
  vhdr = λ v. record (new_vhdr v) { p_copy = some 8 };
  chs = λ c. zero_chs;
  ws = λ w. record {
    wrt_clk = 0;
    pending_wrt_clk = 0;
    num_objs = 0;
    start_tail_cnt = 0;
    thread = 0;
  };
  ckpt = λ e. record {
    wrt_clk = 0;
    ckpt_s_clk = 0;
    np_org_act = 0;
    tombstone = false;
    obj_size = 0;
    obj = [];
  };
}

abbrev reads : List ReadEntry
reads = record { p_act_vhdr = 7; p_latest = 8; version = 8 } ∷ []

abbrev isolation : Isolation
isolation = record {
  level = serializability;
  stale_read_occured = false;
  read_set = record { num_ptrs = 3; num_max_ptrs = 4; ptrs = some (7 ∷ 8 ∷ 8 ∷ 0 ∷ []) };
}

validate_read_set-AllLatest_example :
    (b : Bool) × (validate_read_set 2 Obj.cpy memory isolation ≡ some b)
    × ((b ≡ true) ↔ ((stale_read_occurred isolation ≡ false) × AllLatest Obj.cpy memory reads))
validate_read_set-AllLatest_example =
    validate_read_set-AllLatest 2 Obj.cpy memory isolation reads refl
      (record { fits = omega arith; size = refl }) refl (omega arith)
