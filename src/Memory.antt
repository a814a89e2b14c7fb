-- ===== src/Memory.antt =====
-- The objects of lib/timestone_i.h and the functions of lib/util.h that go from one to another.
-- A pointer to an object and one to its header differ by a constant, so an object is named by one
-- address; the kind of memory that it lies in, which the C code reads off its header or its address,
-- is the constructor of `Obj`. The contents of an object are the list of its bytes.
use timestone.Base.{ℕ, add_u32, Bool, false, Option, none, some, List, update, ◌==◌}
use timestone.Config.{ObjType, copy, max_version}

-- a pointer to an object: an actual object, a copy in a transient version log, or a checkpointed one
pub data Obj : Type 0 where
  act : ℕ → Obj
  cpy : ℕ → Obj
  ckpt : ℕ → Obj

-- ts_act_hdr_struct_t: ts_act_nvhdr_t, ts_obj_hdr_t and the object
pub record Act : Type 0 where
  pub p_act_vhdr : Option ℕ
  pub gen_id : ℕ
  pub index : ℕ
  pub obj_size : ℕ
  pub obj : List ℕ

-- ts_act_vhdr_t
pub record Vhdr : Type 0 where
  pub p_copy : Option ℕ
  pub p_lock : Option ℕ
  pub np_org_act : ℕ
  pub np_cur_act : Obj
  pub tombstone_clk : ℕ

pub data Status : Type 0 where
  status_none tombstone_marked detached : Status

-- ts_cpy_hdr_struct_t: ts_cpy_hdr_t, ts_obj_hdr_t and the copy
pub record Chs : Type 0 where
  pub p_ws : ℕ
  pub wrt_clk : ℕ
  pub wrt_clk_next : ℕ
  pub wrt_clk_prev : ℕ
  pub p_copy : Option ℕ
  pub p_act_vhdr : ℕ
  pub obj_size : ℕ
  pub padding_size : ℕ
  pub type : ObjType
  pub status : Status
  pub obj : List ℕ

-- ts_wrt_set_t
pub record WrtSet : Type 0 where
  pub wrt_clk : ℕ
  pub pending_wrt_clk : ℕ
  pub num_objs : ℕ
  pub start_tail_cnt : ℕ
  pub thread : ℕ

-- ts_ckpt_entry_t: ts_nvlog_entry_hdr_t, ts_ckpt_entry_hdr_t, ts_obj_hdr_t and the object
pub record CkptEntry : Type 0 where
  pub wrt_clk : ℕ
  pub ckpt_s_clk : ℕ
  pub np_org_act : ℕ
  pub tombstone : Bool
  pub obj_size : ℕ
  pub obj : List ℕ

pub record Memory : Type 0 where
  pub act : ℕ → Act
  pub vhdr : ℕ → Vhdr
  pub chs : ℕ → Chs
  pub ws : ℕ → WrtSet
  pub ckpt : ℕ → CkptEntry

-- A copy that is being freed has type TYPE_FREE, for which there is no case.
unfoldable pub get_act_vhdr : Memory → Obj → Option ℕ
get_act_vhdr m (Obj.act a) = (m.act a).p_act_vhdr
get_act_vhdr m (Obj.cpy c) = elim ((m.chs c).type) [ copy ↦ some (m.chs c).p_act_vhdr | _ ↦ none ]
get_act_vhdr m (Obj.ckpt e) = (m.act (m.ckpt e).np_org_act).p_act_vhdr

unfoldable pub get_cur_act_obj : Memory → Obj → Obj
unfolding get_act_vhdr
get_cur_act_obj m o = elim (get_act_vhdr m o) [ none ↦ o | some v ↦ (m.vhdr v).np_cur_act ]

unfoldable pub get_org_act_obj : Memory → Obj → Obj
unfolding get_act_vhdr
get_org_act_obj m o = elim (get_act_vhdr m o) [ none ↦ o | some v ↦ Obj.act (m.vhdr v).np_org_act ]

unfoldable pub get_entry_size : Chs → ℕ
get_entry_size c = add_u32 c.obj_size c.padding_size

-- `alloc_act_vhdr` on memory that an allocation gave
abbrev pub new_vhdr : ℕ → Vhdr
new_vhdr np_org_act = record {
  p_copy = none;
  p_lock = none;
  np_org_act = np_org_act;
  np_cur_act = Obj.act np_org_act;
  tombstone_clk = max_version;
}

abbrev pub set_vhdr : Memory → ℕ → Vhdr → Memory
set_vhdr m v h = record m { vhdr = update m.vhdr v h }

abbrev pub set_chs : Memory → ℕ → Chs → Memory
set_chs m c h = record m { chs = update m.chs c h }

abbrev pub set_ws : Memory → ℕ → WrtSet → Memory
set_ws m w h = record m { ws = update m.ws w h }

abbrev pub set_act : Memory → ℕ → Act → Memory
set_act m a h = record m { act = update m.act a h }

abbrev pub set_ckpt : Memory → ℕ → CkptEntry → Memory
set_ckpt m e h = record m { ckpt = update m.ckpt e h }

-- the same pointer
abbrev pub same_obj : Obj → Obj → Bool
same_obj (Obj.act a) (Obj.act b) = a == b
same_obj (Obj.cpy a) (Obj.cpy b) = a == b
same_obj (Obj.ckpt a) (Obj.ckpt b) = a == b
same_obj _ _ = false
