-- ===== src/Tests/Checkpoints.antt =====
-- Concrete checkpoint logs: an entry that is the current master of its object, and a boundary that lies
-- at an entry and at a bogus slot.
use timestone.Base.{
  ℕ, ◌≡◌, ◌≢◌, ◌⊎◌, inl, inr, refl, sym, ap, ◌∙◌, false, none, some, [], ◌∷◌, arith, Bool-cases,
  update, ◌==◌,
}
use timestone.Config.{ObjType, actual, bogus}
use timestone.Clock.{ordo_lt_clock}
use timestone.PtrSet.{PtrSet, Alloc}
use timestone.PtrSet.Push.{IsValid, contents}
use timestone.Nvlog.{Entry}
use timestone.Nvlog.Append.{Holds}
use timestone.Memory.{Memory, Obj, new_vhdr}
use timestone.Tvlog.{zero_chs}
use timestone.Ckptlog.{Log, reclaim_entries, writeback_entries, ckptlog_cleanup}
use timestone.Ckptlog.Boundary.{Remains, reclaim_entries-Remains, reclaim_entries_past_bogus}
use timestone.Ckptlog.Free.{ckptlog_cleanup-contents}
use timestone.Ckptlog.Writeback.{Masters}
use timestone.Ckptlog.Kept.{Headed}
use timestone.Ckptlog.Passed.{Passed, writeback_entries-Passed}

abbrev slot : ℕ → ObjType → Entry (Unit {0})
slot size type = record { wrt_clk = 0; size = size; type = type; obj = tt }

abbrev log_from : ℕ → ℕ → (ℕ → Entry (Unit {0})) → Log
log_from head tail buffer = record {
  head_cnt = head;
  tail_cnt = tail;
  prev_head_cnt = head;
  reclaim_lock = 0;
  nvlog_store = record { head_cnt = head; tail_cnt = tail; log_size = 256; type = 0; status = 0 };
  buffer = buffer;
  log_size = 256;
  type = 0;
  status = 0;
}

abbrev two : Log
two = log_from 64 256 (update (λ i. slot 64 actual) 128 (slot 128 actual))

two-Holds : Holds two (slot 64 actual ∷ slot 128 actual ∷ [])
two-Holds = record {
  nonempty = omega arith;
  small = omega arith;
  chain = (
    refl,
    record { positive = omega arith; inside = omega arith; filler = λ e. cc },
    (refl, record { positive = omega arith; inside = omega arith; filler = λ e. cc }, refl),
  );
}

-- a bogus slot at the head, and an entry behind it at offset 0
abbrev wrapped : Log
wrapped =
    log_from 192 384 (update (update (λ i. slot 64 bogus) 192 (slot 64 bogus)) 0 (slot 128 actual))

wrapped-Holds : Holds wrapped (slot 64 bogus ∷ slot 128 actual ∷ [])
wrapped-Holds = record {
  nonempty = omega arith;
  small = omega arith;
  chain = (
    refl,
    record { positive = omega arith; inside = omega arith; filler = λ e. (omega arith, refl) },
    (refl, record { positive = omega arith; inside = omega arith; filler = λ e. cc }, refl),
  );
}

abbrev no_ptrs : PtrSet
no_ptrs = record { num_ptrs = 0; num_max_ptrs = 0; ptrs = none }

abbrev no_memory : Alloc
no_memory = λ n. none

-- The object at 7 has its current master in the entry at 1000 + 64; every other object is at home.
abbrev checkpointed : Memory
checkpointed = record {
  act = λ a. record { p_act_vhdr = some a; gen_id = 0; index = 0; obj_size = 2; obj = 1 ∷ 2 ∷ [] };
  vhdr = update new_vhdr 7 (record (new_vhdr 7) { np_cur_act = Obj.ckpt 1064 });
  chs = λ c. zero_chs;
  ws = λ w. record {
    wrt_clk = 0;
    pending_wrt_clk = 0;
    num_objs = 0;
    start_tail_cnt = 0;
    thread = 0;
  };
  ckpt = λ e. record {
    wrt_clk = 5;
    ckpt_s_clk = 6;
    np_org_act = 7;
    tombstone = false;
    obj_size = 2;
    obj = 3 ∷ 4 ∷ [];
  };
}

checkpointed-Headed : Headed checkpointed 1000 256
checkpointed-Headed = λ i low. (7, refl)

org_lem : (v : ℕ) → (checkpointed.vhdr v).np_org_act ≡ v
org_lem v = ground arith

cur_home : (v : ℕ) → 7 ≢ v → (checkpointed.vhdr v).np_cur_act ≡ Obj.act v
cur_home v differ = ground arith

cur_ckpt : (v : ℕ) → 7 ≡ v → (checkpointed.vhdr v).np_cur_act ≡ Obj.ckpt 1064
cur_ckpt v same = ground arith

seven_or_other : (v : ℕ) → (7 ≡ v) ⊎ (7 ≢ v)
seven_or_other v = elim (Bool-cases (7 == v)) [
  | inl e ↦ inl (ground (arith, e))
  | inr e ↦ inr (ground (arith, e))
]

home_lem :
    (v a : ℕ) → (checkpointed.vhdr v).np_cur_act ≡ Obj.act a → a ≡ (checkpointed.vhdr v).np_org_act
home_lem v a at = elim (seven_or_other v) [
  | inl same ↦
      let there = cur_ckpt v same in let bad : Obj.ckpt 1064 ≡ Obj.act a = sym there ∙ at in cc
  | inr other ↦
      let there : Obj.act v ≡ Obj.act a = sym (cur_home v other) ∙ at in
      let same : v ≡ a = cc in sym same ∙ sym (org_lem v)
]

header_lem : (v e : ℕ) → (checkpointed.vhdr v).np_cur_act ≡ Obj.ckpt e → some 7 ≡ some v
header_lem v e at = elim (seven_or_other v) [
  | inl same ↦ ap some same
  | inr other ↦ let bad : Obj.act v ≡ Obj.ckpt e = sym (cur_home v other) ∙ at in cc
]

checkpointed-Masters : Masters checkpointed
checkpointed-Masters = record {
  own = λ v w same. sym (org_lem v) ∙ same ∙ org_lem w;
  home = home_lem;
  sizes = λ v e at. refl;
  header = header_lem;
  whole = λ v e at. omega arith;
}

writeback_entries-Passed_example :
    Passed 1000 checkpointed two
      (slot 64 actual ∷ slot 128 actual ∷ [])
      (writeback_entries 3 0 9 1000 checkpointed two)
writeback_entries-Passed_example =
    writeback_entries-Passed 0 9 1000 3 checkpointed two (slot 64 actual ∷ slot 128 actual ∷ [])
      checkpointed-Masters checkpointed-Headed two-Holds (omega arith) (omega arith)

reclaim_entries-Remains_example :
    Remains
      (slot 128 actual ∷ [])
      256
      (reclaim_entries 3 no_memory checkpointed 1000 128 two no_ptrs)
reclaim_entries-Remains_example =
    reclaim_entries-Remains no_memory checkpointed 1000 128 3 two no_ptrs (slot 64 actual ∷ [])
      (slot 128 actual ∷ []) two-Holds (omega arith) (omega arith) (omega arith) refl

reclaim_entries_past_bogus_example :
    Remains [] 384 (reclaim_entries 2 no_memory checkpointed 1000 192 wrapped no_ptrs)
reclaim_entries_past_bogus_example =
    reclaim_entries_past_bogus no_memory checkpointed 1000 192 2 wrapped no_ptrs []
      (slot 128 actual ∷ []) (slot 64 bogus) wrapped-Holds (omega arith) (omega arith) (omega arith)
      refl

-- Three headers, of which the second and the third were marked at 3 and at 950000.
abbrev marked_three : Memory
marked_three = record checkpointed {
  vhdr =
      update (update new_vhdr 8 (record (new_vhdr 8) { tombstone_clk = 3 })) 9
        (record (new_vhdr 9) { tombstone_clk = 950000 });
}

abbrev three : PtrSet
three = record { num_ptrs = 3; num_max_ptrs = 4; ptrs = some (7 ∷ 8 ∷ 9 ∷ 0 ∷ []) }

ckptlog_cleanup-contents_example :
    ((ckptlog_cleanup marked_three three 900000).1 ≡ 8 ∷ [])
    × (contents (ckptlog_cleanup marked_three three 900000).0 ≡ 7 ∷ 9 ∷ [])
    × IsValid (ckptlog_cleanup marked_three three 900000).0
unfolding ordo_lt_clock
ckptlog_cleanup-contents_example =
    ckptlog_cleanup-contents marked_three three 900000 (record { fits = omega arith; size = refl })
