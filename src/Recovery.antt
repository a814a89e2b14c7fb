-- ===== src/Recovery.antt =====
-- lib/recovery.c: what is rebuilt from the logs that survived a crash. The list of the logs is a list,
-- the last checkpoint's clock and the generation number are parameters, and the control structures of
-- the logs and the arrays are allocated without failing.
pub mod Rounds
pub mod Counts
pub mod Logs
pub mod Replay
pub mod Compare
pub mod Newest
pub mod Scanned
pub mod Chosen
pub mod Latest
use timestone.Base.{
  ℕ, zero, suc, ◌+◌, ◌-◌, ◌*◌, ◌%◌, ◌^◌, Bool, true, false, not, ◌&&◌, ◌||◌, Option, none, some,
  List, [], ◌∷◌, ◌++◌, length, ltb, ◌==◌, if◌then◌else◌, sub_u64, u32,
}
use timestone.Nvlog.{
  Entry, Store, Nvlog, nvlog_load, nvlog_peek_head, nvlog_deq, nvlog_truncate_head,
  nvlog_truncate_tail,
}
use timestone.Memory.{Memory, Obj, Act, Vhdr, new_vhdr, set_vhdr, set_act}
use timestone.Oplog.{Op, Oplog}
use timestone.Ckptlog.{Log}

abbrev pub type_oplog : ℕ
type_oplog = 1

abbrev pub type_ckptlog : ℕ
type_ckptlog = 2

abbrev pub status_nvlog_normal : ℕ
status_nvlog_normal = 0

-- A log in non-volatile memory, with its buffer as either kind of log reads it.
pub record NvlogStore : Type 0 where
  pub store : Store
  pub base : ℕ
  pub ckpts : ℕ → Entry (Unit {0})
  pub ops : ℕ → Entry Op

-- The end of a loop over the entries of a log. `null_entry` is a log that has slots but no entry, whose
-- peek the code dereferences all the same; `no_memory` is ENOMEM; `out_of_fuel` is a loop that would go on.
pub data Scan (A : Type 0) : Type 0 where
  scanned : A → Scan A
  null_entry no_memory out_of_fuel : Scan A

-- Memory, and how many volatile headers were allocated. `fresh` is the allocator.
pub record Rebuilt : Type 0 where
  pub memory : Memory
  pub allocated : ℕ

abbrev pub is_stale : Act → ℕ → Bool
is_stale a gen_id = not (a.gen_id == gen_id) || (elim a.p_act_vhdr [ none ↦ true | some v ↦ false ])

-- `alloc_act_vhdr` of the entry at `e`, which it takes for the original master
abbrev pub vhdr_of_entry : ℕ → Vhdr
vhdr_of_entry e = record (new_vhdr e) { np_cur_act = Obj.ckpt e }

-- The current master, an entry, and a later entry of the object; another current master is left.
abbrev pub newer_entry : Memory → ℕ → Obj → ℕ → Memory
newer_entry m v (Obj.ckpt d) e =
    if ltb (m.ckpt d).wrt_clk (m.ckpt e).wrt_clk
    then set_vhdr m v (record (m.vhdr v) { np_cur_act = Obj.ckpt e })
    else m
newer_entry m v _ e = m

-- the header that the entry's object has already
abbrev pub update_header : Memory → Option ℕ → ℕ → Memory
update_header m none e = m
update_header m (some v) e = newer_entry m v (m.vhdr v).np_cur_act e

unfoldable pub reconstruct_volatile_header : (ℕ → Option ℕ) → ℕ → Rebuilt → ℕ → Option Rebuilt
reconstruct_volatile_header fresh gen_id r e =
    let m = r.memory in
    let a = (m.ckpt e).np_org_act in
    if is_stale (m.act a) gen_id
    then elim (fresh r.allocated) [
      | none ↦ none
      | some v ↦
          let m1 = set_vhdr m v (vhdr_of_entry e) in
          some (record {
            memory = set_act m1 a (record (m.act a) { p_act_vhdr = some v; gen_id = gen_id });
            allocated = r.allocated + 1;
          })
    ]
    else some (record r { memory = update_header m (m.act a).p_act_vhdr e })

-- The entries of one checkpoint log, on fuel, up to one that is later than the last checkpoint.
unfoldable pub recover_entries :
    ℕ → (ℕ → Option ℕ) → ℕ → ℕ → ℕ → Rebuilt → Log → Scan (Rebuilt × Log)
unfolding reconstruct_volatile_header
recover_entries zero fresh gen_id last_ckpt_clk base r l = out_of_fuel
recover_entries (suc fuel) fresh gen_id last_ckpt_clk base r l = elim (l.head_cnt == l.tail_cnt) [
  | true ↦ scanned (r, l)
  | false ↦
      let (l', at) = nvlog_peek_head l in
      elim at [
        | none ↦ null_entry
        | some i ↦ elim (ltb last_ckpt_clk (r.memory.ckpt (base + i)).ckpt_s_clk) [
          | true ↦ scanned (r, l')
          | false ↦ elim (reconstruct_volatile_header fresh gen_id r (base + i)) [
            | none ↦ no_memory
            | some r' ↦ recover_entries fuel fresh gen_id last_ckpt_clk base r' (nvlog_deq l').0
          ]
        ]
      ]
]

abbrev pub is_log : ℕ → Store → Bool
is_log type s = (s.type == type) && (s.status == status_nvlog_normal)

unfoldable pub ckptlog_recovery :
    ℕ → (ℕ → Option ℕ) → ℕ → ℕ → Rebuilt → List NvlogStore → Scan (Rebuilt × List NvlogStore)
unfolding recover_entries
ckptlog_recovery fuel fresh gen_id last_ckpt_clk r [] = scanned (r, [])
ckptlog_recovery fuel fresh gen_id last_ckpt_clk r (d ∷ ds) =
    let rest = λ (r' : Rebuilt) (d' : NvlogStore).
      elim (ckptlog_recovery fuel fresh gen_id last_ckpt_clk r' ds)
        as (λ x. Scan (Rebuilt × List NvlogStore)) [
          | scanned (r2, ds') ↦ scanned (r2, d' ∷ ds')
          | null_entry ↦ null_entry
          | no_memory ↦ no_memory
          | out_of_fuel ↦ out_of_fuel
        ] in
    elim (is_log type_ckptlog (d.store)) [
      | false ↦ rest r d
      | true ↦
          elim (recover_entries fuel fresh gen_id last_ckpt_clk (d.base) r
            (nvlog_load (d.store) (d.ckpts))) [
              | scanned (r1, l) ↦
                  rest r1 (record d { store = (nvlog_truncate_tail l l.head_cnt).nvlog_store })
              | null_entry ↦ null_entry
              | no_memory ↦ no_memory
              | out_of_fuel ↦ out_of_fuel
            ]
    ]

abbrev pub is_op_entry_valid : Entry Op → ℕ → Bool
is_op_entry_valid e last_ckpt_clk = ltb last_ckpt_clk (e.obj.local_clk)

-- The loop of `alloc_replay_array` over the entries of one log: the head that is to stay, and how many
-- operations there are so far.
unfoldable pub count_ops : ℕ → ℕ → Oplog → ℕ → ℕ → Scan (Oplog × ℕ × ℕ)
count_ops zero last_ckpt_clk l head_cnt ops_cnt = out_of_fuel
count_ops (suc fuel) last_ckpt_clk l head_cnt ops_cnt = elim (l.head_cnt == l.tail_cnt) [
  | true ↦ scanned (l, head_cnt, ops_cnt)
  | false ↦
      let (l', at) = nvlog_peek_head l in
      elim at [
        | none ↦ null_entry
        | some i ↦ elim (is_op_entry_valid (l'.buffer i) last_ckpt_clk) [
          | true ↦
              count_ops fuel last_ckpt_clk (nvlog_deq l').0
                (if ops_cnt == 0 then l'.head_cnt else head_cnt) (ops_cnt + 1)
          | false ↦ count_ops fuel last_ckpt_clk (nvlog_deq l').0 head_cnt ops_cnt
        ]
      ]
]

-- `alloc_replay_array`: the logs with their heads truncated, and the number of operations, from which
-- the sizes of the arrays follow.
unfoldable pub alloc_replay_array : ℕ → ℕ → List NvlogStore → ℕ → Scan (List NvlogStore × ℕ)
unfolding count_ops
alloc_replay_array fuel last_ckpt_clk [] ops_cnt = scanned ([], ops_cnt)
alloc_replay_array fuel last_ckpt_clk (d ∷ ds) ops_cnt =
    let rest = λ (d' : NvlogStore) (n : ℕ).
      elim (alloc_replay_array fuel last_ckpt_clk ds n) as (λ x. Scan (List NvlogStore × ℕ)) [
        | scanned (ds', total) ↦ scanned (d' ∷ ds', total)
        | null_entry ↦ null_entry
        | no_memory ↦ no_memory
        | out_of_fuel ↦ out_of_fuel
      ] in
    elim (is_log type_oplog (d.store)) [
      | false ↦ rest d ops_cnt
      | true ↦
          elim (count_ops fuel last_ckpt_clk (nvlog_load (d.store) (d.ops)) (d.store.head_cnt)
            ops_cnt) [
              | scanned (l, head_cnt, n) ↦
                  rest (record d { store = (nvlog_truncate_head l head_cnt).nvlog_store }) n
              | null_entry ↦ null_entry
              | no_memory ↦ no_memory
              | out_of_fuel ↦ out_of_fuel
            ]
    ]

-- OPLOG_REPLAY_TYPE_EXEC, OPLOG_REPLAY_TYPE_COMMIT
abbrev pub replay_exec : ℕ
replay_exec = 0

abbrev pub replay_commit : ℕ
replay_commit = 1

-- ts_replay_entry_t; the context is the operation's entry, since no thread has it yet.
pub record ReplayEntry : Type 0 where
  pub time_stamp : ℕ
  pub type : ℕ
  pub context : Entry Op

unfoldable pub add_op_replay : Entry Op → List ReplayEntry
add_op_replay e =
    record { time_stamp = e.obj.local_clk; type = replay_exec; context = e }
    ∷ record { time_stamp = e.wrt_clk; type = replay_commit; context = e }
    ∷ []

-- The loop of `collect_replay_entries` over the entries of one log; the array is filled up to its length.
unfoldable pub collect_ops : ℕ → ℕ → Oplog → List ReplayEntry → Scan (Oplog × List ReplayEntry)
unfolding add_op_replay
collect_ops zero last_ckpt_clk l replay_array = out_of_fuel
collect_ops (suc fuel) last_ckpt_clk l replay_array = elim (l.head_cnt == l.tail_cnt) [
  | true ↦ scanned (l, replay_array)
  | false ↦
      let (l', at) = nvlog_peek_head l in
      elim at [
        | none ↦ null_entry
        | some i ↦ collect_ops fuel last_ckpt_clk (nvlog_deq l').0 (
            if is_op_entry_valid (l'.buffer i) last_ckpt_clk
            then replay_array ++ add_op_replay (l'.buffer i)
            else replay_array)
      ]
]

unfoldable pub collect_replay_entries :
    ℕ → ℕ → List NvlogStore → List ReplayEntry → Scan (List NvlogStore × List ReplayEntry)
unfolding collect_ops
collect_replay_entries fuel last_ckpt_clk [] replay_array = scanned ([], replay_array)
collect_replay_entries fuel last_ckpt_clk (d ∷ ds) replay_array =
    let rest = λ (d' : NvlogStore) (a : List ReplayEntry).
      elim (collect_replay_entries fuel last_ckpt_clk ds a)
        as (λ x. Scan (List NvlogStore × List ReplayEntry)) [
          | scanned (ds', all) ↦ scanned (d' ∷ ds', all)
          | null_entry ↦ null_entry
          | no_memory ↦ no_memory
          | out_of_fuel ↦ out_of_fuel
        ] in
    elim (is_log type_oplog (d.store)) [
      | false ↦ rest d replay_array
      | true ↦ elim (collect_ops fuel last_ckpt_clk (nvlog_load (d.store) (d.ops)) replay_array) [
        | scanned (l, a) ↦
            rest (record d { store = (nvlog_truncate_head l (d.store.head_cnt)).nvlog_store }) a
        | null_entry ↦ null_entry
        | no_memory ↦ no_memory
        | out_of_fuel ↦ out_of_fuel
      ]
    ]

-- `comp_replay_entries`: an `int` as a 32-bit word, the difference of two 64-bit words cut off.
unfoldable pub comp_replay_entries : ReplayEntry → ReplayEntry → ℕ
comp_replay_entries rop1 rop2 =
    let d = u32 (sub_u64 rop1.time_stamp rop2.time_stamp) in
    if d == 0 then u32 (sub_u64 rop1.type rop2.type) else d
