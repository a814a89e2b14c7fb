-- ===== src/Nvlog.antt =====
-- lib/nvlog.c and lib/nvlog.h: the circular log of entries in non-volatile memory that the
-- operation log and the checkpoint log are made of.
-- An index into the buffer is a byte offset. An entry is read and written at the offset of its
-- header only, so the buffer is a function from offsets to entries; `A` is what follows a header.
-- `cnt & ~mask` with mask = ~(log_size - 1) is `cnt % log_size`: the size is a power of two.
pub mod Layout
pub mod Append
pub mod Enq
pub mod Deq
pub mod Peek
pub mod Persist
pub mod Restart
pub mod Create
use timestone.Base.{
  ℕ, zero, suc, ◌+◌, ◌-◌, ◌%◌, ◌^◌, Bool, true, false, ◌&&◌, Option, none, some, List, [], ◌∷◌,
  ◌++◌, ltb, leb, ◌==◌, if◌then◌else◌, u32, add_u32, sub_u32, add_u64, sub_u64, update,
  align_uint_to_cacheline, cache_line_size,
}
use timestone.Config.{ObjType, actual, wrt_set, copy, free, nvlog_entry, bogus, max_version}

-- ts_nvlog_entry_hdr_t, with the bytes that follow it
pub record Entry (A : Type 0) : Type 0 where
  pub wrt_clk : ℕ
  pub size : ℕ
  pub type : ObjType
  pub obj : A

-- ts_nvlog_store_t: what survives a crash
pub record Store : Type 0 where
  pub head_cnt : ℕ
  pub tail_cnt : ℕ
  pub log_size : ℕ
  pub type : ℕ
  pub status : ℕ

-- ts_nvlog_t: the control structure in volatile memory
pub record Nvlog (A : Type 0) : Type 0 where
  pub head_cnt : ℕ
  pub tail_cnt : ℕ
  pub prev_head_cnt : ℕ
  pub reclaim_lock : ℕ
  pub nvlog_store : Store
  pub buffer : ℕ → Entry A
  pub log_size : ℕ
  pub type : ℕ
  pub status : ℕ

-- sizeof(ts_nvlog_entry_hdr_t)
abbrev pub entry_hdr_size : ℕ
entry_hdr_size = 16

abbrev pub is_bogus : ObjType → Bool
is_bogus bogus = true
is_bogus _ = false

-- the entry of `obj_size` bytes, with its header, in whole cache lines
unfoldable pub make_entry_size : ℕ → ℕ
unfolding align_uint_to_cacheline
make_entry_size obj_size = align_uint_to_cacheline (add_u32 obj_size entry_hdr_size)

module _ {A : Type 0} where
  abbrev pub nvlog_index : Nvlog A → ℕ → ℕ
  nvlog_index l cnt = u32 (cnt % l.log_size)

  abbrev pub nvlog_at : Nvlog A → ℕ → Entry A
  nvlog_at l cnt = l.buffer (nvlog_index l cnt)

  abbrev pub nvlog_used : Nvlog A → ℕ
  nvlog_used l = sub_u64 l.tail_cnt l.head_cnt

  -- The header at the tail is zeroed and made a bogus entry that runs to the end of the buffer.
  unfoldable pub enq_bogus : Nvlog A → Nvlog A
  enq_bogus l =
      let i = nvlog_index l l.tail_cnt in
      let bogus_size = u32 (sub_u64 l.log_size i) in
      record l {
        buffer =
            update l.buffer i
              (record (l.buffer i) { wrt_clk = 0; size = bogus_size; type = bogus });
        tail_cnt = add_u64 l.tail_cnt bogus_size;
      }

  -- A new entry at the tail; its bytes behind the header are those that were there.
  unfoldable pub enq_entry : Nvlog A → ℕ → Nvlog A
  enq_entry l entry_size =
      let i = nvlog_index l l.tail_cnt in
      record l {
        buffer =
            update l.buffer i
              (record (l.buffer i) { wrt_clk = max_version; size = entry_size; type = actual });
        tail_cnt = add_u64 l.tail_cnt entry_size;
      }

  abbrev pub wraps_around : Nvlog A → ℕ → Bool
  wraps_around l entry_size =
      ltb (nvlog_index l (add_u64 l.tail_cnt entry_size)) (nvlog_index l l.tail_cnt)

  -- the space check and the allocation, behind the bogus entry if there is one
  unfoldable pub enq_fit : Nvlog A → ℕ → Nvlog A × Option ℕ
  enq_fit l entry_size =
      if ltb l.log_size (sub_u64 (add_u64 l.tail_cnt entry_size) l.head_cnt)
      then (l, none)
      else (enq_entry l entry_size, some (nvlog_index l l.tail_cnt))

  -- The result is the offset of the new entry, or none where the C code returns NULL.
  unfoldable pub nvlog_enq : Nvlog A → ℕ → Nvlog A × Option ℕ
  nvlog_enq l obj_size =
      let entry_size = make_entry_size obj_size in
      if ltb l.log_size entry_size
      then (l, none)
      else enq_fit (if wraps_around l entry_size then enq_bogus l else l) entry_size

  -- The offset of the entry at the head; skipping a bogus entry moves the head.
  unfoldable pub nvlog_peek_head : Nvlog A → Nvlog A × Option ℕ
  nvlog_peek_head l =
      if l.head_cnt == l.tail_cnt
      then (l, none)
      else if is_bogus (nvlog_at l l.head_cnt).type
      then (let l' = record l { head_cnt = add_u64 l.head_cnt (nvlog_at l l.head_cnt).size } in
          if l'.head_cnt == l'.tail_cnt
          then (l', none)
          else (l', some (nvlog_index l' l'.head_cnt)))
      else (l, some (nvlog_index l l.head_cnt))

  unfoldable pub nvlog_deq : Nvlog A → Nvlog A × Option ℕ
  nvlog_deq l =
      if l.head_cnt == l.tail_cnt
      then (l, none)
      else (let e = nvlog_at l l.head_cnt in
          let l' = record l { head_cnt = add_u64 l.head_cnt e.size } in
          if is_bogus e.type
          then (if l'.head_cnt == l'.tail_cnt then (l', none) else (
            record l' { head_cnt = add_u64 l'.head_cnt (nvlog_at l' l'.head_cnt).size },
            some (nvlog_index l' l'.head_cnt),
          ))
          else (l', some (nvlog_index l l.head_cnt)))

  unfoldable pub nvlog_deq_persist : Nvlog A → Nvlog A
  nvlog_deq_persist l =
      if l.nvlog_store.head_cnt == l.head_cnt
      then l
      else record l { nvlog_store = record (l.nvlog_store) { head_cnt = l.head_cnt } }

  unfoldable pub nvlog_truncate_tail : Nvlog A → ℕ → Nvlog A
  nvlog_truncate_tail l tail_cnt = record l {
    tail_cnt = tail_cnt;
    nvlog_store =
        if l.nvlog_store.tail_cnt == tail_cnt
        then l.nvlog_store
        else record (l.nvlog_store) { tail_cnt = tail_cnt };
  }

  unfoldable pub nvlog_truncate_head : Nvlog A → ℕ → Nvlog A
  nvlog_truncate_head l head_cnt = record l {
    head_cnt = head_cnt;
    nvlog_store =
        if l.nvlog_store.head_cnt == head_cnt
        then l.nvlog_store
        else record (l.nvlog_store) { head_cnt = head_cnt };
  }

-- `for (i = start; i < stop; i += TS_CACHE_LINE_SIZE) clwb(buffer + i)`: the offsets written back.
unfoldable pub flush_lines : ℕ → ℕ → ℕ → List ℕ
flush_lines zero i stop = []
flush_lines (suc fuel) i stop =
    let rest = flush_lines fuel (add_u32 i cache_line_size) stop in
    if ltb i stop then i ∷ rest else []

module _ {A : Type 0} where
  -- The offsets that are written back, and the log with its tail made durable.
  unfoldable pub nvlog_enq_persist : Nvlog A → Nvlog A × List ℕ
  unfolding flush_lines
  nvlog_enq_persist l =
      let v = nvlog_index l l.tail_cnt in
      let nv = nvlog_index l l.nvlog_store.tail_cnt in
      let done = record l { nvlog_store = record (l.nvlog_store) { tail_cnt = l.tail_cnt } } in
      if nv == v
      then (l, [])
      else if ltb nv v
      then (done, flush_lines v nv v)
      else (done, flush_lines l.log_size nv l.log_size ++ flush_lines v 0 v)

  -- Loading an nvlog_store after a restart.
  unfoldable pub nvlog_load : Store → (ℕ → Entry A) → Nvlog A
  nvlog_load s buffer = record {
    head_cnt = s.head_cnt;
    tail_cnt = s.tail_cnt;
    prev_head_cnt = s.head_cnt;
    reclaim_lock = 0;
    nvlog_store = s;
    buffer = buffer;
    log_size = s.log_size;
    type = s.type;
    status = s.status;
  }
