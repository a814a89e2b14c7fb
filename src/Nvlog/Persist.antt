-- ===== src/Nvlog/Persist.antt =====
-- nvlog_enq_persist: which bytes of the buffer are written back, and what is durable afterwards.
use native.Mathlib.Nat.{mod-lt}
use timestone.Base.{
  ℕ, zero, suc, ◌+◌, ◌-◌, ◌%◌, ◌^◌, ◌≤◌, ◌<◌, ◌≡◌, ◌⊎◌, inl, inr, refl, List, [], ◌∷◌, ◌++◌, arith,
  ltb-cases, lt→ltb, add_u32, cache_line_size,
}
use timestone.Nvlog.{Nvlog, flush_lines, nvlog_enq_persist}
use timestone.Nvlog.Layout.{mod_inside, mod_round}
use timestone.Nvlog.Append.{index_lem}

-- One of the written lines holds the byte at offset `b`.
abbrev pub Covers : List ℕ → ℕ → Type 0
Covers [] b = ⊥
Covers (i ∷ is) b = ((i ≤ b) × (b < i + 64)) ⊎ Covers is b

Covers-append_left : (xs ys : List ℕ) (b : ℕ) → Covers xs b → Covers (xs ++ ys) b
Covers-append_left [] ys b h = absurd h
Covers-append_left (x ∷ xs) ys b (inl h) = inl h
Covers-append_left (x ∷ xs) ys b (inr h) = inr (Covers-append_left xs ys b h)

Covers-append_right : (xs ys : List ℕ) (b : ℕ) → Covers ys b → Covers (xs ++ ys) b
Covers-append_right [] ys b h = h
Covers-append_right (x ∷ xs) ys b h = inr (Covers-append_right xs ys b h)

-- With as much fuel as bytes the loop writes back every byte from `i` to `stop`.
Covers-flush_lines :
    (fuel i stop b : ℕ)
    → stop ≤ 2 ^ 31
    → stop ≤ fuel + i
    → i ≤ b
    → b < stop
    → Covers (flush_lines fuel i stop) b
unfolding flush_lines
Covers-flush_lines zero i stop b small enough lo hi = absurd (omega arith)
Covers-flush_lines (suc fuel) i stop b small enough lo hi =
    rw (lt→ltb i stop (omega arith)) (elim (ltb-cases b (i + 64)) [
      | inl p ↦ inl (lo, p.1)
      | inr p ↦ inr (
          Covers-flush_lines fuel (add_u32 i cache_line_size) stop b small (omega arith)
            (omega arith) hi)
    ])

module _ {A : Type 0} (l : Nvlog A) (pos : 0 < l.log_size) (small : l.log_size ≤ 2 ^ 31) where
  abbrev nv_tail : ℕ
  nv_tail = l.nvlog_store.tail_cnt

  abbrev persisted : Nvlog A
  persisted = record l { nvlog_store = record (l.nvlog_store) { tail_cnt = l.tail_cnt } }

  persist_inside :
      nv_tail % l.log_size < l.tail_cnt % l.log_size
      → nvlog_enq_persist l ≡ (
        persisted,
        flush_lines (l.tail_cnt % l.log_size) (nv_tail % l.log_size) (l.tail_cnt % l.log_size),
      )
  unfolding nvlog_enq_persist
  persist_inside h = ground (arith, index_lem l l.tail_cnt pos small, index_lem l nv_tail pos small)

  persist_round :
      l.tail_cnt % l.log_size < nv_tail % l.log_size
      → nvlog_enq_persist l ≡ (
        persisted,
        flush_lines l.log_size (nv_tail % l.log_size) l.log_size
            ++ flush_lines (l.tail_cnt % l.log_size) 0 (l.tail_cnt % l.log_size),
      )
  unfolding nvlog_enq_persist
  persist_round h = ground (arith, index_lem l l.tail_cnt pos small, index_lem l nv_tail pos small)

  -- Every byte between the durable tail and the tail is in a line that is written back, the tail
  -- becomes durable, and the rest of the log stays; the bytes are fewer than the log has.
  pub nvlog_enq_persist-Covers :
      (c : ℕ)
      → nv_tail ≤ c
      → c < l.tail_cnt
      → l.tail_cnt < nv_tail + l.log_size
      → Covers (nvlog_enq_persist l).1 (c % l.log_size) × ((nvlog_enq_persist l).0 ≡ persisted)
  nvlog_enq_persist-Covers c lo hi window =
      elim (ltb-cases (nv_tail % n + (l.tail_cnt - nv_tail)) n) [
        | inl p ↦
            let t = mod_inside n nv_tail l.tail_cnt (omega arith) p.1 in
            let at = mod_inside n nv_tail c lo (omega arith) in
            rw (persist_inside (omega arith)) (
              Covers-flush_lines (l.tail_cnt % n) (nv_tail % n) (l.tail_cnt % n) (c % n)
                  (omega arith) (omega arith) (omega arith) (omega arith),
              refl,
            )
        | inr p ↦
            let t = mod_round n nv_tail l.tail_cnt (omega arith) window p.1 in
            rw (persist_round (omega arith)) (
              elim (ltb-cases (nv_tail % n + (c - nv_tail)) n) [
                | inl q ↦
                    let at = mod_inside n nv_tail c lo q.1 in
                    Covers-append_left (flush_lines n (nv_tail % n) n) _ (c % n) (
                      Covers-flush_lines n (nv_tail % n) n (c % n) small (omega arith) (omega arith)
                        (omega arith))
                | inr q ↦
                    let at = mod_round n nv_tail c lo (omega arith) q.1 in
                    Covers-append_right (flush_lines n (nv_tail % n) n) _ (c % n) (
                      Covers-flush_lines (l.tail_cnt % n) 0 (l.tail_cnt % n) (c % n) (omega arith)
                        (omega arith) (omega arith) (omega arith))
              ],
              refl,
            )
      ]
    where
      n : ℕ
      n = l.log_size

      bound : nv_tail % n < n
      bound = mod-lt nv_tail {m = n} pos
