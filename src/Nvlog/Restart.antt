-- ===== src/Nvlog/Restart.antt =====
-- A log made durable and loaded again after a restart, and the case in which it is not made durable.
use timestone.Base.{
  ℕ, ◌+◌, ◌-◌, ◌%◌, ◌^◌, ◌≤◌, ◌<◌, ◌≡◌, inl, inr, sym, ap, ◌∙◌, List, [], ◌∷◌, arith, ltb-cases,
}
use mathlib.Core.Path.{subst}
use native.Mathlib.Nat.{add-mod_right}
use timestone.Nvlog.{Entry, Nvlog, nvlog_index, nvlog_enq_persist, nvlog_deq_persist, nvlog_load}
use timestone.Nvlog.Append.{Holds}
use timestone.Nvlog.Layout.{Chain, Chain-le, mod_inside}
use timestone.Nvlog.Persist.{Covers, nvlog_enq_persist-Covers}

module _ {A : Type 0} where
  enq_persist_nothing :
      (l : Nvlog A)
      → nvlog_index l l.nvlog_store.tail_cnt ≡ nvlog_index l l.tail_cnt
      → nvlog_enq_persist l ≡ (l, [])
  unfolding nvlog_enq_persist
  enq_persist_nothing l e = ground arith

  -- Where exactly one buffer's size of entries was enqueued since the last persist, the offsets are
  -- equal, so `nvlog_enq_persist` writes nothing back and leaves the durable tail where it was.
  pub nvlog_enq_persist_skips_full :
      (l : Nvlog A)
      → l.tail_cnt ≡ l.nvlog_store.tail_cnt + l.log_size
      → nvlog_enq_persist l ≡ (l, [])
  nvlog_enq_persist_skips_full l e = enq_persist_nothing l (
      ap (λ (t : ℕ). t % 2 ^ 32)
        (sym (add-mod_right l.nvlog_store.tail_cnt l.log_size)
          ∙ ap (λ (t : ℕ). t % l.log_size) (sym e)))

  -- the counts that are durable after both persists
  durable_counts :
      (l : Nvlog A)
      → 0 < l.log_size
      → l.log_size ≤ 2 ^ 31
      → l.nvlog_store.tail_cnt ≤ l.tail_cnt
      → l.tail_cnt < l.nvlog_store.tail_cnt + l.log_size
      → ((nvlog_deq_persist (nvlog_enq_persist l).0).nvlog_store.head_cnt ≡ l.head_cnt)
        × ((nvlog_deq_persist (nvlog_enq_persist l).0).nvlog_store.tail_cnt ≡ l.tail_cnt)
        × ((nvlog_deq_persist (nvlog_enq_persist l).0).nvlog_store.log_size
            ≡ l.nvlog_store.log_size)
  unfolding nvlog_deq_persist
  durable_counts l pos small lo hi = elim (ltb-cases l.nvlog_store.tail_cnt l.tail_cnt) [
    | inl p ↦
        rw ((nvlog_enq_persist-Covers l pos small l.nvlog_store.tail_cnt (omega arith) p.1 hi).1)
          (ground arith)
    | inr p ↦ rw (enq_persist_nothing l (ap (nvlog_index l) (omega arith))) (ground arith)
  ]

  -- What is found in the buffer after a restart: `found` has every slot whose bytes are all in lines that
  -- were written back.
  abbrev pub WrittenBack : Nvlog A → List ℕ → (ℕ → Entry A) → Type 0
  WrittenBack l lines found =
      (i : ℕ)
      → 0 < (l.buffer i).size
      → ((b : ℕ) → i ≤ b → b < i + (l.buffer i).size → Covers lines b)
      → found i ≡ l.buffer i

  -- It also has the slots in front of the tail that was durable before.
  abbrev pub DurableKept : Nvlog A → (ℕ → Entry A) → Type 0
  DurableKept l found =
      (c : ℕ)
      → l.head_cnt ≤ c
      → c < l.nvlog_store.tail_cnt
      → found (c % l.log_size) ≡ l.buffer (c % l.log_size)

  module _ (l : Nvlog A) (found : ℕ → Entry A) (pos : 0 < l.log_size) (small : l.log_size ≤ 2 ^ 31)
      (window : l.tail_cnt < l.nvlog_store.tail_cnt + l.log_size)
      (written : WrittenBack l (nvlog_enq_persist l).1 found) (kept : DurableKept l found) where
    -- A slot behind the durable tail is found, as all its bytes are written back.
    found_waiting :
        (c size : ℕ)
        → (l.buffer (c % l.log_size)).size ≡ size
        → 0 < size
        → c % l.log_size + size ≤ l.log_size
        → l.nvlog_store.tail_cnt ≤ c
        → c + size ≤ l.tail_cnt
        → found (c % l.log_size) ≡ l.buffer (c % l.log_size)
    found_waiting c size e some_bytes inside late low =
        written (c % l.log_size) (omega (arith, e, some_bytes)) (λ b lo hi.
          let k = c + (b - c % l.log_size) in
          let at : k % l.log_size ≡ c % l.log_size + (k - c) =
            mod_inside l.log_size c k (omega arith) (omega (arith, e, lo, hi, inside)) in
          let here : k % l.log_size ≡ b = omega (arith, at, lo) in
          subst (Covers (nvlog_enq_persist l).1) here
            (nvlog_enq_persist-Covers l pos small k (omega (arith, late))
              (omega (arith, e, lo, hi, low)) window).0)

    Chain-found :
        (c : ℕ) (es : List (Entry A))
        → l.head_cnt ≤ c
        → Chain l.buffer l.log_size c l.tail_cnt es
        → Chain found l.log_size c l.tail_cnt es
    Chain-found c [] lo h = h
    Chain-found c (e ∷ es) lo h =
        let rest = Chain-le l.buffer l.log_size (c + e.size) l.tail_cnt es h.2 in
        let same : found (c % l.log_size) ≡ l.buffer (c % l.log_size) =
          elim (ltb-cases c l.nvlog_store.tail_cnt) [
            | inl p ↦ kept c lo p.1
            | inr p ↦
                found_waiting c e.size (ap (λ x. x.size) h.0) h.1.positive h.1.inside
                  (omega (arith, p.1)) rest
          ] in
        (same ∙ h.0, h.1, Chain-found (c + e.size) es (omega (arith, lo)) h.2)

  -- A log that holds slots is made durable, on both ends, while fewer bytes than the log has are waiting.
  -- If a restart finds in the buffer what was written back by that, and the slots that were durable
  -- before, then the log that it loads holds the slots.
  pub nvlog_load-Holds :
      (l : Nvlog A) (es : List (Entry A)) (found : ℕ → Entry A)
      → Holds l es
      → l.nvlog_store.log_size ≡ l.log_size
      → l.nvlog_store.tail_cnt ≤ l.tail_cnt
      → l.tail_cnt < l.nvlog_store.tail_cnt + l.log_size
      → WrittenBack l (nvlog_enq_persist l).1 found
      → DurableKept l found
      → Holds (nvlog_load (nvlog_deq_persist (nvlog_enq_persist l).0).nvlog_store found) es
  unfolding nvlog_load
  nvlog_load-Holds l es found h e lo hi written kept =
      let d = durable_counts l h.nonempty h.small lo hi in
      let chain =
        Chain-found l found h.nonempty h.small hi written kept l.head_cnt es (omega arith)
          h.chain in
      rw (d.0, d.1, d.2, e) (record { nonempty = h.nonempty; small = h.small; chain = chain })
