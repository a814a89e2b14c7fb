-- ===== src/Nvlog/Enq.antt =====
-- nvlog_enq on every branch: it appends one entry behind those that the log holds, or none.
use native.Mathlib.Nat.{mod-lt}
use timestone.Base.{
  ℕ, ◌+◌, ◌-◌, ◌*◌, ◌%◌, ◌^◌, ◌≤◌, ◌<◌, ◌≡◌, ◌⊎◌, inl, inr, refl, sym, ap, ◌∙◌, false, Option, none,
  some, List, [], ◌∷◌, ◌++◌, arith, ltb, u32, sub_u64, update_self,
}
use mathlib.Core.List.{append-nil}
use mathlib.Core.Path.{subst, ap₂}
use timestone.Config.{actual, bogus, max_version}
use timestone.Nvlog.{
  Entry, Nvlog, nvlog_index, make_entry_size, enq_bogus, enq_entry, enq_fit, nvlog_enq,
}
use timestone.Nvlog.Layout.{IsFit, entries, Chain-le, entries-append, mod-add_round}
use timestone.Nvlog.Append.{Holds, index_lem, Holds-append, index-cases, make_entry_size-pos}

module _ {A : Type 0} where
  -- What an enqueue of `s` bytes leaves, by its result. `start` is the tail before it.
  pub data Enqueued (l : Nvlog A) (es : List (Entry A)) (s : ℕ) : Nvlog A → Option ℕ → Type 0 where
    full :
        {l' : Nvlog A} {r : Option ℕ} (es' : List (Entry A))
        → r ≡ none
        → Holds l' es'
        → entries es' ≡ entries es
        → l'.head_cnt ≡ l.head_cnt
        → l.head_cnt + l.log_size < l.tail_cnt + 2 * s
        → Enqueued l es s l' r
    added :
        {l' : Nvlog A} {r : Option ℕ} (es' : List (Entry A)) (i : ℕ)
        → r ≡ some i
        → Holds l' es'
        → entries es' ≡ entries es ++ (l'.buffer i ∷ [])
        → (l'.buffer i).size ≡ s
        → (l'.buffer i).wrt_clk ≡ max_version
        → (l'.buffer i).type ≡ actual
        → l'.head_cnt ≡ l.head_cnt
        → l.tail_cnt + s ≤ l'.tail_cnt
        → l'.tail_cnt ≤ l.head_cnt + l.log_size
        → i + s ≤ l.log_size
        → Enqueued l es s l' r

  -- The check and the allocation, where the entry fits before the end of the buffer.
  enq_fit_lem :
      (l : Nvlog A) (es : List (Entry A)) (s : ℕ)
      → Holds l es
      → 0 < s
      → l.tail_cnt % l.log_size + s ≤ l.log_size
      → l.tail_cnt + s < 2 ^ 64
      → ((l.head_cnt + l.log_size < l.tail_cnt + s) × (enq_fit l s ≡ (l, none)))
        ⊎ ((l.tail_cnt + s ≤ l.head_cnt + l.log_size)
            × (enq_fit l s ≡ (enq_entry l s, some (l.tail_cnt % l.log_size))))
  unfolding enq_fit
  enq_fit_lem l es s h pos inside low = ground (
    arith,
    index_lem l l.tail_cnt h.nonempty h.small,
    Chain-le l.buffer l.log_size l.head_cnt l.tail_cnt es h.chain,
  )

  -- the entry that an allocation of `s` bytes writes
  abbrev fresh : Nvlog A → ℕ → Entry A
  fresh l s = record (l.buffer (nvlog_index l l.tail_cnt)) {
    wrt_clk = max_version;
    size = s;
    type = actual;
  }

  fresh-IsFit :
      (l : Nvlog A) (s : ℕ)
      → 0 < s
      → l.tail_cnt % l.log_size + s ≤ l.log_size
      → IsFit l.log_size l.tail_cnt (fresh l s)
  fresh-IsFit l s pos inside = record { positive = pos; inside = inside; filler = λ b. cc }

  -- the new entry read back
  buffer-enq_entry :
      (l : Nvlog A) (es : List (Entry A)) (s : ℕ)
      → Holds l es
      → (enq_entry l s).buffer (l.tail_cnt % l.log_size) ≡ fresh l s
  unfolding enq_entry
  buffer-enq_entry l es s h =
      subst (λ (j : ℕ). (enq_entry l s).buffer j ≡ fresh l s)
        (index_lem l l.tail_cnt h.nonempty h.small)
        (update_self l.buffer (nvlog_index l l.tail_cnt) (fresh l s))

  enq_entry-Holds :
      (l : Nvlog A) (es : List (Entry A)) (s : ℕ)
      → Holds l es
      → 0 < s
      → l.tail_cnt % l.log_size + s ≤ l.log_size
      → l.tail_cnt + s < 2 ^ 64
      → l.tail_cnt + s ≤ l.head_cnt + l.log_size
      → Holds (enq_entry l s) (es ++ (fresh l s ∷ []))
  unfolding enq_entry
  enq_entry-Holds l es s h pos inside low room =
      Holds-append l es (fresh l s) h (fresh-IsFit l s pos inside) (omega arith) low

  tail-enq_entry :
      (l : Nvlog A) (s : ℕ) → l.tail_cnt + s < 2 ^ 64 → (enq_entry l s).tail_cnt ≡ l.tail_cnt + s
  unfolding enq_entry
  tail-enq_entry l s low = omega arith

  head-enq_entry : (l : Nvlog A) (s : ℕ) → (enq_entry l s).head_cnt ≡ l.head_cnt
  unfolding enq_entry
  head-enq_entry l s = refl

  -- From the log `l` that an enqueue on `m` has prepared, the rest of that enqueue.
  module _ (m l : Nvlog A) (ms es : List (Entry A)) (s : ℕ) where
    record Prepared : Type 0 where
      holds : Holds l es
      same : entries es ≡ entries ms
      head : l.head_cnt ≡ m.head_cnt
      size : l.log_size ≡ m.log_size
      lo : m.tail_cnt ≤ l.tail_cnt
      hi : l.tail_cnt ≤ m.tail_cnt + s
      pos : 0 < s
      inside : l.tail_cnt % l.log_size + s ≤ l.log_size
      low : l.tail_cnt + s < 2 ^ 64

    entry-Enqueued :
        Prepared
        → l.tail_cnt + s ≤ l.head_cnt + l.log_size
        → Enqueued m ms s (enq_entry l s) (some (l.tail_cnt % l.log_size))
    entry-Enqueued p room =
        added (es ++ (fresh l s ∷ [])) (l.tail_cnt % l.log_size) refl
          (enq_entry-Holds l es s p.holds p.pos p.inside p.low room)
          (entries-append es (fresh l s ∷ []) ∙ ap₂ ◌++◌ p.same (ap (λ e. e ∷ []) (sym held)))
          (ap (λ e. e.size) held) (ap (λ e. e.wrt_clk) held) (ap (λ e. e.type) held)
          (head-enq_entry l s ∙ p.head) (omega (arith, tail-enq_entry l s, p))
          (omega (arith, tail-enq_entry l s, p)) (omega (arith, p))
      where
        held : (enq_entry l s).buffer (l.tail_cnt % l.log_size) ≡ fresh l s
        held = buffer-enq_entry l es s p.holds

    fit-Enqueued : Prepared → Enqueued m ms s (enq_fit l s).0 (enq_fit l s).1
    fit-Enqueued p = elim (enq_fit_lem l es s p.holds p.pos p.inside p.low) [
      | inl f ↦ rw f.1 (full es refl p.holds p.same p.head (omega (arith, p, f.0)))
      | inr f ↦ rw f.1 (entry-Enqueued p f.0)
    ]

  -- the bogus slot that an enqueue puts in front of an entry that does not fit
  abbrev filler_slot : Nvlog A → Entry A
  filler_slot l = record (l.buffer (nvlog_index l l.tail_cnt)) {
    wrt_clk = 0;
    size = u32 (sub_u64 l.log_size (nvlog_index l l.tail_cnt));
    type = bogus;
  }

  module _ (l : Nvlog A) (es : List (Entry A)) (s : ℕ) (h : Holds l es) where
    record Overrun : Type 0 where
      fits : s < l.log_size
      room : l.tail_cnt < l.head_cnt + l.log_size
      low : l.tail_cnt + 2 * s < 2 ^ 64
      over : l.log_size ≤ l.tail_cnt % l.log_size + s

    size-filler_slot : (filler_slot l).size + l.tail_cnt % l.log_size ≡ l.log_size
    size-filler_slot =
        let e : nvlog_index l l.tail_cnt ≡ l.tail_cnt % l.log_size =
          index_lem l l.tail_cnt h.nonempty h.small in
        omega (arith, e, mod-lt l.tail_cnt {m = l.log_size} h.nonempty, h)

    filler-IsFit : Overrun → IsFit l.log_size l.tail_cnt (filler_slot l)
    filler-IsFit o = record {
      positive = omega (arith, size-filler_slot, mod-lt l.tail_cnt {m = l.log_size} h.nonempty);
      inside = omega (arith, size-filler_slot);
      filler = λ b. (omega (arith, o), omega (arith, size-filler_slot));
    }

    gap : ℕ
    gap = l.log_size - l.tail_cnt % l.log_size

    tail-enq_bogus :
        Overrun
        → ((enq_bogus l).tail_cnt ≡ l.tail_cnt + gap)
          × ((l.tail_cnt + gap) % l.log_size ≡ 0)
          × (gap ≤ s)
          × (0 < s)
    unfolding enq_bogus gap
    tail-enq_bogus o = (
      omega (arith, size-filler_slot, o),
      omega (
        arith,
        mod-add_round l.log_size l.tail_cnt gap (omega (arith, in_buffer))
            (omega (arith, in_buffer, h)),
        in_buffer,
      ),
      omega (arith, o),
      omega (arith, o, in_buffer),
    )
      where
        in_buffer : l.tail_cnt % l.log_size < l.log_size
        in_buffer = mod-lt l.tail_cnt {m = l.log_size} h.nonempty

    enq_bogus-Prepared : Overrun → Prepared l (enq_bogus l) es (es ++ (filler_slot l ∷ [])) s
    unfolding enq_bogus
    enq_bogus-Prepared o = record {
      holds =
          Holds-append l es (filler_slot l) h (filler-IsFit o) o.room
            (omega (arith, size-filler_slot, o));
      same = entries-append es (filler_slot l ∷ []) ∙ append-nil (entries es);
      head = refl;
      size = refl;
      lo = omega (arith, t);
      hi = omega (arith, t);
      pos = t.3;
      inside = omega (arith, ap (λ (x : ℕ). x % l.log_size) t.0, t, o);
      low = omega (arith, t, o);
    }
      where
        t :
            ((enq_bogus l).tail_cnt ≡ l.tail_cnt + gap)
            × ((l.tail_cnt + gap) % l.log_size ≡ 0)
            × (gap ≤ s)
            × (0 < s)
        t = tail-enq_bogus o

  -- `nvlog_enq` on a log that is not full: it either leaves the entries alone and returns NULL, which
  -- happens only if fewer than twice the entry's bytes are free, or appends exactly one entry of the
  -- rounded size behind them, marked uncommitted, in one piece inside the buffer and within the
  -- log's size of the head. The head stays. The entry is smaller than the log, and counts do not
  -- pass the 64-bit word.
  pub nvlog_enq-Enqueued :
      (l : Nvlog A) (es : List (Entry A)) (obj_size : ℕ)
      → Holds l es
      → obj_size + 79 < 2 ^ 32
      → make_entry_size obj_size < l.log_size
      → l.tail_cnt < l.head_cnt + l.log_size
      → l.tail_cnt + 2 * make_entry_size obj_size < 2 ^ 64
      → Enqueued l es (make_entry_size obj_size) (nvlog_enq l obj_size).0 (nvlog_enq l obj_size).1
  unfolding nvlog_enq
  nvlog_enq-Enqueued l es obj_size h word fits room low =
      elim (index-cases l size h.nonempty h.small fits (omega (arith, low))) [
        | inl p ↦ rw (smaller, p.0) (fit-Enqueued l l es es size (plain p.1))
        | inr p ↦
            rw (smaller, p.0)
              (fit-Enqueued l (enq_bogus l) es (es ++ (filler_slot l ∷ [])) size
                (enq_bogus-Prepared l es size h (overrun p.1)))
      ]
    where
      size : ℕ
      size = make_entry_size obj_size

      smaller : ltb l.log_size size ≡ false
      smaller = ground arith

      plain : l.tail_cnt % l.log_size + size < l.log_size → Prepared l l es es size
      plain inside = record {
        holds = h;
        same = refl;
        head = refl;
        size = refl;
        lo = omega arith;
        hi = omega arith;
        pos = make_entry_size-pos obj_size word;
        inside = omega arith;
        low = omega arith;
      }

      overrun : l.log_size ≤ l.tail_cnt % l.log_size + size → Overrun l es size h
      overrun over = record { fits = fits; room = room; low = low; over = over }
