-- ===== src/Nvlog/Deq.antt =====
-- nvlog_peek_head, nvlog_deq: the log is a queue of its entries.
use native.Mathlib.Nat.{mod-lt}
use timestone.Base.{
  ℕ, ◌+◌, ◌%◌, ◌^◌, ◌≤◌, ◌<◌, ◌≡◌, inl, inr, refl, sym, ap, ◌∙◌, true, false, Option, none, some,
  List, [], ◌∷◌, arith, Bool-cases,
}
use timestone.Nvlog.{Entry, Nvlog, is_bogus, nvlog_at, nvlog_deq}
use timestone.Nvlog.Layout.{entries, Chain-le, mod-add_round}
use timestone.Nvlog.Append.{Holds, index_lem}

module _ {A : Type 0} where
  pub at-head :
      (l : Nvlog A) (e : Entry A) (es : List (Entry A))
      → Holds l (e ∷ es)
      → nvlog_at l l.head_cnt ≡ e
  at-head l e es h = ap l.buffer (index_lem l l.head_cnt h.nonempty h.small) ∙ h.chain.0

  abbrev pub advance : Nvlog A → ℕ → Nvlog A
  advance l s = record l { head_cnt = l.head_cnt + s }

  pub Holds-advance :
      (l : Nvlog A) (e : Entry A) (es : List (Entry A))
      → Holds l (e ∷ es)
      → Holds (advance l e.size) es
  Holds-advance l e es h = record { nonempty = h.nonempty; small = h.small; chain = h.chain.2 }

  pub head-ne-tail :
      (l : Nvlog A) (e : Entry A) (es : List (Entry A))
      → Holds l (e ∷ es)
      → l.head_cnt + e.size ≤ l.tail_cnt
  head-ne-tail l e es h = Chain-le l.buffer l.log_size (l.head_cnt + e.size) l.tail_cnt es h.chain.2

  -- No two bogus slots stand side by side: behind the first the offset is 0.
  pub behind-filler :
      (l : Nvlog A) (e f : Entry A) (es : List (Entry A))
      → Holds l (e ∷ f ∷ es)
      → is_bogus e.type ≡ true
      → is_bogus f.type ≡ false
  behind-filler l e f es h b = elim (Bool-cases (is_bogus f.type)) [
    | inl c ↦ absurd (omega (arith, origin, h.chain.2.1.filler c, h.nonempty))
    | inr c ↦ c
  ]
    where
      origin : (l.head_cnt + e.size) % l.log_size ≡ 0
      origin = omega (
        arith,
        h.chain.1.filler b,
        mod-lt l.head_cnt {m = l.log_size} h.nonempty,
        mod-add_round l.log_size l.head_cnt e.size (omega (arith, h.chain.1.filler b))
            (omega (arith, h.chain.1.filler b, h.nonempty)),
      )

  -- What a dequeue leaves, by its result: the log holds no entry, or the first entry's offset is
  -- returned and the log holds the others. The buffer and the tail stay.
  pub data Dequeued (l : Nvlog A) (es : List (Entry A)) : Nvlog A → Option ℕ → Type 0 where
    empty :
        {l' : Nvlog A} {r : Option ℕ}
        → r ≡ none
        → Holds l' []
        → entries es ≡ []
        → Dequeued l es l' r
    first :
        {l' : Nvlog A} {r : Option ℕ} (es' : List (Entry A)) (i : ℕ)
        → r ≡ some i
        → Holds l' es'
        → entries es ≡ l.buffer i ∷ entries es'
        → l'.buffer ≡ l.buffer
        → l'.tail_cnt ≡ l.tail_cnt
        → Dequeued l es l' r

  pub deq_nil : (l : Nvlog A) → Holds l [] → nvlog_deq l ≡ (l, none)
  unfolding nvlog_deq
  deq_nil l h = ground (arith, h.chain)

  module _ (l : Nvlog A) (e : Entry A) (es : List (Entry A)) (low : l.tail_cnt < 2 ^ 64)
      (h : Holds l (e ∷ es)) where
    pub deq-one :
        is_bogus e.type ≡ false → nvlog_deq l ≡ (advance l e.size, some (l.head_cnt % l.log_size))
    unfolding nvlog_deq
    deq-one b = ground (
      arith,
      at-head l e es h,
      ap (λ x. x.size) (at-head l e es h),
      ap (λ x. is_bogus x.type) (at-head l e es h),
      head-ne-tail l e es h,
      h.chain.1,
      index_lem l l.head_cnt h.nonempty h.small,
    )

  pub deq_filler_last :
      (l : Nvlog A) (e : Entry A)
      → l.tail_cnt < 2 ^ 64
      → Holds l (e ∷ [])
      → is_bogus e.type ≡ true
      → nvlog_deq l ≡ (advance l e.size, none)
  unfolding nvlog_deq
  deq_filler_last l e low h b = ground (
    arith,
    ap (λ x. x.size) (at-head l e [] h),
    ap (λ x. is_bogus x.type) (at-head l e [] h),
    h.chain,
  )

  -- the log that has skipped its first slot reads the second
  pub deq_filler_next :
      (l : Nvlog A) (e f : Entry A) (es : List (Entry A))
      → l.tail_cnt < 2 ^ 64
      → Holds l (e ∷ f ∷ es)
      → is_bogus e.type ≡ true
      → nvlog_deq l ≡ (advance (advance l e.size) f.size, some ((l.head_cnt + e.size) % l.log_size))
  unfolding nvlog_deq
  deq_filler_next l e f es low h b = ground (
    arith,
    ap (λ x. x.size) (at-head l e (f ∷ es) h),
    ap (λ x. is_bogus x.type) (at-head l e (f ∷ es) h),
    ap (λ x. x.size) second,
    index_lem l (l.head_cnt + e.size) h.nonempty h.small,
    head-ne-tail l e (f ∷ es) h,
    head-ne-tail (advance l e.size) f es (Holds-advance l e (f ∷ es) h),
    h.chain.2.1,
  )
    where
      second : nvlog_at l (l.head_cnt + e.size) ≡ f
      second = at-head (advance l e.size) f es (Holds-advance l e (f ∷ es) h)

  pub entries-filler :
      (e : Entry A) (es : List (Entry A)) → is_bogus e.type ≡ true → entries (e ∷ es) ≡ entries es
  entries-filler e es b = rw b

  pub entries-one :
      (e : Entry A) (es : List (Entry A))
      → is_bogus e.type ≡ false
      → entries (e ∷ es) ≡ e ∷ entries es
  entries-one e es b = rw b

  deq_filler-Dequeued :
      (l : Nvlog A) (e : Entry A) (es : List (Entry A))
      → Holds l (e ∷ es)
      → l.tail_cnt < 2 ^ 64
      → is_bogus e.type ≡ true
      → Dequeued l (e ∷ es) (nvlog_deq l).0 (nvlog_deq l).1
  deq_filler-Dequeued l e [] h low b =
      rw (deq_filler_last l e low h b) (empty refl (Holds-advance l e [] h) (entries-filler e [] b))
  deq_filler-Dequeued l e (f ∷ es) h low b = rw (deq_filler_next l e f es low h b) (
      first es ((l.head_cnt + e.size) % l.log_size) refl (Holds-advance (advance l e.size) f es h')
        (entries-filler e (f ∷ es) b
          ∙ (entries-one f es (behind-filler l e f es h b)
              ∙ ap (λ x. x ∷ entries es) (sym h'.chain.0)))
        refl refl)
    where
      h' : Holds (advance l e.size) (f ∷ es)
      h' = Holds-advance l e (f ∷ es) h

  -- `nvlog_deq` takes the oldest entry off the queue, passing over a bogus slot in front of it, and
  -- returns NULL exactly when there is no entry; the counts do not pass the 64-bit word.
  pub nvlog_deq-Dequeued :
      (l : Nvlog A) (es : List (Entry A))
      → Holds l es
      → l.tail_cnt < 2 ^ 64
      → Dequeued l es (nvlog_deq l).0 (nvlog_deq l).1
  nvlog_deq-Dequeued l [] h low = rw (deq_nil l h) (empty refl h refl)
  nvlog_deq-Dequeued l (e ∷ es) h low = elim (Bool-cases (is_bogus e.type)) [
    | inl b ↦ deq_filler-Dequeued l e es h low b
    | inr b ↦ rw (deq-one l e es low h b) (
        first es (l.head_cnt % l.log_size) refl (Holds-advance l e es h)
          (entries-one e es b ∙ ap (λ x. x ∷ entries es) (sym h.chain.0)) refl refl)
  ]
