-- ===== src/Nvlog/Peek.antt =====
-- nvlog_peek_head shows the entry that nvlog_deq takes.
use timestone.Base.{
  ℕ, ◌+◌, ◌%◌, ◌^◌, ◌<◌, ◌≡◌, inl, inr, refl, ap, ◌∙◌, true, false, Option, none, some, List, [],
  ◌∷◌, arith, Bool-cases,
}
use timestone.Nvlog.{Entry, Nvlog, is_bogus, nvlog_peek_head, nvlog_deq}
use timestone.Nvlog.Layout.{entries}
use timestone.Nvlog.Append.{Holds, index_lem}
use timestone.Nvlog.Deq.{
  at-head, advance, Holds-advance, head-ne-tail, behind-filler, deq-one, deq_filler_last,
  deq_filler_next, entries-filler, entries-one, deq_nil,
}

module _ {A : Type 0} where
  pub peek_filler_last :
      (l : Nvlog A) (e : Entry A)
      → l.tail_cnt < 2 ^ 64
      → Holds l (e ∷ [])
      → is_bogus e.type ≡ true
      → nvlog_peek_head l ≡ (advance l e.size, none)
  unfolding nvlog_peek_head
  peek_filler_last l e low h b = ground (
    arith,
    ap (λ x. x.size) (at-head l e [] h),
    ap (λ x. is_bogus x.type) (at-head l e [] h),
    h.chain,
  )

  pub peek_filler_next :
      (l : Nvlog A) (e f : Entry A) (es : List (Entry A))
      → l.tail_cnt < 2 ^ 64
      → Holds l (e ∷ f ∷ es)
      → is_bogus e.type ≡ true
      → nvlog_peek_head l ≡ (advance l e.size, some ((l.head_cnt + e.size) % l.log_size))
  unfolding nvlog_peek_head
  peek_filler_next l e f es low h b = ground (
    arith,
    ap (λ x. x.size) (at-head l e (f ∷ es) h),
    ap (λ x. is_bogus x.type) (at-head l e (f ∷ es) h),
    index_lem l (l.head_cnt + e.size) h.nonempty h.small,
    head-ne-tail l e (f ∷ es) h,
    head-ne-tail (advance l e.size) f es (Holds-advance l e (f ∷ es) h),
    h.chain.2.1,
  )

  pub peek-one :
      (l : Nvlog A) (e : Entry A) (es : List (Entry A))
      → Holds l (e ∷ es)
      → l.tail_cnt < 2 ^ 64
      → is_bogus e.type ≡ false
      → nvlog_peek_head l ≡ (l, some (l.head_cnt % l.log_size))
  unfolding nvlog_peek_head
  peek-one l e es h low b = ground (
    arith,
    ap (λ x. is_bogus x.type) (at-head l e es h),
    head-ne-tail l e es h,
    h.chain.1,
    index_lem l l.head_cnt h.nonempty h.small,
  )

  pub peek_nil : (l : Nvlog A) → Holds l [] → nvlog_peek_head l ≡ (l, none)
  unfolding nvlog_peek_head
  peek_nil l h = ground (arith, h.chain)

  -- `nvlog_peek_head` returns what `nvlog_deq` would return, and leaves a log from which `nvlog_deq`
  -- returns the same and reaches the same log.
  pub nvlog_deq-nvlog_peek_head :
      (l : Nvlog A) (es : List (Entry A))
      → Holds l es
      → l.tail_cnt < 2 ^ 64
      → ((nvlog_peek_head l).1 ≡ (nvlog_deq l).1) × (nvlog_deq (nvlog_peek_head l).0 ≡ nvlog_deq l)
  nvlog_deq-nvlog_peek_head l [] h low = rw (peek_nil l h, deq_nil l h) (refl, refl)
  nvlog_deq-nvlog_peek_head l (e ∷ es) h low = elim (Bool-cases (is_bogus e.type)) [
    | inl b ↦ filler es h b
    | inr b ↦ rw (peek-one l e es h low b) (rw (deq-one l e es low h b) refl, refl)
  ]
    where
      filler :
          (fs : List (Entry A))
          → Holds l (e ∷ fs)
          → is_bogus e.type ≡ true
          → ((nvlog_peek_head l).1 ≡ (nvlog_deq l).1)
            × (nvlog_deq (nvlog_peek_head l).0 ≡ nvlog_deq l)
      filler [] k b =
          rw (peek_filler_last l e low k b, deq_filler_last l e low k b)
            (refl, deq_nil (advance l e.size) (Holds-advance l e [] k))
      filler (f ∷ fs) k b =
          rw (peek_filler_next l e f fs low k b, deq_filler_next l e f fs low k b)
            (
              refl,
              deq-one (advance l e.size) f fs low (Holds-advance l e (f ∷ fs) k)
                  (behind-filler l e f fs k b),
            )

  -- What a peek leaves: the log with the bogus slot in front skipped.
  pub data Peeked (l : Nvlog A) (es : List (Entry A)) : Nvlog A → Option ℕ → Type 0 where
    empty :
        {l' : Nvlog A} {r : Option ℕ}
        → r ≡ none
        → Holds l' []
        → entries es ≡ []
        → l'.tail_cnt ≡ l.tail_cnt
        → Peeked l es l' r
    front :
        {l' : Nvlog A} {r : Option ℕ} (e : Entry A) (es' : List (Entry A)) (i : ℕ)
        → r ≡ some i
        → Holds l' (e ∷ es')
        → is_bogus e.type ≡ false
        → entries es ≡ e ∷ entries es'
        → l'.buffer i ≡ e
        → l'.tail_cnt ≡ l.tail_cnt
        → Peeked l es l' r

  peek_filler-Peeked :
      (l : Nvlog A) (e : Entry A) (es : List (Entry A))
      → Holds l (e ∷ es)
      → l.tail_cnt < 2 ^ 64
      → is_bogus e.type ≡ true
      → Peeked l (e ∷ es) (nvlog_peek_head l).0 (nvlog_peek_head l).1
  peek_filler-Peeked l e [] h low b =
      rw (peek_filler_last l e low h b)
        (empty refl (Holds-advance l e [] h) (entries-filler e [] b) refl)
  peek_filler-Peeked l e (f ∷ es) h low b = rw (peek_filler_next l e f es low h b) (
      front f es ((l.head_cnt + e.size) % l.log_size) refl (Holds-advance l e (f ∷ es) h)
        (behind-filler l e f es h b)
        (entries-filler e (f ∷ es) b ∙ entries-one f es (behind-filler l e f es h b))
        (Holds-advance l e (f ∷ es) h).chain.0 refl)

  -- `nvlog_peek_head` returns NULL exactly when there is no entry, and otherwise the offset of the
  -- oldest entry, which it leaves in the log.
  pub nvlog_peek_head-Peeked :
      (l : Nvlog A) (es : List (Entry A))
      → Holds l es
      → l.tail_cnt < 2 ^ 64
      → Peeked l es (nvlog_peek_head l).0 (nvlog_peek_head l).1
  nvlog_peek_head-Peeked l [] h low = rw (peek_nil l h) (empty refl h refl refl)
  nvlog_peek_head-Peeked l (e ∷ es) h low = elim (Bool-cases (is_bogus e.type)) [
    | inl b ↦ peek_filler-Peeked l e es h low b
    | inr b ↦
        rw (peek-one l e es h low b)
          (front e es (l.head_cnt % l.log_size) refl h b (entries-one e es b) h.chain.0 refl)
  ]
