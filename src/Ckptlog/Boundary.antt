-- ===== src/Ckptlog/Boundary.antt =====
-- Which entries the first loop of a reclamation takes off the log.
use timestone.Base.{
  ℕ, zero, suc, ◌+◌, ◌%◌, ◌^◌, ◌<◌, ◌≡◌, inl, inr, refl, ap, ◌∙◌, true, false, Option, none, some,
  [], ◌∷◌, ◌++◌, ◌==◌, if◌then◌else◌, arith, Bool-cases, length,
}
use timestone.PtrSet.{PtrSet, Alloc}
use timestone.Nvlog.{Entry, is_bogus, nvlog_peek_head, nvlog_deq}
use timestone.Nvlog.Layout.{entries}
use timestone.Nvlog.Append.{Holds}
use timestone.Nvlog.Deq.{
  behind-filler, deq-one, Holds-advance, advance, entries-one, entries-filler,
}
use timestone.Nvlog.Peek.{peek_nil, peek-one, peek_filler_last, peek_filler_next}
use timestone.Memory.{Memory}
use timestone.Ckptlog.Slots.{
  Slots, span, AllPositive, Chain-AllPositive, AllPositive-left, AllPositive-right, entry_first,
}
use timestone.Ckptlog.{Log, push_tombstone, reclaim_entries}

-- The slots that are left when those from position `cnt` on are taken off up to the first entry at
-- position `prev`. A bogus slot is passed over wherever it lies.
abbrev pub stop_at : ℕ → ℕ → Slots → Slots
stop_at prev cnt [] = []
stop_at prev cnt (e ∷ es) =
    if is_bogus e.type
    then stop_at prev (cnt + e.size) es
    else if cnt == prev
    then e ∷ es
    else stop_at prev (cnt + e.size) es

-- What the loop returns: a log of what is left, with the tail `t`.
abbrev Left : ℕ → Slots → Option (Log × PtrSet × Option ℕ) → Type 0
Left t ks none = ⊥
Left t ks (some r) = (es : Slots) × Holds r.0 es × (entries es ≡ entries ks) × (r.0.tail_cnt ≡ t)

module _ (alloc : Alloc) (m : Memory) (base prev : ℕ) where
  Rest : ℕ → Type 0
  Rest fuel =
      (l : Log) (fs : PtrSet) (es : Slots)
      → Holds l es
      → l.tail_cnt < 2 ^ 64
      → length (entries es) < fuel
      → Left l.tail_cnt (stop_at prev l.head_cnt es) (reclaim_entries fuel alloc m base prev l fs)

-- What a peek leaves of the slots that a loop up to `prev` comes to.
data PeekedTo (prev : ℕ) (l : Log) (es : Slots) : Log → Option ℕ → Type 0 where
  at_end :
      {l' : Log} {r : Option ℕ}
      → r ≡ none
      → Holds l' []
      → stop_at prev l.head_cnt es ≡ []
      → l'.tail_cnt ≡ l.tail_cnt
      → PeekedTo prev l es l' r
  at_entry :
      {l' : Log} {r : Option ℕ} (e : Entry (Unit {0})) (es' : Slots) (i : ℕ)
      → r ≡ some i
      → Holds l' (e ∷ es')
      → is_bogus e.type ≡ false
      → stop_at prev l.head_cnt es ≡ stop_at prev l'.head_cnt (e ∷ es')
      → entries es ≡ e ∷ entries es'
      → l'.tail_cnt ≡ l.tail_cnt
      → PeekedTo prev l es l' r

peek-PeekedTo :
    (prev : ℕ) (l : Log) (es : Slots)
    → Holds l es
    → l.tail_cnt < 2 ^ 64
    → PeekedTo prev l es (nvlog_peek_head l).0 (nvlog_peek_head l).1
peek-PeekedTo prev l [] h low = rw (peek_nil l h) (at_end refl h refl refl)
peek-PeekedTo prev l (e ∷ []) h low = elim (Bool-cases (is_bogus e.type)) [
  | inl b ↦ rw (peek_filler_last l e low h b) (at_end refl (Holds-advance l e [] h) (rw b) refl)
  | inr b ↦
      rw (peek-one l e [] h low b)
        (at_entry e [] (l.head_cnt % l.log_size) refl h b refl (entries-one e [] b) refl)
]
peek-PeekedTo prev l (e ∷ f ∷ es) h low = elim (Bool-cases (is_bogus e.type)) [
  | inl b ↦
      let c = behind-filler l e f es h b in
      rw (peek_filler_next l e f es low h b) (
        at_entry f es ((l.head_cnt + e.size) % l.log_size) refl (Holds-advance l e (f ∷ es) h) c
          (rw b) (entries-filler e (f ∷ es) b ∙ entries-one f es c) refl)
  | inr b ↦
      rw (peek-one l e (f ∷ es) h low b) (
        at_entry e (f ∷ es) (l.head_cnt % l.log_size) refl h b refl (entries-one e (f ∷ es) b) refl)
]

module _ (alloc : Alloc) (m : Memory) (base prev : ℕ) where
  -- the rest of a round, behind the peek
  abbrev round : ℕ → Log → PtrSet → Option ℕ → Option (Log × PtrSet × Option ℕ)
  round fuel l' fs r = elim r [
    | none ↦ some (l', fs, none)
    | some i ↦
        let rest =
          reclaim_entries fuel alloc m base prev (nvlog_deq l').0
            (push_tombstone alloc m (m.ckpt (base + i)) fs) in
        if l'.head_cnt == prev then some (l', fs, some i) else rest
  ]

  round-Left :
      (fuel : ℕ) (l l' : Log) (fs : PtrSet) (es : Slots) {r : Option ℕ}
      → Rest alloc m base prev fuel
      → l.tail_cnt < 2 ^ 64
      → length (entries es) < suc fuel
      → PeekedTo prev l es l' r
      → Left l.tail_cnt (stop_at prev l.head_cnt es) (round fuel l' fs r)
  unfolding Rest
  round-Left fuel l l' fs es again low enough (at_end e hold none_left tail) =
      rw (e, none_left) ([], hold, refl, tail)
  round-Left fuel l l' fs es again low enough (at_entry e es' i at hold b same all tail) =
      rw (at, same)
        (elim (Bool-cases (l'.head_cnt == prev)) [
          | inl here ↦ rw (here, b) (e ∷ es', hold, refl, tail)
          | inr on ↦
              rw (on, b, deq-one l' e es' (omega arith) hold b, ← tail)
                (again (advance l' e.size) (push_tombstone alloc m (m.ckpt (base + i)) fs) es'
                  (Holds-advance l' e es' hold) (omega arith)
                  (omega (arith, ap (λ x. length x) all)))
        ])

  reclaim_entries-Left : (fuel : ℕ) → Rest alloc m base prev fuel
  unfolding reclaim_entries Rest
  reclaim_entries-Left zero l fs es h low enough = absurd (omega arith)
  reclaim_entries-Left (suc fuel) l fs es h low enough =
      round-Left fuel l (nvlog_peek_head l).0 fs es (reclaim_entries-Left fuel) low enough
        (peek-PeekedTo prev l es h low)

-- Behind the boundary it is not met any more.
stop_at-past : (prev cnt : ℕ) (es : Slots) → prev < cnt → stop_at prev cnt es ≡ []
stop_at-past prev cnt [] past = refl
stop_at-past prev cnt (e ∷ es) past = elim (Bool-cases (is_bogus e.type)) [
  | inl b ↦ rw b (stop_at-past prev (cnt + e.size) es (omega (arith, past)))
  | inr b ↦
      let on : cnt == prev ≡ false = ground (arith, past) in
      rw (b, on) (stop_at-past prev (cnt + e.size) es (omega (arith, past)))
]

-- In front of the boundary every slot is taken off.
stop_at-append :
    (prev cnt : ℕ) (xs ys : Slots)
    → AllPositive xs
    → cnt + span xs ≡ prev
    → stop_at prev cnt (xs ++ ys) ≡ stop_at prev prev ys
stop_at-append prev cnt [] ys pos reach = let e : cnt ≡ prev = omega (arith, reach) in rw e
stop_at-append prev cnt (x ∷ xs) ys pos reach =
    let on : cnt == prev ≡ false = ground (arith, reach, pos.0) in
    let rest = stop_at-append prev (cnt + x.size) xs ys pos.1 (omega (arith, reach)) in
    elim (Bool-cases (is_bogus x.type)) [ inl b ↦ rw b rest | inr b ↦ rw (b, on) rest ]

stop_at-here : (prev : ℕ) (ys : Slots) → entry_first ys ≡ true → stop_at prev prev ys ≡ ys
stop_at-here prev [] first = refl
stop_at-here prev (y ∷ ys) first = elim (Bool-cases (is_bogus y.type)) [
  | inl b ↦ let bad : false ≡ true = rw b at first in cc
  | inr b ↦ let same : prev == prev ≡ true = ground arith in rw (b, same)
]

stop_at-bogus :
    (prev : ℕ) (b : Entry (Unit {0})) (ys : Slots)
    → is_bogus b.type ≡ true
    → 0 < b.size
    → stop_at prev prev (b ∷ ys) ≡ []
stop_at-bogus prev b ys filler pos =
    rw filler (stop_at-past prev (prev + b.size) ys (omega (arith, pos)))

-- What is left of the log, where the loop ends.
abbrev pub Remains : Slots → ℕ → Option (Log × PtrSet × Option ℕ) → Type 0
Remains ks t r =
    (l : Log) × (fs : PtrSet) × (at : Option ℕ) × (es : Slots) × (r ≡ some (l, fs, at))
    × Holds l es
    × (entries es ≡ entries ks)
    × (l.tail_cnt ≡ t)

Left-Remains :
    (t : ℕ) (ks ks' : Slots) (r : Option (Log × PtrSet × Option ℕ))
    → ks ≡ ks'
    → Left t ks r
    → Remains ks' t r
Left-Remains t ks ks' none same h = absurd h
Left-Remains t ks ks' (some (l, fs, at)) same h =
    (l, fs, at, h.0, refl, h.1, h.2 ∙ ap (λ x. entries x) same, h.3)

-- The first loop of a reclamation, with the boundary at the slots `ys`, the tail of the log or an entry:
-- with more fuel than entries it ends, and it leaves exactly the entries from the boundary on, which
-- are those that an earlier reclamation has not written back.
pub reclaim_entries-Remains :
    (alloc : Alloc) (m : Memory) (base prev fuel : ℕ) (l : Log) (fs : PtrSet) (xs ys : Slots)
    → Holds l (xs ++ ys)
    → l.tail_cnt < 2 ^ 64
    → length (entries (xs ++ ys)) < fuel
    → l.head_cnt + span xs ≡ prev
    → entry_first ys ≡ true
    → Remains ys l.tail_cnt (reclaim_entries fuel alloc m base prev l fs)
unfolding Rest
reclaim_entries-Remains alloc m base prev fuel l fs xs ys h low enough reach first =
    let pos =
      AllPositive-left xs ys
        (Chain-AllPositive l.buffer l.log_size l.head_cnt l.tail_cnt (xs ++ ys) h.chain) in
    Left-Remains l.tail_cnt (stop_at prev l.head_cnt (xs ++ ys)) ys
      (reclaim_entries fuel alloc m base prev l fs)
      (stop_at-append prev l.head_cnt xs ys pos reach ∙ stop_at-here prev ys first)
      (reclaim_entries-Left alloc m base prev fuel l fs (xs ++ ys) h low enough)

-- With the boundary at a bogus slot, as where the next entry did not fit in front of the buffer's end,
-- the loop takes every entry off the log, also those behind the boundary, which were not written back.
pub reclaim_entries_past_bogus :
    (alloc : Alloc) (m : Memory) (base prev fuel : ℕ) (l : Log) (fs : PtrSet) (xs ys : Slots)
    (b : Entry (Unit {0}))
    → Holds l (xs ++ (b ∷ ys))
    → l.tail_cnt < 2 ^ 64
    → length (entries (xs ++ (b ∷ ys))) < fuel
    → l.head_cnt + span xs ≡ prev
    → is_bogus b.type ≡ true
    → Remains [] l.tail_cnt (reclaim_entries fuel alloc m base prev l fs)
unfolding Rest
reclaim_entries_past_bogus alloc m base prev fuel l fs xs ys b h low enough reach filler =
    let pos =
      Chain-AllPositive l.buffer l.log_size l.head_cnt l.tail_cnt (xs ++ (b ∷ ys)) h.chain in
    Left-Remains l.tail_cnt (stop_at prev l.head_cnt (xs ++ (b ∷ ys))) []
      (reclaim_entries fuel alloc m base prev l fs)
      (stop_at-append prev l.head_cnt xs (b ∷ ys) (AllPositive-left xs (b ∷ ys) pos) reach
        ∙ stop_at-bogus prev b ys filler (AllPositive-right xs (b ∷ ys) pos).0)
      (reclaim_entries-Left alloc m base prev fuel l fs (xs ++ (b ∷ ys)) h low enough)
