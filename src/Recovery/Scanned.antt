-- ===== src/Recovery/Scanned.antt =====
-- The recovery of one checkpoint log: which of its entries the loop comes to, and what it makes of them.
use timestone.Base.{
  ℕ, zero, suc, ◌+◌, ◌%◌, ◌^◌, ◌<◌, ◌≡◌, inl, inr, refl, ap, ◌∙◌, true, false, Option, some, List,
  [], ◌∷◌, ◌++◌, length, ltb, ◌==◌, if◌then◌else◌, arith, Bool-cases,
}
use mathlib.Core.Path.{subst}
use timestone.Nvlog.{Entry, is_bogus, nvlog_peek_head, nvlog_deq}
use timestone.Nvlog.Layout.{entries}
use timestone.Nvlog.Append.{Holds}
use timestone.Nvlog.Deq.{Holds-advance, advance, deq-one, head-ne-tail}
use timestone.Ckptlog.{Log}
use timestone.Ckptlog.Slots.{Slots, span, AllBogus, Found, at_end, at_entry, peek-Found}
use timestone.Recovery.{Rebuilt, Scan, scanned, reconstruct_volatile_header, recover_entries}
use timestone.Recovery.Rounds.{LastReal, LastReal-rest}
use timestone.Recovery.Newest.{
  Entries, note, notes, Recovered, reconstruct_volatile_header-Recovered,
}

-- The addresses of the entries, from position `cnt` on, up to the first that a later checkpoint made.
abbrev pub recovered : Entries → ℕ → ℕ → ℕ → ℕ → Slots → List ℕ
recovered ckpt last base n cnt [] = []
recovered ckpt last base n cnt (e ∷ es) =
    if is_bogus e.type
    then recovered ckpt last base n (cnt + e.size) es
    else if ltb last (ckpt (base + cnt % n)).ckpt_s_clk
    then []
    else (base + cnt % n) ∷ recovered ckpt last base n (cnt + e.size) es

recovered-bogus :
    (ckpt : Entries) (last base n cnt : ℕ) (xs ys : Slots)
    → AllBogus xs
    → recovered ckpt last base n cnt (xs ++ ys) ≡ recovered ckpt last base n (cnt + span xs) ys
recovered-bogus ckpt last base n cnt [] ys b =
    ap (λ (c : ℕ). recovered ckpt last base n c ys) {y = cnt + 0} (omega arith)
recovered-bogus ckpt last base n cnt (x ∷ xs) ys b = rw b.0 (
    recovered-bogus ckpt last base n (cnt + x.size) xs ys b.1
    ∙ ap (λ (c : ℕ). recovered ckpt last base n c ys) {x = cnt + x.size + span xs}
        {y = cnt + (x.size + span xs)} (omega arith))

-- Slots that are all bogus and end with an entry are none.
no_slots : (es : Slots) → AllBogus es → LastReal es → es ≡ []
no_slots [] b real = refl
no_slots (e ∷ []) b real = cc
no_slots (e ∷ f ∷ es) b real = absurd (let bad = no_slots (f ∷ es) b.1 real in cc)

-- Behind bogus slots.
LastReal-behind : (xs ys : Slots) → LastReal (xs ++ ys) → LastReal ys
LastReal-behind [] ys real = real
LastReal-behind (x ∷ xs) ys real = LastReal-behind xs ys (LastReal-rest x (xs ++ ys) real)

module _ (fresh : ℕ → Option ℕ) (alloc : ℕ → ℕ) (gen_id last base : ℕ)
    (gives : (k : ℕ) → fresh k ≡ some (alloc k)) (apart : (i j : ℕ) → alloc i ≡ alloc j → i ≡ j)
    (ckpt : Entries) where
  -- The result of the loop from the log `l` of the slots `es`.
  abbrev pub Scans : Log → Slots → (ℕ → Option ℕ) → Scan (Rebuilt × Log) → Type 0
  Scans l es best x =
      (r' : Rebuilt) × (l' : Log) × (x ≡ scanned (r', l'))
      × Recovered alloc gen_id ckpt r'
          (notes ckpt best (recovered ckpt last base l.log_size l.head_cnt es))

  abbrev Loop : ℕ → Type 0
  Loop fuel =
      (l : Log) (es : Slots) (r : Rebuilt) (best : ℕ → Option ℕ)
      → Recovered alloc gen_id ckpt r best
      → Holds l es
      → LastReal es
      → l.tail_cnt < 2 ^ 64
      → length (entries es) < fuel
      → Scans l es best (recover_entries fuel fresh gen_id last base r l)

  recover_end :
      (fuel : ℕ) (r : Rebuilt) (l : Log)
      → (l.head_cnt == l.tail_cnt) ≡ true
      → recover_entries (suc fuel) fresh gen_id last base r l ≡ scanned (r, l)
  unfolding recover_entries
  recover_end fuel r l e = rw (e, recover_entries) refl

  -- a round at the entry with address `base + i`
  module _ (fuel : ℕ) (r : Rebuilt) (l l1 : Log) (i : ℕ) (more : (l.head_cnt == l.tail_cnt) ≡ false)
      (peek : nvlog_peek_head l ≡ (l1, some i)) where
    recover_later :
        ltb last (r.memory.ckpt (base + i)).ckpt_s_clk ≡ true
        → recover_entries (suc fuel) fresh gen_id last base r l ≡ scanned (r, l1)
    unfolding recover_entries
    recover_later late =
        rw (more, recover_entries, ap (λ x. x.1) peek, late) (ap (λ x. scanned (r, x.0)) peek)

    recover_next :
        (r' : Rebuilt)
        → ltb last (r.memory.ckpt (base + i)).ckpt_s_clk ≡ false
        → reconstruct_volatile_header fresh gen_id r (base + i) ≡ some r'
        → recover_entries (suc fuel) fresh gen_id last base r l
          ≡ recover_entries fuel fresh gen_id last base r' (nvlog_deq l1).0
    unfolding recover_entries
    recover_next r' early got =
        rw (more, recover_entries, ap (λ x. x.1) peek, early, got)
          (ap (λ x. recover_entries fuel fresh gen_id last base r' (nvlog_deq x.0).0) peek)

  module _ (fuel : ℕ) (again : Loop fuel) (l : Log) (es : Slots) (r : Rebuilt) (best : ℕ → Option ℕ)
      (inv : Recovered alloc gen_id ckpt r best) (real : LastReal es) (low : l.tail_cnt < 2 ^ 64)
      (enough : length (entries es) < suc fuel) (more : (l.head_cnt == l.tail_cnt) ≡ false)
      (some_slot : es ≡ [] → ⊥) where
    -- the entry `e` that stands behind the bogus slots `xs`
    scan_entry :
        (xs : Slots) (e : Entry (Unit {0})) (ys : Slots)
        → nvlog_peek_head l ≡ (advance l (span xs), some ((l.head_cnt + span xs) % l.log_size))
        → es ≡ xs ++ (e ∷ ys)
        → AllBogus xs
        → is_bogus e.type ≡ false
        → Holds (advance l (span xs)) (e ∷ ys)
        → entries es ≡ e ∷ entries ys
        → Scans l es best (recover_entries (suc fuel) fresh gen_id last base r l)
    scan_entry xs e ys peek all bogus entry holds same =
        let i = (l.head_cnt + span xs) % l.log_size in
        let l1 = advance l (span xs) in
        let at : recovered ckpt last base l.log_size l.head_cnt es
            ≡ recovered ckpt last base l.log_size (l.head_cnt + span xs) (e ∷ ys) =
          ap (λ x. recovered ckpt last base l.log_size l.head_cnt x) all
          ∙ recovered-bogus ckpt last base l.log_size l.head_cnt xs (e ∷ ys) bogus in
        let clk : (r.memory.ckpt (base + i)).ckpt_s_clk ≡ (ckpt (base + i)).ckpt_s_clk =
          ap (λ c. (c (base + i)).ckpt_s_clk) inv.entries in
        elim (Bool-cases (ltb last (ckpt (base + i)).ckpt_s_clk)) [
          | inl late ↦
              (r, l1, recover_later fuel r l l1 i more peek (rw clk late), rw (at, entry, late) inv)
          | inr early ↦
              let (r1, got, inv1) =
                reconstruct_volatile_header-Recovered fresh alloc gen_id gives apart ckpt r best
                  (base + i) inv in
              let deq = ap (λ x. x.0) (deq-one l1 e ys low holds entry) in
              let real' =
                LastReal-rest e ys
                  (LastReal-behind xs (e ∷ ys) (subst (λ z. LastReal z) all real)) in
              let (r2, l2, rest, inv2) =
                again (advance l1 e.size) ys r1 (note ckpt best (base + i)) inv1
                  (Holds-advance l1 e ys holds) real' low
                  (omega (arith, enough, ap (λ x. length x) same)) in
              (
                r2,
                l2,
                recover_next fuel r l l1 i more peek r1 (rw clk early) got
                    ∙ ap (recover_entries fuel fresh gen_id last base r1) deq
                    ∙ rest,
                rw (at, entry, early) inv2,
              )
        ]

    scan_found :
        (l' : Log) (x : Option ℕ)
        → nvlog_peek_head l ≡ (l', x)
        → Found l es l' x
        → Scans l es best (recover_entries (suc fuel) fresh gen_id last base r l)
    scan_found l' x peek (at_end e bogus here holds) = absurd (some_slot (no_slots es bogus real))
    scan_found l' x peek (at_entry xs e ys at all bogus entry here holds same) =
        scan_entry xs e ys (peek ∙ ap (λ k. (k, x)) here ∙ ap (λ k. (advance l (span xs), k)) at)
          all bogus entry (subst (λ k. Holds k (e ∷ ys)) here holds) same

  -- The loop over a log that ends with an entry, if it has slots, and has fewer entries than the fuel.
  pub recover_entries-Scans :
      (fuel : ℕ) (l : Log) (es : Slots) (r : Rebuilt) (best : ℕ → Option ℕ)
      → Recovered alloc gen_id ckpt r best
      → Holds l es
      → LastReal es
      → l.tail_cnt < 2 ^ 64
      → length (entries es) < fuel
      → Scans l es best (recover_entries fuel fresh gen_id last base r l)
  recover_entries-Scans zero l es r best inv h real low enough = absurd (omega (arith, enough))
  recover_entries-Scans (suc fuel) l [] r best inv h real low enough =
      (r, l, recover_end fuel r l (ground (arith, h.chain)), inv)
  recover_entries-Scans (suc fuel) l (e ∷ es) r best inv h real low enough =
      scan_found fuel (recover_entries-Scans fuel) l (e ∷ es) r best inv real low enough
        (ground (arith, head-ne-tail l e es h, h.chain.1.positive)) (λ bad. cc)
        (nvlog_peek_head l).0 (nvlog_peek_head l).1 refl (peek-Found l (e ∷ es) h low)
