-- ===== src/Ckptlog/Slots.antt =====
-- The slots of the checkpoint log: their bytes, and what a peek passes over.
use timestone.Base.{
  ℕ, ◌+◌, ◌%◌, ◌^◌, ◌<◌, ◌≡◌, inl, inr, refl, ap, ◌∙◌, Bool, true, false, Option, none, some, List,
  [], ◌∷◌, ◌++◌, arith, Bool-cases, if◌then◌else◌,
}
use timestone.Nvlog.{Entry, is_bogus, nvlog_peek_head}
use timestone.Nvlog.Layout.{Chain, entries}
use timestone.Nvlog.Append.{Holds}
use timestone.Nvlog.Deq.{behind-filler, Holds-advance, advance, entries-one, entries-filler}
use timestone.Nvlog.Peek.{peek_nil, peek-one, peek_filler_last, peek_filler_next}
use timestone.Ckptlog.{Log}

abbrev pub Slots : Type 0
Slots = List (Entry (Unit {0}))

-- the bytes of some slots
abbrev pub span : Slots → ℕ
span [] = 0
span (e ∷ es) = e.size + span es

-- Every slot has some bytes.
abbrev pub AllPositive : Slots → Type 0
AllPositive [] = Unit {0}
AllPositive (e ∷ es) = (0 < e.size) × AllPositive es

pub Chain-AllPositive :
    (buffer : ℕ → Entry (Unit {0})) (n c t : ℕ) (es : Slots)
    → Chain buffer n c t es
    → AllPositive es
Chain-AllPositive buffer n c t [] h = tt
Chain-AllPositive buffer n c t (e ∷ es) h =
    (h.1.positive, Chain-AllPositive buffer n (c + e.size) t es h.2)

pub AllPositive-left : (xs ys : Slots) → AllPositive (xs ++ ys) → AllPositive xs
AllPositive-left [] ys h = tt
AllPositive-left (x ∷ xs) ys h = (h.0, AllPositive-left xs ys h.1)

pub AllPositive-right : (xs ys : Slots) → AllPositive (xs ++ ys) → AllPositive ys
AllPositive-right [] ys h = h
AllPositive-right (x ∷ xs) ys h = AllPositive-right xs ys h.1

-- The slots do not begin with a bogus one.
abbrev pub entry_first : Slots → Bool
entry_first [] = true
entry_first (e ∷ es) = if is_bogus e.type then false else true

-- A peek passes over the bogus slot in front, if there is one.
abbrev pub AllBogus : Slots → Type 0
AllBogus [] = Unit {0}
AllBogus (e ∷ es) = (is_bogus e.type ≡ true) × AllBogus es

-- What a peek finds: it passes over bogus slots only, and there is no entry, or it returns the offset of
-- the entry that is now at the head.
pub data Found (l : Log) (es : Slots) : Log → Option ℕ → Type 0 where
  at_end :
      {l' : Log} {r : Option ℕ}
      → r ≡ none
      → AllBogus es
      → l' ≡ advance l (span es)
      → Holds l' []
      → Found l es l' r
  at_entry :
      {l' : Log} {r : Option ℕ} (xs : Slots) (e : Entry (Unit {0})) (ys : Slots)
      → r ≡ some ((l.head_cnt + span xs) % l.log_size)
      → es ≡ xs ++ (e ∷ ys)
      → AllBogus xs
      → is_bogus e.type ≡ false
      → l' ≡ advance l (span xs)
      → Holds l' (e ∷ ys)
      → entries es ≡ e ∷ entries ys
      → Found l es l' r

one_more : (l : Log) (n : ℕ) → advance l n ≡ advance l (n + 0)
one_more l n = ap (λ k. advance l k) {y = n + 0} (omega arith)

none_more : (l : Log) → l ≡ advance l 0
none_more l = ap (λ k. record l { head_cnt = k }) {y = l.head_cnt + 0} (omega arith)

pub peek-Found :
    (l : Log) (es : Slots)
    → Holds l es
    → l.tail_cnt < 2 ^ 64
    → Found l es (nvlog_peek_head l).0 (nvlog_peek_head l).1
peek-Found l [] h low = rw (peek_nil l h) (at_end refl tt (none_more l) h)
peek-Found l (e ∷ []) h low = elim (Bool-cases (is_bogus e.type)) [
  | inl b ↦
      rw (peek_filler_last l e low h b)
        (at_end refl (b, tt) (one_more l e.size) (Holds-advance l e [] h))
  | inr b ↦ rw (peek-one l e [] h low b) (
      at_entry [] e [] (ap (λ k. some (k % l.log_size)) {y = l.head_cnt + 0} (omega arith)) refl tt
        b (none_more l) h (entries-one e [] b))
]
peek-Found l (e ∷ f ∷ es) h low = elim (Bool-cases (is_bogus e.type)) [
  | inl b ↦
      let c = behind-filler l e f es h b in
      rw (peek_filler_next l e f es low h b) (
        at_entry (e ∷ []) f es
          (ap (λ k. some ((l.head_cnt + k) % l.log_size)) {y = e.size + 0} (omega arith)) refl
          (b, tt) c (one_more l e.size) (Holds-advance l e (f ∷ es) h)
          (entries-filler e (f ∷ es) b ∙ entries-one f es c))
  | inr b ↦ rw (peek-one l e (f ∷ es) h low b) (
      at_entry [] e (f ∷ es) (ap (λ k. some (k % l.log_size)) {y = l.head_cnt + 0} (omega arith))
        refl tt b (none_more l) h (entries-one e (f ∷ es) b))
]
