-- ===== src/Recovery/Chosen.antt =====
-- The entry that is noted for an object is its newest one.
use timestone.Base.{
  ℕ, ◌≤◌, ◌≡◌, ◌≢◌, ◌⊎◌, inl, inr, refl, sym, ap, ◌∙◌, Option, none, some, List, [], ◌∷◌, ltb, ◌==◌,
  ◌||◌, arith, Bool-cases,
}
use timestone.Links.Chains.{has, ◌∈◌}
use timestone.Recovery.Newest.{Entries, newer, note, notes}

-- What is known of the newest entry of object `a` among `es`.
pub data Newest (ckpt : Entries) (es : List ℕ) (a : ℕ) : Option ℕ → Type 0 where
  no_entry : ((e : ℕ) → e ∈ es → (ckpt e).np_org_act ≢ a) → Newest ckpt es a none
  newest_entry :
      {d : ℕ}
      → d ∈ es
      → (ckpt d).np_org_act ≡ a
      → ((e : ℕ) → e ∈ es → (ckpt e).np_org_act ≡ a → (ckpt e).wrt_clk ≤ (ckpt d).wrt_clk)
      → Newest ckpt es a (some d)

mem-cons : (e x : ℕ) (es : List ℕ) → e ∈ x ∷ es → (e ≡ x) ⊎ (e ∈ es)
mem-cons e x es m = elim (Bool-cases (e == x)) [
  | inl here ↦ inl (ground (arith, here))
  | inr there ↦ inr (ground (arith, m, there))
]

module _ {ckpt : Entries} {es : List ℕ} {a : ℕ} (x : ℕ) where
  Newest-other :
      {c : Option ℕ} → Newest ckpt es a c → (ckpt x).np_org_act ≢ a → Newest ckpt (x ∷ es) a c
  Newest-other (no_entry h) other = no_entry (λ e m. elim (mem-cons e x es m) [
    | inl same ↦ λ own. other (ap (λ q. (ckpt q).np_org_act) (sym same) ∙ own)
    | inr old ↦ h e old
  ])
  Newest-other (newest_entry {d} m own max) other =
      newest_entry (ground (arith, m)) own (λ e n own'. elim (mem-cons e x es n) [
        | inl same ↦ absurd (other (ap (λ q. (ckpt q).np_org_act) (sym same) ∙ own'))
        | inr old ↦ max e old own'
      ])

  Newest-mine :
      {c : Option ℕ}
      → Newest ckpt es a c
      → (ckpt x).np_org_act ≡ a
      → Newest ckpt (x ∷ es) a (some (newer ckpt c x))
  Newest-mine (no_entry h) mine = newest_entry (ground arith) mine (λ e n own'.
      elim (mem-cons e x es n) [
        | inl same ↦ omega (arith, ap (λ q. (ckpt q).wrt_clk) same)
        | inr old ↦ absurd (h e old own')
      ])
  Newest-mine (newest_entry {d} m own max) mine =
      elim (Bool-cases (ltb (ckpt d).wrt_clk (ckpt x).wrt_clk)) [
        | inl less ↦ rw less (
            newest_entry (ground arith) mine (λ e n own'. elim (mem-cons e x es n) [
              | inl same ↦ omega (arith, ap (λ q. (ckpt q).wrt_clk) same)
              | inr old ↦ ground (arith, less, max e old own')
            ]))
        | inr more ↦ rw more (
            newest_entry (ground (arith, m)) own (λ e n own'. elim (mem-cons e x es n) [
              | inl same ↦ ground (arith, more, ap (λ q. (ckpt q).wrt_clk) same)
              | inr old ↦ max e old own'
            ]))
      ]

note-Newest :
    (ckpt : Entries) (es : List ℕ) (best : ℕ → Option ℕ) (x a : ℕ)
    → Newest ckpt es a (best a)
    → Newest ckpt (x ∷ es) a (note ckpt best x a)
note-Newest ckpt es best x a n = elim (Bool-cases (a == (ckpt x).np_org_act)) [
  | inr other ↦ rw other (Newest-other x n (ground (arith, other)))
  | inl mine ↦ rw mine (Newest-mine x n (ground (arith, mine)))
]

-- The entries of `xs`, the last in front, before those of `seen`.
abbrev onto : List ℕ → List ℕ → List ℕ
onto seen [] = seen
onto seen (x ∷ xs) = onto (x ∷ seen) xs

notes-Newest :
    (ckpt : Entries) (seen xs : List ℕ) (best : ℕ → Option ℕ) (a : ℕ)
    → Newest ckpt seen a (best a)
    → Newest ckpt (onto seen xs) a (notes ckpt best xs a)
notes-Newest ckpt seen [] best a n = n
notes-Newest ckpt seen (x ∷ xs) best a n =
    notes-Newest ckpt (x ∷ seen) xs (note ckpt best x) a (note-Newest ckpt seen best x a n)

has-onto : (q : ℕ) (seen xs : List ℕ) → has q (onto seen xs) ≡ (has q xs || has q seen)
has-onto q seen [] = refl
has-onto q seen (x ∷ xs) = ground (arith, has-onto q (x ∷ seen) xs)

Newest-same :
    {ckpt : Entries} {es : List ℕ} (fs : List ℕ) {a : ℕ} {c : Option ℕ}
    → ((q : ℕ) → has q es ≡ has q fs)
    → Newest ckpt es a c
    → Newest ckpt fs a c
Newest-same fs same (no_entry h) = no_entry (λ e m. h e (same e ∙ m))
Newest-same fs same (newest_entry {d} m own max) =
    newest_entry (sym (same d) ∙ m) own (λ e n own'. max e (same e ∙ n) own')

pub lookup_notes-Newest :
    (ckpt : Entries) (xs : List ℕ) (a : ℕ) → Newest ckpt xs a (notes ckpt (λ b. none) xs a)
lookup_notes-Newest ckpt xs a =
    Newest-same xs (λ q. ground (arith, has-onto q [] xs))
      (notes-Newest ckpt [] xs (λ b. none) a (no_entry (λ e m. cc)))
