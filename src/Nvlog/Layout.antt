-- ===== src/Nvlog/Layout.antt =====
-- How the entries between head and tail lie in the buffer.
use native.Mathlib.Nat.{mod-eq_of_lt, mod-eq-sub-mod, mod-lt, mod-add-mod}
use timestone.Base.{
  ℕ, ◌+◌, ◌-◌, ◌%◌, ◌≤◌, ◌<◌, ◌≡◌, ◌≢◌, inl, inr, refl, sym, ap, ◌∙◌, true, List, [], ◌∷◌, ◌++◌,
  arith, update, update_ne, ltb-cases, if◌then◌else◌,
}
use timestone.Nvlog.{Entry, is_bogus}

-- A step forward by less than the buffer's size, inside it or round its end.
pub mod-add_inside : (n c s : ℕ) → c % n + s < n → (c + s) % n ≡ c % n + s
mod-add_inside n c s h = sym (mod-add-mod c n s) ∙ mod-eq_of_lt h

pub mod-add_round : (n c s : ℕ) → n ≤ c % n + s → c % n + s < n + n → (c + s) % n ≡ c % n + s - n
mod-add_round n c s h k =
    sym (mod-add-mod c n s)
    ∙ (mod-eq-sub-mod {n = c % n + s} {m = n} h
        ∙ mod-eq_of_lt {n = c % n + s - n} {m = n} (omega arith))

-- The same from a count to a later one.
pub mod_inside : (n a b : ℕ) → a ≤ b → a % n + (b - a) < n → b % n ≡ a % n + (b - a)
mod_inside n a b le h = ap (λ (t : ℕ). t % n) (omega arith) ∙ mod-add_inside n a (b - a) h

pub mod_round : (n a b : ℕ) → a ≤ b → b < a + n → n ≤ a % n + (b - a) → b % n ≡ a % n + (b - a) - n
mod_round n a b le lt h =
    ap (λ (t : ℕ). t % n) (omega arith)
    ∙ mod-add_round n a (b - a) h (omega (arith, mod-lt a {m = n} (omega arith)))

-- Counts in one window of the buffer have different offsets.
pub mod-ne_of_window : (n a b : ℕ) → a < b → b < a + n → a % n ≢ b % n
mod-ne_of_window n a b h k e = elim (ltb-cases (a % n + (b - a)) n) [
  | inl p ↦ omega (arith, mod_inside n a b (omega arith) p.1)
  | inr p ↦ omega (arith, mod_round n a b (omega arith) k p.1, mod-lt a {m = n} (omega arith))
]

-- A slot lies in one piece, and a bogus one runs from inside the buffer to its end.
pub record IsFit {A : Type 0} (n c : ℕ) (e : Entry A) : Type 0 where
  pub positive : 0 < e.size
  pub inside : c % n + e.size ≤ n
  pub filler : is_bogus e.type ≡ true → (0 < c % n) × (c % n + e.size ≡ n)

module _ {A : Type 0} where
  -- From count `c` to count `t` the buffer holds the slots `es`, one behind the other.
  abbrev pub Chain : (ℕ → Entry A) → ℕ → ℕ → ℕ → List (Entry A) → Type 0
  Chain buffer n c t [] = c ≡ t
  Chain buffer n c t (e ∷ es) =
      (buffer (c % n) ≡ e) × IsFit n c e × Chain buffer n (c + e.size) t es

  -- the slots that hold an entry
  abbrev pub entries : List (Entry A) → List (Entry A)
  entries [] = []
  entries (e ∷ es) = if is_bogus e.type then entries es else e ∷ entries es

  pub Chain-le :
      (buffer : ℕ → Entry A) (n c t : ℕ) (es : List (Entry A)) → Chain buffer n c t es → c ≤ t
  Chain-le buffer n c t [] h = omega arith
  Chain-le buffer n c t (e ∷ es) h = omega (arith, Chain-le buffer n (c + e.size) t es h.2, h.1)

  -- A write at the offset of a count behind the chain, in its window, spares it.
  pub Chain-update :
      (buffer : ℕ → Entry A) (n c t w j : ℕ) (v : Entry A) (es : List (Entry A))
      → j ≡ w % n
      → t ≤ w
      → w < c + n
      → Chain buffer n c t es
      → Chain (update buffer j v) n c t es
  Chain-update buffer n c t w j v [] at_j le lt h = h
  Chain-update buffer n c t w j v (e ∷ es) at_j le lt (at, fit, rest) = (
    update_ne buffer j (c % n) v apart ∙ at,
    fit,
    Chain-update buffer n (c + e.size) t w j v es at_j le (omega arith) rest,
  )
    where
      apart : j ≢ c % n
      apart q =
          mod-ne_of_window n c w (omega (arith, Chain-le buffer n (c + e.size) t es rest, fit)) lt
            (sym q ∙ at_j)

  pub Chain-append :
      (buffer : ℕ → Entry A) (n c t u : ℕ) (es fs : List (Entry A))
      → Chain buffer n c t es
      → Chain buffer n t u fs
      → Chain buffer n c u (es ++ fs)
  Chain-append buffer n c t u [] fs h k = rw h k
  Chain-append buffer n c t u (e ∷ es) fs (at, fit, rest) k =
      (at, fit, Chain-append buffer n (c + e.size) t u es fs rest k)

  pub entries-append : (es fs : List (Entry A)) → entries (es ++ fs) ≡ entries es ++ entries fs
  entries-append [] fs = refl
  entries-append (e ∷ es) fs = ground (arith, entries-append es fs)
