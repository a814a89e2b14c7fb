-- ===== src/Lock/Race.antt =====
-- The race of two threads for one lock.
use timestone.Base.{
  ℕ, ◌≡◌, ◌≢◌, refl, ◌∙◌, Bool, true, false, Option, none, some, arith, ◌⊎◌, inl, inr, Bool-cases,
}
use timestone.Memory.{Memory}
use timestone.Lock.{same_pointer, set_p_lock, cas_lock, try_lock_obj}

-- Other threads leave the lock of an object alone while another thread holds it.
abbrev pub Respects : (Memory → Memory) → ℕ → Type 0
Respects others v =
    (m : Memory) (p : ℕ) → (m.vhdr v).p_lock ≡ some p → ((others m).vhdr v).p_lock ≡ some p

same_pointer_lem : (p q : Option ℕ) → same_pointer p q ≡ true → p ≡ q
same_pointer_lem none none e = refl
same_pointer_lem none (some q) e = cc
same_pointer_lem (some p) none e = cc
same_pointer_lem (some p) (some q) e = ground (arith, e)

same_pointer_self : (p : Option ℕ) → same_pointer p p ≡ true
same_pointer_self none = refl
same_pointer_self (some p) = ground arith

same_pointer-ne : (p q : Option ℕ) → same_pointer p q ≡ false → p ≢ q
same_pointer-ne p q e f =
    let same = same_pointer_self q in let differ : same_pointer q q ≡ false = rw f at e in cc

module _ (after : Memory → Memory) (m : Memory) (v : ℕ) (p_old_copy : Option ℕ)
    (p_new_copy : ℕ) where
  -- memory when the compare-and-swap has succeeded and the other threads have gone on
  abbrev swapped : Memory
  swapped = after (set_p_lock m v (some p_new_copy))

  cas_lost :
      same_pointer (m.vhdr v).p_lock none ≡ false
      → cas_lock after m v p_old_copy p_new_copy ≡ (m, false)
  unfolding cas_lock
  cas_lost e = rw e

  cas_aba :
      same_pointer (m.vhdr v).p_lock none ≡ true
      → same_pointer (swapped.vhdr v).p_copy p_old_copy ≡ false
      → cas_lock after m v p_old_copy p_new_copy ≡ (set_p_lock swapped v none, false)
  unfolding cas_lock
  cas_aba e f = rw (e, f)

  cas_won :
      same_pointer (m.vhdr v).p_lock none ≡ true
      → same_pointer (swapped.vhdr v).p_copy p_old_copy ≡ true
      → cas_lock after m v p_old_copy p_new_copy ≡ (swapped, true)
  unfolding cas_lock
  cas_won e f = rw (e, f)

  -- What a compare-and-swap that ends with success, or without, says of memory.
  pub data Raced : Memory × Bool → Type 0 where
    won :
        {r : Memory × Bool}
        → r.1 ≡ true
        → (m.vhdr v).p_lock ≡ none
        → (r.0.vhdr v).p_lock ≡ some p_new_copy
        → (r.0.vhdr v).p_copy ≡ p_old_copy
        → Raced r
    lost : {r : Memory × Bool} → r.1 ≡ false → r.0 ≡ m → (m.vhdr v).p_lock ≢ none → Raced r
    aba :
        {r : Memory × Bool}
        → r.1 ≡ false
        → (m.vhdr v).p_lock ≡ none
        → (r.0.vhdr v).p_lock ≡ none
        → (r.0.vhdr v).p_copy ≢ p_old_copy
        → Raced r

  unlocked : (swapped.vhdr v).p_copy ≡ ((set_p_lock swapped v none).vhdr v).p_copy
  unlocked = ground arith

  cas_lock-Raced : Respects after v → Raced (cas_lock after m v p_old_copy p_new_copy)
  cas_lock-Raced respects = elim (Bool-cases (same_pointer (m.vhdr v).p_lock none)) [
    | inr held ↦ rw (cas_lost held) (lost refl refl (same_pointer-ne (m.vhdr v).p_lock none held))
    | inl free ↦ elim (Bool-cases (same_pointer (swapped.vhdr v).p_copy p_old_copy)) [
      | inl same ↦ rw (cas_won free same) (
          won refl (same_pointer_lem (m.vhdr v).p_lock none free)
            (respects (set_p_lock m v (some p_new_copy)) p_new_copy (ground arith))
            (same_pointer_lem (swapped.vhdr v).p_copy p_old_copy same))
      | inr other ↦ rw (cas_aba free other) (
          aba refl (same_pointer_lem (m.vhdr v).p_lock none free) (ground arith)
            (λ e. same_pointer-ne (swapped.vhdr v).p_copy p_old_copy other (unlocked ∙ e)))
    ]
  ]

-- How a try for a lock ends: the first look finds the object locked or with a newer version, and
-- memory stays; or the compare-and-swap decides.
pub data Tried (before after : Memory → Memory) (m : Memory) (v : ℕ) (p_old_copy : Option ℕ)
    (p_new_copy : ℕ) : Memory × Bool → Type 0 where
  refused :
      {r : Memory × Bool}
      → r ≡ (m, false)
      → ((m.vhdr v).p_lock ≢ none) ⊎ ((m.vhdr v).p_copy ≢ p_old_copy)
      → Tried before after m v p_old_copy p_new_copy r
  raced :
      {r : Memory × Bool}
      → (m.vhdr v).p_lock ≡ none
      → (m.vhdr v).p_copy ≡ p_old_copy
      → Raced after (before m) v p_old_copy p_new_copy r
      → Tried before after m v p_old_copy p_new_copy r

module _ (before after : Memory → Memory) (m : Memory) (v : ℕ) (p_old_copy : Option ℕ)
    (p_new_copy : ℕ) where
  try_held :
      same_pointer (m.vhdr v).p_lock none ≡ false
      → try_lock_obj before after m v p_old_copy p_new_copy ≡ (m, false)
  unfolding try_lock_obj
  try_held e = rw e

  try_newer :
      same_pointer (m.vhdr v).p_lock none ≡ true
      → same_pointer (m.vhdr v).p_copy p_old_copy ≡ false
      → try_lock_obj before after m v p_old_copy p_new_copy ≡ (m, false)
  unfolding try_lock_obj
  try_newer e f = rw (e, f)

  try_free :
      same_pointer (m.vhdr v).p_lock none ≡ true
      → same_pointer (m.vhdr v).p_copy p_old_copy ≡ true
      → try_lock_obj before after m v p_old_copy p_new_copy
        ≡ cas_lock after (before m) v p_old_copy p_new_copy
  unfolding try_lock_obj
  try_free e f = rw (e, f)

-- Whatever other threads do before and after the compare-and-swap, as long as they leave a lock that
-- is held alone: a try succeeds only if the lock was free at the swap, and then the new copy holds it
-- and the newest version is still the old copy; a try that fails leaves memory as it was, or as the
-- other threads left it, or has taken the lock, found another version and released it.
pub try_lock_obj-Tried :
    (before after : Memory → Memory) (m : Memory) (v : ℕ) (p_old_copy : Option ℕ) (p_new_copy : ℕ)
    → Respects after v
    → Tried before after m v p_old_copy p_new_copy
        (try_lock_obj before after m v p_old_copy p_new_copy)
try_lock_obj-Tried before after m v p_old_copy p_new_copy respects =
    elim (Bool-cases (same_pointer (m.vhdr v).p_lock none)) [
      | inr held ↦
          rw (try_held before after m v p_old_copy p_new_copy held)
            (refused refl (inl (same_pointer-ne (m.vhdr v).p_lock none held)))
      | inl free ↦ elim (Bool-cases (same_pointer (m.vhdr v).p_copy p_old_copy)) [
        | inr newer ↦
            rw (try_newer before after m v p_old_copy p_new_copy free newer)
              (refused refl (inr (same_pointer-ne (m.vhdr v).p_copy p_old_copy newer)))
        | inl same ↦ rw (try_free before after m v p_old_copy p_new_copy free same) (
            raced (same_pointer_lem (m.vhdr v).p_lock none free)
              (same_pointer_lem (m.vhdr v).p_copy p_old_copy same)
              (cas_lock-Raced after (before m) v p_old_copy p_new_copy respects))
      ]
    ]
