-- ===== src/Nvlog/Append.antt =====
-- A log that holds slots, and a slot more at its tail.
use native.Mathlib.Nat.{mod-lt}
use timestone.Base.{
  ℕ, ◌+◌, ◌%◌, ◌^◌, ◌≤◌, ◌<◌, ◌≡◌, ◌⊎◌, inl, inr, ap, ◌∙◌, true, false, List, [], ◌∷◌, ◌++◌, arith,
  ltb-cases, add_u64, update, update_self, align_uint_to_cacheline_lem,
}
use mathlib.Core.Path.{subst}
use timestone.Nvlog.{Entry, Nvlog, nvlog_index, make_entry_size, wraps_around}
use timestone.Nvlog.Layout.{IsFit, Chain, Chain-update, Chain-append, mod-add_inside, mod-add_round}

-- The log holds the slots `es` from its head to its tail.
pub record Holds {A : Type 0} (l : Nvlog A) (es : List (Entry A)) : Type 0 where
  pub nonempty : 0 < l.log_size
  pub small : l.log_size ≤ 2 ^ 31
  pub chain : Chain l.buffer l.log_size l.head_cnt l.tail_cnt es

module _ {A : Type 0} where
  pub index_lem :
      (l : Nvlog A) (c : ℕ)
      → 0 < l.log_size
      → l.log_size ≤ 2 ^ 31
      → nvlog_index l c ≡ c % l.log_size
  index_lem l c h k = omega (arith, mod-lt c {m = l.log_size} h)

  -- A new slot at the tail, whose header does not lie on one that the log holds.
  pub Holds-append :
      (l : Nvlog A) (es : List (Entry A)) (e : Entry A)
      → Holds l es
      → IsFit l.log_size l.tail_cnt e
      → l.tail_cnt < l.head_cnt + l.log_size
      → l.tail_cnt + e.size < 2 ^ 64
      → Holds
          (record l {
            buffer = update l.buffer (nvlog_index l l.tail_cnt) e;
            tail_cnt = add_u64 l.tail_cnt e.size;
          })
          (es ++ (e ∷ []))
  Holds-append l es e h fit room low = record {
    nonempty = h.nonempty;
    small = h.small;
    chain =
        Chain-append after l.log_size l.head_cnt l.tail_cnt _ es (e ∷ [])
          (Chain-update l.buffer l.log_size l.head_cnt l.tail_cnt l.tail_cnt _ e es at (omega arith)
            room h.chain)
          (held, fit, omega arith);
  }
    where
      at : nvlog_index l l.tail_cnt ≡ l.tail_cnt % l.log_size
      at = index_lem l l.tail_cnt h.nonempty h.small

      after : ℕ → Entry A
      after = update l.buffer (nvlog_index l l.tail_cnt) e

      held : after (l.tail_cnt % l.log_size) ≡ e
      held = subst (λ (j : ℕ). after j ≡ e) at (update_self l.buffer (nvlog_index l l.tail_cnt) e)

  -- where `entry_size` bytes from the tail do not run past the end, and where they do
  pub index-cases :
      (l : Nvlog A) (s : ℕ)
      → 0 < l.log_size
      → l.log_size ≤ 2 ^ 31
      → s < l.log_size
      → l.tail_cnt + s < 2 ^ 64
      → ((wraps_around l s ≡ false) × (l.tail_cnt % l.log_size + s < l.log_size))
        ⊎ ((wraps_around l s ≡ true) × (l.log_size ≤ l.tail_cnt % l.log_size + s))
  index-cases l s pos small fit low = elim (ltb-cases (l.tail_cnt % l.log_size + s) l.log_size) [
    | inl p ↦ inl (ground (arith, at, at_s, mod-add_inside l.log_size l.tail_cnt s p.1), p.1)
    | inr p ↦ inr (ground (arith, at, at_s, bound, mod-add_round l.log_size l.tail_cnt s p.1), p.1)
  ]
    where
      at : nvlog_index l l.tail_cnt ≡ l.tail_cnt % l.log_size
      at = index_lem l l.tail_cnt pos small

      at_s : nvlog_index l (add_u64 l.tail_cnt s) ≡ (l.tail_cnt + s) % l.log_size
      at_s =
          index_lem l (add_u64 l.tail_cnt s) pos small
          ∙ ap (λ (t : ℕ). t % l.log_size) (omega arith)

      bound : l.tail_cnt % l.log_size < l.log_size
      bound = mod-lt l.tail_cnt {m = l.log_size} pos

pub make_entry_size-pos : (n : ℕ) → n + 79 < 2 ^ 32 → 0 < make_entry_size n
unfolding make_entry_size
make_entry_size-pos n word = omega (arith, align_uint_to_cacheline_lem (n + 16) (omega arith))
