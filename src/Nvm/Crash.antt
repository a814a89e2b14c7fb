-- ===== src/Nvm/Crash.antt =====
-- A crash while the heap is opened. A store reaches non-volatile memory at any time up to the next
-- barrier, so what a crash leaves is every mixture of old and new fields between two barriers.
use timestone.Base.{
  ◌≡◌, ◌≢◌, inl, inr, refl, Bool, true, false, some, ◌==◌, if◌then◌else◌, arith, not, ◌&&◌,
  Bool-cases,
}
use timestone.Config.{min_version}
use timestone.Nvm.{Root, nvpool_magic, is_prepared, clear_root, set_magic, next_gen, nvm_init_heap}

-- The fields of `r` or, where the flag is on, of the cleared root.
abbrev partly_cleared : Root → Bool → Bool → Bool → Root
partly_cleared r a b c = record r {
  magic = if a then 0 else r.magic;
  next = if b then 0 else r.next;
  last_ckpt_clk = if c then min_version else r.last_ckpt_clk;
}

-- What a crash leaves of a root that is being prepared.
pub data Image (r : Root) : Root → Type 0 where
  before_barrier : (a b c : Bool) → Image r (partly_cleared r a b c)
  behind_barrier : Image r (clear_root r)
  with_magic : Image r (set_magic (clear_root r))
  counted : Image r (next_gen (set_magic (clear_root r)))

-- The root is one without logs and without a checkpoint.
pub record Empty (r : Root) : Type 0 where
  pub prepared : r.magic ≡ nvpool_magic
  pub no_logs : r.next ≡ 0
  pub no_ckpt : r.last_ckpt_clk ≡ min_version

prepared_magic : (r : Root) → is_prepared r ≡ true → r.magic ≡ nvpool_magic
prepared_magic r e = ground (arith, e)

zero-not_prepared : (i : Root) {A : Type 0} → i.magic ≡ 0 → is_prepared i ≡ true → A
zero-not_prepared i z e = ground (arith, z, e)

Image-Empty : (r i : Root) → r.magic ≢ nvpool_magic → Image r i → is_prepared i ≡ true → Empty i
Image-Empty r i bad (before_barrier true b c) e =
    zero-not_prepared (partly_cleared r true b c) refl e
Image-Empty r i bad (before_barrier false b c) e =
    elim (bad (prepared_magic (partly_cleared r false b c) e)) [ ]
Image-Empty r i bad behind_barrier e = zero-not_prepared (clear_root r) refl e
Image-Empty r i bad with_magic e = record { prepared = refl; no_logs = refl; no_ckpt = refl }
Image-Empty r i bad counted e = record { prepared = refl; no_logs = refl; no_ckpt = refl }

kept : (b : Bool) → (if not b && false then true else b) ≡ b
kept true = refl
kept false = refl

-- an empty root that is opened, and one that has to be prepared
init-Empty :
    (i : Root) (is_created left_over : Bool)
    → is_prepared i ≡ true
    → Empty i
    → nvm_init_heap (some i) is_created left_over
      ≡ some (next_gen i, if is_created then false else left_over)
unfolding nvm_init_heap
init-Empty i is_created left_over e empty =
    let z : (i.next == 0) ≡ true = ground (arith, empty.no_logs) in rw (e, z, kept left_over) refl

init-not_prepared :
    (i : Root) (is_created left_over : Bool)
    → is_prepared i ≡ false
    → nvm_init_heap (some i) is_created left_over
      ≡ some (next_gen (set_magic (clear_root i)), if is_created then false else true)
unfolding nvm_init_heap
init-not_prepared i is_created left_over e = rw e refl

-- However often the preparation of a root is cut off by a crash, and whatever of its stores the crash has
-- let through, the next opening of the heap gives a prepared root without logs and without a
-- checkpoint.
pub nvm_init_heap-Empty :
    (r i : Root) (is_created left_over : Bool)
    → r.magic ≢ nvpool_magic
    → Image r i
    → (root : Root) × (need_recovery : Bool) × (nvm_init_heap (some i) is_created left_over
        ≡ some (root, need_recovery))
      × Empty root
nvm_init_heap-Empty r i is_created left_over bad image = elim (Bool-cases (is_prepared i)) [
  | inl e ↦
      let empty = Image-Empty r i bad image e in
      (
        next_gen i,
        (if is_created then false else left_over),
        init-Empty i is_created left_over e empty,
        record { prepared = empty.prepared; no_logs = empty.no_logs; no_ckpt = empty.no_ckpt },
      )
  | inr e ↦ (
    next_gen (set_magic (clear_root i)),
    (if is_created then false else true),
    init-not_prepared i is_created left_over e,
    record { prepared = refl; no_logs = refl; no_ckpt = refl },
  )
]
