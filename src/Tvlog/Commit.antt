-- ===== src/Tvlog/Commit.antt =====
-- The commit of one object of a write set: its copy becomes the newest version of the object, with
-- the write clock, and the object is unlocked.
use timestone.Base.{
  Bool, true, false, ◌&&◌, inl, inr, refl, Bool-cases, ltb, ◌==◌, ℕ, ◌<◌, ◌≡◌, ◌≢◌, sym, ap, ◌∙◌,
  Option, none, some, List, [], ◌∷◌, arith,
}
use timestone.Config.{copy, free}
use timestone.PtrSet.{PtrSet, ptrset_is_member}
use timestone.Memory.{Memory, set_chs}
use timestone.Version.Snapshot.{Versions, Next}
use timestone.Tvlog.WriteSet.{next_clk, push_version, move_lock_to_copy, unlock_commit}
use timestone.Tvlog.Layout.{NotIn}
use timestone.Tvlog.Abort.{lock_of}
use timestone.Tvlog.Publish.{
  is_copy, unlock_commit-Locks, commit_clk, commit_other_lock, commit-SameHeader,
}

-- The copy `d` has the same place in its chain in both memories.
abbrev pub SamePlace : Memory → Memory → ℕ → Type 0
SamePlace m m' d =
    ((m'.chs d).p_copy ≡ (m.chs d).p_copy)
    × ((m'.chs d).wrt_clk ≡ (m.chs d).wrt_clk)
    × ((m'.chs d).wrt_clk_next ≡ (m.chs d).wrt_clk_next)

abbrev pub AllSamePlace : Memory → Memory → List ℕ → Type 0
AllSamePlace m m' [] = Unit {0}
AllSamePlace m m' (d ∷ ds) = SamePlace m m' d × AllSamePlace m m' ds

SamePlace-others :
    (m m' : Memory) (c : ℕ) (cs : List ℕ)
    → ((d : ℕ) → c ≢ d → SamePlace m m' d)
    → NotIn c cs
    → AllSamePlace m m' cs
SamePlace-others m m' c [] same out = tt
SamePlace-others m m' c (d ∷ ds) same out = (same d out.0, SamePlace-others m m' c ds same out.1)

AllSamePlace-trans :
    (m m1 m2 : Memory) (cs : List ℕ)
    → AllSamePlace m m1 cs
    → AllSamePlace m1 m2 cs
    → AllSamePlace m m2 cs
AllSamePlace-trans m m1 m2 [] e f = tt
AllSamePlace-trans m m1 m2 (d ∷ ds) e f =
    ((f.0.0 ∙ e.0.0, f.0.1 ∙ e.0.1, f.0.2 ∙ e.0.2), AllSamePlace-trans m m1 m2 ds e.1 f.1)

Versions-AllSamePlace :
    (m m' : Memory) (p : Option ℕ) (cs : List ℕ)
    → AllSamePlace m m' cs
    → Versions m p cs
    → Versions m' p cs
Versions-AllSamePlace m m' p [] same h = h
Versions-AllSamePlace m m' p (d ∷ []) same h = (h.0, same.0.0 ∙ h.1, tt)
Versions-AllSamePlace m m' p (d ∷ e ∷ ds) same h =
    let at_d = same.0 in
    let at_e = same.1.0 in
    (
      h.0,
      rw at_d.0 (Versions-AllSamePlace m m' (m.chs d).p_copy (e ∷ ds) same.1 h.1),
      (at_d.2 ∙ h.2.0 ∙ sym at_e.1, rw (at_e.1, at_d.1) h.2.1),
    )

-- The newest version of the chain is older than `clk`.
abbrev pub Before : Memory → ℕ → List ℕ → Type 0
Before m clk [] = Unit {0}
Before m clk (d ∷ ds) = (m.chs d).wrt_clk < clk

-- what the last loop of a commit leaves of the place of a copy and of the chain
record Finished (clk : ℕ) (m m' : Memory) (c : ℕ) : Type 0 where
  older : (m.chs c).type ≡ copy → (m'.chs c).p_copy ≡ (m.chs c).p_copy
  next : (m'.chs c).wrt_clk_next ≡ (m.chs c).wrt_clk_next
  chain : (v : ℕ) → (m'.vhdr v).p_copy ≡ (m.vhdr v).p_copy
  others : (d : ℕ) → c ≢ d → SamePlace m m' d

unlock_commit-Finished : (clk : ℕ) (m : Memory) (c : ℕ) → Finished clk m (unlock_commit clk m c) c
unfolding unlock_commit
unlock_commit-Finished clk m c = record {
  older = λ e. ground (arith, e);
  next = ground arith;
  chain = λ v. ground arith;
  others = λ d differ. (ground (arith, differ), ground (arith, differ), ground (arith, differ));
}

-- What `push_version` leaves of memory.
record Pushed (m m' : Memory) (c : ℕ) : Type 0 where
  older : (m'.chs c).p_copy ≡ (m.vhdr (m.chs c).p_act_vhdr).p_copy
  next : (m'.chs c).wrt_clk_next ≡ next_clk m (m.vhdr (m.chs c).p_act_vhdr).p_copy
  type : (m'.chs c).type ≡ (m.chs c).type
  vhdr : (m'.chs c).p_act_vhdr ≡ (m.chs c).p_act_vhdr
  newest : (m'.vhdr (m.chs c).p_act_vhdr).p_copy ≡ some c
  lock : (m'.vhdr (m.chs c).p_act_vhdr).p_lock ≡ (m.vhdr (m.chs c).p_act_vhdr).p_lock
  others : (d : ℕ) → c ≢ d → SamePlace m m' d

push_version-Pushed : (m : Memory) (c : ℕ) → Pushed m (push_version m c) c
unfolding push_version
push_version-Pushed m c = record {
  older = ground arith;
  next = ground arith;
  type = ground arith;
  vhdr = ground arith;
  newest = ground arith;
  lock = ground arith;
  others = λ d differ. (ground arith, ground arith, ground arith);
}

-- The object of the header is in the set of those to be freed.
abbrev pub is_freed : PtrSet → ℕ → Memory → ℕ → Bool
is_freed free_set num_free m c =
    ltb 0 num_free && ptrset_is_member free_set (m.vhdr (m.chs c).p_act_vhdr).np_org_act

module _ (free_set : PtrSet) (num_free : ℕ) (m : Memory) (c : ℕ)
    (is_copy : (m.chs c).type ≡ copy) where
  moved_freed :
      is_freed free_set num_free m c ≡ true
      → (move_lock_to_copy free_set (m, num_free) c).0
        ≡ set_chs m c (record (m.chs c) { type = free })
  unfolding move_lock_to_copy
  moved_freed e = rw (is_copy, move_lock_to_copy, e) refl

  moved_constant :
      is_freed free_set num_free m c ≡ false
      → (m.chs c).obj_size == 0 ≡ true
      → (move_lock_to_copy free_set (m, num_free) c).0 ≡ m
  unfolding move_lock_to_copy
  moved_constant e z = rw (is_copy, move_lock_to_copy, e, z) refl

  moved_pushed :
      is_freed free_set num_free m c ≡ false
      → (m.chs c).obj_size == 0 ≡ false
      → (move_lock_to_copy free_set (m, num_free) c).0 ≡ push_version m c
  unfolding move_lock_to_copy
  moved_pushed e z = rw (is_copy, move_lock_to_copy, e, z) refl

-- The next clock of a new version, and the order of the two, are what the chain wants.
next_clk-Next :
    (m m' : Memory) (clk c : ℕ) (p : Option ℕ) (cs : List ℕ)
    → Versions m p cs
    → Before m clk cs
    → AllSamePlace m m' cs
    → (m'.chs c).wrt_clk ≡ clk
    → (m'.chs c).wrt_clk_next ≡ next_clk m p
    → Next m' c cs
next_clk-Next m m' clk c p [] h before same marked next = tt
next_clk-Next m m' clk c p (d ∷ ds) h before same marked next =
    let at_d = same.0 in
    let here : next_clk m p ≡ (m.chs d).wrt_clk = ap (next_clk m) h.0 in
    (next ∙ here ∙ sym at_d.1, rw (at_d.1, marked) before)

-- What lies between the two loops of a commit, for an object: its header, its lock and its chain of
-- versions, of which `cs` are the older ones, stay.
pub record Undisturbed (m m' : Memory) (c : ℕ) (cs : List ℕ) : Type 0 where
  pub header : m'.chs c ≡ m.chs c
  pub vhdr : m'.vhdr (m.chs c).p_act_vhdr ≡ m.vhdr (m.chs c).p_act_vhdr
  pub places : AllSamePlace m m' cs

-- What a commit makes of the copy `c` of an object, from memory `m` in front of it to `m'` behind it.
pub data CommittedCopy (free_set : PtrSet) (num_free clk : ℕ) (m m' : Memory) (c : ℕ) (cs : List ℕ)
    : Type 0 where
  -- The copy is the newest version, in front of the older ones, and the object is unlocked.
  on_chain :
      is_freed free_set num_free m c ≡ false
      → (m.chs c).obj_size ≢ 0
      → Versions m' (m'.vhdr (m.chs c).p_act_vhdr).p_copy (c ∷ cs)
      → (m'.chs c).wrt_clk ≡ clk
      → lock_of m' (m.chs c).p_act_vhdr ≡ none
      → CommittedCopy free_set num_free clk m m' c cs
  -- A copy of no bytes only locked the object: the versions stay.
  only_locked :
      is_freed free_set num_free m c ≡ false
      → (m.chs c).obj_size ≡ 0
      → Versions m' (m'.vhdr (m.chs c).p_act_vhdr).p_copy cs
      → (m'.chs c).wrt_clk ≡ clk
      → lock_of m' (m.chs c).p_act_vhdr ≡ none
      → CommittedCopy free_set num_free clk m m' c cs
  -- An object that is to be freed keeps its versions and its lock.
  to_be_freed :
      is_freed free_set num_free m c ≡ true
      → (m'.chs c).type ≡ free
      → Versions m' (m'.vhdr (m.chs c).p_act_vhdr).p_copy cs
      → (m'.chs c).wrt_clk ≡ clk
      → lock_of m' (m.chs c).p_act_vhdr ≡ some c
      → CommittedCopy free_set num_free clk m m' c cs

-- The end of the commit where the copy stayed off the chain, from `m1` behind the first loop.
module _ (clk : ℕ) (m m1 m2 : Memory) (c : ℕ) (cs : List ℕ)
    (h : Versions m (m.vhdr (m.chs c).p_act_vhdr).p_copy cs) (out : NotIn c cs)
    (same_vhdr : m1.vhdr ≡ m.vhdr) (at_vhdr : (m1.chs c).p_act_vhdr ≡ (m.chs c).p_act_vhdr)
    (others : (d : ℕ) → c ≢ d → SamePlace m m1 d) (u : Undisturbed m1 m2 c cs) where
  abbrev v : ℕ
  v = (m.chs c).p_act_vhdr

  vhdr_kept : m2.vhdr v ≡ m.vhdr v
  vhdr_kept = rw at_vhdr at u.vhdr ∙ ap (λ f. f v) same_vhdr

  stays-Versions : Versions (unlock_commit clk m2 c) ((unlock_commit clk m2 c).vhdr v).p_copy cs
  stays-Versions =
      let done = unlock_commit-Finished clk m2 c in
      let m3 = unlock_commit clk m2 c in
      let places =
        AllSamePlace-trans m m1 m3 cs (SamePlace-others m m1 c cs others out)
          (AllSamePlace-trans m1 m2 m3 cs u.places (SamePlace-others m2 m3 c cs done.others out)) in
      let chain : (m3.vhdr v).p_copy ≡ (m.vhdr v).p_copy =
        done.chain v ∙ ap (λ x. x.p_copy) vhdr_kept in
      rw chain (Versions-AllSamePlace m m3 (m.vhdr v).p_copy cs places h)

  at_vhdr2 : (m2.chs c).p_act_vhdr ≡ v
  at_vhdr2 = ap (λ x. x.p_act_vhdr) u.header ∙ at_vhdr

  lock_kept : lock_of m2 v ≡ lock_of m v
  lock_kept = ap (λ x. x.p_lock) vhdr_kept

  stays_unlocked :
      (m2.chs c).type ≡ copy → lock_of m v ≡ some c → lock_of (unlock_commit clk m2 c) v ≡ none
  stays_unlocked is held =
      let frees = rw at_vhdr2 at (unlock_commit-Locks clk m2 c).frees is in
      frees (inl (lock_kept ∙ held))

-- where the copy came onto the chain
pushed-Versions :
    (clk : ℕ) (m m2 : Memory) (c : ℕ) (cs : List ℕ)
    → (m.chs c).type ≡ copy
    → Versions m (m.vhdr (m.chs c).p_act_vhdr).p_copy cs
    → Before m clk cs
    → NotIn c cs
    → lock_of m (m.chs c).p_act_vhdr ≡ some c
    → Undisturbed (push_version m c) m2 c cs
    → Versions
        (unlock_commit clk m2 c)
        ((unlock_commit clk m2 c).vhdr (m.chs c).p_act_vhdr).p_copy
        (c ∷ cs)
      × (((unlock_commit clk m2 c).chs c).wrt_clk ≡ clk)
      × (lock_of (unlock_commit clk m2 c) (m.chs c).p_act_vhdr ≡ none)
pushed-Versions clk m m2 c cs is h before out held u =
    let v = (m.chs c).p_act_vhdr in
    let m1 = push_version m c in
    let m3 = unlock_commit clk m2 c in
    let pushed = push_version-Pushed m c in
    let done = unlock_commit-Finished clk m2 c in
    let is2 : (m2.chs c).type ≡ copy = ap (λ x. x.type) u.header ∙ pushed.type ∙ is in
    let at2 : (m2.chs c).p_act_vhdr ≡ v = ap (λ x. x.p_act_vhdr) u.header ∙ pushed.vhdr in
    let vhdr2 : m2.vhdr v ≡ m1.vhdr v = rw pushed.vhdr at u.vhdr in
    let places =
      AllSamePlace-trans m m1 m3 cs (SamePlace-others m m1 c cs pushed.others out)
        (AllSamePlace-trans m1 m2 m3 cs u.places (SamePlace-others m2 m3 c cs done.others out)) in
    let marked = commit_clk clk m2 c (inl is2) in
    let chain : (m3.vhdr v).p_copy ≡ some c =
      done.chain v ∙ ap (λ x. x.p_copy) vhdr2 ∙ pushed.newest in
    let older : (m3.chs c).p_copy ≡ (m.vhdr v).p_copy =
      done.older is2 ∙ ap (λ x. x.p_copy) u.header ∙ pushed.older in
    let next : (m3.chs c).wrt_clk_next ≡ next_clk m (m.vhdr v).p_copy =
      done.next ∙ ap (λ x. x.wrt_clk_next) u.header ∙ pushed.next in
    let frees = rw at2 at (unlock_commit-Locks clk m2 c).frees is2 in
    (
      (
        chain,
        rw older (Versions-AllSamePlace m m3 (m.vhdr v).p_copy cs places h),
        next_clk-Next m m3 clk c (m.vhdr v).p_copy cs h before places marked next,
      ),
      marked,
      frees (inl (ap (λ x. x.p_lock) vhdr2 ∙ pushed.lock ∙ held)),
    )

-- The commit of one object, by the bodies of the two loops of a commit, whatever lies between them but
-- leaves the object alone. The object is locked by its copy `c`, whose write clock will be later
-- than the newest version's, and which is not on the chain. Unless the object is to be freed or was
-- only locked, the copy is then the newest version, in front of the older ones in their order,
-- each with the clock of the next. The copy has the write clock, and the object is unlocked, unless
-- it is to be freed.
pub unlock_commit-CommittedCopy :
    (free_set : PtrSet) (num_free clk : ℕ) (m m2 : Memory) (c : ℕ) (cs : List ℕ)
    → (m.chs c).type ≡ copy
    → Versions m (m.vhdr (m.chs c).p_act_vhdr).p_copy cs
    → Before m clk cs
    → NotIn c cs
    → lock_of m (m.chs c).p_act_vhdr ≡ some c
    → Undisturbed (move_lock_to_copy free_set (m, num_free) c).0 m2 c cs
    → CommittedCopy free_set num_free clk m (unlock_commit clk m2 c) c cs
unlock_commit-CommittedCopy free_set num_free clk m m2 c cs is h before out held u =
    let v = (m.chs c).p_act_vhdr in
    elim (Bool-cases (is_freed free_set num_free m c)) [
      | inl e ↦
          let m1 = set_chs m c (record (m.chs c) { type = free }) in
          let u1 : Undisturbed m1 m2 c cs = rw (moved_freed free_set num_free m c is e) at u in
          let at : (m1.chs c).p_act_vhdr ≡ v = ground arith in
          let others : (d : ℕ) → c ≢ d → SamePlace m m1 d =
            λ d differ. (ground (arith, differ), ground (arith, differ), ground (arith, differ)) in
          let is1 : (m1.chs c).type ≡ free = ground arith in
          let is2 : (m2.chs c).type ≡ free = ap (λ x. x.type) u1.header ∙ is1 in
          to_be_freed e ((commit-SameHeader clk m2 c c).type ∙ is2)
            (stays-Versions clk m m1 m2 c cs h out refl at others u1)
            (commit_clk clk m2 c (inr is2))
            (commit_other_lock clk m2 c v (ap is_copy is2)
              ∙ lock_kept clk m m1 m2 c cs h out refl at others u1
              ∙ held)
      | inr f ↦ elim (Bool-cases ((m.chs c).obj_size == 0)) [
        | inl z ↦
            let u1 : Undisturbed m m2 c cs =
              rw (moved_constant free_set num_free m c is f z) at u in
            let others : (d : ℕ) → c ≢ d → SamePlace m m d = λ d differ. (refl, refl, refl) in
            let is2 : (m2.chs c).type ≡ copy = ap (λ x. x.type) u1.header ∙ is in
            only_locked f (ground (arith, z))
              (stays-Versions clk m m m2 c cs h out refl refl others u1)
              (commit_clk clk m2 c (inl is2))
              (stays_unlocked clk m m m2 c cs h out refl refl others u1 is2 held)
        | inr nz ↦
            let u1 : Undisturbed (push_version m c) m2 c cs =
              rw (moved_pushed free_set num_free m c is f nz) at u in
            let done = pushed-Versions clk m m2 c cs is h before out held u1 in
            on_chain f (ground (arith, nz)) done.0 done.1 done.2
      ]
    ]
