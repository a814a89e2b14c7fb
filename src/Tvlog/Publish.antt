-- ===== src/Tvlog/Publish.antt =====
-- The end of a commit, over the whole write set.
use timestone.Base.{
  ℕ, ◌≡◌, ◌≢◌, ◌⊎◌, inl, inr, refl, sym, ap, ◌∙◌, Bool, true, false, Option, none, some, List, [],
  ◌∷◌, arith, Bool-cases,
}
use mathlib.Core.Path.{subst}
use timestone.Config.{ObjType, copy, free}
use timestone.Memory.{Memory, Chs, set_chs, get_entry_size}
use timestone.Tvlog.{Tvlog}
use timestone.Tvlog.WriteSet.{
  ws_for_each, ws_iter_begin, on_memory, points_to, unlock, mark_old, unlock_commit,
  ws_unlock_commit,
}
use timestone.Tvlog.Layout.{IsWriteSet, each, ws_for_each-each}
use timestone.Tvlog.Abort.{lock_of, Spared, unlock_keeps, unlock_frees, unlock_spares, keeps_none}

abbrev pub is_copy : ObjType → Bool
is_copy copy = true
is_copy _ = false

-- What a commit leaves of the header of a copy.
pub record SameHeader (m m' : Memory) (c : ℕ) : Type 0 where
  pub type : (m'.chs c).type ≡ (m.chs c).type
  pub vhdr : (m'.chs c).p_act_vhdr ≡ (m.chs c).p_act_vhdr
  pub size : get_entry_size (m'.chs c) ≡ get_entry_size (m.chs c)
  pub obj : (m'.chs c).obj ≡ (m.chs c).obj

-- The header `c` is behind its part of the commit.
pub record Public (clk : ℕ) (m m' : Memory) (c : ℕ) : Type 0 where
  pub copied : (m.chs c).type ≡ copy → (m'.chs c).wrt_clk ≡ clk
  pub unlocked : (m.chs c).type ≡ copy → lock_of m' (m.chs c).p_act_vhdr ≡ none
  pub freed : (m.chs c).type ≡ free → (m'.chs c).wrt_clk ≡ clk

pub data AllPublic (clk : ℕ) (m m' : Memory) : List ℕ → Type 0 where
  nil : AllPublic clk m m' []
  cons :
      {c : ℕ} {cs : List ℕ}
      → Public clk m m' c
      → AllPublic clk m m' cs
      → AllPublic clk m m' (c ∷ cs)

mark_old_lock : (m : Memory) (p : Option ℕ) (clk v : ℕ) → lock_of (mark_old m p clk) v ≡ lock_of m v
mark_old_lock m none clk v = refl
mark_old_lock m (some q) clk v = refl

module _ (clk : ℕ) (m : Memory) (c : ℕ) where
  abbrev marked : Memory
  marked = set_chs m c (record (m.chs c) { wrt_clk = clk })

  unlock-marked : (v : ℕ) → lock_of (unlock marked c) v ≡ lock_of (unlock m c) v
  unlock-marked v =
      let same : (marked.chs c).p_act_vhdr ≡ (m.chs c).p_act_vhdr = ground arith in
      elim (Bool-cases (points_to (lock_of m (m.chs c).p_act_vhdr) c)) [
        | inl e ↦ rw (same, e) refl
        | inr e ↦ rw (same, e) refl
      ]

  commit_copy_lock :
      (v : ℕ) → (m.chs c).type ≡ copy → lock_of (unlock_commit clk m c) v ≡ lock_of (unlock m c) v
  unfolding unlock_commit
  commit_copy_lock v e =
      rw (e, unlock_commit)
        (mark_old_lock (unlock marked c) (m.chs c).p_copy clk v ∙ unlock-marked v)

  pub commit_other_lock :
      (v : ℕ) → is_copy (m.chs c).type ≡ false → lock_of (unlock_commit clk m c) v ≡ lock_of m v
  unfolding unlock_commit
  commit_other_lock v e = ground (arith, e)

  pub commit-SameHeader : (d : ℕ) → SameHeader m (unlock_commit clk m c) d
  unfolding unlock_commit get_entry_size
  commit-SameHeader d = record {
    type = ground arith;
    vhdr = ground arith;
    size = ground arith;
    obj = ground arith;
  }

  -- A header that has the clock keeps it.
  commit-keeps_clk :
      (d : ℕ) → (m.chs d).wrt_clk ≡ clk → ((unlock_commit clk m c).chs d).wrt_clk ≡ clk
  unfolding unlock_commit
  commit-keeps_clk d h = ground (arith, h)

  pub commit_clk :
      ((m.chs c).type ≡ copy) ⊎ ((m.chs c).type ≡ free)
      → ((unlock_commit clk m c).chs c).wrt_clk ≡ clk
  unfolding unlock_commit
  commit_clk h = ground (arith, h)

-- what the end of the commit of one object does to the locks
pub record Locks (m m' : Memory) (c : ℕ) : Type 0 where
  pub keeps : (v : ℕ) → (lock_of m' v ≡ lock_of m v) ⊎ (lock_of m' v ≡ none)
  pub spares : (v p : ℕ) → p ≢ c → lock_of m v ≡ some p → lock_of m' v ≡ some p
  pub frees :
      (m.chs c).type ≡ copy
      → (lock_of m (m.chs c).p_act_vhdr ≡ some c) ⊎ (lock_of m (m.chs c).p_act_vhdr ≡ none)
      → lock_of m' (m.chs c).p_act_vhdr ≡ none

copy_type : (t : ObjType) → is_copy t ≡ true → t ≡ copy
copy_type t e = ground (arith, e)

pub unlock_commit-Locks : (clk : ℕ) (m : Memory) (c : ℕ) → Locks m (unlock_commit clk m c) c
unlock_commit-Locks clk m c = elim (Bool-cases (is_copy (m.chs c).type)) [
  | inl e ↦
      let is = copy_type (m.chs c).type e in
      let same = λ (v : ℕ). commit_copy_lock clk m c v is in
      record {
        keeps = λ v. rw (same v) (unlock_keeps m c v);
        spares = λ v p other h. same v ∙ unlock_spares m c v p other h;
        frees = λ is held. same (m.chs c).p_act_vhdr ∙ unlock_frees m c held;
      }
  | inr e ↦
      let same = λ (v : ℕ). commit_other_lock clk m c v e in
      record {
        keeps = λ v. inl (same v);
        spares = λ v p other h. same v ∙ h;
        frees = λ is held. absurd (let bad = sym (ap is_copy is) ∙ e in cc);
      }
]

-- The lock of each copy's object is held by the copy, unless it is free.
abbrev pub CopiesHeld : (ℕ → Chs) → Memory → List ℕ → Type 0
CopiesHeld chs m [] = Unit {0}
CopiesHeld chs m (c ∷ cs) =
    ((chs c).type ≡ copy
      → (lock_of m (chs c).p_act_vhdr ≡ some c) ⊎ (lock_of m (chs c).p_act_vhdr ≡ none))
    × CopiesHeld chs m cs

CopiesHeld-keeps :
    (m m' : Memory) (cs : List ℕ)
    → ((d : ℕ) → SameHeader m m' d)
    → ((v : ℕ) → (lock_of m' v ≡ lock_of m v) ⊎ (lock_of m' v ≡ none))
    → CopiesHeld m.chs m cs
    → CopiesHeld m'.chs m' cs
CopiesHeld-keeps m m' [] same k h = tt
CopiesHeld-keeps m m' (c ∷ cs) same k h = (
  λ e.
      let held = h.0 (sym (same c).type ∙ e) in
      let v = (m.chs c).p_act_vhdr in
      subst (λ (w : ℕ). (lock_of m' w ≡ some c) ⊎ (lock_of m' w ≡ none)) (sym (same c).vhdr)
        (elim (k v) [
          | inl kept ↦ elim held [
            | inl mine ↦ inl (kept ∙ mine)
            | inr open_already ↦ inr (kept ∙ open_already)
          ]
          | inr freed ↦ inr freed
        ]),
  CopiesHeld-keeps m m' cs same k h.1,
)

SameHeader-trans :
    {m m1 m2 : Memory} {c : ℕ} → SameHeader m m1 c → SameHeader m1 m2 c → SameHeader m m2 c
SameHeader-trans a b = record {
  type = b.type ∙ a.type;
  vhdr = b.vhdr ∙ a.vhdr;
  size = b.size ∙ a.size;
  obj = b.obj ∙ a.obj;
}

Public-SameHeader :
    {clk : ℕ} {m m1 m' : Memory} {c : ℕ}
    → SameHeader m m1 c
    → Public clk m1 m' c
    → Public clk m m' c
Public-SameHeader {m'} same p = record {
  copied = λ e. p.copied (same.type ∙ e);
  unlocked = λ e. subst (λ v. lock_of m' v ≡ none) same.vhdr (p.unlocked (same.type ∙ e));
  freed = λ e. p.freed (same.type ∙ e);
}

AllPublic-SameHeader :
    {clk : ℕ} {m m1 m' : Memory} {cs : List ℕ}
    → ((d : ℕ) → SameHeader m m1 d)
    → AllPublic clk m1 m' cs
    → AllPublic clk m m' cs
AllPublic-SameHeader same nil = nil
AllPublic-SameHeader same (cons {c} p ps) =
    cons (Public-SameHeader (same c) p) (AllPublic-SameHeader same ps)

-- what the loop over the objects leaves
record AllCommitted (clk : ℕ) (m m' : Memory) (cs : List ℕ) : Type 0 where
  headers : (d : ℕ) → SameHeader m m' d
  clks : (d : ℕ) → (m.chs d).wrt_clk ≡ clk → (m'.chs d).wrt_clk ≡ clk
  keeps : (v : ℕ) → lock_of m v ≡ none → lock_of m' v ≡ none
  spared : Spared m m' cs
  public : AllPublic clk m m' cs

each-AllCommitted :
    (clk : ℕ) (m : Memory) (cs : List ℕ)
    → CopiesHeld m.chs m cs
    → AllCommitted clk m (each (unlock_commit clk) cs m) cs
each-AllCommitted clk m [] held = record {
  headers = λ d. record { type = refl; vhdr = refl; size = refl; obj = refl };
  clks = λ d h. h;
  keeps = λ v h. h;
  spared = λ v p out h. h;
  public = nil;
}
each-AllCommitted clk m (c ∷ cs) held =
    let m1 = unlock_commit clk m c in
    let same = commit-SameHeader clk m c in
    let one = unlock_commit-Locks clk m c in
    let rest = each-AllCommitted clk m1 cs (CopiesHeld-keeps m m1 cs same one.keeps held.1) in
    record {
      headers = λ d. SameHeader-trans (same d) (rest.headers d);
      clks = λ d h. rest.clks d (commit-keeps_clk clk m c d h);
      keeps = λ v h. rest.keeps v (keeps_none m m1 v (one.keeps v) h);
      spared = λ v p out h. rest.spared v p out.1 (one.spares v p out.0 h);
      public =
          cons
            (record {
              copied = λ e. rest.clks c (commit_clk clk m c (inl e));
              unlocked = λ e. rest.keeps (m.chs c).p_act_vhdr (one.frees e (held.0 e));
              freed = λ e. rest.clks c (commit_clk clk m c (inr e));
            })
            (AllPublic-SameHeader same rest.public);
    }

-- The last loop of the commit of a write set `ws` of the objects `cs`, those between the write set's
-- header and the tail of the log, where no other copy holds the lock of a copy's object: each copy has
-- the write set's clock and its object is unlocked, each object to be freed has the clock, every lock
-- that a copy outside the write set holds stays, and types, sizes and bytes stay.
pub ws_unlock_commit-AllPublic :
    (tvlog : Tvlog) (m : Memory) (ws : ℕ) (cs : List ℕ)
    → IsWriteSet tvlog m ws cs
    → CopiesHeld m.chs m cs
    → AllPublic (m.ws ws).wrt_clk m (ws_unlock_commit tvlog m ws) cs
      × Spared m (ws_unlock_commit tvlog m ws) cs
      × ((d : ℕ) → SameHeader m (ws_unlock_commit tvlog m ws) d)
unfolding ws_unlock_commit
ws_unlock_commit-AllPublic tvlog m ws cs set held =
    let clk = (m.ws ws).wrt_clk in
    let body = unlock_commit clk in
    let loop : (ws_for_each tvlog (on_memory body) (m.ws ws).num_objs (m, tt)
          (ws_iter_begin m ws)).0
        ≡ each body cs m =
      ap (λ (n : ℕ). (ws_for_each tvlog (on_memory body) n (m, tt) (ws_iter_begin m ws)).0)
        set.count
      ∙ ws_for_each-each tvlog body (λ m1 c d. (commit-SameHeader clk m1 c d).size) m
          (ws_iter_begin m ws) tvlog.tail_cnt cs set.objects in
    let all = each-AllCommitted clk m cs held in rw loop (all.public, all.spared, all.headers)
