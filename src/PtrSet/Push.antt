-- ===== src/PtrSet/Push.antt =====
-- The pushed pointers of a set, and what the operations do with them.
use timestone.Base.{
  length-append, add_u32, ℕ, zero, suc, ◌+◌, ◌^◌, ◌≤◌, ◌<◌, ◌≡◌, ◌⊎◌, inl, inr, refl, ap, ◌∙◌, Bool,
  false, none, some, List, [], ◌∷◌, ◌++◌, length, set, take, arith, ltb-cases, Option-cases, ◌==◌,
  ◌||◌,
}
use timestone.Config.{init_ptr_set_size}
use timestone.PtrSet.{
  PtrSet, Alloc, enomem, cells_of, member_from, ptrset_is_member, put_ptr, ptrset_push,
}

-- the pointers in the set, in the order of their pushes
abbrev pub contents : PtrSet → List ℕ
contents s = take s.num_ptrs (cells_of s)

pub record IsValid (s : PtrSet) : Type 0 where
  pub fits : s.num_ptrs ≤ s.num_max_ptrs
  pub size : length (cells_of s) ≡ s.num_max_ptrs

-- An allocator that gives as many cells as it is asked for.
abbrev pub Exact : Alloc → Type 0
Exact alloc = (n : ℕ) (fresh : List ℕ) → alloc n ≡ some fresh → length fresh ≡ n

pub length-set : (xs : List ℕ) (i v : ℕ) → length (set xs i v) ≡ length xs
length-set [] i v = refl
length-set (x ∷ xs) zero v = refl
length-set (x ∷ xs) (suc i) v = ap suc (length-set xs i v)

take-append : (n : ℕ) (xs ys : List ℕ) → n ≤ length xs → take n (xs ++ ys) ≡ take n xs
take-append zero xs ys h = refl
take-append (suc n) [] ys h = absurd (omega arith)
take-append (suc n) (x ∷ xs) ys h = ap (λ t. x ∷ t) (take-append n xs ys (omega arith))

pub take-set :
    (n v : ℕ) (xs : List ℕ) → n < length xs → take (suc n) (set xs n v) ≡ take n xs ++ (v ∷ [])
take-set n v [] h = absurd (omega arith)
take-set zero v (x ∷ xs) h = refl
take-set (suc n) v (x ∷ xs) h = ap (λ t. x ∷ t) (take-set n v xs (omega arith))

-- one of the pushed pointers
abbrev pub has : List ℕ → ℕ → Bool
has [] p = false
has (x ∷ xs) p = (x == p) || has xs p

member_from_lem : (xs : List ℕ) (n p : ℕ) → member_from xs n p ≡ has (take n xs) p
unfolding member_from
member_from_lem [] zero p = refl
member_from_lem [] (suc n) p = refl
member_from_lem (x ∷ xs) zero p = refl
member_from_lem (x ∷ xs) (suc n) p = ground (arith, member_from_lem xs n p)

put_ptr-IsValid :
    (s : PtrSet) (p : ℕ)
    → IsValid s
    → s.num_ptrs < s.num_max_ptrs
    → s.num_max_ptrs < 2 ^ 32
    → IsValid (put_ptr s p)
unfolding put_ptr
put_ptr-IsValid s p v room word = omega (arith, length-set (cells_of s) s.num_ptrs p)

contents-put_ptr :
    (s : PtrSet) (p : ℕ)
    → IsValid s
    → s.num_ptrs < s.num_max_ptrs
    → s.num_max_ptrs < 2 ^ 32
    → contents (put_ptr s p) ≡ contents s ++ (p ∷ [])
unfolding put_ptr
contents-put_ptr s p v room word =
    ap (λ (n : ℕ). take n (set (cells_of s) s.num_ptrs p)) next
    ∙ take-set s.num_ptrs p (cells_of s) (omega (arith, v))
  where
    next : add_u32 s.num_ptrs 1 ≡ suc s.num_ptrs
    next = omega arith

-- the set with a longer array
abbrev expanded : PtrSet → List ℕ → PtrSet
expanded s fresh = record s {
  num_max_ptrs = s.num_max_ptrs + init_ptr_set_size;
  ptrs = some (cells_of s ++ fresh);
}

module _ (alloc : Alloc) (s : PtrSet) (p : ℕ) (exact : Exact alloc) (v : IsValid s)
    (small : s.num_max_ptrs + init_ptr_set_size < 2 ^ 32) where
  -- What a push does: it appends, to the array as it is or to a longer one, or it fails.
  data Pushed : PtrSet × ℕ → Type 0 where
    appended :
        {r : PtrSet × ℕ} (s' : PtrSet)
        → IsValid s'
        → s'.num_ptrs < s'.num_max_ptrs
        → s'.num_max_ptrs < 2 ^ 32
        → contents s' ≡ contents s
        → r ≡ (put_ptr s' p, 0)
        → Pushed r
    failed :
        {r : PtrSet × ℕ}
        → s.num_ptrs ≡ s.num_max_ptrs
        → alloc init_ptr_set_size ≡ none
        → r ≡ (s, enomem)
        → Pushed r

  expanded-IsValid :
      (fresh : List ℕ) → alloc init_ptr_set_size ≡ some fresh → IsValid (expanded s fresh)
  expanded-IsValid fresh e =
      omega (arith, length-append (cells_of s) fresh, exact init_ptr_set_size fresh e, v)

  ptrset_push-Pushed : Pushed (ptrset_push alloc s p)
  unfolding ptrset_push
  ptrset_push-Pushed = elim (ltb-cases s.num_ptrs s.num_max_ptrs) [
    | inl room ↦ appended s v room.1 (omega arith) refl (ground arith)
    | inr full ↦ elim (Option-cases (alloc init_ptr_set_size)) [
      | inl e ↦ failed (omega (arith, v)) e (ground arith)
      | inr (fresh, e) ↦
          appended (expanded s fresh) (expanded-IsValid fresh e) (omega (arith, v)) (omega arith)
            (take-append s.num_ptrs (cells_of s) fresh (omega (arith, v))) (ground arith)
    ]
  ]

  abbrev pub Outcome : PtrSet × ℕ → Type 0
  Outcome r =
      ((r.1 ≡ 0) × IsValid r.0 × (contents r.0 ≡ contents s ++ (p ∷ [])))
      ⊎ ((r ≡ (s, enomem)) × (s.num_ptrs ≡ s.num_max_ptrs) × (alloc init_ptr_set_size ≡ none))

  Pushed-Outcome : {r : PtrSet × ℕ} → Pushed r → Outcome r
  Pushed-Outcome (appended s' v' room word same e) = inl (
      rw e (
        refl,
        put_ptr-IsValid s' p v' room word,
        contents-put_ptr s' p v' room word ∙ ap (λ c. c ++ (p ∷ [])) same,
      ))
  Pushed-Outcome (failed full none_left e) = inr (e, full, none_left)

  -- A push returns 0, keeps the set valid and appends the pointer, enlarging a full array first; or
  -- it returns ENOMEM with the set as before, and then the array is full and cannot be enlarged. The
  -- allocator gives as many cells as asked for, and the array's size does not pass the 32-bit word.
  pub ptrset_push_lem : Outcome (ptrset_push alloc s p)
  ptrset_push_lem = Pushed-Outcome ptrset_push-Pushed

has-append : (xs ys : List ℕ) (q : ℕ) → has (xs ++ ys) q ≡ (has xs q || has ys q)
has-append [] ys q = refl
has-append (x ∷ xs) ys q = ground (arith, has-append xs ys q)

-- `ptrset_is_member` decides membership among the pushed pointers: after a successful push of `p` it
-- answers yes for `p`, and for every other pointer what it answered before.
pub ptrset_is_member-ptrset_push :
    (alloc : Alloc) (s : PtrSet) (p q : ℕ)
    → Exact alloc
    → IsValid s
    → s.num_max_ptrs + init_ptr_set_size < 2 ^ 32
    → (ptrset_push alloc s p).1 ≡ 0
    → ptrset_is_member (ptrset_push alloc s p).0 q ≡ (ptrset_is_member s q || (p == q))
unfolding ptrset_is_member
ptrset_is_member-ptrset_push alloc s p q exact v small done =
    elim (ptrset_push_lem alloc s p exact v small) [
      | inl ok ↦
          member_from_lem (cells_of r) r.num_ptrs q
          ∙ (ap (λ c. has c q) ok.2
              ∙ (has-append (contents s) (p ∷ []) q
                  ∙ ground (arith, member_from_lem (cells_of s) s.num_ptrs q)))
      | inr fail ↦ ground (arith, ap (λ x. x.1) fail.0)
    ]
  where
    r : PtrSet
    r = (ptrset_push alloc s p).0
