-- ===== src/Region/Alloc.antt =====
-- A slot that is handed out was free and is taken afterwards.
use native.Mathlib.Nat.{mod-lt}
use timestone.Base.{
  ℕ, zero, suc, ◌+◌, ◌*◌, ◌/◌, ◌%◌, ◌≤◌, ◌<◌, ◌≡◌, ◌≢◌, inl, inr, refl, Bool, true, false, Option,
  none, some, leb, ◌==◌, arith, Bool-cases,
}
use timestone.Region.{
  Region, Scan, found, out_of_range, no_bit, set_bit, all_on, fully_allocated, scan_word,
  after_word, scan_region, port_alloc_tvlog_mem, bitmap_size,
}

-- Slot `pos` is taken.
abbrev pub taken : Region → ℕ → Bool
taken r pos = r.bitmap (pos / 64) (pos % 64)

-- What the scan of word `i` from bit `j` on, `n` bits, finds: the first bit that is off, the end of
-- the slots before it, or neither.
pub data Scanned (r : Region) (i j n : ℕ) : Scan → Type 0 where
  bit_off :
      (k : ℕ)
      → j ≤ k
      → k < j + n
      → i * 64 + k < r.num
      → r.bitmap i k ≡ false
      → Scanned r i j n (found k)
  past_end :
      (k : ℕ)
      → j ≤ k
      → k < j + n
      → r.num ≤ i * 64 + k
      → ((b : ℕ) → j ≤ b → b < k → r.bitmap i b ≡ true)
      → Scanned r i j n out_of_range
  all_taken : ((b : ℕ) → j ≤ b → b < j + n → r.bitmap i b ≡ true) → Scanned r i j n no_bit

one_more :
    (r : Region) (i j : ℕ) (k : ℕ) (now : r.bitmap i j ≡ true)
    → ((b : ℕ) → j + 1 ≤ b → b < k → r.bitmap i b ≡ true)
    → (b : ℕ) → j ≤ b
    → b < k
    → r.bitmap i b ≡ true
one_more r i j k now later b low high = elim (Bool-cases (j == b)) [
  | inl same ↦ let e : j ≡ b = ground (arith, same) in rw e at now
  | inr next ↦ later b (ground (arith, low, next)) high
]

Scanned-longer :
    (r : Region) (i j n : ℕ) {s : Scan}
    → Scanned r i (j + 1) n s
    → r.bitmap i j ≡ true
    → Scanned r i j (suc n) s
Scanned-longer r i j n (bit_off k low high inside off) on =
    bit_off k (omega (arith, low)) (omega (arith, high)) inside off
Scanned-longer r i j n (past_end k low high over before) on =
    past_end k (omega (arith, low)) (omega (arith, high)) over (one_more r i j k on before)
Scanned-longer r i j n (all_taken before) on =
    all_taken (λ b low high. one_more r i j (j + 1 + n) on before b low (omega (arith, high)))

scan_word-Scanned : (r : Region) (i j n : ℕ) → Scanned r i j n (scan_word r i j n)
unfolding scan_word
scan_word-Scanned r i j zero = all_taken (λ b low high. ground (arith, low, high))
scan_word-Scanned r i j (suc n) = elim (Bool-cases (leb r.num (i * 64 + j))) [
  | inl over ↦ rw over (
      past_end j (omega arith) (omega arith) (ground (arith, over))
        (λ b low high. ground (arith, low, high)))
  | inr inside ↦ elim (Bool-cases (r.bitmap i j)) [
    | inr off ↦
        rw (inside, off) (bit_off j (omega arith) (omega arith) (ground (arith, inside)) off)
    | inl on ↦ rw (inside, on) (Scanned-longer r i j n (scan_word-Scanned r i (j + 1) n) on)
  ]
]

all_on_lem :
    (word : ℕ → Bool) (j n : ℕ)
    → all_on word j n ≡ true
    → (b : ℕ) → j ≤ b
    → b < j + n
    → word b ≡ true
unfolding all_on
all_on_lem word j zero on b low high = ground (arith, low, high)
all_on_lem word j (suc n) on b low high = elim (Bool-cases (word j)) [
  | inr off ↦ let bad : false ≡ true = rw off at on in cc
  | inl first ↦ elim (Bool-cases (j == b)) [
    | inl same ↦ let e : j ≡ b = ground (arith, same) in rw e at first
    | inr next ↦
        all_on_lem word (j + 1) n (rw first at on) b (ground (arith, low, next))
          (omega (arith, high))
  ]
]

-- What the scan of `n` words from word `i` on finds.
pub data Found (r : Region) (i n : ℕ) : Option ℕ → Type 0 where
  slot :
      {o : Option ℕ} (w k : ℕ)
      → o ≡ some (w * 64 + k)
      → k < 64
      → w * 64 + k < r.num
      → r.bitmap w k ≡ false
      → Found r i n o
  full :
      {o : Option ℕ}
      → o ≡ none
      → ((w k : ℕ) → i ≤ w → w < i + n → k < 64 → w * 64 + k < r.num → r.bitmap w k ≡ true)
      → Found r i n o

fully_allocated_lem :
    (word : ℕ → Bool) → fully_allocated word ≡ true → (b : ℕ) → 0 ≤ b → b < 64 → word b ≡ true
unfolding fully_allocated
fully_allocated_lem word on b low high = all_on_lem word 0 64 on b low high

word_full :
    (r : Region) (i n : ℕ) {o : Option ℕ}
    → ((b : ℕ) → 0 ≤ b → b < 64 → r.bitmap i b ≡ true)
    → Found r (i + 1) n o
    → Found r i (suc n) o
word_full r i n on (slot w k e small inside off) = slot w k e small inside off
word_full r i n on (full e rest) = full e (λ w k low high small inside. elim (Bool-cases (i == w)) [
  | inl same ↦ let here : i ≡ w = ground (arith, same) in rw here at on k (omega arith) small
  | inr next ↦ rest w k (ground (arith, low, next)) (omega (arith, high)) small inside
])

after_word-Found :
    (r : Region) (i n : ℕ) (b : Bool) {s : Scan} {o : Option ℕ}
    → (b ≡ true → (k : ℕ) → 0 ≤ k → k < 64 → r.bitmap i k ≡ true)
    → Scanned r i 0 64 s
    → Found r (i + 1) n o
    → Found r i (suc n) (after_word i b s o)
unfolding after_word
after_word-Found r i n true on scan rest = word_full r i n (on refl) rest
after_word-Found r i n false on (bit_off k low high inside off) rest =
    slot i k refl (omega (arith, high)) inside off
after_word-Found r i n false on (past_end k low high over before) rest =
    full refl (λ w b from by small inside. elim (Bool-cases (i == w)) [
      | inl same ↦
          let here : i ≡ w = ground (arith, same) in
          rw here at before b (omega arith) (omega (arith, inside, over, here))
      | inr next ↦
          let past : i + 1 ≤ w = ground (arith, from, next) in
          ground (arith, inside, over, past, high)
    ])
after_word-Found r i n false on (all_taken before) rest =
    word_full r i n (λ k low high. before k low (omega (arith, high))) rest

scan_region-Found : (r : Region) (i n : ℕ) → Found r i n (scan_region r i n)
unfolding scan_region
scan_region-Found r i zero = full refl (λ w k low high small inside. ground (arith, low, high))
scan_region-Found r i (suc n) =
    after_word-Found r i n (fully_allocated (r.bitmap i)) (fully_allocated_lem (r.bitmap i))
      (scan_word-Scanned r i 0 64) (scan_region-Found r (i + 1) n)

-- How an allocation ends: with the address of a slot, or with every slot taken.
pub data Allocated (r : Region) : Region → Option ℕ → Type 0 where
  given :
      {r' : Region} {o : Option ℕ} (pos : ℕ)
      → o ≡ some (r.start_addr + pos * r.size)
      → pos < r.num
      → taken r pos ≡ false
      → taken r' pos ≡ true
      → ((q : ℕ) → q ≢ pos → taken r' q ≡ taken r q)
      → (r'.start_addr ≡ r.start_addr) × (r'.size ≡ r.size) × (r'.num ≡ r.num)
      → Allocated r r' o
  exhausted :
      {r' : Region} {o : Option ℕ}
      → o ≡ none
      → r' ≡ r
      → ((q : ℕ) → q < r.num → q < bitmap_size * 64 → taken r q ≡ true)
      → Allocated r r' o

split_pos : (w k : ℕ) → k < 64 → ((w * 64 + k) / 64 ≡ w) × ((w * 64 + k) % 64 ≡ k)
split_pos w k small = omega arith

pub set_bit_self : (bits : ℕ → ℕ → Bool) (i j : ℕ) (b : Bool) → set_bit bits i j b i j ≡ b
set_bit_self bits i j b = ground arith

pub set_bit_other :
    (bits : ℕ → ℕ → Bool) (p q : ℕ) (b : Bool)
    → q ≢ p
    → set_bit bits (p / 64) (p % 64) b (q / 64) (q % 64) ≡ bits (q / 64) (q % 64)
set_bit_other bits p q b differ = elim (Bool-cases (p / 64 == q / 64)) [
  | inr words ↦ ground (arith, words)
  | inl word ↦
      let other : p % 64 == q % 64 ≡ false = ground (arith, word, differ) in
      ground (arith, word, other)
]

-- An allocation gives the address of a slot that was free, below the number of slots, and makes that
-- slot and no other one taken; it gives none only when every slot that the bitmap has is taken.
pub port_alloc_tvlog_mem-Allocated :
    (r : Region) → Allocated r (port_alloc_tvlog_mem r).0 (port_alloc_tvlog_mem r).1
unfolding port_alloc_tvlog_mem
port_alloc_tvlog_mem-Allocated r = go (scan_region-Found r 0 bitmap_size)
  where
    go :
        Found r 0 bitmap_size (scan_region r 0 bitmap_size)
        → Allocated r (port_alloc_tvlog_mem r).0 (port_alloc_tvlog_mem r).1
    go (slot w k e small inside off) =
        let pos = w * 64 + k in
        let at = split_pos w k small in
        let word = at.0 in
        let bit = at.1 in
        let free : taken r pos ≡ false = cc in
        rw (e, port_alloc_tvlog_mem)
          (given pos refl inside free (set_bit_self r.bitmap (pos / 64) (pos % 64) true)
            (λ q differ. set_bit_other r.bitmap pos q true differ) (refl, refl, refl))
    go (full e on) =
        rw (e, port_alloc_tvlog_mem)
          (exhausted refl refl (λ q inside word.
            on (q / 64) (q % 64) (omega arith) (omega (arith, word))
              (mod-lt q {m = 64} (omega arith)) (omega (arith, inside))))
