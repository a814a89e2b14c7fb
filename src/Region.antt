-- ===== src/Region.antt =====
-- lib/port-user.h: the region that the transient version logs are cut from. Word `i` of the bitmap is
-- the function from a bit's number, below 64, to whether it is on. Mapping and unmapping memory is the
-- operating system's.
pub mod Alloc
pub mod Free
use timestone.Base.{
  ℕ, zero, suc, ◌+◌, ◌-◌, ◌*◌, ◌/◌, ◌%◌, Bool, true, false, not, ◌&&◌, Option, none, some, ltb, leb,
  ◌==◌, if◌then◌else◌,
}

-- tvlog_region_allocator_t, with g_start_addr
pub record Region : Type 0 where
  pub start_addr : ℕ
  pub size : ℕ
  pub num : ℕ
  pub bitmap : ℕ → ℕ → Bool

abbrev pub bitmap_size : ℕ
bitmap_size = 1024

-- `start_addr` is what `mmap` gave.
unfoldable pub port_tvlog_region_init : ℕ → ℕ → ℕ → Region
port_tvlog_region_init start_addr size num = record {
  start_addr = start_addr;
  size = size;
  num = num;
  bitmap = λ i. λ j. false;
}

abbrev pub set_bit : (ℕ → ℕ → Bool) → ℕ → ℕ → Bool → ℕ → ℕ → Bool
set_bit bits i j b i' j' = if (i == i') && (j == j') then b else bits i' j'

-- Whether the bits from `j` on, `n` of them, are all on.
unfoldable pub all_on : (ℕ → Bool) → ℕ → ℕ → Bool
all_on word j zero = true
all_on word j (suc n) = word j && all_on word (j + 1) n

-- `bitmap[i] == FULLY_ALLOCATED`
unfoldable pub fully_allocated : (ℕ → Bool) → Bool
unfolding all_on
fully_allocated word = all_on word 0 64

-- how the scan of one word ends
pub data Scan : Type 0 where
  found : ℕ → Scan
  out_of_range : Scan
  no_bit : Scan

-- The loop over `j`, `n` bits of it left. That the compare-and-swap fails, and the word is tried
-- again, takes another thread's step.
unfoldable pub scan_word : Region → ℕ → ℕ → ℕ → Scan
scan_word r i j zero = no_bit
scan_word r i j (suc n) =
    let rest = scan_word r i (j + 1) n in
    if leb r.num (i * 64 + j) then out_of_range else if r.bitmap i j then rest else found j

-- The body of the loop over `i`, with the test of the word, its scan and the rest of the loop.
unfoldable pub after_word : ℕ → Bool → Scan → Option ℕ → Option ℕ
after_word i true scan rest = rest
after_word i false (found j) rest = some (i * 64 + j)
after_word i false out_of_range rest = none
after_word i false no_bit rest = rest

-- The loop over `i`, `n` words of it left: the position taken.
unfoldable pub scan_region : Region → ℕ → ℕ → Option ℕ
scan_region r i zero = none
scan_region r i (suc n) =
    after_word i (fully_allocated (r.bitmap i)) (scan_word r i 0 64) (scan_region r (i + 1) n)

unfoldable pub port_alloc_tvlog_mem : Region → Region × Option ℕ
port_alloc_tvlog_mem r = elim (scan_region r 0 bitmap_size) [
  | none ↦ (r, none)
  | some pos ↦ (
    record r { bitmap = set_bit r.bitmap (pos / 64) (pos % 64) true },
    some (r.start_addr + pos * r.size),
  )
]

-- The bit that `0x1ul << j` has on for `j = pos - (i + 64)`, with the shift's count taken modulo 64,
-- as an x86-64 shift does; the count is negative for `i` of 0, where C leaves the shift undefined.
abbrev pub shifted_bit : ℕ → ℕ → ℕ
shifted_bit pos i = (pos + 63 * i) % 64

unfoldable pub port_free_tvlog_mem : Region → ℕ → Region
port_free_tvlog_mem r addr =
    let pos = (addr - r.start_addr) / r.size in
    record r { bitmap = set_bit r.bitmap (pos / 64) (shifted_bit pos (pos / 64)) false }

unfoldable pub port_addr_in_tvlog_region : Region → ℕ → Bool
port_addr_in_tvlog_region r addr = leb r.start_addr addr && ltb addr (r.start_addr + r.num * r.size)
