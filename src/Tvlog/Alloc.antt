-- ===== src/Tvlog/Alloc.antt =====
-- An object of the ring lies in one piece.
use timestone.Base.{
  ℕ, ◌+◌, ◌-◌, ◌^◌, ◌≤◌, ◌<◌, ◌≡◌, ◌↔◌, inl, inr, refl, Bool, true, false, not, ◌&&◌, arith,
  Bool-cases, ltb, add_u32, align_uint_to_cacheline, align_uint_to_cacheline_lem,
}
use timestone.Config.{tvlog_size}
use timestone.Memory.{Memory, get_entry_size}
use timestone.Tvlog.{
  Tvlog, Sizes, tvlog_at, tvlog_index, add_extra_padding, place_chs, skip_end, wraps_around,
  tvlog_alloc,
}

-- an object from position `cnt`, of `size` bytes, ends inside the ring
abbrev pub InRing : ℕ → ℕ → Type 0
InRing cnt size = tvlog_index cnt + size ≤ tvlog_size

add_extra_padding-InRing :
    (sz : Sizes) (tvlog : Tvlog) (size extra : ℕ) (b : Bool)
    → 0 < size
    → size < tvlog_size
    → tvlog_index tvlog.tail_cnt + size < tvlog_size
    → InRing tvlog.tail_cnt (size + add_extra_padding sz tvlog size extra b)
unfolding add_extra_padding
add_extra_padding-InRing sz tvlog size extra b pos small fits =
    elim (Bool-cases (
      not b
      && ltb
          (tvlog_index (
            tvlog.tail_cnt
            + add_u32 size (align_uint_to_cacheline (add_u32 extra sz.cpy_hdr_struct))))
          (tvlog_index tvlog.tail_cnt))) [
            | inl pad ↦ rw pad (omega (arith, fits))
            | inr no_pad ↦ rw no_pad (omega (arith, fits))
          ]

no_wrap-fits :
    (tvlog : Tvlog) (size : ℕ)
    → 0 < size
    → size < tvlog_size
    → wraps_around tvlog size ≡ false
    → tvlog_index tvlog.tail_cnt + size < tvlog_size
no_wrap-fits tvlog size pos small e = ground (arith, e)

-- The object that an allocation gives: at the tail, in one piece, with room for its header and bytes.
pub record Placed (r : Memory × Tvlog × ℕ × Bool) (need : ℕ) : Type 0 where
  pub at_tail : r.2 ≡ tvlog_at r.1 r.1.tail_cnt
  pub in_ring : InRing r.1.tail_cnt (get_entry_size (r.0.chs r.2))
  pub enough : need ≤ get_entry_size (r.0.chs r.2)

-- The padding is less than what the header of a write set would need.
add_extra_padding-small :
    (sz : Sizes) (tvlog : Tvlog) (size : ℕ) (b : Bool)
    → sz.wrt_set_struct + sz.cpy_hdr_struct + 64 < 2 ^ 15
    → size < tvlog_size
    → tvlog_index tvlog.tail_cnt + size < tvlog_size
    → add_extra_padding sz tvlog size sz.wrt_set_struct b < 2 ^ 15
unfolding add_extra_padding
add_extra_padding-small sz tvlog size b headers small fits =
    let need =
      align_uint_to_cacheline_lem (sz.wrt_set_struct + sz.cpy_hdr_struct)
        (omega (arith, headers)) in
    let sum : add_u32 sz.wrt_set_struct sz.cpy_hdr_struct ≡ sz.wrt_set_struct + sz.cpy_hdr_struct =
      omega (arith, headers) in
    rw sum (ground (arith, need, headers, small, fits))

placed_size :
    (sz : Sizes) (m : Memory) (tvlog : Tvlog) (obj_size size : ℕ) (b : Bool)
    → obj_size ≤ size
    → size + add_extra_padding sz tvlog size sz.wrt_set_struct b ≤ tvlog_size
    → size + add_extra_padding sz tvlog size sz.wrt_set_struct b < obj_size + 2 ^ 16
    → get_entry_size ((place_chs sz m tvlog obj_size size b).0.chs (tvlog_at tvlog tvlog.tail_cnt))
      ≡ size + add_extra_padding sz tvlog size sz.wrt_set_struct b
unfolding get_entry_size
placed_size sz m tvlog obj_size size b le small short = ground arith

place_chs-Placed :
    (sz : Sizes) (m : Memory) (tvlog : Tvlog) (obj_size size : ℕ) (b : Bool)
    → 0 < size
    → obj_size ≤ size
    → size < obj_size + 2 ^ 15
    → sz.wrt_set_struct + sz.cpy_hdr_struct + 64 < 2 ^ 15
    → size < tvlog_size
    → tvlog_index tvlog.tail_cnt + size < tvlog_size
    → Placed (place_chs sz m tvlog obj_size size b) size
place_chs-Placed sz m tvlog obj_size size b pos le near headers small fits =
    let pad = add_extra_padding-InRing sz tvlog size sz.wrt_set_struct b pos small fits in
    let short = add_extra_padding-small sz tvlog size b headers small fits in
    let total =
      placed_size sz m tvlog obj_size size b le (omega (arith, pad)) (omega (arith, short, near)) in
    record { at_tail = refl; in_ring = omega (arith, total, pad); enough = omega (arith, total) }

Placed-less :
    (r : Memory × Tvlog × ℕ × Bool) (need size : ℕ) → need ≤ size → Placed r size → Placed r need
Placed-less r need size le h = record {
  at_tail = h.at_tail;
  in_ring = h.in_ring;
  enough = omega (arith, le, h.enough);
}

-- Behind the bogus object the tail is at the start of the ring.
skip_end-start :
    (m : Memory) (tvlog : Tvlog)
    → tvlog.tail_cnt + tvlog_size < 2 ^ 64
    → tvlog_index (skip_end m tvlog).1.tail_cnt ≡ 0
skip_end-start m tvlog word = omega (arith, word)

-- An allocation in the ring, with a bogus object before it or without, gives an object that lies in
-- one piece and has room for its header and its bytes, at the tail; the object and its header are
-- smaller than the ring, the headers fit in the 16 bits of the padding's size, and counts do not pass
-- the 64-bit word.
pub tvlog_alloc-Placed :
    (sz : Sizes) (m : Memory) (tvlog : Tvlog) (obj_size : ℕ) (b : Bool)
    → 0 < sz.cpy_hdr_struct
    → obj_size + sz.cpy_hdr_struct + 64 < tvlog_size
    → sz.wrt_set_struct + sz.cpy_hdr_struct + 64 < 2 ^ 15
    → tvlog.tail_cnt + tvlog_size < 2 ^ 64
    → Placed (tvlog_alloc sz m tvlog obj_size b) (obj_size + sz.cpy_hdr_struct)
unfolding tvlog_alloc
tvlog_alloc-Placed sz m tvlog obj_size b some_header small headers word =
    let size = align_uint_to_cacheline (add_u32 obj_size sz.cpy_hdr_struct) in
    let need = align_uint_to_cacheline_lem (obj_size + sz.cpy_hdr_struct) (omega (arith, small)) in
    let header : add_u32 obj_size sz.cpy_hdr_struct ≡ obj_size + sz.cpy_hdr_struct =
      omega (arith, small) in
    let fits : size < tvlog_size = rw header (omega (arith, need, small)) in
    let room : obj_size + sz.cpy_hdr_struct ≤ size = rw header (omega (arith, need)) in
    let pos : 0 < size = omega (arith, room, some_header) in
    let near : size < obj_size + 2 ^ 15 = rw header (omega (arith, need, headers)) in
    let le : obj_size ≤ size = omega (arith, room) in
    elim (Bool-cases (wraps_around tvlog size)) [
      | inl round ↦
          let start = skip_end-start m tvlog word in
          rw (round, tvlog_alloc)
            (Placed-less (place_chs sz (skip_end m tvlog).0 (skip_end m tvlog).1 obj_size size true)
              (obj_size + sz.cpy_hdr_struct) size room
              (place_chs-Placed sz (skip_end m tvlog).0 (skip_end m tvlog).1 obj_size size true pos
                le near headers fits (omega (arith, start, fits))))
      | inr inside ↦
          rw (inside, tvlog_alloc)
            (Placed-less (place_chs sz m tvlog obj_size size b) (obj_size + sz.cpy_hdr_struct) size
              room
              (place_chs-Placed sz m tvlog obj_size size b pos le near headers fits
                (no_wrap-fits tvlog size pos fits inside)))
    ]

-- The size that the header of a bogus object records reaches the end of the ring exactly when the rest
-- of the ring is below 65536 bytes, while the tail moves to the end of the ring in any case; so behind
-- a longer rest a walk from header to header leaves the write set.
pub skip_end-reach :
    (m : Memory) (tvlog : Tvlog)
    → tvlog.tail_cnt + tvlog_size < 2 ^ 64
    → (((skip_end m tvlog).1.tail_cnt
          ≡ tvlog.tail_cnt
            + get_entry_size ((skip_end m tvlog).0.chs (tvlog_at tvlog tvlog.tail_cnt)))
        ↔ (tvlog_size - tvlog_index tvlog.tail_cnt < 2 ^ 16))
unfolding get_entry_size
skip_end-reach m tvlog word = ground (arith, word)
