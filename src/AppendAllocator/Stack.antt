-- ===== src/AppendAllocator/Stack.antt =====
-- What `allocateBytes` gives, and that `returnBytes` undoes it.
use zbackup.Base.{
  ℕ, ◌+◌, ◌-◌, ◌%◌, ◌≤◌, ◌<◌, ◌≡◌, refl, sym, ap, ap₂, ◌∙◌, subst, Bool, true, false, not, ◌&&◌,
  inl, inr, ◌⊎◌, Bool-cases, List, [], ◌∷◌, arith, ◌==◌, if_true, if_false, length, ◌++◌, get_or,
  length-append,
}
use zbackup.Base.Reads.{get_or-append_left, get_or-last}
use zbackup.Base.Int.{ℤ, pos, negsuc, sub_ℕ, ◌+ℤ◌, ◌-ℤ◌, ltb_ℤ}
use zbackup.Base.Bytes.{u32_mod, add32}
use zbackup.AppendAllocator.{
  Pointer, Block, AppendAllocator, Result, ok, ◌>>=◌, round_up, to_int, is_empty, add_block,
  take_bytes, to_allocate, make_room, allocate_bytes, pointer_eq, drop_block, give_back,
  return_bytes, call_malloc,
}

-- The free bytes of a block follow `next`, in a block that `malloc` gave.
abbrev pub Fits : List ℕ → Pointer → ℤ → List Block → Type 0
Fits heap next left [] = left ≡ negsuc 0
Fits heap next left (b ∷ blocks) =
    (next.block ≡ b.bytes.block)
    × (b.bytes.offset ≡ 0)
    × (next.block < length heap)
    × (left ≡ sub_ℕ (get_or heap next.block 0) next.offset)
    × Fits heap b.prev_next_available b.prev_left_in_block blocks

round_up_bounds :
    (mask size : ℕ)
    → size + mask < u32_mod
    → (size ≤ round_up mask size) × (round_up mask size ≤ size + mask)
unfolding round_up add32
round_up_bounds mask size fits =
    let same : (size + mask) % u32_mod ≡ size + mask = omega arith in rw same (grind arith)

to_int-pos : (n : ℕ) → n < 2147483648 → to_int n ≡ pos n
unfolding to_int
to_int-pos n lt = ground arith

sub-step : (a b t : ℕ) → sub_ℕ a b -ℤ pos t ≡ sub_ℕ a (b + t)
unfolding ◌-ℤ◌
sub-step a b t = ground arith

sub-back : (a b t : ℕ) → sub_ℕ a (b + t) +ℤ pos t ≡ sub_ℕ a b
unfolding ◌+ℤ◌
sub-back a b t = ground arith

-- More blocks elsewhere change nothing.
Fits-more :
    (heap : List ℕ) (size : ℕ) (next : Pointer) (left : ℤ) (blocks : List Block)
    → Fits heap next left blocks
    → Fits (heap ++ (size ∷ [])) next left blocks
Fits-more heap size next left [] h = h
Fits-more heap size next left (b ∷ blocks) (same, zero_offset, known, free, rest) = (
  same,
  zero_offset,
  omega (arith, known, length-append heap (size ∷ [])),
  free
      ∙ ap (λ (k : ℕ). sub_ℕ k next.offset)
          (sym (get_or-append_left heap (size ∷ []) next.block known)),
  Fits-more heap size b.prev_next_available b.prev_left_in_block blocks rest,
)

-- The block in front has room for the bytes.
pub record HasRoom (s : AppendAllocator) (size : ℕ) : Type 0 where
  pub back : Block
  pub rest : List Block
  pub front : s.blocks ≡ back ∷ rest
  pub fits : Fits s.heap s.next_available s.left_in_block (back ∷ rest)
  pub room : s.next_available.offset + size ≤ get_or s.heap s.next_available.block 0

enough-HasRoom :
    (s : AppendAllocator) (size : ℕ) (blocks : List Block)
    → s.blocks ≡ blocks
    → Fits s.heap s.next_available s.left_in_block blocks
    → ltb_ℤ s.left_in_block (pos size) ≡ false
    → HasRoom s size
enough-HasRoom s size [] e h enough = absurd (ground (arith, h, enough))
enough-HasRoom s size (b ∷ blocks) e h enough = record {
  back = b;
  rest = blocks;
  front = e;
  fits = h;
  room = ground (arith, h.3, enough);
}

from_start : (n : ℕ) → pos n ≡ sub_ℕ n 0
from_start n = ground arith

-- The allocator with a block that `malloc` just gave.
abbrev grown : AppendAllocator → ℕ → AppendAllocator
grown s alloc =
    add_block (record s { heap = s.heap ++ (alloc ∷ []) })
      (record { block = length s.heap; offset = 0 }) alloc

new-HasRoom :
    (s : AppendAllocator) (size alloc : ℕ)
    → Fits s.heap s.next_available s.left_in_block s.blocks
    → alloc < 2147483648
    → size ≤ alloc
    → HasRoom (grown s alloc) size
unfolding add_block
new-HasRoom s size alloc h small le =
    let size_of : get_or (s.heap ++ (alloc ∷ [])) (length s.heap) 0 ≡ alloc =
      get_or-last s.heap alloc in
    record {
      back = _;
      rest = s.blocks;
      front = refl;
      fits = (
        refl,
        refl,
        omega (arith, length-append s.heap (alloc ∷ [])),
        to_int-pos alloc small ∙ from_start alloc ∙ ap (λ (k : ℕ). sub_ℕ k 0) (sym size_of),
        Fits-more s.heap alloc s.next_available s.left_in_block s.blocks h,
      );
      room = omega (arith, size_of, le);
    }

-- Bytes of the last block are taken.
taken-Fits :
    (s : AppendAllocator) (size count : ℕ) (h : HasRoom s size)
    → count < 2147483648
    → let s' = (take_bytes s count).1 in Fits s'.heap s'.next_available s'.left_in_block s'.blocks
unfolding take_bytes
taken-Fits s size count h small =
    let (same, start, known, free, rest) = h.fits in
    subst
      (λ (blocks : List Block).
        Fits s.heap (record s.next_available { offset = s.next_available.offset + count })
          (s.left_in_block -ℤ to_int count) blocks)
      (sym h.front)
      (
        same,
        start,
        known,
        ap₂ (λ (l t : ℤ). l -ℤ t) free (to_int-pos count small)
            ∙ sub-step (get_or s.heap s.next_available.block 0) s.next_available.offset count,
        rest,
      )

module _ (malloc : ℕ → ℕ → Bool) (memory : (n size : ℕ) → malloc n size ≡ true) where
  given :
      (s : AppendAllocator) (size : ℕ)
      → call_malloc malloc s size
        ≡ ok (
          record { block = length s.heap; offset = 0 },
          record s { heap = s.heap ++ (size ∷ []) },
        )
  unfolding call_malloc
  given s size = if_true _ _ (memory (length s.heap) size)

  make_room-HasRoom :
      (s : AppendAllocator) (size : ℕ)
      → Fits s.heap s.next_available s.left_in_block s.blocks
      → size < 2147483648
      → s.block_size < 2147483648
      → (s' : AppendAllocator) × (make_room malloc s size ≡ ok s')
        × HasRoom s' size
        × (s'.align_mask ≡ s.align_mask)
        × ((s'.next_available ≡ s.next_available) ⊎ (s'.next_available.block ≡ length s.heap))
  unfolding make_room
  make_room-HasRoom s size h small small_block =
      elim (Bool-cases (ltb_ℤ s.left_in_block (to_int size))) [
        | inl short ↦
            let (le, lt) = to_allocate_bounds s size small small_block in
            (
              grown s (to_allocate malloc s size),
              if_true _ _ short
                  ∙ ap
                      (λ (m : Result (Pointer × AppendAllocator)).
                        m >>= λ (r : Pointer × AppendAllocator).
                        ok (add_block r.1 r.0 (to_allocate malloc s size)))
                      (given s (to_allocate malloc s size)),
              new-HasRoom s size (to_allocate malloc s size) h lt le,
              unfold add_block in refl,
              inr (unfold add_block in refl),
            )
        | inr enough ↦ (
          s,
          if_false _ _ enough,
          enough-HasRoom s size s.blocks refl h
              (ap (ltb_ℤ s.left_in_block) (sym (to_int-pos size small)) ∙ enough),
          refl,
          inl refl,
        )
      ]
    where
      to_allocate_bounds :
          (s : AppendAllocator) (size : ℕ)
          → size < 2147483648
          → s.block_size < 2147483648
          → (size ≤ to_allocate malloc s size) × (to_allocate malloc s size < 2147483648)
      to_allocate_bounds s size small small_block = unfold to_allocate in ground arith

  -- The bytes are given back where they were taken.
  return-take :
      (s : AppendAllocator) (size count : ℕ) (h : HasRoom s size)
      → count ≡ round_up s.align_mask size
      → 0 < size
      → 0 < count
      → count < 2147483648
      → return_bytes (take_bytes s count).1 size ≡ ok s
  unfolding return_bytes take_bytes
  return-take s size count h e more some_bytes small =
      let (same, start, known, free, rest) = h.fits in
      let s' : AppendAllocator = record s {
        next_available = record s.next_available { offset = s.next_available.offset + count };
        left_in_block = s.left_in_block -ℤ to_int count;
      } in
      let sized : (size == 0) ≡ false = ground arith in
      let inside : ((s.next_available.offset + count) == h.back.bytes.offset) ≡ false =
        ground (arith, start) in
      let behind : (ltb_ℤ (pos (s.next_available.offset + count - h.back.bytes.offset))
            (to_int count))
          ≡ false =
        ap (ltb_ℤ (pos (s.next_available.offset + count - h.back.bytes.offset)))
          (to_int-pos count small)
        ∙ ground (arith, start) in
      let kept : drop_block s' (h.back ∷ h.rest) ≡ ok s' = keep s' h.back h.rest inside in
      let offset : s.next_available.offset + count - count ≡ s.next_available.offset =
        omega arith in
      let left : s.left_in_block -ℤ to_int count +ℤ to_int count ≡ s.left_in_block =
        ap₂ (λ (l t : ℤ). l -ℤ t +ℤ t) free (to_int-pos count small)
        ∙ ap (λ (l : ℤ). l +ℤ pos count)
            (sub-step (get_or s.heap s.next_available.block 0) s.next_available.offset count)
        ∙ sub-back (get_or s.heap s.next_available.block 0) s.next_available.offset count
        ∙ sym free in
      if_false _ _ sized
      ∙ ap
          (λ (m : Result AppendAllocator).
            m >>= λ (t : AppendAllocator). give_back t t.blocks (round_up s.align_mask size))
          (ap (drop_block s') h.front ∙ kept)
      ∙ ap₂ (λ (blocks : List Block) (k : ℕ). give_back s' blocks k) h.front (sym e)
      ∙ (unfold give_back in if_false _ _ behind)
      ∙ ap₂
          (λ (o : ℕ) (l : ℤ). ok (record s {
            next_available = record s.next_available { offset = o };
            left_in_block = l;
          }))
          offset left
    where
      keep :
          (s : AppendAllocator) (b : Block) (blocks : List Block)
          → (s.next_available.offset == b.bytes.offset) ≡ false
          → drop_block s (b ∷ blocks) ≡ ok s
      keep s b [] e = unfold drop_block pointer_eq in ground (arith, e)
      keep s b (next ∷ blocks) e = unfold drop_block pointer_eq in ground (arith, e)

  -- Memory of at least one byte is found, for an allocator whose blocks and free bytes are in order: it
  -- lies inside its block, ends where the free bytes begin, and all is in order again. It begins where
  -- the free bytes of the last block began, or in a new block. `returnBytes` then undoes all but the
  -- new block. Here `malloc` does not fail, and sizes fit in an `int`.
  pub allocate_bytes-Fits :
      (s : AppendAllocator) (size : ℕ)
      → Fits s.heap s.next_available s.left_in_block s.blocks
      → 0 < size
      → size + s.align_mask < 2147483648
      → s.block_size < 2147483648
      → (p : Pointer) × (s' : AppendAllocator) × (allocate_bytes malloc s size ≡ ok (p, s'))
        × Fits s'.heap s'.next_available s'.left_in_block s'.blocks
        × (p.block ≡ s'.next_available.block)
        × (p.offset + size ≤ s'.next_available.offset)
        × (p.offset + size ≤ get_or s'.heap p.block 0)
        × ((p ≡ s.next_available) ⊎ (p.block ≡ length s.heap))
        × (return_bytes s' size ≡ make_room malloc s size)
  unfolding allocate_bytes
  allocate_bytes-Fits s size h more small small_block =
      let (s₁, made, room, mask, place) = make_room-HasRoom s size h (omega arith) small_block in
      let count = round_up s₁.align_mask size in
      let (least, most) = round_up_bounds s₁.align_mask size (omega (arith, mask)) in
      let sized : ((size == 0) && not (is_empty s.blocks)) ≡ false = ground arith in
      (
        s₁.next_available,
        (take_bytes s₁ count).1,
        if_false _ _ sized
            ∙ ap
                (λ (m : Result AppendAllocator).
                  m >>= λ (t : AppendAllocator). ok (take_bytes t (round_up s.align_mask size)))
                made
            ∙ ap (λ (k : ℕ). ok (take_bytes s₁ (round_up k size))) (sym mask)
            ∙ (unfold take_bytes in refl),
        taken-Fits s₁ size count room (omega (arith, most, mask)),
        unfold take_bytes in refl,
        unfold take_bytes in omega (arith, least),
        room.room,
        place,
        return-take s₁ size count room refl more (omega (arith, least)) (omega (arith, most, mask))
            ∙ sym made,
      )
