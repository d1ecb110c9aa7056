-- ===== src/AppendAllocator.antt =====
-- appendallocator.hh and appendallocator.cc: memory in blocks that are filled one after another and given
-- back in the opposite order. Where there is no block, `blocks.back()`, which is undefined, is taken for
-- an exception. A pointer is the number of the `malloc` call whose block it points into
-- and an offset; `nextAvailable`, which the constructor leaves open, is then an offset into no block.
pub mod Stack
mod Tests
use zbackup.Base.{
  ℕ, ◌+◌, ◌-◌, ◌*◌, ◌/◌, ◌%◌, Bool, true, false, not, ◌&&◌, List, [], ◌∷◌, ◌++◌, length, ltb, leb,
  ◌==◌, if◌then◌else◌,
}
use zbackup.Base.Int.{ℤ, pos, negsuc, ◌+ℤ◌, ◌-ℤ◌, ltb_ℤ}
use zbackup.Base.Bytes.{u32_mod, add32}

pub record Pointer : Type 0 where
  pub block : ℕ
  pub offset : ℕ

-- `Record`
pub record Block : Type 0 where
  pub bytes : Pointer
  pub prev_next_available : Pointer
  pub prev_left_in_block : ℤ

-- `blocks.back()` is in front. `heap` has the sizes of the blocks that `malloc` gave, one call after another.
pub record AppendAllocator : Type 0 where
  pub align_mask : ℕ
  pub block_size : ℕ
  pub blocks : List Block
  pub next_available : Pointer
  pub left_in_block : ℤ
  pub heap : List ℕ

-- `std::bad_alloc`
pub data Result {ℓ} (A : Type ℓ) : Type ℓ where
  ok : A → Result A
  bad_alloc : Result A

infixl 5 ◌>>=◌
abbrev pub ◌>>=◌ {ℓ κ} : {A : Type ℓ} {B : Type κ} → Result A → (A → Result B) → Result B
ok a >>= f = f a
bad_alloc >>= f = bad_alloc

-- `( size + mask ) & ~mask` for a mask that is a power of 2 less 1.
pub round_up : ℕ → ℕ → ℕ
round_up mask size = add32 size mask / (mask + 1) * (mask + 1)

-- `( int ) size`
pub to_int : ℕ → ℤ
to_int size = if ltb size (2147483648) then pos size else negsuc (u32_mod - 1 - size)

pub new : ℕ → ℕ → AppendAllocator
unfolding round_up
new block_size granularity = record {
  align_mask = granularity - 1;
  block_size = round_up (granularity - 1) block_size;
  blocks = [];
  next_available = record { block = 0; offset = 0 };
  left_in_block = negsuc 0;
  heap = [];
}

-- `blocks.empty()`
pub is_empty : List Block → Bool
is_empty [] = true
is_empty (b ∷ blocks) = false

-- The block at a pointer, with the number of its bytes as an `int`.
pub add_block : AppendAllocator → Pointer → ℕ → AppendAllocator
unfolding to_int
add_block s p size = record s {
  blocks =
      record {
        bytes = p;
        prev_next_available = s.next_available;
        prev_left_in_block = s.left_in_block;
      }
      ∷ s.blocks;
  next_available = p;
  left_in_block = to_int size;
}

-- The bytes that are taken; the result is where they begin.
pub take_bytes : AppendAllocator → ℕ → Pointer × AppendAllocator
unfolding to_int
take_bytes s count = (
  s.next_available,
  record s {
    next_available = record s.next_available { offset = s.next_available.offset + count };
    left_in_block = s.left_in_block -ℤ to_int count;
  },
)

-- Whether the call number `n` of `malloc` for `size` bytes succeeds is `malloc n size`.
module _ (malloc : ℕ → ℕ → Bool) where
  pub to_allocate : AppendAllocator → ℕ → ℕ
  to_allocate s size = if leb size s.block_size then s.block_size else size

  pub call_malloc : AppendAllocator → ℕ → Result (Pointer × AppendAllocator)
  call_malloc s size =
      if malloc (length s.heap) size
      then ok
          (record { block = length s.heap; offset = 0 }, record s { heap = s.heap ++ (size ∷ []) })
      else bad_alloc

  pub make_room : AppendAllocator → ℕ → Result AppendAllocator
  unfolding to_allocate call_malloc add_block to_int
  make_room s size =
      if ltb_ℤ s.left_in_block (to_int size)
      then (do
        (p, s') ← call_malloc s (to_allocate s size)
        ok (add_block s' p (to_allocate s size)))
      else ok s

  pub allocate_bytes : AppendAllocator → ℕ → Result (Pointer × AppendAllocator)
  unfolding is_empty make_room take_bytes round_up
  allocate_bytes s size =
      if (size == 0) && not (is_empty s.blocks)
      then ok (s.next_available, s)
      else do s' ← make_room s size; ok (take_bytes s' (round_up s.align_mask size))

-- `allocateObjects` for objects of `size_of` bytes.
pub allocate_objects : (ℕ → ℕ → Bool) → ℕ → AppendAllocator → ℕ → Result (Pointer × AppendAllocator)
allocate_objects malloc size_of s count = allocate_bytes malloc s (count * size_of % u32_mod)

pub pointer_eq : Pointer → Pointer → Bool
pointer_eq p q = (p.block == q.block) && (p.offset == q.offset)

-- The last block is freed if nothing of it is used and it is not the only one.
pub drop_block : AppendAllocator → List Block → Result AppendAllocator
unfolding pointer_eq
drop_block s [] = bad_alloc
drop_block s (last ∷ []) = if pointer_eq s.next_available last.bytes then bad_alloc else ok s
drop_block s (last ∷ next ∷ blocks) =
    if pointer_eq s.next_available last.bytes
    then ok (record s {
      left_in_block = last.prev_left_in_block;
      next_available = last.prev_next_available;
      blocks = next ∷ blocks;
    })
    else ok s

-- The difference of the pointers is that of the offsets in the last block.
pub give_back : AppendAllocator → List Block → ℕ → Result AppendAllocator
unfolding to_int
give_back s [] count = bad_alloc
give_back s (last ∷ blocks) count =
    if ltb_ℤ (pos (s.next_available.offset - last.bytes.offset)) (to_int count)
    then bad_alloc
    else ok (record s {
      next_available = record s.next_available { offset = s.next_available.offset - count };
      left_in_block = s.left_in_block +ℤ to_int count;
    })

pub return_bytes : AppendAllocator → ℕ → Result AppendAllocator
unfolding drop_block give_back round_up
return_bytes s size =
    if size == 0
    then ok s
    else do s' ← drop_block s s.blocks; give_back s' s'.blocks (round_up s.align_mask size)

-- `returnObjects`, likewise.
pub return_objects : ℕ → AppendAllocator → ℕ → Result AppendAllocator
return_objects size_of s count = return_bytes s (count * size_of % u32_mod)

pub clear : AppendAllocator → AppendAllocator
clear s = record s { blocks = []; left_in_block = negsuc 0 }
