-- ===== src/AppendAllocator/Tests.antt =====
-- The allocator at concrete requests.
use zbackup.Base.{ℕ, ◌+◌, ◌≤◌, ◌≡◌, refl, true, Bool, ◌⊎◌, arith, get_or, length}
use zbackup.Base.Int.{◌+ℤ◌, ◌-ℤ◌}
use zbackup.Base.Bytes.{add32}
use zbackup.AppendAllocator.Stack.{Fits, allocate_bytes-Fits}
use zbackup.AppendAllocator.{
  AppendAllocator, ok, bad_alloc, Result, ◌>>=◌, new, allocate_bytes, return_bytes,
  allocate_objects, return_objects, Pointer, make_room,
}

abbrev always : ℕ → ℕ → Bool
always n size = true

out_of_order : Result AppendAllocator
out_of_order = do
  (p, s₁) ← allocate_bytes always (new 16 1) 10
  (q, s₂) ← allocate_bytes always s₁ 10
  s₃ ← return_bytes s₂ 10
  (r, s₄) ← allocate_bytes always s₃ 20
  s₅ ← return_bytes s₄ 20
  return_bytes s₅ 10

out_of_order_run : out_of_order ≡ bad_alloc
unfolding out_of_order new allocate_bytes return_bytes ◌-ℤ◌ ◌+ℤ◌ add32
out_of_order_run = refl

abbrev fresh : AppendAllocator
fresh = new 16 1

allocate_bytes-Fits_example :
    (p : Pointer) × (s' : AppendAllocator) × (allocate_bytes always fresh 10 ≡ ok (p, s'))
    × Fits s'.heap s'.next_available s'.left_in_block s'.blocks
    × (p.block ≡ s'.next_available.block)
    × (p.offset + 10 ≤ s'.next_available.offset)
    × (p.offset + 10 ≤ get_or s'.heap p.block 0)
    × ((p ≡ fresh.next_available) ⊎ (p.block ≡ length fresh.heap))
    × (return_bytes s' 10 ≡ make_room always fresh 10)
unfolding new add32
allocate_bytes-Fits_example =
    allocate_bytes-Fits always (λ n size. refl) fresh 10 refl (omega arith) (omega arith)
      (omega arith)

-- Two objects of 5 bytes are 10 bytes.
two_objects : allocate_objects always 5 fresh 2 ≡ allocate_bytes always fresh 10
unfolding allocate_objects
two_objects = refl

two_returned : return_objects 5 fresh 2 ≡ return_bytes fresh 10
unfolding return_objects
two_returned = refl
