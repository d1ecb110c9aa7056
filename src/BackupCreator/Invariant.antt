-- ===== src/BackupCreator/Invariant.antt =====
-- The invariant of the creator over the input that it has taken.
use zbackup.Base.{ℕ, ◌+◌, ◌≤◌, ◌<◌, ◌≡◌, false, List, ◌++◌, length, take, All}
use zbackup.Base.Bytes.{u32_mod}
use mathlib.Core.List.{flatten}
use zbackup.RollingHash.Polynomial.{IsHashOf}
use zbackup.ChunkStorage.{Writer}
use zbackup.BackupCreator.{Creator}
use zbackup.BackupCreator.Ring.{advance, ring_read}
use zbackup.BackupCreator.Pieces.{AllEmit, IsPiece}

-- The bytes in the ring that form the start of a chunk, or a whole one.
abbrev pub window : Creator → List ℕ
window s = ring_read s.ring_buffer s.tail s.ring_buffer_fill

-- The bytes that left the window and wait to be saved.
abbrev pub waiting : Creator → List ℕ
waiting s = take s.chunk_to_save_fill s.chunk_to_save

-- The sizes and the pointers.
pub record IsShaped (limit : ℕ) (s : Creator) : Type 0 where
  pub max_pos : 0 < s.chunk_max_size
  pub max_small : s.chunk_max_size + s.chunk_max_size < u32_mod
  pub max_limit : s.chunk_max_size ≤ limit
  pub ring_room : s.chunk_max_size < length s.ring_buffer
  pub fill_le : s.ring_buffer_fill ≤ s.chunk_max_size
  pub tail_lt : s.tail < length s.ring_buffer
  pub head_eq : s.head ≡ advance (length s.ring_buffer) s.tail s.ring_buffer_fill
  pub save_length : length s.chunk_to_save ≡ s.chunk_max_size
  pub save_lt : s.chunk_to_save_fill < s.chunk_max_size

module _ (sha1 : List ℕ → List ℕ) (random : ℕ → List ℕ) (limit : ℕ) (P : Writer → Type 0) where
  -- The instructions written so far stand for `done`, piece by piece.
  pub record HasWritten (s : Creator) (done : List ℕ) : Type 0 where
    pub pieces : List (List ℕ)
    pub denotes : AllEmit sha1 random s.writer s.backup_data pieces
    pub whole : flatten pieces ≡ done
    pub sizes : All (IsPiece limit) pieces
    pub holds : P s.writer
    pub running : s.aborted ≡ false

  -- What was taken is what was written, what waits and what is in the window, in this order, and the
  -- rolling hash is that of the window.
  pub record IsCreator (input : List ℕ) (s : Creator) : Type 0 where
    pub shaped : IsShaped limit s
    pub hashed : IsHashOf (window s) s.rolling_hash
    pub done : List ℕ
    pub written : HasWritten s done
    pub taken : done ++ (waiting s ++ window s) ≡ input

-- The ring and its writing end are as before.
pub record IsSameRing (s r : Creator) : Type 0 where
  pub ring : r.ring_buffer ≡ s.ring_buffer
  pub head : r.head ≡ s.head
  pub max_size : r.chunk_max_size ≡ s.chunk_max_size
