-- ===== src/BackupCreator/Ready.antt =====
-- A writer that takes any chunk the creator may hand over.
use zbackup.Base.{ℕ, ◌≤◌, ◌<◌, ◌≡◌, refl, Option, none, some, List, arith, length, take}
use zbackup.Base.Bytes.{u32_mod, u64_mod}
use zbackup.RollingHash.Polynomial.{digest_buffer-polynomial}
use zbackup.ChunkStorage.{Writer}
use zbackup.ChunkStorage.Known.{add-max_payload_size}
use zbackup.Bundle.{Creator}
use zbackup.Bundle.Items.{IsBundle}
use zbackup.ChunkStorage.Writing.{ForCurrent}
use zbackup.ChunkStorage.Invariant.{IsFilled, IsWriter, add-IsWriter}
use zbackup.ChunkStorage.Stock.{IsStocked, add-IsStocked}
use zbackup.BackupCreator.{id_of}
use zbackup.BackupCreator.Saving.{Preserved}

-- The writer is in order, a size fits into 32 bits, and a bundle has room for the largest chunk.
abbrev pub IsReady : ℕ → Writer → Type 0
IsReady limit w = IsWriter w × (limit < u32_mod) × (limit ≤ w.max_payload_size)

pub IsReady-Preserved :
    (sha1 : List ℕ → List ℕ) (random : ℕ → List ℕ) (limit : ℕ)
    → Preserved sha1 random limit (IsReady limit)
IsReady-Preserved sha1 random limit w bytes p l (v, few, room) = (
  add-IsWriter random (id_of sha1 random bytes) bytes (length bytes) refl (omega (arith, l, few)) p
      w (omega (arith, l, room)) v,
  few,
  rw (add-max_payload_size random (id_of sha1 random bytes) bytes (length bytes) w) room,
)

-- A ready writer that holds a chunk under every id that the index knows, and none under a wrong id.
abbrev pub IsPrepared : (List ℕ → List ℕ) → (ℕ → List ℕ) → ℕ → Writer → Type 0
IsPrepared sha1 random limit w = IsReady limit w × IsStocked random (id_of sha1 random) w

filled-IsBundle :
    (limit : ℕ) (o : Option Creator) → ForCurrent (IsFilled limit) o → ForCurrent IsBundle o
filled-IsBundle limit none f = tt
filled-IsBundle limit (some c) f = f.0

pub IsPrepared-Preserved :
    (sha1 : List ℕ → List ℕ) (random : ℕ → List ℕ) (limit : ℕ)
    → Preserved sha1 random limit (IsPrepared sha1 random limit)
IsPrepared-Preserved sha1 random limit w bytes p l (ready, stocked) =
    let (v, few, room) = ready in
    (
      IsReady-Preserved sha1 random limit w bytes p l ready,
      add-IsStocked random (id_of sha1 random) w bytes
          (filled-IsBundle w.max_payload_size w.current_bundle v.current) (omega (arith, l, few))
          stocked,
    )

pub id_of-crypto_hash :
    (sha1 : List ℕ → List ℕ) (random : ℕ → List ℕ) (bytes : List ℕ)
    → (id_of sha1 random bytes).crypto_hash ≡ take 16 (sha1 bytes)
unfolding id_of
id_of-crypto_hash sha1 random bytes = refl

pub id_of-rolling_hash-lt :
    (sha1 : List ℕ → List ℕ) (random : ℕ → List ℕ) (bytes : List ℕ)
    → (id_of sha1 random bytes).rolling_hash < u64_mod
unfolding id_of
id_of-rolling_hash-lt sha1 random bytes = rw (digest_buffer-polynomial bytes) (omega arith)
