-- ===== src/EncryptedFile/RoundTrip.antt =====
-- What is written to a file is read from it again, in whatever pieces.
use zbackup.Base.{
  ℕ, ◌+◌, ◌≤◌, ◌≡◌, refl, sym, ap, ap₂, ◌∙◌, Bool, true, List, [], ◌∷◌, ◌++◌, append-nil,
  append_assoc, arith, length, take, drop, All, All-append, length-append, length-take, length-drop,
  take-append-drop, take_at, drop_at, take_more, drop_more, subst,
}
use zbackup.Base.Bytes.{IsByte, to_le, length-to_le, to_le-IsByte}
use zbackup.EncryptedFile.Setting.{Setting}
use zbackup.EncryptedFile.{ok, Result, ◌>>=◌}
use zbackup.EncryptedFile.Codec.{contents}
use zbackup.EncryptedFile.OutputStream.{OutputStream, open_output, write, write_adler, close}
use zbackup.EncryptedFile.OutputStream.Invariant.{sum, IsOutput}
use zbackup.EncryptedFile.OutputStream.Writing.{write-IsOutput}
use zbackup.EncryptedFile.OutputStream.Settling.{open_output-IsOutput}
use zbackup.EncryptedFile.OutputStream.Closing.{write_adler-IsOutput, close-contents}
use zbackup.EncryptedFile.InputStream.{InputStream, open_input, read, check_adler}
use zbackup.EncryptedFile.InputStream.Invariant.{IsInput}
use zbackup.EncryptedFile.InputStream.Reading.{read-IsInput}
use zbackup.EncryptedFile.InputStream.Checking.{
  buffer_blocks, open_input-IsInput, check_adler-IsInput,
}

abbrev pub concat : List (List ℕ) → List ℕ
concat [] = []
concat (piece ∷ pieces) = piece ++ concat pieces

abbrev pub total : List ℕ → ℕ
total [] = 0
total (size ∷ sizes) = size + total sizes

-- Bytes in parts of the given sizes.
abbrev pub cut : List ℕ → List ℕ → List (List ℕ)
cut [] bytes = []
cut (size ∷ sizes) bytes = take size bytes ∷ cut sizes (drop size bytes)

cut-append : (sizes xs ys : List ℕ) → total sizes ≤ length xs → cut sizes (xs ++ ys) ≡ cut sizes xs
cut-append [] xs ys le = refl
cut-append (size ∷ sizes) xs ys le =
    let front : length (take size xs) ≡ size = length-take size xs ∙ omega (arith, le) in
    let split : xs ++ ys ≡ take size xs ++ (drop size xs ++ ys) =
      ap (λ (t : List ℕ). t ++ ys) (sym (take-append-drop size xs))
      ∙ append_assoc (take size xs) _ ys in
    ap₂ (λ (x : List ℕ) (rest : List (List ℕ)). x ∷ rest)
      (ap (take size) split ∙ take_at size (take size xs) _ front)
      (ap (λ (t : List ℕ). cut sizes t) (ap (drop size) split ∙ drop_at size (take size xs) _ front)
        ∙ cut-append sizes (drop size xs) ys (omega (arith, length-drop size xs, le)))

module _ (aes_encrypt aes_decrypt : List ℕ → List ℕ) (adler32 : ℕ → List ℕ → ℕ) (has_key : Bool)
    (room : ℕ) (readable : ℕ → Bool) where
  -- Calls of `write` and `read` one after another.
  pub write_all : List (List ℕ) → OutputStream → Result OutputStream
  write_all [] s = ok s
  write_all (piece ∷ pieces) s =
      write aes_encrypt aes_decrypt adler32 has_key room s piece >>= write_all pieces

  pub read_all : List ℕ → InputStream → Result (List (List ℕ) × InputStream)
  read_all [] s = ok ([], s)
  read_all (size ∷ sizes) s = do
    (piece, s₁) ← read aes_encrypt aes_decrypt adler32 has_key readable size s
    (pieces, s₂) ← read_all sizes s₁
    ok (piece ∷ pieces, s₂)

  -- A file of some pieces with its checksum, and the way back.
  pub save : ℕ → List ℕ → List (List ℕ) → Result (List ℕ)
  unfolding write_all
  save page_size iv pieces = do
    s₁ ← write_all pieces (open_output aes_encrypt aes_decrypt adler32 has_key room page_size iv)
    s₂ ← write_adler aes_encrypt aes_decrypt adler32 has_key room s₁
    close aes_encrypt aes_decrypt adler32 has_key room s₂

  pub load : ℕ → List ℕ → List ℕ → List ℕ → Result (List (List ℕ))
  unfolding read_all
  load page_size iv sizes file = do
    s₁ ← open_input aes_encrypt aes_decrypt adler32 has_key readable page_size iv file
    (pieces, s₂) ← read_all sizes s₁
    s₃ ← check_adler aes_encrypt aes_decrypt adler32 has_key readable s₂
    ok pieces

module _ (c : Setting) (room : ℕ) (readable : ℕ → Bool)
    (all_readable : (offset : ℕ) → readable offset ≡ true) where
  open c use {aes_encrypt, aes_decrypt, adler32, has_key, page_size}

  write_all-IsOutput :
      (pieces : List (List ℕ)) (s : OutputStream) (plain : List ℕ)
      → length plain + length (concat pieces) ≤ room
      → IsOutput c room s plain
      → (s' : OutputStream) × (write_all aes_encrypt aes_decrypt adler32 has_key room readable
            pieces s
          ≡ ok s')
        × IsOutput c room s' (plain ++ concat pieces)
  unfolding write_all
  write_all-IsOutput [] s plain fits h =
      (s, refl, subst (IsOutput c room s) (sym (append-nil plain)) h)
  write_all-IsOutput (piece ∷ pieces) s plain fits h =
      let size = length-append piece (concat pieces) in
      let (s₁, made, h₁) = write-IsOutput c room s plain piece (omega (arith, fits, size)) h in
      let (s₂, rest, h₂) =
        write_all-IsOutput pieces s₁ (plain ++ piece)
          (omega (arith, fits, size, length-append plain piece)) h₁ in
      (
        s₂,
        ap
              (λ (m : Result OutputStream).
                m >>= write_all aes_encrypt aes_decrypt adler32 has_key room readable pieces)
              made
            ∙ rest,
        subst (IsOutput c room s₂) (append_assoc plain piece (concat pieces)) h₂,
      )

  read_all-IsInput :
      (sizes : List ℕ) (s : InputStream) (past rest : List ℕ)
      → total sizes ≤ length rest
      → IsInput c (buffer_blocks c readable all_readable) s past rest
      → (s' : InputStream) × (read_all aes_encrypt aes_decrypt adler32 has_key room readable sizes s
          ≡ ok (cut sizes rest, s'))
        × IsInput c
            (buffer_blocks c readable all_readable)
            s'
            (past ++ take (total sizes) rest)
            (drop (total sizes) rest)
  unfolding read_all
  read_all-IsInput [] s past rest enough h = (
    s,
    refl,
    subst (λ (p : List ℕ). IsInput c (buffer_blocks c readable all_readable) s p rest)
        (sym (append-nil past)) h,
  )
  read_all-IsInput (size ∷ sizes) s past rest enough h =
      let (s₁, made, h₁) =
        read-IsInput c (buffer_blocks c readable all_readable) readable all_readable size s past
          rest (omega (arith, enough)) h in
      let (s₂, others, h₂) =
        read_all-IsInput sizes s₁ (past ++ take size rest) (drop size rest)
          (omega (arith, length-drop size rest, enough)) h₁ in
      let bytes : take size rest ++ take (total sizes) (drop size rest)
          ≡ take (size + total sizes) rest =
        sym (take_more size (total sizes) rest) in
      (
        s₂,
        ap
              (λ (m : Result (List ℕ × InputStream)). m >>= λ (r : List ℕ × InputStream).
                read_all aes_encrypt aes_decrypt adler32 has_key room readable sizes r.1
                >>= λ (q : List (List ℕ) × InputStream). ok (r.0 ∷ q.0, q.1))
              made
            ∙ ap
                (λ (m : Result (List (List ℕ) × InputStream)).
                  m >>= λ (q : List (List ℕ) × InputStream). ok (take size rest ∷ q.0, q.1))
                others,
        subst
            (λ (p : List ℕ).
              IsInput c (buffer_blocks c readable all_readable) s₂ p
                (drop (size + total sizes) rest))
            (append_assoc past _ _ ∙ ap (λ (t : List ℕ). past ++ t) bytes)
            (subst
              (λ (d : List ℕ).
                IsInput c (buffer_blocks c readable all_readable) s₂
                  ((past ++ take size rest) ++ take (total sizes) (drop size rest)) d)
              (sym (drop_more size (total sizes) rest)) h₂),
      )

  -- Pieces are written to a new file, the checksum after them, and the file is closed. Then `read` gives
  -- the same bytes in any other pieces of the same total size, and the checksum is found right, with a
  -- key and without one. The bytes are bytes, the file system has room for them, for the checksum and
  -- for the padding, and can read the file; AES and the checksum are as the setting says.
  pub load-save :
      (pieces : List (List ℕ)) (sizes : List ℕ)
      → All IsByte (concat pieces)
      → length (concat pieces) + 20 ≤ room
      → total sizes ≡ length (concat pieces)
      → (file : List ℕ) × (save aes_encrypt aes_decrypt adler32 has_key room readable page_size c.iv
            pieces
          ≡ ok file)
        × (load aes_encrypt aes_decrypt adler32 has_key room readable page_size c.iv sizes file
            ≡ ok (cut sizes (concat pieces)))
  unfolding save load
  load-save pieces sizes bytes fits same =
      let plain = concat pieces in
      let value = sum c room plain in
      let four = length-to_le 4 value in
      let (s₁, wrote, h₁) =
        write_all-IsOutput pieces _ [] (omega (arith, fits)) (open_output-IsOutput c room) in
      let (s₂, summed, h₂) = write_adler-IsOutput c room s₁ plain (omega (arith, fits)) h₁ in
      let closed =
        close-contents c room s₂ (plain ++ to_le 4 value) h₂
          (omega (arith, length-append plain (to_le 4 value), four, fits)) in
      let (t₁, opened, k₁) =
        open_input-IsInput c readable all_readable (plain ++ to_le 4 value)
          (All-append IsByte plain (to_le 4 value) bytes (to_le-IsByte 4 value)) in
      let first : take (total sizes) (plain ++ to_le 4 value) ≡ plain =
        take_at (total sizes) plain _ (sym same) in
      let last : drop (total sizes) (plain ++ to_le 4 value) ≡ to_le 4 value =
        drop_at (total sizes) plain _ (sym same) in
      let (t₂, pieces_read, k₂) =
        read_all-IsInput sizes t₁ [] (plain ++ to_le 4 value)
          (omega (arith, length-append plain (to_le 4 value), same)) k₁ in
      let k₂' : IsInput c (buffer_blocks c readable all_readable) t₂ plain (to_le 4 value ++ []) =
        subst (IsInput c (buffer_blocks c readable all_readable) t₂ plain)
          (last ∙ sym (append-nil (to_le 4 value)))
          (subst
            (λ (p : List ℕ).
              IsInput c (buffer_blocks c readable all_readable) t₂ p
                (drop (total sizes) (plain ++ to_le 4 value)))
            first k₂) in
      let (t₃, checked, k₃) = check_adler-IsInput c readable all_readable t₂ plain [] k₂' in
      (
        contents aes_encrypt aes_decrypt has_key c.iv (plain ++ to_le 4 value),
        rw (wrote, summed) closed,
        rw (opened, pieces_read, checked)
            (ap ok (cut-append sizes plain (to_le 4 value) (omega (arith, same)))),
      )
