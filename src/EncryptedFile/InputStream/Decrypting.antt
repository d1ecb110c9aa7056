-- ===== src/EncryptedFile/InputStream/Decrypting.antt =====
-- `decrypt` on a buffer that holds a part of the contents.
use zbackup.Base.{
  ℕ, zero, suc, ◌+◌, ◌-◌, ◌*◌, ◌/◌, ◌%◌, ◌≤◌, ◌<◌, ◌≡◌, sym, ap, ap₂, ◌∙◌, Bool, true, false, ◌&&◌,
  List, ◌++◌, append_assoc, arith, ltb, ◌==◌, if_true, length, take, drop, replicate, overwrite,
  All, length-append, length-replicate, length-take, length-drop, drop_at, take_more, drop_more,
  take-append-drop,
}
use zbackup.Base.Bytes.{IsByte}
use zbackup.Encryption.{block_size, get_next_decryption_iv}
use zbackup.Encryption.Padding.{unpad-padded}
use zbackup.EncryptedFile.Setting.{Setting}
use zbackup.EncryptedFile.{ok}
use zbackup.EncryptedFile.Codec.{
  IsIv, seal, seal-append, length-seal, decrypt-seal, contents, padding, with_padding,
}
use zbackup.EncryptedFile.InputStream.{InputStream, front, do_decrypt, unpad_last}
use zbackup.EncryptedFile.InputStream.Invariant.{window}

-- What a stream with a key decrypts: whole blocks, at least one, of bytes.
abbrev pub Decryptable : Bool → ℕ → List ℕ → Type 0
Decryptable true fill bytes = (n : ℕ) × (fill ≡ block_size * suc n) × All IsByte bytes
Decryptable false fill bytes = Unit {0}

overwrite_same :
    (xs : List ℕ) (i n : ℕ) → i + n ≤ length xs → overwrite xs i (take n (drop i xs)) ≡ xs
unfolding overwrite
overwrite_same xs i n le =
    let size : length (take n (drop i xs)) ≡ n =
      length-take n (drop i xs) ∙ omega (arith, length-drop i xs, le) in
    sym (append_assoc (take i xs) _ _)
    ∙ ap₂ (λ (x y : List ℕ). x ++ y) (sym (take_more i n xs)) (ap (λ (k : ℕ). drop (i + k) xs) size)
    ∙ take-append-drop (i + n) xs

pub drop-overwrite :
    (xs : List ℕ) (i : ℕ) (ys : List ℕ)
    → i + length ys ≤ length xs
    → drop (i + length ys) (overwrite xs i ys) ≡ drop (i + length ys) xs
unfolding overwrite
drop-overwrite xs i ys le =
    ap (drop (i + length ys)) (sym (append_assoc (take i xs) ys _))
    ∙ drop_at (i + length ys) (take i xs ++ ys) _
        (length-append (take i xs) ys ∙ omega (arith, length-take i xs, le))

pub pads-IsByte : (n v : ℕ) → v < 256 → All IsByte (replicate n v)
pads-IsByte zero v lt = tt
pads-IsByte (suc n) v lt = (lt, pads-IsByte n v lt)

module _ (c : Setting) (readable : ℕ → Bool) where
  open c use {aes_encrypt, aes_decrypt, aes_size, aes_inverse, adler32}

  pub do_decrypt-seal :
      (b : Bool) (s : InputStream) (plain : List ℕ)
      → IsIv b s.iv
      → Decryptable b s.fill plain
      → length plain ≡ s.fill
      → s.start + s.fill ≤ length s.buffer
      → window s ≡ (seal aes_encrypt aes_decrypt b s.iv plain).0
      → do_decrypt aes_encrypt aes_decrypt adler32 b readable s
        ≡ ok (record s {
          buffer = overwrite s.buffer s.start plain;
          iv = (seal aes_encrypt aes_decrypt b s.iv plain).1;
        })
  unfolding do_decrypt front
  do_decrypt-seal false s plain p h size le sealed =
      ap (λ (t : List ℕ). ok (record s { buffer = t }))
        (sym (overwrite_same s.buffer s.start s.fill le) ∙ ap (overwrite s.buffer s.start) sealed)
  do_decrypt-seal true s plain p (n, e, bytes) size le sealed =
      let more : (ltb 0 s.fill && (s.fill % block_size == 0)) ≡ true = ground (arith, e) in
      let (back, next_iv) =
        decrypt-seal aes_encrypt aes_decrypt aes_size aes_inverse n s.iv plain p (size ∙ e) bytes in
      if_true _ _ more
      ∙ rw (sealed, back)
          (ap (λ (v : List ℕ). ok (record s { buffer = overwrite s.buffer s.start plain; iv = v }))
            (ap₂ get_next_decryption_iv sealed (sym size) ∙ sym next_iv))

  -- The contents in two parts, the first of which are whole blocks.
  pub contents-split :
      (b : Bool) (m : ℕ) (iv later : List ℕ)
      → IsIv b iv
      → block_size * m + block_size ≤ length (contents aes_encrypt aes_decrypt b iv later)
      → (length (take (block_size * m) later) ≡ block_size * m)
        × (contents aes_encrypt aes_decrypt b iv later
            ≡ (seal aes_encrypt aes_decrypt b iv (take (block_size * m) later)).0
              ++ contents aes_encrypt aes_decrypt b
                  (seal aes_encrypt aes_decrypt b iv (take (block_size * m) later)).1
                  (drop (block_size * m) later))
  contents-split false m iv later p le = (
    length-take (block_size * m) later ∙ omega (arith, le),
    sym (take-append-drop (block_size * m) later),
  )
  contents-split true m iv later p le =
      let blocks = length later / block_size + 1 in
      let all_size : length (later ++ padding later) ≡ block_size * blocks =
        rw (length-append, length-replicate) (omega arith) in
      let sealed_size =
        (length-seal aes_encrypt aes_decrypt aes_size aes_inverse true blocks iv
          (later ++ padding later) p all_size).0 in
      let enough : block_size * m ≤ length later = omega (arith, le, sealed_size, all_size) in
      let first = take (block_size * m) later in
      let rest = drop (block_size * m) later in
      let first_size : length first ≡ block_size * m =
        length-take (block_size * m) later ∙ omega (arith, enough) in
      let rest_size : length rest ≡ length later - block_size * m =
        length-drop (block_size * m) later in
      let same_rem : length later % block_size ≡ length rest % block_size =
        omega (arith, rest_size, enough) in
      let rest_whole : length (rest ++ padding rest) ≡ block_size * (blocks - m) =
        rw (length-append, length-replicate) (omega (arith, rest_size, enough)) in
      let joined : later ++ padding later ≡ first ++ (rest ++ padding rest) =
        ap₂ (λ (x y : List ℕ). x ++ y) (sym (take-append-drop (block_size * m) later))
          (ap (λ (k : ℕ). replicate (block_size - k) (block_size - k)) same_rem)
        ∙ append_assoc first rest (padding rest) in
      (
        first_size,
        ap (λ (t : List ℕ). (seal aes_encrypt aes_decrypt true iv t).0) joined
            ∙ ap (λ (r : List ℕ × List ℕ). r.0)
                (seal-append aes_encrypt aes_decrypt true m (blocks - m) iv first
                  (rest ++ padding rest) first_size rest_whole),
      )

  pub length-contents :
      (iv later : List ℕ)
      → length iv ≡ block_size
      → length (contents aes_encrypt aes_decrypt true iv later)
        ≡ block_size * suc (length later / block_size)
  length-contents iv later p =
      let all_size : length (later ++ padding later)
          ≡ block_size * suc (length later / block_size) =
        rw (length-append, length-replicate) (omega arith) in
      (length-seal aes_encrypt aes_decrypt aes_size aes_inverse true
        (suc (length later / block_size)) iv (later ++ padding later) p all_size).0
      ∙ all_size

  -- `unpad` on the last block leaves what was there before the padding.
  pub unpad_last-later :
      (b : Bool) (s : InputStream) (later : List ℕ)
      → s.fill ≡ length (with_padding b later)
      → s.start + s.fill ≤ length s.buffer
      → window s ≡ with_padding b later
      → unpad_last aes_encrypt aes_decrypt adler32 b readable s
        ≡ ok (record s { fill = length later })
  unfolding unpad_last
  unpad_last-later false s later e le shown = ap (λ (k : ℕ). ok (record s { fill = k })) e
  unpad_last-later true s later e le shown =
      let rem = length later % block_size in
      let at = length later - rem in
      let last = drop at later in
      let last_size : length last ≡ rem = length-drop at later ∙ omega arith in
      let size : length (padding later) ≡ block_size - rem =
        length-replicate (block_size - rem) _ in
      let fill : s.fill ≡ at + block_size =
        e ∙ length-append later (padding later) ∙ omega (arith, size) in
      let block : take block_size (drop (s.start + s.fill - block_size) s.buffer)
          ≡ last ++ padding later =
        ap (λ (k : ℕ). take block_size (drop k s.buffer)) {x = s.start + s.fill - block_size}
          {y = s.start + at} (omega (arith, fill))
        ∙ ap (take block_size) (drop_more s.start at s.buffer)
        ∙ sym (
            drop_at at (take at (drop s.start s.buffer)) _
              (length-take at _ ∙ omega (arith, length-drop s.start s.buffer, le, fill)))
        ∙ ap (drop at) (sym (take_more at block_size (drop s.start s.buffer)))
        ∙ ap (λ (k : ℕ). drop at (take k (drop s.start s.buffer))) (sym fill)
        ∙ ap (drop at) shown
        ∙ ap (λ (t : List ℕ). drop at (t ++ padding later)) (sym (take-append-drop at later))
        ∙ ap (drop at) (append_assoc (take at later) last (padding later))
        ∙ drop_at at (take at later) _ (length-take at later ∙ omega arith) in
      rw (block, unpad-padded last rem last_size (omega arith))
        (ap (λ (k : ℕ). ok (record s { fill = k })) (omega (arith, fill)))
