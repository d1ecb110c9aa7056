-- ===== src/EncryptedFile/InputStream/Showing.antt =====
-- `decrypt` shows the next bytes, from a full buffer and at the end of the file.
use zbackup.Base.{
  ℕ, suc, ◌+◌, ◌-◌, ◌*◌, ◌/◌, ◌≤◌, ◌<◌, ◌≡◌, refl, sym, ap, ◌∙◌, Bool, true, false, List, [], ◌++◌,
  append-nil, append_assoc, arith, ◌==◌, ==_iff, if_true, if_false, inl, inr, Bool-cases, length,
  take, drop, overwrite, All, All-append, All-take, All-drop, length-append, length-take,
  length-drop, length-overwrite, length-replicate, take_at, drop_at, take_more, drop_more,
  take-append-drop, subst,
}
use zbackup.Base.Bytes.{IsByte}
use zbackup.Encryption.{block_size}
use zbackup.EncryptedFile.Setting.{Setting}
use zbackup.EncryptedFile.{ok, Result, ◌>>=◌}
use zbackup.EncryptedFile.Codec.{IsIv, seal, length-seal, contents, padding, with_padding}
use zbackup.EncryptedFile.InputStream.{
  InputStream, do_decrypt, unpad_last, decrypt_last, decrypt_buffer,
}
use zbackup.EncryptedFile.InputStream.Invariant.{window, HasRest, Place, buffer_size}
use zbackup.EncryptedFile.InputStream.Decrypting.{
  Decryptable, drop-overwrite, pads-IsByte, do_decrypt-seal, contents-split, unpad_last-later,
}

append-cancel :
    (xs ys us vs : List ℕ) → length xs ≡ length us → xs ++ ys ≡ us ++ vs → (xs ≡ us) × (ys ≡ vs)
append-cancel xs ys us vs e h = (
  sym (take_at (length us) xs ys e) ∙ ap (take (length us)) h ∙ take_at (length us) us vs refl,
  sym (drop_at (length us) xs ys e) ∙ ap (drop (length us)) h ∙ drop_at (length us) us vs refl,
)

drop-overwrite_front :
    (xs : List ℕ) (i : ℕ) (ys : List ℕ)
    → i ≤ length xs
    → drop i (overwrite xs i ys) ≡ ys ++ drop (i + length ys) xs
unfolding overwrite
drop-overwrite_front xs i ys le = drop_at i (take i xs) _ (length-take i xs ∙ omega (arith, le))

decryptable :
    (b : Bool) (fill n : ℕ) (bytes : List ℕ)
    → fill ≡ block_size * suc n
    → All IsByte bytes
    → Decryptable b fill bytes
decryptable true fill n bytes e all = (n, e, all)
decryptable false fill n bytes e all = tt

with_padding-append :
    (b : Bool) (later : List ℕ) → (pads : List ℕ) × (with_padding b later ≡ later ++ pads)
with_padding-append true later = (padding later, refl)
with_padding-append false later = ([], sym (append-nil later))

module _ (c : Setting) (readable : ℕ → Bool) (buffer_blocks : ℕ) where
  open c use {aes_encrypt, aes_decrypt, aes_size, aes_inverse, adler32, has_key}

  whole_plain :
      (b : Bool) (iv later : List ℕ)
      → IsIv b iv
      → All IsByte later
      → (length (contents aes_encrypt aes_decrypt b iv later) ≡ length (with_padding b later))
        × IsIv b (seal aes_encrypt aes_decrypt b iv (with_padding b later)).1
        × Decryptable b (length (with_padding b later)) (with_padding b later)
  whole_plain false iv later p h = (refl, p, tt)
  whole_plain true iv later p h =
      let whole : length (later ++ padding later) ≡ block_size * suc (length later / block_size) =
        rw (length-append, length-replicate) (omega arith) in
      let (size, vector) =
        length-seal aes_encrypt aes_decrypt aes_size aes_inverse true
          (suc (length later / block_size)) iv (later ++ padding later) p whole in
      (
        size,
        vector,
        (
          length later / block_size,
          whole,
          All-append IsByte later (padding later) h (pads-IsByte _ _ (omega arith)),
        ),
      )

  -- The stream with a window on the next bytes.
  pub record Shows (s : InputStream) (later : List ℕ) : Type 0 where
    pub next_later : List ℕ
    pub shown : later ≡ window s ++ next_later
    pub some_bytes : 0 < s.fill
    pub core : (pos : ℕ) → HasRest c buffer_blocks (record s { file_pos = pos }) next_later

  -- A buffer that was loaded from where the contents for `later` go on.
  pub record IsLoaded (s : InputStream) (later : List ℕ) : Type 0 where
    pub size : length s.buffer ≡ buffer_size c buffer_blocks
    pub within : s.start + s.fill ≤ buffer_size c buffer_blocks
    pub vector : IsIv has_key s.iv
    pub bytes : All IsByte later
    pub more : 0 < length later
    pub sealed :
        window s ++ drop s.offset s.file ≡ contents aes_encrypt aes_decrypt has_key s.iv later
    pub end : s.fill < buffer_size c buffer_blocks → drop s.offset s.file ≡ []

  full_step :
      (s : InputStream) (later : List ℕ)
      → IsLoaded s later
      → s.fill ≡ buffer_size c buffer_blocks
      → (s' : InputStream) × (do_decrypt aes_encrypt aes_decrypt adler32 has_key readable
            (record s { remainder = block_size; fill = s.fill - block_size })
          ≡ ok s')
        × Shows s' later
        × (s'.backed_up ≡ s.backed_up)
        × (s'.adler ≡ s.adler)
        × (s'.file_pos ≡ s.file_pos)
  full_step s later h full =
      let m = suc buffer_blocks in
      let less : s.fill - block_size ≡ block_size * m = omega (arith, full) in
      let whole : s.fill ≡ (s.fill - block_size) + block_size = omega (arith, full) in
      let rest = drop s.start s.buffer in
      let in_front = take (s.fill - block_size) rest in
      let kept = take block_size (drop (s.fill - block_size) rest) in
      let window_size : length (window s) ≡ s.fill =
        length-take s.fill rest ∙ omega (arith, length-drop s.start s.buffer, h.size, h.within) in
      let enough : block_size * m + block_size
          ≤ length (contents aes_encrypt aes_decrypt has_key s.iv later) =
        subst (λ (k : ℕ). block_size * m + block_size ≤ k)
          (sym (length-append (window s) (drop s.offset s.file)) ∙ ap length h.sealed)
          (omega (arith, window_size, full)) in
      let (first_size, split) = contents-split c readable has_key m s.iv later h.vector enough in
      let first = take (block_size * m) later in
      let sealed = seal aes_encrypt aes_decrypt has_key s.iv first in
      let (sealed_size, vector) =
        length-seal aes_encrypt aes_decrypt aes_size aes_inverse has_key m s.iv first h.vector
          first_size in
      let in_front_size : length in_front ≡ length sealed.0 =
        length-take (s.fill - block_size) rest
        ∙ omega (
          arith,
          length-drop s.start s.buffer,
          h.size,
          h.within,
          sealed_size,
          first_size,
          less,
        ) in
      let parts : (in_front ≡ sealed.0)
          × (kept ++ drop s.offset s.file
              ≡ contents aes_encrypt aes_decrypt has_key sealed.1 (drop (block_size * m) later)) =
        append-cancel in_front (kept ++ drop s.offset s.file) sealed.0 _ in_front_size (
          sym (append_assoc in_front kept (drop s.offset s.file))
          ∙ ap (λ (t : List ℕ). t ++ drop s.offset s.file)
              (sym (take_more (s.fill - block_size) block_size rest)
                ∙ ap (λ (k : ℕ). take k rest) (sym whole))
          ∙ h.sealed
          ∙ split) in
      let buffer = overwrite s.buffer s.start first in
      let fits : s.start + length first ≤ length s.buffer =
        omega (arith, first_size, h.within, h.size, less, full) in
      let at : s.start + (s.fill - block_size) ≡ s.start + length first =
        omega (arith, first_size, less) in
      let kept_same : drop (s.start + (s.fill - block_size)) buffer
          ≡ drop (s.fill - block_size) rest =
        ap (λ (k : ℕ). drop k buffer) at
        ∙ drop-overwrite s.buffer s.start first fits
        ∙ ap (λ (k : ℕ). drop k s.buffer) (sym at)
        ∙ drop_more s.start (s.fill - block_size) s.buffer in
      let s' = record s {
        remainder = block_size;
        fill = s.fill - block_size;
        buffer = buffer;
        iv = sealed.1;
      } in
      let shown : window s' ≡ first =
        ap (take (s.fill - block_size))
          (drop-overwrite_front s.buffer s.start first (omega (arith, fits)))
        ∙ take_at (s.fill - block_size) first _ (first_size ∙ sym less) in
      (
        s',
        do_decrypt-seal c readable has_key
            (record s { remainder = block_size; fill = s.fill - block_size }) first h.vector
            (decryptable has_key (s.fill - block_size) buffer_blocks first less
              (All-take IsByte (block_size * m) later h.bytes))
            (first_size ∙ sym less) (omega (arith, h.within, h.size)) parts.0,
        record {
          next_later = drop (block_size * m) later;
          shown =
              sym (take-append-drop (block_size * m) later)
              ∙ ap (λ (t : List ℕ). t ++ drop (block_size * m) later) (sym shown);
          some_bytes = omega (arith, less);
          core = λ pos. record {
            size = length-overwrite s.buffer s.start first fits ∙ h.size;
            within = omega (arith, h.within);
            vector = vector;
            bytes = All-drop IsByte (block_size * m) later h.bytes;
            place = Place.middle refl (omega (arith, h.within, full)) (
                ap (λ (t : List ℕ). take block_size t ++ drop s.offset s.file) kept_same ∙ parts.1);
          };
        },
        refl,
        refl,
        refl,
      )

  short_step :
      (s : InputStream) (later : List ℕ)
      → IsLoaded s later
      → s.fill < buffer_size c buffer_blocks
      → (s' : InputStream) × (decrypt_last aes_encrypt aes_decrypt adler32 has_key readable s
          ≡ ok s')
        × Shows s' later
        × (s'.backed_up ≡ s.backed_up)
        × (s'.adler ≡ s.adler)
        × (s'.file_pos ≡ s.file_pos)
  unfolding decrypt_last
  short_step s later h short =
      let plain = with_padding has_key later in
      let sealed = seal aes_encrypt aes_decrypt has_key s.iv plain in
      let all : window s ≡ sealed.0 =
        sym (append-nil (window s))
        ∙ ap (λ (t : List ℕ). window s ++ t) (sym (h.end short))
        ∙ h.sealed in
      let window_size : length (window s) ≡ s.fill =
        length-take s.fill _ ∙ omega (arith, length-drop s.start s.buffer, h.size, h.within) in
      let (plain_size, vector, okay) = whole_plain has_key s.iv later h.vector h.bytes in
      let size : length plain ≡ s.fill = sym plain_size ∙ ap length (sym all) ∙ window_size in
      let buffer = overwrite s.buffer s.start plain in
      let fits : s.start + length plain ≤ length s.buffer = omega (arith, size, h.within, h.size) in
      let s₁ = record s { buffer = buffer; iv = sealed.1 } in
      let from : drop s.start buffer ≡ plain ++ drop (s.start + length plain) s.buffer =
        drop-overwrite_front s.buffer s.start plain (omega (arith, fits)) in
      let window₁ : window s₁ ≡ plain = ap (take s.fill) from ∙ take_at s.fill plain _ size in
      let (pads, split) = with_padding-append has_key later in
      let split_size : length plain ≡ length later + length pads =
        ap length split ∙ length-append later pads in
      let shown : take (length later) (drop s.start buffer) ≡ later =
        ap (take (length later)) (
          from
          ∙ ap (λ (t : List ℕ). t ++ drop (s.start + length plain) s.buffer) split
          ∙ append_assoc later pads _)
        ∙ take_at (length later) later _ refl in
      let opened =
        do_decrypt-seal c readable has_key s plain h.vector
          (subst (λ (k : ℕ). Decryptable has_key k plain) size okay) size
          (omega (arith, h.within, h.size)) all in
      let unpadded =
        unpad_last-later c readable has_key s₁ later (sym size)
          (omega (arith, h.within, h.size, length-overwrite s.buffer s.start plain fits)) window₁ in
      (
        record s₁ { fill = length later; remainder = 0 },
        ap
              (λ (m : Result InputStream). m >>= λ (t : InputStream).
                unpad_last aes_encrypt aes_decrypt adler32 has_key readable t
                >>= λ (u : InputStream). ok (record u { remainder = 0 }))
              opened
            ∙ ap
                (λ (m : Result InputStream).
                  m >>= λ (u : InputStream). ok (record u { remainder = 0 }))
                unpadded,
        record {
          next_later = [];
          shown = sym shown ∙ sym (append-nil _);
          some_bytes = h.more;
          core = λ pos. record {
            size = length-overwrite s.buffer s.start plain fits ∙ h.size;
            within = omega (arith, h.within, size, split_size);
            vector = vector;
            bytes = tt;
            place = Place.ended refl;
          };
        },
        refl,
        refl,
        refl,
      )

  pub decrypt_buffer-Shows :
      (s : InputStream) (later : List ℕ)
      → IsLoaded s later
      → (s' : InputStream) × (decrypt_buffer aes_encrypt aes_decrypt adler32 has_key readable s
          ≡ ok s')
        × Shows s' later
        × (s'.backed_up ≡ s.backed_up)
        × (s'.adler ≡ s.adler)
        × (s'.file_pos ≡ s.file_pos)
  unfolding decrypt_buffer
  decrypt_buffer-Shows s later h = elim (Bool-cases (s.fill == length s.buffer)) [
    | inl full ↦
        let (s', made, shows, b, a, p) = (full_step s later h ((==_iff _ _).0 full ∙ h.size)) in
        (s', if_true _ _ full ∙ made, shows, b, a, p)
    | inr short ↦
        let (s', made, shows, b, a, p) =
          (short_step s later h (ground (arith, short, h.size, h.within))) in
        (s', if_false _ _ short ∙ made, shows, b, a, p)
  ]
