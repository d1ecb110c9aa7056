-- ===== src/EncryptedFile/OutputStream/Closing.antt =====
-- The destructor where the file system has room, and `writeAdler32`.
use zbackup.Base.{
  ℕ, suc, ◌+◌, ◌-◌, ◌*◌, ◌/◌, ◌%◌, ◌≤◌, ◌<◌, ◌≡◌, refl, sym, ap, ap₂, ◌∙◌, Bool, true, false, List,
  ◌++◌, append-nil, append_assoc, arith, ◌==◌, ==_iff, if_true, if_false, inl, inr, Bool-cases,
  length, take, drop, replicate, overwrite, length-append, length-take, length-drop,
  length-replicate, length-overwrite, take-overwrite, take_at, take_whole, take_more, subst,
}
use zbackup.Base.Bytes.{to_le, length-to_le}
use zbackup.Encryption.{block_size}
use zbackup.Encryption.Padding.{pad_fits}
use zbackup.EncryptedFile.Setting.{Setting}
use zbackup.EncryptedFile.{ok, Result, ◌>>=◌}
use zbackup.EncryptedFile.Codec.{seal, seal-append, with_padding, contents}
use zbackup.EncryptedFile.OutputStream.{
  OutputStream, write_full, pad_last, written, close, encrypt_and_write, write, write_adler,
}
use zbackup.EncryptedFile.OutputStream.Writing.{write-IsOutput}
use zbackup.EncryptedFile.OutputStream.Emitting.{IsWhole, encrypt_and_write-fits}
use zbackup.EncryptedFile.OutputStream.Invariant.{
  sum, IsOutput, flush_page, length-file, HasPages-iv,
}
use zbackup.EncryptedFile.OutputStream.Settling.{IsSettled, settle, get_adler-IsOutput}

module _ (c : Setting) (room : ℕ) where
  open c use {
    aes_encrypt, aes_decrypt, aes_size, aes_inverse, adler32, adler32_lt, adler32_append, has_key,
    page_size, page_blocks, page,
  }

  -- The full buffer is written, if it is full.
  flush :
      (s : OutputStream) (plain : List ℕ)
      → IsSettled c room s plain
      → length plain ≤ room
      → (s' : OutputStream) × (write_full aes_encrypt aes_decrypt adler32 has_key room s
          ≡ ok (s', true))
        × IsSettled c room s' plain
        × (s'.start < page_size)
  unfolding write_full
  flush s plain h le = elim (Bool-cases (s.start == length s.buffer)) [
    | inl end ↦
        let at_end : s.start ≡ length s.buffer = (==_iff _ _).0 end in
        let all : plain ≡ h.pages ++ s.buffer =
          h.held
          ∙ ap (λ (t : List ℕ). h.pages ++ t)
              (take_whole s.start s.buffer (omega (arith, at_end))) in
        let total : length plain ≡ length h.pages + page_size =
          ap length all ∙ length-append h.pages s.buffer ∙ omega (arith, h.core.size) in
        let (buffer, size, made) =
          flush_page c room s h.pages s.adler h.core (omega (arith, total, le)) in
        let sealed = seal aes_encrypt aes_decrypt has_key c.iv (h.pages ++ s.buffer) in
        (
          record s { file = sealed.0; iv = sealed.1; buffer = buffer; start = 0 },
          if_true _ _ end
              ∙ ap
                  (λ (m : Result (OutputStream × Bool)).
                    m >>= λ (r : OutputStream × Bool). ok (record r.0 { start = 0 }, r.1))
                  made,
          record {
            pages = h.pages ++ s.buffer;
            core = record {
              count = h.core.count + suc page_blocks;
              whole =
                  length-append h.pages s.buffer ∙ omega (arith, h.core.whole, h.core.size, page);
              sealed = refl;
              next_iv = refl;
              size = size;
              summed =
                  h.core.summed
                  ∙ ap (sum c room) (sym h.held ∙ all ∙ sym (append-nil (h.pages ++ s.buffer)));
            };
            held = all ∙ sym (append-nil _);
            within = omega arith;
          },
          omega (arith, page),
        )
    | inr before ↦ (s, if_false _ _ before, h, ground (arith, before, h.within, h.core.size))
  ]

  -- Padding of a block that stands in a buffer.
  take-pad :
      (buffer pads : List ℕ) (at size : ℕ)
      → size + length pads ≡ block_size
      → at + block_size ≤ length buffer
      → take
          (at + block_size)
          (overwrite buffer at (overwrite (take block_size (drop at buffer)) size pads))
        ≡ take (at + size) buffer ++ pads
  take-pad buffer pads at size e le =
      let block = take block_size (drop at buffer) in
      let whole : length block ≡ block_size =
        length-take block_size (drop at buffer) ∙ omega (arith, length-drop at buffer, le) in
      let padded : length (overwrite block size pads) ≡ block_size =
        length-overwrite block size pads (omega (arith, whole, e)) ∙ whole in
      let inside : overwrite block size pads ≡ take size block ++ pads =
        sym (take_whole (size + length pads) _ (omega (arith, padded, e)))
        ∙ take-overwrite block size pads (omega (arith, whole, e)) in
      let first : take size block ≡ take size (drop at buffer) =
        ap (λ (k : ℕ). take size (take k (drop at buffer))) (sym e)
        ∙ ap (take size) (take_more size (length pads) (drop at buffer))
        ∙ take_at size (take size (drop at buffer)) _
            (length-take size (drop at buffer) ∙ omega (arith, length-drop at buffer, le, e)) in
      ap (λ (k : ℕ). take (at + k) (overwrite buffer at (overwrite block size pads))) (sym padded)
      ∙ take-overwrite buffer at (overwrite block size pads) (omega (arith, padded, le))
      ∙ ap (λ (t : List ℕ). take at buffer ++ t) (inside ∙ ap (λ (t : List ℕ). t ++ pads) first)
      ∙ sym (append_assoc (take at buffer) (take size (drop at buffer)) pads)
      ∙ ap (λ (t : List ℕ). t ++ pads) (sym (take_more at size buffer))

  pad_last-with_padding :
      (b : Bool) (s : OutputStream) (pages plain : List ℕ) (count : ℕ)
      → length pages ≡ block_size * count
      → plain ≡ pages ++ take s.start s.buffer
      → s.start < page_size
      → length s.buffer ≡ page_size
      → (bytes : ℕ) × (buffer : List ℕ) × (pad_last aes_encrypt aes_decrypt adler32 b room s
          ≡ ok (bytes, record s { buffer = buffer }))
        × IsWhole b bytes
        × (length buffer ≡ page_size)
        × (bytes ≤ page_size)
        × (bytes ≤ s.start + block_size)
        × (pages ++ take bytes buffer ≡ with_padding b plain)
  unfolding pad_last
  pad_last-with_padding false s pages plain count whole held lt size =
      (s.start, s.buffer, refl, tt, size, omega arith, omega arith, sym held)
  pad_last-with_padding true s pages plain count whole held lt size =
      let rem = s.start % block_size in
      let at = s.start - rem in
      let pads = replicate (block_size - rem) (block_size - rem) in
      let block = take block_size (drop at s.buffer) in
      let padded = overwrite s.buffer at (overwrite block rem pads) in
      let small : rem < block_size = omega arith in
      let fits : at + block_size ≤ length s.buffer = omega (arith, lt, size, page) in
      let pads_size : rem + length pads ≡ block_size = rw length-replicate (omega (arith, small)) in
      let block_whole : length block ≡ block_size =
        length-take block_size (drop at s.buffer) ∙ omega (arith, length-drop at s.buffer, fits) in
      let block_padded : length (overwrite block rem pads) ≡ block_size =
        length-overwrite block rem pads (omega (arith, block_whole, pads_size)) ∙ block_whole in
      let same_rem : length plain % block_size ≡ rem =
        ap (λ (k : ℕ). k % block_size)
          (ap length held
            ∙ length-append pages _
            ∙ ap (λ (k : ℕ). length pages + k) (length-take s.start s.buffer))
        ∙ omega (arith, whole, lt, size) in
      let to : s.start + (block_size - rem) ≡ at + block_size = omega arith in
      let back : at + rem ≡ s.start = omega arith in
      (
        s.start + (block_size - rem),
        padded,
        rw (pad_fits block rem small) refl,
        (s.start / block_size, omega arith),
        length-overwrite s.buffer at (overwrite block rem pads) (omega (arith, block_padded, fits))
            ∙ size,
        omega (arith, fits, size),
        omega arith,
        ap (λ (k : ℕ). pages ++ take k padded) to
            ∙ ap (λ (t : List ℕ). pages ++ t)
                (take-pad s.buffer pads at rem pads_size fits
                  ∙ ap (λ (k : ℕ). take k s.buffer ++ pads) back)
            ∙ sym (append_assoc pages (take s.start s.buffer) pads)
            ∙ ap (λ (t : List ℕ). t ++ pads) (sym held)
            ∙ ap (λ (k : ℕ). plain ++ replicate (block_size - k) (block_size - k)) (sym same_rem),
      )

  -- The last blocks, or the last bytes of a stream without a key.
  seal-last :
      (b : Bool) (m : ℕ) (iv a t : List ℕ)
      → length a ≡ block_size * m
      → IsWhole b (length t)
      → (seal aes_encrypt aes_decrypt b iv a).0
          ++ (seal aes_encrypt aes_decrypt b (seal aes_encrypt aes_decrypt b iv a).1 t).0
        ≡ (seal aes_encrypt aes_decrypt b iv (a ++ t)).0
  seal-last false m iv a t e whole = refl
  seal-last true m iv a t e (n, f) =
      ap (λ (r : List ℕ × List ℕ). r.0)
        (sym (seal-append aes_encrypt aes_decrypt true m (suc n) iv a t e f))

  -- The rest of the destructor, from a buffer that is not full.
  finish :
      (s : OutputStream) (plain : List ℕ)
      → IsSettled c room s plain
      → s.start < page_size
      → length plain + block_size ≤ room
      → (s' : OutputStream) × (s'' : OutputStream) × (bytes : ℕ) × (pad_last aes_encrypt aes_decrypt
            adler32 has_key room s
          ≡ ok (bytes, s'))
        × (encrypt_and_write aes_encrypt aes_decrypt adler32 has_key room bytes s' ≡ ok (s'', true))
        × (s''.file ≡ contents aes_encrypt aes_decrypt has_key c.iv plain)
  finish s plain h lt fits =
      let (bytes, buffer, padded, whole, size, le, near, all) =
        pad_last-with_padding has_key s h.pages plain h.core.count h.core.whole h.held lt
          h.core.size in
      let total : length plain ≡ length h.pages + s.start =
        ap length h.held
        ∙ length-append h.pages _
        ∙ ap (λ (k : ℕ). length h.pages + k) (length-take s.start s.buffer)
        ∙ omega (arith, lt, h.core.size) in
      let (buffer', size', made) =
        encrypt_and_write-fits aes_encrypt aes_decrypt aes_size aes_inverse adler32 room has_key
          (record s { buffer = buffer }) bytes whole (HasPages-iv c room h.core)
          (omega (arith, le, size)) (omega (arith, length-file c room h.core, near, total, fits)) in
      let used_bytes : length (take bytes buffer) ≡ bytes =
        length-take bytes buffer ∙ omega (arith, le, size) in
      (
        record s { buffer = buffer },
        _,
        bytes,
        padded,
        made,
        ap₂
              (λ (file iv : List ℕ).
                file ++ (seal aes_encrypt aes_decrypt has_key iv (take bytes buffer)).0)
              h.core.sealed h.core.next_iv
            ∙ seal-last has_key h.core.count c.iv h.pages (take bytes buffer) h.core.whole
                (subst (IsWhole has_key) (sym used_bytes) whole)
            ∙ ap (λ (t : List ℕ). (seal aes_encrypt aes_decrypt has_key c.iv t).0) all,
      )

  -- The destructor writes the contents for the bytes that were written.
  pub close-contents :
      (s : OutputStream) (plain : List ℕ)
      → IsOutput c room s plain
      → length plain + block_size ≤ room
      → close aes_encrypt aes_decrypt adler32 has_key room s
        ≡ ok (contents aes_encrypt aes_decrypt has_key c.iv plain)
  unfolding close written
  close-contents s plain h fits =
      let (s₁, returned, out, settled) = settle c room s plain h in
      let (s₂, flushed, settled', lt) = flush s₁ plain settled (omega (arith, fits)) in
      let (s₃, s₄, bytes, padded, made, file) = finish s₂ plain settled' lt fits in
      rw (returned, flushed, padded, made) (ap ok file)

  pub write_adler-IsOutput :
      (s : OutputStream) (plain : List ℕ)
      → length plain + 4 ≤ room
      → IsOutput c room s plain
      → (s' : OutputStream) × (write_adler aes_encrypt aes_decrypt adler32 has_key room s ≡ ok s')
        × IsOutput c room s' (plain ++ to_le 4 (sum c room plain))
  unfolding write_adler
  write_adler-IsOutput s plain fits h =
      let (s₁, made, h₁) = get_adler-IsOutput c room s plain h in
      let (s₂, made', h₂) =
        write-IsOutput c room s₁ plain (to_le 4 (sum c room plain))
          (omega (arith, length-to_le 4 (sum c room plain), fits)) h₁ in
      (
        s₂,
        ap
              (λ (m : Result (ℕ × OutputStream)). m >>= λ (r : ℕ × OutputStream).
                write aes_encrypt aes_decrypt adler32 has_key room r.1 (to_le 4 r.0))
              made
            ∙ made',
        h₂,
      )
