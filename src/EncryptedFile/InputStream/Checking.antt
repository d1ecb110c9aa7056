-- ===== src/EncryptedFile/InputStream/Checking.antt =====
-- The constructor and the checksum, where the system can read the file.
use zbackup.Base.{
  ℕ, ◌-◌, ◌*◌, ◌%◌, max, ◌≡◌, refl, sym, ap, ap₂, ◌∙◌, Bool, true, false, not, ◌&&◌, ◌||◌, List, [],
  ◌++◌, append-nil, arith, ◌==◌, ==_iff, if_true, if_false, if◌then◌else◌, length, take, drop,
  replicate, length-append, length-replicate, take_at, drop_at, All, subst,
}
use zbackup.Base.Bytes.{to_le, from_le, length-to_le, from_le-to_le, IsByte}
use zbackup.Encryption.{block_size}
use zbackup.EncryptedFile.Setting.{Setting}
use zbackup.EncryptedFile.{ok, err, adler_mismatch, Result, ◌>>=◌, initial, add_bytes}
use zbackup.EncryptedFile.Checksum.{add_bytes-checksum, checksum-nil, checksum-lt}
use zbackup.EncryptedFile.Codec.{IsIv, contents}
use zbackup.EncryptedFile.InputStream.{
  InputStream, open_input, back_up, get_adler, read, check_adler,
}
use zbackup.EncryptedFile.InputStream.Invariant.{window, Place, View, IsInput, sum}
use zbackup.EncryptedFile.InputStream.Decrypting.{length-contents}
use zbackup.EncryptedFile.InputStream.Reading.{
  returned, returned-HasRest, back_up-returned, read-IsInput,
}

iv_given : (b : Bool) (iv : List ℕ) → IsIv b iv → (if b then iv else []) ≡ iv
iv_given true iv p = refl
iv_given false iv p = sym p

module _ (c : Setting) (readable : ℕ → Bool)
    (all_readable : (offset : ℕ) → readable offset ≡ true) where
  open c use {
    aes_encrypt, aes_decrypt, adler32, adler32_lt, adler32_append, has_key, page_size, page_blocks,
    page,
  }

  -- The blocks of the buffer behind the first two.
  abbrev pub buffer_blocks : ℕ
  buffer_blocks = page_blocks - 1

  size_accepted :
      (b : Bool) (iv plain : List ℕ)
      → IsIv b iv
      → let file = contents aes_encrypt aes_decrypt b iv plain in
        (b && (length file == 0 || not (length file % block_size == 0))) ≡ false
  size_accepted false iv plain p = refl
  size_accepted true iv plain p = ground (arith, length-contents c readable iv plain p)

  opened : List ℕ → InputStream
  opened plain = record {
    file = contents aes_encrypt aes_decrypt has_key c.iv plain;
    offset = 0;
    file_pos = 0;
    iv = if has_key then c.iv else [];
    buffer = replicate (max page_size (block_size * 2)) 0;
    start = 0;
    fill = 0;
    remainder = 0;
    backed_up = false;
    adler = initial adler32;
  }

  pub open_input-IsInput :
      (plain : List ℕ)
      → All IsByte plain
      → (s : InputStream) × (open_input aes_encrypt aes_decrypt adler32 has_key readable page_size
            c.iv
            (contents aes_encrypt aes_decrypt has_key c.iv plain)
          ≡ ok s)
        × IsInput c buffer_blocks s [] plain
  unfolding open_input opened
  open_input-IsInput plain bytes =
      let same_iv : (if has_key then c.iv else []) ≡ c.iv = iv_given has_key c.iv c.iv_size in
      (
        opened plain,
        if_false _ _ (size_accepted has_key c.iv plain c.iv_size),
        record {
          later = plain;
          core = record {
            size = length-replicate (max page_size (block_size * 2)) 0 ∙ omega (arith, page);
            within = omega arith;
            vector = subst (IsIv has_key) (sym same_iv) c.iv_size;
            bytes = bytes;
            place = Place.fresh refl refl refl refl (
                ap (λ (v : List ℕ). contents aes_encrypt aes_decrypt has_key v plain)
                  (sym same_iv));
          };
          view =
              View.taken refl refl [] refl (sym (checksum-nil adler32 adler32_lt adler32_append));
        },
      )

  settle :
      (s : InputStream) (past rest : List ℕ) (h : IsInput c buffer_blocks s past rest)
      → View c buffer_blocks s past rest h.later
      → (s' : InputStream) × (get_adler aes_encrypt aes_decrypt adler32 has_key readable s
          ≡ ok (sum c buffer_blocks past, s'))
        × IsInput c buffer_blocks s' past rest
  unfolding get_adler
  settle s past rest h (View.backed b more shown summed) = (
    s,
    ap (λ (m : Result InputStream). m >>= λ (t : InputStream). ok (t.adler, t))
          {x = back_up aes_encrypt aes_decrypt adler32 has_key readable 0 s} {y = ok s}
          (unfold back_up in if_true _ _ b)
        ∙ ap (λ (v : ℕ). ok (v, s)) summed,
    h,
  )
  settle s past rest h (View.taken b same before taken summed) =
      let s' = returned c buffer_blocks readable all_readable 0 s in
      let all : s'.adler ≡ sum c buffer_blocks past =
        ap₂ (add_bytes adler32) summed (
          ap (λ (k : ℕ). take k (drop s.start s.buffer)) {x = s.fill - 0} {y = s.fill}
            (omega arith))
        ∙ add_bytes-checksum adler32 adler32_lt adler32_append before (window s)
        ∙ ap (sum c buffer_blocks) (sym taken) in
      (
        s',
        ap (λ (m : Result InputStream). m >>= λ (t : InputStream). ok (t.adler, t))
              (back_up-returned c buffer_blocks readable all_readable s 0 b (omega arith))
            ∙ ap (λ (v : ℕ). ok (v, s')) all,
        record {
          later = h.later;
          core =
              returned-HasRest c buffer_blocks readable all_readable s h.later 0 (omega arith)
                h.core;
          view = View.taken refl same past (sym (append-nil past)) all;
        },
      )

  -- The checksum of the bytes that were read is the next thing in the stream.
  pub check_adler-IsInput :
      (s : InputStream) (past rest : List ℕ)
      → IsInput c buffer_blocks s past (to_le 4 (sum c buffer_blocks past) ++ rest)
      → (s' : InputStream) × (check_adler aes_encrypt aes_decrypt adler32 has_key readable s
          ≡ ok s')
        × IsInput c buffer_blocks s' (past ++ to_le 4 (sum c buffer_blocks past)) rest
  unfolding check_adler
  check_adler-IsInput s past rest h =
      let value = sum c buffer_blocks past in
      let four : length (to_le 4 value) ≡ 4 = length-to_le 4 value in
      let (s₁, ours, h₁) = settle s past (to_le 4 value ++ rest) h h.view in
      let (s₂, made, h₂) =
        read-IsInput c buffer_blocks readable all_readable 4 s₁ past (to_le 4 value ++ rest)
          (rw length-append (omega (arith, four))) h₁ in
      let bytes : take 4 (to_le 4 value ++ rest) ≡ to_le 4 value =
        take_at 4 (to_le 4 value) rest four in
      let left : drop 4 (to_le 4 value ++ rest) ≡ rest = drop_at 4 (to_le 4 value) rest four in
      let back : from_le (to_le 4 value) ≡ value =
        from_le-to_le 4 value (checksum-lt adler32 adler32_lt adler32_append past) in
      let equal : (value == from_le (take 4 (to_le 4 value ++ rest))) ≡ true =
        (==_iff _ _).1 (sym (ap from_le bytes ∙ back)) in
      (
        s₂,
        ap
              (λ (m : Result (ℕ × InputStream)). m >>= λ (r : ℕ × InputStream).
                read aes_encrypt aes_decrypt adler32 has_key readable 4 r.1
                >>= λ (q : List ℕ × InputStream).
                    if r.0 == from_le q.0 then ok q.1 else err adler_mismatch)
              ours
            ∙ ap
                (λ (m : Result (List ℕ × InputStream)). m >>= λ (q : List ℕ × InputStream).
                  if value == from_le q.0 then ok q.1 else err adler_mismatch)
                made
            ∙ if_true _ _ equal,
        subst (λ (r : List ℕ). IsInput c buffer_blocks s₂ (past ++ to_le 4 value) r) left
            (subst
              (λ (p : List ℕ).
                IsInput c buffer_blocks s₂ (past ++ p) (drop 4 (to_le 4 value ++ rest)))
              bytes h₂),
      )
