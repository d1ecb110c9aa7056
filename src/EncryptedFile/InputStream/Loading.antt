-- ===== src/EncryptedFile/InputStream/Loading.antt =====
-- `Next` on a buffer that is used up.
use zbackup.Base.{
  ℕ, ◌+◌, ◌-◌, ◌≤◌, ◌<◌, ◌≡◌, sym, ap, ap₂, ◌∙◌, List, [], ◌++◌, append_assoc, arith, length, take,
  drop, overwrite, length-take, length-overwrite, take-overwrite, take_at, drop_more,
  take-append-drop-length, drop-take_all,
}
use zbackup.EncryptedFile.InputStream.{InputStream, move_remainder, read_file}

-- The buffer with what was read, for the remainder `kept`.
pub read_file-loaded :
    (s : InputStream) (kept : List ℕ)
    → kept ≡ take s.remainder (drop (s.start + s.fill) s.buffer)
    → length kept ≡ s.remainder
    → s.remainder ≤ length s.buffer
    → let s' = read_file (move_remainder s) in
      (length s'.buffer ≡ length s.buffer)
      × (take s'.fill s'.buffer ++ drop s'.offset s'.file ≡ kept ++ drop s.offset s.file)
      × (s'.fill ≤ length s.buffer)
      × (s'.fill < length s.buffer → drop s'.offset s'.file ≡ [])
unfolding read_file move_remainder
read_file-loaded s kept e size le =
    let moved = overwrite s.buffer 0 (take s.remainder (drop (s.start + s.fill) s.buffer)) in
    let n = length moved - s.remainder in
    let got = take n (drop s.offset s.file) in
    let kept_size : length (take s.remainder (drop (s.start + s.fill) s.buffer)) ≡ s.remainder =
      ap length (sym e) ∙ size in
    let moved_size : length moved ≡ length s.buffer =
      length-overwrite s.buffer 0 _ (omega (arith, kept_size, le)) in
    let got_size : length got ≤ n = omega (arith, length-take n (drop s.offset s.file)) in
    let fits : s.remainder + length got ≤ length moved = omega (arith, got_size, moved_size, le) in
    let front : take s.remainder moved ≡ kept = front_of s.buffer s.remainder _ kept_size ∙ sym e in
    let whole : take (length got + s.remainder) (overwrite moved s.remainder got) ≡ kept ++ got =
      ap (λ (k : ℕ). take k (overwrite moved s.remainder got)) (omega arith)
      ∙ take-overwrite moved s.remainder got fits
      ∙ ap (λ (t : List ℕ). t ++ got) front in
    (
      length-overwrite moved s.remainder got fits ∙ moved_size,
      ap₂ (λ (x y : List ℕ). x ++ y) whole (drop_more s.offset (length got) s.file)
          ∙ append_assoc kept got _
          ∙ ap (λ (t : List ℕ). kept ++ t) (take-append-drop-length n (drop s.offset s.file)),
      omega (arith, got_size, moved_size, le),
      λ lt.
          drop_more s.offset (length got) s.file
          ∙ drop-take_all n (drop s.offset s.file) (omega (arith, lt, moved_size, le)),
    )
  where
    front_of : (xs : List ℕ) (n : ℕ) (ys : List ℕ) → length ys ≡ n → take n (overwrite xs 0 ys) ≡ ys
    front_of xs n ys e = unfold overwrite in take_at n ys _ e
