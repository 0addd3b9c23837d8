-- ===== src/Worker/Log/Parts.antt =====
-- What `Log` answers, as a part of the file.
use termite.Base.{
  ℕ, zero, suc, ◌+◌, ◌-◌, ◌≡◌, ◌<◌, ◌≤◌, ◌^◌, refl, sym, ap, ◌∙◌, ◌⊎◌, inl, inr, length-drop,
  take_of_length-le, Bytes, true, [], ◌∷◌, some, none, length, take, drop, ltb, nat_eq,
  if◌then◌else◌, ℤ, pos, ◌+ℤ◌, ◌-ℤ◌, ltb_ℤ, arith, Bool-cases,
}
use termite.Worker.Log.{
  LogRequest, LogResponse, bad_seek, read, seek_set, seek_end, add64, clip_end, clip_set, clip,
  seek, read_part, log,
}

drop_of_length-le : (k : ℕ) (s : Bytes) → length s ≤ k → drop k s ≡ []
drop_of_length-le zero [] h = refl
drop_of_length-le zero (c ∷ s) h = absurd (omega arith)
drop_of_length-le (suc k) [] h = refl
drop_of_length-le (suc k) (c ∷ s) h = drop_of_length-le k s (omega arith)

-- A part within the file.
read_part-within :
    (content : Bytes) (at m : ℕ)
    → at + m ≤ length content
    → read_part content at (pos m) ≡ read (take m (drop at content))
unfolding read_part
read_part-within content at zero h = refl
read_part-within content at (suc m) h = ground arith

-- What is clipped at the end of the file is no part of it.
take-clipped :
    (content : Bytes) (at m n : ℕ)
    → (m ≡ n) ⊎ ((m ≤ n) × (length content ≤ at + m))
    → take m (drop at content) ≡ take n (drop at content)
take-clipped content at m n (inl e) = ap (λ k. take k (drop at content)) e
take-clipped content at m n (inr (le, short)) =
    let few : length (drop at content) ≤ m = omega (arith, length-drop at content) in
    take_of_length-le m (drop at content) few
    ∙ sym (take_of_length-le n (drop at content) (omega arith))

add64-pos : (a b : ℕ) → a < 2 ^ 62 → b < 2 ^ 62 → add64 (pos a) (pos b) ≡ pos (a + b)
unfolding add64 ◌+ℤ◌ ◌-ℤ◌
add64-pos a b h k = ground arith

seek-set : (l at : ℕ) → seek (pos l) seek_set (pos at) ≡ some at
unfolding seek
seek-set l at = ground arith

seek-end : (l at : ℕ) → at ≤ l → seek (pos l) seek_end (pos at -ℤ pos l) ≡ some at
unfolding seek ◌+ℤ◌ ◌-ℤ◌
seek-end l at h = ground arith

-- The offset of `clip_end`
clipped_off :
    (l o : ℕ)
    → (if ltb_ℤ (pos 0 -ℤ pos o) (pos 0 -ℤ pos l) then pos 0 -ℤ pos l else pos 0 -ℤ pos o)
      ≡ pos (l - o) -ℤ pos l
unfolding ◌-ℤ◌
clipped_off l o = ground arith

add64-end :
    (l at n : ℕ)
    → at ≤ l
    → l < 2 ^ 62
    → n < 2 ^ 62
    → add64 (pos at -ℤ pos l) (pos n) ≡ pos (at + n) -ℤ pos l
unfolding add64 ◌+ℤ◌ ◌-ℤ◌
add64-end l at n h j k = ground arith

-- The size of `clip_end`
clipped_size :
    (l at n : ℕ)
    → at ≤ l
    → (if ltb_ℤ (pos 0) (pos (at + n) -ℤ pos l) then pos 0 -ℤ (pos at -ℤ pos l) else pos n)
      ≡ pos (if ltb l (at + n) then l - at else n)
unfolding ◌-ℤ◌
clipped_size l at n h = ground arith

module _ (content : Bytes) (o n : ℕ) where
  abbrev size : ℤ
  size = pos (length content)

  abbrev pub from_start : LogRequest
  from_start = record { whence = seek_set; off = pos o; size = pos n }

  -- Where the part begins, and how long it is.
  clip_set-eq :
      length content < 2 ^ 62
      → o < 2 ^ 62
      → n < 2 ^ 62
      → (at m : ℕ) × (clip_set size from_start
          ≡ record { whence = seek_set; off = pos at; size = pos m })
        × (at + m ≤ length content)
        × (take m (drop at content) ≡ take n (drop o content))
  unfolding clip_set ◌-ℤ◌
  clip_set-eq a b c = elim (Bool-cases (ltb (length content) o)) [
    | inl past ↦ (
      length content,
      0,
      ground (arith, past, add64-pos (length content) n a c),
      omega arith,
      take-past past,
    )
    | inr within ↦ elim (Bool-cases (ltb (length content) (o + n))) [
      | inl more ↦ (
        o,
        length content - o,
        ground (arith, within, more, add64-pos o n b c),
        ground (arith, within),
        take-clipped content o (length content - o) n
            (inr (ground (arith, more), ground (arith, within))),
      )
      | inr all ↦ (o, n, ground (arith, within, all, add64-pos o n b c), ground (arith, all), refl)
    ]
  ]
    where
      take-past : ltb (length content) o ≡ true → [] ≡ take n (drop o content)
      take-past past =
          rw (drop_of_length-le o content (ground (arith, past)))
            (sym (take_of_length-le n [] (omega arith)))

  -- The answer to a request that was clipped.
  abbrev answer : LogRequest → LogResponse
  answer r = elim (seek size r.whence r.off) [
    | none ↦ bad_seek
    | some at ↦ read_part content at r.size
  ]

  log-set :
      length content < 2 ^ 62
      → o < 2 ^ 62
      → n < 2 ^ 62
      → log (some content) from_start ≡ read (take n (drop o content))
  unfolding log clip
  log-set a b c =
      let (at, m, e, within, same) = clip_set-eq a b c in
      ap answer e
      ∙ rw (answer, seek-set (length content) at)
          (read_part-within content at m within ∙ ap read same)

  abbrev pub from_end : LogRequest
  from_end = record { whence = seek_end; off = pos 0 -ℤ pos o; size = pos n }

  clip_end-eq :
      length content < 2 ^ 62
      → o < 2 ^ 62
      → n < 2 ^ 62
      → (at m : ℕ) × (clip_end size from_end
          ≡ record { whence = seek_end; off = pos at -ℤ size; size = pos m })
        × (at + m ≤ length content)
        × (take m (drop at content) ≡ take n (drop (length content - o) content))
  unfolding clip_end
  clip_end-eq a b c =
      let at = length content - o in
      let below : at ≤ length content = omega arith in
      (
        at,
        (if ltb (length content) (at + n) then length content - at else n),
        rw
            (
              clipped_off (length content) o,
              add64-end (length content) at n below a c,
              clipped_size (length content) at n below,
            )
            refl,
        ground arith,
        elim (Bool-cases (ltb (length content) (at + n))) [
          | inl more ↦ rw more (
              take-clipped content at (length content - at) n
                (inr (ground (arith, more), omega arith)))
          | inr all ↦ rw all refl
        ],
      )

  log-end :
      length content < 2 ^ 62
      → o < 2 ^ 62
      → n < 2 ^ 62
      → log (some content) from_end ≡ read (take n (drop (length content - o) content))
  unfolding log clip
  log-end a b c =
      let (at, m, e, within, same) = clip_end-eq a b c in
      ap answer e
      ∙ rw (answer, seek-end (length content) at (omega arith))
          (read_part-within content at m within ∙ ap read same)

  -- A part of the log file, `n` bytes from the byte `o` on, or from the `o` bytes before its end on, is
  -- answered as far as the file has it, whatever `o` and `n` are: past the end it is empty, and a start before
  -- the beginning is the beginning. The numbers and the length of the file are less than 2 ^ 62.
  pub log-take :
      length content < 2 ^ 62
      → o < 2 ^ 62
      → n < 2 ^ 62
      → (log (some content) from_start ≡ read (take n (drop o content)))
        × (log (some content) from_end ≡ read (take n (drop (length content - o) content)))
  log-take a b c = (log-set a b c, log-end a b c)
