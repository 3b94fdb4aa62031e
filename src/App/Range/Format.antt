-- ===== src/App/Range/Format.antt =====
-- A header that was written for a range asks for the bytes that the range names.
use c_cloud_storage.Prelude.{
  ℕ, ◌^◌, ◌<◌, ◌-◌, ◌≡◌, refl, ◌∙◌, true, ◌&&◌, Option, none, some, [], ◌∷◌, ◌++◌, Bytes, bytes,
  arith, starts_with, if◌then◌else◌, ltb, leb, min,
}
use c_cloud_storage.Prelude.Number.{decimal}
use c_cloud_storage.Prelude.Decimal.{
  AreDigits, decimal-AreDigits, decimal_nonempty, parse_digits-decimal,
}
use c_cloud_storage.App.Range.{
  RangeSpec, no_range, unsatisfiable, clip, stoull, end_of, read_range, regex_search, match_here,
  span_digits, parse,
}

abbrev pub end_text : Option ℕ → Bytes
end_text none = []
end_text (some b) = decimal b

abbrev pub range_text : ℕ → Option ℕ → Bytes
range_text a b = bytes "bytes=" ++ (decimal a ++ b'-' ∷ end_text b)

abbrev pub or_last : ℕ → Option ℕ → ℕ
or_last n none = n - 1
or_last n (some b) = b

-- The bytes from `a` to `b`, or to the last byte if the file ends before.
abbrev pub wanted : ℕ → ℕ → ℕ → RangeSpec
wanted a b n =
    if ltb a n && leb a b
    then record { is_range = true; start = a; end = min b (n - 1); satisfiable = true }
    else unsatisfiable

clip-wanted : (a b n : ℕ) → 0 < n → clip a b n ≡ wanted a b n
unfolding clip
clip-wanted a b n h = ground arith

span_digits_dash : (s t : Bytes) → AreDigits s → span_digits (s ++ b'-' ∷ t) ≡ (s, b'-' ∷ t)
unfolding span_digits
span_digits_dash [] t h = refl
span_digits_dash (c ∷ s) t h = ground (arith, span_digits_dash s t h.1)

span_digits_all : (s : Bytes) → AreDigits s → span_digits s ≡ (s, [])
unfolding span_digits
span_digits_all [] h = refl
span_digits_all (c ∷ s) h = ground (arith, span_digits_all s h.1)

end_text-AreDigits : (b : Option ℕ) → AreDigits (end_text b)
end_text-AreDigits none = tt
end_text-AreDigits (some b) = decimal-AreDigits b

stoull-decimal : (a : ℕ) → a < 2 ^ 64 → stoull (decimal a) ≡ some a
unfolding stoull
stoull-decimal a h = ground (arith, decimal_nonempty a, parse_digits-decimal a)

match_here-range_text :
    (a : ℕ) (b : Option ℕ) → match_here (range_text a b) ≡ some (decimal a, end_text b)
unfolding match_here starts_with
match_here-range_text a b =
    rw (span_digits_dash (decimal a) (end_text b) (decimal-AreDigits a))
      (ground (arith, decimal_nonempty a, span_digits_all (end_text b) (end_text-AreDigits b)))

regex_search_front :
    (s : Bytes) (m : Bytes × Bytes) → match_here s ≡ some m → regex_search s ≡ some m
unfolding regex_search
regex_search_front [] m h = h
regex_search_front (c ∷ s) m h = ground (arith, h)

regex_search-range_text :
    (a : ℕ) (b : Option ℕ) → regex_search (range_text a b) ≡ some (decimal a, end_text b)
regex_search-range_text a b = regex_search_front (range_text a b) _ (match_here-range_text a b)

end_of-end_text :
    (b : Option ℕ) (n : ℕ) → or_last n b < 2 ^ 64 → end_of (end_text b) n ≡ some (or_last n b)
end_of-end_text none n h = refl
end_of-end_text (some b) n h = ground (arith, decimal_nonempty b, stoull-decimal b)

read_numbers :
    {a b : ℕ} (n : ℕ) (first second : Option ℕ)
    → first ≡ some a
    → second ≡ some b
    → (elim first [
      | none ↦ no_range
      | some start ↦ elim second [ none ↦ no_range | some end ↦ clip start end n ]
    ])
      ≡ clip a b n
read_numbers n (some a) (some b) e f = ground (arith, e, f)
read_numbers n none second e f = cc
read_numbers n (some a) none e f = cc

read_range-range_text :
    (a n : ℕ) (b : Option ℕ)
    → a < 2 ^ 64
    → or_last n b < 2 ^ 64
    → 0 < n
    → read_range (decimal a, end_text b) n ≡ wanted a (or_last n b) n
read_range-range_text a n b h k ne =
    read_numbers n (stoull (decimal a)) (end_of (end_text b) n) (stoull-decimal a h)
      (end_of-end_text b n k)
    ∙ clip-wanted a (or_last n b) n ne

-- For the headers `bytes=a-b` and `bytes=a-`, with numbers of 64 bits and a file that is not
-- empty, `parse` gives the range from `a` to `b`, cut off at the end of the file, if `a` lies in
-- the file and not behind `b`, and else a range that cannot be satisfied. Without `b`, the range
-- ends at the last byte.
pub parse-range_text :
    (a n : ℕ) (b : Option ℕ)
    → a < 2 ^ 64
    → or_last n b < 2 ^ 64
    → 0 < n
    → parse (range_text a b) n ≡ wanted a (or_last n b) n
unfolding parse
parse-range_text a n b h k ne =
    ground (arith, regex_search-range_text a b, read_range-range_text a n b h k ne)
