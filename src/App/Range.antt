-- ===== src/App/Range.antt =====
-- application/src/inc/RangeUtil.h: the Range header of a download. `std::regex_search` for
-- "bytes=(\d+)-(\d*)" is the search for the first place that the pattern fits; a run of digits is
-- taken whole, since no digit can stand for the dash behind it.
pub mod Bounds
pub mod Format
mod Tests
use c_cloud_storage.Prelude.{
  ℕ, suc, ◌-◌, ◌^◌, Bool, true, false, not, ◌&&◌, ◌||◌, Option, none, some, List, [], ◌∷◌, ◌++◌,
  drop, ltb, leb, ◌==◌, if◌then◌else◌, Bytes, bytes, is_digit, is_empty, starts_with,
}
use c_cloud_storage.Prelude.Number.{dec_value, parse_digits, size_max}

pub record RangeSpec : Type 0 where
  pub is_range : Bool
  pub start : ℕ
  pub end : ℕ
  pub satisfiable : Bool

abbrev pub no_range : RangeSpec
no_range = record { is_range = false; start = 0; end = 0; satisfiable = true }

abbrev pub unsatisfiable : RangeSpec
unsatisfiable = record { is_range = true; start = 0; end = 0; satisfiable = false }

-- The digits at the front, and what follows them.
unfoldable pub span_digits : Bytes → Bytes × Bytes
span_digits [] = ([], [])
span_digits (c ∷ s) =
    let (ds, rest) = span_digits s in if is_digit c then (c ∷ ds, rest) else ([], c ∷ s)

abbrev pub after_dash : Bytes → Bytes → Option (Bytes × Bytes)
after_dash ds [] = none
after_dash ds (c ∷ s) =
    if c == b'-' && not (is_empty ds) then some (ds, (span_digits s).0) else none

-- The two groups of the pattern at the front of a text.
unfoldable pub match_here : Bytes → Option (Bytes × Bytes)
unfolding starts_with span_digits
match_here s =
    if starts_with (bytes "bytes=") s
    then after_dash (span_digits (drop 6 s)).0 (span_digits (drop 6 s)).1
    else none

unfoldable pub regex_search : Bytes → Option (Bytes × Bytes)
unfolding match_here
regex_search [] = match_here []
regex_search (c ∷ s) =
    let rest = regex_search s in elim (match_here (c ∷ s)) [ none ↦ rest | some m ↦ some m ]

-- `std::stoull` of digits; `none` is an exception.
unfoldable pub stoull : Bytes → Option ℕ
unfolding parse_digits
stoull s =
    let n = parse_digits dec_value 10 0 s in if is_empty s || ltb size_max n then none else some n

-- The end of the range as the header has it, or the last byte of the file.
abbrev pub end_of : Bytes → ℕ → Option ℕ
end_of text file_size = if is_empty text then some (file_size - 1) else stoull text

-- What follows the reading of the numbers.
unfoldable pub clip : ℕ → ℕ → ℕ → RangeSpec
clip start end file_size =
    if leb file_size start
    then unsatisfiable
    else (let last = if leb file_size end then file_size - 1 else end in
        if ltb last start
        then unsatisfiable
        else record { is_range = true; start = start; end = last; satisfiable = true })

abbrev pub read_range : Bytes × Bytes → ℕ → RangeSpec
read_range (first, second) file_size = elim (stoull first) [
  | none ↦ no_range
  | some start ↦ elim (end_of second file_size) [
    | none ↦ no_range
    | some end ↦ clip start end file_size
  ]
]

unfoldable pub parse : Bytes → ℕ → RangeSpec
unfolding regex_search stoull clip
parse header file_size =
    if is_empty header || file_size == 0
    then no_range
    else elim (regex_search header) [ none ↦ no_range | some m ↦ read_range m file_size ]
