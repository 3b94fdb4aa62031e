-- ===== src/App/Range/Bounds.antt =====
-- A range that is to be served lies within the file.
use c_cloud_storage.Prelude.{
  ℕ, ◌≤◌, ◌<◌, ◌≡◌, true, Option, none, some, Bytes, arith, is_empty, Bool-cases, inl, inr, ◌==◌,
  ◌||◌,
}
use c_cloud_storage.App.Range.{
  RangeSpec, no_range, clip, stoull, end_of, read_range, regex_search, parse,
}

abbrev IsWithin : ℕ → RangeSpec → Type 0
IsWithin file_size spec =
    spec.is_range ≡ true
    → spec.satisfiable ≡ true
    → (spec.start ≤ spec.end) × (spec.end < file_size)

clip-IsWithin : (a b n : ℕ) → IsWithin n (clip a b n)
unfolding clip
clip-IsWithin a b n = ground arith

range_of-IsWithin :
    (first second : Option ℕ) (n : ℕ)
    → IsWithin n (elim first [
      | none ↦ no_range
      | some a ↦ elim second [ none ↦ no_range | some b ↦ clip a b n ]
    ])
range_of-IsWithin none second n = cc
range_of-IsWithin (some a) none n = cc
range_of-IsWithin (some a) (some b) n = clip-IsWithin a b n

search-IsWithin :
    (m : Option (Bytes × Bytes)) (n : ℕ)
    → IsWithin n (elim m [ none ↦ no_range | some g ↦ read_range g n ])
search-IsWithin none n = cc
search-IsWithin (some (first, second)) n = range_of-IsWithin (stoull first) (end_of second n) n

-- Whatever the header says, a range that `parse` finds satisfiable begins before it ends and ends
-- within the file.
pub parse_within :
    (header : Bytes) (file_size : ℕ)
    → (parse header file_size).is_range ≡ true
    → (parse header file_size).satisfiable ≡ true
    → ((parse header file_size).start ≤ (parse header file_size).end)
      × ((parse header file_size).end < file_size)
parse_within header n = elim (Bool-cases (is_empty header || n == 0)) [
  | inl e ↦ unfold parse in ground (arith, e)
  | inr e ↦ unfold parse in ground (arith, e, search-IsWithin (regex_search header) n)
]
