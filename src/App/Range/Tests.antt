-- ===== src/App/Range/Tests.antt =====
-- Runs of the reader of ranges, and its theorems at concrete inputs.
use c_cloud_storage.Prelude.{◌≡◌, ◌≤◌, ◌<◌, refl, some, bytes, arith, true}
use c_cloud_storage.App.Range.{parse, no_range, unsatisfiable}
use c_cloud_storage.App.Range.Bounds.{parse_within}
use c_cloud_storage.App.Range.Format.{range_text, wanted, parse-range_text}

ranges :
    (parse (bytes "x bytes=2-5") 4
      ≡ record { is_range = true; start = 2; end = 3; satisfiable = true })
    × (parse (bytes "bytes=-5") 4 ≡ no_range)
    × (parse (bytes "bytes=4-") 4 ≡ unsatisfiable)
unfolding parse
ranges = (refl, refl, refl)

parse_within_example :
    ((parse (bytes "bytes=2-9") 4).start ≤ (parse (bytes "bytes=2-9") 4).end)
    × ((parse (bytes "bytes=2-9") 4).end < 4)
parse_within_example =
    parse_within (bytes "bytes=2-9") 4 (unfold parse in refl) (unfold parse in refl)

parse-range_text_example : parse (range_text 10 (some 99)) 50 ≡ wanted 10 99 50
parse-range_text_example =
    parse-range_text 10 50 (some 99) (omega arith) (omega arith) (omega arith)
