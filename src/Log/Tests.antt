-- ===== src/Log/Tests.antt =====
-- The bounds of a log line, at a concrete line.
use c_cloud_storage.Prelude.{some, List, [], ◌∷◌, bytes, arith}
use c_cloud_storage.Prelude.Number.{pos, negsuc}
use c_cloud_storage.Log.{Item, integer, c_string, string, write_all}
use c_cloud_storage.Log.Bounds.{StaysWithin, length-write_all-le}

abbrev line : List Item
line =
    string (bytes "fd ")
    ∷ (integer (pos 7) ∷ (c_string (some (bytes " closed ")) ∷ (integer (negsuc 0) ∷ [])))

length-write_all-le_example : StaysWithin (write_all line (record { text = bytes "[1] " }))
length-write_all-le_example =
    length-write_all-le line (record { text = bytes "[1] " })
      (omega arith, (omega arith, (omega arith, (omega arith, tt)))) (omega arith)
