-- ===== src/App/Tests.antt =====
-- The theorems on uploads, downloads and file names, at concrete inputs.
use c_cloud_storage.Prelude.{
  ℕ, true, false, ◌≡◌, refl, ap, ◌∙◌, Option, none, some, List, [], ◌∷◌, ◌++◌, if◌then◌else◌, Bytes,
  bytes, eqb, arith,
}
use c_cloud_storage.Prelude.Dict.{Dict, insert}
use c_cloud_storage.Http.Request
use c_cloud_storage.Http.Request.{HttpRequest, get, set_path_params}
use c_cloud_storage.App.Routes.{Regex, ReadsLiterals, literal, add_route_exact, dispatch}
use c_cloud_storage.App.Routes.Exact.{dispatch-add_route_exact}
use c_cloud_storage.App.Upload
use c_cloud_storage.App.Upload.{write_all}
use c_cloud_storage.App.Download.{read_chunks}
use c_cloud_storage.App.Transfer.{intact, downloaded, read_chunks_lem, write_all-downloaded}
use c_cloud_storage.App.Filenames.{
  Json, FilenameMap, create, add, load, save, get_original, get_original-add,
}

read_chunks_lem_example :
    read_chunks 10 (intact (bytes "abcdef") 2 (bytes "f")) ≡ some (bytes "cdef")
read_chunks_lem_example =
    read_chunks_lem 10 (bytes "abcdef") 2 (bytes "f") (omega arith) (omega arith) (omega arith)

abbrev pieces : List Bytes
pieces = bytes "ab" ∷ bytes "" ∷ bytes "cdef" ∷ []

write_all-downloaded_example :
    (s : Bytes) × ((write_all pieces (Upload.create true (bytes "x") (bytes "f"))).file ≡ some s)
    × (downloaded 3 s (bytes "f") ≡ some (bytes "def"))
write_all-downloaded_example =
    write_all-downloaded pieces (bytes "x") (bytes "f") 3 (omega arith) (omega arith)

-- A library that can write the maps of one entry: the key and the value with a line feed between.
abbrev written : Dict Bytes → Option Bytes
written ((k, v) ∷ []) = some (k ++ 10 ∷ v)
written _ = none

abbrev digits : Json
digits = record {
  dump = written;
  parse = λ t. if eqb t (48 ∷ 10 ∷ 49 ∷ []) then some ((bytes "0", bytes "1") ∷ []) else none;
}

abbrev none_yet : FilenameMap
none_yet = create none

get_original-add_example :
    get_original digits (bytes "0") (record { mapping = []; file = some (48 ∷ 10 ∷ 49 ∷ []) })
    ≡ bytes "1"
unfolding add load save insert eqb
get_original-add_example =
    get_original-add digits (bytes "0") (bytes "0") (bytes "1") (48 ∷ 10 ∷ 49 ∷ []) none_yet
      (record { mapping = []; file = some (48 ∷ 10 ∷ 49 ∷ []) }) refl refl refl

-- A library that knows anchored literals only.
abbrev without_last : Bytes → Bytes
without_last [] = []
without_last (c ∷ []) = []
without_last (c ∷ (d ∷ s)) = c ∷ without_last (d ∷ s)

without_last_lem : (p : Bytes) (c : ℕ) → without_last (p ++ c ∷ []) ≡ p
without_last_lem [] c = refl
without_last_lem (a ∷ []) c = refl
without_last_lem (a ∷ (b ∷ s)) c = ap (◌∷◌ a) (without_last_lem (b ∷ s) c)

abbrev match_literal : Option Bytes → Bytes → Option (List Bytes)
match_literal none t = none
match_literal (some l) t = if eqb l t then some (t ∷ []) else none

abbrev literals : Regex
literals [] t = none
literals (_ ∷ p) t = match_literal (literal false (without_last p)) t

literals-ReadsLiterals : ReadsLiterals literals
literals-ReadsLiterals p l t e =
    ap (λ q. match_literal (literal false q) t) (without_last_lem p b'$')
    ∙ ap (λ o. match_literal o t) e

abbrev favicon : HttpRequest
favicon = record Request.create { method = get; url = bytes "/favicon.ico" }

dispatch-add_route_exact_example :
    dispatch literals (add_route_exact (bytes "/favicon.ico") get true []) favicon
    ≡ some (true, set_path_params [] favicon)
unfolding eqb dispatch
dispatch-add_route_exact_example =
    dispatch-add_route_exact literals (bytes "/favicon.ico") get true [] favicon
      literals-ReadsLiterals
