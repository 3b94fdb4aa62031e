-- ===== src/Http/Response/Status.antt =====
-- The members of `HttpStatusCode` in http/inc/HttpResponse.h, by their numbers.
use c_cloud_storage.Prelude.{ℕ}

abbrev pub unknown : ℕ
unknown = 0

abbrev pub ok : ℕ
ok = 200

abbrev pub partial_content : ℕ
partial_content = 206

abbrev pub bad_request : ℕ
bad_request = 400

abbrev pub unauthorized : ℕ
unauthorized = 401

abbrev pub forbidden : ℕ
forbidden = 403

abbrev pub not_found : ℕ
not_found = 404

abbrev pub range_not_satisfiable : ℕ
range_not_satisfiable = 416

abbrev pub internal_server_error : ℕ
internal_server_error = 500

abbrev pub continue_on : ℕ
continue_on = 100

abbrev pub k301k : ℕ
k301k = 301

abbrev pub k302k : ℕ
k302k = 302
