-- ===== src/Tcp/Buffer/Tests.antt =====
-- Runs of the buffer, and its theorems at concrete inputs.
use c_cloud_storage.Prelude.{◌≡◌, refl, some, List, [], ◌∷◌, replicate, bytes, arith}
use c_cloud_storage.Tcp.Buffer.{
  Buffer, write_at_end, create, append, find_crlf, find_eol, peek_all_as_string, overwrite, slice,
  ◌>>=◌,
}
use c_cloud_storage.Tcp.Buffer.Queue.{
  Op, put, fill, get, get_all, run, queue, run_refines, create-IsValid,
}

abbrev calls : List Op
calls = put (bytes "GET ") ∷ fill (bytes "/ HTTP") ∷ get 4 ∷ put (bytes "!") ∷ get_all ∷ []

runs : run create calls ≡ some (bytes "GET " ∷ bytes "/ HTTP!" ∷ [])
unfolding run create slice overwrite write_at_end
runs = refl

finds :
    (append create (bytes "ab\r\ncd\n") >>= find_crlf ≡ some 2)
    × (append create (bytes "ab\r\ncd\n") >>= find_eol ≡ some 3)
unfolding append create slice overwrite write_at_end find_crlf find_eol
finds = (refl, refl)

run_refines_example : run create calls ≡ queue (peek_all_as_string create) calls
run_refines_example = run_refines calls create-IsValid (unfold create in omega arith)

abbrev full : Buffer
full = record { buf = replicate 32 7; read_index = 8; write_index = 32 }
