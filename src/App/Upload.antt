-- ===== src/App/Upload.antt =====
-- application/src/FileUploadContext.cpp, inc/FileUploadContext.h. `file` is what the stream has
-- written, `none` if the file could not be opened; opening it empties it.
use c_cloud_storage.Prelude.{
  ℕ, ◌+◌, ◌%◌, ◌^◌, Bool, if◌then◌else◌, Option, none, some, List, [], ◌∷◌, ◌++◌, length, Bytes,
}

pub data State : Type 0 where
  expect_headers expect_content expect_boundary complete : State

pub record FileUploadContext : Type 0 where
  pub filename : Bytes
  pub original_filename : Bytes
  pub file : Option Bytes
  pub total_bytes : ℕ
  pub state : State
  pub boundary : Bytes

abbrev pub open_file : Bool → Option Bytes
open_file opens = if opens then some [] else none

-- `opens` says whether the file can be opened.
abbrev pub create : Bool → Bytes → Bytes → FileUploadContext
create opens filename original = record {
  filename = filename;
  original_filename = original;
  file = open_file opens;
  total_bytes = 0;
  state = expect_headers;
  boundary = [];
}

unfoldable pub write_data : Bytes → FileUploadContext → FileUploadContext
write_data part c = elim c.file [
  | none ↦ c
  | some written ↦ record c {
    file = some (written ++ part);
    total_bytes = (c.total_bytes + length part) % 2 ^ 64;
  }
]

abbrev pub set_boundary : Bytes → FileUploadContext → FileUploadContext
set_boundary b c = record c { boundary = b }

abbrev pub set_state : State → FileUploadContext → FileUploadContext
set_state s c = record c { state = s }

unfoldable pub write_all : List Bytes → FileUploadContext → FileUploadContext
unfolding write_data
write_all [] c = c
write_all (part ∷ parts) c = write_all parts (write_data part c)
