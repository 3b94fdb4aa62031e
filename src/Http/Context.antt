-- ===== src/Http/Context.antt =====
-- http/HttpContext.cpp and inc/HttpContext.h: the parser of requests that arrive in pieces. A
-- method returns the new context; the `consumed` that it sets by reference and its result stand
-- beside it in `Parsed`. Offsets into the data are what is left of it. `context_` is the address
-- of the object that a handler keeps for the connection. `none` of a loop: its fuel ran out.
pub mod Headers
pub mod Body
pub mod Incremental
pub mod Progress
pub mod Idle
pub mod Whole
pub mod Endings
pub mod Limits
pub mod Bytewise
pub mod Fragments
pub mod Blocks
pub mod Lines
pub mod Encoding
mod Tests
use c_cloud_storage.Prelude.{
  ℕ, zero, suc, ◌+◌, ◌-◌, ◌*◌, ◌%◌, ◌^◌, min, Bool, true, false, ◌&&◌, ◌||◌, not, Option, none,
  some, List, [], ◌∷◌, ◌++◌, length, take, drop, ltb, leb, ◌==◌, if◌then◌else◌, Bytes, bytes, eqb,
  find_byte, starts_with, is_empty, get_elem?, is_blank,
}
use c_cloud_storage.Prelude.Dict.{lookup}
use c_cloud_storage.Prelude.Number.{atoll, to_size, strtoul_16}
use c_cloud_storage.Http.Request.{
  HttpRequest, HttpMethod, set_method, set_url, set_version, add_header, get_header, append_body,
}
use c_cloud_storage.Http.Request
use c_cloud_storage.Http.Response.{HttpResponse}

pub data HttpRequestParseState : Type 0 where
  invalid invalid_method invalid_url invalid_version invalid_header : HttpRequestParseState
  start method before_url in_url : HttpRequestParseState
  before_url_param_key url_param_key before_url_param_value url_param_value : HttpRequestParseState
  before_protocol protocol before_version version_split version : HttpRequestParseState
  header header_key header_before_colon header_after_colon header_value : HttpRequestParseState
  when_cr cr_lf cr_lf_cr body complete : HttpRequestParseState

pub record HttpLimits : Type 0 where
  pub max_header_line_len : ℕ
  pub max_header_bytes : ℕ
  pub max_body_bytes : ℕ

abbrev pub default_limits : HttpLimits
default_limits = record {
  max_header_line_len = 8192;
  max_header_bytes = 16384;
  max_body_bytes = 104857600;
}

pub data ChunkState : Type 0 where
  size size_cr in_data data_cr data_lf trailers last_cr : ChunkState

pub record HttpContext : Type 0 where
  pub request : HttpRequest
  pub state : HttpRequestParseState
  pub context : Option ℕ
  pub deferred_response : Option HttpResponse
  pub headers_complete : Bool
  pub body_complete : Bool
  pub chunked : Bool
  pub content_length : ℕ
  pub received_body_bytes : ℕ
  pub header_bytes : ℕ
  pub limits : HttpLimits
  pub chunk_state : ChunkState
  pub current_chunk_size : ℕ
  pub chunk_size_buf : Bytes

abbrev pub create : HttpContext
create = record {
  request = Request.create;
  state = start;
  context = none;
  deferred_response = none;
  headers_complete = false;
  body_complete = false;
  chunked = false;
  content_length = 0;
  received_body_bytes = 0;
  header_bytes = 0;
  limits = default_limits;
  chunk_state = size;
  current_chunk_size = 0;
  chunk_size_buf = [];
}

unfoldable pub reset_context_status : HttpContext → HttpContext
reset_context_status c = record c {
  request = Request.create;
  state = start;
  deferred_response = none;
  headers_complete = false;
  body_complete = false;
  chunked = false;
  content_length = 0;
  received_body_bytes = 0;
  chunk_state = size;
  current_chunk_size = 0;
  chunk_size_buf = [];
}

abbrev pub is_complete : HttpRequestParseState → Bool
is_complete complete = true
is_complete _ = false

abbrev pub get_complete_request : HttpContext → Bool
get_complete_request c = is_complete c.state

abbrev pub store_deferred_response : HttpResponse → HttpContext → HttpContext
store_deferred_response r c = record c { deferred_response = some r }

abbrev pub clear_deferred_response : HttpContext → HttpContext
clear_deferred_response c = record c { deferred_response = none }

-- `size_t` subtraction, as in `RemainingContentLength`
abbrev pub sub_size : ℕ → ℕ → ℕ
sub_size a b = (a + 2 ^ 64 - b) % 2 ^ 64

pub record Parsed : Type 0 where
  pub ctx : HttpContext
  pub consumed : ℕ
  pub ok : Bool
