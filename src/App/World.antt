-- ===== src/App/World.antt =====
-- What the application's handlers use of the outside: the MySQL client, nlohmann/json, the file
-- system, the clock and the random numbers, over a type `W` of states of all of it. Also
-- application/src/Util.cpp and inc/Util.h, the helpers that need nothing else.
use c_cloud_storage.Prelude.{
  ℕ, zero, suc, ◌+◌, ◌-◌, ◌/◌, ◌%◌, Bool, false, ◌||◌, Option, none, some, List, [], ◌∷◌, ◌++◌,
  length, drop, ltb, ◌==◌, if◌then◌else◌, Bytes, bytes, eqb, get_elem?, is_upper,
}
use c_cloud_storage.Prelude.Number.{ℤ, decimal}

-- A value of nlohmann/json. The members of an object stand in the order that the program gives
-- them in.
mutual
  pub data Json : Type 0 where
    null : Json
    number : ℤ → Json
    boolean : Bool → Json
    text : Bytes → Json
    array : Items → Json
    object : Members → Json

  pub data Items : Type 0 where
    end : Items
    item : Json → Items → Items

  pub data Members : Type 0 where
    no_more : Members
    member : Bytes → Json → Members → Members

-- `MYSQL_ROW`: a cell is a C string or null.
abbrev pub Row : Type 0
Row = List (Option Bytes)

pub record Credentials : Type 0 where
  pub host : Bytes
  pub user : Bytes
  pub password : Bytes
  pub dbname : Bytes
  pub port : ℕ

-- `mysql_select`: `mysql_query` of a SELECT, which leaves the server as it is, and then
-- `mysql_store_result`. `mysql_change`: `mysql_query` of another statement. `none`: it failed, and
-- nothing was changed. `dump` and `parse` are `none` where they throw. `draw n`: a number that
-- `uniform_int_distribution(0, n)` gives. `read_file`: the contents, if the file can be opened;
-- `open_file`: opened for writing, which empties it; `close_file`: what is there once the stream that
-- wrote these bytes is closed. `regex_group`: the first group of the first place that a pattern fits.
-- `scan_hex`: what `sscanf` reads with "%x", and `junk` what a variable holds before it is set.
pub record World {ℓ} (W : Type ℓ) : Type ℓ where
  pub mysql_init : W → Bool
  pub mysql_real_connect : Credentials → W → Bool
  pub mysql_set_character_set : Bytes → W → Bool
  pub mysql_select : Bytes → W → Option (List Row)
  pub mysql_change : Bytes → W → Option W
  pub mysql_real_escape_string : Bytes → Bytes
  pub mysql_insert_id : W → ℕ
  pub dump : Json → Option Bytes
  pub parse : Bytes → Option Json
  pub exists : Bytes → W → Bool
  pub is_regular_file : Bytes → W → Bool
  pub file_size : Bytes → W → ℕ
  pub access : Bytes → W → Bool
  pub read_file : Bytes → W → Option Bytes
  pub open_file : Bytes → W → Option W
  pub close_file : Bytes → Bytes → W → W
  pub unlink : Bytes → W → Option W
  pub now_ms : W → ℕ
  pub draw : ℕ → W → ℕ × W
  pub hash : Bytes → ℕ
  pub regex_group : Bytes → Bytes → Option Bytes
  pub scan_hex : Bytes → Option ℕ
  pub junk : ℕ

abbrev pub letters_and_digits : Bytes
letters_and_digits = bytes "abcdefghijklmnopqrstuvwxyz0123456789"

abbrev pub char_at : Bytes → ℕ → ℕ
char_at s i = elim (get_elem? s i) [ none ↦ 0 | some c ↦ c ]

module _ {ℓ} {W : Type ℓ} (world : World W) where
  unfoldable pub random_string : ℕ → Bytes → W → Bytes × W
  random_string zero charset w = ([], w)
  random_string (suc len) charset w =
      let (i, v) = world.draw (length charset - 1) w in
      let (rest, u) = random_string len charset v in (char_at charset i ∷ rest, u)

  unfoldable pub unique_filename : Bytes → W → Bytes × W
  unfolding random_string decimal
  unique_filename prefix w =
      let (r, v) = random_string 4 letters_and_digits w in
      (prefix ++ (b'_' ∷ (decimal (world.now_ms w) ++ (b'_' ∷ r))), v)

  abbrev hex_digit : ℕ → ℕ
  hex_digit d = if ltb d 10 then b'0' + d else b'a' + (d - 10)

  -- `std::hex`, with fuel above the number.
  unfoldable pub hex_onto : ℕ → ℕ → Bytes → Bytes
  hex_onto zero n acc = acc
  hex_onto (suc fuel) n acc =
      let more = hex_onto fuel (n / 16) (hex_digit (n % 16) ∷ acc) in
      if n / 16 == 0 then hex_digit (n % 16) ∷ acc else more

  -- A hash is a number of 64 bits, of 16 digits at most.
  unfoldable pub pseudo_sha256 : Bytes → Bytes
  unfolding hex_onto
  pseudo_sha256 s = hex_onto 16 (world.hash s) []

  abbrev plus_to_space : ℕ → ℕ
  plus_to_space c = if c == b'+' then b' ' else c

  abbrev new_value : ℕ → Bytes → ℕ
  new_value ii digits = elim (world.scan_hex digits) [ none ↦ ii | some v ↦ v ]

  -- `UrlDecode`: `ii` keeps its value where `sscanf` reads nothing.
  unfoldable pub url_decode_from : ℕ → Bytes → Bytes
  url_decode_from ii [] = []
  url_decode_from ii (c ∷ []) = (if c == b'%' then new_value ii [] % 256 else plus_to_space c) ∷ []
  url_decode_from ii (c ∷ a ∷ []) =
      let plain = url_decode_from ii (a ∷ []) in
      if c == b'%' then (new_value ii (a ∷ []) % 256) ∷ [] else plus_to_space c ∷ plain
  url_decode_from ii (c ∷ a ∷ b ∷ s) =
      let plain = url_decode_from ii (a ∷ b ∷ s) in
      let v = new_value ii (a ∷ b ∷ []) in
      let escaped = url_decode_from v s in
      if c == b'%' then (v % 256) ∷ escaped else plus_to_space c ∷ plain

-- `find_last_of(char)`
unfoldable pub find_last_byte : ℕ → Bytes → Option ℕ
find_last_byte c [] = none
find_last_byte c (a ∷ s) =
    let rest = find_last_byte c s in
    elim rest [ none ↦ if a == c then some 0 else none | some i ↦ some (suc i) ]

-- `::tolower` of each byte
unfoldable pub lower : Bytes → Bytes
lower [] = []
lower (c ∷ s) = (if is_upper c then c + 32 else c) ∷ lower s

abbrev pub one_of : Bytes → List Bytes → Bool
one_of s [] = false
one_of s (t ∷ ts) = eqb s t || one_of s ts

abbrev pub type_of_ext : Bytes → Bytes
type_of_ext ext =
    if one_of ext (bytes "jpg" ∷ (bytes "jpeg" ∷ (bytes "png" ∷ (bytes "gif" ∷ []))))
    then bytes "image"
    else if one_of ext (bytes "mp4" ∷ (bytes "avi" ∷ (bytes "mov" ∷ (bytes "wmv" ∷ []))))
    then bytes "video"
    else if one_of ext (bytes "pdf" ∷ [])
    then bytes "pdf"
    else if one_of ext (bytes "doc" ∷ (bytes "docx" ∷ []))
    then bytes "word"
    else if one_of ext (bytes "xls" ∷ (bytes "xlsx" ∷ []))
    then bytes "excel"
    else if one_of ext (bytes "ppt" ∷ (bytes "pptx" ∷ []))
    then bytes "powerpoint"
    else if one_of ext (bytes "txt" ∷ (bytes "csv" ∷ []))
    then bytes "text"
    else bytes "other"

unfoldable pub file_type_by_ext : Bytes → Bytes
unfolding find_last_byte lower eqb
file_type_by_ext filename = elim (find_last_byte b'.' filename) [
  | none ↦ bytes "unknown"
  | some dot ↦
      if ltb dot (length filename - 1)
      then type_of_ext (lower (drop (dot + 1) filename))
      else bytes "unknown"
]
