-- ===== src/App/Database.antt =====
-- application/src/Db.cpp, inc/Db.h, and what the repositories share: the cells of a row. A text is
-- a C string up to its first zero. The one connection is used by one thread at a time.
pub mod Files
pub mod Shares
pub mod Users
pub mod Sessions
pub mod Outline
pub mod Injection
use c_cloud_storage.Prelude.{
  ℕ, ◌+◌, ◌-◌, ◌^◌, Bool, true, false, ◌&&◌, Option, none, some, List, [], ◌∷◌, ◌++◌, ltb, ◌==◌,
  if◌then◌else◌, Bytes, bytes, get_elem?,
}
use c_cloud_storage.Prelude.Number.{ℤ, pos, negsuc, read_decimal, stoi}
use c_cloud_storage.App.World.{World, Row, Credentials}

-- `connected`: `mysql_` is not null. `outside` is the world around the program.
pub record Db {ℓ} (W : Type ℓ) : Type ℓ where
  pub connected : Bool
  pub credentials : Credentials
  pub outside : W

-- `c_str`
unfoldable pub c_str : Bytes → Bytes
c_str [] = []
c_str (c ∷ s) = let rest = c_str s in if c == 0 then [] else c ∷ rest

module _ {ℓ} {W : Type ℓ} (world : World W) where
  abbrev pub connect_first : Db W → Bool × Db W
  connect_first db =
      if world.mysql_init db.outside && world.mysql_real_connect db.credentials db.outside
      then (world.mysql_set_character_set (bytes "utf8") db.outside, record db { connected = true })
      else (false, db)

  unfoldable pub connect : Db W → Bool × Db W
  connect db = if db.connected then (true, db) else connect_first db

  -- Whether the statement was carried out.
  unfoldable pub exec : Bytes → Db W → Bool × Db W
  unfolding c_str
  exec sql db =
      if db.connected
      then (elim (world.mysql_change (c_str sql) db.outside) [
        | none ↦ (false, db)
        | some outside ↦ (true, record db { outside = outside })
      ])
      else (false, db)

  -- The rows of a SELECT.
  unfoldable pub query : Bytes → Db W → Option (List Row)
  unfolding c_str
  query sql db = if db.connected then world.mysql_select (c_str sql) db.outside else none

  unfoldable pub escape : Db W → Bytes → Bytes
  escape db s = if db.connected then world.mysql_real_escape_string s else s

  unfoldable pub insert_id : Db W → ℕ
  insert_id db = if db.connected then world.mysql_insert_id db.outside else 0

  -- A text in a statement: quotes around the escaped text.
  abbrev pub quoted : Db W → Bytes → Bytes
  quoted db s = b'\'' ∷ (escape db s ++ b'\'' ∷ [])

-- The first row, if there is a result that has one.
abbrev pub first_row : Option (List Row) → Option Row
first_row none = none
first_row (some []) = none
first_row (some (row ∷ _)) = some row

abbrev pub has_rows : Option (List Row) → Bool
has_rows none = false
has_rows (some []) = false
has_rows (some (_ ∷ _)) = true

-- `mysql_fetch_row` until there is none.
abbrev pub rows_of : Option (List Row) → List Row
rows_of none = []
rows_of (some rows) = rows

unfoldable pub cell : ℕ → Row → Option Bytes
cell i row = elim (get_elem? row i) [ none ↦ none | some c ↦ c ]

-- `row[i] ? row[i] : ""`
unfoldable pub text_cell : ℕ → Row → Bytes
unfolding cell
text_cell i row = elim (cell i row) [ none ↦ [] | some s ↦ s ]

-- `std::stoi(row[i])`, which throws on null too.
unfoldable pub int_cell : ℕ → Row → Option ℤ
unfolding cell stoi
int_cell i row = elim (cell i row) [ none ↦ none | some s ↦ stoi s ]

-- `row[i] ? std::stoi(row[i]) : 0`
unfoldable pub int_cell_or_zero : ℕ → Row → Option ℤ
unfolding cell stoi
int_cell_or_zero i row = elim (cell i row) [ none ↦ some (pos 0) | some s ↦ stoi s ]

-- `row[i] ? std::optional<int>(std::stoi(row[i])) : std::nullopt`
unfoldable pub optional_int_cell : ℕ → Row → Option (Option ℤ)
unfolding cell stoi
optional_int_cell i row = elim (cell i row) [
  | none ↦ some none
  | some s ↦ (elim (stoi s) [ none ↦ none | some n ↦ some (some n) ])
]

-- The text of a number as `std::stoull` reads it: spaces, a sign, digits. `none` is an exception.
abbrev pub unsigned_of : ℤ → Option ℕ
unsigned_of (pos n) = if ltb n (2 ^ 64) then some n else none
unsigned_of (negsuc n) = if ltb (n + 1) (2 ^ 64) then some (2 ^ 64 - 1 - n) else none

unfoldable pub stoull : Bytes → Option ℕ
unfolding read_decimal
stoull s = elim (read_decimal s) [ none ↦ none | some n ↦ unsigned_of n ]

-- `row[i] ? std::stoull(row[i]) : 0`
unfoldable pub size_cell : ℕ → Row → Option ℕ
unfolding cell stoull
size_cell i row = elim (cell i row) [ none ↦ some 0 | some s ↦ stoull s ]
