-- ===== src/App/Handlers/Fields.antt =====
-- What the handlers of application/src/ShareHandler.cpp and AuthHandler.cpp read of the JSON body of a
-- request, and their blocks of `try` and `catch`. A number that is not an integer counts as what the
-- program cuts it to.
use c_cloud_storage.Prelude.{
  ℕ, ◌+◌, ◌-◌, ◌%◌, ◌^◌, Bool, true, false, Option, none, some, if◌then◌else◌, Bytes, eqb, [],
}
use c_cloud_storage.Prelude.Number.{ℤ, pos, negsuc}
use c_cloud_storage.Http.Response.{to_int}
use c_cloud_storage.App.World.{
  World, Json, Members, null, number, boolean, text, object, no_more, member,
}
use c_cloud_storage.App.Exchange.{Exchange, Answer, refuse, send_error, send_json}

unfoldable pub find_member : Bytes → Members → Option Json
unfolding eqb
find_member key no_more = none
find_member key (member k v rest) =
    let later = find_member key rest in if eqb k key then some v else later

-- `requestData["key"]`: null for a key that is not there. `none` is an exception.
unfoldable pub at_key : Bytes → Json → Option Json
unfolding find_member
at_key key null = some null
at_key key (object ms) = elim (find_member key ms) [ none ↦ some null | some v ↦ some v ]
at_key key _ = none

abbrev pub to_text : Json → Option Bytes
to_text (text s) = some s
to_text _ = none

-- `static_cast<int>` of a 64-bit number
abbrev pub int_of : ℤ → ℤ
int_of (pos n) = to_int n
int_of (negsuc n) = to_int (2 ^ 32 - (n + 1) % 2 ^ 32)

abbrev pub to_integer : Json → Option ℤ
to_integer (number n) = some (int_of n)
to_integer (boolean true) = some (pos 1)
to_integer (boolean false) = some (pos 0)
to_integer _ = none

unfoldable pub text_at : Bytes → Json → Option Bytes
unfolding at_key
text_at key j = elim (at_key key j) [ none ↦ none | some v ↦ to_text v ]

unfoldable pub int_at : Bytes → Json → Option ℤ
unfolding at_key
int_at key j = elim (at_key key j) [ none ↦ none | some v ↦ to_integer v ]

-- `value(key, "")`
unfoldable pub text_or_empty : Bytes → Json → Option Bytes
unfolding find_member
text_or_empty key (object ms) = elim (find_member key ms) [ none ↦ some [] | some v ↦ to_text v ]
text_or_empty key _ = none

-- `contains(key)`
unfoldable pub contains : Bytes → Json → Bool
unfolding find_member
contains key (object ms) = elim (find_member key ms) [ none ↦ false | some _ ↦ true ]
contains key _ = false

abbrev pub is_null : Option Json → Bool
is_null (some null) = true
is_null _ = false

-- The end of a `try` block, with the state that it leaves.
pub data Tried {ℓ} (W : Type ℓ) : Type ℓ where
  returns : Exchange W → Tried W
  throws : Exchange W → Tried W

-- A call that throws or that the block ends with.
abbrev pub or_throw {ℓ} : {W : Type ℓ} → Exchange W → Option (Exchange W) → Tried W
or_throw x none = throws x
or_throw x (some y) = returns y

module _ {ℓ} {W : Type ℓ} (world : World W) where
  -- `sendError(...); return true;` in a `try` block
  abbrev pub try_refuse : Bytes → ℕ → Exchange W → Tried W
  try_refuse message code x = or_throw x (send_error world message code x)

  abbrev pub try_reply : Json → Exchange W → Tried W
  try_reply out x = or_throw x (send_json world out 200 x)

  -- The `catch` block that answers with an error.
  abbrev pub caught : Bytes → ℕ → Tried W → Answer W
  caught message code (returns x) = some (true, x)
  caught message code (throws x) = refuse world message code x
