-- ===== src/Log.antt =====
-- mymuduo/log/inc/LogStream.h and LogStream.cpp: the line of a log message. `text` is what the array
-- holds before `cur_`. `none`: bytes are copied past the end of the array or of the text.
pub mod Bounds
mod Tests
use c_cloud_storage.Prelude.{
  ℕ, zero, suc, ◌+◌, ◌-◌, ◌/◌, ◌%◌, Bool, true, false, Option, none, some, List, [], ◌∷◌, ◌++◌,
  length, take, ltb, ◌==◌, if◌then◌else◌, Bytes, bytes,
}
use c_cloud_storage.Prelude.Number.{ℤ, pos, negsuc, is_negative}
use c_cloud_storage.Tcp.Buffer.{◌>>=◌}
use c_cloud_storage.Http.Response.{to_int}

abbrev pub fixed_buffer_size : ℕ
fixed_buffer_size = 4096

pub record FixedBuffer : Type 0 where
  pub text : Bytes

abbrev pub get_avail : FixedBuffer → ℕ
get_avail b = fixed_buffer_size - length b.text

-- A length below zero is less than what is free, and `memcpy` takes it for a size near 2^64.
unfoldable pub append : Bytes → ℤ → FixedBuffer → Option FixedBuffer
append s (pos n) b =
    some (if ltb n (get_avail b) then record b { text = b.text ++ take n s } else b)
append s (negsuc n) b = none

abbrev pub reset : FixedBuffer → FixedBuffer
reset b = record b { text = [] }

-- `'0' + value % 10` and `value / 10`, where the remainder of a negative number is negative and the
-- quotient goes towards zero. A number is its sign and its size.
abbrev pub digit_of : Bool → ℕ → ℕ
digit_of minus n = if minus then b'0' - n % 10 else b'0' + n % 10

-- The loop, with fuel above the number, on what it has written, already in the reverse order; and
-- the size of the number after it.
unfoldable pub format_loop : Bool → ℕ → ℕ → Bytes → Bytes
format_loop minus zero n acc = acc
format_loop minus (suc fuel) n acc =
    let more = format_loop minus fuel (n / 10) (digit_of minus n ∷ acc) in
    if n / 10 == 0 then digit_of minus n ∷ acc else more

-- After the loop the value is zero, and the test for the sign fails.
abbrev pub with_sign : ℤ → Bytes → Bytes
with_sign value s = if is_negative value then b'-' ∷ s else s

abbrev pub formatted : ℤ → Bytes
formatted (pos n) = with_sign (pos 0) (format_loop false (suc n) n [])
formatted (negsuc n) = with_sign (pos 0) (format_loop true (suc (suc n)) (suc n) [])

unfoldable pub format_integer : ℤ → FixedBuffer → FixedBuffer
unfolding format_loop
format_integer value b =
    if ltb (get_avail b) 32 then b else record b { text = b.text ++ formatted value }

-- The calls of `<<`; a double is what `snprintf` makes of it with "%g", a C
-- string its bytes before the zero, or null.
pub data Item : Type 0 where
  boolean : Bool → Item
  integer : ℤ → Item
  double : Bytes → Item
  character : ℕ → Item
  c_string : Option Bytes → Item
  string : Bytes → Item

-- The length of a text is handed over as an `int`.
unfoldable pub append_text : Bytes → FixedBuffer → Option FixedBuffer
unfolding append
append_text s b = append s (to_int (length s)) b

unfoldable pub write : Item → FixedBuffer → Option FixedBuffer
unfolding append append_text format_integer
write (boolean v) b = append (if v then bytes "1" else bytes "0") (pos 1) b
write (integer n) b = some (format_integer n b)
write (double printed) b = append_text printed b
write (character c) b = append (c ∷ []) (pos 1) b
write (c_string none) b = append (bytes "(null)") (pos 6) b
write (c_string (some s)) b = append_text s b
write (string s) b = append_text s b

unfoldable pub write_all : List Item → FixedBuffer → Option FixedBuffer
unfolding write
write_all [] b = some b
write_all (i ∷ items) b = do c ← write i b; write_all items c
