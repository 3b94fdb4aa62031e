-- ===== src/Log/Bounds.antt =====
-- A log line stays in its array.
use c_cloud_storage.Prelude.{
  ℕ, zero, suc, ◌+◌, ◌*◌, ◌/◌, ◌%◌, ◌^◌, ◌≤◌, ◌<◌, ◌≡◌, refl, ap, Bool, true, false, none, some,
  List, [], ◌∷◌, ◌++◌, length, ltb, ◌==◌, if◌then◌else◌, Bytes, bytes, arith, length-append,
  length-take, take, Option, ◌-◌, sym, subst, ◌∙◌, if_then,
}
use c_cloud_storage.Prelude.Number.{ℤ, pos, negsuc, negate, decimal_onto}
use c_cloud_storage.Tcp.Buffer.{◌>>=◌}
use c_cloud_storage.Http.Response.{to_int}
use c_cloud_storage.Log.{
  digit_of, FixedBuffer, Item, boolean, integer, double, character, c_string, string, append,
  append_text, format_loop, formatted, format_integer, write, write_all, fixed_buffer_size,
  get_avail,
}

abbrev pow10 : ℕ → ℕ
pow10 zero = 1
pow10 (suc k) = 10 * pow10 k

if_bound :
    (c : Bool) (s t : Bytes) (n : ℕ) → length s ≤ n → length t ≤ n → length (if c then s else t) ≤ n
if_bound true s t n h g = h
if_bound false s t n h g = g

-- A number below the power has at most so many digits.
length-format_loop :
    (k : ℕ) (minus : Bool) (fuel n : ℕ) (acc : Bytes)
    → n < pow10 (suc k)
    → length (format_loop minus fuel n acc) ≤ suc k + length acc
unfolding format_loop
length-format_loop k minus zero n acc h = omega arith
length-format_loop zero minus (suc fuel) n acc h = ground (arith, h)
length-format_loop (suc k) minus (suc fuel) n acc h =
    if_bound (n / 10 == 0) (digit_of minus n ∷ acc)
      (format_loop minus fuel (n / 10) (digit_of minus n ∷ acc)) (suc (suc k) + length acc)
      (omega arith)
      (omega (
        arith,
        length-format_loop k minus fuel (n / 10) (digit_of minus n ∷ acc) (omega (arith, h)),
      ))

-- An integer of 64 bits, with or without a sign, and a text whose length an `int` can hold.
abbrev pub Fits : Item → Type 0
Fits (integer (pos n)) = n < 2 ^ 64
Fits (integer (negsuc n)) = n < 2 ^ 63
Fits (double printed) = length printed < 2 ^ 31
Fits (c_string (some s)) = length s < 2 ^ 31
Fits (string s) = length s < 2 ^ 31
Fits _ = Unit {0}

abbrev pub AllFit : List Item → Type 0
AllFit [] = Unit {0}
AllFit (i ∷ items) = Fits i × AllFit items

-- It was written, and the line is still within the array.
abbrev pub StaysWithin : Option FixedBuffer → Type 0
StaysWithin o = (c : FixedBuffer) × (o ≡ some c) × (length c.text ≤ fixed_buffer_size)

append_bound :
    (s : Bytes) (n : ℕ) (b : FixedBuffer)
    → length b.text ≤ fixed_buffer_size
    → StaysWithin (append s (pos n) b)
unfolding append
append_bound s n b h = at (ltb n (get_avail b)) refl
  where
    at :
        (fits : Bool)
        → ltb n (get_avail b) ≡ fits
        → StaysWithin (some (if fits then record b { text = b.text ++ take n s } else b))
    at true e =
        let room : n < get_avail b = ground (arith, e) in
        (
          record b { text = b.text ++ take n s },
          refl,
          omega (arith, room, h, length-append b.text (take n s), length-take n s),
        )
    at false e = (b, refl, h)

to_int-small : (n : ℕ) → n < 2 ^ 31 → to_int n ≡ pos n
to_int-small n h =
    let same : n % 2 ^ 32 ≡ n = omega (arith, h) in
    ap (λ low. if ltb low (2 ^ 31) then pos low else negate (2 ^ 32 - low)) same
    ∙ if_then _ _ (let small : ltb n (2 ^ 31) ≡ true = ground (arith, h) in small)

text_bound :
    (s : Bytes) (b : FixedBuffer)
    → length s < 2 ^ 31
    → length b.text ≤ fixed_buffer_size
    → StaysWithin (append_text s b)
unfolding append_text
text_bound s b short h =
    subst (λ n. StaysWithin (append s n b)) (sym (to_int-small (length s) short))
      (append_bound s (length s) b h)

digits_bound : (minus : Bool) (n : ℕ) → n ≤ 2 ^ 64 → length (format_loop minus (suc n) n []) ≤ 20
digits_bound minus n h = omega (arith, length-format_loop 19 minus (suc n) n [] (omega arith))

formatted_bound : (n : ℤ) → Fits (integer n) → length (formatted n) ≤ 20
formatted_bound (pos n) h = digits_bound false n (omega (arith, h))
formatted_bound (negsuc n) h = digits_bound true (suc n) (omega (arith, h))

integer_bound :
    (n : ℤ) (b : FixedBuffer)
    → Fits (integer n)
    → length b.text ≤ fixed_buffer_size
    → length (format_integer n b).text ≤ fixed_buffer_size
unfolding format_integer
integer_bound n b fits h = at (ltb (get_avail b) 32) refl
  where
    at :
        (short : Bool)
        → ltb (get_avail b) 32 ≡ short
        → length (if short then b else record b { text = b.text ++ formatted n }).text
          ≤ fixed_buffer_size
    at true e = h
    at false e =
        let room : 32 ≤ get_avail b = ground (arith, e) in
        omega (arith, room, h, length-append b.text (formatted n), formatted_bound n fits)

write_bound :
    (i : Item) (b : FixedBuffer)
    → Fits i
    → length b.text ≤ fixed_buffer_size
    → StaysWithin (write i b)
unfolding write
write_bound (boolean v) b fits h = append_bound (if v then bytes "1" else bytes "0") 1 b h
write_bound (integer n) b fits h = (format_integer n b, refl, integer_bound n b fits h)
write_bound (double printed) b fits h = text_bound printed b fits h
write_bound (character c) b fits h = append_bound (c ∷ []) 1 b h
write_bound (c_string none) b fits h = append_bound (bytes "(null)") 6 b h
write_bound (c_string (some s)) b fits h = text_bound s b fits h
write_bound (string s) b fits h = text_bound s b fits h

-- Whatever is written to a log line, and in whatever order, with integers of 64 bits and texts of
-- fewer than 2^31 bytes, no byte is copied past the end of its array of 4096 bytes: every call of
-- `<<` returns, and the line stays within the array.
pub length-write_all-le :
    (items : List Item) (b : FixedBuffer)
    → AllFit items
    → length b.text ≤ fixed_buffer_size
    → StaysWithin (write_all items b)
unfolding write_all
length-write_all-le [] b fits h = (b, refl, h)
length-write_all-le (i ∷ items) b fits h =
    let (c, e, k) = write_bound i b fits.0 h in
    let (d, f, m) = length-write_all-le items c fits.1 k in
    (d, ap (λ o. o >>= write_all items) e ∙ f, m)

-- The line of a number without a sign ends with its decimal digits.
format_loop-decimal_onto :
    (fuel n : ℕ) (acc : Bytes) → format_loop false fuel n acc ≡ decimal_onto fuel n acc
unfolding format_loop decimal_onto
format_loop-decimal_onto zero n acc = refl
format_loop-decimal_onto (suc fuel) n acc =
    ap (λ more. if n / 10 == 0 then (b'0' + n % 10) ∷ acc else more)
      (format_loop-decimal_onto fuel (n / 10) ((b'0' + n % 10) ∷ acc))
