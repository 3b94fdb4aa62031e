-- ===== src/Http/Request/Decode.antt =====
-- `UrlDecode` against an encoder: percent escapes for all but letters and digits.
use c_cloud_storage.Prelude.{
  ℕ, ◌+◌, ◌-◌, ◌/◌, ◌%◌, ◌≤◌, ◌<◌, ◌≡◌, refl, ap, ◌∙◌, Bool, false, ◌||◌, ◌&&◌, [], ◌∷◌, length,
  arith, Bytes, ltb, leb, ◌==◌, some, if◌then◌else◌, is_digit, is_upper, Bool-cases, inl, inr,
}
use c_cloud_storage.Prelude.Number.{hex_value}
use c_cloud_storage.Http.Request.{url_decode, plus_to_space}

abbrev pub IsBytes : Bytes → Type 0
IsBytes [] = Unit {0}
IsBytes (c ∷ s) = (c < 256) × IsBytes s

abbrev pub is_plain : ℕ → Bool
is_plain c = is_digit c || (is_upper c || (leb b'a' c && leb c b'z'))

abbrev pub hex_digit : ℕ → ℕ
hex_digit d = if ltb d 10 then b'0' + d else b'A' + d - 10

abbrev pub escape : ℕ → Bytes → Bytes
escape c rest =
    if is_plain c then c ∷ rest else b'%' ∷ hex_digit (c / 16) ∷ hex_digit (c % 16) ∷ rest

abbrev pub url_encode : Bytes → Bytes
url_encode [] = []
url_encode (c ∷ s) = escape c (url_encode s)

hex_value-hex_digit : (d : ℕ) → d < 16 → hex_value (hex_digit d) ≡ some d
hex_value-hex_digit d h = ground arith

url_decode_plain :
    (c : ℕ) (s : Bytes) → (c == b'%') ≡ false → url_decode (c ∷ s) ≡ plus_to_space c ∷ url_decode s
unfolding url_decode
url_decode_plain c [] h = refl
url_decode_plain c (a ∷ []) h = refl
url_decode_plain c (a ∷ b ∷ s) h = rw h

url_decode_escape :
    (c : ℕ) (s : Bytes)
    → c < 256
    → url_decode (b'%' ∷ hex_digit (c / 16) ∷ hex_digit (c % 16) ∷ s) ≡ c ∷ url_decode s
unfolding url_decode
url_decode_escape c s h = ground (arith, hex_value-hex_digit (c / 16), hex_value-hex_digit (c % 16))

-- `UrlDecode` gives back any bytes from their percent encoding.
pub url_decode-url_encode : (s : Bytes) → IsBytes s → url_decode (url_encode s) ≡ s
url_decode-url_encode [] b = unfold url_decode in refl
url_decode-url_encode (c ∷ s) b = elim (Bool-cases (is_plain c)) [
  | inl plain ↦
      rw plain (ground (arith, url_decode_plain c (url_encode s), url_decode-url_encode s b.1))
  | inr other ↦
      rw other (url_decode_escape c (url_encode s) b.0 ∙ ap (◌∷◌ c) (url_decode-url_encode s b.1))
]

-- `UrlDecode` makes no text longer.
length-url_decode-le : (s : Bytes) → length (url_decode s) ≤ length s
unfolding url_decode
length-url_decode-le [] = omega arith
length-url_decode-le (c ∷ []) = omega arith
length-url_decode-le (c ∷ a ∷ []) = omega (arith, length-url_decode-le (a ∷ []))
length-url_decode-le (c ∷ a ∷ b ∷ s) =
    ground (arith, length-url_decode-le (a ∷ b ∷ s), length-url_decode-le s)
