-- ===== src/Http/Context/Blocks.antt =====
-- `ParseBodyBlock`, for a body whose length the header gives.
use c_cloud_storage.Prelude.{
  ℕ, zero, suc, ◌+◌, ◌-◌, ◌^◌, ◌≤◌, ◌<◌, ◌≡◌, refl, sym, subst, ap, ◌∙◌, true, ◌++◌, length, drop,
  take, min, leb, arith, Bytes, Bool-cases, inl, inr, append-nil, length-append, length-drop,
  take-append_le, take-append_ge, take_all, drop_all,
}
use c_cloud_storage.Http.Request.{append_body}
use c_cloud_storage.Http.Context.{HttpContext, Parsed, sub_size}
use c_cloud_storage.Http.Context.Body.{grow, finish, body_block, parse_body_block}
use c_cloud_storage.Http.Context.Bytewise.{append_body_none, later, append_body-append_body}

-- The part of a body that is still to come can be counted.
abbrev pub IsCounted : HttpContext → Type 0
IsCounted c = (c.received_body_bytes ≤ c.content_length) × (c.content_length < 2 ^ 64)

grow_none : (s : Bytes) (c : HttpContext) → grow 0 s c ≡ c
grow_none s c = λ i. record c {
  request = append_body_none c.request i;
  received_body_bytes =
      (let e : c.received_body_bytes + 0 ≡ c.received_body_bytes = omega arith in e) i;
}

-- The block of `n` bytes, none included.
abbrev block : ℕ → HttpContext → Bytes → Parsed
block n c s = record { ctx = finish (grow n s c); consumed = n; ok = true }

body_block_lem : (n : ℕ) (c : HttpContext) (s : Bytes) → body_block n c s ≡ block n c s
body_block_lem zero c s =
    ap (λ d. record { ctx = finish d; consumed = 0; ok = true }) (sym (grow_none s c))
body_block_lem (suc n) c s = ground arith

parse_body_block-block :
    (c : HttpContext) (s : Bytes) (n : ℕ)
    → IsCounted c
    → n ≡ min (c.content_length - c.received_body_bytes) (length s)
    → parse_body_block c s ≡ block n c s
unfolding parse_body_block
parse_body_block-block c s n h e =
    (let need : min (sub_size c.content_length c.received_body_bytes) (length s) ≡ n =
        omega arith in
      ap (λ m. body_block m c s) need)
    ∙ body_block_lem n c s

finish-IsCounted : (c : HttpContext) → IsCounted c → IsCounted (finish c)
finish-IsCounted c h = ground arith

finish-grow-finish :
    (m : ℕ) (s : Bytes) (c : HttpContext) → finish (grow m s (finish c)) ≡ finish (grow m s c)
finish-grow-finish m s c = elim (Bool-cases (leb c.content_length c.received_body_bytes)) [
  | inl e ↦ ground arith
  | inr e ↦ ground arith
]

grow-grow :
    (c : HttpContext) (s u v : Bytes) (n m k : ℕ)
    → k ≡ n + m
    → take k v ≡ take n s ++ take m u
    → grow m u (grow n s c) ≡ grow k v c
grow-grow c s u v n m k h e = λ i. record c {
  request =
      (append_body-append_body (take n s) (take m u) c.request
          ∙ ap (λ b. append_body b c.request) (sym e))
        i;
  received_body_bytes =
      (let f : c.received_body_bytes + n + m ≡ c.received_body_bytes + k = omega arith in f) i;
}

-- Another block on what a block left.
block-block :
    (c : HttpContext) (s u v : Bytes) (n m k : ℕ)
    → k ≡ n + m
    → take k v ≡ take n s ++ take m u
    → later n (block m (finish (grow n s c)) u) ≡ block k c v
block-block c s u v n m k h e = λ i. record {
  ctx = (finish-grow-finish m u (grow n s c) ∙ ap finish (grow-grow c s u v n m k h e)) i;
  consumed = (let f : n + m ≡ k = omega arith in f) i;
  ok = true;
}

take_both :
    (need n m k : ℕ) (s t : Bytes)
    → n ≡ min need (length s)
    → m ≡ min (need - n) (length (drop n s ++ t))
    → k ≡ n + m
    → take k (s ++ t) ≡ take n s ++ take m (drop n s ++ t)
take_both need n m k s t e f g = elim (Bool-cases (leb (length s) need)) [
  | inl all ↦
      rw (take_all n s (ground arith), drop_all n s (ground arith))
        (take-append_ge k m s t (ground (arith, length-append (drop n s) t, length-drop n s)))
  | inr part ↦
      (let all : k ≡ n = ground arith in ap (λ i. take i (s ++ t)) all)
      ∙ take-append_le n s t (ground arith)
      ∙ sym (append-nil (take n s))
      ∙ (let nothing : 0 ≡ m = ground arith in ap (λ i. take n s ++ take i (drop n s ++ t)) nothing)
]

count_both :
    (need n m : ℕ) (s t : Bytes)
    → n ≡ min need (length s)
    → m ≡ min (need - n) (length (drop n s ++ t))
    → min need (length (s ++ t)) ≡ n + m
count_both need n m s t e f =
    omega (arith, length-append s t, length-append (drop n s) t, length-drop n s)

left_over :
    (c : HttpContext) (n len : ℕ) (s : Bytes)
    → min ((finish (grow n s c)).content_length - (finish (grow n s c)).received_body_bytes) len
      ≡ min (c.content_length - c.received_body_bytes - n) len
left_over c n len s = ground arith

-- `ParseBodyBlock` on two pieces of a body, one after the other (what the first call leaves of its
-- piece comes again), does what it does on the two at once: the same bytes are added to the body
-- and counted, and the request is complete at the same byte. The bytes received are at most the
-- content length, a number of 64 bits.
pub parse_body_block-append :
    (c : HttpContext) (s t : Bytes)
    → IsCounted c
    → let p = parse_body_block c s in
      later p.consumed (parse_body_block p.ctx (drop p.consumed s ++ t))
      ≡ parse_body_block c (s ++ t)
parse_body_block-append c s t h =
    let need : ℕ = c.content_length - c.received_body_bytes in
    let n : ℕ = min need (length s) in
    let u = drop n s ++ t in
    let m : ℕ = min (need - n) (length u) in
    let first = parse_body_block-block c s n h refl in
    let second =
      parse_body_block-block (finish (grow n s c)) u m (finish-IsCounted (grow n s c) (omega arith))
        (sym (left_over c n (length u) s)) in
    let whole =
      parse_body_block-block c (s ++ t) (n + m) h (sym (count_both need n m s t refl refl)) in
    subst
      (λ p.
        later p.consumed (parse_body_block p.ctx (drop p.consumed s ++ t))
        ≡ parse_body_block c (s ++ t))
      (sym first)
      (ap (later n) second
        ∙ block-block c s u (s ++ t) n m (n + m) refl
            (take_both need n m (n + m) s t refl refl refl)
        ∙ sym whole)
