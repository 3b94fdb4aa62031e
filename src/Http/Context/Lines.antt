-- ===== src/Http/Context/Lines.antt =====
-- The lines of a header may come in any pieces: what is left of a piece comes again with the next.
use c_cloud_storage.Prelude.{
  ℕ, zero, suc, ◌+◌, ◌-◌, ◌≤◌, ◌<◌, ◌≡◌, refl, sym, subst, ap, ◌∙◌, true, false, Option, none, some,
  [], ◌∷◌, ◌++◌, length, drop, arith, Bytes, Bool-cases, Option-cases, inl, inr, get_elem?,
  get_elem?-lt, find_byte, length-append, length-drop, take-append_le, drop-append_le, drop-drop,
}
use c_cloud_storage.Http.Context.{HttpContext, Parsed}
use c_cloud_storage.Http.Context.Headers.{
  Line, partial_line, refused, taken, refused_text, whole_line, next_line, parse_lines,
}
use c_cloud_storage.Http.Context.Progress.{
  Advances, next_line-Advances, IsWithin, parse_lines-IsWithin,
}
use c_cloud_storage.Http.Context.Bytewise.{later}

abbrev pub later_some : ℕ → Option Parsed → Option Parsed
later_some n none = none
later_some n (some p) = some (later n p)

-- What one round leads to, given what the next rounds do.
abbrev after_line : (HttpContext → ℕ → Option Parsed) → HttpContext → ℕ → Line → Option Parsed
after_line next c k partial_line = some (record { ctx = c; consumed = k; ok = true })
after_line next c k (refused d) = some (record { ctx = d; consumed = k; ok = false })
after_line next c k (refused_text d n) = some (record { ctx = d; consumed = k + n; ok = false })
after_line next c k (taken d n) = next d n

lines_done :
    (fuel : ℕ) (c : HttpContext) (s : Bytes) (k : ℕ)
    → c.headers_complete ≡ true
    → 0 < fuel
    → parse_lines fuel c s k ≡ some (record { ctx = c; consumed = k; ok = true })
unfolding parse_lines
lines_done zero c s k h e = absurd (omega arith)
lines_done (suc fuel) c s k h e = ground arith

lines_next :
    (fuel : ℕ) (c : HttpContext) (s : Bytes) (k : ℕ) (l : Line)
    → next_line s c ≡ l
    → c.headers_complete ≡ false
    → parse_lines (suc fuel) c s k ≡ after_line (λ d n. parse_lines fuel d (drop n s) (k + n)) c k l
unfolding parse_lines
lines_next fuel c s k partial_line e h = ground arith
lines_next fuel c s k (refused d) e h = ground arith
lines_next fuel c s k (refused_text d n) e h = ground arith
lines_next fuel c s k (taken d n) e h = ground arith

again_step :
    (next next' : HttpContext → ℕ → Option Parsed) (c : HttpContext) (j k n : ℕ) (l : Line)
    → n ≡ j + k
    → ((d : HttpContext) (m : ℕ) → l ≡ taken d m → next d m ≡ later_some j (next' d m))
    → after_line next c n l ≡ later_some j (after_line next' c k l)
again_step next next' c j k n partial_line e ih = ground arith
again_step next next' c j k n (refused d) e ih = ground arith
again_step next next' c j k n (refused_text d m) e ih = ground arith
again_step next next' c j k n (taken d m) e ih = ih d m refl

-- Neither the fuel nor the count so far changes what the loop does.
lines_again :
    (fuel fuel' : ℕ) (c : HttpContext) (s : Bytes) (j k n : ℕ)
    → n ≡ j + k
    → length s < fuel
    → length s < fuel'
    → parse_lines fuel c s n ≡ later_some j (parse_lines fuel' c s k)
lines_again zero fuel' c s j k n e h h' = absurd (omega arith)
lines_again (suc fuel) zero c s j k n e h h' = absurd (omega arith)
lines_again (suc fuel) (suc fuel') c s j k n e h h' = elim (Bool-cases c.headers_complete) [
  | inl done ↦
      lines_done (suc fuel) c s n done (omega arith)
      ∙ (ap (λ i. some (record { ctx = c; consumed = i; ok = true })) e)
      ∙ ap (later_some j) (sym (lines_done (suc fuel') c s k done (omega arith)))
  | inr going ↦
      lines_next fuel c s n (next_line s c) refl going
      ∙ again_step _ _ c j k n (next_line s c) e (λ d m f.
        let a : Advances s (taken d m) = subst (Advances s) f (next_line-Advances s c) in
        lines_again fuel fuel' d (drop m s) j (k + m) (n + m) (omega arith)
          (omega (arith, length-drop m s)) (omega (arith, length-drop m s)))
      ∙ ap (later_some j) (sym (lines_next fuel' c s k (next_line s c) refl going))
]

find_byte-append :
    (b : ℕ) (s t : Bytes) (i : ℕ) → find_byte b s ≡ some i → find_byte b (s ++ t) ≡ some i
unfolding find_byte
find_byte-append b [] t i e = cc
find_byte-append b (a ∷ s) t i e = elim (Option-cases (find_byte b s)) [
  | inl f ↦ ground (arith, f)
  | inr (j, f) ↦ ground (arith, f, find_byte-append b s t j f)
]

get_elem?-append_left :
    (s t : Bytes) (i x : ℕ) → get_elem? s i ≡ some x → get_elem? (s ++ t) i ≡ some x
get_elem?-append_left [] t i x e = cc
get_elem?-append_left (a ∷ s) t zero x e = e
get_elem?-append_left (a ∷ s) t (suc i) x e = get_elem?-append_left s t i x e

whole_line-append :
    (s t : Bytes) (len : ℕ) (c : HttpContext)
    → len ≤ length s
    → whole_line (s ++ t) len c ≡ whole_line s len c
unfolding whole_line
whole_line-append s t len c h = rw (take-append_le len s t h) refl

abbrev IsWhole : Line → Type 0
IsWhole partial_line = ⊥
IsWhole _ = Unit {0}

-- A line that is whole is the same line with more behind it.
next_line-append :
    (s t : Bytes) (c : HttpContext) → IsWhole (next_line s c) → next_line (s ++ t) c ≡ next_line s c
unfolding next_line
next_line-append s t c w = elim (Option-cases (find_byte 13 s)) [
  | inl e ↦ ground (arith, e)
  | inr (len, e) ↦ elim (Option-cases (get_elem? s (len + 1))) [
    | inl f ↦ ground (arith, e, f)
    | inr (lf, f) ↦ ground (
      arith,
      e,
      f,
      find_byte-append 13 s t len e,
      get_elem?-append_left s t (len + 1) lf f,
      whole_line-append s t len c (omega (arith, get_elem?-lt s (len + 1) f)),
    )
  ]
]

-- What the loop does with the rest of a piece and the next.
abbrev resumed : Bytes → Bytes → ℕ → Parsed → Option Parsed
resumed s t k p =
    let u = drop (p.consumed - k) s ++ t in
    later_some p.consumed (parse_lines (length u + 1) p.ctx u 0)

abbrev from_some : Parsed → Option Parsed → Parsed
from_some q none = q
from_some q (some p) = p

-- The loop stopped at once: the next call starts where it started.
resumed_stop :
    (fuel : ℕ) (c : HttpContext) (s t : Bytes) (k : ℕ) (p : Parsed)
    → some (record { ctx = c; consumed = k; ok = true }) ≡ some p
    → length (s ++ t) < fuel
    → parse_lines fuel c (s ++ t) k ≡ resumed s t k p
resumed_stop fuel c s t k p e h =
    (let z : 0 ≡ k - k = omega arith in
      subst
        (λ i.
          parse_lines fuel c (s ++ t) k
          ≡ later_some k (parse_lines (length (drop i s ++ t) + 1) c (drop i s ++ t) 0))
        z (lines_again fuel (length (s ++ t) + 1) c (s ++ t) k 0 k (omega arith) h (omega arith)))
    ∙ ap (resumed s t k) (ap (from_some p) e)

resumed_taken :
    (s t : Bytes) (k n : ℕ) (p : Parsed)
    → k + n ≤ p.consumed
    → resumed (drop n s) t (k + n) p ≡ resumed s t k p
resumed_taken s t k n p h =
    ap (λ u. later_some p.consumed (parse_lines (length (u ++ t) + 1) p.ctx (u ++ t) 0))
      (drop-drop (p.consumed - k) (p.consumed - (k + n)) n s (omega arith))

refused_lem :
    {A : Type 0} (p : Parsed) (d : HttpContext) (k : ℕ)
    → p.ok ≡ true
    → some (record { ctx = d; consumed = k; ok = false }) ≡ some p
    → A
refused_lem p d k o e = absurd (let f : false ≡ true = ap (λ q. (from_some p q).ok) e ∙ o in cc)

append_step :
    (fuel fuel' : ℕ) (c : HttpContext) (s t : Bytes) (k : ℕ) (p : Parsed) (l : Line)
    → next_line s c ≡ l
    → c.headers_complete ≡ false
    → parse_lines (suc fuel) c s k ≡ some p
    → p.ok ≡ true
    → length s < suc fuel
    → length (s ++ t) < suc fuel'
    → ((d : HttpContext) (n : ℕ)
        → l ≡ taken d n
        → parse_lines fuel d (drop n s) (k + n) ≡ some p
        → parse_lines fuel' d (drop n s ++ t) (k + n) ≡ resumed (drop n s) t (k + n) p)
    → parse_lines (suc fuel') c (s ++ t) k ≡ resumed s t k p
append_step fuel fuel' c s t k p partial_line e going f o h h' ih =
    resumed_stop (suc fuel') c s t k p (sym (lines_next fuel c s k partial_line e going) ∙ f) h'
append_step fuel fuel' c s t k p (refused d) e going f o h h' ih =
    refused_lem p d k o (sym (lines_next fuel c s k (refused d) e going) ∙ f)
append_step fuel fuel' c s t k p (refused_text d n) e going f o h h' ih =
    refused_lem p d (k + n) o (sym (lines_next fuel c s k (refused_text d n) e going) ∙ f)
append_step fuel fuel' c s t k p (taken d n) e going f o h h' ih =
    let a : Advances s (taken d n) = subst (Advances s) e (next_line-Advances s c) in
    let g = sym (lines_next fuel c s k (taken d n) e going) ∙ f in
    let w : IsWithin (k + n) (length (drop n s)) (some p) =
      subst (IsWithin (k + n) (length (drop n s))) g
        (parse_lines-IsWithin fuel d (drop n s) (k + n) (omega (arith, length-drop n s))) in
    lines_next fuel' c (s ++ t) k (taken d n)
      (next_line-append s t c (subst IsWhole (sym e) tt) ∙ e) going
    ∙ ap (λ u. parse_lines fuel' d u (k + n)) (drop-append_le n s t (omega arith))
    ∙ ih d n refl g
    ∙ resumed_taken s t k n p (omega arith)

lines-append :
    (fuel fuel' : ℕ) (c : HttpContext) (s t : Bytes) (k : ℕ) (p : Parsed)
    → parse_lines fuel c s k ≡ some p
    → p.ok ≡ true
    → length s < fuel
    → length (s ++ t) < fuel'
    → parse_lines fuel' c (s ++ t) k ≡ resumed s t k p
lines-append zero fuel' c s t k p e o h h' = absurd (omega arith)
lines-append (suc fuel) zero c s t k p e o h h' = absurd (omega arith)
lines-append (suc fuel) (suc fuel') c s t k p e o h h' = elim (Bool-cases c.headers_complete) [
  | inl done ↦
      resumed_stop (suc fuel') c s t k p (sym (lines_done (suc fuel) c s k done (omega arith)) ∙ e)
        h'
  | inr going ↦ append_step fuel fuel' c s t k p (next_line s c) refl going e o h h' λ d n l f.
      let a : Advances s (taken d n) = subst (Advances s) l (next_line-Advances s c) in
      lines-append fuel fuel' d (drop n s) t (k + n) p f o (omega (arith, length-drop n s))
        (omega (arith, length-drop n s, length-append s t, length-append (drop n s) t))
]

-- The loop over the lines of the header, on data in two pieces: the first call, if it finds no
-- error, and then a call on what it left with the second piece behind it, do what one call on the
-- two pieces at once does. They leave the same context, count the same bytes and find the same
-- error, wherever the data is cut.
pub parse_lines-append :
    (c : HttpContext) (s t : Bytes) (p : Parsed)
    → parse_lines (length s + 1) c s 0 ≡ some p
    → p.ok ≡ true
    → parse_lines (length (s ++ t) + 1) c (s ++ t) 0
      ≡ later_some p.consumed
          (parse_lines (length (drop p.consumed s ++ t) + 1) p.ctx (drop p.consumed s ++ t) 0)
parse_lines-append c s t p e o =
    lines-append (length s + 1) (length (s ++ t) + 1) c s t 0 p e o (omega arith) (omega arith)
    ∙ (let z : p.consumed - 0 ≡ p.consumed = omega arith in
        ap
          (λ i.
            later_some p.consumed
              (parse_lines (length (drop i s ++ t) + 1) p.ctx (drop i s ++ t) 0))
          z)
