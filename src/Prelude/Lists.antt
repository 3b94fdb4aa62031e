-- ===== src/Prelude/Lists.antt =====
-- Lists measured and cut by native numbers, under the library's names.
use Prim.Native.Nat.{ℕ, zero, suc, ◌+◌, ◌-◌, ◌≤◌, ◌<◌, min}
use mathlib.Core.Path.{◌≡◌, refl, ap, ◌∙◌}
use mathlib.Core.List.{List, [], ◌∷◌, ◌++◌}
use mathlib.Core.Option.{Option, none, some}
use native.Mathlib.Omega.{arith}

module _ {ℓ} {A : Type ℓ} where
  abbrev pub length : List A → ℕ
  length [] = 0
  length (_ ∷ r) = suc (length r)

  abbrev pub get_elem? : List A → ℕ → Option A
  get_elem? [] _ = none
  get_elem? (x ∷ _) zero = some x
  get_elem? (_ ∷ r) (suc i) = get_elem? r i

  abbrev pub take : ℕ → List A → List A
  take zero _ = []
  take (suc n) [] = []
  take (suc n) (x ∷ r) = x ∷ take n r

  abbrev pub drop : ℕ → List A → List A
  drop zero l = l
  drop (suc n) [] = []
  drop (suc n) (_ ∷ r) = drop n r

  abbrev pub replicate : ℕ → A → List A
  replicate zero a = []
  replicate (suc n) a = a ∷ replicate n a

  pub length-append : (l m : List A) → length (l ++ m) ≡ length l + length m
  length-append [] m = omega arith
  length-append (_ ∷ r) m = omega (arith, length-append r m)

  pub length-take : (n : ℕ) (l : List A) → length (take n l) ≡ min n (length l)
  length-take zero l = omega arith
  length-take (suc n) [] = omega arith
  length-take (suc n) (_ ∷ r) = omega (arith, length-take n r)

  pub length-drop : (n : ℕ) (l : List A) → length (drop n l) ≡ length l - n
  length-drop zero l = omega arith
  length-drop (suc n) [] = omega arith
  length-drop (suc n) (_ ∷ r) = omega (arith, length-drop n r)

  pub length-replicate : (n : ℕ) (a : A) → length (replicate n a) ≡ n
  length-replicate zero a = refl
  length-replicate (suc n) a = ap suc (length-replicate n a)

  pub take-append-drop : (n : ℕ) (l : List A) → take n l ++ drop n l ≡ l
  take-append-drop zero l = refl
  take-append-drop (suc n) [] = refl
  take-append-drop (suc n) (x ∷ r) = ap (◌∷◌ x) (take-append-drop n r)

  -- Cutting a list inside its first part, or behind it.
  pub take-append_le : (n : ℕ) (l m : List A) → n ≤ length l → take n (l ++ m) ≡ take n l
  take-append_le zero l m h = refl
  take-append_le (suc n) [] m h = absurd (omega arith)
  take-append_le (suc n) (x ∷ r) m h = ap (◌∷◌ x) (take-append_le n r m (omega arith))

  pub take-append_ge : (k n : ℕ) (l m : List A) → k ≡ length l + n → take k (l ++ m) ≡ l ++ take n m
  take-append_ge k n [] m e = ap (λ i. take i m) (omega arith)
  take-append_ge zero n (x ∷ r) m e = absurd (omega arith)
  take-append_ge (suc k) n (x ∷ r) m e = ap (◌∷◌ x) (take-append_ge k n r m (omega arith))

  pub drop-append_le : (n : ℕ) (l m : List A) → n ≤ length l → drop n (l ++ m) ≡ drop n l ++ m
  drop-append_le zero l m h = refl
  drop-append_le (suc n) [] m h = absurd (omega arith)
  drop-append_le (suc n) (_ ∷ r) m h = drop-append_le n r m (omega arith)

  pub drop-append_ge : (k n : ℕ) (l m : List A) → k ≡ length l + n → drop k (l ++ m) ≡ drop n m
  drop-append_ge k n [] m e = ap (λ i. drop i m) (omega arith)
  drop-append_ge zero n (x ∷ r) m e = absurd (omega arith)
  drop-append_ge (suc k) n (_ ∷ r) m e = drop-append_ge k n r m (omega arith)

  pub take_all : (n : ℕ) (l : List A) → length l ≤ n → take n l ≡ l
  take_all zero [] h = refl
  take_all zero (_ ∷ _) h = absurd (omega arith)
  take_all (suc n) [] h = refl
  take_all (suc n) (x ∷ r) h = ap (◌∷◌ x) (take_all n r (omega arith))

  pub drop_all : (n : ℕ) (l : List A) → length l ≤ n → drop n l ≡ []
  drop_all zero [] h = refl
  drop_all zero (_ ∷ _) h = absurd (omega arith)
  drop_all (suc n) [] h = refl
  drop_all (suc n) (_ ∷ r) h = drop_all n r (omega arith)

  pub drop-drop : (k m n : ℕ) (l : List A) → k ≡ n + m → drop m (drop n l) ≡ drop k l
  drop-drop k m zero l e = ap (λ i. drop i l) (omega arith)
  drop-drop zero m (suc n) l e = absurd (omega arith)
  drop-drop (suc k) zero (suc n) [] e = refl
  drop-drop (suc k) (suc m) (suc n) [] e = refl
  drop-drop (suc k) m (suc n) (_ ∷ r) e = drop-drop k m n r (omega arith)

  pub take-take : (m n : ℕ) (l : List A) → m ≤ n → take m (take n l) ≡ take m l
  take-take zero n l h = refl
  take-take (suc m) zero l h = absurd (omega arith)
  take-take (suc m) (suc n) [] h = refl
  take-take (suc m) (suc n) (x ∷ r) h = ap (◌∷◌ x) (take-take m n r (omega arith))

  -- Cutting exactly at the joint.
  pub take-append_length : (l m : List A) → take (length l) (l ++ m) ≡ l
  take-append_length [] m = refl
  take-append_length (x ∷ r) m = ap (◌∷◌ x) (take-append_length r m)

  pub drop-append_length : (l m : List A) → drop (length l) (l ++ m) ≡ m
  drop-append_length [] m = refl
  drop-append_length (_ ∷ r) m = drop-append_length r m

  pub drop-take : (k m n : ℕ) (l : List A) → k ≡ m + n → drop m (take k l) ≡ take n (drop m l)
  drop-take k zero n l e = ap (λ i. take i l) (omega arith)
  drop-take zero (suc m) n l e = absurd (omega arith)
  drop-take (suc k) (suc m) zero [] e = refl
  drop-take (suc k) (suc m) (suc n) [] e = refl
  drop-take (suc k) (suc m) n (_ ∷ r) e = drop-take k m n r (omega arith)

  pub get_elem?-lt : (l : List A) (i : ℕ) {x : A} → get_elem? l i ≡ some x → i < length l
  get_elem?-lt [] i e = cc
  get_elem?-lt (_ ∷ r) zero e = omega arith
  get_elem?-lt (_ ∷ r) (suc i) e = omega (arith, get_elem?-lt r i e)

  pub get_elem?-append :
      (s t : List A) (a b : A) → get_elem? (s ++ a ∷ b ∷ t) (length s + 1) ≡ some b
  get_elem?-append [] t a b = refl
  get_elem?-append (c ∷ s) t a b =
      (let e : length (c ∷ s) + 1 ≡ suc (length s + 1) = omega arith in
        ap (get_elem? (c ∷ s ++ a ∷ b ∷ t)) e)
      ∙ get_elem?-append s t a b
