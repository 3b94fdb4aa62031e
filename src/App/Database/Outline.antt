-- ===== src/App/Database/Outline.antt =====
-- What the server reads of a statement outside of its texts in single quotes. The fixed parts of the
-- statements of application/src have no other quotes and no backslash.
use c_cloud_storage.Prelude.{
  ◌≡◌, refl, sym, ap, ◌∙◌, Bool, true, false, ◌&&◌, not, [], ◌∷◌, ◌++◌, ◌==◌, if◌then◌else◌,
  if_then, Bytes, arith, append_assoc, append-nil, subst,
}
use c_cloud_storage.App.World.{World}
use c_cloud_storage.App.Database.{Db, c_str, escape, quoted}

pub data Place : Type 0 where
  outside in_text after_backslash : Place

-- The bytes outside of texts, with the quotes around the texts.
unfoldable pub outline : Place → Bytes → Bytes
outline p [] = []
outline outside (c ∷ s) =
    let text = outline in_text s in
    let rest = outline outside s in c ∷ (if c == b'\'' then text else rest)
outline in_text (c ∷ s) =
    let escaped = outline after_backslash s in
    let rest = outline outside s in
    let more = outline in_text s in
    if c == 92 then escaped else if c == b'\'' then c ∷ rest else more
outline after_backslash (c ∷ s) = outline in_text s

-- Whether a part of a statement has no zero, and every text that begins in it ends in it.
unfoldable pub is_closed : Bool → Bytes → Bool
is_closed in_a_text [] = not in_a_text
is_closed false (c ∷ s) =
    let text = is_closed true s in
    let rest = is_closed false s in not (c == 0) && (if c == b'\'' then text else rest)
is_closed true (c ∷ s) =
    let rest = is_closed false s in
    let more = is_closed true s in
    not (c == 0) && (not (c == 92) && (if c == b'\'' then rest else more))

-- Statements that the server reads in the same way, but for the texts in them.
pub record SameOutline (s t : Bytes) : Type 0 where
  pub same : outline outside (c_str s) ≡ outline outside (c_str t)

-- What the manual of the client says of `mysql_real_escape_string`: in a text in quotes, the
-- escaped text does not end it, and there is no zero in it.
pub record EscapesTexts {ℓ} {W : Type ℓ} (world : World W) : Type ℓ where
  pub stays_in_text :
      (s t : Bytes) → outline in_text (world.mysql_real_escape_string s ++ t) ≡ outline in_text t
  pub no_zero :
      (s t : Bytes)
      → c_str (world.mysql_real_escape_string s ++ t) ≡ world.mysql_real_escape_string s ++ c_str t

place : Bool → Place
place true = in_text
place false = outside

closed_prefix :
    (b : Bool) (pre s t : Bytes)
    → is_closed b pre ≡ true
    → SameOutline s t
    → outline (place b) (c_str (pre ++ s)) ≡ outline (place b) (c_str (pre ++ t))
unfolding outline is_closed c_str place
closed_prefix false [] s t h same = same.same
closed_prefix true [] s t h same = absurd (ground arith)
closed_prefix false (c ∷ pre) s t h same = ground (
  arith,
  h,
  λ (g : is_closed true pre ≡ true). closed_prefix true pre s t g same,
  λ (g : is_closed false pre ≡ true). closed_prefix false pre s t g same,
)
closed_prefix true (c ∷ pre) s t h same = ground (
  arith,
  h,
  λ (g : is_closed true pre ≡ true). closed_prefix true pre s t g same,
  λ (g : is_closed false pre ≡ true). closed_prefix false pre s t g same,
)

-- A fixed part before statements of the same outline.
pub same-fixed :
    (pre s t : Bytes)
    → is_closed false pre ≡ true
    → SameOutline s t
    → SameOutline (pre ++ s) (pre ++ t)
unfolding place
same-fixed pre s t closed rest = record { same = closed_prefix false pre s t closed rest }

pub same_refl : (s : Bytes) → SameOutline s s
same_refl s = record { same = refl }

module _ {ℓ} {W : Type ℓ} (world : World W) (escapes : EscapesTexts world) where
  -- What follows the quote that begins a text.
  in_quotes :
      (s t : Bytes)
      → outline outside (c_str (b'\'' ∷ (world.mysql_real_escape_string s ++ b'\'' ∷ t)))
        ≡ b'\'' ∷ (b'\'' ∷ outline outside (c_str t))
  unfolding outline c_str
  in_quotes s t =
      ap (λ l. b'\'' ∷ outline in_text l) (escapes.no_zero s (b'\'' ∷ t))
      ∙ ap (◌∷◌ b'\'') (escapes.stays_in_text s (c_str (b'\'' ∷ t)))

  -- Two texts in quotes before statements of the same outline.
  pub same-quoted :
      (db : Db W) (a b s t : Bytes)
      → db.connected ≡ true
      → SameOutline s t
      → SameOutline (quoted world db a ++ s) (quoted world db b ++ t)
  unfolding escape
  same-quoted db a b s t connected rest = record {
    same = at_front a s ∙ ap (λ l. b'\'' ∷ (b'\'' ∷ l)) rest.same ∙ sym (at_front b t);
  }
    where
      at_front :
          (c r : Bytes)
          → outline outside (c_str (quoted world db c ++ r))
            ≡ b'\'' ∷ (b'\'' ∷ outline outside (c_str r))
      at_front c r =
          ap (λ l. outline outside (c_str (b'\'' ∷ l)))
            (append_assoc (escape world db c) (b'\'' ∷ []) r
              ∙ ap (λ l. l ++ b'\'' ∷ r) (if_then _ _ connected))
          ∙ in_quotes c r

  -- Two texts in quotes at the end.
  pub same-quoted_end :
      (db : Db W) (a b : Bytes)
      → db.connected ≡ true
      → SameOutline (quoted world db a) (quoted world db b)
  same-quoted_end db a b connected =
      subst (λ s. SameOutline s (quoted world db b)) (append-nil (quoted world db a))
        (subst (λ t. SameOutline (quoted world db a ++ []) t) (append-nil (quoted world db b))
          (same-quoted db a b [] [] connected (same_refl [])))
