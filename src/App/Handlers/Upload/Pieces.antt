-- ===== src/App/Handlers/Upload/Pieces.antt =====
-- A file that is uploaded in pieces.
use c_cloud_storage.Prelude.{
  ℕ, zero, suc, ◌+◌, ◌-◌, ◌≡◌, refl, sym, ap, ◌∙◌, none, some, List, [], ◌∷◌, ◌++◌, length, take,
  drop, if◌then◌else◌, if_else, Bytes, find_text, arith, append-nil, append_assoc, subst, drop_all,
  Bool-cases, inl, inr, ◌≤◌, ltb,
}
use c_cloud_storage.App.Transfer.{join}
use c_cloud_storage.App.Upload.{
  FileUploadContext, State, expect_boundary, complete, write_data, set_state,
}
use c_cloud_storage.App.Handlers.Upload.{
  blank_line, end_of_parts, first_piece, next_piece, write_between,
}

-- The pieces after the first, in order.
unfoldable pub next_pieces : List Bytes → FileUploadContext → FileUploadContext
unfolding next_piece
next_pieces [] c = c
next_pieces (piece ∷ pieces) c = next_pieces pieces (next_piece piece c)

-- Pieces in which no boundary begins and ends.
abbrev pub LackBoundary : Bytes → List Bytes → Type 0
LackBoundary boundary [] = Unit
LackBoundary boundary (piece ∷ pieces) =
    (find_text boundary piece ≡ none)
    × (find_text (end_of_parts boundary) piece ≡ none)
    × LackBoundary boundary pieces

-- An upload that has written `s` so far and has more to come, or is complete.
abbrev pub Received : State → Bytes → FileUploadContext → FileUploadContext → Type 0
Received state s before c = (c.file ≡ some s) × (c.state ≡ state) × (c.boundary ≡ before.boundary)

pub between_piece :
    (piece : Bytes) (c : FileUploadContext) (s : Bytes)
    → c.file ≡ some s
    → c.state ≡ expect_boundary
    → find_text c.boundary piece ≡ none
    → find_text (end_of_parts c.boundary) piece ≡ none
    → Received expect_boundary (s ++ piece) c (next_piece piece c)
unfolding next_piece write_data
between_piece [] c s f st p e = (f ∙ ap some (sym (append-nil s)), st, refl)
between_piece (b ∷ piece) c s f st p e =
    (ground (arith, f, st, p, e), ground (arith, f, st, p, e), ground (arith, f, st, p, e))

no_end : (boundary : Bytes) → find_text (end_of_parts boundary) [] ≡ none
unfolding find_text
no_end [] = refl
no_end (b ∷ boundary) = refl

last_piece :
    (piece : Bytes) (c : FileUploadContext) (s : Bytes) (n : ℕ)
    → c.file ≡ some s
    → c.state ≡ expect_boundary
    → find_text (end_of_parts c.boundary) piece ≡ some n
    → Received complete (s ++ take n piece) c (next_piece piece c)
unfolding next_piece write_data
last_piece [] c s n f st e =
    absurd (let no : none ≡ some n = sym (no_end c.boundary) ∙ e in ground (arith, no))
last_piece (b ∷ piece) c s zero f st e =
    (ground (arith, f, st, e, append-nil s), ground (arith, f, st, e), ground (arith, f, st, e))
last_piece (b ∷ piece) c s (suc n) f st e =
    (ground (arith, f, st, e), ground (arith, f, st, e), ground (arith, f, st, e))

between_pieces :
    (pieces : List Bytes) (c : FileUploadContext) (s : Bytes)
    → c.file ≡ some s
    → c.state ≡ expect_boundary
    → LackBoundary c.boundary pieces
    → Received expect_boundary (s ++ join pieces) c (next_pieces pieces c)
unfolding next_pieces
between_pieces [] c s f st plain = (f ∙ ap some (sym (append-nil s)), st, refl)
between_pieces (piece ∷ pieces) c s f st plain =
    let one = between_piece piece c s f st plain.0 plain.1 in
    let rest =
      between_pieces pieces (next_piece piece c) (s ++ piece) one.0 one.1
        (subst (λ b. LackBoundary b pieces) (sym one.2) plain.2) in
    (rest.0 ∙ ap some (append_assoc s piece (join pieces)), rest.1, rest.2 ∙ one.2)

-- What the first call writes behind the header of the part.
abbrev after_header : ℕ → Bytes → FileUploadContext → FileUploadContext
after_header n body c = if ltb n (length body) then write_data (drop n body) c else c

after_header_lem :
    (n : ℕ) (body content : Bytes) (c : FileUploadContext)
    → c.file ≡ some []
    → drop n body ≡ content
    → ((after_header n body c).file ≡ some content)
      × ((after_header n body c).boundary ≡ c.boundary)
unfolding write_data
after_header_lem n body content c f e = elim (Bool-cases (ltb n (length body))) [
  | inl more ↦ (ground (arith, more, f, e), ground (arith, more, f))
  | inr none_left ↦
      (let nothing : content ≡ [] =
          sym e
          ∙ drop_all n body (let past : length body ≤ n = ground (arith, none_left) in past) in
        (
          ap (λ (d : FileUploadContext). d.file) (if_else _ _ none_left)
              ∙ f
              ∙ ap some (sym nothing),
          ap (λ (d : FileUploadContext). d.boundary) (if_else _ _ none_left),
        ))
]

first_lem :
    (n : ℕ) (body content : Bytes) (c : FileUploadContext)
    → c.file ≡ some []
    → find_text blank_line body ≡ some n
    → drop (n + 4) body ≡ content
    → find_text (end_of_parts c.boundary) body ≡ none
    → (d : FileUploadContext) × (first_piece body c ≡ some d) × Received expect_boundary content c d
unfolding first_piece
first_lem n body content c f at behind e =
    let written = after_header_lem (n + 4) body content c f behind in
    (
      set_state expect_boundary (after_header (n + 4) body c),
      ground (arith, at, e),
      (written.0, refl, written.1),
    )

-- An upload that comes in pieces: the first has the header of the part, up to the first blank line,
-- and the last the end of the parts; no piece before the last has a boundary in it. Then the upload
-- is complete, and its file holds what is behind the header in the first piece, the pieces between,
-- and the last one up to the end of the parts, one after the other.
pub next_pieces-first_piece :
    (n m : ℕ) (body last : Bytes) (between : List Bytes) (c : FileUploadContext)
    → c.file ≡ some []
    → find_text blank_line body ≡ some n
    → find_text (end_of_parts c.boundary) body ≡ none
    → LackBoundary c.boundary between
    → find_text (end_of_parts c.boundary) last ≡ some m
    → (d : FileUploadContext) × (first_piece body c ≡ some d)
      × ((next_piece last (next_pieces between d)).state ≡ complete)
      × ((next_piece last (next_pieces between d)).file
          ≡ some (drop (n + 4) body ++ (join between ++ take m last)))
next_pieces-first_piece n m body last between c f at e plain ending =
    let first = first_lem n body (drop (n + 4) body) c f at refl e in
    let d = first.0 in
    let begun = first.2 in
    let middle =
      between_pieces between d (drop (n + 4) body) begun.0 begun.1
        (subst (λ b. LackBoundary b between) (sym begun.2) plain) in
    let end =
      last_piece last (next_pieces between d) (drop (n + 4) body ++ join between) m middle.0
        middle.1 (ap (λ b. find_text (end_of_parts b) last) (middle.2 ∙ begun.2) ∙ ending) in
    (
      d,
      first.1,
      end.1,
      end.0 ∙ ap some (append_assoc (drop (n + 4) body) (join between) (take m last)),
    )

-- An upload that comes at once: behind the header it writes up to the end of the parts, with the
-- line break before that end.
pub first_piece_whole :
    (n m : ℕ) (body : Bytes) (c : FileUploadContext) (s : Bytes)
    → c.file ≡ some s
    → find_text blank_line body ≡ some n
    → find_text (end_of_parts c.boundary) body ≡ some m
    → n + 4 ≤ m
    → (d : FileUploadContext) × (first_piece body c ≡ some d)
      × (d.state ≡ complete)
      × (d.file ≡ some (s ++ take (m - (n + 4)) (drop (n + 4) body)))
unfolding first_piece write_between write_data
first_piece_whole n m body c s f at e behind = (
  set_state complete (write_data (take (m - (n + 4)) (drop (n + 4) body)) c),
  ground (arith, at, e, behind),
  refl,
  ground (arith, f),
)
