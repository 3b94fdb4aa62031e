-- ===== src/Prelude/Split.antt =====
-- Cutting a text at a separator, as `std::getline` and the loops over `find` do.
use Prim.Native.Nat.{ℕ}
use mathlib.Core.Path.{◌≡◌, refl, ap, ◌∙◌}
use mathlib.Core.Bool.{false}
use mathlib.Core.List.{List, [], ◌∷◌, ◌++◌, append-nil, append_assoc}
use mathlib.Core.Option.{none, some}
use native.Mathlib.Omega.{arith}
use c_cloud_storage.Prelude.Tests.{◌==◌, if◌then◌else◌}
use c_cloud_storage.Prelude.Lists.{length}
use c_cloud_storage.Prelude.Text.{Bytes, find_byte, is_empty}

-- The byte does not occur in the text.
abbrev pub Lacks : ℕ → Bytes → Type 0
Lacks c [] = Unit {0}
Lacks c (a ∷ s) = ((a == c) ≡ false) × Lacks c s

pub Lacks-append : (c : ℕ) (s t : Bytes) → Lacks c s → Lacks c t → Lacks c (s ++ t)
Lacks-append c [] t h k = k
Lacks-append c (a ∷ s) t h k = (h.0, Lacks-append c s t h.1 k)

-- The pieces of a text between the bytes `sep`; `cur` is the piece read so far.
unfoldable pub pieces : ℕ → Bytes → Bytes → List Bytes
pieces sep cur [] = cur ∷ []
pieces sep cur (c ∷ s) =
    let next = pieces sep [] s in
    let same = pieces sep (cur ++ c ∷ []) s in if c == sep then cur ∷ next else same

pub find_byte_here : (c : ℕ) (s t : Bytes) → Lacks c s → find_byte c (s ++ c ∷ t) ≡ some (length s)
unfolding find_byte
find_byte_here c [] t h = ground arith
find_byte_here c (a ∷ s) t h = ground (arith, find_byte_here c s t h.1)

pub pieces_join :
    (c : ℕ) (cur s t : Bytes) → Lacks c s → pieces c cur (s ++ c ∷ t) ≡ (cur ++ s) ∷ pieces c [] t
unfolding pieces
pieces_join c cur [] t h = ground (arith, append-nil cur)
pieces_join c cur (a ∷ s) t h =
    ground (arith, pieces_join c (cur ++ a ∷ []) s t h.1, append_assoc cur (a ∷ []) s)

pub pieces_last : (c : ℕ) (cur s : Bytes) → Lacks c s → pieces c cur s ≡ (cur ++ s) ∷ []
unfolding pieces
pieces_last c cur [] h = ground (arith, append-nil cur)
pieces_last c cur (a ∷ s) h =
    ground (arith, pieces_last c (cur ++ a ∷ []) s h.1, append_assoc cur (a ∷ []) s)

-- Segments, each behind a slash.
abbrev pub render_path : List Bytes → Bytes
render_path [] = []
render_path (s ∷ ss) = b'/' ∷ (s ++ render_path ss)

abbrev pub AllLack : ℕ → List Bytes → Type 0
AllLack c [] = Unit {0}
AllLack c (s ∷ ss) = Lacks c s × AllLack c ss

pub pieces-render_path :
    (cur s : Bytes) (ss : List Bytes)
    → Lacks b'/' s
    → AllLack b'/' ss
    → pieces b'/' cur (s ++ render_path ss) ≡ (cur ++ s) ∷ ss
pieces-render_path cur s [] h a = rw (append-nil s) (pieces_last b'/' cur s h)
pieces-render_path cur s (t ∷ ts) h a =
    pieces_join b'/' cur s (t ++ render_path ts) h
    ∙ ap (◌∷◌ (cur ++ s)) (pieces-render_path [] t ts a.0 a.1)

-- The pieces that are not empty.
abbrev pub nonempty : List Bytes → List Bytes
nonempty [] = []
nonempty (p ∷ ps) = let rest = nonempty ps in if is_empty p then rest else p ∷ rest

abbrev pub NoneEmpty : List Bytes → Type 0
NoneEmpty [] = Unit {0}
NoneEmpty (s ∷ ss) = (is_empty s ≡ false) × NoneEmpty ss

pub nonempty_all : (ss : List Bytes) → NoneEmpty ss → nonempty ss ≡ ss
nonempty_all [] h = refl
nonempty_all (s ∷ ss) h = rw (h.0) (ap (◌∷◌ s) (nonempty_all ss h.1))

-- The segments of a path between its slashes.
unfoldable pub segments : Bytes → List Bytes
unfolding pieces
segments s = nonempty (pieces b'/' [] s)

pub segments-render_path :
    (ss : List Bytes) → NoneEmpty ss → AllLack b'/' ss → segments (render_path ss) ≡ ss
segments-render_path [] h a = unfold segments pieces in refl
segments-render_path (s ∷ ss) h a =
    unfold segments in
    ap nonempty (
      pieces_join b'/' [] [] (s ++ render_path ss) tt
      ∙ ap (◌∷◌ []) (pieces-render_path [] s ss a.0 a.1))
    ∙ nonempty_all (s ∷ ss) h

pub find_byte-none : (c : ℕ) (s : Bytes) → Lacks c s → find_byte c s ≡ none
unfolding find_byte
find_byte-none c [] h = refl
find_byte-none c (a ∷ s) h = ground (arith, find_byte-none c s h.1)
