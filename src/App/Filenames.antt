-- ===== src/App/Filenames.antt =====
-- application/src/FilenameMap.cpp, inc/FilenameMap.h. The JSON library is a parameter: what `dump`
-- writes of a map, unless it throws, and what `parse` reads, unless it throws. `file` is what the
-- mapping file holds, `none` if there is none. The mutex is left out.
use c_cloud_storage.Prelude.{
  ◌≡◌, refl, ap, ◌∙◌, Bool, true, false, Option, none, some, [], if◌then◌else◌, Bytes, eqb,
}
use c_cloud_storage.Prelude.Dict.{Dict, lookup, insert, erase, lookup-insert}

-- nlohmann/json, for maps of strings.
pub record Json : Type 0 where
  pub dump : Dict Bytes → Option Bytes
  pub parse : Bytes → Option (Dict Bytes)

pub record FilenameMap : Type 0 where
  pub mapping : Dict Bytes
  pub file : Option Bytes

abbrev pub create : Option Bytes → FilenameMap
create file = record { mapping = []; file = file }

abbrev pub or_same : Dict Bytes → Option (Dict Bytes) → Dict Bytes
or_same m none = m
or_same m (some n) = n

abbrev pub read_mapping : Json → Dict Bytes → Option Bytes → Dict Bytes
read_mapping j m none = m
read_mapping j m (some text) = or_same m (j.parse text)

unfoldable pub load : Json → FilenameMap → FilenameMap
load j f = record f { mapping = read_mapping j f.mapping f.file }

-- The file is emptied before the map is written.
abbrev pub or_empty_file : Option Bytes → Bytes
or_empty_file none = []
or_empty_file (some text) = text

unfoldable pub save : Json → FilenameMap → FilenameMap
save j f = record f { file = some (or_empty_file (j.dump f.mapping)) }

unfoldable pub add : Json → Bytes → Bytes → FilenameMap → FilenameMap
unfolding load save insert
add j server original f =
    let g = load j f in save j (record g { mapping = insert server original g.mapping })

abbrev pub or_key : Bytes → Option Bytes → Bytes
or_key k none = k
or_key k (some v) = v

unfoldable pub get_original : Json → Bytes → FilenameMap → Bytes
unfolding load lookup
get_original j server f = or_key server (lookup server (load j f).mapping)

unfoldable pub get_all : Json → FilenameMap → Dict Bytes
unfolding load
get_all j f = (load j f).mapping

unfoldable pub remove : Json → Bytes → FilenameMap → FilenameMap
unfolding load save erase
remove j server f = let g = load j f in save j (record g { mapping = erase server g.mapping })

-- The map that `add` writes.
abbrev pub added : Json → Bytes → Bytes → FilenameMap → Dict Bytes
added j server original f = insert server original (load j f).mapping

or_key-if :
    (key original : Bytes) (b : Bool) (o : Option Bytes)
    → or_key key (if b then some original else o) ≡ (if b then original else or_key key o)
or_key-if key original true o = refl
or_key-if key original false o = refl

-- A name that was added is found, and no other name changes, also by another `FilenameMap` of the
-- same file: each call reads the file. The library can write the map, and reads back what it wrote.
pub get_original-add :
    (j : Json) (server key original text : Bytes) (f g : FilenameMap)
    → j.dump (added j server original f) ≡ some text
    → j.parse text ≡ some (added j server original f)
    → g.file ≡ (add j server original f).file
    → get_original j key g ≡ (if eqb server key then original else get_original j key f)
unfolding get_original add load save
get_original-add j server key original text f g writes reads same =
    ap (λ file. or_key key (lookup key (read_mapping j g.mapping file)))
      (same ∙ ap (λ o. some (or_empty_file o)) writes)
    ∙ ap (λ o. or_key key (lookup key (or_same g.mapping o))) reads
    ∙ ap (or_key key) (lookup-insert server key original (read_mapping j f.mapping f.file))
    ∙ or_key-if key original (eqb server key) (lookup key (read_mapping j f.mapping f.file))

-- When the library throws on the map, as it does for a name that is not UTF-8, `add` leaves an
-- empty file: a program that starts from it finds no name at all, also none that was there before.
-- The library does not read an empty text.
add_loses_all :
    (j : Json) (server key original : Bytes) (f : FilenameMap)
    → j.dump (added j server original f) ≡ none
    → j.parse [] ≡ none
    → get_original j key (create (add j server original f).file) ≡ key
unfolding get_original add load save lookup
add_loses_all j server key original f throws empty =
    ap (λ o. or_key key (lookup key (read_mapping j [] (some (or_empty_file o))))) throws
    ∙ ap (λ o. or_key key (lookup key (or_same [] o))) empty
