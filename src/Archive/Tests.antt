-- ===== src/Archive/Tests.antt =====
-- An archive of two files, one that breaks out, and the theorems at them.
use esignet_relay_authentica.Prelude.{
  ◌≡◌, refl, ◌≢◌, Bool, true, false, Option, none, some, List, [], ◌∷◌, All,
}
use esignet_relay_authentica.Text.{Text, txt, text_beq, split_on}
use esignet_relay_authentica.Json.{sort_members, insert_sorted, text_lt}
use esignet_relay_authentica.Archive.Defs.{
  Entry, Write, make_dirs, create, invalid_entry, invalid_path, mismatch, passed, Hash,
  strip_prefix, walk, local_place, place_of, check_entry, check_all, write_at, write_all, sorted,
  extract, main, Place,
}
use esignet_relay_authentica.Archive.Complete.{IsUnpacked, main-IsUnpacked}
use esignet_relay_authentica.Archive.Safety.{IsBelow, extract-IsBelow, IsVetted, extract-verified}

archive : Unit {0}
unfolding text_beq split_on sort_members insert_sorted text_lt strip_prefix walk local_place
    place_of check_entry check_all write_at write_all extract main
archive = tt

abbrev plain : Hash
plain = record { hex = λ content. content; total = λ lines. lines }

abbrev open_disk : List Write → Write → Bool
open_disk log write = true

abbrev file : Text → Text → Entry
file name content = record {
  name = name;
  directory = false;
  symlink = false;
  executable = false;
  content = some content;
}

abbrev files : List Entry
files = file (txt "m/d/b") (txt "B") ∷ file (txt "m/a") (txt "A") ∷ []

abbrev summary : Text
summary = txt "A  m/a\nB  m/d/b\n"

extract_tests :
    (extract plain open_disk (some files) (txt "m") summary (txt "out" ∷ []) ≡ (
      make_dirs (txt "out" ∷ [])
          ∷ create (txt "a" ∷ txt "out" ∷ []) false (some (txt "A"))
          ∷ make_dirs (txt "d" ∷ txt "out" ∷ [])
          ∷ create (txt "b" ∷ txt "d" ∷ txt "out" ∷ []) false (some (txt "B"))
          ∷ [],
      none,
    ))
    × (extract plain open_disk (some files) (txt "m") (txt "x") (txt "out" ∷ [])
        ≡ ([], some mismatch))
    × (extract plain open_disk
          (some (file (txt "m/d/../../b") [] ∷ []))
          (txt "m")
          summary
          (txt "out" ∷ [])
        ≡ ([], some invalid_path))
    × (extract plain open_disk
          (some (file (txt "m/a") [] ∷ file (txt "m/a") [] ∷ []))
          (txt "m")
          summary
          (txt "out" ∷ [])
        ≡ ([], some invalid_entry))
unfolding archive
extract_tests = (refl, refl, refl, refl)

extract-IsBelow_example :
    All
      (IsBelow (txt "out" ∷ []))
      (extract plain open_disk (some files) (txt "m") summary (txt "out" ∷ [])).0
extract-IsBelow_example =
    extract-IsBelow plain open_disk (some files) (txt "m") summary (txt "out" ∷ [])

writes : (extract plain open_disk (some files) (txt "m") summary (txt "out" ∷ [])).0 ≢ []
unfolding archive
writes = λ e. cc e

extract-verified_example :
    (given : List Entry) × (lines : Text) × (Path (Option (List Entry)) (some files) (some given))
    × (check_all plain (txt "m") [] (sorted given) ≡ passed lines)
    × (lines ≡ summary)
    × All (IsVetted (txt "m")) (sorted given)
extract-verified_example =
    extract-verified plain open_disk (some files) (txt "m") summary (txt "out" ∷ []) writes

abbrev zips : Text → Option (List Entry)
zips path = some files

abbrev below : Text → Place
below path = path ∷ []

abbrev arguments : List Text
arguments = txt "modulearchive" ∷ txt "m.zip" ∷ txt "m" ∷ summary ∷ txt "out" ∷ []

abbrev unpacked : List Write
unpacked =
    make_dirs (txt "out" ∷ [])
    ∷ create (txt "a" ∷ txt "out" ∷ []) false (some (txt "A"))
    ∷ make_dirs (txt "d" ∷ txt "out" ∷ [])
    ∷ create (txt "b" ∷ txt "d" ∷ txt "out" ∷ []) false (some (txt "B"))
    ∷ []

exits : main plain open_disk zips below arguments ≡ (unpacked, 0)
unfolding archive
exits = refl

main_tests :
    (main plain open_disk zips below (txt "modulearchive" ∷ []) ≡ ([], 2))
    × (main plain open_disk (λ path. none) below arguments ≡ ([], 1))
unfolding archive
main_tests = (refl, refl)

main-IsUnpacked_example :
    (program path prefix expected destination : Text) × (Path
      (List Text)
      arguments
      (program ∷ path ∷ prefix ∷ expected ∷ destination ∷ []))
    × IsUnpacked plain open_disk (zips path) prefix expected (below destination) unpacked
main-IsUnpacked_example = main-IsUnpacked plain open_disk zips below arguments unpacked exits
