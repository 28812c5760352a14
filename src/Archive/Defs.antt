-- ===== src/Archive/Defs.antt =====
-- `extract` over an archive that is read the same way twice. A path is the list of its parts, the
-- innermost first; the file system is a parameter that says which writes go well.
use esignet_relay_authentica.Prelude.{
  ℕ, Bool, true, false, ◌||◌, not, Option, none, some, List, [], ◌∷◌, ◌++◌, eqb, if◌then◌else◌,
  ◌==◌, map, any,
}
use esignet_relay_authentica.Text.{Text, txt, text_eq, is_empty, split_on}
use esignet_relay_authentica.Json.{sort_members, and_then}

-- An entry of the archive; the content is none if it cannot be read to its end.
pub record Entry : Type 0 where
  pub name : Text
  pub directory : Bool
  pub symlink : Bool
  pub executable : Bool
  pub content : Option Text

abbrev pub Place : Type 0
Place = List Text

-- `os.MkdirAll`, and a file that is created, with its mode 0755 or 0644, and filled.
pub data Write : Type 0 where
  make_dirs : Place → Write
  create : Place → Bool → Option Text → Write

pub data Failure : Type 0 where
  no_archive invalid_entry unexpected_prefix invalid_path unreadable mismatch no_write : Failure

pub data Checked (A : Type 0) : Type 0 where
  passed : A → Checked A
  failed : Failure → Checked A

-- The hexadecimal SHA-256 of a content, and the `h1:` form of that of a text.
pub record Hash : Type 0 where
  pub hex : Text → Text
  pub total : Text → Text

-- `strings.HasPrefix` and `strings.TrimPrefix`.
unfoldable pub strip_prefix : Text → Text → Option Text
strip_prefix [] name = some name
strip_prefix (b ∷ prefix) [] = none
strip_prefix (b ∷ prefix) (c ∷ name) = if eqb b c then strip_prefix prefix name else none

abbrev pub drop_part : Place → Option Place
drop_part [] = none
drop_part (part ∷ place) = some place

-- One part of a relative path; none where it leaves the place that the path starts at.
abbrev pub enter_part : Text → Place → Option Place
enter_part part place =
    if is_empty part || part == txt "."
    then some place
    else (if part == txt ".." then drop_part place else some (part ∷ place))

unfoldable pub walk : List Text → Place → Option Place
walk [] place = some place
walk (part ∷ parts) place = and_then (enter_part part place) (walk parts)

abbrev is_rooted : Text → Bool
is_rooted [] = false
is_rooted (b ∷ path) = eqb b b'/'

-- `filepath.IsLocal` on Unix, with the place that `filepath.Join` makes of a local path.
unfoldable pub local_place : Text → Option Place
unfolding walk split_on
local_place path = if is_empty path || is_rooted path then none else walk (split_on b'/' path) []

unfoldable pub place_of : Text → Text → Option Place
unfolding strip_prefix local_place
place_of prefix name = and_then (strip_prefix (prefix ++ txt "/") name) local_place

abbrev pub chain : {A B : Type 0} → Checked A → (A → Checked B) → Checked B
chain (passed a) next = next a
chain (failed f) next = failed f

abbrev pub ensure : Bool → Failure → Checked (Unit {0})
ensure true f = passed tt
ensure false f = failed f

abbrev pub demanded : {A : Type 0} → Option A → Failure → Checked A
demanded none f = failed f
demanded (some a) f = passed a

-- One turn of the first loop: its line of the summary.
unfoldable pub check_entry : Hash → Text → Text → Entry → Checked Text
unfolding strip_prefix local_place
check_entry hash prefix previous file =
    chain (ensure (not (file.name == previous || any (λ b. eqb b 10) file.name)) invalid_entry)
      (λ _.
        chain (demanded (strip_prefix (prefix ++ txt "/") file.name) unexpected_prefix) (λ relative.
          chain (demanded (local_place relative) invalid_path) (λ place.
            chain (ensure (not file.symlink) invalid_path) (λ _.
              chain (demanded file.content unreadable)
                (λ content. passed (hash.hex content ++ txt "  " ++ file.name ++ 10 ∷ []))))))

-- The first loop; `previous` is the name before.
unfoldable pub check_all : Hash → Text → Text → List Entry → Checked Text
unfolding check_entry
check_all hash prefix previous [] = passed []
check_all hash prefix previous (file ∷ files) =
    chain (check_entry hash prefix previous file)
      (λ line. chain (check_all hash prefix file.name files) (λ lines. passed (line ++ lines)))

abbrev pub parent : Place → Place
parent [] = []
parent (part ∷ place) = place

abbrev pub attempt : (List Write → Write → Bool) → Write → List Write → List Write × Bool
attempt fs write log = (log ++ write ∷ [], fs log write)

abbrev pub and_attempt : (List Write → Write → Bool) → Write → List Write × Bool → List Write × Bool
and_attempt fs write (log, true) = attempt fs write log
and_attempt fs write (log, false) = (log, false)

-- One turn of the second loop, at the entry's target.
unfoldable pub write_at :
    (List Write → Write → Bool) → Place → Entry → List Write → List Write × Bool
write_at fs target file log =
    if file.directory
    then attempt fs (make_dirs target) log
    else and_attempt fs (create target file.executable file.content)
        (attempt fs (make_dirs (parent target)) log)

abbrev pub write_placed :
    (List Write → Write → Bool) → Place → Entry → List Write → Option Place → List Write × Bool
write_placed fs destination file log none = (log, false)
write_placed fs destination file log (some place) = write_at fs (place ++ destination) file log

abbrev pub go_on :
    List Write × Bool → (List Write → List Write × Option Failure) → List Write × Option Failure
go_on (log, true) next = next log
go_on (log, false) next = (log, some no_write)

-- The second loop, over names that have passed the first.
unfoldable pub write_all :
    (List Write → Write → Bool)
    → Text
    → Place
    → List Entry
    → List Write
    → List Write × Option Failure
unfolding write_at
write_all fs prefix destination [] log = (log, none)
write_all fs prefix destination (file ∷ files) log =
    go_on (write_placed fs destination file log (place_of prefix file.name))
      (write_all fs prefix destination files)

abbrev pub sorted : List Entry → List Entry
sorted files =
    map (λ (e : Text × Entry). e.1) (sort_members (map (λ (f : Entry). (f.name, f)) files))

-- Extract only after all bytes match the pinned checksum.
abbrev pub write_checked :
    Hash
    → (List Write → Write → Bool)
    → List Entry
    → Text
    → Text
    → Place
    → Checked Text
    → List Write × Option Failure
write_checked hash fs files prefix expected destination (failed f) = ([], some f)
write_checked hash fs files prefix expected destination (passed lines) =
    if hash.total lines == expected
    then write_all fs prefix destination files []
    else ([], some mismatch)

-- `extract`: the writes that were tried, in order, and the failure if there is one. The archive is
-- none if it cannot be opened.
unfoldable pub extract :
    Hash
    → (List Write → Write → Bool)
    → Option (List Entry)
    → Text
    → Text
    → Place
    → List Write × Option Failure
unfolding check_all write_all sort_members
extract hash fs none prefix expected destination = ([], some no_archive)
extract hash fs (some files) prefix expected destination =
    write_checked hash fs (sorted files) prefix expected destination
      (check_all hash prefix [] (sorted files))

abbrev pub exit_with : List Write × Option Failure → List Write × ℕ
exit_with (log, none) = (log, 0)
exit_with (log, some f) = (log, 1)

-- `main`: the writes and the exit code, for `os.Args`. `open_archive` opens the archive at a path,
-- and `place_at` is the place of a path.
unfoldable pub main :
    Hash
    → (List Write → Write → Bool)
    → (Text → Option (List Entry))
    → (Text → Place)
    → List Text
    → List Write × ℕ
unfolding extract
main hash fs open_archive place_at (program ∷ archive ∷ prefix ∷ expected ∷ destination ∷ []) =
    exit_with (extract hash fs (open_archive archive) prefix expected (place_at destination))
main hash fs open_archive place_at args = ([], 2)
