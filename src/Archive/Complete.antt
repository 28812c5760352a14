-- ===== src/Archive/Complete.antt =====
-- What an extraction that succeeds has written.
use esignet_relay_authentica.Prelude.{
  ◌≡◌, refl, sym, ap, ◌∙◌, ◌⊎◌, inl, inr, Bool, true, false, Option, none, some, List, [], ◌∷◌,
  ◌++◌, append_assoc, append-nil, map, if◌then◌else◌, ◌==◌, ==_iff, All, In, All-In, arith,
  Bool-cases,
}
use esignet_relay_authentica.Text.{Text, text_eq}
use esignet_relay_authentica.Json.{sort_members, insert_sorted}
use esignet_relay_authentica.Archive.Defs.{
  Entry, Place, Write, make_dirs, create, Failure, Checked, passed, failed, Hash, place_of,
  check_all, parent, attempt, and_attempt, write_at, write_placed, go_on, write_all, sorted,
  write_checked, extract, exit_with, main,
}

-- The write of an entry at its target.
abbrev pub write_of : Place → Entry → Write
write_of target file =
    if file.directory then make_dirs target else create target file.executable file.content

-- The write was tried after those before it, and the file system did it.
pub record IsWritten (fs : List Write → Write → Bool) (log : List Write) (write : Write)
    : Type 0 where
  pub before : List Write
  pub after : List Write
  pub tried : log ≡ before ++ write ∷ after
  pub well : fs before write ≡ true

pub record IsExtracted (fs : List Write → Write → Bool) (prefix : Text) (destination : Place)
    (log : List Write) (file : Entry) : Type 0 where
  pub place : Place
  pub placed : place_of prefix file.name ≡ some place
  pub written : IsWritten fs log (write_of (place ++ destination) file)

abbrev Extends : List Write → List Write → Type 0
Extends log out = (more : List Write) × (out ≡ log ++ more)

Extends-trans : (a b c : List Write) → Extends a b → Extends b c → Extends a c
Extends-trans a b c (m, e) (n, f) = (m ++ n, f ∙ ap (λ l. l ++ n) e ∙ append_assoc a m n)

module _ (fs : List Write → Write → Bool) where
  still_written :
      (log out : List Write) (write : Write)
      → Extends log out
      → IsWritten fs log write
      → IsWritten fs out write
  still_written log out write (more, e) w = record {
    before = w.before;
    after = w.after ++ more;
    tried = e ∙ ap (λ l. l ++ more) (w.tried) ∙ append_assoc w.before (write ∷ w.after) more;
    well = w.well;
  }

  attempt_lem :
      (write : Write) (log out : List Write)
      → attempt fs write log ≡ (out, true)
      → IsWritten fs out write × Extends log out
  attempt_lem write log out h =
      let is : out ≡ log ++ write ∷ [] = sym (ap (λ r. r.0) h) in
      (record { before = log; after = []; tried = is; well = ap (λ r. r.1) h }, (write ∷ [], is))

  and_attempt_lem :
      (write : Write) (mid : List Write × Bool) (out : List Write)
      → and_attempt fs write mid ≡ (out, true)
      → IsWritten fs out write × Extends mid.0 out
  and_attempt_lem write (log, true) out h = attempt_lem write log out h
  and_attempt_lem write (log, false) out h = absurd (cc h)

  branch_lem :
      (directory : Bool) (dir around file : Write) (log out : List Write)
      → (if directory then attempt fs dir log else and_attempt fs file (attempt fs around log))
        ≡ (out, true)
      → IsWritten fs out (if directory then dir else file) × Extends log out
  branch_lem true dir around file log out h = attempt_lem dir log out h
  branch_lem false dir around file log out h =
      let (written, longer) = and_attempt_lem file (attempt fs around log) out h in
      (written, Extends-trans log (log ++ around ∷ []) out (around ∷ [], refl) longer)

  write_at_lem :
      (target : Place) (file : Entry) (log out : List Write)
      → write_at fs target file log ≡ (out, true)
      → IsWritten fs out (write_of target file) × Extends log out
  unfolding write_at
  write_at_lem target file log out h =
      branch_lem file.directory (make_dirs target) (make_dirs (parent target))
        (create target file.executable file.content) log out h

  write_placed_lem :
      (destination : Place) (file : Entry) (log out : List Write) (o : Option Place)
      → write_placed fs destination file log o ≡ (out, true)
      → (place : Place) × (o ≡ some place)
        × IsWritten fs out (write_of (place ++ destination) file)
        × Extends log out
  write_placed_lem destination file log out none h = absurd (cc h)
  write_placed_lem destination file log out (some place) h =
      let (written, longer) = write_at_lem (place ++ destination) file log out h in
      (place, refl, written, longer)

  go_on_lem :
      (r : List Write × Bool) (next : List Write → List Write × Option Failure) (out : List Write)
      → go_on r next ≡ (out, none)
      → (mid : List Write) × (r ≡ (mid, true)) × (next mid ≡ (out, none))
  go_on_lem (mid, true) next out h = (mid, refl, h)
  go_on_lem (mid, false) next out h = absurd (cc (ap (λ r. r.1) h))

  write_all_lem :
      (prefix : Text) (destination : Place) (files : List Entry) (log out : List Write)
      → write_all fs prefix destination files log ≡ (out, none)
      → All (IsExtracted fs prefix destination out) files × Extends log out
  unfolding write_all
  write_all_lem prefix destination [] log out h =
      (tt, ([], sym (ap (λ r. r.0) h) ∙ sym (append-nil log)))
  write_all_lem prefix destination (file ∷ files) log out h =
      let (mid, one, rest) = go_on_lem _ _ out h in
      let (place, at, written, longer) =
        write_placed_lem destination file log mid (place_of prefix file.name) one in
      let (others, last) = write_all_lem prefix destination files mid out rest in
      (
        (
          record {
            place = place;
            placed = at;
            written = still_written mid out (write_of (place ++ destination) file) last written;
          },
          others,
        ),
        Extends-trans log mid out longer last,
      )

module _ {A : Type 0} where
  In-insert_sorted :
      (x entry : Text × A) (l : List (Text × A))
      → (entry ≡ x) ⊎ In x l
      → In x (insert_sorted entry l)
  unfolding insert_sorted
  In-insert_sorted x entry [] h = h
  In-insert_sorted x entry (other ∷ rest) h = ground (arith, In-insert_sorted x entry rest)

  In-sort_members : (x : Text × A) (l : List (Text × A)) → In x l → In x (sort_members l)
  unfolding sort_members
  In-sort_members x [] h = h
  In-sort_members x (entry ∷ rest) h =
      In-insert_sorted x entry (sort_members rest)
        (elim h [ inl e ↦ inl e | inr i ↦ inr (In-sort_members x rest i) ])

In-map : {A B : Type 0} (f : A → B) (a : A) (l : List A) → In a l → In (f a) (map f l)
In-map f a [] h = h
In-map f a (x ∷ l) h = elim h [ inl e ↦ inl (ap f e) | inr i ↦ inr (In-map f a l i) ]

In-sorted : (file : Entry) (files : List Entry) → In file files → In file (sorted files)
In-sorted file files h =
    In-map (λ (e : Text × Entry). e.1) (file.name, file) _
      (In-sort_members (file.name, file) _ (In-map (λ (f : Entry). (f.name, f)) file files h))

write_checked_lem :
    (hash : Hash) (fs : List Write → Write → Bool) (files : List Entry) (prefix expected : Text)
    (destination : Place) (c : Checked Text) (log : List Write)
    → write_checked hash fs files prefix expected destination c ≡ (log, none)
    → (lines : Text) × (c ≡ passed lines)
      × (hash.total lines ≡ expected)
      × All (IsExtracted fs prefix destination log) files
write_checked_lem hash fs files prefix expected destination (failed f) log h =
    absurd (cc (ap (λ r. r.1) h))
write_checked_lem hash fs files prefix expected destination (passed lines) log h =
    elim (Bool-cases (hash.total lines == expected)) [
      | inl same ↦ (
        lines,
        refl,
        (==_iff (hash.total lines) expected).0 same,
        (write_all_lem fs prefix destination files [] log (ground (arith, h, same))).0,
      )
      | inr other ↦ absurd (ground (arith, h, other))
    ]

-- An archive was verified, and extracted to the last entry.
pub record IsUnpacked (hash : Hash) (fs : List Write → Write → Bool) (archive : Option (List Entry))
    (prefix expected : Text) (destination : Place) (log : List Write) : Type 0 where
  pub files : List Entry
  pub opened : archive ≡ some files
  pub lines : Text
  pub summary : check_all hash prefix [] (sorted files) ≡ passed lines
  pub verified : hash.total lines ≡ expected
  pub extracted : (file : Entry) → In file files → IsExtracted fs prefix destination log file

extract-IsUnpacked :
    (hash : Hash) (fs : List Write → Write → Bool) (archive : Option (List Entry))
    (prefix expected : Text) (destination : Place) (log : List Write)
    → extract hash fs archive prefix expected destination ≡ (log, none)
    → IsUnpacked hash fs archive prefix expected destination log
unfolding extract
extract-IsUnpacked hash fs none prefix expected destination log h = absurd (cc (ap (λ r. r.1) h))
extract-IsUnpacked hash fs (some files) prefix expected destination log h =
    let (lines, summary, verified, all) =
      write_checked_lem hash fs (sorted files) prefix expected destination
        (check_all hash prefix [] (sorted files)) log h in
    record {
      files = files;
      opened = refl;
      lines = lines;
      summary = summary;
      verified = verified;
      extracted = λ file i.
          All-In (IsExtracted fs prefix destination log) (sorted files) file all
            (In-sorted file files i);
    }

exit_with-zero :
    (r : List Write × Option Failure) (log : List Write) → exit_with r ≡ (log, 0) → r ≡ (log, none)
exit_with-zero (out, none) log h = ap (λ r. (r.0, none)) h
exit_with-zero (out, some f) log h = let code = ap (λ r. r.1) h in absurd (omega (arith, code))

-- If the tool exits with 0, it got exactly four arguments, the archive could be opened, the summary of
-- its entries has the expected checksum, and for each entry the directory or the file with the mode
-- and the content of the entry was written well at the entry's place under the destination.
pub main-IsUnpacked :
    (hash : Hash) (fs : List Write → Write → Bool) (open_archive : Text → Option (List Entry))
    (place_at : Text → Place) (args : List Text) (log : List Write)
    → main hash fs open_archive place_at args ≡ (log, 0)
    → (program archive prefix expected destination : Text) × (args
        ≡ program ∷ archive ∷ prefix ∷ expected ∷ destination ∷ [])
      × IsUnpacked hash fs (open_archive archive) prefix expected (place_at destination) log
unfolding main
main-IsUnpacked hash fs open_archive place_at
      (program ∷ archive ∷ prefix ∷ expected ∷ destination ∷ []) log h =
    (
      program,
      archive,
      prefix,
      expected,
      destination,
      refl,
      extract-IsUnpacked hash fs (open_archive archive) prefix expected (place_at destination) log (
          exit_with-zero
            (extract hash fs (open_archive archive) prefix expected (place_at destination)) log h),
    )
main-IsUnpacked hash fs open_archive place_at args log h =
    let code = ap (λ r. r.1) h in absurd (omega (arith, code))
