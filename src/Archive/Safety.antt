-- ===== src/Archive/Safety.antt =====
-- What the extraction writes, where, and when.
use esignet_relay_authentica.Prelude.{
  ◌≡◌, refl, ◌≢◌, ◌⊎◌, inl, inr, Bool, true, false, ◌||◌, not, Option, none, some, List, [], ◌∷◌,
  ◌++◌, eqb, ◌==◌, ==_iff, All, arith, Bool-cases, Option-cases, if_elim, any,
}
use esignet_relay_authentica.Text.{Text, txt, text_eq}
use esignet_relay_authentica.Archive.Defs.{
  strip_prefix, Entry, Place, Write, make_dirs, create, Failure, Checked, passed, failed, Hash,
  local_place, place_of, check_all, check_entry, chain, parent, and_attempt, write_at, write_placed,
  go_on, write_all, sorted, write_checked, extract,
}
use esignet_relay_authentica.Archive.Places.{IsPlain, IsUnder, place_of-Plain}

-- Files are created under the destination; directories also at the one around it.
abbrev pub IsBelow : Place → Write → Type 0
IsBelow destination (make_dirs target) = IsUnder destination target ⊎ (target ≡ parent destination)
IsBelow destination (create target executable content) = IsUnder destination target

All-snoc :
    (P : Write → Type 0) (log : List Write) (write : Write)
    → All P log
    → P write
    → All P (log ++ write ∷ [])
All-snoc P [] write h p = (p, tt)
All-snoc P (first ∷ log) write h p = (h.0, All-snoc P log write h.1 p)

module _ (fs : List Write → Write → Bool) (destination : Place) where
  parent-IsBelow :
      (place : Place)
      → All IsPlain place
      → IsBelow destination (make_dirs (parent (place ++ destination)))
  parent-IsBelow [] h = inr refl
  parent-IsBelow (part ∷ place) h = inl (place, h.1, refl)

  and_attempt-IsBelow :
      (write : Write) (out : List Write × Bool)
      → All (IsBelow destination) out.0
      → IsBelow destination write
      → All (IsBelow destination) (and_attempt fs write out).0
  and_attempt-IsBelow write (log, true) h p = All-snoc (IsBelow destination) log write h p
  and_attempt-IsBelow write (log, false) h p = h

  write_at-IsBelow :
      (place : Place) (file : Entry) (log : List Write)
      → All IsPlain place
      → All (IsBelow destination) log
      → All (IsBelow destination) (write_at fs (place ++ destination) file log).0
  unfolding write_at
  write_at-IsBelow place file log plain h =
      if_elim (λ (out : List Write × Bool). All (IsBelow destination) out.0) file.directory
        (λ _. All-snoc (IsBelow destination) log _ h (inl (place, plain, refl)))
        (λ _.
          and_attempt-IsBelow _ _
            (All-snoc (IsBelow destination) log _ h (parent-IsBelow place plain))
            (place, plain, refl))

  write_placed-IsBelow :
      (file : Entry) (log : List Write) (o : Option Place)
      → ((place : Place) → o ≡ some place → All IsPlain place)
      → All (IsBelow destination) log
      → All (IsBelow destination) (write_placed fs destination file log o).0
  write_placed-IsBelow file log none plain h = h
  write_placed-IsBelow file log (some place) plain h =
      write_at-IsBelow place file log (plain place refl) h

  go_on-IsBelow :
      (out : List Write × Bool) (next : List Write → List Write × Option Failure)
      → All (IsBelow destination) out.0
      → ((log : List Write)
          → All (IsBelow destination) log
          → All (IsBelow destination) (next log).0)
      → All (IsBelow destination) (go_on out next).0
  go_on-IsBelow (log, true) next h later = later log h
  go_on-IsBelow (log, false) next h later = h

  write_all-IsBelow :
      (prefix : Text) (files : List Entry) (log : List Write)
      → All (IsBelow destination) log
      → All (IsBelow destination) (write_all fs prefix destination files log).0
  unfolding write_all
  write_all-IsBelow prefix [] log h = h
  write_all-IsBelow prefix (file ∷ files) log h =
      go_on-IsBelow (write_placed fs destination file log (place_of prefix file.name))
        (write_all fs prefix destination files)
        (write_placed-IsBelow file log (place_of prefix file.name) (place_of-Plain prefix file.name)
          h)
        (λ later. write_all-IsBelow prefix files later)

write_checked-IsBelow :
    (hash : Hash) (fs : List Write → Write → Bool) (files : List Entry) (prefix expected : Text)
    (destination : Place) (c : Checked Text)
    → All (IsBelow destination) (write_checked hash fs files prefix expected destination c).0
write_checked-IsBelow hash fs files prefix expected destination (failed f) = tt
write_checked-IsBelow hash fs files prefix expected destination (passed lines) =
    if_elim (λ (out : List Write × Option Failure). All (IsBelow destination) out.0)
      (hash.total lines == expected) (λ _. write_all-IsBelow fs destination prefix files [] tt)
      (λ _. tt)

-- Whatever the archive's entries are named and whatever the file system does, every file that
-- `extract` tries to create lies under the destination, by parts without slashes that are not dots
-- or double dots, and every directory does too or is the one around the destination.
pub extract-IsBelow :
    (hash : Hash) (fs : List Write → Write → Bool) (archive : Option (List Entry))
    (prefix expected : Text) (destination : Place)
    → All (IsBelow destination) (extract hash fs archive prefix expected destination).0
unfolding extract
extract-IsBelow hash fs none prefix expected destination = tt
extract-IsBelow hash fs (some files) prefix expected destination =
    write_checked-IsBelow hash fs (sorted files) prefix expected destination
      (check_all hash prefix [] (sorted files))

write_checked-verified :
    (hash : Hash) (fs : List Write → Write → Bool) (files : List Entry) (prefix expected : Text)
    (destination : Place) (c : Checked Text)
    → (write_checked hash fs files prefix expected destination c).0 ≢ []
    → (lines : Text) × (c ≡ passed lines) × (hash.total lines ≡ expected)
write_checked-verified hash fs files prefix expected destination (failed f) h = absurd (h refl)
write_checked-verified hash fs files prefix expected destination (passed lines) h =
    elim (Bool-cases (hash.total lines == expected)) [
      | inl same ↦ (lines, refl, (==_iff (hash.total lines) expected).0 same)
      | inr other ↦ absurd (h (rw other refl))
    ]

-- What the first loop has seen of an entry: a place under the destination, no link, a whole content.
pub record IsVetted (prefix : Text) (file : Entry) : Type 0 where
  pub place : Place
  pub placed : place_of prefix file.name ≡ some place
  pub no_link : file.symlink ≡ false
  pub content : Text
  pub readable : file.content ≡ some content

check_entry-IsVetted :
    (hash : Hash) (prefix previous : Text) (file : Entry) (line : Text)
    → check_entry hash prefix previous file ≡ passed line
    → IsVetted prefix file
unfolding check_entry place_of
check_entry-IsVetted hash prefix previous file line h =
    elim (Bool-cases (not (file.name == previous || any (λ b. eqb b 10) file.name))) [
      | inr bad ↦ absurd (ground (arith, bad))
      | inl named ↦ elim (Option-cases (strip_prefix (prefix ++ txt "/") file.name)) [
        | inl lost ↦ absurd (ground (arith, named, lost))
        | inr (relative, found) ↦ elim (Option-cases (local_place relative)) [
          | inl lost ↦ absurd (ground (arith, named, found, lost))
          | inr (place, here) ↦ elim (Bool-cases file.symlink) [
            | inl link ↦ absurd (ground (arith, named, found, here, link))
            | inr real ↦ elim (Option-cases file.content) [
              | inl lost ↦ absurd (ground (arith, named, found, here, real, lost))
              | inr (content, whole) ↦ record {
                place = place;
                placed = rw found here;
                no_link = real;
                content = content;
                readable = whole;
              }
            ]
          ]
        ]
      ]
    ]

chain_passed :
    {A B : Type 0} (c : Checked A) (next : A → Checked B) (b : B)
    → chain c next ≡ passed b
    → (a : A) × (c ≡ passed a) × (next a ≡ passed b)
chain_passed (passed a) next b h = (a, refl, h)
chain_passed (failed f) next b h = absurd (cc h)

check_all-IsVetted :
    (hash : Hash) (prefix previous : Text) (files : List Entry) (lines : Text)
    → check_all hash prefix previous files ≡ passed lines
    → All (IsVetted prefix) files
unfolding check_all
check_all-IsVetted hash prefix previous [] lines h = tt
check_all-IsVetted hash prefix previous (file ∷ files) lines h =
    let (line, one, rest) = chain_passed (check_entry hash prefix previous file) _ lines h in
    let (later, all_later, _) = chain_passed (check_all hash prefix file.name files) _ lines rest in
    (
      check_entry-IsVetted hash prefix previous file line one,
      check_all-IsVetted hash prefix file.name files later all_later,
    )

-- Nothing is written, and no write is tried, unless the archive could be opened, the summary of all
-- its entries has the expected checksum, and every entry has a place under the destination, is no
-- symbolic link and could be read.
pub extract-verified :
    (hash : Hash) (fs : List Write → Write → Bool) (archive : Option (List Entry))
    (prefix expected : Text) (destination : Place)
    → (extract hash fs archive prefix expected destination).0 ≢ []
    → (files : List Entry) × (lines : Text) × (archive ≡ some files)
      × (check_all hash prefix [] (sorted files) ≡ passed lines)
      × (hash.total lines ≡ expected)
      × All (IsVetted prefix) (sorted files)
unfolding extract
extract-verified hash fs none prefix expected destination h = absurd (h refl)
extract-verified hash fs (some files) prefix expected destination h =
    let (lines, checked, matches) =
      write_checked-verified hash fs (sorted files) prefix expected destination
        (check_all hash prefix [] (sorted files)) h in
    (
      files,
      lines,
      refl,
      checked,
      matches,
      check_all-IsVetted hash prefix [] (sorted files) lines checked,
    )
