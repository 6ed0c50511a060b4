-- ===== src/Elf/Versions.antt =====
-- The versions that symbols require: `_version_needs`. Both loops are counted.
use zaynor.Prelude.{
  ℕ, zero, suc, ◌+◌, String, Bool, true, false, not, Option, none, some, List, [], ◌∷◌,
  if◌then◌else◌, ltb, ◌==◌, get_or,
}
use zaynor.Elf.Image.{
  Elf, M, ◌>>=◌, ◌>>◌, return, issue, issue_if, Place, section_at, Name, absent, unpack, cstring,
}
use zaynor.Elf.Sections.{Section}
use zaynor.Elf.Layout.{first_with}
use zaynor.Elf.Dynamic.{strings_section}
use Prim.Native.Nat.{min}

abbrev pub max_version_needs : ℕ
max_version_needs = 256

pub record Version : Type 0 where
  pub name : Name
  pub flags : ℕ
  pub index : ℕ

pub record VersionNeed : Type 0 where
  pub needed_file : Name
  pub versions : List Version

module _ (e : Elf) (strtab : Option (ℕ × ℕ)) (end : ℕ) (place : Place) where
  -- cstring where there is a string table
  unfoldable pub version_name : Option (ℕ × ℕ) → ℕ → M Name
  version_name none index = return absent
  version_name (some t) index = cstring e t.0 t.1 index place

  -- A row that is read and lies before the end of the table.
  unfoldable pub row_at : String → ℕ → Option (List ℕ)
  row_at fmt position = elim (unpack e fmt position) [
    | none ↦ none
    | some raw ↦ if ltb end (position + 16) then none else some raw
  ]

  -- The loop over the versions of one file.
  unfoldable pub auxiliary : ℕ → ℕ → M (List Version)
  unfolding version_name
  auxiliary zero aux = return []
  auxiliary (suc n) aux = elim (row_at "IHHII" aux) [
    | none ↦ issue "version_needs_malformed" place >> return []
    | some raw ↦ do
      name ← version_name strtab (get_or raw 3 0)
      rest ← elim (get_or raw 4 0 == 0) [
        | true ↦ return []
        | false ↦ auxiliary n (aux + get_or raw 4 0)
      ]
      return (record { name = name; flags = get_or raw 1 0; index = get_or raw 2 0 } ∷ rest)
  ]

  -- The loop over the files.
  unfoldable pub needs_loop : ℕ → ℕ → M (List VersionNeed)
  unfolding version_name
  needs_loop zero position = return []
  needs_loop (suc n) position = elim (row_at "HHIII" position) [
    | none ↦ issue "version_needs_malformed" place >> return []
    | some raw ↦ do
      versions ← auxiliary (min (get_or raw 1 0) max_version_needs) (position + get_or raw 3 0)
      name ← version_name strtab (get_or raw 2 0)
      rest ← elim (get_or raw 4 0 == 0) [
        | true ↦ return []
        | false ↦ needs_loop n (position + get_or raw 4 0)
      ]
      return (record { needed_file = name; versions = versions } ∷ rest)
  ]

no_strings : Option (ℕ × ℕ) → Bool
no_strings none = true
no_strings (some t) = false

unfoldable pub version_needs_in :
    Elf → List Section → Option Section → M (Option (List VersionNeed))
unfolding no_strings
version_needs_in e sections none = return none
version_needs_in e sections (some t) =
    if not t.in_file
    then (issue "version_needs_unreadable" (section_at t.index) >> return (some []))
    else (let strtab = strings_section sections t.link in
        let rounds = if t.info == 0 then max_version_needs else min t.info max_version_needs in
        issue_if (no_strings strtab) "version_needs_string_table_unavailable" (section_at t.index)
        >> (needs_loop e strtab (t.offset + t.size) (section_at t.index) rounds t.offset
            >>= λ needs. return (some needs)))

-- `_version_needs`
unfoldable pub version_needs : Elf → List Section → M (Option (List VersionNeed))
unfolding version_needs_in
version_needs e sections =
    version_needs_in e sections (first_with (λ s. s.kind == 0x6ffffffe) sections)
