-- ===== src/Elf/Texts.antt =====
-- The sections of text: `_modinfo` and `_comment`. A name is compared as its bytes, which are ASCII.
use zaynor.Prelude.{
  ℕ, suc, ◌+◌, String, Bool, true, false, ◌&&◌, not, Option, none, some, List, [], ◌∷◌,
  if◌then◌else◌, leb, ltb, ◌==◌, length, map, filter, take, slice,
}
use zaynor.Elf.Image.{
  Elf, M, ◌>>=◌, ◌>>◌, return, issue, issue_if, Place, section_at, Name, absent, named,
  max_name_bytes,
}
use zaynor.Elf.Sections.{Section}
use zaynor.Elf.Layout.{first_with}
use zaynor.Elf.Notes.{codes, bytes_eq}

abbrev pub max_modinfo_records : ℕ
max_modinfo_records = 256

abbrev pub max_modinfo_value : ℕ
max_modinfo_value = 1024

abbrev pub max_comment_strings : ℕ
max_comment_strings = 16

abbrev pub max_comment_bytes : ℕ
max_comment_bytes = 256

unfoldable pub is_named : List ℕ → Name → Bool
unfolding bytes_eq
is_named text absent = false
is_named text (named bytes truncated) = bytes_eq bytes text

abbrev pub nonempty : List ℕ → Bool
nonempty [] = false
nonempty (b ∷ bs) = true

-- The first part, and the others; at a separator a new part begins.
push_byte : ℕ → List ℕ × List (List ℕ) → List ℕ × List (List ℕ)
push_byte b r = if b == 0 then ([], r.0 ∷ r.1) else (b ∷ r.0, r.1)

split_parts : List ℕ → List ℕ × List (List ℕ)
unfolding push_byte
split_parts [] = ([], [])
split_parts (b ∷ bs) = push_byte b (split_parts bs)

-- raw.split(b"\x00")
unfoldable pub split_nul : List ℕ → List (List ℕ)
unfolding split_parts
split_nul bs = let r = split_parts bs in r.0 ∷ r.1

-- The non-empty parts of a section's bytes.
unfoldable pub parts_of : Elf → Section → List (List ℕ)
unfolding split_nul
parts_of e s = filter nonempty (split_nul (slice s.offset (s.offset + s.size) e.bytes))

abbrev pub is_text_section : String → Section → Bool
is_text_section name s = is_named (codes name) s.name && s.in_file

pub record ModinfoRecord : Type 0 where
  pub key : List ℕ
  pub value : List ℕ
  pub value_truncated : Bool
  pub malformed : Bool

-- part.partition(b"="): the key, whether the separator is there, and the value.
unfoldable pub partition_eq : List ℕ → List ℕ × Bool × List ℕ
partition_eq [] = ([], false, [])
partition_eq (b ∷ bs) =
    let r = partition_eq bs in if b == b'=' then ([], true, bs) else (b ∷ r.0, r.1, r.2)

unfoldable pub modinfo_record : List ℕ → ModinfoRecord
unfolding partition_eq
modinfo_record part =
    let r = partition_eq part in
    record {
      key = take max_name_bytes r.0;
      value = take max_modinfo_value r.2;
      value_truncated = ltb max_modinfo_value (length r.2);
      malformed = not r.1;
    }

-- The loop over the parts, with the number of records so far.
unfoldable pub modinfo_records : Place → ℕ → List (List ℕ) → M (List ModinfoRecord)
modinfo_records place n [] = return []
modinfo_records place n (part ∷ parts) = elim (leb max_modinfo_records n) [
  | true ↦ issue "modinfo_listing_capped" place >> return []
  | false ↦ modinfo_records place (suc n) parts >>= λ rest. return (modinfo_record part ∷ rest)
]

unfoldable pub modinfo_in : Elf → Option Section → M (Option (List ModinfoRecord))
modinfo_in e none = return none
modinfo_in e (some s) =
    modinfo_records (section_at s.index) 0 (parts_of e s) >>= λ records. return (some records)

-- `_modinfo`
unfoldable pub modinfo : Elf → List Section → M (Option (List ModinfoRecord))
unfolding modinfo_in
modinfo e sections = modinfo_in e (first_with (is_text_section ".modinfo") sections)

-- decode_name(part[:MAX_COMMENT_BYTES], …)
unfoldable pub comment_name : List ℕ → Name
comment_name part = named (take max_comment_bytes part) (ltb max_comment_bytes (length part))

unfoldable pub comment_in : Elf → Option Section → M (List Name)
unfolding comment_name
comment_in e none = return []
comment_in e (some s) = do
  issue_if (ltb max_comment_strings (length (parts_of e s))) "comment_listing_capped"
      (section_at s.index)
  return (map comment_name (take max_comment_strings (parts_of e s)))

-- `_comment`
unfoldable pub comment : Elf → List Section → M (List Name)
unfolding comment_in
comment e sections = comment_in e (first_with (is_text_section ".comment") sections)
