-- ===== src/Elf/Image.antt =====
-- The image, the issues, and the reads of bytes: the class `_Elf` up to `cstring`. A method is a
-- function of the issues so far. Offsets and sizes are unsigned fields, so natural numbers.
use zaynor.Prelude.{
  Outcome, ok, raised, ℕ, suc, ◌+◌, ◌*◌, ◌-◌, String, Bool, true, false, Option, none, some, List,
  [], ◌∷◌, ◌++◌, if◌then◌else◌, leb, ltb, ◌==◌, length, take, drop, slice,
}
use Prim.Native.Char.{code}
use Prim.Native.Nat.{min}

pub data Endian : Type 0 where
  little big : Endian

-- `data`, `endian` and `is64`.
pub record Elf : Type 0 where
  pub bytes : List ℕ
  pub endian : Endian
  pub is64 : Bool

-- The places that an issue names: "section:3", "segment:0", and the fixed ones.
pub data Place : Type 0 where
  nowhere header file all_sections all_segments : Place
  section_at segment_at : ℕ → Place

pub record Issue : Type 0 where
  pub code : String
  pub place : Place

pub record Issues : Type 0 where
  pub listed : List Issue
  pub overflow : Bool

abbrev pub no_issues : Issues
no_issues = record { listed = []; overflow = false }

abbrev pub max_issues : ℕ
max_issues = 256

abbrev pub max_name_bytes : ℕ
max_name_bytes = 1024

-- What `struct` raises on bytes that are too few or too many.
pub data StructError : Type 0 where
  struct_error : StructError

-- A method: it returns, with the issues so far, or it raises, which nothing in the parser catches.
abbrev pub M {ℓ} : Type ℓ → Type ℓ
M A = Issues → Outcome StructError (A × Issues)

abbrev pub go_on {ℓ κ} :
    {A : Type ℓ} {B : Type κ}
    → Outcome StructError (A × Issues)
    → (A → M B)
    → Outcome StructError (B × Issues)
go_on (ok r) f = f r.0 r.1
go_on (raised e) f = raised e

infixl 5 ◌>>=◌ ◌>>◌
unfoldable pub ◌>>=◌ {ℓ κ} : {A : Type ℓ} {B : Type κ} → M A → (A → M B) → M B
◌>>=◌ m f log = go_on (m log) f

unfoldable pub ◌>>◌ {ℓ} : {B : Type ℓ} → M (Unit {0}) → M B → M B
◌>>◌ m k log = go_on (m log) (λ u. k)

unfoldable pub return {ℓ} : {A : Type ℓ} → A → M A
return a log = ok (a, log)

-- What `struct` gave, or the exception that it raised.
unfoldable pub unpacked {ℓ} : {A : Type ℓ} → Outcome StructError A → M A
unpacked (ok a) log = ok (a, log)
unpacked (raised e) log = raised e

unfoldable pub raise {ℓ} : {A : Type ℓ} → StructError → M A
raise e log = raised e

add_issue : String → Place → Issues → Issues
add_issue code place log = record log {
  listed = log.listed ++ record { code = code; place = place } ∷ [];
}

-- `issue`
unfoldable pub issue : String → Place → M (Unit {0})
unfolding add_issue
issue code place log =
    if leb max_issues (length log.listed)
    then if log.overflow
      then ok (tt, log)
      else ok (tt, record (add_issue "issue_limit_reached" nowhere log) { overflow = true })
    else ok (tt, add_issue code place log)

unfoldable pub issue_if : Bool → String → Place → M (Unit {0})
issue_if true code place = issue code place
issue_if false code place = return tt

-- The widths of the fields of a `struct` format with an explicit byte order, hence unpadded.
abbrev pub widths : String → List ℕ
widths String.[] = []
widths (String.◌∷◌ c s) =
    (if code c == b'B'
      then 1
      else if code c == b'H'
      then 2
      else if code c == b'Q'
      then 8
      else if code c == b'q'
      then 8
      else 4)
    ∷ widths s

abbrev pub total : List ℕ → ℕ
total [] = 0
total (w ∷ ws) = w + total ws

abbrev pub little_value : List ℕ → ℕ
little_value [] = 0
little_value (b ∷ bs) = b + 256 * little_value bs

abbrev pub big_value : ℕ → List ℕ → ℕ
big_value acc [] = acc
big_value acc (b ∷ bs) = big_value (256 * acc + b) bs

unfoldable pub uint : Endian → List ℕ → ℕ
uint little bs = little_value bs
uint big bs = big_value 0 bs

unfoldable pub fields : Endian → List ℕ → List ℕ → List ℕ
fields en [] bs = []
fields en (w ∷ ws) bs = uint en (take w bs) ∷ fields en ws (drop w bs)

-- The position of the first NUL byte.
unfoldable pub find_nul : List ℕ → Option ℕ
find_nul [] = none
find_nul (b ∷ bs) =
    if b == 0 then some 0 else (elim (find_nul bs) [ none ↦ none | some i ↦ some (suc i) ])

-- What `cstring` gives: no name, or bytes and whether they were cut, which `decode_name` renders.
pub data Name : Type 0 where
  absent : Name
  named : List ℕ → Bool → Name

module _ (e : Elf) where
  abbrev pub size : ℕ
  size = length e.bytes

  unfoldable pub in_bounds : ℕ → ℕ → Bool
  in_bounds offset len = leb (offset + len) size

  unfoldable pub unpack : String → ℕ → Option (List ℕ)
  unfolding in_bounds fields
  unpack fmt offset =
      if in_bounds offset (total (widths fmt))
      then some (fields e.endian (widths fmt) (drop offset e.bytes))
      else none

  -- The name that starts at `start`, given where `find` met a NUL byte.
  unfoldable pub ended_name : ℕ → ℕ → Place → Option ℕ → M Name
  ended_name start end place (some n) = return (named (slice start (start + n) e.bytes) false)
  ended_name start end place none =
      if ltb max_name_bytes (end - start)
      then (issue "name_truncated" place
          >> return (named (slice start (start + max_name_bytes) e.bytes) true))
      else (issue "unterminated_name" place >> return absent)

  unfoldable pub cstring : ℕ → ℕ → ℕ → Place → M Name
  unfolding ended_name find_nul
  cstring table_offset table_size index place =
      if leb table_size index
      then (issue "name_offset_out_of_bounds" place >> return absent)
      else (let start = table_offset + index in
          let end = table_offset + table_size in
          ended_name start end place
            (find_nul (slice start (min end (start + max_name_bytes + 1)) e.bytes)))
