-- ===== src/Elf/Symbols.antt =====
-- The loops of `_symbol_tables` over the tables and over their rows.
use zaynor.Prelude.{
  ℕ, suc, ◌+◌, ◌-◌, ◌/◌, ◌%◌, String, Bool, true, false, ◌&&◌, ◌||◌, not, Option, none, some, List,
  [], ◌∷◌, ◌++◌, if◌then◌else◌, leb, ltb, ◌==◌, length, filter, take,
}
use zaynor.Elf.Image.{
  Elf, M, ◌>>=◌, ◌>>◌, return, issue, issue_if, unpacked, Place, all_sections, section_at, Name,
  absent, cstring,
}
use zaynor.Elf.Sections.{Section}
use zaynor.Elf.Dynamic.{strings_section}
use Prim.Native.Nat.{min}
use zaynor.Elf.SymbolRows.{
  Symbol, SymbolTable, max_symbol_tables, max_symbols_listed, max_symbol_entries_scanned, count_key,
  bind_key, type_key, symbol_entsize, symbol_rows, st_name, st_info, st_other, st_shndx, st_value,
  st_size,
}

-- The variables of the loop over the rows.
pub record Scan : Type 0 where
  pub binds : List (String × ℕ)
  pub types : List (String × ℕ)
  pub undefined : ℕ
  pub capped : Bool
  pub listed_total : ℕ
  pub symbols : List Symbol

-- What the tables share: the entries that may still be scanned, and the symbols listed so far.
pub record Quota : Type 0 where
  pub scan_budget : ℕ
  pub listed_total : ℕ

abbrev pub empty_table : Section → SymbolTable
empty_table t = record {
  section_index = t.index;
  is_symtab = t.kind == 2;
  entry_count = none;
  scanned_count = 0;
  bind_counts = [];
  type_counts = [];
  undefined_count = 0;
  listed_count = 0;
  symbols = [];
}

module _ (e : Elf) where
  unfoldable pub is_undefined : ℕ → List ℕ → Bool
  is_undefined index raw = not (index == 0) && st_shndx e raw == 0

  unfoldable pub symbol_of : ℕ → List ℕ → Name → Symbol
  symbol_of index raw name = record {
    index = index;
    name = name;
    value = st_value e raw;
    size = st_size e raw;
    bind = st_info e raw / 16;
    kind = st_info e raw % 16;
    visibility = st_other e raw % 4;
    shndx = st_shndx e raw;
    undefined = is_undefined index raw;
  }

  unfoldable pub symbol_name : Option (ℕ × ℕ) → ℕ → Place → M Name
  symbol_name none index place = return absent
  symbol_name (some t) index place = cstring e t.0 t.1 index place

  -- The counts of one row.
  unfoldable pub count_symbol : ℕ → List ℕ → Scan → Scan
  count_symbol index raw s = record s {
    binds = count_key (bind_key (st_info e raw / 16)) s.binds;
    types = count_key (type_key (st_info e raw % 16)) s.types;
    undefined = (if is_undefined index raw then 1 else 0) + s.undefined;
  }

  -- The body of the loop.
  unfoldable pub scan_symbol : Option (ℕ × ℕ) → Place → ℕ → List ℕ → Scan → M Scan
  unfolding symbol_name
  scan_symbol strtab place index raw s =
      let counted = count_symbol index raw s in
      if index == 0 || st_info e raw / 16 == 0
      then return counted
      else if leb max_symbols_listed s.listed_total
      then return (record counted { capped = true })
      else (symbol_name strtab (st_name e raw) place >>= λ name. return (record counted {
        listed_total = s.listed_total + 1;
        symbols = s.symbols ++ symbol_of index raw name ∷ [];
      }))

  unfoldable pub scan_symbols : Option (ℕ × ℕ) → Place → ℕ → List (List ℕ) → Scan → M Scan
  scan_symbols strtab place index [] s = return s
  scan_symbols strtab place index (raw ∷ rows) s =
      scan_symbol strtab place index raw s >>= λ s'. scan_symbols strtab place (suc index) rows s'

  no_table : Option (ℕ × ℕ) → Bool
  no_table none = true
  no_table (some t) = false

  -- A readable table.
  unfoldable pub read_symbols : List Section → Section → ℕ → Quota → M (SymbolTable × Quota)
  unfolding no_table
  read_symbols sections t stride q = do
    let place = section_at t.index
    issue_if (not (t.size % stride == 0)) "symbol_table_size_not_multiple_of_entsize" place
    let count = t.size / stride
    let scanned = min count q.scan_budget
    issue_if (ltb scanned count) "symbol_scan_budget_exhausted" place
    let strtab = strings_section sections t.link
    issue_if (no_table strtab) "symbol_string_table_unavailable" place
    rows ← unpacked (symbol_rows e t.offset stride scanned)
    r ← scan_symbols strtab place 0 rows (record {
      binds = [];
      types = [];
      undefined = 0;
      capped = false;
      listed_total = q.listed_total;
      symbols = [];
    })
    issue_if r.capped "symbol_listing_capped" place
    return (
      record (empty_table t) {
        entry_count = some count;
        scanned_count = scanned;
        bind_counts = r.binds;
        type_counts = r.types;
        undefined_count = r.undefined;
        listed_count = length r.symbols;
        symbols = r.symbols;
      },
      record { scan_budget = q.scan_budget - scanned; listed_total = r.listed_total },
    )

  unfoldable pub with_stride : List Section → Section → ℕ → Quota → M (SymbolTable × Quota)
  with_stride sections t stride q =
      if t.in_file
      then read_symbols sections t stride q
      else (issue "symbol_table_unreadable" (section_at t.index) >> return (empty_table t, q))

  -- The body of the loop over the tables.
  unfoldable pub symbol_table : List Section → Section → Quota → M (SymbolTable × Quota)
  unfolding with_stride
  symbol_table sections t q =
      if t.entsize == 0
      then (issue "symbol_table_entsize_zero" (section_at t.index)
          >> with_stride sections t (symbol_entsize e) q)
      else if ltb t.entsize (symbol_entsize e)
      then (issue "symbol_table_entsize_too_small" (section_at t.index)
          >> return (empty_table t, q))
      else (issue_if (not (t.entsize == symbol_entsize e)) "nonstandard_symbol_entsize"
            (section_at t.index)
          >> with_stride sections t t.entsize q)

  unfoldable pub read_tables : List Section → List Section → Quota → M (List SymbolTable)
  read_tables sections [] q = return []
  read_tables sections (t ∷ ts) q =
      symbol_table sections t q >>= λ r. read_tables sections ts r.1 >>= λ rest. return (r.0 ∷ rest)

  -- `_symbol_tables`
  unfoldable pub symbol_tables : List Section → M (List SymbolTable)
  symbol_tables sections = do
    let tables = filter (λ s. s.kind == 2 || s.kind == 11) sections
    issue_if (ltb max_symbol_tables (length tables)) "symbol_table_listing_capped" all_sections
    read_tables sections (take max_symbol_tables tables)
        (record { scan_budget = max_symbol_entries_scanned; listed_total = 0 })
