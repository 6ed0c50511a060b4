-- ===== src/Elf/Counting.antt =====
-- The limits that the symbol tables share.
use zaynor.Prelude.{
  ℕ, suc, ◌+◌, ◌*◌, ◌<◌, true, Bool-cases, inl, inr, All, All-take, All-filter, ◌/◌, ◌≤◌, ◌≡◌, refl,
  false, ◌||◌, Option, none, some, List, [], ◌∷◌, leb, ltb, ◌==◌, length, length-append, take,
  filter, length-take-le, arith,
}
use zaynor.Elf.Image.{Elf, Place, section_at, size, in_bounds}
use zaynor.Elf.Sections.{Section}
use zaynor.Elf.Dynamic.{strings_section}
use zaynor.Elf.Symbols.{
  Scan, Quota, symbol_of, symbol_name, count_symbol, scan_symbol, scan_symbols, read_symbols,
  with_stride, symbol_table, read_tables, symbol_tables,
}
use zaynor.Elf.SymbolRows.{
  SymbolTable, max_symbol_tables, max_symbols_listed, max_symbol_entries_scanned, symbol_entsize,
  st_info, st_name,
}
use zaynor.Elf.Tables.{cstring-Gives, SectionIn}
use zaynor.Elf.Rows.{symbol_rows-eq-strided_rows}
use zaynor.Elf.Gives.{
  Gives, return-Gives, unpacked-Gives, Gives-weaken, Gives-if, >>=-Gives, report-Gives,
  report_if-Gives,
}
use Prim.Native.Nat.{min}

abbrev pub total_listed : List SymbolTable → ℕ
total_listed [] = 0
total_listed (t ∷ ts) = length t.symbols + total_listed ts

abbrev pub total_scanned : List SymbolTable → ℕ
total_scanned [] = 0
total_scanned (t ∷ ts) = t.scanned_count + total_scanned ts

-- One step, or many, of the loop over the rows.
abbrev Counts : Scan → Scan → Type 0
Counts s s' =
    (s'.listed_total ≤ max_symbols_listed)
    × (s.listed_total + length s'.symbols ≡ s'.listed_total + length s.symbols)

-- One table: what it takes from the quota.
abbrev Spends : Quota → SymbolTable × Quota → Type 0
Spends q r =
    (r.1.listed_total ≤ max_symbols_listed)
    × (q.listed_total + length r.0.symbols ≡ r.1.listed_total)
    × (r.0.scanned_count + r.1.scan_budget ≡ q.scan_budget)

at_least : (a b : ℕ) → ltb a b ≡ false → b ≤ a
at_least a b h = ground arith

scaled : (a b c : ℕ) → a ≤ b → a * c ≤ b * c
scaled a b c h = grind arith

module _ (e : Elf) where
  symbol_name-Gives :
      (t : Option (ℕ × ℕ)) (i : ℕ) (place : Place) → Gives (symbol_name e t i place) (λ n. Unit {0})
  unfolding symbol_name
  symbol_name-Gives none i place = return-Gives _ tt
  symbol_name-Gives (some t) i place = cstring-Gives e t.0 t.1 i place

  scan_symbol-Gives :
      (t : Option (ℕ × ℕ)) (place : Place) (i : ℕ) (raw : List ℕ) (s : Scan)
      → s.listed_total ≤ max_symbols_listed
      → Gives (scan_symbol e t place i raw s) (Counts s)
  unfolding scan_symbol count_symbol
  scan_symbol-Gives t place i raw s h =
      Gives-if (i == 0 || st_info e raw / 16 == 0) (λ k. return-Gives _ (h, refl))
        (λ k.
          Gives-if (leb max_symbols_listed s.listed_total) (λ l. return-Gives _ (h, refl))
            (λ l. >>=-Gives (symbol_name-Gives t (st_name e raw) place) λ name u.
              return-Gives _ (
                ground arith,
                omega (arith, length-append s.symbols (symbol_of e i raw name ∷ [])),
              )))

  scan_symbols-Gives :
      (t : Option (ℕ × ℕ)) (place : Place) (i : ℕ) (rows : List (List ℕ)) (s : Scan)
      → s.listed_total ≤ max_symbols_listed
      → Gives (scan_symbols e t place i rows s) (Counts s)
  unfolding scan_symbols
  scan_symbols-Gives t place i [] s h = return-Gives s (h, refl)
  scan_symbols-Gives t place i (raw ∷ rows) s h =
      >>=-Gives (scan_symbol-Gives t place i raw s h) λ s' c.
        Gives-weaken (scan_symbols-Gives t place (suc i) rows s' c.0)
          (λ u d. (d.0, omega (arith, c.1, d.1)))

  -- The rows that are scanned lie inside a table that the image holds.
  rows_inside :
      (offset len stride budget : ℕ)
      → 0 < stride
      → offset + len ≤ size e
      → offset + min (len / stride) budget * stride ≤ size e
  rows_inside offset len stride budget p h =
      let a : len / stride * stride ≤ len = grind arith in
      let b : min (len / stride) budget * stride ≤ len / stride * stride =
        scaled (min (len / stride) budget) (len / stride) stride (omega arith) in
      omega arith

  entsize_pos : 0 < symbol_entsize e
  entsize_pos = elim (Bool-cases e.is64) [ inl h ↦ rw h (omega arith) | inr h ↦ rw h (omega arith) ]

  -- A section that is marked as held by the image is.
  held_inside : (t : Section) → SectionIn e t → t.in_file ≡ true → t.offset + t.size ≤ size e
  unfolding in_bounds
  held_inside t h k = ground arith

  read_symbols-Gives :
      (ss : List Section) (t : Section) (stride : ℕ) (q : Quota)
      → symbol_entsize e ≤ stride
      → t.offset + t.size ≤ size e
      → q.listed_total ≤ max_symbols_listed
      → Gives (read_symbols e ss t stride q) (Spends q)
  unfolding read_symbols
  read_symbols-Gives ss t stride q w k h =
      let n = min (t.size / stride) q.scan_budget in
      let p = entsize_pos in
      let r =
        symbol_rows-eq-strided_rows e t.offset stride n w
          (rows_inside t.offset t.size stride q.scan_budget (omega arith) k) in
      report_if-Gives _ _ _ (
        report_if-Gives _ _ _ (
          report_if-Gives _ _ _ (
            >>=-Gives (unpacked-Gives {P = λ rows. Unit {0}} r.0 tt) λ rows u.
              >>=-Gives
                (scan_symbols-Gives (strings_section ss t.link) (section_at t.index) 0 rows
                  (record {
                    binds = [];
                    types = [];
                    undefined = 0;
                    capped = false;
                    listed_total = q.listed_total;
                    symbols = [];
                  })
                  h)
                (λ s c.
                  report_if-Gives _ _ _ (return-Gives _ (c.0, omega (arith, c.1), omega arith))))))

  with_stride-Gives :
      (ss : List Section) (t : Section) (stride : ℕ) (q : Quota)
      → symbol_entsize e ≤ stride
      → SectionIn e t
      → q.listed_total ≤ max_symbols_listed
      → Gives (with_stride e ss t stride q) (Spends q)
  unfolding with_stride
  with_stride-Gives ss t stride q w p h =
      Gives-if t.in_file (λ k. read_symbols-Gives ss t stride q w (held_inside t p k) h)
        (λ k. report-Gives _ _ (return-Gives _ (h, omega arith, omega arith)))

  symbol_table-Gives :
      (ss : List Section) (t : Section) (q : Quota)
      → SectionIn e t
      → q.listed_total ≤ max_symbols_listed
      → Gives (symbol_table e ss t q) (Spends q)
  unfolding symbol_table
  symbol_table-Gives ss t q p h =
      Gives-if (t.entsize == 0)
        (λ k. report-Gives _ _ (with_stride-Gives ss t (symbol_entsize e) q (omega arith) p h))
        (λ k.
          Gives-if (ltb t.entsize (symbol_entsize e))
            (λ l. report-Gives _ _ (return-Gives _ (h, omega arith, omega arith)))
            (λ l.
              report_if-Gives _ _ _
                (with_stride-Gives ss t t.entsize q (at_least t.entsize (symbol_entsize e) l) p h)))

  -- The tables together.
  abbrev pub FewSymbols : ℕ → ℕ → ℕ → List SymbolTable → Type 0
  FewSymbols n budget listed ts =
      (length ts ≡ n)
      × (total_scanned ts ≤ budget)
      × (listed + total_listed ts ≤ max_symbols_listed)

  read_tables-Gives :
      (ss ts : List Section) (q : Quota)
      → All (SectionIn e) ts
      → q.listed_total ≤ max_symbols_listed
      → Gives (read_tables e ss ts q) (FewSymbols (length ts) q.scan_budget q.listed_total)
  unfolding read_tables
  read_tables-Gives ss [] q p h = return-Gives [] (refl, omega arith, omega arith)
  read_tables-Gives ss (t ∷ ts) q p h = >>=-Gives (symbol_table-Gives ss t q p.0 h) λ r c.
      >>=-Gives (read_tables-Gives ss ts r.1 p.1 c.0) λ rest d.
        return-Gives _ (omega (arith, d.0), omega (arith, c.2, d.1), omega (arith, c.1, d.2))

  -- At most eight tables, two million entries scanned and 4096 symbols listed, in all.
  pub record SymbolLimits (ts : List SymbolTable) : Type 0 where
    pub tables : length ts ≤ max_symbol_tables
    pub scanned : total_scanned ts ≤ max_symbol_entries_scanned
    pub listed : total_listed ts ≤ max_symbols_listed

  pub symbol_tables-Gives :
      (ss : List Section) → All (SectionIn e) ss → Gives (symbol_tables e ss) SymbolLimits
  unfolding symbol_tables
  symbol_tables-Gives ss p =
      let ts = filter (λ (s : Section). s.kind == 2 || s.kind == 11) ss in
      report_if-Gives _ _ _ (
        Gives-weaken
          (read_tables-Gives ss (take max_symbol_tables ts)
            (record { scan_budget = max_symbol_entries_scanned; listed_total = 0 })
            (All-take _ max_symbol_tables ts
              (All-filter _ (λ (s : Section). s.kind == 2 || s.kind == 11) ss p))
            (omega arith))
          (λ rs d. record {
            tables = omega (arith, d.0, length-take-le max_symbol_tables ts);
            scanned = d.1;
            listed = omega (arith, d.2);
          }))
