-- ===== src/Elf/Listings.antt =====
-- The limits on what is listed from the dynamic table, the versions, the comments and the module
-- information.
use zaynor.Prelude.{
  ℕ, zero, suc, ◌+◌, ◌*◌, ◌/◌, ◌≤◌, ◌≡◌, refl, Bool, true, false, not, Option, none, some, List, [],
  ◌∷◌, if◌then◌else◌, leb, ◌==◌, length, get_or, take, length-take-le, length-map, arith,
  Bool-cases, Option-cases, inl, inr,
}
use zaynor.Elf.Image.{Elf, M, return, Place, section_at, unpack}
use zaynor.Elf.Sections.{Section}
use zaynor.Elf.Segments.{Segment}
use zaynor.Elf.Layout.{first_with}
use zaynor.Elf.Dynamic.{
  max_dynamic_entries, max_dynamic_strings, Container, DynamicResult, no_dynamic, unreadable,
  dynamic, dynamic_format, dynamic_entsize, dynamic_entries, dynamic_strtab, read_names, names_in,
  strings, read_dynamic, dynamic_in, parse_dynamic, strings_section, values_of,
}
use zaynor.Elf.Versions.{
  max_version_needs, row_at, version_name, auxiliary, needs_loop, version_needs_in, version_needs,
}
use zaynor.Elf.Texts.{
  max_modinfo_records, max_comment_strings, parts_of, modinfo_records, modinfo_in, modinfo,
  is_text_section, comment_name, comment_in, comment,
}
use zaynor.Elf.Tables.{cstring-Gives}
use zaynor.Elf.Gives.{
  Gives, return-Gives, Gives-weaken, Gives-if, >>=-Gives, report-Gives, report_if-Gives,
}
use Prim.Native.Nat.{min}

-- A loop that stops, or goes on for at most the rounds that are left.
stop-Gives :
    {A : Type 0} {k : M (List A)} (n : ℕ) (b : Bool)
    → Gives k (λ xs. length xs ≤ n)
    → Gives (elim b [ true ↦ return [] | false ↦ k ]) (λ xs. length xs ≤ n)
stop-Gives n true g = return-Gives [] (omega arith)
stop-Gives n false g = g

abbrev pub length_of : {A : Type 0} → Option (List A) → ℕ
length_of none = 0
length_of (some xs) = length xs

module _ (e : Elf) where
  -- Dynamic entries

  length-dynamic_entries : (offset n i : ℕ) → length (dynamic_entries e offset n i).0 ≤ n
  unfolding dynamic_entries
  length-dynamic_entries offset zero i = omega arith
  length-dynamic_entries offset (suc n) i =
      elim (Option-cases (unpack e (dynamic_format e) (offset + i * dynamic_entsize e))) [
        | inl h ↦ rw (h, dynamic_entries) (omega arith)
        | inr r ↦
            rw (r.1, dynamic_entries) (ground (arith, length-dynamic_entries offset n (suc i)))
      ]

  read_names-Gives :
      (t : ℕ × ℕ) (place : Place) (vs : List ℕ)
      → Gives (read_names e t place vs) (λ ns. length ns ≡ length vs)
  unfolding read_names
  read_names-Gives t place [] = return-Gives [] refl
  read_names-Gives t place (v ∷ vs) =
      >>=-Gives (cstring-Gives e t.0 t.1 v place)
        λ n u. >>=-Gives (read_names-Gives t place vs) λ ns h. return-Gives _ (omega (arith, h))

  names_in-Gives :
      (t : Option (ℕ × ℕ)) (place : Place) (vs : List ℕ)
      → Gives (names_in e t place vs) (λ ns. length ns ≡ length vs)
  unfolding names_in
  names_in-Gives none place vs = return-Gives _ (length-map _ vs)
  names_in-Gives (some t) place vs = read_names-Gives t place vs

  strings-Gives :
      (t : Option (ℕ × ℕ)) (place : Place) (found : List ℕ)
      → Gives (strings e t place found) (λ ns. length ns ≤ max_dynamic_strings)
  unfolding strings
  strings-Gives t place found = report_if-Gives _ _ _ (
      Gives-weaken (names_in-Gives t place (take max_dynamic_strings found))
        (λ ns h. omega (arith, h, length-take-le max_dynamic_strings found)))

  -- The entries and the strings of a dynamic table are within the limits.
  abbrev pub FewDynamic : DynamicResult → Type 0
  FewDynamic no_dynamic = Unit {0}
  FewDynamic (unreadable place) = Unit {0}
  FewDynamic (dynamic d) =
      (d.entry_count ≤ max_dynamic_entries)
      × (length d.needed ≤ max_dynamic_strings)
      × (length d.soname ≤ max_dynamic_strings)
      × (length d.rpath ≤ max_dynamic_strings)
      × (length d.runpath ≤ max_dynamic_strings)

  read_dynamic-Gives :
      (ss : List Section) (gs : List Segment) (k : Container)
      → Gives (read_dynamic e ss gs k) FewDynamic
  unfolding read_dynamic
  read_dynamic-Gives ss gs k =
      let n = min (k.size / dynamic_entsize e) max_dynamic_entries in
      let r = dynamic_entries e k.offset n 0 in
      let t = dynamic_strtab e ss gs k r.0 in
      report_if-Gives _ _ _ (
        report_if-Gives _ _ _ (
          >>=-Gives (strings-Gives t k.place (values_of 1 r.0)) λ a h1.
            >>=-Gives (strings-Gives t k.place (values_of 14 r.0)) λ b h2.
              >>=-Gives (strings-Gives t k.place (values_of 15 r.0)) λ c h3.
                >>=-Gives (strings-Gives t k.place (values_of 29 r.0)) λ d h4.
                  return-Gives _
                    (omega (arith, length-dynamic_entries k.offset n 0), h1, h2, h3, h4)))

  dynamic_in-Gives :
      (ss : List Section) (gs : List Segment) (k : Option Container)
      → Gives (dynamic_in e ss gs k) FewDynamic
  unfolding dynamic_in
  dynamic_in-Gives ss gs none = return-Gives no_dynamic tt
  dynamic_in-Gives ss gs (some k) =
      Gives-if k.in_file (λ h. read_dynamic-Gives ss gs k)
        (λ h. return-Gives (unreadable k.place) tt)

  pub parse_dynamic-Gives :
      (ss : List Section) (gs : List Segment) → Gives (parse_dynamic e ss gs) FewDynamic
  unfolding parse_dynamic
  parse_dynamic-Gives ss gs = report_if-Gives _ _ _ (dynamic_in-Gives ss gs _)

  -- Versions

  module _ (strtab : Option (ℕ × ℕ)) (end : ℕ) (place : Place) where
    version_name-Gives :
        (t : Option (ℕ × ℕ)) (i : ℕ) → Gives (version_name e strtab end place t i) (λ n. Unit {0})
    unfolding version_name
    version_name-Gives none i = return-Gives _ tt
    version_name-Gives (some t) i = cstring-Gives e t.0 t.1 i place

    auxiliary-Gives : (n aux : ℕ) → Gives (auxiliary e strtab end place n aux) (λ vs. length vs ≤ n)
    unfolding auxiliary
    auxiliary-Gives zero aux = return-Gives [] (omega arith)
    auxiliary-Gives (suc n) aux = elim (Option-cases (row_at e strtab end place "IHHII" aux)) [
      | inl h ↦ rw (h, auxiliary) (report-Gives _ _ (return-Gives [] (omega arith)))
      | inr r ↦
          rw (r.1, auxiliary)
            (>>=-Gives (version_name-Gives strtab (get_or r.0 3 0)) λ name u.
              >>=-Gives
                (stop-Gives n (get_or r.0 4 0 == 0) (auxiliary-Gives n (aux + get_or r.0 4 0)))
                λ vs q. return-Gives _ (omega (arith, q)))
    ]

    needs_loop-Gives :
        (n position : ℕ) → Gives (needs_loop e strtab end place n position) (λ vs. length vs ≤ n)
    unfolding needs_loop
    needs_loop-Gives zero position = return-Gives [] (omega arith)
    needs_loop-Gives (suc n) position =
        elim (Option-cases (row_at e strtab end place "HHIII" position)) [
          | inl h ↦ rw (h, needs_loop) (report-Gives _ _ (return-Gives [] (omega arith)))
          | inr r ↦
              rw (r.1, needs_loop)
                (>>=-Gives
                  (auxiliary-Gives (min (get_or r.0 1 0) max_version_needs)
                    (position + get_or r.0 3 0))
                  λ versions u. >>=-Gives (version_name-Gives strtab (get_or r.0 2 0)) λ name v.
                    >>=-Gives
                      (stop-Gives n (get_or r.0 4 0 == 0)
                        (needs_loop-Gives n (position + get_or r.0 4 0)))
                      λ rest q. return-Gives _ (omega (arith, q)))
        ]

  version_needs_in-Gives :
      (ss : List Section) (o : Option Section)
      → Gives (version_needs_in e ss o) (λ r. length_of r ≤ max_version_needs)
  unfolding version_needs_in
  version_needs_in-Gives ss none = return-Gives none (omega arith)
  version_needs_in-Gives ss (some t) =
      Gives-if (not t.in_file) (λ h. report-Gives _ _ (return-Gives (some []) (omega arith)))
        (λ h. report_if-Gives _ _ _ (
          >>=-Gives
            (needs_loop-Gives (strings_section ss t.link) (t.offset + t.size) (section_at t.index)
              (if t.info == 0 then max_version_needs else min t.info max_version_needs) t.offset)
            (λ needs q. return-Gives (some needs) (ground arith))))

  pub version_needs-Gives :
      (ss : List Section) → Gives (version_needs e ss) (λ r. length_of r ≤ max_version_needs)
  unfolding version_needs
  version_needs-Gives ss = version_needs_in-Gives ss (first_with (λ s. s.kind == 0x6ffffffe) ss)

  -- Text sections

  modinfo_records-Gives :
      (place : Place) (n : ℕ) (parts : List (List ℕ))
      → n ≤ max_modinfo_records
      → Gives (modinfo_records place n parts) (λ rs. n + length rs ≤ max_modinfo_records)
  unfolding modinfo_records
  modinfo_records-Gives place n [] h = return-Gives [] (omega arith)
  modinfo_records-Gives place n (part ∷ parts) h = elim (Bool-cases (leb max_modinfo_records n)) [
    | inl full ↦ rw (full, modinfo_records) (report-Gives _ _ (return-Gives [] (omega arith)))
    | inr room ↦
        rw (room, modinfo_records)
          (>>=-Gives (modinfo_records-Gives place (suc n) parts (ground arith))
            λ rs r. return-Gives _ (omega (arith, r)))
  ]

  modinfo_in-Gives :
      (o : Option Section) → Gives (modinfo_in e o) (λ r. length_of r ≤ max_modinfo_records)
  unfolding modinfo_in
  modinfo_in-Gives none = return-Gives none (omega arith)
  modinfo_in-Gives (some s) =
      >>=-Gives (modinfo_records-Gives (section_at s.index) 0 (parts_of e s) (omega arith))
        λ rs r. return-Gives (some rs) (omega (arith, r))

  pub modinfo-Gives :
      (ss : List Section) → Gives (modinfo e ss) (λ r. length_of r ≤ max_modinfo_records)
  unfolding modinfo
  modinfo-Gives ss = modinfo_in-Gives (first_with (is_text_section ".modinfo") ss)

  comment_in-Gives :
      (o : Option Section) → Gives (comment_in e o) (λ r. length r ≤ max_comment_strings)
  unfolding comment_in
  comment_in-Gives none = return-Gives [] (omega arith)
  comment_in-Gives (some s) = report_if-Gives _ _ _ (
      return-Gives _ (
        omega (
          arith,
          length-map comment_name (take max_comment_strings (parts_of e s)),
          length-take-le max_comment_strings (parts_of e s),
        )))

  pub comment-Gives :
      (ss : List Section) → Gives (comment e ss) (λ r. length r ≤ max_comment_strings)
  unfolding comment
  comment-Gives ss = comment_in-Gives (first_with (is_text_section ".comment") ss)
