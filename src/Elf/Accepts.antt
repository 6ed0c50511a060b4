-- ===== src/Elf/Accepts.antt =====
-- Which bytes `parse_elf` accepts, and what holds of what it returns for them.
use zaynor.Prelude.{
  ℕ, ◌+◌, ◌≤◌, String, ◌≡◌, refl, sym, ap, ap₂, ◌∙◌, subst, true, false, ◌||◌, not, List, [], ◌∷◌,
  if◌then◌else◌, leb, ltb, ◌==◌, length, take, drop, ◌⊎◌, ◌↔◌, arith, Bool-cases, leb→le, inl, inr,
  Outcome, ok, raised,
}
use zaynor.Elf.Image.{Issues, no_issues, max_issues, fields, widths, total}
use zaynor.Elf.Notes.{bytes_eq}
use zaynor.Elf.Parse.{
  ParseError, bad_format, finished, not_elf, unsupported_elf_class, unsupported_elf_data_encoding,
  truncated_elf_header, Parsed, elf_magic, ident, header_format, image_of, parse_body, parse_elf,
}
use zaynor.Elf.Tables.{unpack-in_bounds, unpack-out_of_bounds}
use zaynor.Elf.Gives.{Capped, Gives-ok}
use zaynor.Elf.Fields.{ReportsImage}
use zaynor.Elf.Reported.{ReadsImage-ReportsImage}
use zaynor.Elf.Whole.{ReadsImage, Measures, Limits, parse_body-Gives}

bytes_eq_correct : (xs ys : List ℕ) → bytes_eq xs ys ≡ true → xs ≡ ys
unfolding bytes_eq
bytes_eq_correct [] [] h = refl
bytes_eq_correct [] (y ∷ ys) h = cc
bytes_eq_correct (x ∷ xs) [] h = cc
bytes_eq_correct (x ∷ xs) (y ∷ ys) h =
    ap₂ ◌∷◌ (ground arith) (bytes_eq_correct xs ys (ground arith))

bytes_eq_refl : (xs : List ℕ) → bytes_eq xs xs ≡ true
unfolding bytes_eq
bytes_eq_refl [] = refl
bytes_eq_refl (x ∷ xs) = ground (arith, bytes_eq_refl xs)

-- The header that the ELF specification asks for: sixteen bytes with the magic number, a known class
-- and a known encoding, and the rest of the header of that class.
pub record IsElf (bytes : List ℕ) : Type 0 where
  pub identified : 16 ≤ length bytes
  pub magic : take 4 bytes ≡ elf_magic
  pub class : (ident bytes 4 ≡ 1) ⊎ (ident bytes 4 ≡ 2)
  pub encoding : (ident bytes 5 ≡ 1) ⊎ (ident bytes 5 ≡ 2)
  pub complete : (if ident bytes 4 == 2 then 64 else 52) ≤ length bytes

-- The fields of the header.
abbrev pub header_of : List ℕ → List ℕ
header_of bytes =
    fields (image_of bytes).endian (widths (header_format (image_of bytes))) (drop 16 bytes)

total-header_format :
    (bytes : List ℕ)
    → 16 + total (widths (header_format (image_of bytes))) ≡ (if ident bytes 4 == 2 then 64 else 52)
total-header_format bytes = elim (Bool-cases (ident bytes 4 == 2)) [ inl h ↦ rw h | inr h ↦ rw h ]

either_true : (n a b : ℕ) → (n ≡ a) ⊎ (n ≡ b) → (n == a || n == b) ≡ true
either_true n a b h = ground arith

either_is : (n a b : ℕ) → (n == a || n == b) ≡ true → (n ≡ a) ⊎ (n ≡ b)
either_is n a b h = ground arith

few_issues : (log : Issues) → Capped log → length log.listed ≤ max_issues + 1
few_issues log h = ground arith

refused : (e : ParseError) (r : Parsed × Issues) → raised e ≡ ok r → ⊥
refused e r h = cc

ok_inj :
    (a b : Parsed × Issues) {o : Outcome ParseError (Parsed × Issues)} → o ≡ ok a → o ≡ ok b → a ≡ b
ok_inj a b h k = cc

module _ (sha256 : List ℕ → String) (bytes : List ℕ) where
  IsElf-parse_elf :
      IsElf bytes
      → parse_elf sha256 bytes
        ≡ finished (parse_body sha256 (image_of bytes) (header_of bytes) no_issues)
  unfolding parse_elf
  IsElf-parse_elf h =
      let m : bytes_eq (take 4 bytes) elf_magic ≡ true =
        ap (λ m. bytes_eq m elf_magic) h.magic ∙ bytes_eq_refl elf_magic in
      let l : ltb (length bytes) 16 ≡ false = let q = h.identified in ground arith in
      rw (
        l,
        m,
        either_true (ident bytes 4) 1 2 h.class,
        either_true (ident bytes 5) 1 2 h.encoding,
        unpack-in_bounds (image_of bytes) (header_format (image_of bytes)) 16
            (omega (arith, total-header_format bytes, h.complete)),
        parse_elf,
      )

  -- The body returns.
  abbrev Returned : Parsed × Issues → Type 0
  Returned r =
      (parse_elf sha256 bytes ≡ ok r)
      × ReadsImage (image_of bytes) (header_of bytes) r.0
      × Measures (image_of bytes) r.0
      × Limits r.0
      × Capped r.1

  returns : IsElf bytes → (r : Parsed × Issues) × Returned r
  returns h =
      let g = Gives-ok (parse_body-Gives sha256 (image_of bytes) (header_of bytes)) no_issues in
      (g.0, (IsElf-parse_elf h ∙ ap finished g.1, g.2.0, g.2.1, g.2.2, g.3 (omega arith)))

  -- What is returned comes from the body, on a header that is there.
  record FromBody (r : Parsed × Issues) : Type 0 where
    accepted : IsElf bytes
    body : Returned r

  ok-FromBody : (r : Parsed × Issues) → parse_elf sha256 bytes ≡ ok r → FromBody r
  unfolding parse_elf
  ok-FromBody r h =
      elim (Bool-cases (ltb (length bytes) 16 || not (bytes_eq (take 4 bytes) elf_magic))) [
        | inl bad ↦ absurd (refused (bad_format not_elf) r (sym (rw (bad, parse_elf)) ∙ h))
        | inr magic ↦ elim (Bool-cases (ident bytes 4 == 1 || ident bytes 4 == 2)) [
          | inr bad ↦
              absurd (
                refused (bad_format unsupported_elf_class) r (sym (rw (magic, bad, parse_elf)) ∙ h))
          | inl class ↦ elim (Bool-cases (ident bytes 5 == 1 || ident bytes 5 == 2)) [
            | inr bad ↦ absurd (
                refused (bad_format unsupported_elf_data_encoding) r
                  (sym (rw (magic, class, bad, parse_elf)) ∙ h))
            | inl encoding ↦
                elim (Bool-cases
                  (leb (16 + total (widths (header_format (image_of bytes)))) (length bytes))) [
                    | inr bad ↦ absurd (
                        refused (bad_format truncated_elf_header) r (
                          sym (
                            rw (
                              magic,
                              class,
                              encoding,
                              unpack-out_of_bounds (image_of bytes) (header_format (image_of bytes))
                                  16 bad,
                              parse_elf,
                            ))
                          ∙ h))
                    | inl complete ↦
                        let elf : IsElf bytes = record {
                          identified = ground arith;
                          magic = bytes_eq_correct (take 4 bytes) elf_magic (ground arith);
                          class = either_is (ident bytes 4) 1 2 class;
                          encoding = either_is (ident bytes 5) 1 2 encoding;
                          complete = omega (
                            arith,
                            total-header_format bytes,
                            leb→le (16 + total (widths (header_format (image_of bytes))))
                                (length bytes) complete,
                          );
                        } in
                        let g = returns elf in
                        record { accepted = elf; body = subst Returned (ok_inj g.0 r g.1.0 h) g.1 }
                  ]
          ]
        ]
      ]

  -- `parse_elf` returns on exactly the inputs whose header is one that the specification asks for:
  -- nothing that follows the header makes it raise.
  pub parse_elf-IsElf : ((r : Parsed × Issues) × (parse_elf sha256 bytes ≡ ok r)) ↔ IsElf bytes
  parse_elf-IsElf = (λ p. (ok-FromBody p.0 p.1).accepted, λ h. let g = returns h in (g.0, g.1.0))

  -- Whatever `parse_elf` returns, each section and each segment that it reports has, field by field,
  -- the numbers that stand, by place value, at its place in the table that the header names, in the
  -- layout of the class and the encoding that the image declares; its `in_file` is true exactly if the
  -- image holds all its bytes and, of a section, its kind is neither SHT_NULL nor SHT_NOBITS.
  pub parse_elf-ReadsImage :
      (r : Parsed × Issues) → parse_elf sha256 bytes ≡ ok r → ReportsImage bytes r.0
  parse_elf-ReadsImage r h =
      let b = ok-FromBody r h in
      ReadsImage-ReportsImage bytes (header_of bytes) r.0 refl
        (omega (arith, total-header_format bytes, b.accepted.complete)) b.body.1

  -- Whatever `parse_elf` returns, the bytes that were hashed and counted are within four times the
  -- size of the image, and each section and segment that was measured ends inside the image.
  pub parse_elf-Measures :
      (r : Parsed × Issues) → parse_elf sha256 bytes ≡ ok r → Measures (image_of bytes) r.0
  parse_elf-Measures r h = (ok-FromBody r h).body.2

  -- Whatever `parse_elf` returns, it is within the limits of the code: the sections, segments, symbol
  -- tables, symbols scanned and listed, dynamic entries and strings, version needs, notes, comments
  -- and module records, and at most 256 issues and one for the limit.
  pub parse_elf-Limits :
      (r : Parsed × Issues)
      → parse_elf sha256 bytes ≡ ok r
      → Limits r.0 × (length r.1.listed ≤ max_issues + 1)
  parse_elf-Limits r h = let b = (ok-FromBody r h).body in (b.3, few_issues _ b.4)
