-- ===== src/Elf/Walking.antt =====
-- The walk over the notes: it ends, within the fuel that it is given, and lists few notes.
use zaynor.Prelude.{
  ℕ, zero, suc, ◌+◌, ◌-◌, ◌≤◌, ◌<◌, ◌≡◌, true, false, ◌⊎◌, ok, raised, All, All-filter, map, get_or,
  leb→le, List, [], ◌∷◌, ◌++◌, if◌then◌else◌, leb, ◌==◌, length, length-append, arith, Bool-cases,
  Option-cases, inl, inr,
}
use zaynor.Elf.Image.{Elf, Issues, struct_error, size, in_bounds, M, return, unpack}
use zaynor.Elf.Sections.{Section}
use zaynor.Elf.Segments.{Segment}
use zaynor.Elf.Notes.{
  align, Note, NoteContainer, NoteScan, scanned, capped, unfinished, max_notes, name_end,
  desc_start, desc_end, section_container, segment_container, next_position, fits, note_loop,
  scan_container, scan_containers, note_containers, notes_of, parse_notes,
}
use zaynor.Elf.Gives.{Gives, GivesOr, Gives-cases, return-Gives, Gives-if, >>=-Gives, report-Gives}
use zaynor.Elf.Tables.{SectionIn}
use zaynor.Elf.Headers.{SegmentIn}
use zaynor.Elf.Descriptors.{note_of-Gives}

-- `_align` gives the next multiple of its step, for the two steps of the notes.
pub align_bounds :
    (value step : ℕ) → (step ≡ 4) → (value ≤ align value step) × (align value step < value + 4)
unfolding align
align_bounds value step h = rw h (omega arith)

le-align : (value : ℕ) (k : NoteContainer) → value ≤ align value (if k.align == 8 then 8 else 4)
unfolding align
le-align value k = elim (Bool-cases (k.align == 8)) [
  | inl h ↦ rw h (omega arith)
  | inr h ↦ rw h (omega arith)
]

one_more :
    (notes : List Note) (n : Note)
    → leb max_notes (length notes) ≡ false
    → length (notes ++ n ∷ []) ≤ max_notes
one_more notes n h = ground (arith, length-append notes (n ∷ []))

past : (a b : ℕ) → leb a b ≡ false → b < a
past a b h = ground arith

module _ (e : Elf) where
  next_position-lt :
      (k : NoteContainer) (position : ℕ) (raw : List ℕ)
      → k.offset ≤ position
      → (position < next_position e k position raw)
  next_position-lt k position raw h = omega (
    arith,
    le-align (name_end e position raw - k.offset) k,
    le-align (desc_end e k position raw - k.offset) k,
  )

  desc_held :
      (k : NoteContainer) (position : ℕ) (raw : List ℕ) {R : Type 0}
      → fits e k position raw ≡ true
      → (k.offset + k.size ≤ size e) ⊎ R
      → (desc_start e k position raw + get_or raw 1 0 ≤ size e) ⊎ R
  desc_held k position raw h (inl w) = inl (ground arith)
  desc_held k position raw h (inr r) = inr r

  -- A walk that has ended, with few notes.
  abbrev pub FewNotes : NoteScan → Type 0
  FewNotes (scanned notes) = length notes ≤ max_notes
  FewNotes (capped notes) = length notes ≤ max_notes
  FewNotes (unfinished notes) = ⊥

  -- A container lies in the image, or there is a reason for a raise.
  abbrev Held : Type 0 → NoteContainer → Type 0
  Held R k = (k.offset + k.size ≤ size e) ⊎ R

  module _ {R : Type 0} where
    note_loop-Gives :
        (fuel : ℕ) (k : NoteContainer) (position : ℕ) (notes : List Note)
        → Held R k
        → k.offset ≤ position
        → k.offset + k.size < position + fuel
        → 0 < fuel
        → length notes ≤ max_notes
        → GivesOr R (note_loop e fuel k position notes) FewNotes
    unfolding note_loop
    note_loop-Gives zero k position notes w h f p n = absurd (omega arith)
    note_loop-Gives (suc fuel) k position notes w h f p n =
        elim (Bool-cases (leb (position + 12) (k.offset + k.size))) [
          | inr out ↦ rw (out, note_loop) (return-Gives _ n)
          | inl more ↦ elim (Bool-cases (leb max_notes (length notes))) [
            | inl full ↦ rw (more, full, note_loop) (report-Gives _ _ (return-Gives _ n))
            | inr room ↦ elim (Option-cases (unpack e "III" position)) [
              | inl end ↦ rw (more, room, end, note_loop) (return-Gives _ n)
              | inr r ↦ elim (Bool-cases (fits e k position r.0)) [
                | inr bad ↦
                    rw (more, room, r.1, bad, note_loop) (report-Gives _ _ (return-Gives _ n))
                | inl good ↦
                    let l = next_position-lt k position r.0 h in
                    rw (more, room, r.1, good, note_loop)
                      (>>=-Gives
                        (note_of-Gives e R _ _ _ _ (desc_start e k position r.0) _
                          (desc_held k position r.0 good w))
                        λ note u.
                          note_loop-Gives fuel k (next_position e k position r.0) _ w (omega arith)
                            (omega arith) (ground arith) (one_more notes _ room))
              ]
            ]
          ]
        ]

    scan_container-Gives :
        (k : NoteContainer) (notes : List Note)
        → (k.in_file ≡ true → Held R k)
        → length notes ≤ max_notes
        → GivesOr R (scan_container e k notes) FewNotes
    unfolding scan_container
    scan_container-Gives k notes w n =
        Gives-if k.in_file
          (λ h.
            note_loop-Gives (suc k.size) k k.offset notes (w h) (omega arith) (omega arith)
              (omega arith) n)
          (λ h. return-Gives _ n)

    continue :
        (f : List Note → M NoteScan)
        → ((found : List Note) → length found ≤ max_notes → GivesOr R (f found) FewNotes)
        → (r : NoteScan) → FewNotes r
        → GivesOr R
            (elim r [
              | scanned found ↦ f found
              | capped found ↦ return (capped found)
              | unfinished found ↦ return (unfinished found)
            ])
            FewNotes
    continue f g (scanned found) n = g found n
    continue f g (capped found) n = return-Gives _ n
    continue f g (unfinished found) n = absurd n

    scan_containers-Gives :
        (ks : List NoteContainer) (notes : List Note)
        → All (λ k. k.in_file ≡ true → Held R k) ks
        → length notes ≤ max_notes
        → GivesOr R (scan_containers e ks notes) FewNotes
    unfolding scan_containers
    scan_containers-Gives [] notes w n = return-Gives _ n
    scan_containers-Gives (k ∷ ks) notes w n =
        >>=-Gives (scan_container-Gives k notes w.0 n)
          (continue (scan_containers e ks) (λ found n'. scan_containers-Gives ks found w.1 n'))

  -- One of the containers is marked as held by the image and reaches past its end.
  abbrev pub Beyond : List NoteContainer → Type 0
  Beyond [] = ⊥
  Beyond (k ∷ ks) = ((k.in_file ≡ true) × (size e < k.offset + k.size)) ⊎ Beyond ks

  each_placed :
      (R : Type 0) (ks : List NoteContainer)
      → (Beyond ks → R)
      → All (λ k. k.in_file ≡ true → Held R k) ks
  each_placed R [] f = tt
  each_placed R (k ∷ ks) f = (
    λ h. elim (Bool-cases (leb (k.offset + k.size) (size e))) [
      | inl l ↦ inl (leb→le (k.offset + k.size) (size e) l)
      | inr l ↦ inr (f (inl (h, past (k.offset + k.size) (size e) l)))
    ],
    each_placed R ks (λ b. f (inr b)),
  )

  -- The walk over the notes of all containers comes to its end: no loop runs out of its rounds, as
  -- each note moves it on, and there are at most 64 notes. It raises only where a container that is
  -- marked as held by the image reaches past its end.
  pub scan_containers-ends :
      (ks : List NoteContainer) (log : Issues)
      → ((r : NoteScan × Issues) × (scan_containers e ks [] log ≡ ok r) × FewNotes r.0)
        ⊎ ((scan_containers e ks [] log ≡ raised struct_error) × Beyond ks)
  scan_containers-ends ks log =
      Gives-cases (scan_containers-Gives ks [] (each_placed (Beyond ks) ks (λ b. b)) (omega arith))
        log

  notes_of-FewNotes : (r : NoteScan) → FewNotes r → length (notes_of r) ≤ max_notes
  unfolding notes_of
  notes_of-FewNotes (scanned notes) n = n
  notes_of-FewNotes (capped notes) n = n
  notes_of-FewNotes (unfinished notes) n = absurd n

  section_containers :
      (ss : List Section)
      → All (SectionIn e) ss
      → All (λ k. k.in_file ≡ true → Held ⊥ k) (map section_container ss)
  unfolding in_bounds
  section_containers [] p = tt
  section_containers (s ∷ ss) p = (λ h. inl (ground (arith, p.0)), section_containers ss p.1)

  segment_containers :
      (gs : List Segment)
      → All (SegmentIn e) gs
      → All (λ k. k.in_file ≡ true → Held ⊥ k) (map segment_container gs)
  unfolding in_bounds
  segment_containers [] p = tt
  segment_containers (g ∷ gs) p = (λ h. inl (ground (arith, p.0)), segment_containers gs p.1)

  containers_inside :
      (ss : List Section) (gs : List Segment)
      → All (SectionIn e) ss
      → All (SegmentIn e) gs
      → All (λ k. k.in_file ≡ true → Held ⊥ k) (note_containers ss gs)
  unfolding note_containers
  containers_inside [] gs p q =
      segment_containers _ (All-filter _ (λ (g : Segment). g.kind == 4) gs q)
  containers_inside (s ∷ ss) gs p q =
      section_containers _ (All-filter _ (λ (t : Section). t.kind == 7) (s ∷ ss) p)

  pub parse_notes-Gives :
      (ss : List Section) (gs : List Segment)
      → All (SectionIn e) ss
      → All (SegmentIn e) gs
      → Gives (parse_notes e ss gs) (λ notes. length notes ≤ max_notes)
  unfolding parse_notes
  parse_notes-Gives ss gs p q =
      >>=-Gives
        (scan_containers-Gives (note_containers ss gs) [] (containers_inside ss gs p q)
          (omega arith))
        λ r n. return-Gives _ (notes_of-FewNotes r n)
