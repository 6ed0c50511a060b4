-- ===== src/Elf/Descriptors.antt =====
-- The descriptors of the notes: `struct` reads one that lies in the image, or there is a reason for a
-- raise.
use zaynor.Prelude.{
  ℕ, ◌+◌, ◌≤◌, ◌≡◌, true, false, Bool, ◌&&◌, ◌⊎◌, take, slice, List, ◌==◌, length, arith, inl, inr,
}
use zaynor.Elf.Image.{Elf, Place, struct_error, size}
use zaynor.Elf.Notes.{
  NoteTag, note_of, note_tag, exactly, until_nul, max_note_owner_bytes, bytes_eq, codes,
}
use zaynor.Elf.Gives.{GivesOr, return-Gives, raise-Gives, Gives-if, >>=-Gives}
use zaynor.Elf.Rows.{length-slice}

as_long :
    {R : Type 0} (m n w : ℕ) (a b : Bool) → (a && b && n == w) ≡ true → (m ≡ n) ⊎ R → (m ≡ w) ⊎ R
as_long m n w a b h (inl k) = inl (ground arith)
as_long m n w a b h (inr r) = inr r

other_length : (m n : ℕ) → m ≡ n → (m == n) ≡ false → ⊥
other_length m n h k = ground arith

exactly-Gives :
    (R : Type 0) (n : ℕ) (desc : List ℕ) (tag : NoteTag)
    → (length desc ≡ n) ⊎ R
    → GivesOr R (exactly n desc tag) (λ tag. Unit {0})
unfolding exactly
exactly-Gives R n desc tag (inl h) =
    Gives-if (length desc == n) (λ u. return-Gives tag tt)
      (λ u. absurd (other_length (length desc) n h u))
exactly-Gives R n desc tag (inr r) =
    Gives-if (length desc == n) (λ u. return-Gives tag tt) (λ u. raise-Gives struct_error r)

module _ (e : Elf) where
  descriptor_length :
      {R : Type 0} (desc n : ℕ)
      → (desc + n ≤ size e) ⊎ R
      → (length (slice desc (desc + n) e.bytes) ≡ n) ⊎ R
  descriptor_length desc n (inl h) = inl (length-slice desc n e.bytes h)
  descriptor_length desc n (inr r) = inr r

  note_tag-Gives :
      (R : Type 0) (owner : List ℕ) (kind n : ℕ) (desc : List ℕ)
      → (length desc ≡ n) ⊎ R
      → GivesOr R (note_tag e owner kind n desc) (λ tag. Unit {0})
  unfolding note_tag
  note_tag-Gives R owner kind n desc h =
      let freebsd = bytes_eq owner (codes "FreeBSD") in
      let gnu = bytes_eq owner (codes "GNU") in
      Gives-if (freebsd && kind == 1 && n == 4)
        (λ k. exactly-Gives R 4 desc _ (as_long (length desc) n 4 freebsd (kind == 1) k h))
        (λ k.
          Gives-if (gnu && kind == 1 && n == 16)
            (λ l. exactly-Gives R 16 desc _ (as_long (length desc) n 16 gnu (kind == 1) l h))
            (λ l. Gives-if (gnu && kind == 3) (λ u. return-Gives _ tt) (λ u. return-Gives _ tt)))

  -- The bytes of a descriptor inside the image are as many as the note says.
  pub note_of-Gives :
      (R : Type 0) (place : Place) (kind start stop desc n : ℕ)
      → (desc + n ≤ size e) ⊎ R
      → GivesOr R (note_of e place kind start stop desc n) (λ note. Unit {0})
  unfolding note_of
  note_of-Gives R place kind start stop desc n h =
      >>=-Gives
        (note_tag-Gives R (take max_note_owner_bytes (until_nul (slice start stop e.bytes))) kind n
          (slice desc (desc + n) e.bytes) (descriptor_length desc n h))
        (λ tag u. return-Gives _ tt)
