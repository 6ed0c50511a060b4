-- ===== src/InvestigationLog/Latest.antt =====
-- The last recorded detail of an id, after one more journal entry.
use zaynor.Prelude.{
  String, ◌≡◌, ◌≢◌, ◌∙◌, false, none, some, List, [], ◌∷◌, ◌++◌, if◌then◌else◌, str_eq, eq_iff,
  eq_refl, arith, Bool-cases, inl, inr,
}
use mathlib.Core.List.{append-nil}
use zaynor.InvestigationLog.Defs.{Detail, JournalEntry}
use zaynor.InvestigationLog.Verify.{details, latest, detail_id}
use zaynor.InvestigationLog.Summary.{or_else, latest-append, latest-one}

details-append :
    (a : String) (es : List JournalEntry) (e : JournalEntry)
    → details a (es ++ e ∷ []) ≡ details a es ++ (if str_eq e.action a then e.detail ∷ [] else [])
unfolding details
details-append a [] e = ground arith
details-append a (x ∷ es) e = ground (arith, details-append a es e)

module _ (a b : String) where
  abbrev pub two : List JournalEntry → List Detail
  two es = details a es ++ details b es

  latest-two :
      (i : String) (es : List JournalEntry)
      → latest i (two es) ≡ or_else (latest i (details b es)) (latest i (details a es))
  latest-two i es = latest-append i (details a es) (details b es)

  latest-details :
      (i x : String) (es : List JournalEntry) (e : JournalEntry)
      → latest i (details x (es ++ e ∷ [])) ≡ (
          if str_eq e.action x
          then or_else
              (if str_eq (detail_id e.detail) i then some e.detail else none)
              (latest i (details x es))
          else latest i (details x es))
  latest-details i x es e = elim (Bool-cases (str_eq e.action x)) [
    | inl p ↦
        rw (details-append x es e, p)
          (latest-append i (details x es) (e.detail ∷ []) ∙ rw (latest-one i e.detail))
    | inr p ↦ rw (details-append x es e, p, append-nil)
  ]

  -- An id that the entry does not name keeps its last detail.
  pub latest-same :
      (i : String) (es : List JournalEntry) (e : JournalEntry)
      → i ≢ detail_id e.detail
      → latest i (two (es ++ e ∷ [])) ≡ latest i (two es)
  latest-same i es e n = ground (
    arith,
    latest-two i es,
    latest-two i (es ++ e ∷ []),
    latest-details i a es e,
    latest-details i b es e,
    eq_iff (detail_id e.detail) i,
    n,
  )

  -- An entry with the second action is the last of its id.
  pub latest-second :
      (es : List JournalEntry) (e : JournalEntry)
      → e.action ≡ b
      → latest (detail_id e.detail) (two (es ++ e ∷ [])) ≡ some e.detail
  latest-second es e p =
      let i = detail_id e.detail in
      ground
        (arith, latest-two i (es ++ e ∷ []), latest-details i b es e, eq_iff e.action b, eq_refl i)

  -- An entry with the first action is the last of its id, where the id is new.
  pub latest-first :
      (es : List JournalEntry) (e : JournalEntry)
      → e.action ≡ a
      → str_eq a b ≡ false
      → latest (detail_id e.detail) (two es) ≡ none
      → latest (detail_id e.detail) (two (es ++ e ∷ [])) ≡ some e.detail
  latest-first es e p n h =
      let i = detail_id e.detail in
      let q : str_eq e.action b ≡ false = rw p n in
      ground (
        arith,
        latest-two i es,
        latest-two i (es ++ e ∷ []),
        latest-details i a es e,
        latest-details i b es e,
        eq_iff e.action a,
        eq_refl i,
      )

  -- An entry with another action changes nothing.
  pub two-other :
      (es : List JournalEntry) (e : JournalEntry)
      → str_eq e.action a ≡ false
      → str_eq e.action b ≡ false
      → two (es ++ e ∷ []) ≡ two es
  two-other es e p q =
      rw (details-append a es e, details-append b es e, p, q, append-nil, append-nil)
