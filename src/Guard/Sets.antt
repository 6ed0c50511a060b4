-- ===== src/Guard/Sets.antt =====
-- The members of the sets that the guard and the facts collect.
use zaynor.Prelude.{
  String, ◌≡◌, refl, sym, ap, ◌∙◌, subst, Option, none, some, List, [], ◌∷◌, ◌++◌, map, ◌⊎◌, ◌↔◌,
  inl, inr, str_eq, eq_iff, Bool-cases, Option-cases,
}
use zaynor.Seal.Values.{
  Value, nothing, bool, num, negative, fraction, float, text, instance_of, mapping, tuple, list,
  other, Pairs,
}
use zaynor.Investigation.Facts.{text_ids, refs_of}
use zaynor.Guard.Result.{
  Ref, Finding, item, text_item, record_ids, ids, technique_of, techniques, authorized,
}
use zaynor.Guard.Members.{Some, Member, Some-append, append-Some, some_inj, not_found}

-- The finding that an id stands for is one of the list, with that id.
pub authorized-Member :
    (id : String) (fs : List Finding) (f : Finding)
    → authorized id fs ≡ some f
    → Member f fs × (f.finding_id ≡ id)
unfolding authorized
authorized-Member id [] f h = cc
authorized-Member id (g ∷ fs) f h = elim (Option-cases (authorized id fs)) [
  | inr k ↦
      let e : authorized id (g ∷ fs) ≡ some k.0 = rw (k.1, authorized) in
      let r = authorized-Member id fs f (k.1 ∙ sym e ∙ h) in (inr r.0, r.1)
  | inl k ↦ elim (Bool-cases (str_eq g.finding_id id)) [
    | inl l ↦
        let e : authorized id (g ∷ fs) ≡ some g = rw (k, l, authorized) in
        let same = some_inj (sym e ∙ h) in
        (inl (sym same), ap (λ x. x.finding_id) (sym same) ∙ (eq_iff g.finding_id id).0 l)
    | inr l ↦
        let e : authorized id (g ∷ fs) ≡ none = rw (k, l, authorized) in
        absurd (not_found (sym e ∙ h))
  ]
]

-- d.get(key) is this text.
abbrev pub HasText : String → String → Pairs → Type 0
HasText key x d = item key d ≡ some (text x)

shown_text-Member :
    (x : String) (o : Option Value)
    → Member x (elim o [ none ↦ [] | some v ↦ elim v [ text s ↦ s ∷ [] | _ ↦ [] ] ])
    → o ≡ some (text x)
shown_text-Member x none h = absurd h
shown_text-Member x (some (text s)) (inl h) = ap (λ t. some (text t)) (sym h)
shown_text-Member x (some (text s)) (inr h) = absurd h
shown_text-Member x (some nothing) h = absurd h
shown_text-Member x (some (bool b)) h = absurd h
shown_text-Member x (some (num n)) h = absurd h
shown_text-Member x (some (negative n)) h = absurd h
shown_text-Member x (some (fraction m n d)) h = absurd h
shown_text-Member x (some float) h = absurd h
shown_text-Member x (some (instance_of n xs)) h = absurd h
shown_text-Member x (some (mapping ps)) h = absurd h
shown_text-Member x (some (tuple xs)) h = absurd h
shown_text-Member x (some (list xs)) h = absurd h
shown_text-Member x (some (other n)) h = absurd h

pub text_item-Member : (key x : String) (d : Pairs) → Member x (text_item key d) ↔ HasText key x d
text_item-Member key x d = (
  shown_text-Member x (item key d),
  λ h.
      subst (λ o. Member x (elim o [ none ↦ [] | some v ↦ elim v [ text s ↦ s ∷ [] | _ ↦ [] ] ]))
        (sym h) (inl refl),
)

-- The record has this text under one of the four names of an id.
abbrev pub HasId : String → Pairs → Type 0
HasId x d =
    HasText "id" x d
    ⊎ (HasText "finding_id" x d ⊎ (HasText "hypothesis_id" x d ⊎ HasText "fracture_id" x d))

record_ids-Member : (x : String) (d : Pairs) → Member x (record_ids d) ↔ HasId x d
record_ids-Member x d =
    let a = text_item-Member "id" x d in
    let b = text_item-Member "finding_id" x d in
    let c = text_item-Member "hypothesis_id" x d in
    let e = text_item-Member "fracture_id" x d in
    let P = λ (y : String). x ≡ y in
    let first = text_item "id" d in
    let second = text_item "finding_id" d in
    let third = text_item "hypothesis_id" d in
    let fourth = text_item "fracture_id" d in
    (
      λ h. elim (Some-append P (first ++ second ++ third) fourth h) [
        | inr k ↦ inr (inr (inr (e.0 k)))
        | inl k ↦ elim (Some-append P (first ++ second) third k) [
          | inr l ↦ inr (inr (inl (c.0 l)))
          | inl l ↦ elim (Some-append P first second l) [
            | inr m ↦ inr (inl (b.0 m))
            | inl m ↦ inl (a.0 m)
          ]
        ]
      ],
      λ h. append-Some P (first ++ second ++ third) fourth (elim h [
        | inl k ↦
            inl (
              append-Some P (first ++ second) third
                (inl (append-Some P first second (inl (a.1 k)))))
        | inr k ↦ elim k [
          | inl l ↦ inl (
              append-Some P (first ++ second) third
                (inl (append-Some P first second (inr (b.1 l)))))
          | inr l ↦ elim l [
            | inl m ↦ inl (append-Some P (first ++ second) third (inr (c.1 m)))
            | inr m ↦ inr (e.1 m)
          ]
        ]
      ]),
    )

pub ids-Member : (x : String) (ds : List Pairs) → Member x (ids ds) ↔ Some (HasId x) ds
unfolding ids
ids-Member x [] = (λ h. h, λ h. h)
ids-Member x (d ∷ ds) =
    let r = record_ids-Member x d in
    let rest = ids-Member x ds in
    (
      λ h. elim (Some-append (λ y. x ≡ y) (record_ids d) (ids ds) h) [
        | inl k ↦ inl (r.0 k)
        | inr k ↦ inr (rest.0 k)
      ],
      λ h.
          append-Some (λ y. x ≡ y) (record_ids d) (ids ds)
            (elim h [ inl k ↦ inl (r.1 k) | inr k ↦ inr (rest.1 k) ]),
    )

-- The texts of the records under "id".
pub text_ids-Member :
    (x : String) (ds : List Pairs) → Member x (text_ids ds) ↔ Some (HasText "id" x) ds
text_ids-Member x [] = (λ h. h, λ h. h)
text_ids-Member x (d ∷ ds) =
    let r = text_item-Member "id" x d in
    let rest = text_ids-Member x ds in
    (
      λ h. elim (Some-append (λ y. x ≡ y) (text_item "id" d) (text_ids ds) h) [
        | inl k ↦ inl (r.0 k)
        | inr k ↦ inr (rest.0 k)
      ],
      λ h.
          append-Some (λ y. x ≡ y) (text_item "id" d) (text_ids ds)
            (elim h [ inl k ↦ inl (r.1 k) | inr k ↦ inr (rest.1 k) ]),
    )

pub refs_of-Member :
    (r : Ref) (fs : List Finding) → Member r (refs_of fs) ↔ Some (λ f. Member r f.evidence_refs) fs
refs_of-Member r [] = (λ h. h, λ h. h)
refs_of-Member r (f ∷ fs) =
    let rest = refs_of-Member r fs in
    (
      λ h. elim (Some-append (λ q. r ≡ q) f.evidence_refs (refs_of fs) h) [
        | inl k ↦ inl k
        | inr k ↦ inr (rest.0 k)
      ],
      λ h.
          append-Some (λ q. r ≡ q) f.evidence_refs (refs_of fs)
            (elim h [ inl k ↦ inl k | inr k ↦ inr (rest.1 k) ]),
    )

module _ (upper : String → String) where
  -- The finding names a technique whose upper-case form this is.
  abbrev pub Attributed : String → Finding → Type 0
  Attributed x f =
      (d : Pairs) × (t : String) × (f.mitre ≡ some d) × HasText "technique" t d × (x ≡ upper t)

  map-Member :
      (x : String) (ts : List String)
      → Member x (map upper ts)
      → (t : String) × Member t ts × (x ≡ upper t)
  map-Member x [] h = absurd h
  map-Member x (t ∷ ts) (inl h) = (t, inl refl, h)
  map-Member x (t ∷ ts) (inr h) = let r = map-Member x ts h in (r.0, inr r.1, r.2)

  Member-map :
      (x t : String) (ts : List String) → Member t ts → x ≡ upper t → Member x (map upper ts)
  Member-map x t [] h k = absurd h
  Member-map x t (u ∷ ts) (inl h) k = inl (k ∙ ap upper h)
  Member-map x t (u ∷ ts) (inr h) k = inr (Member-map x t ts h k)

  technique_of-Attributed :
      (x : String) (o : Option Pairs)
      → Member x (technique_of upper o)
      → (d : Pairs) × (t : String) × (o ≡ some d) × HasText "technique" t d × (x ≡ upper t)
  technique_of-Attributed x none h = absurd h
  technique_of-Attributed x (some d) h =
      let r = map-Member x (text_item "technique" d) h in
      (d, r.0, refl, (text_item-Member "technique" r.0 d).0 r.1, r.2)

  Attributed-technique_of :
      (x : String) (f : Finding) → Attributed x f → Member x (technique_of upper f.mitre)
  Attributed-technique_of x f a =
      subst (λ o. Member x (technique_of upper o)) (sym a.2)
        (Member-map x a.1 (text_item "technique" a.0) ((text_item-Member "technique" a.1 a.0).1 a.3)
          a.4)

  pub techniques-Member :
      (x : String) (fs : List Finding) → Member x (techniques upper fs) ↔ Some (Attributed x) fs
  unfolding techniques
  techniques-Member x [] = (λ h. h, λ h. h)
  techniques-Member x (f ∷ fs) =
      let rest = techniques-Member x fs in
      (
        λ h. elim (Some-append (λ y. x ≡ y) (technique_of upper f.mitre) (techniques upper fs) h) [
          | inl k ↦ inl (technique_of-Attributed x f.mitre k)
          | inr k ↦ inr (rest.0 k)
        ],
        λ h.
            append-Some (λ y. x ≡ y) (technique_of upper f.mitre) (techniques upper fs)
              (elim h [ inl k ↦ inl (Attributed-technique_of x f k) | inr k ↦ inr (rest.1 k) ]),
      )
