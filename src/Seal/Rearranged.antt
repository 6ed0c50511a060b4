-- ===== src/Seal/Rearranged.antt =====
-- Two lists of typed pairs with the same pairs in some order, and sorting, which only rearranges.
use zaynor.Prelude.{◌≡◌, subst, Bool-cases, inl, inr}
use zaynor.Seal.Values.{
  Typed, TypedPairs, t_end, t_pair, Platform, key_document, bytes_in_order, insert_pair, sort_pairs,
}

-- `Picked k v ps rest`: the pair stands somewhere in `ps`, and `rest` is what is left without it.
pub data Picked (k v : Typed) : TypedPairs → TypedPairs → Type 0 where
  here : {ps : TypedPairs} → Picked k v (t_pair k v ps) ps
  there :
      {j w : Typed} {ps rest : TypedPairs}
      → Picked k v ps rest
      → Picked k v (t_pair j w ps) (t_pair j w rest)

pub data Rearranged : TypedPairs → TypedPairs → Type 0 where
  none_left : Rearranged t_end t_end
  one_more :
      {k v : Typed} {ps qs rest : TypedPairs}
      → Picked k v qs rest
      → Rearranged ps rest
      → Rearranged (t_pair k v ps) qs

Rearranged-refl : (ps : TypedPairs) → Rearranged ps ps
Rearranged-refl t_end = none_left
Rearranged-refl (t_pair k v ps) = one_more here (Rearranged-refl ps)

-- Two picks, one after the other, in the other order.
Picked-Picked :
    {k v j w : Typed} {ps qs rs : TypedPairs}
    → Picked k v ps qs
    → Picked j w qs rs
    → (mid : TypedPairs) × Picked j w ps mid × Picked k v mid rs
Picked-Picked here p = (_, there p, here)
Picked-Picked (there p) here = (_, here, p)
Picked-Picked (there p) (there q) = let s = Picked-Picked p q in (_, there s.1, there s.2)

Rearranged-Picked :
    {k v : Typed} {ps ps' qs : TypedPairs}
    → Picked k v ps ps'
    → Rearranged ps qs
    → (rest : TypedPairs) × Picked k v qs rest × Rearranged ps' rest
Rearranged-Picked here (one_more q r) = (_, q, r)
Rearranged-Picked (there p) (one_more q r) =
    let s = Rearranged-Picked p r in let t = Picked-Picked q s.1 in (t.0, t.1, one_more t.2 s.2)

Rearranged-trans : {ps qs rs : TypedPairs} → Rearranged ps qs → Rearranged qs rs → Rearranged ps rs
Rearranged-trans none_left r = r
Rearranged-trans (one_more p q) r =
    let s = Rearranged-Picked p r in one_more s.1 (Rearranged-trans q s.2)

-- A picked pair moves to the front.
Picked-Rearranged :
    {k v : Typed} {ps ps' qs : TypedPairs}
    → Picked k v ps ps'
    → Rearranged ps' qs
    → Rearranged ps (t_pair k v qs)
Picked-Rearranged here r = one_more here r
Picked-Rearranged (there p) (one_more q r) = one_more (there q) (Picked-Rearranged p r)

module _ (c : Platform) where
  insert_pair-Picked : (k v : Typed) (ps : TypedPairs) → Picked k v (insert_pair c k v ps) ps
  unfolding insert_pair
  insert_pair-Picked k v t_end = here
  insert_pair-Picked k v (t_pair j w ps) =
      elim (Bool-cases (bytes_in_order c (c.json (key_document k)) (c.json (key_document j)))) [
        | inl le ↦ rw le here
        | inr gt ↦ rw gt (there (insert_pair-Picked k v ps))
      ]

  sort_pairs-after : (ps : TypedPairs) → Rearranged ps (sort_pairs c ps)
  unfolding sort_pairs
  sort_pairs-after t_end = none_left
  sort_pairs-after (t_pair k v ps) =
      one_more (insert_pair-Picked k v (sort_pairs c ps)) (sort_pairs-after ps)

  sort_pairs-before : (ps : TypedPairs) → Rearranged (sort_pairs c ps) ps
  unfolding sort_pairs
  sort_pairs-before t_end = none_left
  sort_pairs-before (t_pair k v ps) =
      Picked-Rearranged (insert_pair-Picked k v (sort_pairs c ps)) (sort_pairs-before ps)

  -- Lists that are sorted to the same list have the same pairs.
  pub sort_pairs-Rearranged :
      (ps qs : TypedPairs) → sort_pairs c ps ≡ sort_pairs c qs → Rearranged ps qs
  sort_pairs-Rearranged ps qs h =
      Rearranged-trans (subst (Rearranged ps) h (sort_pairs-after ps)) (sort_pairs-before qs)
