-- ===== src/AuditLog/Tamper.antt =====
-- Two logs that verify and end in the same hash hold the same hashed content, or show a collision
-- of SHA-256.
use zaynor.Prelude.{
  ℕ, zero, suc, ◌+◌, String, ◌≡◌, ◌≢◌, refl, ap₂, ◌∙◌, sym, true, Option, some, List, [], ◌∷◌, inl,
  inr, ◌⊎◌, ok, arith, map, length, ◌-◌,
}
use native.Mathlib.Decide.{dec_le}
use zaynor.Crypto.{Crypto}
use zaynor.AuditLog.Defs.{
  AuditEntry, Disk, TailAnchor, passed, effective_key, Report, genesis_of, entry_body, body_hash,
}
use zaynor.AuditLog.Verify.{Walk, check_entry, walk, start, verify_with_report}
use zaynor.AuditLog.Passed.{
  check_entry-Checked, walk_step, verify-passed, walk-prev_hash, finish-anchored,
}
use Prim.Native.String.{◌++◌ as append_text}

-- Two different byte strings with one digest.
abbrev pub Collision : Crypto → Type 0
Collision c = (x y : c.Bytes) × (x ≢ y) × (c.sha256 x ≡ c.sha256 y)

-- What the chain relies on in `json.dumps`: the text of an entry determines its `prev_hash`, and is
-- never the text that a genesis hash is taken of, which does not begin with a brace.
pub record DumpsReadable (c : Crypto) : Type 0 where
  pub prev_hash_kept :
      (a b : AuditEntry)
      → c.dumps (entry_body c a) ≡ c.dumps (entry_body c b)
      → a.prev_hash ≡ b.prev_hash
  pub not_genesis :
      (id : String) (a : AuditEntry)
      → c.encode (append_text "ZAYNOR_AUDIT_GENESIS:" id) ≢ c.dumps (entry_body c a)

module _ (c : Crypto) where
  -- The texts that the entries' hashes are taken of.
  abbrev pub contents : List AuditEntry → List c.Bytes
  contents es = map (λ e. c.dumps (entry_body c e)) es

  module _ (same? : Discrete c.Bytes) (readable : DumpsReadable c) where
    same_or_collision : (x y : c.Bytes) → c.sha256 x ≡ c.sha256 y → (x ≡ y) ⊎ Collision c
    same_or_collision x y h = elim (same? x y) [ yes p ↦ inl p | no p ↦ inr (x, y, p, h) ]

    entry_same :
        (a b : AuditEntry)
        → body_hash c a ≡ body_hash c b
        → ((c.dumps (entry_body c a) ≡ c.dumps (entry_body c b)) × (a.prev_hash ≡ b.prev_hash))
          ⊎ Collision c
    unfolding body_hash
    entry_same a b h = elim (same_or_collision _ _ h) [
      | inl p ↦ inl (p, readable.prev_hash_kept a b p)
      | inr x ↦ inr x
    ]

    genesis_differs : (id : String) (a : AuditEntry) → genesis_of c id ≡ body_hash c a → Collision c
    unfolding body_hash
    genesis_differs id a h = (_, _, readable.not_genesis id a, h)

    -- One line before each of two chains whose rests agree.
    line_same :
        (key key' : Option c.Bytes) (id id' : String) (v w v' w' : Walk) (a b : AuditEntry)
        → check_entry c key id v a ≡ ok v'
        → check_entry c key' id' w b ≡ ok w'
        → v'.prev_hash ≡ w'.prev_hash
        → ((c.dumps (entry_body c a) ≡ c.dumps (entry_body c b)) × (v.prev_hash ≡ w.prev_hash))
          ⊎ Collision c
    line_same key key' id id' v w v' w' a b p q e =
        let k = check_entry-Checked c key id v a v' p in
        let m = check_entry-Checked c key' id' w b w' q in
        elim (entry_same a b (cc (k.hashed, m.hashed, k.moved, m.moved))) [
          | inl (x, y) ↦ inl (x, cc (k.linked, m.linked))
          | inr x ↦ inr x
        ]

    same_length :
        (key key' : Option c.Bytes) (id id' : String) (v w : Walk) (xs ys : List AuditEntry)
        (s t : Walk)
        → length xs ≡ length ys
        → walk c key id v xs ≡ ok s
        → walk c key' id' w ys ≡ ok t
        → s.prev_hash ≡ t.prev_hash
        → ((contents xs ≡ contents ys) × (v.prev_hash ≡ w.prev_hash)) ⊎ Collision c
    unfolding walk
    same_length key key' id id' v w [] [] s t n h k e = inl (refl, cc)
    same_length key key' id id' v w [] (b ∷ ys) s t n h k e = absurd (omega arith)
    same_length key key' id id' v w (a ∷ xs) [] s t n h k e = absurd (omega arith)
    same_length key key' id id' v w (a ∷ xs) (b ∷ ys) s t n h k e =
        let (v', p, h') = walk_step c key id v a xs s h in
        let (w', q, k') = walk_step c key' id' w b ys t k in
        elim (same_length key key' id id' v' w' xs ys s t (omega arith) h' k' e) [
          | inl (x, y) ↦ elim (line_same key key' id id' v w v' w' a b p q y) [
            | inl (z, u) ↦ inl (ap₂ ◌∷◌ z x, u)
            | inr z ↦ inr z
          ]
          | inr x ↦ inr x
        ]

    -- A chain that is longer by `k` meets the other's genesis in the middle.
    longer :
        (key key' : Option c.Bytes) (id id' : String) (v w : Walk) (k : ℕ) (xs ys : List AuditEntry)
        (s t : Walk)
        → length xs ≡ k + length ys
        → walk c key id v xs ≡ ok s
        → walk c key' id' w ys ≡ ok t
        → s.prev_hash ≡ t.prev_hash
        → w.prev_hash ≡ genesis_of c id'
        → (contents xs ≡ contents ys) × (v.prev_hash ≡ w.prev_hash) ⊎ Collision c
    longer key key' id id' v w zero xs ys s t n h m e g =
        same_length key key' id id' v w xs ys s t (omega arith) h m e
    longer key key' id id' v w (suc k) [] ys s t n h m e g = absurd (omega arith)
    longer key key' id id' v w (suc k) (a ∷ xs) ys s t n h m e g =
        let (v', p, h') = walk_step c key id v a xs s h in
        let q = check_entry-Checked c key id v a v' p in
        elim (longer key key' id id' v' w k xs ys s t (omega arith) h' m e g) [
          | inl (x, y) ↦ inr (genesis_differs id' a (cc (g, y, q.moved, q.hashed)))
          | inr x ↦ inr x
        ]

    abbrev Agree : List AuditEntry → List AuditEntry → Type 0
    Agree xs ys = (contents xs ≡ contents ys) ⊎ Collision c

    chains-Agree :
        (key key' : Option c.Bytes) (id : String) (xs ys : List AuditEntry) (s t : Walk)
        → walk c key id (start (genesis_of c id)) xs ≡ ok s
        → walk c key' id (start (genesis_of c id)) ys ≡ ok t
        → s.prev_hash ≡ t.prev_hash
        → Agree xs ys
    chains-Agree key key' id xs ys s t h k e =
        let g = start (genesis_of c id) in
        elim (dec_le (length ys) (length xs)) [
          | yes p ↦
              elim (longer key key' id id g g (length xs - length ys) xs ys s t (omega arith) h k e
                refl) [ inl (x, y) ↦ inl x | inr x ↦ inr x ]
          | no p ↦
              elim (longer key' key id id g g (length ys - length xs) ys xs t s (omega arith) k h
                (sym e) refl) [ inl (x, y) ↦ inl (sym x) | inr x ↦ inr x ]
        ]

    -- If two logs pass `verify_with_report` for one case beside the same tail anchor, with whatever
    -- keys, then the hashed content of their lines is the same, line by line, or two byte strings
    -- that differ and have one SHA-256 digest are at hand. This assumes that byte strings can be
    -- compared, and of `json.dumps` what `DumpsReadable` says.
    pub verify_tamper_evident :
        (env arg env' arg' : Option c.Bytes) (id : String) (d d' : Disk) (anchor : TailAnchor)
        (es es' : List AuditEntry) (r r' : Report)
        → d.log ≡ some es
        → d'.log ≡ some es'
        → d.tail ≡ some anchor
        → d'.tail ≡ some anchor
        → verify_with_report c env arg id d ≡ ok r
        → verify_with_report c env' arg' id d' ≡ ok r'
        → passed r ≡ true
        → passed r' ≡ true
        → Agree es es'
    verify_tamper_evident env arg env' arg' id d d' anchor es es' r r' l l' a a' v v' p p' =
        let (s, h, f) = verify-passed c env arg id d es r l v p in
        let (t, k, g) = verify-passed c env' arg' id d' es' r' l' v' p' in
        chains-Agree (effective_key env arg) (effective_key env' arg') id es es' s t h k (
          walk-prev_hash c (effective_key env arg) id _ es s h refl
          ∙ finish-anchored c (effective_key env arg) anchor s r (rw a at f) p
          ∙ sym (finish-anchored c (effective_key env' arg') anchor t r' (rw a' at g) p')
          ∙ sym (walk-prev_hash c (effective_key env' arg') id _ es' t k refl))
