-- ===== src/Guard/Shown.antt =====
-- What the tests of the guard say once they have passed, and the findings that pass its loop.
use zaynor.Prelude.{
  String, ◌≡◌, refl, subst, ap, ap₂, Bool, true, false, ◌&&◌, Option, none, some, List, [], ◌∷◌,
  str_eq, eq_iff, all, any, ◌↔◌, Outcome, ok, raised, require-true, require_passed, bind-returned,
}
use zaynor.Seal.Values.{Value, text, mapping, list, Elements, Pairs, SealError}
use zaynor.Guard.Result.{Ref, Finding, item, authorized, same_set}
use zaynor.Guard.Members.{Some, Member, all-Member, any-Some, same_set-Member}
use zaynor.Guard.Sets.{HasText, authorized-Member}
use zaynor.Guard.Checks.{
  GuardError, wrong_state, ref_not_authorized, unhashable, sealed, values, is_text, texts_eq,
  hashable_item, hashable_ref, is_ref, refs_match, check_refs, check_known, check_id, check_finding,
  check_findings, check_findings_list, check_set, unknowns_match,
}

-- The value is a dictionary with the artifact and the lineage of the reference.
abbrev pub IsRef : Ref → Value → Type 0
IsRef r v =
    (d : Pairs) × (v ≡ mapping d)
    × HasText "artifact" r.artifact d
    × HasText "lineage_id" r.lineage_id d

-- A shown finding is one of the result's, in its state, with its references and no others.
pub record Shown (fs : List Finding) (v : Value) (id : String) : Type 0 where
  pub fields : Pairs
  pub is_fields : v ≡ mapping fields
  pub names : item "finding_id" fields ≡ some (text id)
  pub finding : Finding
  pub among : Member finding fs
  pub has_id : finding.finding_id ≡ id
  pub state : item "state" fields ≡ some (text finding.state)
  pub refs : Elements
  pub listed : item "evidence_refs" fields ≡ some (list refs)
  pub only_its_refs :
      (w : Value) → Member w (values refs) → Some (λ r. IsRef r w) finding.evidence_refs
  pub all_its_refs : (r : Ref) → Member r finding.evidence_refs → Some (IsRef r) (values refs)

pub data AllShown (fs : List Finding) : List Value → List String → Type 0 where
  shown_none : AllShown fs [] []
  shown_more :
      {v : Value} {vs : List Value} {id : String} {shown : List String}
      → Shown fs v id
      → AllShown fs vs shown
      → AllShown fs (v ∷ vs) (id ∷ shown)

pub is_text-some : (s : String) (o : Option Value) → is_text s o ≡ true → o ≡ some (text s)
is_text-some s none h = cc
is_text-some s (some (text t)) h = ap (λ u. some (text u)) ((eq_iff t s).0 h)
is_text-some s (some v) h = cc

pub sealed_returned : (o : Outcome SealError Bool) → sealed o ≡ ok tt → (b : Bool) × (o ≡ ok b)
sealed_returned (ok b) h = (b, refl)
sealed_returned (raised e) h = cc

and_true : (a b : Bool) → (a && b) ≡ true → (a ≡ true) × (b ≡ true)
and_true true b h = (refl, h)
and_true false b h = cc

texts_eq-same : (xs ys : List String) → texts_eq xs ys ≡ true → xs ≡ ys
texts_eq-same [] [] h = refl
texts_eq-same [] (y ∷ ys) h = cc
texts_eq-same (x ∷ xs) [] h = cc
texts_eq-same (x ∷ xs) (y ∷ ys) h =
    ap₂ ◌∷◌ ((eq_iff x y).0 (and_true (str_eq x y) _ h).0)
      (texts_eq-same xs ys (and_true (str_eq x y) _ h).1)

pub unknowns_match-same :
    (us : List String) (o : Option (List String)) → unknowns_match us o ≡ true → o ≡ some us
unknowns_match-same us none h = cc
unknowns_match-same us (some vs) h = ap (λ ws. some ws) (texts_eq-same vs us h)

pub check_set-same :
    (e e' : GuardError) (allowed : List String) (o : Option (List String))
    → check_set e e' allowed o ≡ ok tt
    → (shown : List String) × (o ≡ some shown) × ((x : String) → Member x shown ↔ Member x allowed)
check_set-same e e' allowed none h = cc
check_set-same e e' allowed (some shown) h =
    (shown, refl, same_set-Member shown allowed (require_passed (same_set shown allowed) e' h))

check_refs-Listed :
    (f : Finding) (o : Option Value)
    → check_refs f o ≡ ok tt
    → (rs : Elements) × (o ≡ some (list rs)) × (refs_match f.evidence_refs (values rs) ≡ true)
unfolding check_refs
check_refs-Listed f none h = cc
check_refs-Listed f (some (list xs)) h =
    let a = require-true (all hashable_ref (values xs)) unhashable _ h in
    (xs, refl, require_passed (refs_match f.evidence_refs (values xs)) ref_not_authorized a.1)
check_refs-Listed f (some v) h = cc

ok_inj : {A : Type 0} {a b : A} {o : Outcome GuardError A} → ok a ≡ o → o ≡ ok b → a ≡ b
ok_inj h k = cc

is_ref-IsRef : (r : Ref) (v : Value) → is_ref r v ≡ true → IsRef r v
unfolding is_ref
is_ref-IsRef r (mapping d) h =
    let b = and_true (is_text r.artifact (item "artifact" d)) _ h in
    (
      d,
      refl,
      is_text-some r.artifact (item "artifact" d) b.0,
      is_text-some r.lineage_id (item "lineage_id" d) b.1,
    )
is_ref-IsRef r v h = cc

only_refs :
    (rs : List Ref) (vs : List Value)
    → refs_match rs vs ≡ true
    → (v : Value) → Member v vs
    → Some (λ r. IsRef r v) rs
only_refs rs vs h v k =
    any-Some (λ r. is_ref r v) (λ r. IsRef r v) (λ r. is_ref-IsRef r v) rs
      (all-Member (λ w. any (λ r. is_ref r w) rs) vs
        (and_true (all (λ w. any (λ r. is_ref r w) rs) vs) _ h).0 v k)

all_refs :
    (rs : List Ref) (vs : List Value)
    → refs_match rs vs ≡ true
    → (r : Ref) → Member r rs
    → Some (IsRef r) vs
all_refs rs vs h r k =
    any-Some (λ v. is_ref r v) (IsRef r) (is_ref-IsRef r) vs
      (all-Member (λ q. any (λ v. is_ref q v) vs) rs
        (and_true (all (λ w. any (λ q. is_ref q w) rs) vs) _ h).1 r k)

module _ (fs : List Finding) where
  check_known-Shown :
      (d : Pairs) (id : String) (o : Option Finding) (shown : String)
      → item "finding_id" d ≡ some (text id)
      → authorized id fs ≡ o
      → check_known d id o ≡ ok shown
      → Shown fs (mapping d) shown
  unfolding check_known
  check_known-Shown d id none shown n k h = cc
  check_known-Shown d id (some f) shown n k h =
      let a = require-true (is_text f.state (item "state" d)) wrong_state _ h in
      let b = bind-returned (check_refs f (item "evidence_refs" d)) _ a.1 in
      let r = check_refs-Listed f (item "evidence_refs" d) b.1 in
      subst (Shown fs (mapping d)) (ok_inj refl b.2) (record {
        fields = d;
        is_fields = refl;
        names = n;
        finding = f;
        among = (authorized-Member id fs f k).0;
        has_id = (authorized-Member id fs f k).1;
        state = is_text-some f.state (item "state" d) a.0;
        refs = r.0;
        listed = r.1;
        only_its_refs = only_refs f.evidence_refs (values r.0) r.2;
        all_its_refs = all_refs f.evidence_refs (values r.0) r.2;
      })

  check_id-Shown :
      (d : Pairs) (o : Option Value) (shown : String)
      → item "finding_id" d ≡ o
      → check_id fs d o ≡ ok shown
      → Shown fs (mapping d) shown
  unfolding check_id
  check_id-Shown d none shown n h = cc
  check_id-Shown d (some (text id)) shown n h =
      check_known-Shown d id (authorized id fs) shown n refl h
  check_id-Shown d (some v) shown n h = cc

  check_finding-Shown :
      (v : Value) (shown : String) → check_finding fs v ≡ ok shown → Shown fs v shown
  unfolding check_finding
  check_finding-Shown (mapping d) shown h =
      let a = require-true (hashable_item (item "finding_id" d)) unhashable _ h in
      check_id-Shown d (item "finding_id" d) shown refl a.1
  check_finding-Shown v shown h = cc

  check_findings-AllShown :
      (vs : List Value) (shown : List String)
      → check_findings fs vs ≡ ok shown
      → AllShown fs vs shown
  unfolding check_findings
  check_findings-AllShown [] shown h = subst (AllShown fs []) (ok_inj refl h) shown_none
  check_findings-AllShown (v ∷ vs) shown h =
      let a = bind-returned (check_finding fs v) _ h in
      let b = bind-returned (check_findings fs vs) _ a.2 in
      subst (AllShown fs (v ∷ vs)) (ok_inj refl b.2)
        (shown_more (check_finding-Shown v a.0 a.1) (check_findings-AllShown vs b.0 b.1))

  pub check_findings_list-AllShown :
      (o : Option Value) (shown : List String)
      → check_findings_list fs o ≡ ok shown
      → (xs : Elements) × (o ≡ some (list xs)) × AllShown fs (values xs) shown
  unfolding check_findings_list
  check_findings_list-AllShown none shown h = cc
  check_findings_list-AllShown (some (list xs)) shown h =
      (xs, refl, check_findings-AllShown (values xs) shown h)
  check_findings_list-AllShown (some v) shown h = cc
