-- ===== src/Investigation/Values.antt =====
-- The payloads of src/zaynor/agents/investigation_contracts.py: Python values of JSON shape, their
-- frozen copies, and the rejection of floats. Keys of mappings are texts; a mapping with another
-- key is rejected by the code and has no model.
use zaynor.Prelude.{ℕ, String, ◌≡◌, refl, sym, ◌∙◌, ap, ap₂, Bool, true, false, ◌&&◌, arith}

mutual
  pub data Value : Type 0 where
    null : Value
    bool : Bool → Value
    num : ℕ → Value
    negative : ℕ → Value
    float : String → Value
    text : String → Value
    list : Elements → Value
    tuple : Elements → Value
    dict : Entries → Value
    proxy : Entries → Value

  pub data Elements : Type 0 where
    nil : Elements
    cons : Value → Elements → Elements

  pub data Entries : Type 0 where
    end : Entries
    entry : String → Value → Entries → Entries

unfoldable mutual
  -- Whether `_reject_float` lets a value pass.
  pub float_free : Value → Bool
  float_free (float s) = false
  float_free (list xs) = float_free_elements xs
  float_free (tuple xs) = float_free_elements xs
  float_free (dict es) = float_free_entries es
  float_free (proxy es) = float_free_entries es
  float_free v = true

  pub float_free_elements : Elements → Bool
  float_free_elements nil = true
  float_free_elements (cons v xs) = float_free v && float_free_elements xs

  pub float_free_entries : Entries → Bool
  float_free_entries end = true
  float_free_entries (entry k v es) = float_free v && float_free_entries es

unfoldable mutual
  -- `_freeze_json`
  pub freeze : Value → Value
  freeze (list xs) = tuple (freeze_elements xs)
  freeze (tuple xs) = tuple (freeze_elements xs)
  freeze (dict es) = proxy (freeze_entries es)
  freeze (proxy es) = proxy (freeze_entries es)
  freeze v = v

  pub freeze_elements : Elements → Elements
  freeze_elements nil = nil
  freeze_elements (cons v xs) = cons (freeze v) (freeze_elements xs)

  pub freeze_entries : Entries → Entries
  freeze_entries end = end
  freeze_entries (entry k v es) = entry k (freeze v) (freeze_entries es)

unfoldable mutual
  -- `_thaw_json`, which leaves a list as it is.
  pub thaw : Value → Value
  thaw (tuple xs) = list (thaw_elements xs)
  thaw (dict es) = dict (thaw_entries es)
  thaw (proxy es) = dict (thaw_entries es)
  thaw v = v

  pub thaw_elements : Elements → Elements
  thaw_elements nil = nil
  thaw_elements (cons v xs) = cons (thaw v) (thaw_elements xs)

  pub thaw_entries : Entries → Entries
  thaw_entries end = end
  thaw_entries (entry k v es) = entry k (thaw v) (thaw_entries es)

unfoldable mutual
  -- What `json.loads` returns: no tuple and no proxy.
  pub is_json : Value → Bool
  is_json (tuple xs) = false
  is_json (proxy es) = false
  is_json (list xs) = is_json_elements xs
  is_json (dict es) = is_json_entries es
  is_json v = true

  pub is_json_elements : Elements → Bool
  is_json_elements nil = true
  is_json_elements (cons v xs) = is_json v && is_json_elements xs

  pub is_json_entries : Entries → Bool
  is_json_entries end = true
  is_json_entries (entry k v es) = is_json v && is_json_entries es

mutual
  unfolding freeze thaw is_json

  thaw-freeze_value : (v : Value) → is_json v ≡ true → thaw (freeze v) ≡ v
  thaw-freeze_value null h = refl
  thaw-freeze_value (bool b) h = refl
  thaw-freeze_value (num n) h = refl
  thaw-freeze_value (negative n) h = refl
  thaw-freeze_value (float s) h = refl
  thaw-freeze_value (text s) h = refl
  thaw-freeze_value (list xs) h = ap list (thaw-freeze_elements xs h)
  thaw-freeze_value (tuple xs) h = ground arith
  thaw-freeze_value (dict es) h = ap dict (thaw-freeze_entries es h)
  thaw-freeze_value (proxy es) h = ground arith

  thaw-freeze_elements :
      (xs : Elements) → is_json_elements xs ≡ true → thaw_elements (freeze_elements xs) ≡ xs
  thaw-freeze_elements nil h = refl
  thaw-freeze_elements (cons v xs) h =
      ap₂ cons (thaw-freeze_value v (ground arith)) (thaw-freeze_elements xs (ground arith))

  thaw-freeze_entries :
      (es : Entries) → is_json_entries es ≡ true → thaw_entries (freeze_entries es) ≡ es
  thaw-freeze_entries end h = refl
  thaw-freeze_entries (entry k v es) h =
      ap₂ (entry k) (thaw-freeze_value v (ground arith)) (thaw-freeze_entries es (ground arith))

-- Thawing what was frozen gives a value of JSON shape back.
pub thaw-freeze : (v : Value) → is_json v ≡ true → thaw (freeze v) ≡ v
thaw-freeze v h = thaw-freeze_value v h

mutual
  unfolding freeze thaw

  freeze-thaw_value : (v : Value) → freeze (thaw (freeze v)) ≡ freeze v
  freeze-thaw_value null = refl
  freeze-thaw_value (bool b) = refl
  freeze-thaw_value (num n) = refl
  freeze-thaw_value (negative n) = refl
  freeze-thaw_value (float s) = refl
  freeze-thaw_value (text s) = refl
  freeze-thaw_value (list xs) = ap tuple (freeze-thaw_elements xs)
  freeze-thaw_value (tuple xs) = ap tuple (freeze-thaw_elements xs)
  freeze-thaw_value (dict es) = ap proxy (freeze-thaw_entries es)
  freeze-thaw_value (proxy es) = ap proxy (freeze-thaw_entries es)

  freeze-thaw_elements :
      (xs : Elements) → freeze_elements (thaw_elements (freeze_elements xs)) ≡ freeze_elements xs
  freeze-thaw_elements nil = refl
  freeze-thaw_elements (cons v xs) = ap₂ cons (freeze-thaw_value v) (freeze-thaw_elements xs)

  freeze-thaw_entries :
      (es : Entries) → freeze_entries (thaw_entries (freeze_entries es)) ≡ freeze_entries es
  freeze-thaw_entries end = refl
  freeze-thaw_entries (entry k v es) = ap₂ (entry k) (freeze-thaw_value v) (freeze-thaw_entries es)

pub freeze-thaw :
    (es : Entries) → freeze_entries (thaw_entries (freeze_entries es)) ≡ freeze_entries es
freeze-thaw es = freeze-thaw_entries es

mutual
  unfolding freeze float_free

  float_free-freeze_value : (v : Value) → float_free (freeze v) ≡ float_free v
  float_free-freeze_value null = refl
  float_free-freeze_value (bool b) = refl
  float_free-freeze_value (num n) = refl
  float_free-freeze_value (negative n) = refl
  float_free-freeze_value (float s) = refl
  float_free-freeze_value (text s) = refl
  float_free-freeze_value (list xs) = float_free-freeze_elements xs
  float_free-freeze_value (tuple xs) = float_free-freeze_elements xs
  float_free-freeze_value (dict es) = float_free-freeze_entries es
  float_free-freeze_value (proxy es) = float_free-freeze_entries es

  float_free-freeze_elements :
      (xs : Elements) → float_free_elements (freeze_elements xs) ≡ float_free_elements xs
  float_free-freeze_elements nil = refl
  float_free-freeze_elements (cons v xs) =
      ap₂ ◌&&◌ (float_free-freeze_value v) (float_free-freeze_elements xs)

  float_free-freeze_entries :
      (es : Entries) → float_free_entries (freeze_entries es) ≡ float_free_entries es
  float_free-freeze_entries end = refl
  float_free-freeze_entries (entry k v es) =
      ap₂ ◌&&◌ (float_free-freeze_value v) (float_free-freeze_entries es)

-- A frozen copy has floats exactly where the value has.
pub float_free-freeze : (v : Value) → float_free (freeze v) ≡ float_free v
float_free-freeze v = float_free-freeze_value v

mutual
  unfolding thaw is_json

  thaw-is_json_value : (v : Value) → is_json v ≡ true → thaw v ≡ v
  thaw-is_json_value null h = refl
  thaw-is_json_value (bool b) h = refl
  thaw-is_json_value (num n) h = refl
  thaw-is_json_value (negative n) h = refl
  thaw-is_json_value (float s) h = refl
  thaw-is_json_value (text s) h = refl
  thaw-is_json_value (list xs) h = refl
  thaw-is_json_value (tuple xs) h = ground arith
  thaw-is_json_value (dict es) h = ap dict (thaw-is_json_entries es h)
  thaw-is_json_value (proxy es) h = ground arith

  thaw-is_json_entries : (es : Entries) → is_json_entries es ≡ true → thaw_entries es ≡ es
  thaw-is_json_entries end h = refl
  thaw-is_json_entries (entry k v es) h =
      ap₂ (entry k) (thaw-is_json_value v (ground arith)) (thaw-is_json_entries es (ground arith))

pub thaw-freeze_eq : (v : Value) → is_json v ≡ true → thaw (freeze v) ≡ thaw v
thaw-freeze_eq v h = thaw-freeze v h ∙ sym (thaw-is_json_value v h)

pub freeze_value-thaw : (v : Value) → freeze (thaw (freeze v)) ≡ freeze v
freeze_value-thaw v = freeze-thaw_value v
