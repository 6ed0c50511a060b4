-- ===== src/Seal/Values.antt =====
-- Python values as `_typed` of src/zaynor/authority_seal.py tells them apart, their typed forms, and
-- what is taken from `json`, `hashlib`, `hmac` and `dataclasses`. A dataclass is its canonical name
-- with its values in the order of its fields; the names of the fields go with the class.
use zaynor.Prelude.{
  ℕ, suc, true, false, ◌&&◌, String, Bool, List, Option, none, some, require, Outcome, ok, raised,
  ◌>>=◌, decimal, if◌then◌else◌,
}

mutual
  pub data Value : Type 0 where
    nothing : Value
    bool : Bool → Value
    num negative : ℕ → Value
    fraction : Bool → ℕ → ℕ → Value
    float : Value
    text : String → Value
    instance_of : String → Elements → Value
    mapping : Pairs → Value
    tuple list : Elements → Value
    other : String → Value

  pub data Elements : Type 0 where
    nil : Elements
    cons : Value → Elements → Elements

  pub data Pairs : Type 0 where
    end : Pairs
    pair : Value → Value → Pairs → Pairs

-- The dictionaries that `_typed` returns, by their "type".
mutual
  pub data Typed : Type 0 where
    t_null : Typed
    t_bool : Bool → Typed
    t_int : String → Typed
    t_fraction : String → String → Typed
    t_str : String → Typed
    t_dataclass : String → TypedElements → Typed
    t_mapping : TypedPairs → Typed
    t_tuple t_list : TypedElements → Typed

  pub data TypedElements : Type 0 where
    t_nil : TypedElements
    t_cons : Typed → TypedElements → TypedElements

  pub data TypedPairs : Type 0 where
    t_end : TypedPairs
    t_pair : Typed → Typed → TypedPairs → TypedPairs

-- What `_json` is called with: a typed key, and the whole payload.
pub data Document : Type 0 where
  key_document : Typed → Document
  payload : String → Typed → Document

-- `json` is `_json`, which gives no bytes where json.dumps or the encoding raises; `has_text` tells
-- the integers whose digits `str` writes.
pub record Platform : Type 1 where
  pub Bytes : Type 0
  pub json : Document → Option Bytes
  pub has_text : ℕ → Bool
  pub bytes_le : Bytes → Bytes → Bool
  pub sha256 : Bytes → String
  pub field_names : String → List String

-- The errors of the seal, and those of `str` and of `_json`, which it lets pass.
pub data SealError : Type 0 where
  too_many_digits not_encodable : SealError
  float_not_allowed : SealError
  unsupported_value : String → SealError
  unsupported_version : SealError
  schema_version_mismatch : SealError
  invalid_seal : SealError
  seal_mismatch : SealError

-- str(n) of an integer: with its sign, -(n + 1) for `negative n`.
abbrev pub signed : Bool → ℕ → String
signed minus n = if minus then String.◌∷◌ "-" (decimal n) else decimal n

module _ (c : Platform) where
  -- str(n), or the exception that it raises
  unfoldable pub int_text : Bool → ℕ → Outcome SealError String
  int_text minus n = if c.has_text n then ok (signed minus n) else raised too_many_digits

  abbrev pub encodes : Option c.Bytes → Bool
  encodes none = false
  encodes (some b) = true

  -- _json(pair[0]) of every pair, which the sort asks for before it compares
  unfoldable pub keys_encoded : TypedPairs → Bool
  keys_encoded t_end = true
  keys_encoded (t_pair k v ps) = encodes (c.json (key_document k)) && keys_encoded ps

  abbrev pub bytes_in_order : Option c.Bytes → Option c.Bytes → Bool
  bytes_in_order (some a) (some b) = c.bytes_le a b
  bytes_in_order _ _ = true

  -- entries.sort(key=lambda pair: _json(pair[0])), which keeps the order of equal keys
  unfoldable pub insert_pair : Typed → Typed → TypedPairs → TypedPairs
  insert_pair k v t_end = t_pair k v t_end
  insert_pair k v (t_pair j w ps) =
      let rest = insert_pair k v ps in
      if bytes_in_order (c.json (key_document k)) (c.json (key_document j))
      then t_pair k v (t_pair j w ps)
      else t_pair j w rest

  unfoldable pub sort_pairs : TypedPairs → TypedPairs
  unfolding insert_pair
  sort_pairs t_end = t_end
  sort_pairs (t_pair k v ps) = insert_pair k v (sort_pairs ps)

  unfoldable mutual
    unfolding sort_pairs int_text keys_encoded

    -- `_typed`
    pub typed : Value → Outcome SealError Typed
    typed nothing = ok t_null
    typed (bool b) = ok (t_bool b)
    typed (num n) = int_text false n >>= λ s. ok (t_int s)
    typed (negative n) = int_text true (suc n) >>= λ s. ok (t_int s)
    typed (fraction minus n d) =
        int_text minus n >>= λ s. int_text false d >>= λ t. ok (t_fraction s t)
    typed float = raised float_not_allowed
    typed (text s) = ok (t_str s)
    typed (instance_of name xs) = typed_elements xs >>= λ ts. ok (t_dataclass name ts)
    typed (mapping ps) = typed_pairs ps >>= λ ts.
        require (keys_encoded ts) not_encodable >>= λ u. ok (t_mapping (sort_pairs ts))
    typed (tuple xs) = typed_elements xs >>= λ ts. ok (t_tuple ts)
    typed (list xs) = typed_elements xs >>= λ ts. ok (t_list ts)
    typed (other name) = raised (unsupported_value name)

    pub typed_elements : Elements → Outcome SealError TypedElements
    typed_elements nil = ok t_nil
    typed_elements (cons v xs) = typed v >>= λ t. typed_elements xs >>= λ ts. ok (t_cons t ts)

    pub typed_pairs : Pairs → Outcome SealError TypedPairs
    typed_pairs end = ok t_end
    typed_pairs (pair k v ps) =
        typed k >>= λ tk. typed v >>= λ tv. typed_pairs ps >>= λ ts. ok (t_pair tk tv ts)
