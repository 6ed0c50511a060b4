-- ===== src/InvestigationLog/Defs.antt =====
-- The log's data, `record`, `_mint_id` and `_trim`. A method returns its outcome beside the log,
-- since what was written before a `raise` stays written. Of the details that `record` takes, those
-- that the module itself passes are modelled: a hypothesis or a question.
use zaynor.Prelude.{
  ℕ, suc, ◌+◌, ◌-◌, String, Bool, true, false, not, Option, none, some, List, [], ◌∷◌, ◌++◌,
  Outcome, ok, raised, leb, ltb, ◌==◌, if◌then◌else◌, elem, strip, is_blank, text_length, decimal,
  value, is_digit, length, str_eq,
}
use zaynor.Json.{Json, null, bool, num, text, obj, Fields, field, end}
use zaynor.Crypto.{Crypto}
use Prim.Native.Nat.{max}

pub record Hypothesis : Type 0 where
  pub id : String
  pub statement : String
  pub status : String
  pub rationale : Option String

pub record Question : Type 0 where
  pub id : String
  pub question : String
  pub what_would_resolve : String
  pub resolved : Bool
  pub resolved_how : Option String

pub data Detail : Type 0 where
  of_hypothesis : Hypothesis → Detail
  of_question : Question → Detail

pub record JournalEntry : Type 0 where
  pub seq : ℕ
  pub actor : String
  pub action : String
  pub detail : Detail
  pub recorded_utc : String
  pub prev_hash : String
  pub entry_hash : String
  pub entry_hmac : Option String

-- `summarized_away`, which `_trim` counts up.
pub record Dropped : Type 0 where
  pub hypotheses : ℕ
  pub open_questions : ℕ

-- The dictionary. The counters are `none` until the first id is made.
pub record Log : Type 0 where
  pub case_id : String
  pub hypotheses : List Hypothesis
  pub open_questions : List Question
  pub journal : List JournalEntry
  pub memory_head : String
  pub memory_head_hmac : Option String
  pub next_hypothesis : Option ℕ
  pub next_question : Option ℕ
  pub summarized_away : Dropped

pub data LogError : Type 0 where
  blank too_long unknown_status unknown_hypothesis unknown_question : LogError

abbrev pub genesis : String
genesis = "0000000000000000000000000000000000000000000000000000000000000000"

abbrev pub hypothesis_states : List String
hypothesis_states = "open" ∷ "supported" ∷ "refuted" ∷ []

-- status in HYPOTHESIS_STATES
unfoldable pub is_state : String → Bool
is_state status = elem status hypothesis_states

abbrev pub hypothesis_limit : ℕ
hypothesis_limit = 100

abbrev pub question_limit : ℕ
question_limit = 50

unfoldable pub new_investigation_log : String → Log
new_investigation_log case_id = record {
  case_id = case_id;
  hypotheses = [];
  open_questions = [];
  journal = [];
  memory_head = genesis;
  memory_head_hmac = none;
  next_hypothesis = none;
  next_question = none;
  summarized_away = record { hypotheses = 0; open_questions = 0 };
}

-- `_text(value, field, limit=limit)` of a `str`.
unfoldable pub bounded_text : ℕ → String → Outcome LogError String
bounded_text limit s =
    if is_blank s
    then raised blank
    else let out = strip s in if ltb limit (text_length out) then raised too_long else ok out

-- The number of an id, 0 where what follows the prefix is no number.
id_number : String → ℕ
id_number String.[] = 0
id_number (String.◌∷◌ c raw) = if is_digit raw then value raw else 0

highest : List String → ℕ
highest [] = 0
highest (i ∷ is) = max (id_number i) (highest is)

-- The counter, or the highest number among the ids that are there.
unfoldable pub last_minted : Option ℕ → List String → ℕ
unfolding highest id_number
last_minted (some n) ids = n
last_minted none ids = highest ids

-- f"{prefix}{seen}"
unfoldable pub hypothesis_id : ℕ → String
hypothesis_id n = String.◌∷◌ "H" (decimal n)

unfoldable pub question_id : ℕ → String
question_id n = String.◌∷◌ "Q" (decimal n)

first : ℕ → List ℕ → List ℕ
first n [] = []
first n (x ∷ xs) = if n == 0 then [] else x ∷ first (n - 1) xs

unfoldable pub among : ℕ → List ℕ → Bool
among i [] = false
among i (x ∷ xs) = if i == x then true else among i xs

module _ {ℓ} {A : Type ℓ} where
  -- The indices, from `i` on, of the items for which the test has the value `b`.
  indices : (A → Bool) → Bool → ℕ → List A → List ℕ
  indices test b i [] = []
  indices test b i (x ∷ xs) =
      let rest = indices test b (suc i) xs in
      if test x then (if b then i ∷ rest else rest) else (if b then rest else i ∷ rest)

  -- [item for i, item in enumerate(items) if i not in drop]
  unfoldable pub without : List ℕ → ℕ → List A → List A
  unfolding among
  without drop i [] = []
  without drop i (x ∷ xs) =
      let rest = without drop (suc i) xs in if among i drop then rest else x ∷ rest

  -- `cap` of `_trim`: settled items are dropped first, then open ones, each oldest first.
  unfoldable pub cap : (A → Bool) → ℕ → List A → List A
  unfolding indices first
  cap is_settled limit items =
      if leb (length items) limit
      then items
      else without
          (first (length items - limit)
            (indices is_settled true 0 items ++ indices is_settled false 0 items))
          0 items

abbrev pub is_settled : Hypothesis → Bool
is_settled h = not (str_eq h.status "open")

unfoldable pub trim : Log → Log
trim log =
    let hs = cap is_settled hypothesis_limit log.hypotheses in
    let qs = cap (λ (q : Question). q.resolved) question_limit log.open_questions in
    record log {
      hypotheses = hs;
      open_questions = qs;
      summarized_away = record {
        hypotheses = log.summarized_away.hypotheses + (length log.hypotheses - length hs);
        open_questions =
            log.summarized_away.open_questions + (length log.open_questions - length qs);
      };
    }

optional_json : Option String → Json
optional_json none = null
optional_json (some s) = text s

how_field : Option String → Fields
how_field none = end
how_field (some s) = field "resolved_how" (text s) end

detail_json : Detail → Json
unfolding optional_json how_field
detail_json (of_hypothesis h) = obj (
    field "id" (text h.id) (
      field "text" (text h.statement)
        (field "status" (text h.status) (field "rationale" (optional_json h.rationale) end))))
detail_json (of_question q) = obj (
    field "id" (text q.id) (
      field "question" (text q.question) (
        field "what_would_resolve" (text q.what_would_resolve)
          (field "resolved" (bool q.resolved) (how_field q.resolved_how)))))

module _ (c : Crypto) where
  open c use {Bytes, dumps, sha256, hmac, encode}

  -- `_seal` of the entry without its `entry_hash` and `entry_hmac`.
  unfoldable pub seal : JournalEntry → String
  unfolding detail_json
  seal e = sha256 (
      dumps (
        obj (
          field "seq" (num e.seq) (
            field "actor" (text e.actor) (
              field "action" (text e.action) (
                field "detail" (detail_json e.detail) (
                  field "recorded_utc" (text e.recorded_utc)
                    (field "prev_hash" (text e.prev_hash) end))))))))

  unfoldable pub hmac_of : Option Bytes → String → Option String
  hmac_of none h = none
  hmac_of (some key) h = some (hmac key (encode h))

  -- `log["memory_head_hmac"]` is set only where there is a key.
  unfoldable pub head_hmac : Option Bytes → String → Option String → Option String
  head_hmac none h old = old
  head_hmac (some key) h old = some (hmac key (encode h))

  unfoldable pub sealed_entry :
      Log → Option Bytes → String → String → Detail → String → JournalEntry
  sealed_entry log key actor action detail now =
      let body : JournalEntry = record {
        seq = length log.journal;
        actor = actor;
        action = action;
        detail = detail;
        recorded_utc = now;
        prev_hash = log.memory_head;
        entry_hash = "";
        entry_hmac = none;
      } in
      record body { entry_hash = seal body; entry_hmac = hmac_of key (seal body) }

  unfoldable pub add_entry : JournalEntry → Option Bytes → Log → Log
  add_entry e key log = record log {
    journal = log.journal ++ e ∷ [];
    memory_head = e.entry_hash;
    memory_head_hmac = head_hmac key e.entry_hash log.memory_head_hmac;
  }

  -- `record(log, actor=…, action=…, detail=…, hmac_key=…)`, `now` being `_now()`.
  unfoldable pub record_entry :
      Option Bytes → String → String → Detail → String → Log → Outcome LogError JournalEntry × Log
  record_entry key actor action detail now log = elim (bounded_text 120 actor) [
    | raised e ↦ (raised e, log)
    | ok a ↦ elim (bounded_text 120 action) [
      | raised e ↦ (raised e, log)
      | ok b ↦
          let entry = sealed_entry log key a b detail now in (ok entry, add_entry entry key log)
    ]
  ]
