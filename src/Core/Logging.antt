-- ===== src/Core/Logging.antt =====
-- app/core/logging.py: what is taken out of the structured records. The two regular expressions, the
-- formatting of a message, and `str.lower` are parameters.
use trelgream_self_userbot.Prelude.{
  String, Bool, true, false, Option, none, some, List, [], ◌∷◌, any, str_eq, if◌then◌else◌,
}
mod Redacted
mod Samples

-- Python's values as far as `_redact_mapping` tells them apart. `Object` stands for the values that are
-- none of the others: None, Booleans, numbers, dates and so on. The keys of a dictionary are strings.
mutual
  pub data Value (Object : Type 0) : Type 0 where
    str : String → Value Object
    other : Object → Value Object
    list : Values Object → Value Object
    tuple : Values Object → Value Object
    dict : Mapping Object → Value Object

  pub data Values (Object : Type 0) : Type 0 where
    nil : Values Object
    cons : Value Object → Values Object → Values Object

  pub data Mapping (Object : Type 0) : Type 0 where
    end : Mapping Object
    entry : (key : String) (val : Value Object) → Mapping Object → Mapping Object

abbrev pub sensitive_keys : List String
sensitive_keys =
    "password" ∷ "2fa_password" ∷ "code" ∷ "verification_code" ∷ "session" ∷ "session_str"
    ∷ "string_session" ∷ "api_hash" ∷ "bot_token" ∷ "token" ∷ "encryption_key" ∷ "phone_code_hash"
    ∷ "authorization" ∷ []

module _ {Object : Type 0} where
  abbrev pub redacted : Value Object
  redacted = str "***REDACTED***"

  -- an assignment to a key, which keeps the place of a key that is there
  unfoldable pub set_entry : String → Value Object → Mapping Object → Mapping Object
  set_entry key val end = entry key val end
  set_entry key val (entry k v rest) =
      let later = set_entry key val rest in
      if str_eq k key then entry k val rest else entry k v later

  -- `out.update(extra)`
  unfoldable pub update : Mapping Object → Mapping Object → Mapping Object
  unfolding set_entry
  update end out = out
  update (entry key val rest) out = update rest (set_entry key val out)

-- `sub` replaces what one of the two patterns matches, the first one first
abbrev pub redact_text : (sub_session sub_hex : String → String) → String → String
redact_text sub_session sub_hex value = sub_hex (sub_session value)

abbrev pub is_sensitive : (lower : String → String) → String → Bool
is_sensitive lower key = any (λ k. str_eq k (lower key)) sensitive_keys

module _ {Object : Type 0} (lower : String → String) where
  -- a value that is no dictionary, no list and no tuple
  abbrev pub redact_plain : (key : String) → Value Object → Value Object
  redact_plain key val = if is_sensitive lower key then redacted else val

  unfoldable mutual
    pub redact_mapping : Mapping Object → Mapping Object
    redact_mapping end = end
    redact_mapping (entry key (dict val) rest) =
        entry key (dict (redact_mapping val)) (redact_mapping rest)
    redact_mapping (entry key (list val) rest) =
        entry key (list (redact_items val)) (redact_mapping rest)
    redact_mapping (entry key (tuple val) rest) =
        entry key (list (redact_items val)) (redact_mapping rest)
    redact_mapping (entry key (str s) rest) =
        entry key (redact_plain key (str s)) (redact_mapping rest)
    redact_mapping (entry key (other o) rest) =
        entry key (redact_plain key (other o)) (redact_mapping rest)

    pub redact_items : Values Object → Values Object
    redact_items nil = nil
    redact_items (cons (dict v) items) = cons (dict (redact_mapping v)) (redact_items items)
    redact_items (cons (list v) items) = cons (list v) (redact_items items)
    redact_items (cons (tuple v) items) = cons (tuple v) (redact_items items)
    redact_items (cons (str s) items) = cons (str s) (redact_items items)
    redact_items (cons (other o) items) = cons (other o) (redact_items items)

  module _ (sub_session sub_hex : String → String) where
    -- the dictionary that `JsonFormatter.format` dumps
    unfoldable pub format :
        (ts level logger message : String) (exc_info : Option String)
        (extra : Option (Mapping Object))
        → Mapping Object
    unfolding redact_mapping redact_items set_entry update
    format ts level logger message exc_info extra =
        let payload = entry "ts" (str ts) (
          entry "level" (str level) (
            entry "logger" (str logger)
              (entry "message" (str (redact_text sub_session sub_hex message)) end))) in
        let with_exc_info : Mapping Object = elim exc_info [
          | none ↦ payload
          | some e ↦ set_entry "exc_info" (str e) payload
        ] in
        elim extra [
          | none ↦ with_exc_info
          | some fields ↦ update (redact_mapping fields) with_exc_info
        ]
