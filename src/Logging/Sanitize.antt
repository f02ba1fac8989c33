-- ===== src/Logging/Sanitize.antt =====
-- `_sanitize_value`, `JsonFormatter.format` and the correlation context of shared/logging/logger.py.
pub mod Laws
use global_payments_observab.Base.{
  ℕ, zero, suc, String, str_eq, Bool, true, false, not, ◌||◌, Option, none, some, leb,
  if◌then◌else◌,
}
use global_payments_observab.Logging.Redact.{Text, CharClass, chars, redact_string}

-- The values that are logged. The keys of a dict are texts; `opaque` is a value of another class, with
-- the text that `str` gives of it; a number stands for every number, Boolean and `None`.
mutual
  pub data Value : Type 0 where
    mapping : Fields → Value
    sequence : Items → Value
    tuple : Items → Value
    text : Text → Value
    number : ℕ → Value
    datetime : ℕ → Value
    opaque : Text → Value

  pub data Items : Type 0 where
    nil : Items
    cons : Value → Items → Items

  pub data Fields : Type 0 where
    end : Fields
    field : String → Value → Fields → Fields

-- What the standard library gives: the character classes, `str.lower` and `datetime.isoformat`.
pub record TextLibrary : Type 0 where
  pub classes : CharClass
  pub lower : String → String
  pub isoformat : ℕ → Text

-- `_REDACTED_FIELDS`
abbrev pub is_redacted_field : String → Bool
is_redacted_field k =
    str_eq k "destination"
    || (str_eq k "pix_key"
        || (str_eq k "beneficiary" || (str_eq k "card_number" || str_eq k "pan")))

abbrev pub max_sanitize_depth : ℕ
max_sanitize_depth = 6

module _ (L : TextLibrary) where
  abbrev pub hidden : Value
  hidden = text (chars "[REDACTED]")

  abbrev pub truncated : Value
  truncated = text (chars "[TRUNCATED]")

  -- `_sanitize_value`, `_sanitize_sequence` and `_sanitize_mapping`
  unfoldable mutual
    pub sanitize_value : ℕ → Value → Value
    sanitize_value depth (mapping fs) =
        let inner = mapping (sanitize_mapping depth fs) in
        if leb max_sanitize_depth depth then truncated else inner
    sanitize_value depth (sequence vs) =
        let inner = sequence (sanitize_sequence depth vs) in
        if leb max_sanitize_depth depth then truncated else inner
    sanitize_value depth (tuple vs) =
        let inner = tuple (sanitize_sequence depth vs) in
        if leb max_sanitize_depth depth then truncated else inner
    sanitize_value depth (text t) =
        if leb max_sanitize_depth depth then truncated else text (redact_string L.classes t)
    sanitize_value depth (number n) = if leb max_sanitize_depth depth then truncated else number n
    sanitize_value depth (datetime t) =
        if leb max_sanitize_depth depth then truncated else text (L.isoformat t)
    sanitize_value depth (opaque t) = if leb max_sanitize_depth depth then truncated else opaque t

    pub sanitize_sequence : ℕ → Items → Items
    sanitize_sequence depth nil = nil
    sanitize_sequence depth (cons v vs) =
        cons (sanitize_value (suc depth) v) (sanitize_sequence depth vs)

    pub sanitize_mapping : ℕ → Fields → Fields
    sanitize_mapping depth end = end
    sanitize_mapping depth (field k v fs) =
        field k (if is_redacted_field (L.lower k) then hidden else sanitize_value (suc depth) v)
          (sanitize_mapping depth fs)

-- `d[k] = v`, and `d.update(e)`
unfoldable pub set_field : String → Value → Fields → Fields
set_field k v end = field k v end
set_field k v (field j u fs) = if str_eq j k then field j v fs else field j u (set_field k v fs)

unfoldable pub update_fields : Fields → Fields → Fields
unfolding set_field
update_fields fs end = fs
update_fields fs (field k v gs) = update_fields (set_field k v fs) gs

-- A record of the logging module.
pub record LogRecord : Type 0 where
  pub timestamp : Text
  pub levelname : Text
  pub name : Text
  pub message : Text
  pub exception : Option Text
  pub extra_fields : Option Fields

abbrev pub with_exception : Option Text → Fields → Fields
with_exception none fs = fs
with_exception (some t) fs = set_field "exception" (text t) fs

abbrev pub with_extra : Option Fields → Fields → Fields
with_extra none fs = fs
with_extra (some extra) fs = update_fields fs extra

-- `JsonFormatter.format`, up to `json.dumps`: the value that is dumped
unfoldable pub format_record : TextLibrary → Fields → LogRecord → Value
format_record L context r =
    let base = field "timestamp" (text r.timestamp) (
      field "level" (text r.levelname) (
        field "logger" (text r.name)
          (field "message" (text (redact_string L.classes r.message)) end))) in
    let with_context = update_fields (with_exception r.exception base) context in
    sanitize_value L 0 (mapping (with_extra r.extra_fields with_context))
