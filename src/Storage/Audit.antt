-- ===== src/Storage/Audit.antt =====
-- storage/audit.py: audit entries and their dictionaries, and the audit log of storage/memory.py.
use nesy_reasoning_mcp.Prelude.{
  ◌≡◌, ◌≢◌, refl, Bool, if◌then◌else◌, String, Option, some, none, List, [], ◌∷◌, ◌++◌, ◌==◌,
  text_key, ◌>>=◌, same→eq, Bool-cases, inl, inr,
}
use nesy_reasoning_mcp.Schemas.{Fields, field, end, Value, obj, text, get}

pub record AuditEntry : Type 0 where
  pub id : String
  pub event_type : String
  pub tool_name : String
  pub input_hash : String
  pub result_status : String
  pub created_at : String
  pub metadata : Fields

-- `given or default`, for an optional text
abbrev or_default : Option String → String → String
or_default none default = default
or_default (some given) default = if given == "" then default else given

-- `metadata or {}`
abbrev or_empty : Option Fields → Fields
or_empty none = end
or_empty (some fields) = fields

-- AuditEntry.__init__; `fresh` and `now` are what `uuid4` and the clock give.
unfoldable pub audit_entry :
    String
    → String
    → String
    → String
    → String
    → String
    → Option Fields
    → Option String
    → Option String
    → AuditEntry
audit_entry fresh now event_type tool_name input_hash result_status metadata entry_id created_at =
    record {
      id = or_default entry_id fresh;
      event_type = event_type;
      tool_name = tool_name;
      input_hash = input_hash;
      result_status = result_status;
      created_at = or_default created_at now;
      metadata = or_empty metadata;
    }

unfoldable pub to_dict : AuditEntry → Fields
to_dict e = field "id" (text e.id) (
    field "event_type" (text e.event_type) (
      field "tool_name" (text e.tool_name) (
        field "input_hash" (text e.input_hash) (
          field "result_status" (text e.result_status)
            (field "created_at" (text e.created_at) (field "metadata" (obj e.metadata) end))))))

-- data[key], where the value is a text; `none` is a KeyError.
abbrev text_of : Option Value → Option String
text_of (some (text s)) = some s
text_of _ = none

-- data.get("metadata", {})
abbrev fields_of : Option Value → Option Fields
fields_of (some (obj fields)) = some fields
fields_of none = some end
fields_of _ = none

unfoldable pub audit_from_dict : String → String → Fields → Option AuditEntry
audit_from_dict fresh now entry = do
  id ← text_of (get "id" entry)
  event_type ← text_of (get "event_type" entry)
  tool_name ← text_of (get "tool_name" entry)
  input_hash ← text_of (get "input_hash" entry)
  result_status ← text_of (get "result_status" entry)
  created_at ← text_of (get "created_at" entry)
  metadata ← fields_of (get "metadata" entry)
  some (
      audit_entry fresh now event_type tool_name input_hash result_status (some metadata) (some id)
        (some created_at))

-- `hash` is the SHA-256 of the sorted JSON text of the arguments.
module _ (hash : Fields → String) where
  unfoldable pub record_audit :
      Bool
      → String
      → String
      → String
      → String
      → Fields
      → String
      → Option Fields
      → List AuditEntry
      → List AuditEntry
  unfolding audit_entry
  record_audit enabled fresh now event_type tool_name arguments result_status metadata log =
      if enabled
      then log
        ++ (audit_entry fresh now event_type tool_name (hash arguments) result_status metadata none
              none
            ∷ [])
      else log

or_default_given : (given default : String) → given ≢ "" → or_default (some given) default ≡ given
or_default_given given default h = elim (Bool-cases (given == "")) [
  | inl empty ↦ absurd (h (same→eq given "" empty))
  | inr filled ↦ rw filled refl
]

-- Reading an entry's dictionary back gives the entry, whatever id and time the reader would have
-- made up, if the entry has an id and a time of creation.
pub audit_from_dict-to_dict :
    (fresh now : String) (e : AuditEntry)
    → e.id ≢ ""
    → e.created_at ≢ ""
    → audit_from_dict fresh now (to_dict e) ≡ some e
unfolding audit_from_dict to_dict audit_entry get
audit_from_dict-to_dict fresh now e i c =
    rw (or_default_given e.id fresh i) (rw (or_default_given e.created_at now c) refl)
