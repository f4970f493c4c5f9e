-- ===== src/Schemas/Alert.antt =====
-- `Alert` of backend/app/schemas/alert.py. The source is its text, and `extra` holds JSON values, of
-- which a number, a truth value or null is kept as what `str` makes of it, with its truth.
use ai_powered_security_inve.Base.{String, Option, none, some, Bool, true, false, not, List, ◌==◌}
use ai_powered_security_inve.Base.Dict.{Dict}
use ai_powered_security_inve.Schemas.Common.{Severity}

mutual
  pub data Json : Type 0 where
    text : String → Json
    items : Items → Json
    fields : Fields → Json
    scalar : String → Bool → Json

  pub data Items : Type 0 where
    no_items : Items
    item : Json → Items → Items

  pub data Fields : Type 0 where
    no_fields : Fields
    field : String → Json → Fields → Fields

pub record Alert : Type 0 where
  pub source : String
  pub source_alert_id : String
  pub title : String
  pub description : String
  pub severity : Severity
  pub src_ips : List String
  pub dst_ips : List String
  pub users : List String
  pub hosts : List String
  pub raw_text : String
  pub extra : Dict Json

-- `bool(value)`
abbrev pub is_true : Json → Bool
is_true (text s) = not (s == "")
is_true (items no_items) = false
is_true (items (item _ _)) = true
is_true (fields no_fields) = false
is_true (fields (field _ _ _)) = true
is_true (scalar _ b) = b

-- `bool(extra.get(key))`, none where the key is missing
abbrev pub is_given : Option Json → Bool
is_given none = false
is_given (some v) = is_true v
