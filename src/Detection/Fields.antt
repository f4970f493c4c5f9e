-- ===== src/Detection/Fields.antt =====
-- `flatten_alert` and `_stringify` of backend/app/engines/detection/rules.py.
use Prim.Native.String.{◌++◌ as cat}
use ai_powered_security_inve.Base.{String, List, [], ◌∷◌}
use ai_powered_security_inve.Base.Dict.{Dict, insert}
use ai_powered_security_inve.Base.Text.{join}
use ai_powered_security_inve.Schemas.Common.{severity_value}
use ai_powered_security_inve.Schemas.Alert.{
  Json, text, items, fields, scalar, Items, no_items, item, Fields, no_fields, field, Alert,
}

-- `_stringify`, with the texts that it joins for a list and for a dict
unfoldable mutual
  pub stringify : Json → String
  stringify (text s) = s
  stringify (items xs) = join " " (stringify_items xs)
  stringify (fields fs) = join " " (stringify_fields fs)
  stringify (scalar s b) = s

  pub stringify_items : Items → List String
  stringify_items no_items = []
  stringify_items (item x xs) = stringify x ∷ stringify_items xs

  pub stringify_fields : Fields → List String
  stringify_fields no_fields = []
  stringify_fields (field k v fs) = cat k (cat "=" (stringify v)) ∷ stringify_fields fs

-- the loop over `alert.extra`
unfoldable pub add_extra : Dict Json → Dict String → Dict String
add_extra [] found = found
add_extra ((key, value) ∷ extra) found =
    add_extra extra (insert (cat "extra." key) (stringify value) found)

unfoldable pub flatten_alert : Alert → Dict String
flatten_alert alert = add_extra alert.extra (
    ("title", alert.title)
    ∷ ("description", alert.description)
    ∷ ("raw_text", alert.raw_text)
    ∷ ("severity", severity_value alert.severity)
    ∷ ("source", alert.source)
    ∷ ("src_ips", join " " alert.src_ips)
    ∷ ("dst_ips", join " " alert.dst_ips)
    ∷ ("users", join " " alert.users)
    ∷ ("hosts", join " " alert.hosts)
    ∷ ("text", join "\n" (alert.title ∷ alert.description ∷ alert.raw_text ∷ []))
    ∷ [])
