-- ===== src/Planning/Json.antt =====
-- `json.dumps(params, sort_keys=True, default=str)` on the parameters that tools are called with,
-- texts and lists of texts (backend/app/agents/planning/task.py, `dedup_key`): the default
-- separators, and every character outside printable ASCII escaped.
use Prim.Native.String.{◌++◌ as cat, compare}
use Prim.Native.Char.{Char, code}
use text.Mathlib.Text.{is_le}
use ai_powered_security_inve.Base.{
  ℕ, ◌+◌, ◌-◌, ◌/◌, ◌%◌, String, ◌≡◌, refl, Bool, ◌&&◌, List, [], ◌∷◌, leb, ltb, eqb, if◌then◌else◌,
}
use ai_powered_security_inve.Base.Sort.{sort}
use ai_powered_security_inve.Base.Decimal.{digit}

pub data Value : Type 0 where
  str : String → Value
  list : List String → Value

abbrev pub Params : Type 0
Params = List (String × Value)

hex_digit : ℕ → String
unfolding digit
hex_digit n =
    if leb n 9
    then digit n
    else if eqb n 10
    then "a"
    else if eqb n 11
    then "b"
    else if eqb n 12
    then "c"
    else if eqb n 13
    then "d"
    else if eqb n 14
    then "e"
    else "f"

-- '\\u{0:04x}'.format(n)
unicode_escape : ℕ → String
unfolding hex_digit
unicode_escape n = cat "\\u" (
    cat (hex_digit (n / 4096))
      (cat (hex_digit (n / 256 % 16)) (cat (hex_digit (n / 16 % 16)) (hex_digit (n % 16)))))

escape_char : Char → String
unfolding unicode_escape
escape_char c =
    let n = code c in
    if eqb n 34
    then "\\\""
    else if eqb n 92
    then "\\\\"
    else if eqb n 10
    then "\\n"
    else if eqb n 13
    then "\\r"
    else if eqb n 9
    then "\\t"
    else if eqb n 12
    then "\\f"
    else if eqb n 8
    then "\\b"
    else if leb 32 n && leb n 126
    then String.◌∷◌ c String.[]
    else if ltb n 65536
    then unicode_escape n
    else (cat (unicode_escape (55296 + (n - 65536) / 1024 % 1024))
        (unicode_escape (56320 + (n - 65536) % 1024)))

escape : String → String
unfolding escape_char
escape String.[] = ""
escape (String.◌∷◌ c s) = cat (escape_char c) (escape s)

quote : String → String
unfolding escape
quote s = cat "\"" (cat (escape s) "\"")

-- the items of a list behind the first
dump_more : List String → String
unfolding quote
dump_more [] = "]"
dump_more (s ∷ ss) = cat ", " (cat (quote s) (dump_more ss))

dump_value : Value → String
unfolding dump_more
dump_value (str s) = quote s
dump_value (list []) = "[]"
dump_value (list (s ∷ ss)) = cat "[" (cat (quote s) (dump_more ss))

dump_entry : String × Value → String
unfolding dump_value
dump_entry (k, v) = cat (quote k) (cat ": " (dump_value v))

dump_entries : List (String × Value) → String
unfolding dump_entry
dump_entries [] = "}"
dump_entries (e ∷ es) = cat ", " (cat (dump_entry e) (dump_entries es))

abbrev key_le : String × Value → String × Value → Bool
key_le a b = is_le (compare a.0 b.0)

dump_sorted : Params → String
unfolding dump_entries
dump_sorted [] = "{}"
dump_sorted (e ∷ es) = cat "{" (cat (dump_entry e) (dump_entries es))

unfoldable pub dumps : Params → String
unfolding dump_sorted
dumps params = dump_sorted (sort key_le params)

dumps_test :
    dumps
      (("sha256", str "ab") ∷ ("filename", str "a\"é.doc") ∷ ("keys", list ("x" ∷ "y" ∷ [])) ∷ [])
    ≡ "{\"filename\": \"a\\\"\\u00e9.doc\", \"keys\": [\"x\", \"y\"], \"sha256\": \"ab\"}"
unfolding dumps sort
dumps_test = refl
