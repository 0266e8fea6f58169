-- ===== src/Value/Json.antt =====
-- `json.dumps` with its default arguments, of the standard library. Floats are not modelled.
use Prim.Native.Char.{Char, code}
use Prim.Native.String.{◌++◌ as ◌<>◌}
use pg_que.Base.{
  ℕ, suc, ◌+◌, ◌-◌, ◌/◌, ◌%◌, ◌≡◌, refl, String, true, false, Option, none, some, ltb, ◌==◌,
  if◌then◌else◌,
}
use pg_que.Base.Texts.{digit_char, show}
use pg_que.Value.{
  Value, null, bool, int, str, arr, obj, event, opaque, Items, nil, cons, Fields, end, field, ℤ,
}

hex_char : ℕ → Char
hex_char d =
    if ltb d 10
    then digit_char d
    else if d == 10
    then "a"
    else if d == 11
    then "b"
    else if d == 12
    then "c"
    else if d == 13
    then "d"
    else if d == 14
    then "e"
    else "f"

-- `\uXXXX`
unicode_escape : ℕ → String
unfolding hex_char
unicode_escape c = String.◌∷◌ "\\" (
    String.◌∷◌ "u" (
      String.◌∷◌ (hex_char (c / 4096 % 16)) (
        String.◌∷◌ (hex_char (c / 256 % 16))
          (String.◌∷◌ (hex_char (c / 16 % 16)) (String.◌∷◌ (hex_char (c % 16)) "")))))

-- One character of a text, as `ensure_ascii` writes it: a code point past 0xffff is two surrogates.
escape_char : Char → String
unfolding unicode_escape
escape_char ch =
    let c = code ch in
    if c == 34
    then "\\\""
    else if c == 92
    then "\\\\"
    else if c == 10
    then "\\n"
    else if c == 13
    then "\\r"
    else if c == 9
    then "\\t"
    else if c == 12
    then "\\f"
    else if c == 8
    then "\\b"
    else if ltb c 32
    then unicode_escape c
    else if ltb c 127
    then String.◌∷◌ ch ""
    else if ltb c 65536
    then unicode_escape c
    else unicode_escape (55296 + (c - 65536) / 1024) <> unicode_escape (56320 + (c - 65536) % 1024)

escape : String → String
unfolding escape_char
escape String.[] = ""
escape (String.◌∷◌ c s) = escape_char c <> escape s

quote : String → String
unfolding escape
quote s = "\"" <> (escape s <> "\"")

show_int : ℤ → String
unfolding show
show_int (ℤ.pos n) = show n
show_int (ℤ.negsuc n) = "-" <> show (suc n)

-- `none` is the `TypeError` of a value that JSON has no form for.
mutual
  unfolding quote show_int

  dumps_value : Value → Option String
  dumps_value null = some "null"
  dumps_value (bool true) = some "true"
  dumps_value (bool false) = some "false"
  dumps_value (int n) = some (show_int n)
  dumps_value (str s) = some (quote s)
  dumps_value (arr nil) = some "[]"
  dumps_value (arr (cons v xs)) = elim (dumps_value v) [
    | none ↦ none
    | some t ↦ elim (dumps_items xs) [ none ↦ none | some ts ↦ some ("[" <> (t <> ts)) ]
  ]
  dumps_value (obj end) = some "{}"
  dumps_value (obj (field k v fs)) = elim (dumps_value v) [
    | none ↦ none
    | some t ↦ elim (dumps_fields fs) [
      | none ↦ none
      | some ts ↦ some ("{" <> (quote k <> (": " <> (t <> ts))))
    ]
  ]
  dumps_value (event v t) = none
  dumps_value (opaque k) = none

  dumps_items : Items → Option String
  dumps_items nil = some "]"
  dumps_items (cons v xs) = elim (dumps_value v) [
    | none ↦ none
    | some t ↦ elim (dumps_items xs) [ none ↦ none | some ts ↦ some (", " <> (t <> ts)) ]
  ]

  dumps_fields : Fields → Option String
  dumps_fields end = some "}"
  dumps_fields (field k v fs) = elim (dumps_value v) [
    | none ↦ none
    | some t ↦ elim (dumps_fields fs) [
      | none ↦ none
      | some ts ↦ some (", " <> (quote k <> (": " <> (t <> ts))))
    ]
  ]

unfoldable pub dumps : Value → Option String
unfolding dumps_value
dumps v = dumps_value v

dumps_test :
    dumps
      (obj (field "a" (arr (cons (int (ℤ.pos 10)) (cons null nil))) (field "é\n" (str "x\"") end)))
    ≡ some "{\"a\": [10, null], \"\\u00e9\\n\": \"x\\\"\"}"
unfolding dumps
dumps_test = refl
