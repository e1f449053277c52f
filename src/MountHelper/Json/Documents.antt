-- ===== src/MountHelper/Json/Documents.antt =====
-- Whole documents of the JSON subset of bin/mount_helper.rs: printed, they are read back.
use mathlib.Core.List.{append_assoc, append-nil}
use vaultproxy.Prelude.{
  ℕ, zero, suc, ◌+◌, ◌≤◌, false, ◌≡◌, refl, ap, ◌∙◌, List, [], ◌∷◌, ◌++◌, arith, Text, length, ok,
  length-append, true, ◌↔◌,
}
use vaultproxy.MountHelper.Json.{
  Value, string, string_array, parse, parse_object, object_loop, parse_value, parse_string_array,
  array_loop, expect, skip_ws, is_ws,
}
use vaultproxy.Text.Encode.{encode}
use vaultproxy.MountHelper.Json.Bytewise.{
  bytewise, bytewise_value, bytewise_items, all_ascii, bytewise_iff,
}
use vaultproxy.MountHelper.Json.Strings.{
  print_string, parse_string-print_string, length-print_string,
}

-- The items of an array after its bracket, and the fields of an object after its brace.
unfoldable pub print_items : Text → List Text → Text
print_items s [] = print_string s ++ b']' ∷ []
print_items s (t ∷ ts) = print_string s ++ b',' ∷ print_items t ts

unfoldable pub print_value : Value → Text
print_value (string s) = print_string s
print_value (string_array []) = b'[' ∷ b']' ∷ []
print_value (string_array (s ∷ ss)) = b'[' ∷ print_items s ss

abbrev print_field : Text → Value → Text
print_field k v = print_string k ++ b':' ∷ print_value v

unfoldable pub print_fields : Text → Value → List (Text × Value) → Text
print_fields k v [] = print_field k v ++ b'}' ∷ []
print_fields k v ((j, w) ∷ fs) = print_field k v ++ b',' ∷ print_fields j w fs

unfoldable pub print_obj : List (Text × Value) → Text
print_obj [] = b'{' ∷ b'}' ∷ []
print_obj ((k, v) ∷ fs) = b'{' ∷ print_fields k v fs

-- The fuel that each part takes.
weigh_items : List Text → ℕ
weigh_items [] = 0
weigh_items (s ∷ ss) = suc (length (encode s)) + weigh_items ss

weigh : Value → ℕ
weigh (string s) = suc (length (encode s))
weigh (string_array ss) = weigh_items ss

weigh_fields : List (Text × Value) → ℕ
weigh_fields [] = 0
weigh_fields ((k, v) ∷ fs) = suc (length (encode k)) + weigh v + weigh_fields fs

-- A printed string begins with a quote, which is no white space.
skip_ws-print_string : (s r : Text) → skip_ws (print_string s ++ r) ≡ print_string s ++ r
unfolding skip_ws is_ws print_string
skip_ws-print_string s r = refl

-- Nor are the separators.
skip_ws_solid : (c : ℕ) (r : Text) → is_ws c ≡ false → skip_ws (c ∷ r) ≡ c ∷ r
unfolding skip_ws
skip_ws_solid c r h = rw h

separators_solid :
    (is_ws b',' ≡ false)
    × (is_ws b']' ≡ false)
    × (is_ws b'}' ≡ false)
    × (is_ws b':' ≡ false)
    × (is_ws b'[' ≡ false)
    × (is_ws b'{' ≡ false)
unfolding is_ws
separators_solid = (refl, refl, refl, refl, refl, refl)

array_loop-print_items :
    (f : ℕ) (s : Text) (ss : List Text) (rest : Text) (out : List Text)
    → weigh_items (s ∷ ss) ≤ f
    → array_loop f (print_items s ss ++ rest) out ≡ ok (out ++ bytewise_items (s ∷ ss), rest)
unfolding print_items weigh_items array_loop
array_loop-print_items zero s ss rest out h = absurd (omega arith)
array_loop-print_items (suc f) s [] rest out h =
    rw
      (
        append_assoc,
        skip_ws-print_string,
        parse_string-print_string (suc f) s (b']' ∷ rest) (omega arith),
      )
      (unfold skip_ws is_ws in refl)
array_loop-print_items (suc f) s (t ∷ ts) rest out h =
    rw
      (
        append_assoc,
        skip_ws-print_string,
        parse_string-print_string (suc f) s (b',' ∷ print_items t ts ++ rest) (omega arith),
      )
      (rw (skip_ws_solid b',' (print_items t ts ++ rest) separators_solid.0) (
        array_loop-print_items f t ts rest (out ++ encode s ∷ []) (omega arith)
        ∙ ap (λ r. ok (r, rest)) (append_assoc out (encode s ∷ []) (bytewise_items (t ∷ ts)))))

-- No item of an array looks like its end.
print_items_head :
    (s : Text) (ss : List Text) (rest : Text) → (r : Text) × (print_items s ss ++ rest ≡ b'"' ∷ r)
unfolding print_items print_string
print_items_head s [] rest = (_, refl)
print_items_head s (t ∷ ts) rest = (_, refl)

parse_string_array-print :
    (f : ℕ) (ss : List Text) (rest : Text)
    → weigh_items ss ≤ f
    → parse_string_array f (print_value (string_array ss) ++ rest) ≡ ok (bytewise_items ss, rest)
unfolding parse_string_array print_value expect skip_ws is_ws
parse_string_array-print f [] rest h = refl
parse_string_array-print f (s ∷ ss) rest h =
    let (r, e) = print_items_head s ss rest in
    let whole : array_loop f (b'"' ∷ r) [] ≡ ok (bytewise_items (s ∷ ss), rest) =
      rw e at (array_loop-print_items f s ss rest [] h) in
    rw e whole

parse_value-print_value :
    (f : ℕ) (v : Value) (rest : Text)
    → weigh v ≤ f
    → parse_value f (print_value v ++ rest) ≡ ok (bytewise_value v, rest)
unfolding parse_value weigh print_value print_string skip_ws is_ws
parse_value-print_value f (string s) rest h = rw (parse_string-print_string f s rest h)
parse_value-print_value f (string_array []) rest h = rw (parse_string_array-print f [] rest h)
parse_value-print_value f (string_array (s ∷ ss)) rest h =
    rw (parse_string_array-print f (s ∷ ss) rest h)

object_loop-print_fields :
    (f : ℕ) (k : Text) (v : Value) (fs : List (Text × Value)) (rest : Text)
    (out : List (Text × Value))
    → weigh_fields ((k, v) ∷ fs) ≤ f
    → object_loop f (print_fields k v fs ++ rest) out
      ≡ ok (record { fields = out ++ bytewise ((k, v) ∷ fs) }, rest)
unfolding print_fields weigh_fields object_loop expect
object_loop-print_fields zero k v fs rest out h = absurd (omega arith)
object_loop-print_fields (suc f) k v [] rest out h =
    rw
      (
        append_assoc,
        append_assoc,
        skip_ws-print_string,
        parse_string-print_string (suc f) k (b':' ∷ print_value v ++ b'}' ∷ rest) (omega arith),
        skip_ws_solid b':' (print_value v ++ b'}' ∷ rest) separators_solid.3,
        parse_value-print_value (suc f) v (b'}' ∷ rest) (omega arith),
        skip_ws_solid b'}' rest separators_solid.2,
      )
      refl
object_loop-print_fields (suc f) k v ((j, w) ∷ fs) rest out h =
    let more = b',' ∷ (print_fields j w fs ++ rest) in
    rw
      (
        append_assoc,
        append_assoc,
        skip_ws-print_string,
        parse_string-print_string (suc f) k (b':' ∷ (print_value v ++ more)) (omega arith),
        skip_ws_solid b':' (print_value v ++ more) separators_solid.3,
        parse_value-print_value (suc f) v more (omega arith),
        skip_ws_solid b',' (print_fields j w fs ++ rest) separators_solid.0,
      )
      (object_loop-print_fields f j w fs rest (out ++ (encode k, bytewise_value v) ∷ [])
          (omega arith)
        ∙ ap (λ r. ok (record { fields = r }, rest))
            (append_assoc out ((encode k, bytewise_value v) ∷ []) (bytewise ((j, w) ∷ fs))))

-- The fuel of `parse`, one more than the number of bytes, is enough.
length-print_items : (s : Text) (ss : List Text) → weigh_items (s ∷ ss) ≤ length (print_items s ss)
unfolding weigh_items print_items
length-print_items s [] =
    omega (arith, length-append (print_string s) (b']' ∷ []), length-print_string s)
length-print_items s (t ∷ ts) = omega (
  arith,
  length-append (print_string s) (b',' ∷ print_items t ts),
  length-print_string s,
  length-print_items t ts,
)

length-print_value : (v : Value) → weigh v ≤ length (print_value v)
unfolding weigh weigh_items print_value
length-print_value (string s) = length-print_string s
length-print_value (string_array []) = omega arith
length-print_value (string_array (s ∷ ss)) = omega (arith, length-print_items s ss)

length-print_fields :
    (k : Text) (v : Value) (fs : List (Text × Value))
    → weigh_fields ((k, v) ∷ fs) ≤ length (print_fields k v fs)
unfolding weigh_fields print_fields
length-print_fields k v [] = omega (
  arith,
  length-append (print_field k v) (b'}' ∷ []),
  length-append (print_string k) (b':' ∷ print_value v),
  length-print_string k,
  length-print_value v,
)
length-print_fields k v ((j, w) ∷ fs) = omega (
  arith,
  length-append (print_field k v) (b',' ∷ print_fields j w fs),
  length-append (print_string k) (b':' ∷ print_value v),
  length-print_string k,
  length-print_value v,
  length-print_fields j w fs,
)

print_fields_head :
    (k : Text) (v : Value) (fs : List (Text × Value))
    → (r : Text) × (print_fields k v fs ≡ b'"' ∷ r)
unfolding print_fields print_string
print_fields_head k v [] = (_, refl)
print_fields_head k v ((j, w) ∷ fs) = (_, refl)

parse_object-print_obj :
    (f : ℕ) (fs : List (Text × Value))
    → weigh_fields fs ≤ f
    → parse_object f (print_obj fs) ≡ ok (record { fields = bytewise fs }, [])
unfolding parse_object print_obj expect skip_ws is_ws
parse_object-print_obj f [] h = refl
parse_object-print_obj f ((k, v) ∷ fs) h =
    let (r, e) = print_fields_head k v fs in
    let loop : object_loop f (print_fields k v fs) []
        ≡ ok (record { fields = bytewise ((k, v) ∷ fs) }, []) =
      rw append-nil at (object_loop-print_fields f k v fs [] [] h) in
    let whole : object_loop f (b'"' ∷ r) [] ≡ ok (record { fields = bytewise ((k, v) ∷ fs) }, []) =
      rw e at loop in
    rw e whole

weigh_fields-print_obj : (fs : List (Text × Value)) → weigh_fields fs ≤ suc (length (print_obj fs))
unfolding print_obj weigh_fields
weigh_fields-print_obj [] = omega arith
weigh_fields-print_obj ((k, v) ∷ fs) = omega (arith, length-print_fields k v fs)

print_obj_head : (fs : List (Text × Value)) → skip_ws (print_obj fs) ≡ print_obj fs
unfolding print_obj skip_ws is_ws
print_obj_head [] = refl
print_obj_head ((k, v) ∷ fs) = refl

-- An object of strings and arrays of strings is printed with its strings escaped by `serde_escape`.
-- The parser reads it field by field, with the fuel that it gives itself, but every string comes back
-- with a character for each byte of its UTF-8. So what comes back is what was printed exactly if all
-- its strings are ASCII.
pub parse-print_obj :
    (fs : List (Text × Value))
    → (parse (print_obj fs) ≡ ok (record { fields = bytewise fs }))
      × ((bytewise fs ≡ fs) ↔ (all_ascii fs ≡ true))
unfolding parse
parse-print_obj fs = (
  rw
      (
        print_obj_head fs,
        parse_object-print_obj (suc (length (print_obj fs))) fs (weigh_fields-print_obj fs),
      )
      (unfold skip_ws in refl),
  bytewise_iff fs,
)
