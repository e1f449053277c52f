-- ===== src/MountHelper/Json/Fuel.antt =====
-- The parser of bin/mount_helper.rs always ends: no part of it runs out of the fuel it is given.
use vaultproxy.Prelude.{
  ℕ, zero, suc, ◌-◌, ◌≤◌, ◌<◌, Bool, true, false, not, ◌≡◌, ◌≢◌, refl, ap, List, [], ◌∷◌, ◌++◌,
  arith, if◌then◌else◌, eqb, ltb, ◌==◌, text_eq, Text, length, Option, none, some, ok, err, ◌>>=◌,
  ◌>>◌, reject_if, ok_or, codes, take, drop,
}
use vaultproxy.Text.{is_empty, is_utf8}
use vaultproxy.MountHelper.Json.{
  Obj, Value, Bytes, Parse, parse, parse_object, object_loop, object_next, parse_value,
  parse_string_array, array_loop, array_next, expect, take_char, skip_ws, peek_is, parse_string,
  string_loop, escape, unicode_escape, simple_escape, from_str_radix, from_u32, stuck,
}

-- Not the answer of an empty tank, and at most `n` bytes left.
abbrev Ends : {A : Type 0} → ℕ → Parse A → Type 0
Ends n (ok (a, rest)) = length rest ≤ n
Ends n (err e) = e ≢ stuck

module _ {A B : Type 0} where
  Ends-bind :
      (m n : ℕ) (r : Parse A) (f : A × Bytes → Parse B)
      → Ends m r
      → ((a : A) (rest : Bytes) → length rest ≤ m → Ends n (f (a, rest)))
      → Ends n (r >>= f)
  Ends-bind m n (ok (a, rest)) f h k = k a rest h
  Ends-bind m n (err e) f h k = h

module _ {A : Type 0} where
  Ends-mono : (m n : ℕ) (r : Parse A) → m ≤ n → Ends m r → Ends n r
  Ends-mono m n (ok (a, rest)) le h = omega arith
  Ends-mono m n (err e) le h = h

  Ends-if :
      (n : ℕ) (b : Bool) (r s : Parse A)
      → (b ≡ true → Ends n r)
      → (b ≡ false → Ends n s)
      → Ends n (if b then r else s)
  Ends-if n true r s h k = h refl
  Ends-if n false r s h k = k refl

head_code : Text → ℕ
head_code [] = 0
head_code (c ∷ s) = c

ne_stuck : (s : Text) → head_code s ≢ b'o' → s ≢ stuck
unfolding head_code
ne_stuck s h e = h (ap head_code e)

length-skip_ws : (s : Bytes) → length (skip_ws s) ≤ length s
unfolding skip_ws
length-skip_ws [] = omega arith
length-skip_ws (b ∷ s) = ground (arith, length-skip_ws s)

length-drop-le : (n : ℕ) (s : Bytes) → length (drop n s) ≤ length s
length-drop-le zero s = omega arith
length-drop-le (suc n) [] = omega arith
length-drop-le (suc n) (b ∷ s) = omega (arith, length-drop-le n s)

take_char-Ends : (c : ℕ) (s : Bytes) (n : ℕ) → length s ≤ suc n → Ends n (take_char c s)
unfolding head_code
take_char-Ends c [] n h = ne_stuck _ (omega arith)
take_char-Ends c (b ∷ s) n h =
    Ends-if n (eqb b c) _ _ (λ e. omega arith) (λ e. ne_stuck _ (omega arith))

expect-Ends : (c : ℕ) (s : Bytes) (n : ℕ) → length s ≤ suc n → Ends n (expect c s)
unfolding expect
expect-Ends c s n h = take_char-Ends c (skip_ws s) n (omega (arith, length-skip_ws s))

module _ {B : Type 0} (n : ℕ) (e : Text) (other : head_code e ≢ b'o') where
  Ends-reject_if : (b : Bool) (k : Parse B) → Ends n k → Ends n (reject_if b e >> k)
  Ends-reject_if true k h = ne_stuck e other
  Ends-reject_if false k h = h

  Ends-ok_or :
      {A : Type 0} (o : Option A) (f : A → Parse B)
      → ((a : A) → Ends n (f a))
      → Ends n (ok_or o e >>= f)
  Ends-ok_or none f h = ne_stuck e other
  Ends-ok_or (some a) f h = h a

unicode_escape-Ends : (s : Bytes) → Ends (length s) (unicode_escape s)
unfolding unicode_escape head_code
unicode_escape-Ends s =
    let n = length s in
    Ends-reject_if n _ (omega arith) (ltb (length s) 4) _ (
      Ends-reject_if n _ (omega arith) (not (is_utf8 (take 4 s))) _ (
        Ends-ok_or n _ (omega arith) (from_str_radix (take 4 s)) _
          (λ cp. Ends-ok_or n _ (omega arith) (from_u32 cp) _ (λ c. length-drop-le 4 s))))

simple-Ends :
    (o : Option ℕ) (s : Bytes)
    → Ends (length s) (elim o [ none ↦ err (codes "bad escape") | some c ↦ ok (c, s) ])
unfolding head_code
simple-Ends none s = ne_stuck _ (omega arith)
simple-Ends (some c) s = omega arith

escape-Ends : (s : Bytes) → Ends (length s) (escape s)
unfolding escape head_code
escape-Ends [] = ne_stuck _ (omega arith)
escape-Ends (c ∷ s) = Ends-mono (length s) (suc (length s)) _ (omega arith) (
    Ends-if (length s) (eqb c b'u') _ _ (λ _. unicode_escape-Ends s)
      (λ _. simple-Ends (simple_escape c) s))

string_loop-Ends :
    (f : ℕ) (s : Bytes) (out : Text) → length s < f → Ends (length s) (string_loop f s out)
unfolding string_loop head_code
string_loop-Ends zero s out h = elim h [ ]
string_loop-Ends (suc f) [] out h = ne_stuck _ (omega arith)
string_loop-Ends (suc f) (b ∷ s) out h =
    let n = suc (length s) in
    Ends-if n (eqb b b'"') _ _ (λ _. omega arith)
      (λ _.
        Ends-if n (eqb b b'\\') _ _
          (λ _. Ends-bind (length s) n (escape s) _ (escape-Ends s) (λ c rest l.
            Ends-mono (length rest) n _ (omega arith)
              (string_loop-Ends f rest (out ++ c ∷ []) (omega arith))))
          (λ _.
            Ends-mono (length s) n _ (omega arith)
              (string_loop-Ends f s (out ++ b ∷ []) (omega arith))))

-- From here on, a part that reads something leaves less than it was given, if it was given any.
parse_string-Ends : (f : ℕ) (s : Bytes) → length s < f → Ends (length s - 1) (parse_string f s)
unfolding parse_string
parse_string-Ends f s h =
    let n = length s - 1 in
    Ends-bind n n (expect b'"' s) _ (expect-Ends b'"' s n (omega arith))
      (λ _ rest l. Ends-mono (length rest) n _ l (string_loop-Ends f rest [] (omega arith)))

array_next-Ends :
    (again : Bytes → List Text → Parse (List Text)) (s : Bytes) (out : List Text) (n : ℕ)
    → length s ≤ n
    → ((r : Bytes) → length r < length s → Ends n (again r out))
    → Ends n (array_next again s out)
unfolding head_code
array_next-Ends again [] out n l h = ne_stuck _ (omega arith)
array_next-Ends again (b ∷ s) out n l h =
    Ends-if n (eqb b b',') _ _ (λ _. h s (omega arith))
      (λ _. Ends-if n (eqb b b']') _ _ (λ _. omega arith) (λ _. ne_stuck _ (omega arith)))

array_loop-Ends :
    (f : ℕ) (s : Bytes) (out : List Text) → length s < f → Ends (length s) (array_loop f s out)
unfolding array_loop
array_loop-Ends zero s out h = elim h [ ]
array_loop-Ends (suc f) s out h =
    let n = length s in
    let m = length (skip_ws s) - 1 in
    Ends-bind m n (parse_string (suc f) (skip_ws s)) _
      (parse_string-Ends (suc f) (skip_ws s) (omega (arith, length-skip_ws s)))
      (λ x rest l.
        array_next-Ends (array_loop f) (skip_ws rest) (out ++ x ∷ []) n
          (omega (arith, length-skip_ws rest, length-skip_ws s))
          (λ r lr. Ends-mono (length r) n _ (omega (arith, length-skip_ws rest, length-skip_ws s)) (
            array_loop-Ends f r (out ++ x ∷ [])
              (omega (arith, length-skip_ws rest, length-skip_ws s)))))

parse_string_array-Ends :
    (f : ℕ) (s : Bytes) → length s < f → Ends (length s) (parse_string_array f s)
unfolding parse_string_array
parse_string_array-Ends f s h =
    let n = length s in
    Ends-bind n n (expect b'[' s) _ (expect-Ends b'[' s n (omega arith)) (λ _ rest l.
      Ends-if n (peek_is b']' (skip_ws rest)) _ _
        (λ _. omega (arith, length-drop-le 1 (skip_ws rest), length-skip_ws rest))
        (λ _.
          Ends-mono (length (skip_ws rest)) n _ (omega (arith, length-skip_ws rest))
            (array_loop-Ends f (skip_ws rest) [] (omega (arith, length-skip_ws rest)))))

only-ne-stuck : codes "only string and string-array values are supported" ≢ stuck
unfolding head_code
only-ne-stuck e = omega (arith, ap (λ (s : Text). head_code (drop 1 s)) e)

parse_value-Ends : (f : ℕ) (s : Bytes) → length s < f → Ends (length s) (parse_value f s)
unfolding parse_value head_code
parse_value-Ends f s h =
    let n = length s in
    let here = skip_ws s in
    let le = length-skip_ws s in
    let drop_here : length (drop 4 here) ≤ n = omega (arith, length-drop-le 4 here, le) in
    Ends-if n (peek_is b'"' here) _ _
      (λ _.
        Ends-bind n n (parse_string f here) _
          (Ends-mono (length here - 1) n _ (omega (arith, le))
            (parse_string-Ends f here (omega (arith, le))))
          (λ _ rest l. l))
      (λ _.
        Ends-if n (peek_is b'[' here) _ _
          (λ _.
            Ends-bind n n (parse_string_array f here) _
              (Ends-mono (length here) n _ le (parse_string_array-Ends f here (omega (arith, le))))
              (λ _ rest l. l))
          (λ _.
            Ends-if n (peek_is b'n' here) _ _
              (λ _.
                Ends-if n (take 4 here == codes "null") _ _ (λ _. drop_here)
                  (λ _. ne_stuck _ (omega arith)))
              (λ _. only-ne-stuck)))

object_next-Ends :
    (again : Bytes → List (Text × Value) → Parse Obj) (s : Bytes) (out : List (Text × Value))
    (n : ℕ)
    → length s ≤ n
    → ((r : Bytes) → length r < length s → Ends n (again r out))
    → Ends n (object_next again s out)
unfolding head_code
object_next-Ends again [] out n l h = ne_stuck _ (omega arith)
object_next-Ends again (b ∷ s) out n l h =
    Ends-if n (eqb b b',') _ _ (λ _. h s (omega arith))
      (λ _. Ends-if n (eqb b b'}') _ _ (λ _. omega arith) (λ _. ne_stuck _ (omega arith)))

object_loop-Ends :
    (f : ℕ) (s : Bytes) (out : List (Text × Value))
    → length s < f
    → Ends (length s) (object_loop f s out)
unfolding object_loop
object_loop-Ends zero s out h = elim h [ ]
object_loop-Ends (suc f) s out h =
    let n = length s in
    let m = length (skip_ws s) - 1 in
    let le = length-skip_ws s in
    Ends-bind m n (parse_string (suc f) (skip_ws s)) _
      (parse_string-Ends (suc f) (skip_ws s) (omega (arith, le)))
      (λ key s1 l1.
        Ends-bind m n (expect b':' s1) _ (expect-Ends b':' s1 m (omega arith)) (λ _ s2 l2.
          Ends-bind m n (parse_value (suc f) s2) _
            (Ends-mono (length s2) m _ l2 (parse_value-Ends (suc f) s2 (omega (arith, le))))
            (λ val s3 l3.
              object_next-Ends (object_loop f) (skip_ws s3) (out ++ (key, val) ∷ []) n
                (omega (arith, length-skip_ws s3, le))
                (λ r lr. Ends-mono (length r) n _ (omega (arith, length-skip_ws s3, le)) (
                  object_loop-Ends f r (out ++ (key, val) ∷ [])
                    (omega (arith, length-skip_ws s3, le)))))))

parse_object-Ends : (f : ℕ) (s : Bytes) → length s < f → Ends (length s) (parse_object f s)
unfolding parse_object
parse_object-Ends f s h =
    let n = length s in
    Ends-bind n n (expect b'{' s) _ (expect-Ends b'{' s n (omega arith)) (λ _ rest l.
      Ends-if n (peek_is b'}' (skip_ws rest)) _ _
        (λ _. omega (arith, length-drop-le 1 (skip_ws rest), length-skip_ws rest))
        (λ _.
          Ends-mono (length (skip_ws rest)) n _ (omega (arith, length-skip_ws rest))
            (object_loop-Ends f (skip_ws rest) [] (omega (arith, length-skip_ws rest)))))

finished :
    (b : Bool) (obj : Obj)
    → (reject_if b (codes "trailing content after JSON object") >> ok obj) ≡ err stuck
    → ⊥
unfolding head_code
finished true obj q =
    ne_stuck (codes "trailing content after JSON object") (omega arith) (ground arith)
finished false obj q = cc

finish_ne_stuck :
    (n : ℕ) (r : Parse Obj)
    → Ends n r
    → (do
      (obj, rest) ← r
      reject_if (not (is_empty (skip_ws rest))) (codes "trailing content after JSON object")
      ok obj)
      ≢ err stuck
unfolding head_code
finish_ne_stuck n (err e) h q = h (ground arith)
finish_ne_stuck n (ok (obj, rest)) h q = finished (not (is_empty (skip_ws rest))) obj q

-- The parser answers every input with an object or with an error of its own: the fuel that it
-- gives itself never runs out.
pub parse_ends : (src : Bytes) → parse src ≢ err stuck
unfolding parse
parse_ends src =
    finish_ne_stuck (length (skip_ws src)) (parse_object (suc (length src)) (skip_ws src))
      (parse_object-Ends (suc (length src)) (skip_ws src) (omega (arith, length-skip_ws src)))
