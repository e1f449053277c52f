-- ===== src/Transparent/Connect/Reading.antt =====
-- The bytes that proxy/transparent/connect.rs takes from the stream: up to the end of the block.
use mathlib.Core.List.{reverse_aux, reverse, reverse_aux-eq, reverse_aux-append}
use mathlib.Core.Path.{subst}
use vaultproxy.Prelude.{
  ok-injective, ℕ, suc, ◌+◌, ◌*◌, ◌≤◌, ◌≡◌, refl, sym, ap, ◌∙◌, true, false, List, [], ◌∷◌, ◌++◌,
  arith, ltb, Text, codes, &&-eq-true, length, length-append, all, Result, ok, err, ◌>>=◌,
  >>=-eq-ok, Bool-cases, inl, inr,
}
use vaultproxy.Text.{starts_with}
use vaultproxy.Text.Search.{differs}
use vaultproxy.Transparent.Connect.{
  ConnectTarget, is_complete, read_block, read_connect_line, parse_head,
}

module _ (len byte : ℕ) (buf stream : Text) where
  -- A byte that does not complete the block is kept.
  read_byte :
      suc len ≤ 40960
      → is_complete (byte ∷ buf) ≡ false
      → read_block len buf (byte ∷ stream) ≡ read_block (suc len) (byte ∷ buf) stream
  unfolding read_block
  read_byte h k = rw (k, short (suc len) h) refl
    where
      short : (n : ℕ) → n ≤ 40960 → ltb (40 * 1024) n ≡ false
      short n h = ground arith

  read_last :
      suc len ≤ 40960
      → is_complete (byte ∷ buf) ≡ true
      → read_block len buf (byte ∷ stream) ≡ ok (byte ∷ buf, stream)
  unfolding read_block
  read_last h k = rw (k, short (suc len) h) refl
    where
      short : (n : ℕ) → n ≤ 40960 → ltb (40 * 1024) n ≡ false
      short n h = ground arith

  read_long :
      ltb (40 * 1024) (suc len) ≡ true
      → read_block len buf (byte ∷ stream) ≡ err (codes "CONNECT request exceeds 40 KiB")
  unfolding read_block
  read_long h = rw h refl

-- What is read and what is left make the stream; what is read ends the block and is not too long.
read_block_lem :
    (len : ℕ) (buf stream out left : Text)
    → len ≡ length buf
    → read_block len buf stream ≡ ok (out, left)
    → (reverse_aux out left ≡ reverse_aux buf stream)
      × (is_complete out ≡ true)
      × (length out ≤ 40960)
read_block_lem len buf [] out left l h = unfold read_block in cc
read_block_lem len buf (byte ∷ stream) out left l h =
    elim (Bool-cases (ltb (40 * 1024) (suc len))) [
      | inl long ↦ absurd (err_ok (sym (read_long len byte buf stream long) ∙ h))
      | inr short ↦ elim (Bool-cases (is_complete (byte ∷ buf))) [
        | inl done ↦
            let here = ok-injective (sym (read_last len byte buf stream (ground arith) done) ∙ h) in
            subst
              (λ (p : Text × Text).
                (reverse_aux p.0 p.1 ≡ reverse_aux buf (byte ∷ stream))
                × (is_complete p.0 ≡ true)
                × (length p.0 ≤ 40960))
              here (refl, done, ground arith)
        | inr more ↦
            read_block_lem (suc len) (byte ∷ buf) stream out left (omega (arith, l))
              (sym (read_byte len byte buf stream (ground arith) more) ∙ h)
      ]
    ]
  where
    err_ok : {e : Text} {p : Text × Text} → ◌≡◌ {A = Result Text (Text × Text)} (err e) (ok p) → ⊥
    err_ok h = cc

not_complete : (c : ℕ) (buf : Text) → differs 0x0a c ≡ true → is_complete (c ∷ buf) ≡ false
unfolding differs starts_with
not_complete c buf h = ground arith

not_complete_third :
    (a b c : ℕ) (buf : Text) → differs 0x0a c ≡ true → is_complete (a ∷ b ∷ c ∷ buf) ≡ false
unfolding differs starts_with
not_complete_third a b c buf h = ground arith

plus_zero : (n : ℕ) → n + 0 ≡ n
plus_zero n = omega arith

read_line :
    (len : ℕ) (buf l rest : Text)
    → all (differs 0x0a) l ≡ true
    → len + length l ≤ 40960
    → read_block len buf (l ++ rest) ≡ read_block (len + length l) (reverse_aux l buf) rest
read_line len buf [] rest d h = rw (plus_zero len) refl
read_line len buf (c ∷ l) rest d h =
    let (first, others) = &&-eq-true (differs 0x0a c) (all (differs 0x0a) l) d in
    read_byte len c buf (l ++ rest) (omega (arith, h)) (not_complete c buf first)
    ∙ read_line (suc len) (c ∷ buf) l rest others (omega (arith, h))
    ∙ ap (λ n. read_block n (reverse_aux l (c ∷ buf)) rest) (omega arith)

-- The last byte of a line that is not empty ends no line.
last_of_line :
    (c : ℕ) (l buf : Text)
    → all (differs 0x0a) (c ∷ l) ≡ true
    → (d : ℕ) × (t : Text) × (reverse_aux (c ∷ l) buf ≡ d ∷ t) × (differs 0x0a d ≡ true)
last_of_line c [] buf h = (c, buf, refl, ground arith)
last_of_line c (e ∷ l) buf h =
    last_of_line e l (c ∷ buf) (&&-eq-true (differs 0x0a c) (all (differs 0x0a) (e ∷ l)) h).1

-- Lines, each with its line end, an empty one, and what follows the block.
abbrev pub block : List Text → Text → Text
block [] rest = 0x0d ∷ 0x0a ∷ rest
block (l ∷ ls) rest = l ++ 0x0d ∷ 0x0a ∷ block ls rest

-- Lines of a head are not empty and hold no line feed.
abbrev pub IsLine : Text → Type 0
IsLine [] = ⊥
IsLine (c ∷ l) = all (differs 0x0a) (c ∷ l) ≡ true

abbrev pub AllLines : List Text → Type 0
AllLines [] = Unit
AllLines (l ∷ ls) = IsLine l × AllLines ls

read_line_end :
    (len : ℕ) (buf l rest : Text)
    → IsLine l
    → len + length l + 2 ≤ 40960
    → read_block len buf (l ++ 0x0d ∷ 0x0a ∷ rest)
      ≡ read_block (len + length l + 2) (0x0a ∷ 0x0d ∷ reverse_aux l buf) rest
read_line_end len buf [] rest n h = absurd n
read_line_end len buf (c ∷ l) rest n h =
    let (d, t, e, other) = last_of_line c l buf n in
    let at = len + length (c ∷ l) in
    read_line len buf (c ∷ l) (0x0d ∷ 0x0a ∷ rest) n (omega (arith, h))
    ∙ read_byte at 0x0d (reverse_aux (c ∷ l) buf) (0x0a ∷ rest) (omega (arith, h))
        (not_complete 0x0d (reverse_aux (c ∷ l) buf) (unfold differs in refl))
    ∙ read_byte (suc at) 0x0a (0x0d ∷ reverse_aux (c ∷ l) buf) rest (omega (arith, h))
        (ap (λ r. is_complete (0x0a ∷ 0x0d ∷ r)) e ∙ not_complete_third 0x0a 0x0d d t other)
    ∙ ap (λ n. read_block n (0x0a ∷ 0x0d ∷ reverse_aux (c ∷ l) buf) rest) (omega arith)

read_lines :
    (len : ℕ) (buf : Text) (ls : List Text) (rest : Text)
    → AllLines ls
    → len + length (block ls []) ≤ 40960
    → read_block len (0x0a ∷ 0x0d ∷ buf) (block ls rest)
      ≡ ok (reverse_aux (block ls []) (0x0a ∷ 0x0d ∷ buf), rest)
unfolding starts_with
read_lines len buf [] rest a h =
    read_byte len 0x0d (0x0a ∷ 0x0d ∷ buf) (0x0a ∷ rest) (omega (arith, h)) refl
    ∙ read_last (suc len) 0x0a (0x0d ∷ 0x0a ∷ 0x0d ∷ buf) rest (omega (arith, h)) refl
read_lines len buf (l ∷ ls) rest (n, a) h =
    let split = length-append l (0x0d ∷ 0x0a ∷ block ls []) in
    read_line_end len (0x0a ∷ 0x0d ∷ buf) l (block ls rest) n (omega (arith, h, split))
    ∙ read_lines (len + length l + 2) (reverse_aux l (0x0a ∷ 0x0d ∷ buf)) ls rest a
        (omega (arith, h, split))
    ∙ ap (λ t. ok (t, rest))
        (sym (reverse_aux-append l (0x0d ∷ 0x0a ∷ block ls []) (0x0a ∷ 0x0d ∷ buf)))

-- A block of lines is read to its end, and nothing of what follows it.
pub read_block-block :
    (l : Text) (ls : List Text) (rest : Text)
    → AllLines (l ∷ ls)
    → length (block (l ∷ ls) []) ≤ 40960
    → read_block 0 [] (block (l ∷ ls) rest) ≡ ok (reverse (block (l ∷ ls) []), rest)
read_block-block l ls rest (n, a) h =
    let split = length-append l (0x0d ∷ 0x0a ∷ block ls []) in
    read_line_end 0 [] l (block ls rest) n (omega (arith, h, split))
    ∙ read_lines (0 + length l + 2) (reverse_aux l []) ls rest a (omega (arith, h, split))
    ∙ ap (λ t. ok (t, rest)) (sym (reverse_aux-append l (0x0d ∷ 0x0a ∷ block ls []) []))

-- When a target is read, what was taken from the stream is a block: the stream is the block and what
-- is left, the block ends in an empty line, and it has at most 40 KiB.
pub read_connect_line_block :
    (stream left : Text) (t : ConnectTarget)
    → read_connect_line stream ≡ ok (t, left)
    → (buf : Text) × (reverse buf ++ left ≡ stream)
      × (is_complete buf ≡ true)
      × (length buf ≤ 40960)
      × (parse_head (reverse buf) ≡ ok t)
unfolding read_connect_line
read_connect_line_block stream left t h =
    let ((buf, after), read, parsed) =
      >>=-eq-ok (read_block 0 [] stream)
        (λ p. parse_head (reverse p.0) >>= λ target. ok (target, p.1)) h in
    let (target, head, same) = >>=-eq-ok (parse_head (reverse buf)) (λ x. ok (x, after)) parsed in
    let pair = ok-injective same in
    let (made, done, small) = read_block_lem 0 [] stream buf after refl read in
    (
      buf,
      ap (λ z. reverse buf ++ z) (sym (ap (λ p. p.1) pair)) ∙ sym (reverse_aux-eq buf after) ∙ made,
      done,
      small,
      head ∙ ap (λ p. ok p.0) pair,
    )
