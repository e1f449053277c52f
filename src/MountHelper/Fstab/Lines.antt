-- ===== src/MountHelper/Fstab/Lines.antt =====
-- Lines and the text that is made of them: a rewrite of the file keeps its lines.
use mathlib.Core.List.{append_assoc}
use vaultproxy.Prelude.{
  ℕ, Bool, true, false, not, ◌&&◌, ◌≡◌, refl, ap, ◌∙◌, List, [], ◌∷◌, ◌++◌, arith, eqb, text_eq,
  Text, all, &&-eq-true,
}
use vaultproxy.Text.{lines, push_front}
use vaultproxy.MountHelper.Fstab.{kept, next_in_block, unlines}

-- Neither a line feed nor a carriage return.
unfoldable pub in_line : ℕ → Bool
in_line c = not (eqb c 0x0a) && not (eqb c 0x0d)

unfoldable pub no_cr : ℕ → Bool
no_cr c = not (eqb c 0x0d)

lines-line : (l r : Text) → all in_line l ≡ true → lines (l ++ 0x0a ∷ r) ≡ l ∷ lines r
unfolding lines in_line
lines-line [] r h = refl
lines-line (c ∷ l) r h = rw (lines-line l r (ground arith)) (ground arith)

pub lines-unlines : (ls : List Text) → all (all in_line) ls ≡ true → lines (unlines ls) ≡ ls
unfolding unlines lines
lines-unlines [] h = refl
lines-unlines (l ∷ ls) h =
    let (first, others) = &&-eq-true (all in_line l) (all (all in_line) ls) h in
    lines-line l (unlines ls) first ∙ ap (λ r. l ∷ r) (lines-unlines ls others)

pub unlines-append : (xs ys : List Text) → unlines (xs ++ ys) ≡ unlines xs ++ unlines ys
unfolding unlines
unlines-append [] ys = refl
unlines-append (x ∷ xs) ys = rw (unlines-append xs ys, append_assoc)

push_front-in_line :
    (c : ℕ) (ls : List Text)
    → in_line c ≡ true
    → all (all in_line) ls ≡ true
    → all (all in_line) (push_front c ls) ≡ true
push_front-in_line c [] h g = rw h
push_front-in_line c (l ∷ ls) h g = ground arith

in_line_lem : (c : ℕ) → in_line c ≡ (not (eqb c 0x0a) && not (eqb c 0x0d))
unfolding in_line
in_line_lem c = refl

-- The lines of a text without carriage returns hold neither kind of line end.
pub lines-in_line : (s : Text) → all no_cr s ≡ true → all (all in_line) (lines s) ≡ true
unfolding lines no_cr
lines-in_line [] h = refl
lines-in_line (c ∷ s) h =
    ground (arith, lines-in_line s, push_front-in_line c (lines s), in_line_lem c)

module _ (begin end : Text) where
  pub kept-in_line :
      (b : Bool) (ls : List Text)
      → all (all in_line) ls ≡ true
      → all (all in_line) (kept begin end b ls).0 ≡ true
  unfolding kept
  kept-in_line b [] h = refl
  kept-in_line b (l ∷ ls) h = ground (arith, kept-in_line (next_in_block begin end b l) ls)

  -- The lines that are kept hold no begin marker, so that a second pass keeps them all.
  pub kept-append_kept :
      (b : Bool) (ls r : List Text)
      → kept begin end false ((kept begin end b ls).0 ++ r)
        ≡ ((kept begin end b ls).0 ++ (kept begin end false r).0, (kept begin end false r).1)
  unfolding kept next_in_block
  kept-append_kept b [] r = refl
  kept-append_kept b (l ∷ ls) r =
      ground (arith, kept-append_kept (next_in_block begin end b l) ls r)
