-- ===== src/MountHelper/Effects/Atomic.antt =====
-- The file system table of bin/mount_helper.rs is replaced as a whole: whichever call fails, it holds
-- what it held or what it was to hold.
use vaultproxy.Prelude.{
  ℕ, ◌≡◌, ◌≢◌, ◌⊎◌, inl, inr, refl, sym, ap, ◌∙◌, Option, none, some, List, [], ◌∷◌, ◌++◌,
  if◌then◌else◌, ◌==◌, ==_refl, text_eq, Text, codes, take, Result, ok, err, Bool-cases,
}
use vaultproxy.HashMap.{HashMap, get, remove}
use vaultproxy.HashMap.Laws.{get-insert_distinct, get-remove, get-insert, get-insert_same}
use vaultproxy.MountHelper.Fstab.{rewrite_fstab}
use vaultproxy.MountHelper.Effects.{
  File, World, Effect, resume, ◌>>◌, outcome, system_call, set_file, open_file, opened, written,
  with_mode, write_all, sync_all, set_mode, move, rename, ignored, atomic_tmp, prepare,
  atomic_write, has_file_name, content_of, write_result, write_fstab_block, unchanged,
}

pub get-remove_distinct :
    (k j : Text) (m : HashMap Text File) → k ≢ j → get j (remove k m) ≡ get j m
get-remove_distinct k j m n = elim (Bool-cases (k == j)) [
  | inl same ↦ absurd (n ((text_eq.same_iff k j).0 same))
  | inr other ↦ get-remove k j m ∙ ap (λ b. if b then none else get j m) other
]

module _ (path : Text) where
  -- The effect leaves the file at the path as it is.
  abbrev pub Keeps : {A : Type 0} → Effect A → Type 0
  Keeps m = (w : World) → get path (m w).0.files ≡ get path w.files

  pub resume-Keeps :
      {A B : Type 0} (f : A → Effect B) (r : World × Result Text A)
      → ((a : A) → Keeps (f a))
      → get path (resume f r).0.files ≡ get path r.0.files
  resume-Keeps f (w, ok a) h = h a w
  resume-Keeps f (w, err e) h = refl

  pub then-Keeps : (m k : Effect Unit) → Keeps m → Keeps k → Keeps (m >> k)
  then-Keeps m k h g w = resume-Keeps (λ _. k) (m w) (λ _. g) ∙ h w

  outcome-Keeps :
      (message : Text) (done : World → World) (failed : ℕ → World → World) (os : List (Option ℕ))
      → ((w : World) → get path (done w).files ≡ get path w.files)
      → ((n : ℕ) (w : World) → get path (failed n w).files ≡ get path w.files)
      → Keeps (outcome message done failed os)
  outcome-Keeps message done failed [] d f w = d w
  outcome-Keeps message done failed (none ∷ os) d f w = d (record w { outcomes = os })
  outcome-Keeps message done failed (some n ∷ os) d f w = f n (record w { outcomes = os })

  pub system_call-Keeps :
      (message : Text) (done : World → World) (failed : ℕ → World → World)
      → ((w : World) → get path (done w).files ≡ get path w.files)
      → ((n : ℕ) (w : World) → get path (failed n w).files ≡ get path w.files)
      → Keeps (system_call message done failed)
  unfolding system_call
  system_call-Keeps message done failed d f w = outcome-Keeps message done failed w.outcomes d f w

  pub sync_all-Keeps : (message : Text) → Keeps (sync_all message)
  unfolding sync_all
  sync_all-Keeps message = system_call-Keeps message unchanged (λ n w. w) (λ w. refl) (λ n w. refl)

  pub set_file-other :
      (other : Text) (file : File) (w : World)
      → other ≢ path
      → get path (set_file other file w).files ≡ get path w.files
  set_file-other other file w n = get-insert_distinct other path file w.files n

  prepare-Keeps : (tmp body : Text) (mode : ℕ) → tmp ≢ path → Keeps (prepare tmp body mode)
  unfolding prepare open_file write_all set_mode
  prepare-Keeps tmp body mode n =
      let a =
        system_call-Keeps (codes "open tmp: ") (λ w. set_file tmp (opened mode (get tmp w.files)) w)
          (λ k w. w) (λ w. set_file-other tmp (opened mode (get tmp w.files)) w n) (λ k w. refl) in
      let b =
        system_call-Keeps (codes "write tmp: ")
          (λ w. set_file tmp (written body (get tmp w.files)) w)
          (λ k w. set_file tmp (written (take k body) (get tmp w.files)) w)
          (λ w. set_file-other tmp (written body (get tmp w.files)) w n)
          (λ k w. set_file-other tmp (written (take k body) (get tmp w.files)) w n) in
      let d =
        system_call-Keeps (codes "chmod tmp: ")
          (λ w. set_file tmp (with_mode mode (get tmp w.files)) w) (λ k w. w)
          (λ w. set_file-other tmp (with_mode mode (get tmp w.files)) w n) (λ k w. refl) in
      let e1 = open_file (codes "open tmp: ") tmp mode in
      let e2 = write_all (codes "write tmp: ") tmp body in
      let e3 = sync_all (codes "fsync tmp: ") in
      let e4 = set_mode (codes "chmod tmp: ") tmp mode in
      then-Keeps (e1 >> e2 >> e3) e4
        (then-Keeps (e1 >> e2) e3 (then-Keeps e1 e2 a b) (sync_all-Keeps (codes "fsync tmp: "))) d

  pub ignored-Keeps : (m : Effect Unit) → Keeps m → Keeps (ignored m)
  ignored-Keeps m k w = k w

  -- A call that succeeds has changed a world with the same files.
  outcome-ok :
      (message : Text) (done : World → World) (failed : ℕ → World → World) (os : List (Option ℕ))
      (w : World)
      → (outcome message done failed os w).1 ≡ ok tt
      → (v : World) × (v.files ≡ w.files) × ((outcome message done failed os w).0 ≡ done v)
  outcome-ok message done failed [] w h = (w, refl, refl)
  outcome-ok message done failed (none ∷ os) w h = (record w { outcomes = os }, refl, refl)
  outcome-ok message done failed (some n ∷ os) w h = cc

resume-ok :
    (k : Effect Unit) (r : World × Result Text Unit)
    → (resume (λ _. k) r).1 ≡ ok tt
    → (r.1 ≡ ok tt) × (resume (λ _. k) r ≡ k r.0)
resume-ok k (w, ok a) h = (refl, refl)
resume-ok k (w, err e) h = cc

then-ok :
    (m k : Effect Unit) (w : World)
    → ((m >> k) w).1 ≡ ok tt
    → ((m w).1 ≡ ok tt) × ((m >> k) w ≡ k (m w).0)
then-ok m k w h = resume-ok k (m w) h

module _ (tmp body : Text) (mode : ℕ) where
  -- The temporary file after each call that succeeds.
  write_all-body :
      (message : Text) (w : World)
      → (write_all message tmp body w).1 ≡ ok tt
      → content_of (get tmp (write_all message tmp body w).0.files) ≡ body
  unfolding write_all system_call
  write_all-body message w h =
      let (v, same, after) =
        outcome-ok tmp message (λ w. set_file tmp (written body (get tmp w.files)) w)
          (λ k w. set_file tmp (written (take k body) (get tmp w.files)) w) w.outcomes w h in
      ap (λ u. content_of (get tmp u.files)) after
      ∙ ap content_of (get-insert tmp tmp (written body (get tmp v.files)) v.files)
      ∙ ap (λ b. content_of (if b then some (written body (get tmp v.files)) else get tmp v.files))
          (==_refl tmp)
      ∙ written-body (get tmp v.files)
    where
      written-body : (o : Option File) → (written body o).content ≡ body
      written-body none = refl
      written-body (some file) = refl

  set_mode-file :
      (message : Text) (w : World)
      → content_of (get tmp w.files) ≡ body
      → (set_mode message tmp mode w).1 ≡ ok tt
      → get tmp (set_mode message tmp mode w).0.files
        ≡ some (record { content = body; mode = mode })
  unfolding set_mode system_call
  set_mode-file message w c h =
      let (v, same, after) =
        outcome-ok tmp message (λ w. set_file tmp (with_mode mode (get tmp w.files)) w) (λ k w. w)
          w.outcomes w h in
      ap (λ u. get tmp u.files) after
      ∙ get-insert tmp tmp (with_mode mode (get tmp v.files)) v.files
      ∙ ap (λ b. if b then some (with_mode mode (get tmp v.files)) else get tmp v.files)
          (==_refl tmp)
      ∙ ap (λ x. some x)
          (with_mode-body (get tmp v.files) (ap (λ m. content_of (get tmp m)) same ∙ c))
    where
      with_mode-body :
          (o : Option File)
          → content_of o ≡ body
          → with_mode mode o ≡ record { content = body; mode = mode }
      with_mode-body none h = ap (λ b. record { content = b; mode = mode }) h
      with_mode-body (some file) h = ap (λ b. record { content = b; mode = mode }) h

  prepare-file :
      (w : World)
      → (prepare tmp body mode w).1 ≡ ok tt
      → get tmp (prepare tmp body mode w).0.files ≡ some (record { content = body; mode = mode })
  unfolding prepare
  prepare-file w h =
      let e1 = open_file (codes "open tmp: ") tmp mode in
      let e2 = write_all (codes "write tmp: ") tmp body in
      let e3 = sync_all (codes "fsync tmp: ") in
      let e4 = set_mode (codes "chmod tmp: ") tmp mode in
      let (synced, last) = then-ok (e1 >> e2 >> e3) e4 w h in
      let (wrote, third) = then-ok (e1 >> e2) e3 w synced in
      let (opens, second) = then-ok e1 e2 w wrote in
      let w1 = (e1 w).0 in
      let full = write_all-body (codes "write tmp: ") w1 (ap (λ r. r.1) (sym second) ∙ wrote) in
      let still =
        ap (λ r. content_of (get tmp r.0.files)) third
        ∙ ap content_of (sync_all-Keeps tmp (codes "fsync tmp: ") ((e1 >> e2) w).0)
        ∙ ap (λ r. content_of (get tmp r.0.files)) second
        ∙ full in
      ap (λ r. get tmp r.0.files) last
      ∙ set_mode-file (codes "chmod tmp: ") ((e1 >> e2 >> e3) w).0 still
          (ap (λ r. r.1) (sym last) ∙ h)

rename_cases :
    (message from to : Text) (w : World) (file : File)
    → get from w.files ≡ some file
    → (get to (rename message from to w).0.files ≡ get to w.files)
      ⊎ (get to (rename message from to w).0.files ≡ some file)
unfolding rename system_call
rename_cases message from to w file h = of_outcome w.outcomes
  where
    of_outcome :
        (os : List (Option ℕ))
        → let r = outcome message (λ v. move from to (get from v.files) v) (λ n v. v) os w in
          (get to r.0.files ≡ get to w.files) ⊎ (get to r.0.files ≡ some file)
    of_outcome [] = inr (rw h (get-insert_same to file (remove from w.files)))
    of_outcome (none ∷ os) = inr (rw h (get-insert_same to file (remove from w.files)))
    of_outcome (some n ∷ os) = inl refl

longer_distinct : (s t : Text) (c : ℕ) → s ++ c ∷ t ≢ s
longer_distinct [] t c h = cc
longer_distinct (d ∷ s) t c h = longer_distinct s t c (tail_of h)
  where
    tail_of : {x : ℕ} {a b : Text} → ◌≡◌ {A = Text} (x ∷ a) (x ∷ b) → a ≡ b
    tail_of h = cc

module _ (path body : Text) (mode : ℕ) where
  abbrev replaced : File
  replaced = record { content = body; mode = mode }

  abbrev Replaces : World → World × Result Text Unit → Type 0
  Replaces w r = (get path r.0.files ≡ get path w.files) ⊎ (get path r.0.files ≡ some replaced)

  finish-Replaces :
      (w v : World) (r : Result Text Unit)
      → prepare (atomic_tmp path) body mode w ≡ (v, r)
      → (get path v.files ≡ get path w.files)
      → (r ≡ ok tt → get (atomic_tmp path) v.files ≡ some replaced)
      → Replaces w (
          resume
            (λ _. ignored (sync_all []))
            (resume (λ _. rename (codes "rename tmp: ") (atomic_tmp path) path) (v, r)))
  finish-Replaces w v (err e) same kept full = inl kept
  finish-Replaces w v (ok u) same kept full =
      let moved = rename (codes "rename tmp: ") (atomic_tmp path) path v in
      let later =
        resume-Keeps path (λ _. ignored (sync_all [])) moved (λ _. sync_all-Keeps path []) in
      elim (rename_cases (codes "rename tmp: ") (atomic_tmp path) path v replaced (full refl)) [
        | inl not_moved ↦ inl (later ∙ not_moved ∙ kept)
        | inr is_moved ↦ inr (later ∙ is_moved)
      ]

  -- Whichever call fails, the file holds what it held before or the whole of the new content.
  pub atomic_write-Replaces : (w : World) → Replaces w (atomic_write path body mode w)
  unfolding atomic_write
  atomic_write-Replaces w = elim (Bool-cases (has_file_name path)) [
    | inr nameless ↦ rw nameless (inl refl)
    | inl named ↦ rw named (
        finish-Replaces w (prepare (atomic_tmp path) body mode w).0
          (prepare (atomic_tmp path) body mode w).1 refl
          (prepare-Keeps path (atomic_tmp path) body mode
            (longer_distinct path (codes "vaultproxy.tmp") b'.') w)
          (prepare-file (atomic_tmp path) body mode w))
  ]

module _ (w : World) (fstab slug : Text) (line : Option Text) where
  -- The table is as it was, or it is what `rewrite_fstab` makes of it.
  abbrev pub IsRewritten : World × Result Text Unit → Type 0
  IsRewritten r =
      (get fstab r.0.files ≡ get fstab w.files)
      ⊎ ((out : Text) × (rewrite_fstab (content_of (get fstab w.files)) slug line ≡ ok out)
          × (get fstab r.0.files ≡ some (record { content = out; mode = 0o644 })))

  write_result-IsRewritten :
      (v : World) (result : Result Text Text)
      → get fstab v.files ≡ get fstab w.files
      → rewrite_fstab (content_of (get fstab v.files)) slug line ≡ result
      → IsRewritten (write_result fstab result v)
  write_result-IsRewritten v (err e) kept h = inl kept
  write_result-IsRewritten v (ok out) kept h = elim (atomic_write-Replaces fstab out 0o644 v) [
    | inl same ↦ inl (same ∙ kept)
    | inr new ↦ inr (out, ap (λ o. rewrite_fstab (content_of o) slug line) (sym kept) ∙ h, new)
  ]

  read-IsRewritten :
      (r : World × Result Text Unit)
      → get fstab r.0.files ≡ get fstab w.files
      → IsRewritten (
          resume
            (λ _ v. write_result fstab (rewrite_fstab (content_of (get fstab v.files)) slug line) v)
            r)
  read-IsRewritten (v, err e) kept = inl kept
  read-IsRewritten (v, ok u) kept = write_result-IsRewritten v _ kept refl

  -- Whatever calls fail while the block is written, the table holds what it held, or, with mode 0644,
  -- the whole of what `rewrite_fstab` makes of it.
  pub write_fstab_block-IsRewritten : IsRewritten (write_fstab_block fstab slug line w)
  unfolding write_fstab_block
  write_fstab_block-IsRewritten =
      read-IsRewritten (sync_all (codes "read fstab: ") w)
        (sync_all-Keeps fstab (codes "read fstab: ") w)
