-- ===== src/Policy.antt =====
-- policy.rs: the rotation policies and their file. JSON and the write of the file are parameters.
pub mod Deletion
mod Examples
use vaultproxy.Prelude.{
  ℕ, Bool, true, false, not, Option, none, some, List, [], ◌∷◌, eqb, HasEq, ◌==◌, text_eq, Text,
  retain, Result, ok, err,
}

pub record PolicyTarget : Type 0 where
  pub target_type : Text
  pub value : Option Text

pub record Policy : Type 0 where
  pub id : Text
  pub name : Text
  pub target : PolicyTarget
  pub interval_days : ℕ
  pub strategy : Text
  pub enabled : Bool
  pub last_run : Option Text
  pub last_result : Option Text

-- What reading the file comes to.
pub data PolicyFile : Type 0 where
  not_found : PolicyFile
  unreadable : PolicyFile
  raw : Text → PolicyFile

-- `p.interval_days == 0` is rejected.
abbrev pub is_scheduled : Policy → Bool
is_scheduled p = not (eqb p.interval_days 0)

abbrev pub parsed : Option (List Policy) → List Policy
parsed none = []
parsed (some policies) = retain is_scheduled policies

module _ (from_json : Text → Option (List Policy)) (to_json : List Policy → Text) where
  unfoldable pub load_policies : PolicyFile → List Policy
  load_policies not_found = []
  load_policies unreadable = []
  load_policies (raw text) = parsed (from_json text)

  -- The file after the write, which fails or not.
  abbrev pub replaced_by : PolicyFile → Text → Bool → PolicyFile × Result Text Unit
  replaced_by file body true = (raw body, ok tt)
  replaced_by file body false = (file, err [])

  unfoldable pub save_policies : PolicyFile → List Policy → Bool → PolicyFile × Result Text Unit
  save_policies file policies writable = replaced_by file (to_json policies) writable

  unfoldable pub delete_policy : PolicyFile → Text → Bool → PolicyFile × Result Text Unit
  delete_policy file id writable =
      save_policies file (retain (λ p. not (p.id == id)) (load_policies file)) writable
