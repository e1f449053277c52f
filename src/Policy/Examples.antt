-- ===== src/Policy/Examples.antt =====
-- The theorems of policy.rs at concrete inputs, with an encoding in the place of JSON.
use vaultproxy.Prelude.{
  ℕ, ◌≡◌, refl, true, Option, none, some, List, [], ◌∷◌, if◌then◌else◌, eqb, text_eq, Text, codes,
  ok,
}
use vaultproxy.Policy.{Policy, raw, load_policies, save_policies, delete_policy}
use vaultproxy.Policy.Deletion.{load_policies-delete_policy, others}

abbrev policy : ℕ → Policy
policy id = record {
  id = id ∷ [];
  name = [];
  target = record { target_type = codes "all"; value = none };
  interval_days = 30;
  strategy = codes "api";
  enabled = true;
  last_run = none;
  last_result = none;
}

-- A policy is written as its one letter.
abbrev first_of : Text → ℕ
first_of [] = 0
first_of (c ∷ s) = c

abbrev encode : List Policy → Text
encode [] = []
encode (p ∷ ps) = first_of p.id ∷ encode ps

abbrev policies_of : Text → List Policy
policies_of [] = []
policies_of (c ∷ s) = policy c ∷ policies_of s

abbrev decode : Text → Option (List Policy)
decode [] = some []
decode (c ∷ s) = if eqb c 0 then none else some (policies_of (c ∷ s))

abbrev stored : Text
stored = 1 ∷ 2 ∷ 1 ∷ []

load_policies-delete_policy_example :
    load_policies decode encode (delete_policy decode encode (raw stored) (1 ∷ []) true).0
    ≡ others decode encode (raw stored) (1 ∷ [])
unfolding load_policies
load_policies-delete_policy_example =
    load_policies-delete_policy decode encode (raw stored) (1 ∷ []) refl

after_delete : others decode encode (raw stored) (1 ∷ []) ≡ policy 2 ∷ []
unfolding load_policies
after_delete = refl

-- A file that cannot be parsed is replaced by an empty list.
corrupt_run : delete_policy decode encode (raw (0 ∷ [])) (codes "b") true ≡ (raw (encode []), ok tt)
unfolding delete_policy save_policies load_policies
corrupt_run = refl
