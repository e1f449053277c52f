-- ===== src/Policy/Deletion.antt =====
-- What is left after a deletion in policy.rs.
use vaultproxy.Prelude.{
  ◌≡◌, refl, ap, ◌∙◌, Bool, true, not, Option, none, some, List, [], ◌∷◌, arith, ◌==◌, text_eq,
  Text, retain,
}
use vaultproxy.Policy.{
  Policy, PolicyFile, raw, not_found, unreadable, is_scheduled, parsed, load_policies,
  save_policies, delete_policy,
}

-- Tests that are passed stay passed when others filter.
retain-scheduled :
    (p q : Policy → Bool) (xs : List Policy)
    → retain p (retain q (retain p xs)) ≡ retain q (retain p xs)
retain-scheduled p q [] = refl
retain-scheduled p q (x ∷ xs) = ground (arith, retain-scheduled p q xs)

module _ (from_json : Text → Option (List Policy)) (to_json : List Policy → Text) where
  load_policies-retain :
      (file : PolicyFile) (q : Policy → Bool)
      → retain is_scheduled (retain q (load_policies from_json to_json file))
        ≡ retain q (load_policies from_json to_json file)
  unfolding load_policies
  load_policies-retain not_found q = refl
  load_policies-retain unreadable q = refl
  load_policies-retain (raw text) q = of_parsed (from_json text)
    where
      of_parsed :
          (o : Option (List Policy))
          → retain is_scheduled (retain q (parsed o)) ≡ retain q (parsed o)
      of_parsed none = refl
      of_parsed (some xs) = retain-scheduled is_scheduled q xs

  -- The policies that were loaded, without those of the id.
  abbrev pub others : PolicyFile → Text → List Policy
  others file id = retain (λ p. not (p.id == id)) (load_policies from_json to_json file)

  load_policies-raw :
      (text : Text) (policies : List Policy)
      → from_json text ≡ some policies
      → load_policies from_json to_json (raw text) ≡ retain is_scheduled policies
  unfolding load_policies
  load_policies-raw text policies h = ap parsed h

  -- After a deletion that could be written, what is loaded is what was loaded before without the
  -- policies of that id, if the text that is written is read back.
  pub load_policies-delete_policy :
      (file : PolicyFile) (id : Text)
      → from_json (to_json (others file id)) ≡ some (others file id)
      → load_policies from_json to_json (delete_policy from_json to_json file id true).0
        ≡ others file id
  unfolding delete_policy save_policies
  load_policies-delete_policy file id back =
      load_policies-raw (to_json (others file id)) (others file id) back
      ∙ load_policies-retain file (λ p. not (p.id == id))
