-- ===== src/Permissions/Examples.antt =====
-- Runs of the permissions of security/permissions.rs, and its theorems at concrete inputs. The names
-- are in lower case already.
use mathlib.Core.Path.{subst}
use vaultproxy.Prelude.{
  ◌≡◌, ◌<◌, ◌++◌, ◌⊎◌, inl, inr, refl, sym, ap, ◌∙◌, [], ◌∷◌, arith, text_eq, Text, codes,
}
use vaultproxy.Text.{contains, starts_with, byte_len}
use vaultproxy.HashMap.{HashMap, get}
use vaultproxy.Permissions.{
  Permission, allow, ask, log, default_permissions, match_from, get_permission, get_category,
}
use vaultproxy.Permissions.First.{Holds, AllShorter}
use vaultproxy.Permissions.Keywords.{
  HasNone, IsBest, HasNoTie, get_permission_cases, get_permission_tie,
}

abbrev same_case : Text → Text
same_case s = s

abbrev tool : Text
tool = codes "docker__delete_status"

status_is_free : get_permission same_case default_permissions tool ≡ allow
unfolding get_permission match_from contains starts_with byte_len get
status_is_free = refl

abbrev get_list : Text
get_list = codes "net__list_interfaces"

list_category : get_category same_case default_permissions get_list ≡ codes "list"
unfolding get_category match_from contains starts_with byte_len
list_category = refl

get_permission_cases_example :
    (HasNone tool default_permissions.defaults
      × (get_permission same_case default_permissions tool ≡ log))
    ⊎ ((e : Text × Permission) × IsBest tool default_permissions.defaults e
        × (get_permission same_case default_permissions tool ≡ e.1))
get_permission_cases_example =
    get_permission_cases same_case default_permissions tool (unfold get in refl)

abbrev before : HashMap Text Permission
before = (codes "get", allow) ∷ []

abbrev after : HashMap Text Permission
after = (codes "list", log) ∷ []

before-AllShorter : AllShorter tool before 6
unfolding byte_len
before-AllShorter f (inl h) k = subst (λ e. byte_len e.0 < 6) h (omega arith)
before-AllShorter f (inr held) k = elim held [ ]

after-AllShorter : AllShorter tool after 7
unfolding byte_len
after-AllShorter f (inl h) k = subst (λ e. byte_len e.0 < 7) h (omega arith)
after-AllShorter f (inr held) k = elim held [ ]

get_permission_tie_example :
    (get_permission same_case
        (record {
          defaults = before ++ (codes "status", allow) ∷ (codes "delete", ask) ∷ after;
          overrides = [];
        })
        tool
      ≡ allow)
    × (get_permission same_case
          (record {
            defaults = before ++ (codes "delete", ask) ∷ (codes "status", allow) ∷ after;
            overrides = [];
          })
          tool
        ≡ ask)
unfolding contains starts_with byte_len get
get_permission_tie_example =
    get_permission_tie same_case before after (codes "status") (codes "delete") allow ask [] tool
      refl refl refl refl before-AllShorter after-AllShorter

abbrev two : HashMap Text Permission
two = (codes "list", allow) ∷ (codes "ssh", ask) ∷ []

abbrev swapped : HashMap Text Permission
swapped = (codes "ssh", ask) ∷ (codes "list", allow) ∷ []

swap : (e : Text × Permission) → Holds two e → Holds swapped e
swap e (inl h) = inr (inl h)
swap e (inr (inl h)) = inl h
swap e (inr (inr h)) = elim h [ ]

swap_back : (e : Text × Permission) → Holds swapped e → Holds two e
swap_back e (inl h) = inr (inl h)
swap_back e (inr (inl h)) = inl h
swap_back e (inr (inr h)) = elim h [ ]

two-HasNoTie : HasNoTie get_list two
unfolding contains starts_with byte_len
two-HasNoTie e f (inl h) (inl k) o o' same = sym h ∙ k
two-HasNoTie e f (inl h) (inr (inl k)) o o' same =
    ground (arith, ap (λ g. contains get_list g.0) k, o')
two-HasNoTie e f (inr (inl h)) (inl k) o o' same =
    ground (arith, ap (λ g. contains get_list g.0) h, o)
two-HasNoTie e f (inr (inl h)) (inr (inl k)) o o' same = sym h ∙ k
two-HasNoTie e f (inr (inr h)) k o o' same = elim h [ ]
two-HasNoTie e f h (inr (inr k)) o o' same = elim k [ ]
