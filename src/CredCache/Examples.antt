-- ===== src/CredCache/Examples.antt =====
-- Runs of the credential cache of cred_cache.rs, and its theorems at concrete inputs.
use vaultproxy.Prelude.{◌≡◌, refl, none, some, List, [], ◌∷◌, arith, text_eq, pair_eq, codes}
use vaultproxy.CredCache.{Key, with_ttl, get_cred}
use vaultproxy.CredCache.Lifetime.{Operation, get_at, put_at, purge_at, run, fresh}
use vaultproxy.CredCache.Refinement.{replay, replay_step, get_cred-replay}

abbrev user : Key
user = (codes "db", codes "user")

abbrev pass : Key
pass = (codes "db", codes "pass")

abbrev between : List Operation
between = get_at user 120 ∷ put_at pass (codes "p") (some 5) 130 ∷ purge_at 140 ∷ []

abbrev history : List Operation
history = put_at user (codes "u") none 100 ∷ between

answered :
    replay 60 (λ k. none) history user ≡ some (record { value = codes "u"; expires_at = 160 })
unfolding replay replay_step
answered = refl

get_cred-replay_example :
    (get_cred (run (with_ttl 60) history) user 150).1
    ≡ fresh 150 (replay 60 (λ k. none) history user)
get_cred-replay_example =
    get_cred-replay 60 history user 150
      (omega arith, (omega arith, (omega arith, (omega arith, tt))))
