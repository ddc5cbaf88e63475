-- ===== src/Diversity/Tests.antt =====
-- The theorems on diversity at concrete identities.
use frontier_refactor_factor.Prelude.{◌≡◌, refl, List, [], ◌∷◌, count}
use frontier_refactor_factor.Diversity.{Offer, offer_all, repository_key}
use frontier_refactor_factor.Diversity.Laws.Cap.{is_from}

-- Two jobs for modules, whose caps differ, and one for repositories between them.
abbrev offers : List Offer
offers =
    record { scale = "module"; cap = 2; identity = "git@host/x@1#f" }
    ∷ record { scale = "repo"; cap = 1; identity = "git@host/x@1" }
    ∷ record { scale = "module"; cap = 5; identity = "git@host/x@2#g" }
    ∷ record { scale = "module"; cap = 5; identity = "git@host/x@1#h" }
    ∷ []

two_accepted : count (is_from "module" "git@host/x") (offer_all offers []) ≡ 2
unfolding offer_all repository_key
two_accepted = refl
