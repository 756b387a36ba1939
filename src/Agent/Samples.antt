-- ===== src/Agent/Samples.antt =====
-- Tests and instances for the kinds of agents.
use workingman.Prelude.{◌≡◌, ◌↔◌, refl, none, some, codes}
use workingman.Agent.{kind_text, parse_kind, review_agent}
use workingman.Agent.Names.{parse_kind_iff}

parse_kind_iff_example :
    (parse_kind (codes "review") ≡ some review_agent) ↔ (codes "review" ≡ kind_text review_agent)
parse_kind_iff_example = parse_kind_iff (codes "review") review_agent

unknown_kind : parse_kind (codes "nonsense") ≡ none
unfolding parse_kind
unknown_kind = refl
