-- ===== src/Agent/Names.antt =====
-- The names of the kinds of agents are read back.
use workingman.Prelude.{
  ◌≡◌, ◌↔◌, refl, sym, if◌then◌else◌, Option, none, some, arith, Str, str_eq, Bool-cases, inl, inr,
  str_eq→eq, none-ne-some, ap, ◌∙◌,
}
use workingman.Agent.{
  Kind, kind_text, parse_kind, project_agent, planning_agent, task_agent, wolf_agent, commit_agent,
  archive_agent, review_agent, workingman_agent,
}

parse_kind-kind_text : (k : Kind) → parse_kind (kind_text k) ≡ some k
unfolding parse_kind
parse_kind-kind_text project_agent = refl
parse_kind-kind_text planning_agent = refl
parse_kind-kind_text task_agent = refl
parse_kind-kind_text wolf_agent = refl
parse_kind-kind_text commit_agent = refl
parse_kind-kind_text archive_agent = refl
parse_kind-kind_text review_agent = refl
parse_kind-kind_text workingman_agent = refl

named :
    (s t : Str) (k k' : Kind) (rest : Option Kind)
    → kind_text k' ≡ t
    → (rest ≡ some k → s ≡ kind_text k)
    → (if str_eq s t then some k' else rest) ≡ some k
    → s ≡ kind_text k
named s t k k' rest text later h = elim (Bool-cases (str_eq s t)) [
  | inl e ↦ str_eq→eq s t e ∙ sym text ∙ ap kind_text (ground (arith, h, e))
  | inr e ↦ later (ground (arith, h, e))
]

kind_text-parse_kind : (s : Str) (k : Kind) → parse_kind s ≡ some k → s ≡ kind_text k
unfolding parse_kind
kind_text-parse_kind s k = named s _ k project_agent _ refl (
    named s _ k planning_agent _ refl (
      named s _ k task_agent _ refl (
        named s _ k wolf_agent _ refl (
          named s _ k commit_agent _ refl (
            named s _ k archive_agent _ refl (
              named s _ k review_agent _ refl
                (named s _ k workingman_agent none refl (λ e. absurd (none-ne-some e)))))))))

-- ParseKind reads a text as a kind exactly when the text is that kind's name.
pub parse_kind_iff : (s : Str) (k : Kind) → (parse_kind s ≡ some k) ↔ (s ≡ kind_text k)
parse_kind_iff s k = (kind_text-parse_kind s k, λ e. rw e (parse_kind-kind_text k))
