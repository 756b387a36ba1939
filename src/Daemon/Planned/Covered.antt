-- ===== src/Daemon/Planned/Covered.antt =====
-- What a project lists is in the snapshot or is to be added.
use workingman.Prelude.{
  contains-append, or_cases, or_left, or_right, ◌≡◌, refl, sym, ◌∙◌, ap, Bool, true, false, ◌||◌,
  not, ◌⊎◌, inl, inr, List, [], ◌∷◌, ◌++◌, Str, str_eq, contains, false≢true, subst, str_eq→eq,
}
use workingman.Project.{Project, Repo}
use workingman.Daemon.Planned.{
  PlannedSnapshot, repo_identity, identities, added_among, added_repos, listed, to_add,
}

identities-append : (rs qs : List Repo) → identities (rs ++ qs) ≡ identities rs ++ identities qs
identities-append [] qs = refl
identities-append (r ∷ rs) qs = ap (λ xs. repo_identity r ∷ xs) (identities-append rs qs)

-- A listed repository is in the snapshot or is added.
covered :
    (had : List Str) (rs : List Repo) (id : Str)
    → contains (identities rs) id ≡ true
    → (contains had id ≡ true) ⊎ (contains (identities (added_among had rs)) id ≡ true)
unfolding contains added_among
covered had [] id h = absurd (false≢true h)
covered had (r ∷ rs) id h = by_had (contains had (repo_identity r)) refl (covered had rs id)
  where
    by_had :
        (b : Bool)
        → contains had (repo_identity r) ≡ b
        → (contains (identities rs) id ≡ true
            → (contains had id ≡ true) ⊎ (contains (identities (added_among had rs)) id ≡ true))
        → (contains had id ≡ true)
          ⊎ (contains
                (identities
                  (elim (not b) [ true ↦ r ∷ added_among had rs | false ↦ added_among had rs ]))
                id
              ≡ true)
    by_had true e ih =
        elim (or_cases (str_eq (repo_identity r) id) (contains (identities rs) id) h) [
          | inl same ↦
              inl (subst (λ x. contains had x ≡ true) (str_eq→eq (repo_identity r) id same) e)
          | inr later ↦ ih later
        ]
    by_had false e ih =
        elim (or_cases (str_eq (repo_identity r) id) (contains (identities rs) id) h) [
          | inl same ↦ inr (rw same refl)
          | inr later ↦ elim (ih later) [
            | inl x ↦ inl x
            | inr y ↦ inr (or_right (str_eq (repo_identity r) id) _ y)
          ]
        ]

-- What a project lists is in the snapshot, or among what is to be added.
pub listed_covered :
    (s : PlannedSnapshot) (p : Project) (id : Str)
    → contains (listed p) id ≡ true
    → (contains (identities (s.repos ++ s.new_repos)) id ≡ true) ⊎ (contains (to_add s p) id ≡ true)
unfolding added_repos
listed_covered s p id h =
    let had = identities (s.repos ++ s.new_repos) in
    let split : (contains (identities p.repos) id || contains (identities p.new_repos) id) ≡ true =
      sym (contains-append (identities p.repos) (identities p.new_repos) id)
      ∙ ap (λ xs. contains xs id) (sym (identities-append p.repos p.new_repos))
      ∙ h in
    let joined : contains (to_add s p) id ≡ (
        contains (identities (added_among had p.repos)) id
        || contains (identities (added_among had p.new_repos)) id) =
      ap (λ xs. contains xs id)
        (identities-append (added_among had p.repos) (added_among had p.new_repos))
      ∙ contains-append (identities (added_among had p.repos))
          (identities (added_among had p.new_repos)) id in
    elim (or_cases _ _ split) [
      | inl old ↦ elim (covered had p.repos id old) [
        | inl x ↦ inl x
        | inr y ↦ inr (joined ∙ or_left _ _ y)
      ]
      | inr new ↦ elim (covered had p.new_repos id new) [
        | inl x ↦ inl x
        | inr y ↦ inr (joined ∙ or_right _ _ y)
      ]
    ]
