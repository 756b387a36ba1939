-- ===== src/Policy/Codec.antt =====
-- Encode and Decode of internal/policy/policy.go: the round trip, and what Decode accepts.
use workingman.Prelude.{
  ◌≡◌, refl, true, false, ◌∷◌, ◌++◌, Str, codes, str_eq_iff, arith, cut, cut-append, cut-found,
  is_free_of,
}
use workingman.Policy.{
  Rule, Result, ok, err, valid_action, valid_kind, is_blank, validate, encode, decode, split_fields,
  ◌>>=◌, ◌>>◌,
}

valid_action-no_colon : (a : Str) → valid_action a ≡ true → is_free_of b':' a ≡ true
unfolding valid_action
valid_action-no_colon a h =
    ground (arith, str_eq_iff a (codes "allow"), str_eq_iff a (codes "deny"))

valid_kind-no_colon : (k : Str) → valid_kind k ≡ true → is_free_of b':' k ≡ true
unfolding valid_kind
valid_kind-no_colon k h =
    ground (arith, str_eq_iff k (codes "network"), str_eq_iff k (codes "filesystem"))

-- What a rule that passes validation satisfies.
validate-eq-ok :
    (r : Rule)
    → validate r ≡ ok tt
    → (valid_action r.action ≡ true) × (valid_kind r.kind ≡ true) × (is_blank r.resource ≡ false)
unfolding validate
validate-eq-ok r h = ground arith

split_fields-encode :
    (r : Rule)
    → valid_action r.action ≡ true
    → valid_kind r.kind ≡ true
    → split_fields (encode r) ≡ ok r
unfolding split_fields encode
split_fields-encode r a k =
    rw (cut-append b':' r.action (r.kind ++ b':' ∷ r.resource) (valid_action-no_colon r.action a))
      (rw (cut-append b':' r.kind r.resource (valid_kind-no_colon r.kind k)))

split_fields-eq-ok : (s : Str) (r : Rule) → split_fields s ≡ ok r → encode r ≡ s
unfolding split_fields encode
split_fields-eq-ok s r h = ground (arith, cut-found b':' s, cut-found b':' (cut b':' s).after)

-- Decoding the text of a valid rule gives the rule back, whatever colons its resource has.
pub decode-encode : (r : Rule) → validate r ≡ ok tt → decode (encode r) ≡ ok r
unfolding decode
decode-encode r h =
    let v = validate-eq-ok r h in
    rw (split_fields-encode r v.0 v.1) (unfold validate in ground arith)

-- Whatever Decode accepts is the text of a rule that passes validation, and of the rule it returns.
pub decode-eq-ok : (s : Str) (r : Rule) → decode s ≡ ok r → (validate r ≡ ok tt) × (encode r ≡ s)
unfolding decode
decode-eq-ok s r h = accepted (split_fields s) refl h
  where
    accepted :
        (f : Result Rule)
        → split_fields s ≡ f
        → (f >>= λ x. validate x >> ok x) ≡ ok r
        → (validate r ≡ ok tt) × (encode r ≡ s)
    accepted (err e) p q = cc
    accepted (ok x) p q = valid (validate x) refl q
      where
        valid :
            (v : Result (Unit {0}))
            → validate x ≡ v
            → (v >> ok x) ≡ ok r
            → (validate r ≡ ok tt) × (encode r ≡ s)
        valid (err e) a b = cc
        valid (ok tt) a b =
            let same : x ≡ r = ground arith in (rw same at a, split_fields-eq-ok s r (rw same at p))
