-- ===== src/Router/Reply.antt =====
-- Which session a reply to a notification is for (internal/router/router.go).
use workingman.Prelude.{
  ◌≡◌, ◌⊎◌, inl, inr, refl, sym, ◌∙◌, Bool, true, false, ◌&&◌, not, Option, none, some, List, [],
  ◌∷◌, Str, str_eq, str_eq→eq, is_empty, Bool-cases, none-ne-some, some_inj, eq→str_eq,
  if◌then◌else◌, true≢false, false≢true, ◌≢◌, ap, if-cases, Option-cases, not-false,
}
use mathlib.Core.List.{Memᴰ}
use workingman.Router.Commands.{Session}
use workingman.Router.Chats.{
  Env, Chat, Item, Notice, session_over, earlier_session, unreachable, ConversationTarget,
  resolve_reply_target, reply_target,
}

-- A message replies to a notification, by the index, that a wolf's conversation belongs to.
pub record RepliesTo (env : Env) (c : Chat) (it : Item) (ct : ConversationTarget) : Type 0 where
  pub index : Str → Str → Option ConversationTarget
  pub indexed : env.lookup ≡ some index
  pub replies : is_empty it.reply_to ≡ false
  pub found : index c.channel it.reply_to ≡ some ct
  pub of_wolf : ct.is_wolf ≡ true

-- A message replies to no such notification.
abbrev pub RepliesToNone : Env → Chat → Item → Type 0
RepliesToNone env c it = (ct : ConversationTarget) → ¬ RepliesTo env c it ct

-- The first live session under a key.
pub data IsFirst (key : Str) (w : Session) : List Session → Type 0 where
  here : (ws : List Session) → w.key ≡ key → IsFirst key w (w ∷ ws)
  later :
      (v : Session) (ws : List Session) → v.key ≢ key → IsFirst key w ws → IsFirst key w (v ∷ ws)

-- No live session has the key.
abbrev pub IsOver : Str → List Session → Type 0
IsOver key ws = (w : Session) → Memᴰ w ws → w.key ≢ key

-- The session is of the id that a conversation was noted under, if it was noted under one.
abbrev pub IsCurrent : ConversationTarget → Session → Type 0
IsCurrent ct w = (is_empty ct.session_id ≡ true) ⊎ (w.id ≡ ct.session_id)

not-true : (a : Bool) → not a ≡ true → a ≡ false
not-true false h = refl
not-true true h = absurd (false≢true h)

-- What the search for a replied-to session comes to.
pub data Resolves (ct : ConversationTarget) (ws : List Session)
    : Option Session × Notice → Type 0 where
  reached :
      (w : Session)
      → IsFirst ct.session_key w ws
      → IsCurrent ct w
      → is_empty w.ref ≡ false
      → Resolves ct ws (some w, session_over)
  stale :
      (w : Session)
      → IsFirst ct.session_key w ws
      → ¬ IsCurrent ct w
      → Resolves ct ws (none, earlier_session)
  hosted :
      (w : Session)
      → IsFirst ct.session_key w ws
      → IsCurrent ct w
      → is_empty w.ref ≡ true
      → Resolves ct ws (none, unreachable)
  over : IsOver ct.session_key ws → Resolves ct ws (none, session_over)

str_eq-false : (a b : Str) → str_eq a b ≡ false → a ≢ b
str_eq-false a b h e = true≢false (sym (eq→str_eq a b e) ∙ h)

skipped :
    (ct : ConversationTarget) (v : Session) (ws : List Session) (r : Option Session × Notice)
    → v.key ≢ ct.session_key
    → Resolves ct ws r
    → Resolves ct (v ∷ ws) r
skipped ct v ws _ other (reached w first current ref) =
    reached w (later v ws other first) current ref
skipped ct v ws _ other (stale w first old) = stale w (later v ws other first) old
skipped ct v ws _ other (hosted w first current ref) = hosted w (later v ws other first) current ref
skipped ct v ws _ other (over gone) = over none_keyed
  where
    none_keyed : IsOver ct.session_key (v ∷ ws)
    none_keyed w (Memᴰ.head e) = λ k. other (ap (λ (x : Session). x.key) (sym e) ∙ k)
    none_keyed w (Memᴰ.tail m) = gone w m

-- The test of the id decides whether the session is current.
current_id : (a b : Bool) → (not a && not b) ≡ false → (a ≡ true) ⊎ (b ≡ true)
current_id true b h = inl refl
current_id false true h = inr refl
current_id false false h = cc

stale_id : (a b : Bool) → (not a && not b) ≡ true → (a ≡ false) × (b ≡ false)
stale_id false false h = (refl, refl)
stale_id true b h = cc
stale_id false true h = cc

is_current :
    (ct : ConversationTarget) (w : Session)
    → (not (is_empty ct.session_id) && not (str_eq w.id ct.session_id)) ≡ false
    → IsCurrent ct w
is_current ct w h = elim (current_id (is_empty ct.session_id) (str_eq w.id ct.session_id) h) [
  | inl any ↦ inl any
  | inr e ↦ inr (str_eq→eq w.id ct.session_id e)
]

not_current :
    (ct : ConversationTarget) (w : Session)
    → (not (is_empty ct.session_id) && not (str_eq w.id ct.session_id)) ≡ true
    → ¬ IsCurrent ct w
not_current ct w h is =
    let (noted, other) = stale_id (is_empty ct.session_id) (str_eq w.id ct.session_id) h in
    elim is [
      | inl any ↦ true≢false (sym any ∙ noted)
      | inr e ↦ str_eq-false w.id ct.session_id other e
    ]

pub resolve_reply_target-Resolves :
    (ws : List Session) (ct : ConversationTarget) → Resolves ct ws (resolve_reply_target ws ct)
unfolding resolve_reply_target
resolve_reply_target-Resolves [] ct = over (λ w m. elim m [ ])
resolve_reply_target-Resolves (v ∷ ws) ct =
    if-cases (not (str_eq v.key ct.session_key)) (Resolves ct (v ∷ ws))
      (λ other.
        skipped ct v ws (resolve_reply_target ws ct)
          (str_eq-false v.key ct.session_key (not-true _ other))
          (resolve_reply_target-Resolves ws ct))
      (λ same.
        let first = here ws (str_eq→eq v.key ct.session_key (not-false _ same)) in
        if-cases (not (is_empty ct.session_id) && not (str_eq v.id ct.session_id))
          (Resolves ct (v ∷ ws)) (λ old. stale v first (not_current ct v old))
          (λ fresh.
            if-cases (is_empty v.ref) (Resolves ct (v ∷ ws))
              (λ host. hosted v first (is_current ct v fresh) host)
              (λ ref. reached v first (is_current ct v fresh) ref)))

-- The conversation that is replied to is found, and no other.
pub reply_target-RepliesTo :
    (env : Env) (c : Chat) (it : Item) (ct : ConversationTarget)
    → reply_target env c it ≡ some ct
    → RepliesTo env c it ct
unfolding reply_target
reply_target-RepliesTo env c it ct h = elim (Bool-cases (is_empty it.reply_to)) [
  | inl plain ↦ absurd (none-ne-some (rw plain at h))
  | inr replies ↦ elim (Option-cases env.lookup) [
    | inl absent ↦ absurd (none-ne-some (rw (replies, absent) at h))
    | inr (index, indexed) ↦ elim (Option-cases (index c.channel it.reply_to)) [
      | inl missed ↦ absurd (none-ne-some (rw (replies, indexed, missed) at h))
      | inr (x, found) ↦ elim (Bool-cases x.is_wolf) [
        | inr agent ↦ absurd (none-ne-some (rw (replies, indexed, found, agent) at h))
        | inl of_wolf ↦
            let hit : (if x.is_wolf then some x else none) ≡ some ct =
              rw (replies, indexed, found) at h in
            let same : x ≡ ct =
              some_inj (sym (ap (λ b. if b then some x else none) of_wolf) ∙ hit) in
            record {
              index = index;
              indexed = indexed;
              replies = replies;
              found = found ∙ ap some same;
              of_wolf = ap (λ (y : ConversationTarget). y.is_wolf) (sym same) ∙ of_wolf;
            }
      ]
    ]
  ]
]

pub reply_target-none :
    (env : Env) (c : Chat) (it : Item) → reply_target env c it ≡ none → RepliesToNone env c it
unfolding reply_target
reply_target-none env c it h ct r =
    let hit : reply_target env c it ≡ (if ct.is_wolf then some ct else none) =
      rw (r.replies, r.indexed, r.found) refl in
    none-ne-some (sym h ∙ hit ∙ ap (λ b. if b then some ct else none) r.of_wolf)
