-- ===== src/Task.antt =====
-- internal/task/task.go: the task record, its statuses and its names.
pub mod Names
pub mod Budget
pub mod Samples
use workingman.Prelude.{
  ℕ, ◌+◌, ◌-◌, ◌≡◌, Bool, true, false, ◌&&◌, ◌||◌, not, List, [], ◌∷◌, ◌++◌, Str, codes, str_eq,
  length, take, leb, ltb, ◌==◌, is_empty, trim, if◌then◌else◌, Option, none, some,
}
use workingman.Sbx
use workingman.Sbx.{is_alnum, name_budget, fit_name_to}
use workingman.Policy.{Rule}

pub data Status : Type 0 where
  ready running success failed blocked committed : Status

pub Status-discrete : Discrete Status
Status-discrete = hlevel

unfoldable pub status_eq : Status → Status → Bool
status_eq ready ready = true
status_eq running running = true
status_eq success success = true
status_eq failed failed = true
status_eq blocked blocked = true
status_eq committed committed = true
status_eq _ _ = false

-- The text of a status in a task file.
unfoldable pub status_text : Status → Str
status_text ready = codes "ready"
status_text running = codes "running"
status_text success = codes "success"
status_text failed = codes "failed"
status_text blocked = codes "blocked"
status_text committed = codes "committed"

-- Status.UnmarshalYAML with Status.Valid: `none` is the error.
unfoldable pub parse_status : Str → Option Status
parse_status raw =
    if str_eq raw (codes "ready")
    then some ready
    else if str_eq raw (codes "running")
    then some running
    else if str_eq raw (codes "success")
    then some success
    else if str_eq raw (codes "failed")
    then some failed
    else if str_eq raw (codes "blocked")
    then some blocked
    else if str_eq raw (codes "committed")
    then some committed
    else none

abbrev pub max_name_len : ℕ
max_name_len = Sbx.max_name_len

-- MaxNameLenFor
unfoldable pub max_name_len_for : Str → ℕ
unfolding name_budget
max_name_len_for work_stream = name_budget work_stream

-- nameRE, ^[a-z0-9]+(-[a-z0-9]+)*$, as an automaton: `after` says that the last byte was a letter
-- or a digit, which is where a word may end.
unfoldable pub name_re : Bool → Str → Bool
name_re after [] = after
name_re after (c ∷ cs) = (is_alnum c || c == b'-' && after) && name_re (is_alnum c) cs

-- ValidName
unfoldable pub valid_name : Str → Bool
unfolding name_re
valid_name name = not (is_empty name) && leb (length name) max_name_len && name_re false name

-- ValidNameFor
unfoldable pub valid_name_for : Str → Str → Bool
unfolding valid_name max_name_len_for
valid_name_for name work_stream =
    valid_name name && leb (length name) (max_name_len_for work_stream)

-- strings.ToLower, as far as it yields ASCII: beside A-Z, the two code points whose lower case is
-- ASCII are U+0130 (bytes 196, 176) and U+212A (bytes 226, 132, 170). Other bytes from 0x80 stay outside [a-z0-9].
unfoldable pub to_lower : Str → Str
to_lower [] = []
to_lower (a ∷ []) = (if leb b'A' a && leb a b'Z' then a + 32 else a) ∷ []
to_lower (a ∷ b ∷ []) =
    if a == 0xC4 && b == 0xB0
    then b'i' ∷ []
    else (if leb b'A' a && leb a b'Z' then a + 32 else a) ∷ to_lower (b ∷ [])
to_lower (a ∷ b ∷ c ∷ r) = elim (a == 0xC4 && b == 0xB0) [
  | true ↦ b'i' ∷ to_lower (c ∷ r)
  | false ↦ elim (a == 0xE2 && b == 0x84 && c == 0xAA) [
    | true ↦ b'k' ∷ to_lower r
    | false ↦ (if leb b'A' a && leb a b'Z' then a + 32 else a) ∷ to_lower (b ∷ c ∷ r)
  ]
]

-- The loop of Slugify. A run of bytes of non-ASCII runes yields one hyphen, as the runes do.
unfoldable pub slug_runes : Bool → Str → Str
slug_runes prev_dash [] = []
slug_runes prev_dash (r ∷ rs) = elim (is_alnum r) [
  | true ↦ r ∷ slug_runes false rs
  | false ↦ elim prev_dash [ true ↦ slug_runes true rs | false ↦ b'-' ∷ slug_runes true rs ]
]

-- Slugify
unfoldable pub slugify : Str → Str
unfolding to_lower slug_runes trim
slugify s =
    let slug = trim b'-' (slug_runes false (to_lower s)) in
    let capped =
      if ltb max_name_len (length slug) then trim b'-' (take max_name_len slug) else slug in
    if is_empty capped then codes "task" else capped

-- SlugifyFor
unfoldable pub slugify_for : (Str → Str) → Str → Str → Str
unfolding slugify fit_name_to max_name_len_for
slugify_for digest s work_stream =
    let slug = fit_name_to digest (slugify s) (max_name_len_for work_stream) in
    if is_empty slug then slugify s else slug

-- Source: the pull-request signal that a task exists to address.
pub record Source : Type 0 where
  pub kind : Str
  pub ref : Str
  pub repo : Str
  pub pr : ℕ

pub record Commit : Type 0 where
  pub repo : Str
  pub hash : Str

pub record Task : Type 0 where
  pub name : Str
  pub description : Str
  pub depends_on : List Str
  pub status : Status
  pub attempts : ℕ
  pub failure_reason : Str
  pub blocked_reason : Str
  pub summary : Str
  pub commits : List Commit
  pub created_files : List Str
  pub completed_at : Option ℕ
  pub static_mcps : List Str
  pub policies : List Rule
  pub save_sandbox : Bool
  pub model : Str
  pub source : Option Source
  pub path : Str

-- IsPushTask
unfoldable pub is_push_task : Task → Bool
is_push_task t = elim t.source [ none ↦ false | some s ↦ str_eq s.kind (codes "pr-push") ]

-- What Load does after a successful parse of the file at `path`.
unfoldable pub loaded : Str → Task → Task
loaded path t = record t {
  path = path;
  model = if is_empty t.model then codes "default" else t.model;
}

-- The guard of Save: a name over the limit is refused, and nothing is written.
unfoldable pub savable : Task → Bool
savable t = leb (length t.name) max_name_len
