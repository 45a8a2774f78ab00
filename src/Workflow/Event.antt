-- ===== src/Workflow/Event.antt =====
-- ez/crates/ez-workflow/src/event.rs: events, `on` patterns, subjects and triggers.
use enzarb.Base.{
  ℕ, ◌+◌, ◌≡◌, refl, map, Bool, true, false, not, ◌&&◌, ◌||◌, Option, none, some, List, [], ◌∷◌,
  ◌++◌, length, leb, ◌==◌, if◌then◌else◌, Result, ok, err, is_empty,
}
use enzarb.Base.Text.{Str, text, show, between}
use enzarb.Base.Strings.{str_eq, split_once, join, has}
use enzarb.Workflow.Json.{
  Value, object, object_of, insert_field, get, is_null, as_u64, as_str, null, no_fields, string,
  number, string_or_null,
}
use enzarb.Workflow.Engine.{Engine, eval_bool}
use enzarb.Workflow.Schema.{Workflow, unwrap_or}

pub record Event : Type 0 where
  pub name : Str
  pub action : Option Str
  pub payload : Value

pub data SubjectKind : Type 0 where
  issue pull_request : SubjectKind

pub record Subject : Type 0 where
  pub kind : SubjectKind
  pub number : ℕ
  pub author : Str
  pub url : Str

unfoldable named : Event → Value → Value
named e (object m) = object (
    insert_field (text "action") (string_or_null e.action)
      (insert_field (text "name") (string e.name) m))
named e v = object (
    insert_field (text "action") (string_or_null e.action)
      (insert_field (text "name") (string e.name) (insert_field (text "payload") v no_fields)))

-- The `event` template variable: the payload with `name` and `action` set.
unfoldable pub event_context : Event → Value
unfolding named
event_context e = named e e.payload

abbrev is_action : Option Str → Str → Bool
is_action none a = false
is_action (some b) a = str_eq b a

-- Whether an `on` entry (`issues` or `issues.labeled`) matches the event.
unfoldable pub matches : Event → Str → Bool
matches e pattern = elim (split_once b'.' pattern) [
  | none ↦ str_eq pattern e.name
  | some p ↦ str_eq p.0 e.name && is_action e.action p.1
]

-- `pointer("/user/login")` reads the members of objects; an array has no member `login`.
unfoldable string_at : Option Value → Str
string_at none = []
string_at (some v) = unwrap_or [] (as_str v)

unfoldable member : Option Value → Str → Option Value
member none k = none
member (some v) k = get v k

unfoldable subject_at : SubjectKind → Value → Option ℕ → Option Subject
unfolding string_at member
subject_at kind obj none = none
subject_at kind obj (some n) = some (record {
  kind = kind;
  number = n;
  author = string_at (member (get obj (text "user")) (text "login"));
  url = string_at (get obj (text "html_url"));
})

unfoldable number_of : Value → Option ℕ
number_of obj = elim (get obj (text "number")) [ none ↦ none | some v ↦ as_u64 v ]

abbrev is_set : Option Value → Bool
is_set none = false
is_set (some v) = not (is_null v)

unfoldable of_issue : Option Value → Option Subject
unfolding subject_at number_of
of_issue none = none
of_issue (some obj) =
    subject_at (if is_set (get obj (text "pull_request")) then pull_request else issue) obj
      (number_of obj)

unfoldable of_pull : Option Value → Option Subject
unfolding subject_at number_of
of_pull none = none
of_pull (some obj) = subject_at pull_request obj (number_of obj)

-- The issue or pull request the event is about.
unfoldable pub subject : Event → Option Subject
unfolding of_issue of_pull
subject e =
    if has (text "issues" ∷ text "issue_comment" ∷ text "manual" ∷ []) e.name
    then of_issue (get e.payload (text "issue"))
    else if has
        (text "pull_request"
          ∷ text "pull_request_review"
          ∷ text "pull_request_review_comment"
          ∷ text "pull_request_review_thread"
          ∷ [])
        e.name
    then of_pull (get e.payload (text "pull_request"))
    else none

abbrev lower : ℕ → Bool
lower b = between b'a' b'z' b

all_bytes : (ℕ → Bool) → Str → Bool
all_bytes p [] = true
all_bytes p (b ∷ s) = p b && all_bytes p s

unfoldable valid_part : Str → Bool
unfolding all_bytes
valid_part s = not (is_empty s) && (leb (length s) 64 && all_bytes (λ b. lower b || b == b'_') s)

-- Whether an `on` entry is well formed: `name` or `name.action`, lowercase and underscores.
unfoldable pub valid_pattern : Str → Bool
unfolding valid_part
valid_pattern pattern = elim (split_once b'.' pattern) [
  | none ↦ valid_part pattern
  | some p ↦ valid_part p.0 && valid_part p.1
]

pub record TriggerEval : Type 0 where
  pub workflow : Str
  pub matched : Bool
  pub on : Option Str
  pub reason : Str

unfoldable pub kind_text : SubjectKind → Str
kind_text issue = text "issue"
kind_text pull_request = text "pull_request"

-- A subject as JSON
unfoldable pub subject_json : Option Subject → Value
subject_json none = null
subject_json (some s) = object_of (
    (text "kind", string (kind_text s.kind))
    ∷ (text "number", number s.number)
    ∷ (text "author", string s.author)
    ∷ (text "url", string s.url)
    ∷ [])

unfoldable pub trigger_context : Event → Value
trigger_context e =
    object_of ((text "event", event_context e) ∷ (text "subject", subject_json (subject e)) ∷ [])

-- `name.action` or `name`
unfoldable pub event_label : Event → Str
event_label e = elim e.action [ none ↦ e.name | some a ↦ e.name ++ text "." ++ a ]

-- `on.iter().find(|p| event.matches(p))`
unfoldable pub find_on : Event → List Str → Option Str
find_on e [] = none
find_on e (p ∷ on) = let rest = find_on e on in if matches e p then some p else rest

unfoldable pub judge : Str → Str → Result Str Bool → Bool × Str
judge on cond (ok true) = (true, text "on `" ++ on ++ text "`, if `" ++ cond ++ text "` is true")
judge on cond (ok false) = (false, text "if `" ++ cond ++ text "` is false")
judge on cond (err e) = (false, text "if `" ++ cond ++ text "` failed: " ++ e)

unfoldable pub judge_condition : Engine → Value → Str → Option Str → Bool × Str
judge_condition engine ctx on none = (true, text "on `" ++ on ++ text "`")
judge_condition engine ctx on (some cond) = judge on cond (eval_bool engine cond ctx)

unfoldable pub evaluate_trigger : Engine → Value → Event → Str × Workflow → TriggerEval
evaluate_trigger engine ctx e w = elim (find_on e w.1.on) [
  | none ↦ record {
    workflow = w.0;
    matched = false;
    on = none;
    reason =
        text "`"
        ++ event_label e
        ++ text "` is not in on = ["
        ++ join (text ", ") w.1.on
        ++ text "]";
  }
  | some on ↦
      let (matched, reason) = judge_condition engine ctx on w.1.condition in
      record { workflow = w.0; matched = matched; on = some on; reason = reason }
]

-- Checks every workflow's `on` and `if` against the event, in file order.
unfoldable pub evaluate_triggers : Engine → List (Str × Workflow) → Event → List TriggerEval
evaluate_triggers engine [] e = []
evaluate_triggers engine (w ∷ ws) e =
    evaluate_trigger engine (trigger_context e) e w ∷ evaluate_triggers engine ws e

abbrev to_lower : ℕ → ℕ
to_lower b = if between b'A' b'Z' b then b + 32 else b

-- The routing key: `owner/repo#number` (issues and pull requests share numbers).
unfoldable pub subject_key : Subject → Str → Str
subject_key s repo = map to_lower repo ++ text "#" ++ show s.number

-- `"O/R"` and issue 12
subject_key_twelve :
    subject_key (record { kind = issue; number = 12; author = []; url = [] }) (text "O/R")
    ≡ text "o/r#12"
unfolding subject_key text show
subject_key_twelve = refl
