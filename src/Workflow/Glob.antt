-- ===== src/Workflow/Glob.antt =====
-- ez/crates/ez-workflow/src/validate.rs: the globs of `mcp_tools`.
mod Search
pub mod Correct
use enzarb.Base.{
  ℕ, suc, ◌+◌, ◌-◌, Bool, true, false, not, ◌&&◌, ◌||◌, Option, none, some, List, [], ◌∷◌, ◌++◌,
  any, length, take, drop, ltb, if◌then◌else◌,
}
use enzarb.Base.Text.{Str}
use enzarb.Base.Strings.{str_eq, starts_with, split_parts, find, has_key}
use enzarb.Workflow.Report.{ModeCatalog, submit_result_tool}

-- `s.ends_with(part)`
unfoldable pub ends_with : Str → Str → Bool
ends_with part s =
    str_eq (drop (length s - length part) s) part && not (ltb (length s) (length part))

-- `rest.find(mid)` and what stands behind it
unfoldable pub after : Str → Str → Option Str
after mid [] = if starts_with mid [] then some [] else none
after mid (c ∷ s) =
    let rest = after mid s in
    if starts_with mid (c ∷ s) then some (drop (length mid) (c ∷ s)) else rest

-- The last part, and the parts before it.
unfoldable pub last_of : Str → List Str → Str
last_of p [] = p
last_of p (q ∷ ps) = last_of q ps

unfoldable pub before_last : Str → List Str → List Str
before_last p [] = []
before_last p (q ∷ ps) = p ∷ before_last q ps

-- The middle parts stand in `rest` one behind another.
unfoldable pub in_order : List Str → Str → Bool
unfolding after
in_order [] rest = true
in_order (mid ∷ mids) rest = elim (after mid rest) [ none ↦ false | some r ↦ in_order mids r ]

unfoldable pub matches_parts : Str → Str → List Str → Str → Bool
matches_parts glob first [] name = str_eq glob name
matches_parts glob first (p ∷ ps) name =
    let last = last_of p ps in
    if not (starts_with first name)
      || ltb (length name) (length first + length last)
      || not (ends_with last name)
    then false
    else in_order (before_last p ps)
        (take (length name - length last - length first) (drop (length first) name))

-- `*` matches any run of characters; everything else is literal.
unfoldable pub glob_matches : Str → Str → Bool
glob_matches glob name = matches_parts glob (split_parts b'*' glob).0 (split_parts b'*' glob).1 name

-- Whether ez offers `mcp__enzarb__submit_result` in the mode.
unfoldable pub allows_submit_result : ModeCatalog → Str → Bool
allows_submit_result m id = elim (find id m.mcp_tools) [
  | none ↦ false
  | some globs ↦ any (λ g. glob_matches g submit_result_tool) globs
]

abbrev pub contains_mode : ModeCatalog → Str → Bool
contains_mode m id = has_key id m.modes
