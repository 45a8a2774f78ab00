-- ===== src/Workflow/Modes.antt =====
-- ez/crates/ez-workflow/src/validate.rs: `ModeCatalog::from_modes_toml`.
-- The parser of toml is a parameter: a table, or the error as it is printed and trimmed. The types
-- below are what the function reads of a `toml::Value`; a table keeps its order.
use enzarb.Base.{
  Option, none, some, List, [], ◌∷◌, ◌++◌, if◌then◌else◌, Result, ok, err, ◌>>=◌, is_empty,
}
use enzarb.Base.Text.{Str, text}
use enzarb.Base.Strings.{str_eq}
use enzarb.Workflow.Report.{ModeCatalog}

mutual
  pub data Toml : Type 0 where
    toml_string : Str → Toml
    toml_array : Tomls → Toml
    toml_table : Table → Toml
    toml_other : Toml

  pub data Tomls : Type 0 where
    no_tomls : Tomls
    toml : Toml → Tomls → Tomls

  pub data Table : Type 0 where
    no_entries : Table
    entry : Str → Toml → Table → Table

unfoldable entry_at : Str → Table → Option Toml
entry_at k no_entries = none
entry_at k (entry j v t) = let rest = entry_at k t in if str_eq j k then some v else rest

-- `iter().filter_map(|t| t.as_str())`
unfoldable strings_of : Tomls → List Str
strings_of no_tomls = []
strings_of (toml (toml_string s) ts) = s ∷ strings_of ts
strings_of (toml t ts) = strings_of ts

abbrev must_be_list : Str → Str → Str
must_be_list id name =
    text "modes.toml: `modes." ++ id ++ text "." ++ name ++ text "` must be a list"

-- A list of strings that may be absent
unfoldable read_list : Str → Str → Option Toml → Result Str (Option (List Str))
unfolding strings_of
read_list id name none = ok none
read_list id name (some (toml_array ts)) = ok (some (strings_of ts))
read_list id name (some v) = err (must_be_list id name)

unfoldable read_mode : Str → Toml → Result Str (Option (List Str) × Option (List Str))
unfolding read_list entry_at
read_mode id (toml_table def) = do
  tools ← read_list id (text "tools") (entry_at (text "tools") def)
  globs ← read_list id (text "mcp_tools") (entry_at (text "mcp_tools") def)
  ok (tools, globs)
read_mode id v = err (text "modes.toml: mode `" ++ id ++ text "` must be a table")

abbrev with_globs : Str → Option (List Str) → List (Str × List Str) → List (Str × List Str)
with_globs id none m = m
with_globs id (some globs) m = (id, globs) ∷ m

unfoldable read_modes : Table → Result Str ModeCatalog
unfolding read_mode
read_modes no_entries = ok (record { modes = []; mcp_tools = [] })
read_modes (entry id v t) = do
  r ← read_mode id v
  m ← read_modes t
  ok (record { modes = (id, r.0) ∷ m.modes; mcp_tools = with_globs id r.1 m.mcp_tools })

unfoldable modes_at : Option Toml → Result Str ModeCatalog
unfolding read_modes
modes_at none = ok (record { modes = []; mcp_tools = [] })
modes_at (some (toml_table t)) = read_modes t
modes_at (some v) = err (text "modes.toml: `modes` must be a table")

abbrev some_mode : ModeCatalog → Result Str ModeCatalog
some_mode m = if is_empty m.modes then err (text "modes.toml defines no modes") else ok m

abbrev parsed : Result Str Table → Result Str Table
parsed (ok t) = ok t
parsed (err e) = err (text "modes.toml: " ++ e)

-- Reads the mode ids and tool lists of a `.ez/modes.toml`.
unfoldable pub from_modes_toml : (Str → Result Str Table) → Str → Result Str ModeCatalog
unfolding modes_at entry_at
from_modes_toml from_str src = do
  table ← parsed (from_str src)
  m ← modes_at (entry_at (text "modes") table)
  some_mode m
