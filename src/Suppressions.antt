-- ===== src/Suppressions.antt =====
-- src/quantumguard/suppression.py: the suppressions of a repository, and which findings they
-- silence. What the file system, the calendar and `fnmatch` answer are parameters.
pub mod Inline
pub mod Reasons
pub mod Applied
pub mod Configured
use pqcensus.Base.{
  ℕ, zero, suc, ◌-◌, Bool, true, false, ◌&&◌, ◌||◌, not, ◌++◌, Option, none, some, List, [], ◌∷◌,
  Text, text, upper, strip, non_empty, decimal, first, ltb, leb, contains, get_elem?, length,
  nat_eq, list_eq, if◌then◌else◌, ◌>>=◌,
}
use mathlib.Core.List.{get_last?}
use pqcensus.Base.Json.{
  Json, null, string, object, array, Items, no_items, item, Fields, get_field, truthy,
}
use pqcensus.Base.Sort.{sorted, nat_ord, list_ord}
use pqcensus.Model.{Finding, Suppression, Status}
use Inline.{InlineMatch, inline_search}

-- What quantumguard.toml is: not a file, unreadable with an error, or a table.
pub data ConfigFile : Type 0 where
  absent : ConfigFile
  broken : Text → ConfigFile
  parsed : Fields → ConfigFile

pub record Outside : Type 0 where
  -- The ordinal of `dt.date.fromisoformat`, or `none` for its `ValueError`, and that of today.
  pub fromisoformat : Text → Option ℕ
  pub today : ℕ
  -- `fnmatch.fnmatch(name, pattern)`
  pub fnmatch : Text → Text → Bool
  -- The lines of a file under the root; `none` if it is no file, a link, or cannot be read.
  pub lines_of : Text → Option (List Text)
  pub config : ConfigFile
  -- `str` of a value that is no string.
  pub to_text : Json → Text

-- An entry of `parser_errors`.
pub record ParserError : Type 0 where
  pub path : Text
  pub error : Text

-- An entry of the audit log.
pub record LogEntry : Type 0 where
  pub finding_id : Text
  pub suppression : Suppression

-- `x or None`
or_none : Text → Option Text
or_none [] = none
or_none (c ∷ t) = some (c ∷ t)

module _ (o : Outside) where
  not_expired : Option Text → Bool
  not_expired none = true
  not_expired (some []) = true
  not_expired (some (c ∷ t)) = elim (o.fromisoformat (c ∷ t)) [
    | none ↦ false
    | some day ↦ leb o.today day
  ]

  -- `Suppression.active`
  unfoldable pub active : Suppression → Bool
  unfolding not_expired
  active s = not_expired s.expires

  unfoldable pub path_fits : Option Text → Text → Bool
  path_fits none source_path = true
  path_fits (some []) source_path = true
  path_fits (some (c ∷ t)) source_path = o.fnmatch source_path (c ∷ t)

  -- `Suppression.matches`
  unfoldable pub matches : Suppression → Finding → Bool
  unfolding contains upper path_fits
  matches s f =
      active s
      && contains (text "ALL" ∷ upper f.rule_id ∷ []) (upper s.rule_id)
      && path_fits s.path f.source_path

  -- `str(value or "")`, of a value that may be missing.
  text_or_empty : Option Json → Text
  text_or_empty none = []
  text_or_empty (some (string t)) = t
  text_or_empty (some v) = if truthy v then o.to_text v else []

  -- `item.get("rule_id") or item.get("rule")`
  rule_or_alias : Option Json → Option Json → Option Json
  rule_or_alias none alias = alias
  rule_or_alias (some v) alias = if truthy v then some v else alias

  -- One turn of the loop of `load_config_suppressions`, of a table.
  unfoldable pub config_entry : Fields → Option Suppression
  unfolding text_or_empty rule_or_alias strip get_field or_none
  config_entry fs =
      let rule_id = strip (
        text_or_empty
          (rule_or_alias (get_field (text "rule_id") fs) (get_field (text "rule") fs))) in
      let reason = strip (text_or_empty (get_field (text "reason") fs)) in
      if not (non_empty rule_id) || not (non_empty reason)
      then none
      else some (record {
        rule_id = rule_id;
        reason = reason;
        source = text "quantumguard.toml";
        path = or_none (strip (text_or_empty (get_field (text "path") fs)));
        expires = or_none (strip (text_or_empty (get_field (text "expires") fs)));
      })

  unfoldable pub config_entries : Items → List Suppression
  config_entries no_items = []
  config_entries (item (object fs) items) =
      let rest = config_entries items in elim (config_entry fs) [ none ↦ rest | some s ↦ s ∷ rest ]
  config_entries (item v items) = config_entries items

  -- What the loop over `payload.get("suppressions", [])` comes to. A string and a table yield strings,
  -- which the loop skips; a value that cannot be iterated is a `TypeError`, which is `none`.
  unfoldable pub suppression_items : Option Json → Option Items
  suppression_items none = some no_items
  suppression_items (some (array items)) = some items
  suppression_items (some (string t)) = some no_items
  suppression_items (some (object fs)) = some no_items
  suppression_items (some _) = none

  unfoldable pub loaded : ConfigFile → Option (List Suppression × List ParserError)
  unfolding suppression_items config_entries get_field
  loaded absent = some ([], [])
  loaded (broken error) = some ([], record { path = text "quantumguard.toml"; error = error } ∷ [])
  loaded (parsed payload) = elim (suppression_items (get_field (text "suppressions") payload)) [
    | none ↦ none
    | some items ↦ some (config_entries items, [])
  ]

  -- `load_config_suppressions`, with what it appends to `parser_errors`; `none` if it raises.
  unfoldable pub load_config_suppressions : Option (List Suppression × List ParserError)
  unfolding loaded
  load_config_suppressions = loaded o.config

  -- The sorted set of the finding's line and the one above it, but at least 1.
  unfoldable pub candidate_lines : ℕ → List ℕ
  candidate_lines zero = 0 ∷ 1 ∷ []
  candidate_lines (suc zero) = 1 ∷ []
  candidate_lines (suc (suc n)) = suc n ∷ suc (suc n) ∷ []

  -- The suppression that a line's marker makes.
  unfoldable pub marked : Text → ℕ → InlineMatch → Suppression
  unfolding upper strip decimal
  marked source_path line m = record {
    rule_id = upper m.rule;
    reason = strip m.reason;
    source = source_path ++ (text ":" ++ decimal line);
    path = none;
    expires = m.expires;
  }

  -- `lines[line_number - 1]`, or `none` past the end. Line 0, which no analyzer makes, is the last
  -- line, or `none` where there is none.
  unfoldable pub line_at : List Text → ℕ → Option Text
  line_at lines zero = get_last? lines
  line_at lines (suc n) = get_elem? lines n

  -- The suppression of one line, if it matches.
  unfoldable pub line_suppression : Finding → List Text → ℕ → Option Suppression
  unfolding inline_search marked line_at
  line_suppression f lines line = do
    content ← line_at lines line
    m ← inline_search content
    if matches (marked f.source_path line m) f then some (marked f.source_path line m) else none

  unfoldable pub first_line : Finding → List Text → List ℕ → Option Suppression
  first_line f lines [] = none
  first_line f lines (n ∷ ns) =
      let rest = first_line f lines ns in
      elim (line_suppression f lines n) [ some s ↦ some s | none ↦ rest ]

  unfoldable pub inline_suppression : Finding → Option Suppression
  unfolding first_line candidate_lines
  inline_suppression f = do
    lines ← o.lines_of f.source_path
    first_line f lines (candidate_lines f.span.start_line)

  -- The variable `matched` of the loop.
  unfoldable pub matched : List Suppression → Finding → Option Suppression
  unfolding first
  matched configured f = elim (inline_suppression f) [
    | some s ↦ some s
    | none ↦ first (λ s. matches s f) configured
  ]

  unfoldable pub suppress : Finding → Suppression → Finding
  suppress f s = record f { status = Status.suppressed; suppression = some s }

  -- The loop of `apply_suppressions`: the findings as it leaves them, and the log.
  unfoldable pub apply_loop : List Suppression → List Finding → List Finding × List LogEntry
  unfolding suppress
  apply_loop configured [] = ([], [])
  apply_loop configured (f ∷ fs) =
      let (rest, log) = apply_loop configured fs in
      elim (matched configured f) [
        | none ↦ (f ∷ rest, log)
        | some s ↦
            (suppress f s ∷ rest, record { finding_id = f.finding_id; suppression = s } ∷ log)
      ]

  -- The part of `apply_suppressions` behind `load_config_suppressions`.
  unfoldable pub apply_configured :
      List Finding
      → List Suppression × List ParserError
      → List Finding × List LogEntry × List ParserError
  unfolding apply_loop sorted
  apply_configured findings config =
      let (changed, log) = apply_loop config.0 findings in
      (changed, sorted (λ e. e.finding_id) log, config.1)

  -- `apply_suppressions`: the findings, the sorted log, and the parser errors that it appends; `none`
  -- if it raises.
  unfoldable pub apply_suppressions :
      List Finding → Option (List Finding × List LogEntry × List ParserError)
  unfolding apply_configured load_config_suppressions
  apply_suppressions findings = elim load_config_suppressions [
    | none ↦ none
    | some config ↦ some (apply_configured findings config)
  ]
