-- ===== src/Audit/Default/Outcome.antt =====
-- What `audit` of src/quantumguard/api.py comes to.
use pqcensus.Base.{List, Text}
use pqcensus.Model.{Finding}
use pqcensus.Policy.{Rule}
use pqcensus.Suppressions.{LogEntry, ParserError}
use pqcensus.Audit.Default.{Tools}

module _ (tools : Tools) (rules : List Rule) (version : Text) where
  abbrev Kept : Type 0
  Kept = List Finding × List LogEntry × List ParserError
