-- ===== src/Lib.antt =====
-- PQCensus: the static analysis that takes inventory of a repository's cryptography and plans its
-- migration to post-quantum algorithms (src/quantumguard of the repository).
--
-- An audit reads files, runs analyzers over them, removes duplicates among the findings, assesses
-- each in a context of risk, applies suppressions, and derives assets, migration plans, a score of
-- crypto agility and a statement on harvest-now-decrypt-later from what is left. The commands of the
-- command line compare findings with a baseline and turn them into an exit status and documents.
--
-- Which file models which part:
--   Base           texts as lists of code points with the operations of `str`, lists, `sorted`,
--                  `dict` in insertion order, integers, parsed JSON and TOML
--   Model          src/quantumguard/models.py: the enumerations and records
--   Util           src/quantumguard/util.py: severities, algorithm names, paths, and the walk over files
--   Policy         src/quantumguard/policy.py and rules/quantumguard-rules.json
--   Risk           src/quantumguard/risk.py: `assess_finding`
--   Migration      src/quantumguard/migration/engine.py: the migration plans
--   Hndl           src/quantumguard/hndl.py: `assess_hndl`
--   Suppressions   src/quantumguard/suppression.py, its regular expression included
--   Audit          src/quantumguard/api.py: from the analyzers' findings to those of an audit, and its
--                  assets; `Audit/Complete` is the part of `audit` behind the loop over the files;
--                  `Audit/Default` is `audit` whole, with the analyzers that the program brings
--   Analyzers      src/quantumguard/analyzers: config.py, textual.py, and python.py from the nodes that
--                  `ast.walk` yields on, each node with its chain of parents
--   Serialized     the `to_dict` methods of src/quantumguard/models.py, as values of `Json`
--   Reporting      src/quantumguard/reporting.py: the documents
--   Agility        src/quantumguard/agility.py: the score of crypto agility
--   Dependencies   src/quantumguard/dependencies.py: what is found, go.mod and
--                  conanfile.txt
--   Cli            src/quantumguard/cli.py: baselines, `explain`, the commands with the documents that
--                  they write, and the exit status
--   Scripts        scripts/run_quantumguardbench.py: counts, metrics and the test of SARIF documents
--   Tests          the theorems at concrete inputs, and runs of the definitions
--
-- A function of the source has a definition of its name; loops over lists are recursions on the list,
-- so no fuel is needed; an object that is changed in place is returned with its new fields. A field
-- that only ever holds one of a few strings has a data type, with a function that gives the string.
--
-- What raises is a value: an Option, or the result `raised` of `audit`. Modelled are the errors of the
-- arguments, the IndexError of the Python analyzer, the error of encoding where a lone surrogate reaches
-- `stable_id` or the identifier of an asset, and the TypeError of suppressions that are no list; that a parser of
-- configurations or the discovery of dependencies raises is part of their parameters. `stable_id` itself is
-- defined for every text, and what calls it tests for surrogates; scanned files have none, since they are
-- decoded as UTF-8. The documents are those of results whose texts can be encoded.
--
-- Not in the source, and parameters here: `sha256`, `uuid5`, the calendar (`dt.date`), `fnmatch`, the file
-- system, `repr`, `str.isalnum` beyond ASCII, the writer of JSON, the parsers of JSON and TOML, and
-- `ast.parse` with `ast.walk`. The order of the walk is not assumed. Letters change case as in ASCII; `\d`
-- is an ASCII digit. Line numbers and columns are natural numbers, and the quotients of the
-- benchmark, floats in the source, are exact fractions.
--
-- Not modelled: the parsers of the other manifests, argument parsing, the text on the console,
-- the TLS handshake, the runtime checks of `doctor`, the scripts for releases, the loop of the
-- benchmark over its cases, and the copies of other projects under benchmarks/corpus.
pub mod Agility
pub mod Analyzers
pub mod Audit
pub mod Base
pub mod Cli
pub mod Dependencies
pub mod Hndl
pub mod Migration
pub mod Model
pub mod Policy
pub mod Reporting
pub mod Risk
pub mod Scripts
pub mod Serialized
pub mod Suppressions
mod Tests
pub mod Util
