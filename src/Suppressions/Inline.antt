-- ===== src/Suppressions/Inline.antt =====
-- The regular expression `_INLINE` of src/quantumguard/suppression.py, as the functions that match
-- its parts. Letters match in both cases. Each part but the reason has one way to match, since a
-- part never begins with a character that the part before it could take too.
use pqcensus.Base.{
  ℕ, Bool, take, lower_char, ◌>>=◌, true, false, ◌||◌, not, ◌≡◌, refl, ◌++◌, Option, none, some, [],
  ◌∷◌, Text, text, nat_beq, is_space, is_digit, is_lower, is_upper, if◌then◌else◌,
}

-- What is left after a literal that is written in lower case.
literal : Text → Text → Option Text
literal [] t = some t
literal (p ∷ ps) [] = none
literal (p ∷ ps) (c ∷ t) =
    let rest = literal ps t in if nat_beq p (lower_char c) then rest else none

-- `\s*`
spaces : Text → Text
spaces [] = []
spaces (c ∷ t) = let rest = spaces t in if is_space c then rest else c ∷ t

-- `\s+`
spaces_one : Text → Option Text
unfolding spaces
spaces_one [] = none
spaces_one (c ∷ t) = if is_space c then some (spaces t) else none

-- `[A-Z0-9-]`, in both cases.
is_rule_char : ℕ → Bool
is_rule_char c = is_lower c || is_upper c || is_digit c || nat_beq c b'-'

-- The longest run of such characters, and what is left.
rule_run : Text → Text × Text
unfolding is_rule_char
rule_run [] = ([], [])
rule_run (c ∷ t) =
    let (run, rest) = rule_run t in if is_rule_char c then (c ∷ run, rest) else ([], c ∷ t)

-- `QG-[A-Z0-9-]+`
rule_match : Text → Option (Text × Text)
unfolding literal rule_run
rule_match t = elim (literal (text "qg-") t) [
  | none ↦ none
  | some after ↦
      let (run, rest) = rule_run after in
      elim run [ [] ↦ none | c ∷ cs ↦ some (take 3 t ++ (c ∷ cs), rest) ]
]

-- `\d` as many times as the text has characters `d`, and the other characters literally.
shape : Text → Text → Option (Text × Text)
unfolding is_digit
shape [] t = some ([], t)
shape (p ∷ ps) [] = none
shape (p ∷ ps) (c ∷ t) =
    if (if nat_beq p b'd' then is_digit c else nat_beq p c)
    then elim (shape ps t) [ none ↦ none | some r ↦ some (c ∷ r.0, r.1) ]
    else none

-- `\s*$`
at_end : Text → Bool
unfolding spaces
at_end t = elim (spaces t) [ [] ↦ true | c ∷ r ↦ false ]

-- `\s+expires=(?P<expires>\d{4}-\d{2}-\d{2})` and then `\s*$`.
expires_match : Text → Option Text
unfolding spaces_one literal shape at_end
expires_match t = do
  after ← spaces_one t
  date ← literal (text "expires=") after
  r ← shape (text "dddd-dd-dd") date
  if at_end r.1 then some r.0 else none

-- The optional group and `\s*$`: the outer `none` is no match, the inner no date.
tail_match : Text → Option (Option Text)
unfolding expires_match at_end
tail_match t = elim (expires_match t) [
  | some date ↦ some (some date)
  | none ↦ if at_end t then some none else none
]

-- `[^;#]`
is_reason_char : ℕ → Bool
is_reason_char c = not (nat_beq c b';' || nat_beq c b'#')

-- `(?P<reason>[^;#]+?)`, the shortest run after which the rest matches: `reason` is what was taken.
reason_match : Text → Text → Option (Text × Option Text)
unfolding is_reason_char tail_match
reason_match reason [] = none
reason_match reason (c ∷ t) =
    let taken = reason ++ (c ∷ []) in
    let longer = reason_match taken t in
    if is_reason_char c
    then elim (tail_match t) [ some date ↦ some (taken, date) | none ↦ longer ]
    else none

pub record InlineMatch : Type 0 where
  pub rule : Text
  pub reason : Text
  pub expires : Option Text

-- A match at the beginning of a text.
match_here : Text → Option InlineMatch
unfolding literal spaces spaces_one rule_match reason_match
match_here t = do
  marker ← literal (text "quantumguard:") t
  ignored ← literal (text "ignore") (spaces marker)
  named ← spaces_one ignored
  rule ← rule_match named
  given ← spaces_one rule.1
  reason ← literal (text "reason=") given
  r ← reason_match [] reason
  some (record { rule = rule.0; reason = r.0; expires = r.1 })

-- `_INLINE.search(line)`: the first place where it matches.
unfoldable pub inline_search : Text → Option InlineMatch
unfolding match_here
inline_search [] = none
inline_search (c ∷ t) =
    let rest = inline_search t in elim (match_here (c ∷ t)) [ some m ↦ some m | none ↦ rest ]

marker_test :
    inline_search
      (text "x = 1  # QuantumGuard: ignore qg-RSA-1 reason=old vector expires=2027-01-01 ")
    ≡ some (record {
      rule = text "qg-RSA-1";
      reason = text "old vector";
      expires = some (text "2027-01-01");
    })
unfolding inline_search lower_char is_space is_lower
marker_test = refl

-- A reason of white space alone matches.
blank_reason_test :
    inline_search (text "# quantumguard: ignore QG-A reason= ")
    ≡ some (record { rule = text "QG-A"; reason = text " "; expires = none })
unfolding inline_search lower_char is_space is_lower
blank_reason_test = refl

no_reason_test : inline_search (text "# quantumguard: ignore QG-A") ≡ none
unfolding inline_search lower_char is_space is_lower
no_reason_test = refl
