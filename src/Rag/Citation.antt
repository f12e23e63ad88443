-- ===== src/Rag/Citation.antt =====
-- The citation labels of rag/workflow.py: `_CITATION_LABEL`, `_is_citation_only` and
-- `_citation_validation_trace`. The pattern has a fixed length of 38 characters, so `findall` and
-- `sub` are scans that skip what a match has taken.
pub mod Valid
use sourcetrace.Prelude.{
  ℕ, zero, suc, ◌+◌, Bool, true, false, not, ◌&&◌, ◌||◌, Option, none, some, List, [], ◌∷◌, ◌++◌,
  map, ◌==◌, nat_eq, list_eq, leb, every, some_of, contains, length, take, drop, if◌then◌else◌,
}
use sourcetrace.Text.{Text, is_empty, strip, strip_by}
use sourcetrace.Rag.AnswerText.{split_answer_units}

-- `[0-9a-fA-F]`
unfoldable pub is_hex : ℕ → Bool
is_hex c = (leb b'0' c && leb c b'9') || (leb b'a' c && leb c b'f') || (leb b'A' c && leb c b'F')

abbrev pub hex_run : ℕ → List (ℕ → Bool)
hex_run zero = []
hex_run (suc n) = is_hex ∷ hex_run n

abbrev pub mark : ℕ → ℕ → Bool
mark a c = a == c

-- The 38 characters of `_CITATION_LABEL`, each as the test that it passes.
abbrev pub citation_pattern : List (ℕ → Bool)
citation_pattern =
    mark b'['
    ∷ (hex_run 8
        ++ (mark b'-'
            ∷ (hex_run 4
                ++ (mark b'-'
                    ∷ (hex_run 4
                        ++ (mark b'-'
                            ∷ (hex_run 4 ++ (mark b'-' ∷ (hex_run 12 ++ mark b']' ∷ [])))))))))

-- The text begins with characters that pass the tests.
unfoldable pub fits : List (ℕ → Bool) → Text → Bool
fits [] s = true
fits (p ∷ ps) [] = false
fits (p ∷ ps) (c ∷ s) = p c && fits ps s

unfoldable pub starts_label : Text → Bool
unfolding fits is_hex
starts_label s = fits citation_pattern s

-- `_CITATION_LABEL.findall`: the group leaves out the brackets. `skip` counts the characters that
-- the last match has still taken.
unfoldable pub find_labels_from : ℕ → Text → List Text
find_labels_from skip [] = []
find_labels_from (suc skip) (c ∷ s) = find_labels_from skip s
find_labels_from zero (c ∷ s) =
    let after = find_labels_from 37 s in
    let next = find_labels_from 0 s in if starts_label (c ∷ s) then take 36 s ∷ after else next

unfoldable pub find_labels : Text → List Text
unfolding find_labels_from starts_label
find_labels s = find_labels_from 0 s

-- `_CITATION_LABEL.sub("", s)`
unfoldable pub remove_labels_from : ℕ → Text → Text
remove_labels_from skip [] = []
remove_labels_from (suc skip) (c ∷ s) = remove_labels_from skip s
remove_labels_from zero (c ∷ s) =
    let after = remove_labels_from 37 s in
    let next = remove_labels_from 0 s in if starts_label (c ∷ s) then after else c ∷ next

unfoldable pub remove_labels : Text → Text
unfolding remove_labels_from starts_label
remove_labels s = remove_labels_from 0 s

-- The characters that may stand round the labels of a unit of citations.
abbrev pub separators : List ℕ
separators =
    b' ' ∷ 9 ∷ 13 ∷ 10 ∷ b'.' ∷ b',' ∷ b';' ∷ b':' ∷ b'!' ∷ b'?' ∷ 0x3002 ∷ 0xFF01 ∷ 0xFF1F ∷ 0xFF1B
    ∷ []

abbrev pub no_labels : List Text → Bool
no_labels [] = true
no_labels (l ∷ ls) = false

abbrev pub all_allowed : Option (List Text) → List Text → Bool
all_allowed none labels = true
all_allowed (some allowed) labels = every (contains allowed) labels

-- `_is_citation_only`
unfoldable pub is_citation_only : Text → Option (List Text) → Bool
unfolding find_labels remove_labels strip_by
is_citation_only unit allowed =
    if no_labels (find_labels unit) || not (all_allowed allowed (find_labels unit))
    then false
    else is_empty (strip_by (contains separators) (remove_labels unit))

pub data Attempt : Type 0 where
  initial repair : Attempt

pub data Issue : Type 0 where
  empty_answer uncited_claim unknown_label valid_answer : Issue

pub record CitationValidationTrace : Type 0 where
  pub attempt : Attempt
  pub valid : Bool
  pub issue : Issue
  pub unit_count : ℕ
  pub citation_count : ℕ
  pub uncited_unit_indices : List ℕ
  pub unknown_label_unit_indices : List ℕ

abbrev pub is_valid : Issue → Bool
is_valid valid_answer = true
is_valid _ = false

-- `if issue == "valid": issue = new`
abbrev pub or_issue : Issue → Issue → Issue
or_issue valid_answer new = new
or_issue old new = old

-- The local variables of the loop.
pub record Findings : Type 0 where
  pub issue : Issue
  pub citation_count : ℕ
  pub uncited : List ℕ
  pub unknown : List ℕ

abbrev pub follows : List Text → List Text → Bool
follows allowed [] = false
follows allowed (next ∷ units) = is_citation_only next (some allowed)

-- The body of the loop at one unit; `rest` is what comes after it.
unfoldable pub check_unit : List Text → ℕ → Text → List Text → Findings → Findings
check_unit allowed index unit rest f =
    let counted = record f { citation_count = f.citation_count + length (find_labels unit) } in
    if some_of (λ label. not (contains allowed label)) (find_labels unit)
    then record counted {
      unknown = f.unknown ++ index ∷ [];
      issue = or_issue f.issue unknown_label;
    }
    else if is_citation_only unit none
    then counted
    else if not (no_labels (find_labels unit))
    then counted
    else if not (follows allowed rest)
    then record counted {
      uncited = f.uncited ++ index ∷ [];
      issue = or_issue f.issue uncited_claim;
    }
    else counted

unfoldable pub check_units : List Text → ℕ → List Text → Findings → Findings
check_units allowed index [] f = f
check_units allowed index (unit ∷ units) f =
    check_units allowed (index + 1) units (check_unit allowed index unit units f)

abbrev pub no_findings : Findings
no_findings = record { issue = valid_answer; citation_count = 0; uncited = []; unknown = [] }

abbrev pub empty_trace : Attempt → CitationValidationTrace
empty_trace attempt = record {
  attempt = attempt;
  valid = false;
  issue = empty_answer;
  unit_count = 0;
  citation_count = 0;
  uncited_unit_indices = [];
  unknown_label_unit_indices = [];
}

abbrev pub trace_of : Attempt → List Text → Findings → CitationValidationTrace
trace_of attempt units f = record {
  attempt = attempt;
  valid = is_valid f.issue;
  issue = f.issue;
  unit_count = length units;
  citation_count = f.citation_count;
  uncited_unit_indices = f.uncited;
  unknown_label_unit_indices = f.unknown;
}

abbrev pub units_trace : List Text → Attempt → List Text → CitationValidationTrace
units_trace allowed attempt [] = empty_trace attempt
units_trace allowed attempt (unit ∷ units) =
    trace_of attempt (unit ∷ units) (check_units allowed 0 (unit ∷ units) no_findings)

-- `_citation_validation_trace`
unfoldable pub citation_validation_trace : Text → List Text → Attempt → CitationValidationTrace
unfolding check_units check_unit split_answer_units strip is_citation_only find_labels
citation_validation_trace answer allowed attempt =
    if is_empty (strip answer)
    then empty_trace attempt
    else units_trace allowed attempt (split_answer_units answer)
