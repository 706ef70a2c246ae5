-- ===== src/Validation.antt =====
-- validation/validation.go: the validator collects the errors of an object and returns their
-- aggregate. `fmt.Errorf` keeps its arguments: the field path, and the text of the value.
pub mod Report
use go_git_providers.Prelude.{String, Option, none, some, List, [], ◌∷◌, ◌++◌, Str, codes}
use go_git_providers.Strings.{join}
use go_git_providers.Errors.{
  Err, Errs, sentinel, wrap, multi, nil, cons, field_required, field_invalid,
}

-- `validator`; an element `none` of `errs` is a nil error.
pub record Validator : Type 0 where
  pub name : Str
  pub errs : List (Option Err)

-- `New`
unfoldable pub new : Str → Validator
new name = record { name = name; errs = [] }

-- ` (value: %v)`, or nothing for a nil value
abbrev value_text : Option Str → Str
value_text none = []
value_text (some v) = codes " (value: " ++ (v ++ codes ")")

-- The error that `Append` registers.
unfoldable pub report : Str → Err → Option Str → List Str → Err
unfolding join
report name e value field_paths =
    wrap "validation error for %s%s: %w"
      (join (name ∷ field_paths) (codes ".") ∷ value_text value ∷ []) e

-- `(*validator).Append`
unfoldable pub append : Validator → Option Err → Option Str → List Str → Validator
append v none value field_paths = v
append v (some e) value field_paths = record v {
  errs = v.errs ++ some (report v.name e value field_paths) ∷ [];
}

-- `(*validator).Required`
unfoldable pub required : Validator → List Str → Validator
unfolding append
required v field_paths = append v (some (sentinel field_required)) none field_paths

-- `(*validator).Invalid`
unfoldable pub invalid : Validator → Option Str → List Str → Validator
unfolding append
invalid v value field_paths = append v (some (sentinel field_invalid)) value field_paths

-- The loop that keeps the non-nil errors.
unfoldable pub filter_errs : List (Option Err) → List Err
filter_errs [] = []
filter_errs (none ∷ es) = filter_errs es
filter_errs (some e ∷ es) = e ∷ filter_errs es

-- A slice of errors as the field of a `MultiError`.
unfoldable pub to_errs : List Err → Errs
to_errs [] = nil
to_errs (e ∷ es) = cons e (to_errs es)

-- `switch` on the number of filtered errors
unfoldable pub aggregate : List Err → Option Err
unfolding to_errs
aggregate [] = none
aggregate (e ∷ []) = some e
aggregate (e ∷ f ∷ es) = some (multi (to_errs (e ∷ f ∷ es)))

-- `(*validator).Error`
unfoldable pub error : Validator → Option Err
unfolding aggregate filter_errs
error v = aggregate (filter_errs v.errs)

-- An object that validates its own fields: `ValidateTarget.ValidateFields`.
abbrev pub Target : Type 0
Target = Validator → Validator

unfoldable pub run_targets : Validator → List Target → Validator
run_targets v [] = v
run_targets v (t ∷ ts) = run_targets (t v) ts

-- `ValidateTargets`
unfoldable pub validate_targets : Str → List Target → Option Err
unfolding new run_targets error
validate_targets name targets = error (run_targets (new name) targets)
