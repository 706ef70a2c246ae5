-- ===== src/Validation/Report.antt =====
-- What a validator reports after any sequence of `Append` calls.
use go_git_providers.Prelude.{
  ◌≡◌, refl, ap, ◌∙◌, false, ◌||◌, Bool, Option, none, some, List, [], ◌∷◌, ◌++◌, append_assoc,
  append-nil, Str, arith,
}
use go_git_providers.Errors.{Sentinel, Err, errors_is, errors_is_any, is_error, the}
use go_git_providers.Validation.{
  Validator, new, report, append, filter_errs, to_errs, aggregate, error,
}

-- One call of `Append`: the error, the value and the path.
abbrev pub Entry : Type 0
Entry = Option Err × Option Str × List Str

unfoldable pub append_all : Validator → List Entry → Validator
append_all v [] = v
append_all v ((e, value, path) ∷ es) = append_all (append v e value path) es

-- The errors that are to be reported, in the order of the calls.
unfoldable pub reports : Str → List Entry → List Err
reports name [] = []
reports name ((none, value, path) ∷ es) = reports name es
reports name ((some e, value, path) ∷ es) = report name e value path ∷ reports name es

filter_errs-append :
    (xs : List (Option Err)) (e : Err) → filter_errs (xs ++ some e ∷ []) ≡ filter_errs xs ++ e ∷ []
unfolding filter_errs
filter_errs-append [] e = refl
filter_errs-append (none ∷ xs) e = filter_errs-append xs e
filter_errs-append (some x ∷ xs) e = ap (λ l. x ∷ l) (filter_errs-append xs e)

filter_errs-append_all :
    (v : Validator) (es : List Entry)
    → filter_errs (append_all v es).errs ≡ filter_errs v.errs ++ reports v.name es
unfolding append_all reports append
filter_errs-append_all v [] = rw append-nil
filter_errs-append_all v ((none, value, path) ∷ es) = filter_errs-append_all v es
filter_errs-append_all v ((some e, value, path) ∷ es) =
    filter_errs-append_all (append v (some e) value path) es ∙ rw (filter_errs-append, append_assoc)

-- The validator returns nil if no error was appended, the one error if there was one, and
-- otherwise a `MultiError` with all of them in order.
pub error-append_all :
    (name : Str) (es : List Entry) → error (append_all (new name) es) ≡ aggregate (reports name es)
unfolding error new
error-append_all name es = ap aggregate (filter_errs-append_all (new name) es)

-- Whether some entry's error answers to the sentinel.
unfoldable pub any_is : List Entry → Sentinel → Bool
any_is [] s = false
any_is ((none, value, path) ∷ es) s = any_is es s
any_is ((some e, value, path) ∷ es) s = is_error e s || any_is es s

abbrev pub holds_sentinel : Option Err → Sentinel → Bool
holds_sentinel none s = false
holds_sentinel (some e) s = is_error e s

errors_is_any-to_errs :
    (name : Str) (es : List Entry) (s : Sentinel)
    → errors_is_any (to_errs (reports name es)) (the s) ≡ any_is es s
unfolding errors_is reports any_is to_errs report
errors_is_any-to_errs name [] s = refl
errors_is_any-to_errs name ((none, value, path) ∷ es) s = errors_is_any-to_errs name es s
errors_is_any-to_errs name ((some e, value, path) ∷ es) s =
    rw (errors_is_any-to_errs name es s) refl

holds_sentinel-aggregate :
    (es : List Err) (s : Sentinel)
    → holds_sentinel (aggregate es) s ≡ errors_is_any (to_errs es) (the s)
unfolding aggregate errors_is
holds_sentinel-aggregate [] s = refl
holds_sentinel-aggregate (e ∷ []) s = ground arith
holds_sentinel-aggregate (e ∷ f ∷ es) s = refl

-- After any calls of `Append`, the validator's error answers to a sentinel under `errors.Is`
-- exactly when one of the appended errors does.
pub is_error-append_all :
    (name : Str) (es : List Entry) (s : Sentinel)
    → holds_sentinel (error (append_all (new name) es)) s ≡ any_is es s
is_error-append_all name es s =
    rw error-append_all (holds_sentinel-aggregate _ s ∙ errors_is_any-to_errs name es s)
