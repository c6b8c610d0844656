-- ===== src/Rules/FirstError.antt =====
-- internal/rules/rule.go: `RunAll`, which keeps the findings of all rules but only the first error,
-- and passes a panic on (`none`).
use kubepreflight.Base.{
  ◌≡◌, ◌↔◌, refl, String, Bool, true, false, ◌&&◌, Option, none, some, List, [], ◌∷◌, ◌++◌, All,
  All-append, arith, subst,
}
use kubepreflight.Findings.Finding.{Finding}
use kubepreflight.Rules.Registry.{
  Evaluation, returned, panicked, RuleError, evaluate_error, is_nil, keep_valid, errors_from, Rule,
}
use kubepreflight.Rules.Executions.{IsValid, keep_valid-IsValid}

-- The error that is kept, with the ID of its rule.
abbrev pub FirstError : Type 0
FirstError = Option (String × RuleError)

-- An error is kept only if there is none before it.
unfoldable pub keep_first : FirstError → String → List RuleError → FirstError
keep_first (some e) rule_id errs = some e
keep_first none rule_id [] = none
keep_first none rule_id (e ∷ errs) = some (rule_id, e)

abbrev pub returned_errors : Option String → List RuleError
returned_errors none = []
returned_errors (some e) = evaluate_error e ∷ []

-- The rest of the loop gave its findings and the error that is kept in the end.
abbrev pub with_findings :
    List Finding → Option (List Finding × FirstError) → Option (List Finding × FirstError)
with_findings fs none = none
with_findings fs (some (all, first)) = some (fs ++ all, first)

module _ {S : Type 0} (sc : S) (target_version : String) where
  -- The body of the loop; `rest` is the rest of the loop, from the error kept so far.
  unfoldable pub run_next :
      FirstError
      → String
      → Evaluation
      → (FirstError → Option (List Finding × FirstError))
      → Option (List Finding × FirstError)
  unfolding keep_first
  run_next first rule_id (panicked e) rest = none
  run_next first rule_id (returned fs err) rest = with_findings (keep_valid fs) (
      rest (keep_first (keep_first first rule_id (returned_errors err)) rule_id (errors_from 0 fs)))

  unfoldable pub run_rules : FirstError → List (Rule S) → Option (List Finding × FirstError)
  unfolding run_next
  run_rules first [] = some ([], first)
  run_rules first (rule ∷ rules) =
      run_next first rule.id (rule.evaluate sc target_version) (λ f. run_rules f rules)

  unfoldable pub run_all : List (Rule S) → Option (List Finding × FirstError)
  unfolding run_rules
  run_all rules = run_rules none rules

  -- A rule returned, without an error, findings that are all valid.
  abbrev pub clean_evaluation : Evaluation → Bool
  clean_evaluation (panicked e) = false
  clean_evaluation (returned fs (some e)) = false
  clean_evaluation (returned fs none) = is_nil (errors_from 0 fs)

  abbrev pub all_clean : List (Rule S) → Bool
  all_clean [] = true
  all_clean (rule ∷ rules) = clean_evaluation (rule.evaluate sc target_version) && all_clean rules

  abbrev no_error : FirstError → Bool
  no_error none = true
  no_error (some e) = false

  no_error-keep_first :
      (first : FirstError) (rule_id : String) (errs : List RuleError)
      → no_error (keep_first first rule_id errs) ≡ (no_error first && is_nil errs)
  unfolding keep_first
  no_error-keep_first (some e) rule_id errs = refl
  no_error-keep_first none rule_id [] = refl
  no_error-keep_first none rule_id (e ∷ errs) = refl

  -- What a loop over rules that are clean as `c` says gives, if no rule panics.
  abbrev Gives : FirstError → Bool → Option (List Finding × FirstError) → Type 0
  Gives first c none = Unit
  Gives first c (some (fs, e)) = All IsValid fs × (no_error e ≡ (no_error first && c))

  with_findings_lem :
      (fs : List Finding) (first f : FirstError) (c0 c : Bool)
      (o : Option (List Finding × FirstError))
      → All IsValid fs
      → no_error f ≡ (no_error first && c0)
      → Gives f c o
      → Gives first (c0 && c) (with_findings fs o)
  with_findings_lem fs first f c0 c none v h g = tt
  with_findings_lem fs first f c0 c (some (all, e)) v h (w, k) =
      (All-append IsValid fs all v w, ground arith)

  kept_errors :
      (first : FirstError) (rule_id : String) (fs : List Finding) (err : Option String)
      → no_error
          (keep_first (keep_first first rule_id (returned_errors err)) rule_id (errors_from 0 fs))
        ≡ (no_error first && clean_evaluation (returned fs err))
  kept_errors first rule_id fs none = ground (
    arith,
    no_error-keep_first first rule_id [],
    no_error-keep_first (keep_first first rule_id []) rule_id (errors_from 0 fs),
  )
  kept_errors first rule_id fs (some e) = ground (
    arith,
    no_error-keep_first first rule_id (evaluate_error e ∷ []),
    no_error-keep_first (keep_first first rule_id (evaluate_error e ∷ [])) rule_id
        (errors_from 0 fs),
  )

  run_next_lem :
      (first : FirstError) (rule_id : String) (v : Evaluation) (c : Bool)
      (rest : FirstError → Option (List Finding × FirstError))
      → ((f : FirstError) → Gives f c (rest f))
      → Gives first (clean_evaluation v && c) (run_next first rule_id v rest)
  unfolding run_next
  run_next_lem first rule_id (panicked e) c rest ih = tt
  run_next_lem first rule_id (returned fs err) c rest ih =
      let f =
        keep_first (keep_first first rule_id (returned_errors err)) rule_id (errors_from 0 fs) in
      with_findings_lem (keep_valid fs) first f (clean_evaluation (returned fs err)) c (rest f)
        (keep_valid-IsValid fs) (kept_errors first rule_id fs err) (ih f)

  run_rules_lem :
      (rules : List (Rule S)) (first : FirstError)
      → Gives first (all_clean rules) (run_rules first rules)
  unfolding run_rules
  run_rules_lem [] first = (tt, ground arith)
  run_rules_lem (rule ∷ rules) first =
      run_next_lem first rule.id (rule.evaluate sc target_version) (all_clean rules)
        (λ f. run_rules f rules) (λ f. run_rules_lem rules f)

  -- If no rule panics, so that `RunAll` returns, then every finding that it returns is valid, and it
  -- returns no error exactly if every rule returned without one and with valid findings alone.
  pub run_all-IsValid :
      (rules : List (Rule S)) (fs : List Finding) (e : FirstError)
      → run_all rules ≡ some (fs, e)
      → All IsValid fs × ((e ≡ none) ↔ (all_clean rules ≡ true))
  unfolding run_all
  run_all-IsValid rules fs e h =
      let (v, k) = subst (Gives none (all_clean rules)) h (run_rules_lem rules none) in
      (v, ground arith)
