-- ===== src/Finalize/Summary.antt =====
-- The log summary of app/batch/diagnostics.py; the decimals of a number are an argument.
use Prim.Native.String.{◌++◌ as ◌<>◌}
use stockapp.Prelude.{
  ℕ, ◌+◌, String, Bool, Option, none, some, List, [], ◌∷◌, ◌++◌, ◌==◌, ltb, leb, ◌||◌, ◌&&◌, not,
  length, select, if◌then◌else◌, text_leb, sort_by,
}
use stockapp.Outcome.{BatchExecutionContext, Tally, is_text}

-- key=lambda item: (-item[1], item[0])
abbrev more_often : String × ℕ → String × ℕ → Bool
more_often a b = ltb b.1 a.1 || (a.1 == b.1 && text_leb a.0 b.0)

abbrev positive_counts : Tally → Tally
positive_counts counts = select (λ (k : String × ℕ). ltb 0 k.1) counts

-- counts, unless it is empty
abbrev or_uncategorized : Tally → ℕ → Tally
or_uncategorized [] residual = ("UNCATEGORIZED", residual) ∷ []
or_uncategorized (k ∷ counts) residual = k ∷ counts

abbrev listed : Option String → List String
listed none = []
listed (some line) = line ∷ []

-- sep.join(parts)
unfoldable join_with : String → List String → String
join_with sep [] = ""
join_with sep (m ∷ []) = m
join_with sep (m ∷ n ∷ messages) = m <> (sep <> join_with sep (n ∷ messages))

-- text or None
abbrev or_none : String → Option String
or_none text = if is_text (some text) then some text else none

module _ (decimal : ℕ → String) where
  unfoldable entries : Tally → List String
  entries [] = []
  entries ((category, count) ∷ counts) = (category <> (" x" <> decimal count)) ∷ entries counts

  abbrev body : Tally → String
  body counts = join_with ", " (entries (sort_by more_often counts))

  abbrev residual_of : BatchExecutionContext → ℕ
  residual_of c = length c.partial_reasons + length c.warning_messages + c.fallback_count

  abbrev diagnostic_line : Tally → Option String
  diagnostic_line counts = some ("PARTIAL diagnostics: " <> (body counts <> "."))

  abbrev diagnostics_of : BatchExecutionContext → Tally → Option String
  diagnostics_of c [] =
      let residual = residual_of c in
      if residual == 0 && not (is_text c.partial_message)
      then none
      else diagnostic_line (("UNCATEGORIZED", if residual == 0 then 1 else residual) ∷ [])
  diagnostics_of c (k ∷ counts) = diagnostic_line (k ∷ counts)

  abbrev build_diagnostic_log_line : BatchExecutionContext → Option String
  build_diagnostic_log_line c = diagnostics_of c (positive_counts c.partial_categories)

  abbrev build_detail_analysis_degradation_log_line : BatchExecutionContext → Option String
  build_detail_analysis_degradation_log_line c =
      let n = c.ai_detail_analysis_degraded_count in
      let counts = or_uncategorized (positive_counts c.detail_analysis_issue_counts) n in
      if n == 0
      then none
      else some (
          "AI_DETAIL_ANALYSIS_DEGRADED: "
          <> (decimal n
              <> (" cluster detail analysis row(s) persisted degraded (" <> (body counts <> ")."))))

  abbrev build_attempt_log_line : BatchExecutionContext → Option String
  build_attempt_log_line c =
      let retries = " after " <> (decimal c.llm_retry_count <> " transient LLM retry(s)") in
      if leb c.attempt_count 1
      then none
      else some (
          "Job ran on attempt "
          <> (decimal c.attempt_count
              <> ((if ltb 0 c.llm_retry_count then retries else "") <> ".")))

  unfoldable pub build_log_summary : BatchExecutionContext → Option String
  unfolding join_with entries
  build_log_summary c = or_none (
      join_with " " (
        c.log_messages
        ++ (listed (build_attempt_log_line c)
            ++ (listed (build_diagnostic_log_line c)
                ++ listed (build_detail_analysis_degradation_log_line c)))))
