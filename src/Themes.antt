-- ===== src/Themes.antt =====
-- The choice of themes in `classify_theme_fallback` of app/batch/theme_classifier.py, over the scores
-- of the rules. A code is the list of its characters' numbers; an evidence key is a number.
pub mod Chosen
pub mod Choice
use stockapp.Prelude.{
  ℕ, suc, ◌+◌, ◌≡◌, Bool, true, false, not, ◌&&◌, ◌||◌, List, [], ◌∷◌, ◌++◌, ltb, leb, ◌==◌, length,
  any, select, if◌then◌else◌, Option, none, some, is_some, sort_by,
}

-- A rule of the catalog with its position and the parts of its ThemeScore that the choice reads.
pub record Candidate : Type 0 where
  pub index : ℕ
  pub code : List ℕ
  pub score : ℕ
  pub distinct_evidence_count : ℕ
  pub qualified : Bool
  pub evidence_keys : List ℕ

abbrev pub list_eq : List ℕ → List ℕ → Bool
list_eq [] [] = true
list_eq [] (y ∷ ys) = false
list_eq (x ∷ xs) [] = false
list_eq (x ∷ xs) (y ∷ ys) = (x == y) && list_eq xs ys

-- text.startswith(prefix)
abbrev pub starts_with : List ℕ → List ℕ → Bool
starts_with text [] = true
starts_with [] (p ∷ ps) = false
starts_with (t ∷ ts) (p ∷ ps) = (t == p) && starts_with ts ps

-- max(parents, key=len), the first of the longest.
unfoldable pub longest : List ℕ → List (List ℕ) → List ℕ
longest best [] = best
longest best (p ∷ parents) = longest (if ltb (length best) (length p) then p else best) parents

unfoldable pub longest_of : List (List ℕ) → Option (List ℕ)
unfolding longest
longest_of [] = none
longest_of (p ∷ parents) = some (longest p parents)

-- The underscore is character 95.
unfoldable pub sibling_parent : List (List ℕ) → List ℕ → Option (List ℕ)
unfolding longest_of
sibling_parent canonical_parent_codes code =
    longest_of (select (λ parent. starts_with code (parent ++ 95 ∷ [])) canonical_parent_codes)

abbrev pub same_parent : Option (List ℕ) → Option (List ℕ) → Bool
same_parent none other = false
same_parent (some p) none = false
same_parent (some p) (some q) = list_eq p q

-- A candidate under the same parent rests on the same evidence.
unfoldable pub repeats : List (List ℕ) → Candidate → Candidate → Bool
unfolding sibling_parent
repeats canonical_parent_codes c existing =
    same_parent (sibling_parent canonical_parent_codes c.code)
      (sibling_parent canonical_parent_codes existing.code)
    && list_eq c.evidence_keys existing.evidence_keys

-- By falling score, falling evidence count and catalog position, which no two candidates share.
abbrev pub ranks_up : Candidate → Candidate → Bool
ranks_up a b =
    ltb b.score a.score
    || ((a.score == b.score)
        && (ltb b.distinct_evidence_count a.distinct_evidence_count
            || ((a.distinct_evidence_count == b.distinct_evidence_count) && leb a.index b.index)))

-- The loop over the sorted candidates.
unfoldable pub choose : List (List ℕ) → List Candidate → List Candidate → List Candidate
unfolding repeats
choose parents selected [] = selected
choose parents selected (c ∷ candidates) =
    let skipped = choose parents selected candidates in
    let chosen = selected ++ c ∷ [] in
    let more = choose parents chosen candidates in
    if any (repeats parents c) selected
    then skipped
    else if length chosen == 3
    then chosen
    else more

pub record ThemeAssignment : Type 0 where
  pub theme_code : List ℕ
  pub rank : ℕ

-- enumerate(selected, start=rank)
unfoldable pub assign : ℕ → List Candidate → List ThemeAssignment
assign rank [] = []
assign rank (c ∷ selected) =
    record { theme_code = c.code; rank = rank } ∷ assign (suc rank) selected

unfoldable pub selected_candidates : List (List ℕ) → List Candidate → List Candidate
unfolding choose
selected_candidates parents scored =
    choose parents [] (sort_by ranks_up (select (λ (c : Candidate). c.qualified) scored))

unfoldable pub classify_theme_fallback : List (List ℕ) → List Candidate → List ThemeAssignment
unfolding selected_candidates assign
classify_theme_fallback parents scored = assign 1 (selected_candidates parents scored)
