-- ===== src/Outcome/Recording.antt =====
-- What the recording of diagnostics in app/batch/models.py keeps.
use stockapp.Prelude.{
  ℕ, suc, ◌+◌, ◌≤◌, ◌≡◌, refl, true, false, List, [], ◌∷◌, ◌++◌, arith, if◌then◌else◌, Bool-cases,
  inl, inr, Option, none, some, String, str_eq, eq_iff, length, length-append,
}
use stockapp.Outcome.{
  BatchExecutionContext, holds_message, is_new, append_new, count_category, add_partial,
}

str_eq_refl : (s : String) → str_eq s s ≡ true
str_eq_refl s = (eq_iff s s).1 refl

pub holds-append :
    (s : String) (messages : List String) → holds_message s (messages ++ s ∷ []) ≡ true
holds-append s [] = ground (arith, str_eq_refl s)
holds-append s (m ∷ messages) = ground (arith, holds-append s messages)

is_new-append_new :
    (s : Option String) (messages : List String) → is_new s (append_new s messages) ≡ false
is_new-append_new none messages = refl
is_new-append_new (some s) messages = elim (Bool-cases (holds_message s messages)) [
  | inl e ↦ rw (e, e) refl
  | inr e ↦ rw e (ground (arith, holds-append s messages))
]

append_new-again :
    (s : Option String) (messages : List String)
    → append_new s (append_new s messages) ≡ append_new s messages
append_new-again none messages = refl
append_new-again (some s) messages = elim (Bool-cases (holds_message s messages)) [
  | inl e ↦ rw (e, e) refl
  | inr e ↦ rw e (rw (holds-append s messages) refl)
]

-- Recording the same messages again, under any category, changes nothing: a step that runs again
-- after a resumption does not inflate the counters.
pub add_partial-again :
    (category again : String) (reason warning : Option String) (c : BatchExecutionContext)
    → add_partial again reason warning (add_partial category reason warning c)
      ≡ add_partial category reason warning c
unfolding add_partial
add_partial-again category again reason warning c =
    rw
      (
        append_new-again reason c.partial_reasons,
        append_new-again warning c.warning_messages,
        is_new-append_new reason c.partial_reasons,
        is_new-append_new warning c.warning_messages,
      )
      refl

abbrev pub total : List (String × ℕ) → ℕ
total [] = 0
total ((name, n) ∷ categories) = n + total categories

count_category-total :
    (category : String) (categories : List (String × ℕ))
    → total (count_category category categories) ≡ suc (total categories)
unfolding count_category
count_category-total category [] = omega arith
count_category-total category ((name, n) ∷ categories) = elim (Bool-cases (str_eq name category)) [
  | inl e ↦ rw e (omega arith)
  | inr e ↦ rw e (omega (arith, count_category-total category categories))
]

append_new-length :
    (s : Option String) (messages : List String)
    → length (append_new s messages) ≡ length messages + (if is_new s messages then 1 else 0)
append_new-length none messages = omega arith
append_new-length (some s) messages = elim (Bool-cases (holds_message s messages)) [
  | inl e ↦ rw e (omega arith)
  | inr e ↦ rw e (omega (arith, length-append messages (s ∷ [])))
]

-- The diagnostics that the steps of a run record, one after another.
abbrev pub Entry : Type 0
Entry = String × (Option String × Option String)

abbrev pub record_all : List Entry → BatchExecutionContext → BatchExecutionContext
record_all [] c = c
record_all ((category, (reason, warning)) ∷ entries) c =
    record_all entries (add_partial category reason warning c)

abbrev pub Counted : BatchExecutionContext → Type 0
Counted c =
    (total c.partial_categories ≤ length c.partial_reasons + length c.warning_messages)
    × (length c.partial_reasons + length c.warning_messages
        ≤ total c.partial_categories + total c.partial_categories)

add_partial-Counted :
    (category : String) (reason warning : Option String) (c : BatchExecutionContext)
    → Counted c
    → Counted (add_partial category reason warning c)
unfolding add_partial
add_partial-Counted category reason warning c k =
    let r = append_new-length reason c.partial_reasons in
    let w = append_new-length warning c.warning_messages in
    let t = count_category-total category c.partial_categories in
    elim (Bool-cases (is_new reason c.partial_reasons)) [
      | inl e ↦ ground (arith, e, r, w, t, k.0, k.1)
      | inr e ↦ ground (arith, e, r, w, t, k.0, k.1)
    ]

-- The category counts and the messages of a run go together: each count stands for one message or
-- for two, a reason with its warning, so that no message is recorded without a category.
pub record_all-Counted :
    (entries : List Entry) (c : BatchExecutionContext) → Counted c → Counted (record_all entries c)
record_all-Counted [] c k = k
record_all-Counted ((category, (reason, warning)) ∷ entries) c k =
    record_all-Counted entries (add_partial category reason warning c)
      (add_partial-Counted category reason warning c k)
