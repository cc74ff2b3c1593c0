-- ===== src/Context/Restored.antt =====
-- A saved context that is read again, app/batch/models.py.
use stockapp.Prelude.{ℕ, ◌≡◌, refl, ap, ◌∙◌, Option, none, some, List, [], ◌∷◌, String}
use stockapp.Outcome.{BatchExecutionContext, Tally}
use stockapp.Context.Document.{Json, int, string, items_of, fields_of, of_option, as_count}
use stockapp.Context.{
  Resumption, to_checkpoint, from_checkpoint, from_fields, string_of, counts_of, strings_of,
  or_checkpoint,
}

strings_of-items_of : (strings : List String) → strings_of (items_of strings) ≡ strings
unfolding strings_of
strings_of-items_of [] = refl
strings_of-items_of (s ∷ strings) = ap (λ z. s ∷ z) (strings_of-items_of strings)

counts_of-fields_of : (counts : Tally) → counts_of (fields_of counts) ≡ counts
unfolding counts_of
counts_of-fields_of [] = refl
counts_of-fields_of ((name, n) ∷ counts) = ap (λ z. (name, n) ∷ z) (counts_of-fields_of counts)

count_of_option : (o : Option ℕ) → as_count (of_option int o) ≡ o
count_of_option none = refl
count_of_option (some n) = refl

string_of_option : (o : Option String) → string_of (of_option string o) ≡ o
string_of_option none = refl
string_of_option (some s) = refl

-- The context with the job's own columns taken from the attempt.
abbrev pub resumed : Resumption → BatchExecutionContext → BatchExecutionContext
resumed a c = record c {
  job_id = a.job_id;
  business_date = a.business_date;
  force_run = a.force_run;
  rebuild_page_only = a.rebuild_page_only;
  attempt_count = a.attempt_count;
  llm_retry_count = a.llm_retry_count;
  source_job_id = or_checkpoint a.source_job_id c.source_job_id;
  source_page_id = or_checkpoint a.source_page_id c.source_page_id;
}

-- A context that is saved in a checkpoint and restored for an attempt is the same context in every
-- field of progress, counters, ids, messages, errors and tallies, with the attempt's own job, date,
-- flags and counts, and with the attempt's source ids where it has them.
pub from_checkpoint-to_checkpoint :
    (isoformat : ℕ → String) (c : BatchExecutionContext) (a : Resumption)
    → from_checkpoint (to_checkpoint isoformat c) a ≡ resumed a c
unfolding from_checkpoint from_fields to_checkpoint
from_checkpoint-to_checkpoint isoformat c a =
    simp (strings_of-items_of, counts_of-fields_of, count_of_option, string_of_option)

or_checkpoint-again :
    (o restored : Option ℕ) → or_checkpoint o (or_checkpoint o restored) ≡ or_checkpoint o restored
or_checkpoint-again none restored = refl
or_checkpoint-again (some n) restored = refl

-- Whatever the checkpoint holds, malformed or not, the context that an attempt restores from it is
-- the one that the attempt restores from that context's own checkpoint: nothing is lost or added by
-- saving it again.
pub from_checkpoint-again :
    (isoformat : ℕ → String) (payload : Json) (a : Resumption)
    → from_checkpoint (to_checkpoint isoformat (from_checkpoint payload a)) a
      ≡ from_checkpoint payload a
unfolding from_checkpoint from_fields
from_checkpoint-again isoformat payload a =
    from_checkpoint-to_checkpoint isoformat (from_checkpoint payload a) a
    ∙ simp (or_checkpoint-again a.source_job_id, or_checkpoint-again a.source_page_id)
