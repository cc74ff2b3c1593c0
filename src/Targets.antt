-- ===== src/Targets.antt =====
-- The progress of a step's targets, app/batch/steps/target_progress.py: what is kept of it in the
-- job's checkpoint, and the concurrent calls of the targets.
pub mod Calls
pub mod Saved
pub mod Settled
pub mod Delivered
use stockapp.Prelude.{
  ℕ, String, Bool, true, false, Option, none, some, List, [], ◌∷◌, any, if◌then◌else◌, str_eq,
  sort_by, text_leb,
}
use stockapp.Queue.Job.{Checkpoint, empty_checkpoint, Job, Db}
use stockapp.Queue.Lease.{save_checkpoint}
use stockapp.Queue.Admission.{get_job_by_id}

-- The fields of DurableTargetProgress beside its repository. The set of completed targets is a list
-- of keys; the checkpoint's context is the serialised one.
pub record DurableTargetProgress : Type 0 where
  pub job_id : ℕ
  pub step_code : String
  pub checkpoint : Checkpoint
  pub lease_token : Option ℕ
  pub completed_targets : List String

abbrev pub holds_target : String → List String → Bool
holds_target key targets = any (λ t. str_eq t key) targets

-- progress.get(step_code) or []
abbrev pub targets_of : String → List (String × List String) → List String
targets_of step [] = []
targets_of step ((name, targets) ∷ progress) =
    if str_eq name step then targets else targets_of step progress

-- progress[step_code] = targets
unfoldable pub set_targets :
    String → List String → List (String × List String) → List (String × List String)
set_targets step targets [] = (step, targets) ∷ []
set_targets step targets ((name, old) ∷ progress) =
    let rest = set_targets step targets progress in
    if str_eq name step then (name, targets) ∷ progress else (name, old) ∷ rest

-- completed_targets.add(target_key)
abbrev pub add_target : String → List String → List String
add_target key targets = if holds_target key targets then targets else key ∷ targets

unfoldable pub of_job : ℕ → String → Option Job → DurableTargetProgress
of_job job_id step_code none = record {
  job_id = job_id;
  step_code = step_code;
  checkpoint = empty_checkpoint;
  lease_token = none;
  completed_targets = [];
}
of_job job_id step_code (some job) = record {
  job_id = job_id;
  step_code = step_code;
  checkpoint = job.checkpoint_json;
  lease_token = job.lease_token;
  completed_targets = targets_of step_code job.checkpoint_json.target_progress;
}

unfoldable pub load : ℕ → String → Db → DurableTargetProgress
load job_id step_code db = of_job job_id step_code (get_job_by_id job_id db)

-- Whether the target was committed or the lease is lost, the progress and the tables after it.
pub record Committed : Type 0 where
  pub saved : Bool
  pub progress : DurableTargetProgress
  pub db : Db

abbrev pub with_target : String → String → DurableTargetProgress → Checkpoint
with_target key context p = record p.checkpoint {
  target_progress =
      set_targets p.step_code (sort_by text_leb (add_target key p.completed_targets))
        p.checkpoint.target_progress;
  context = some context;
}

unfoldable pub commit_with_token :
    ℕ → String → String → DurableTargetProgress → Db → Option ℕ → Committed
commit_with_token now key context p db none = record {
  saved = true;
  progress = record p { completed_targets = add_target key p.completed_targets };
  db = db;
}
commit_with_token now key context p db (some token) =
    let document = with_target key context p in
    let (saved, after) = save_checkpoint now p.job_id token p.step_code document db in
    record {
      saved = saved;
      progress = record p {
        checkpoint = document;
        completed_targets = add_target key p.completed_targets;
      };
      db = after;
    }

unfoldable pub commit_target : ℕ → String → String → DurableTargetProgress → Db → Committed
commit_target now key context p db = commit_with_token now key context p db p.lease_token
