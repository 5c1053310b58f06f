-- ===== src/Plan/Steps.antt =====
-- extensions/plan/plan.go: plans, steps, and the searches over the steps. A plan's slug and its times are
-- given; times are numbers.
use piglet.Prelude.{
  ℕ, suc, ◌+◌, String, Bool, false, ◌||◌, Option, none, some, List, [], ◌∷◌, str_eq, ltb, ◌==◌,
  if◌then◌else◌, ◌>>=◌, all,
}

abbrev pub status_pending : String
status_pending = "pending"

abbrev pub status_in_progress : String
status_in_progress = "in_progress"

abbrev pub status_done : String
status_done = "done"

abbrev pub status_skipped : String
status_skipped = "skipped"

abbrev pub status_failed : String
status_failed = "failed"

pub record Step : Type 0 where
  pub id : ℕ
  pub text : String
  pub status : String
  pub notes : String
  pub commit_sha : String

pub record Plan : Type 0 where
  pub title : String
  pub slug : String
  pub mode : String
  pub created : ℕ
  pub updated : ℕ
  pub active : Bool
  pub steps : List Step
  pub git_enabled : Bool

unfoldable pub valid_status : String → Bool
valid_status s =
    str_eq s status_pending
    || (str_eq s status_in_progress
        || (str_eq s status_done || (str_eq s status_skipped || str_eq s status_failed)))

abbrev pub is_terminal : String → Bool
is_terminal s = str_eq s status_done || (str_eq s status_skipped || str_eq s status_failed)

-- `stepIndex`; none is -1.
unfoldable pub step_index : ℕ → List Step → Option ℕ
step_index id [] = none
step_index id (s ∷ ss) =
    let rest = step_index id ss in if s.id == id then some 0 else (do i ← rest; some (suc i))

-- The largest ID, from the one found so far.
unfoldable pub max_id : List Step → ℕ → ℕ
max_id [] m = m
max_id (s ∷ ss) m = max_id ss (if ltb m s.id then s.id else m)

-- `nextID`
unfoldable pub next_id : List Step → ℕ
unfolding max_id
next_id ss = max_id ss 0 + 1

abbrev pub new_step : ℕ → String → Step
new_step id text = record {
  id = id;
  text = text;
  status = status_pending;
  notes = "";
  commit_sha = "";
}

-- `Progress`, without the total.
unfoldable pub done_count : List Step → ℕ
done_count [] = 0
done_count (s ∷ ss) = (if str_eq s.status status_done then 1 else 0) + done_count ss

abbrev all_terminal : List Step → Bool
all_terminal ss = all (λ (s : Step). is_terminal s.status) ss

-- `IsComplete`
unfoldable pub is_complete : List Step → Bool
is_complete [] = false
is_complete (s ∷ ss) = all_terminal (s ∷ ss)

-- `ResumeStep`
unfoldable pub resume_step : List Step → Option Step
resume_step [] = none
resume_step (s ∷ ss) = let rest = resume_step ss in if is_terminal s.status then rest else some s

-- `LastCheckpoint`: the loop runs backwards.
unfoldable pub last_checkpoint : List Step → Option Step
last_checkpoint [] = none
last_checkpoint (s ∷ ss) = elim (last_checkpoint ss) [
  | some t ↦ some t
  | none ↦ if str_eq s.commit_sha "" then none else some s
]
