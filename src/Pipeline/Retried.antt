-- ===== src/Pipeline/Retried.antt =====
-- extensions/pipeline/execute.go: how often a command is tried.
use piglet.Prelude.{
  ℕ, zero, suc, ◌+◌, ◌<◌, ◌≤◌, ◌≡◌, refl, sym, ap, subst, ◌⊎◌, inl, inr, String, Bool, true, false,
  Option, none, some, ◌∷◌, arith, ltb, ltb→lt, ltb→le, Bool-cases,
}
use piglet.Pipeline.Texts.{trim_space}
use piglet.Pipeline.Types.{StepResult, status_ok, status_error}
use piglet.Pipeline.Execute.{Call, Log, World, shell_run, succeeded, tried, gave_up, attempt}

-- The log after the same command has been started so often.
unfoldable pub again : ℕ → Call → Log → Log
again zero c log = log
again (suc n) c log = c ∷ again n c log

-- Whether the command succeeds after so many attempts.
abbrev pub works_after : World → Call → Log → ℕ → Bool
works_after w c log n = succeeded (shell_run w c (again n c log))

-- One attempt more than the result counts as retries, of which all but the last failed, and the last too if no
-- more were left.
pub record Retried (w : World) (c : Call) (log : Log) (left : ℕ) (r : StepResult) (end : Log)
    : Type 0 where
  pub started : end ≡ again (suc r.retry_count) c log
  pub bound : r.retry_count ≤ left
  pub failed : (i : ℕ) → i < r.retry_count → works_after w c log i ≡ false
  pub last :
      (r.status ≡ status_ok)
        × (works_after w c log r.retry_count ≡ true)
        × (r.output ≡ trim_space (shell_run w c (again r.retry_count c log)).0)
      ⊎ (r.status ≡ status_error)
        × (works_after w c log r.retry_count ≡ false)
        × (r.retry_count ≡ left)

tried-Retried :
    (w : World) (name : String) (c : Call) (log : Log) (left k : ℕ)
    (failed : String → String → StepResult × Log) (reply : String × Option String)
    → reply ≡ shell_run w c (again k c log)
    → k ≤ left
    → ((i : ℕ) → i < k → works_after w c log i ≡ false)
    → ((out e : String)
        → reply ≡ (out, some e)
        → Retried w c log left (failed out e).0 (failed out e).1)
    → Retried w c log left
        (tried name k (c ∷ again k c log) failed reply).0
        (tried name k (c ∷ again k c log) failed reply).1
unfolding again
tried-Retried w name c log left k failed (out, none) e le before h = record {
  started = refl;
  bound = le;
  failed = before;
  last = inl (refl, ap succeeded (sym e), ap (λ p. trim_space p.0) e);
}
tried-Retried w name c log left k failed (out, some err) e le before h = h out err refl

one_more :
    (w : World) (c : Call) (log : Log) (k : ℕ)
    → ((i : ℕ) → i < k → works_after w c log i ≡ false)
    → works_after w c log k ≡ false
    → (i : ℕ) → i < suc k
    → works_after w c log i ≡ false
one_more w c log k before now i h = elim (Bool-cases (ltb i k)) [
  | inl less ↦ before i (ltb→lt i k less)
  | inr reached ↦
      let same : k ≡ i = omega (arith, ltb→le i k reached) in
      subst (λ n. works_after w c log n ≡ false) same now
]

attempt_from :
    (w : World) (name : String) (c : Call) (log : Log) (retries left k : ℕ)
    → k + left ≡ retries
    → ((i : ℕ) → i < k → works_after w c log i ≡ false)
    → Retried w c log retries
        (attempt w name c left k (again k c log)).0
        (attempt w name c left k (again k c log)).1
unfolding attempt again
attempt_from w name c log retries zero k total before =
    tried-Retried w name c log retries k (gave_up name k (c ∷ again k c log))
      (shell_run w c (again k c log)) refl (omega arith) before
      (λ out err e. record {
        started = refl;
        bound = omega arith;
        failed = before;
        last = inr (refl, ap succeeded e, omega arith);
      })
attempt_from w name c log retries (suc left) k total before =
    tried-Retried w name c log retries k
      (λ out e. attempt w name c left (suc k) (c ∷ again k c log)) (shell_run w c (again k c log))
      refl (omega arith) before
      (λ out err e.
        attempt_from w name c log retries left (suc k) (omega arith)
          (one_more w c log k before (ap succeeded e)))

-- A command with a number of retries is started at most once more than that, always the same; it is started
-- again exactly after an error; the result is ok with the output of the first attempt without an
-- error, or an error once all were made, and it counts all attempts but the first as retries.
pub attempt-Retried :
    (w : World) (name : String) (c : Call) (retries : ℕ) (log : Log)
    → Retried w c log retries (attempt w name c retries 0 log).0 (attempt w name c retries 0 log).1
unfolding again
attempt-Retried w name c retries log =
    attempt_from w name c log retries retries 0 (omega arith) (λ i h. absurd (omega arith))
