-- ===== src/Pipeline/Walks.antt =====
-- extensions/pipeline/execute.go: the loop of Run over the steps.
use piglet.Prelude.{
  ◌+◌, ◌≡◌, refl, sym, ap, ◌∙◌, subst, inl, inr, String, Bool, false, Option, none, some, List, [],
  ◌∷◌, ◌++◌, append-nil, append_assoc, arith, All,
}
use piglet.Pipeline.Types.{Step, status_error, StepResult}
use piglet.Pipeline.Execute.{World}
use piglet.Pipeline.Run.{Progress, is_ok, run_steps}
use piglet.Pipeline.Finishes.{CanRun}
use piglet.Pipeline.Trace.{
  is_failed, is_skipped, tally, MayGoOn, Trace, all_done, stopped, went_on, Stepped, run_step-Steps,
}

-- The end of the loop: the results that it adds, and how they are counted.
pub record Walked (ss : List Step) (p : Progress) (rs : List StepResult) (o : Option String)
    (q : Progress) : Type 0 where
  pub trace : Trace ss rs o
  pub added : q.results ≡ p.results ++ rs
  pub oks : q.ok_count ≡ p.ok_count + tally is_ok rs
  pub errs : q.err_count ≡ p.err_count + tally is_failed rs
  pub skips : q.skip_count ≡ p.skip_count + tally is_skipped rs

abbrev pub Walks : World → List Step → Progress → Type 0
Walks w ss p =
    (rs : List StepResult) × (o : Option String) × (q : Progress) × (run_steps w ss p ≡ some (o, q))
    × Walked ss p rs o q

go_on-Walked :
    (s : Step) (ss : List Step) (p q t : Progress) (r : StepResult) (rs : List StepResult)
    (o : Option String)
    → Stepped s p r false q
    → MayGoOn s r
    → Walked ss q rs o t
    → Walked (s ∷ ss) p (r ∷ rs) o t
unfolding tally
go_on-Walked s ss p q t r rs o one may rest = record {
  trace = went_on one.named may rest.trace;
  added = rest.added ∙ (ap (λ l. l ++ rs) one.added ∙ append_assoc p.results (r ∷ []) rs);
  oks = omega (arith, one.oks, rest.oks);
  errs = omega (arith, one.errs, rest.errs);
  skips = omega (arith, one.skips, rest.skips);
}

stop-Walked :
    (s : Step) (ss : List Step) (p q : Progress) (r : StepResult) (stop : Bool)
    → Stepped s p r stop q
    → r.status ≡ status_error
    → s.allow_failure ≡ false
    → Walked (s ∷ ss) p (r ∷ []) (some s.name) q
unfolding tally
stop-Walked s ss p q r stop one failed may_not = record {
  trace = stopped one.named failed may_not;
  added = one.added;
  oks = omega (arith, one.oks);
  errs = omega (arith, one.errs);
  skips = omega (arith, one.skips);
}

pub run_steps-Walks : (w : World) (ss : List Step) (p : Progress) → All (CanRun w) ss → Walks w ss p
unfolding run_steps tally
run_steps-Walks w [] p can = (
  [],
  none,
  p,
  refl,
  record {
    trace = all_done;
    added = sym (append-nil p.results);
    oks = omega arith;
    errs = omega arith;
    skips = omega arith;
  },
)
run_steps-Walks w (s ∷ ss) p can =
    let (r, stop, q, e, one) = run_step-Steps w s p can.0 in
    elim one.judged [
      | inl (go, may) ↦
          let (rs, o, t, f, rest) = run_steps-Walks w ss q can.1 in
          (
            r ∷ rs,
            o,
            t,
            rw (e, go) f,
            go_on-Walked s ss p q t r rs o (subst (λ b. Stepped s p r b q) go one) may rest,
          )
      | inr (halts, failed, may_not) ↦ (
        r ∷ [],
        some s.name,
        q,
        rw (e, halts) refl,
        stop-Walked s ss p q r stop one failed may_not,
      )
    ]
