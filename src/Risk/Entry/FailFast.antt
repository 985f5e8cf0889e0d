-- ===== src/Risk/Entry/FailFast.antt =====
-- The results of a validation, by what the checks said.
use trading_project.Base.{
  ◌≡◌, refl, ap, Bool, true, false, List, [], ◌∷◌, ◌++◌, map, Bool-cases, inl, inr,
}
use trading_project.Risk.Entry.{RiskCheckStatus, RiskCheckResult, Check, skip, run_checks}

module _ {W : Type 0} where
  -- The results that give every one of the checks the same status, under its name.
  abbrev pub marked : RiskCheckStatus → List (Check W) → List RiskCheckResult
  marked status cs = map (λ c. record { name = c.0; status = status }) cs

  -- The checks pass one after the other, each on what the one before it left.
  pub data AllPass : List (Check W) → W → W → Type 0 where
    none_left : {w : W} → AllPass [] w w
    next :
        {cs : List (Check W)} {w v : W} (c : Check W)
        → (c.1 w).0 ≡ true
        → AllPass cs (c.1 w).1 v
        → AllPass (c ∷ cs) w v

  -- Either all pass, and each is reported as PASSED; or there is a first one that fails, which is
  -- reported as FAILED, those before it as PASSED and those behind it, which are not run, as SKIPPED.
  pub data FailFast (cs : List (Check W)) (w : W) : List RiskCheckResult → Bool → W → Type 0 where
    all_passed : {v : W} → AllPass cs w v → FailFast cs w (marked RiskCheckStatus.passed cs) true v
    one_failed :
        {v : W} (before after : List (Check W)) (c : Check W)
        → cs ≡ before ++ c ∷ after
        → AllPass before w v
        → (c.1 v).0 ≡ false
        → FailFast cs w
            (marked RiskCheckStatus.passed before
              ++ record { name = c.0; status = RiskCheckStatus.failed }
                ∷ marked RiskCheckStatus.skipped after)
            false
            (c.1 v).1

  skip-marked : (cs : List (Check W)) → skip cs ≡ marked RiskCheckStatus.skipped cs
  skip-marked [] = refl
  skip-marked (c ∷ cs) =
      ap (λ rs. record { name = c.0; status = RiskCheckStatus.skipped } ∷ rs) (skip-marked cs)

  -- a check that passes, in front
  after_pass :
      (c : Check W) (cs : List (Check W)) (w v : W) (rs : List RiskCheckResult) (approved : Bool)
      → (c.1 w).0 ≡ true
      → FailFast cs (c.1 w).1 rs approved v
      → FailFast (c ∷ cs) w (record { name = c.0; status = RiskCheckStatus.passed } ∷ rs) approved v
  after_pass c cs w v rs approved ok (all_passed h) = all_passed (next c ok h)
  after_pass c cs w v rs approved ok (one_failed before after d split h failed) =
      one_failed (c ∷ before) after d (ap (λ ds. c ∷ ds) split) (next c ok h) failed

  -- Whatever the checks are: if each passes on what the one before it left, the results are all of
  -- them, by name and in order, as PASSED, and the entry is approved; otherwise the entry is refused,
  -- and the results are those before the first that fails as PASSED, that one as FAILED, and all
  -- behind it as SKIPPED, which leave no trace.
  pub run_checks-FailFast :
      (cs : List (Check W)) (w : W)
      → let ((results, approved), w') = run_checks cs w in FailFast cs w results approved w'
  unfolding run_checks
  run_checks-FailFast [] w = all_passed none_left
  run_checks-FailFast (c ∷ cs) w = elim (Bool-cases (c.1 w).0) [
    | inl ok ↦
        let ((results, approved), w') = run_checks cs (c.1 w).1 in
        rw ok (after_pass c cs w w' results approved ok (run_checks-FailFast cs (c.1 w).1))
    | inr not_ok ↦ rw (not_ok, skip-marked cs) (one_failed [] cs c refl none_left not_ok)
  ]
