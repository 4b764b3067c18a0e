-- ===== src/Verifications/Attempts.antt =====
-- The attempts at a challenge are bounded by the step's configuration, through every operation.
use onboarding_and_verificat.Prelude.{
  ℕ, zero, suc, ◌<◌, ◌≤◌, String, ◌≡◌, sym, subst, Bool, true, false, Option, some, List, [], ◌∷◌,
  inl, inr, arith, Bool-cases, All, ◌==◌, strip, if◌then◌else◌,
}
use onboarding_and_verificat.Prelude.Int.{ℤ, pos, negsuc}
use onboarding_and_verificat.Prelude.Json.{Json, Fields, dict, get}
use onboarding_and_verificat.Model.Verification.{VerificationStepRun}
use onboarding_and_verificat.Model.Db.{Db}
use onboarding_and_verificat.Session.{Error, pure, or_raise}
use onboarding_and_verificat.Session.Keeps.{
  Keeps, Keeps-pure, Keeps-raise, Keeps-or_raise, Keeps-bind,
}
use onboarding_and_verificat.Verifications.Values.{Python, truthy}
use onboarding_and_verificat.Verifications.Steps.{
  is_terminal, is_waiting, filled, demo_code, fayda_code,
}
use onboarding_and_verificat.Verifications.Actions.{
  mark_retry_or_fail, counted, max_attempts, give_code, answer_profile, no_profile, wrong_code,
  phone_passed, fayda_passed, apply_user_action,
}
use onboarding_and_verificat.Verifications.Advance.{moved_to}
use onboarding_and_verificat.Verifications.Settling.{VisitOf, ArePassed}

-- The attempts that a limit allows: one is counted before the limit is looked at.
abbrev pub allowed : Option ℤ → ℕ
allowed (some (pos (suc n))) = suc n
allowed _ = 1

module _ (py : Python) where
  -- No more attempts than allowed, and fewer while the step is not done.
  abbrev pub IsWithin : VerificationStepRun → Type 0
  IsWithin s =
      (s.attempt_count ≤ allowed (max_attempts py s.config_snapshot))
      × (is_terminal s.status ≡ false
          → s.attempt_count < allowed (max_attempts py s.config_snapshot))

  moved-IsWithin : (s t : VerificationStepRun) → VisitOf s (moved_to t) → IsWithin s → IsWithin t
  moved-IsWithin s t (free, moved) (le, undone) =
      let lt = undone (ground (arith, free)) in
      (rw (moved.3, moved.4) le, λ e. rw (moved.3, moved.4) lt)

  pub AreWithin_passed :
      (steps steps' : List VerificationStepRun)
      → ArePassed steps steps'
      → All IsWithin steps
      → All IsWithin steps'
  AreWithin_passed [] [] pass h = tt
  AreWithin_passed [] (t ∷ rest') pass h = elim pass [ ]
  AreWithin_passed (s ∷ rest) [] pass h = elim pass [ ]
  AreWithin_passed (s ∷ rest) (t ∷ rest') (inl same, pass) h =
      (subst IsWithin (sym same) h.0, AreWithin_passed rest rest' pass h.1)
  AreWithin_passed (s ∷ rest) (t ∷ rest') (inr moved, pass) h =
      (moved-IsWithin s t moved h.0, AreWithin_passed rest rest' pass h.1)

  module _ (now : ℕ) where
    mark_retry_or_fail-IsWithin :
        (limit : ℤ) (s : VerificationStepRun)
        → max_attempts py s.config_snapshot ≡ some limit
        → s.attempt_count ≤ allowed (some limit)
        → IsWithin (mark_retry_or_fail now limit s)
    unfolding mark_retry_or_fail
    mark_retry_or_fail-IsWithin (pos zero) s e le = ground (arith, e, le)
    mark_retry_or_fail-IsWithin (pos (suc n)) s e le = ground (arith, e, le)
    mark_retry_or_fail-IsWithin (negsuc n) s e le = ground (arith, e, le)

    module _ (I : Db → Type 0) where
      wrong_code-Keeps :
          (s : VerificationStepRun)
          → s.attempt_count ≤ allowed (max_attempts py s.config_snapshot)
          → Keeps I IsWithin (wrong_code py now s)
      wrong_code-Keeps s le =
          let limit = max_attempts py s.config_snapshot in
          Keeps-bind I IsWithin (λ l. limit ≡ some l) (or_raise limit Error.unhandled)
            (λ l. pure (mark_retry_or_fail now l s))
            (Keeps-or_raise I (λ l. limit ≡ some l) limit Error.unhandled (λ l e. e))
            (λ l e.
              Keeps-pure I IsWithin (mark_retry_or_fail now l s)
                (mark_retry_or_fail-IsWithin l s e (subst (λ o. s.attempt_count ≤ allowed o) e le)))

      compared_code-Keeps :
          (right : Bool) (s t : VerificationStepRun)
          → s.attempt_count ≤ allowed (max_attempts py s.config_snapshot)
          → IsWithin t
          → Keeps I IsWithin (if right then pure t else wrong_code py now s)
      compared_code-Keeps true s t le done = Keeps-pure I IsWithin t done
      compared_code-Keeps false s t le done = wrong_code-Keeps s le

      no_profile-Keeps :
          (found : Json) (s : VerificationStepRun)
          → s.attempt_count ≤ allowed (max_attempts py s.config_snapshot)
          → Keeps I IsWithin (no_profile py now found s)
      no_profile-Keeps found s le = elim (Bool-cases (truthy py found)) [
        | inl odd ↦ rw odd (Keeps-raise I IsWithin Error.unhandled)
        | inr even ↦ rw even (λ state h. ((le, λ e. cc), h))
      ]

      answer_profile-Keeps :
          (code : String) (found : Json) (s : VerificationStepRun)
          → s.attempt_count ≤ allowed (max_attempts py s.config_snapshot)
          → Keeps I IsWithin (answer_profile py now code found s)
      answer_profile-Keeps code (dict profile) s le =
          compared_code-Keeps (strip code == fayda_code py profile s.config_snapshot) s
            (fayda_passed py now profile s) le (le, λ e. cc)
      answer_profile-Keeps code found s le = no_profile-Keeps found s le

      give_code-Keeps :
          (code : String) (flow : Fields) (s : VerificationStepRun)
          → s.attempt_count ≤ allowed (max_attempts py s.config_snapshot)
          → Keeps I IsWithin (give_code py now code flow s)
      give_code-Keeps code flow s le = elim (Bool-cases (s.adapter_key == "demo_phone_otp")) [
        | inl phone ↦ rw phone (
            compared_code-Keeps (strip code == demo_code py s.config_snapshot "111111") s
              (phone_passed py now s) le (le, λ e. cc))
        | inr other ↦ elim (Bool-cases (s.adapter_key == "demo_fayda_otp")) [
          | inl fayda ↦ rw (other, fayda) (answer_profile-Keeps code _ s le)
          | inr neither ↦ rw (other, neither) (Keeps-raise I IsWithin Error.unsupported_adapter)
        ]
      ]

      -- An answer to a waiting step leaves it within its attempts.
      pub apply_user_action-Keeps :
          (flow payload : Fields) (s : VerificationStepRun)
          → is_waiting s.status ≡ true
          → IsWithin s
          → Keeps I IsWithin (apply_user_action py now flow payload s)
      unfolding apply_user_action
      apply_user_action-Keeps flow payload s waits (le, undone) =
          let code = filled (get payload "otp_code") in
          let lt = undone (ground (arith, waits)) in
          Keeps-bind I IsWithin (λ _. Unit {0}) (or_raise code Error.otp_code_missing)
            (λ c. give_code py now c flow (counted s))
            (Keeps-or_raise I (λ _. Unit {0}) code Error.otp_code_missing (λ c e. tt))
            (λ c _. give_code-Keeps c flow (counted s) lt)
