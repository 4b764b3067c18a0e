-- ===== src/Verifications/Progress.antt =====
-- A flow whose steps depend on steps of a lower rank is never stuck.
use onboarding_and_verificat.Prelude.{
  ℕ, zero, suc, ◌<◌, ◌≤◌, String, ◌≡◌, refl, sym, subst, ◌∙◌, true, false, none, some, List, [],
  ◌∷◌, inl, inr, arith, Bool-cases, All, All-map, any, eq_iff,
}
use onboarding_and_verificat.Model.Verification.{VerificationStepRun}
use onboarding_and_verificat.Verifications.Values.{by_key}
use onboarding_and_verificat.Verifications.Steps.{is_terminal, is_waiting, all_done}
use onboarding_and_verificat.Verifications.Advance.{first_waiting, all_terminal}
use onboarding_and_verificat.Verifications.Flow.{has_key}
use onboarding_and_verificat.Verifications.Settling.{ArePassed}
use onboarding_and_verificat.Verifications.Quiet.{IsQuietIn, AreQuiet}

by_key_missing :
    (steps : List VerificationStepRun) (key : String)
    → any (has_key key) steps ≡ false
    → by_key steps key ≡ none
unfolding by_key
by_key_missing [] key absent = refl
by_key_missing (s ∷ steps) key absent = ground (arith, by_key_missing steps key)

-- The step of a key that is there.
by_key_found :
    (P : VerificationStepRun → Type 0) (steps : List VerificationStepRun) (key : String)
    → any (has_key key) steps ≡ true
    → All P steps
    → (t : VerificationStepRun) × (by_key steps key ≡ some t) × (t.step_key ≡ key) × P t
unfolding by_key
by_key_found P [] key there h = ground arith
by_key_found P (s ∷ steps) key there h = elim (Bool-cases (any (has_key key) steps)) [
  | inl later ↦
      let (t, found, same, p) = by_key_found P steps key later h.1 in (t, rw found refl, same, p)
  | inr last ↦
      let here : has_key key s ≡ true = ground (arith, last, there) in
      (s, rw (by_key_missing steps key last, here) refl, (eq_iff s.step_key key).0 here, h.0)
]

module _ (rank : String → ℕ) where
  -- Each dependency of a step is the key of some step, of a lower rank.
  abbrev pub RanksIn : List VerificationStepRun → VerificationStepRun → Type 0
  RanksIn steps s =
      All (λ dep. (any (has_key dep) steps ≡ true) × (rank dep < rank s.step_key)) s.depends_on

  abbrev pub AreRanked : List VerificationStepRun → Type 0
  AreRanked steps = All (RanksIn steps) steps

  IsDoneBelow : ℕ → VerificationStepRun → Type 0
  IsDoneBelow n s = rank s.step_key < n → is_terminal s.status ≡ true

  deps_done :
      (n m : ℕ) (steps : List VerificationStepRun) (deps : List String)
      → m ≤ n
      → All (IsDoneBelow n) steps
      → All (λ dep. (any (has_key dep) steps ≡ true) × (rank dep < m)) deps
      → all_done steps deps ≡ true
  unfolding IsDoneBelow
  deps_done n m steps [] le below ranks = refl
  deps_done n m steps (dep ∷ deps) le below ranks =
      let (t, found, same, done) = by_key_found (IsDoneBelow n) steps dep ranks.0.0 below in
      let lower = subst (λ key. rank key < m) (sym same) ranks.0.1 in
      rw (found, done (omega (arith, lower, le))) (deps_done n m steps deps le below ranks.1)

  done_step :
      (n : ℕ) (steps : List VerificationStepRun) (s : VerificationStepRun)
      → All (IsDoneBelow n) steps
      → IsQuietIn steps s
      → is_waiting s.status ≡ false
      → RanksIn steps s
      → IsDoneBelow (suc n) s
  unfolding IsDoneBelow
  done_step n steps s below (inl idle) unwaiting ranks lower = ground arith
  done_step n steps s below (inr blocked) unwaiting ranks lower =
      let satisfied =
        deps_done n (rank s.step_key) steps s.depends_on (omega (arith, lower)) below ranks in
      absurd (ground (arith, satisfied, blocked))

  -- Each fact of a step follows from the facts of the same step in three lists.
  module _ (steps : List VerificationStepRun) where
    done_steps :
        (n : ℕ) (some_steps : List VerificationStepRun)
        → All (IsDoneBelow n) steps
        → All (IsQuietIn steps) some_steps
        → All (λ s. is_waiting s.status ≡ false) some_steps
        → All (RanksIn steps) some_steps
        → All (IsDoneBelow (suc n)) some_steps
    done_steps n [] below quiet unwaiting ranks = tt
    done_steps n (s ∷ rest) below quiet unwaiting ranks = (
      done_step n steps s below quiet.0 unwaiting.0 ranks.0,
      done_steps n rest below quiet.1 unwaiting.1 ranks.1,
    )

    IsDoneBelow-zero : (some_steps : List VerificationStepRun) → All (IsDoneBelow 0) some_steps
    unfolding IsDoneBelow
    IsDoneBelow-zero [] = tt
    IsDoneBelow-zero (s ∷ rest) = ((λ lower. ground arith), IsDoneBelow-zero rest)

    done_below :
        (n : ℕ)
        → AreQuiet steps
        → All (λ s. is_waiting s.status ≡ false) steps
        → AreRanked steps
        → All (IsDoneBelow n) steps
    done_below zero quiet unwaiting ranks = IsDoneBelow-zero steps
    done_below (suc n) quiet unwaiting ranks =
        done_steps n steps (done_below n quiet unwaiting ranks) quiet unwaiting ranks

    all_terminal-below :
        (some_steps : List VerificationStepRun)
        → ((n : ℕ) → All (IsDoneBelow n) some_steps)
        → all_terminal some_steps ≡ true
    unfolding IsDoneBelow
    all_terminal-below [] below = refl
    all_terminal-below (s ∷ rest) below =
        ground
          (arith, (below (suc (rank s.step_key))).0, all_terminal-below rest (λ n. (below n).1))

    unwaiting-All :
        (some_steps : List VerificationStepRun)
        → first_waiting some_steps ≡ none
        → All (λ s. is_waiting s.status ≡ false) some_steps
    unwaiting-All [] e = tt
    unwaiting-All (s ∷ rest) e = ground (arith, unwaiting-All rest)

    -- Steps that no pass moves, none of which waits, are all done.
    pub quiet_terminal :
        AreQuiet steps → first_waiting steps ≡ none → AreRanked steps → all_terminal steps ≡ true
    quiet_terminal quiet unwaiting ranks =
        all_terminal-below steps (λ n. done_below n quiet (unwaiting-All steps unwaiting) ranks)

pub keys_kept :
    (steps steps' : List VerificationStepRun) (key : String)
    → ArePassed steps steps'
    → any (has_key key) steps' ≡ any (has_key key) steps
keys_kept [] [] key pass = refl
keys_kept [] (t ∷ steps') key pass = elim pass [ ]
keys_kept (s ∷ steps) [] key pass = elim pass [ ]
keys_kept (s ∷ steps) (t ∷ steps') key pass = elim pass.0 [
  | inl same ↦ ground (arith, same, keys_kept steps steps' key pass.1)
  | inr moved ↦ ground (arith, moved.1.1, keys_kept steps steps' key pass.1)
]

module _ (rank : String → ℕ) where
  pub RanksIn-kept :
      (steps steps' : List VerificationStepRun) (s t : VerificationStepRun)
      → ((key : String) → any (has_key key) steps' ≡ any (has_key key) steps)
      → t.step_key ≡ s.step_key
      → t.depends_on ≡ s.depends_on
      → RanksIn rank steps s
      → RanksIn rank steps' t
  RanksIn-kept steps steps' s t keys key deps ranks =
      rw (key, deps)
        (All-map (λ dep. (any (has_key dep) steps ≡ true) × (rank dep < rank s.step_key))
          (λ dep. (any (has_key dep) steps' ≡ true) × (rank dep < rank s.step_key))
          (λ dep h. (keys dep ∙ h.0, h.1)) s.depends_on ranks)
