-- ===== src/Verifications/Matching.antt =====
-- The decision is that of the first rule that matches the facts.
use onboarding_and_verificat.Prelude.{
  ℕ, suc, ◌+◌, ◌≡◌, refl, subst, ap, true, Option, none, some, List, [], ◌∷◌, ◌++◌, ◌⊎◌, inl, inr,
  arith, Bool-cases, Option-cases, All, length,
}
use onboarding_and_verificat.Prelude.Json.{Json, Fields, dict, get}
use onboarding_and_verificat.Verifications.Values.{Python}
use onboarding_and_verificat.Verifications.Decision.{
  Decision, rule_matches, decided, list_items, matches_at, first_match, fallback_decision,
  decide_by, evaluate_demo_decision,
}

module _ (py : Python) (facts : Fields) where
  -- What is no dict, or a rule that does not match.
  abbrev pub IsPassedOver : Json → Type 0
  IsPassedOver j = matches_at py j facts ≡ none

  -- The rules as they are found: those before the first that matches, that rule, and the rest.
  abbrev pub IsFirstOf : List Json → List Json → Fields → Type 0
  IsFirstOf js before rule =
      ((rest : List Json) × (js ≡ before ++ dict rule ∷ rest))
      × All IsPassedOver before
      × (rule_matches py rule facts ≡ true)

  abbrev Finds : ℕ → List Json → Option (ℕ × Fields) → Type 0
  Finds n js none = All IsPassedOver js
  Finds n js (some (k, rule)) =
      (before : List Json) × (k ≡ n + length before) × IsFirstOf js before rule

  abbrev MatchedBy : Json → Option Fields → Type 0
  MatchedBy j none = IsPassedOver j
  MatchedBy j (some rule) = (j ≡ dict rule) × (rule_matches py rule facts ≡ true)

  matches_at-MatchedBy : (j : Json) → MatchedBy j (matches_at py j facts)
  matches_at-MatchedBy (dict rule) = elim (Bool-cases (rule_matches py rule facts)) [
    | inl e ↦ rw e (refl, e)
    | inr e ↦ rw e (rw e refl)
  ]
  matches_at-MatchedBy _ = refl

  Finds-later :
      (n : ℕ) (j : Json) (js : List Json) (found : Option (ℕ × Fields))
      → IsPassedOver j
      → Finds (suc n) js found
      → Finds n (j ∷ js) found
  Finds-later n j js none passed h = (passed, h)
  Finds-later n j js (some (k, rule)) passed (before, at, ((rest, split_at), fails, matches)) =
      (j ∷ before, omega (arith, at), ((rest, ap (λ l. j ∷ l) split_at), (passed, fails), matches))

  first_match-Finds : (n : ℕ) (js : List Json) → Finds n js (first_match py n js facts)
  unfolding first_match
  first_match-Finds n [] = tt
  first_match-Finds n (j ∷ js) = elim (Option-cases (matches_at py j facts)) [
    | inl e ↦
        rw (Finds, e)
          (Finds-later n j js (first_match py (suc n) js facts) e (first_match-Finds (suc n) js))
    | inr (rule, e) ↦
        let matched = subst (MatchedBy j) e (matches_at-MatchedBy j) in
        rw (Finds, e) ([], omega arith, ((js, ap (λ x. x ∷ js) matched.0), tt, matched.1))
  ]

  -- Whose the decision is: a rule's, with its position, or the fallback's.
  abbrev pub Picks : Fields → Option (Decision) → Type 0
  Picks cfg out =
      ((before : List Json) × (rule : Fields) × IsFirstOf (list_items py (get cfg "rules")) before
          rule
        × (out ≡ decided py rule (some (length before))))
      ⊎ (All IsPassedOver (list_items py (get cfg "rules"))
          × (out ≡ fallback_decision py (get cfg "fallback")))

  decide_by-Picks :
      (cfg : Fields) (found : Option (ℕ × Fields))
      → Finds 0 (list_items py (get cfg "rules")) found
      → Picks cfg (decide_by py found cfg)
  decide_by-Picks cfg none h = inr (h, refl)
  decide_by-Picks cfg (some (k, rule)) (before, at, first) =
      let at' : k ≡ length before = omega (arith, at) in
      inl (before, rule, first, ap (λ n. decided py rule (some n)) at')

  -- With a configured decision, either some rule matches, none of those before it does, and the
  -- decision is that rule's, with its position; or no rule matches and the decision is the fallback's.
  pub evaluate_demo_decision-Picks :
      (flow cfg : Fields)
      → get flow "decision" ≡ dict cfg
      → Picks cfg (evaluate_demo_decision py flow facts)
  unfolding evaluate_demo_decision
  evaluate_demo_decision-Picks flow cfg e =
      let rules = list_items py (get cfg "rules") in
      rw e (decide_by-Picks cfg (first_match py 0 rules facts) (first_match-Finds 0 rules))
