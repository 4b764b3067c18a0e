-- ===== src/Transforms/Pairs.antt =====
-- One rule set for each pair of versions.
use onboarding_and_verificat.Prelude.{
  ℕ, ◌≡◌, refl, inl, inr, Bool, false, not, List, [], ◌∷◌, ◌++◌, arith, any, All, All-append,
  All-update, All-keep, keep, update, Bool-cases,
}
use onboarding_and_verificat.Model.Transform.{TransformRuleSet}
use onboarding_and_verificat.Model.Db.{Db}
use onboarding_and_verificat.Transforms.Service.{Sandbox, at_set, is_pair}
use onboarding_and_verificat.Transforms.Requests.{
  Request, after, Reach, here, next, kept, added, edited, published, archived, removed,
}
use onboarding_and_verificat.Transforms.Changes.{after-Change}

-- No two rule sets lead from one version to another.
abbrev pub AreUnique : List TransformRuleSet → Type 0
AreUnique [] = Unit
AreUnique (s ∷ sets) =
    All (λ y. is_pair s.source_version_id s.target_version_id y ≡ false) sets × AreUnique sets

pairs_sym :
    (s t : TransformRuleSet) (b : Bool)
    → is_pair s.source_version_id s.target_version_id t ≡ b
    → is_pair t.source_version_id t.target_version_id s ≡ b
pairs_sym s t b h = ground arith

none_taken :
    (t : TransformRuleSet) (sets : List TransformRuleSet)
    → any (is_pair t.source_version_id t.target_version_id) sets ≡ false
    → AreUnique sets
    → AreUnique (sets ++ t ∷ [])
none_taken t [] free h = (tt, tt)
none_taken t (s ∷ sets) free h = (
  All-append _ sets (t ∷ []) h.0 (pairs_sym t s false (ground arith), tt),
  none_taken t sets (ground arith) h.1,
)

-- A change of rows that keeps their versions.
AreUnique-update :
    (p : TransformRuleSet → Bool) (f : TransformRuleSet → TransformRuleSet)
    (sets : List TransformRuleSet)
    → ((y : TransformRuleSet) → (f y).source_version_id ≡ y.source_version_id)
    → ((y : TransformRuleSet) → (f y).target_version_id ≡ y.target_version_id)
    → AreUnique sets
    → AreUnique (update p f sets)
AreUnique-update p f [] same_source same_target h = tt
AreUnique-update p f (s ∷ sets) same_source same_target h =
    let others = λ (a b : ℕ) (g : All (λ y. is_pair a b y ≡ false) sets).
      All-update (λ y. is_pair a b y ≡ false) (λ y. is_pair a b y ≡ false) p f sets
        (λ y _ e. rw (same_source y) (rw (same_target y) e)) (λ y _ e. e) g in
    elim (Bool-cases (p s)) [
      | inl e ↦ rw e (
        others (f s).source_version_id (f s).target_version_id
            (rw (same_source s) (rw (same_target s) h.0)),
        AreUnique-update p f sets same_source same_target h.1,
      )
      | inr e ↦ rw e (
        others s.source_version_id s.target_version_id h.0,
        AreUnique-update p f sets same_source same_target h.1,
      )
    ]

AreUnique-keep :
    (p : TransformRuleSet → Bool) (sets : List TransformRuleSet)
    → AreUnique sets
    → AreUnique (keep p sets)
AreUnique-keep p [] h = tt
AreUnique-keep p (s ∷ sets) h = elim (Bool-cases (p s)) [
  | inl e ↦ rw e (All-keep _ p sets h.0, AreUnique-keep p sets h.1)
  | inr e ↦ rw e (AreUnique-keep p sets h.1)
]

after-AreUnique :
    (sb : Sandbox) (r : Request) (db : Db)
    → AreUnique db.rule_sets
    → AreUnique (after sb r db).rule_sets
after-AreUnique sb r db h = elim (after-Change sb r db) [
  | kept e ↦ rw e h
  | added rs is_new free e ↦ rw e (none_taken rs db.rule_sets free h)
  | edited j z f at is_open keeps e ↦
      rw e (AreUnique-update (at_set j) f db.rule_sets (λ y. (keeps y).2) (λ y. (keeps y).3) h)
  | published j z at is_open has e ↦
      rw e (AreUnique-update (at_set j) _ db.rule_sets (λ y. refl) (λ y. refl) h)
  | archived j z at closed e ↦
      rw e (AreUnique-update (at_set j) _ db.rule_sets (λ y. refl) (λ y. refl) h)
  | removed j z at is_open e ↦ rw e (AreUnique-keep (λ s. not (at_set j s)) db.rule_sets h)
]

-- From a database where this holds, along any sequence of requests, no two rule sets lead from one
-- version to the same other version.
pub Reach-AreUnique :
    (start db : Db) → AreUnique start.rule_sets → Reach start db → AreUnique db.rule_sets
Reach-AreUnique start _ h here = h
Reach-AreUnique start _ h (next {db} sb r reach) =
    after-AreUnique sb r db (Reach-AreUnique start db h reach)
