-- ===== src/Gate/Init/Covered.antt =====
-- A gate that was constructed has a policy for every capability that it accepts.
use rclp.Prelude.{
  ◌≡◌, refl, sym, subst, inl, inr, Bool-cases, true, Option, none, some, String, List, [], ◌∷◌,
  ◌==◌, arith, eq_iff, contains, lookup,
}
use rclp.Core.Models.{CapabilityConstraintRequirement, CapabilityConstraintBounds, capability_text}
use rclp.Core.Conformance.Validate.Limits.{HasPolicy}
use rclp.Gate.Init.{Arguments, or_nothing, coverage_violation, init_violation, validation_of}

-- A requirement and bounds for a capability, each made for it.
pub record IsCovered (capability : String)
    (requirements : List (String × CapabilityConstraintRequirement))
    (all_bounds : List (String × CapabilityConstraintBounds)) : Type 0 where
  pub requirement : CapabilityConstraintRequirement
  pub bounds : CapabilityConstraintBounds
  pub requirement_found : lookup capability requirements ≡ some requirement
  pub bounds_found : lookup capability all_bounds ≡ some bounds
  pub for_requirement : capability_text requirement.capability ≡ capability
  pub for_bounds : capability_text bounds.capability ≡ capability

module _ (requirements : List (String × CapabilityConstraintRequirement))
    (all_bounds : List (String × CapabilityConstraintBounds)) where
  first-IsCovered :
      (c : String) (cs : List String) (r : Option CapabilityConstraintRequirement)
      (b : Option CapabilityConstraintBounds)
      → lookup c requirements ≡ r
      → lookup c all_bounds ≡ b
      → coverage_violation (c ∷ cs) requirements all_bounds ≡ none
      → IsCovered c requirements all_bounds
  unfolding coverage_violation
  first-IsCovered c cs none none p q h = ground (arith, p, q)
  first-IsCovered c cs none (some y) p q h = ground (arith, p, q)
  first-IsCovered c cs (some x) none p q h = ground (arith, p, q)
  first-IsCovered c cs (some x) (some y) p q h = record {
    requirement = x;
    bounds = y;
    requirement_found = p;
    bounds_found = q;
    for_requirement = ground (arith, p, q, eq_iff (capability_text x.capability) c);
    for_bounds = ground (arith, p, q, eq_iff (capability_text y.capability) c);
  }

  coverage-IsCovered :
      (capability : String) (cs : List String)
      → coverage_violation cs requirements all_bounds ≡ none
      → contains capability cs ≡ true
      → IsCovered capability requirements all_bounds
  unfolding contains coverage_violation
  coverage-IsCovered capability [] h e = cc
  coverage-IsCovered capability (c ∷ cs) h e = elim (Bool-cases (capability == c)) [
    | inl same ↦
        subst (λ (k : String). IsCovered k requirements all_bounds)
          (sym ((eq_iff capability c).0 same))
          (first-IsCovered c cs (lookup c requirements) (lookup c all_bounds) refl refl
            (unfold coverage_violation in h))
    | inr other ↦ coverage-IsCovered capability cs (ground (arith, h)) (ground (arith, e, other))
  ]

-- Where no guard of `__init__` raises, the gate has, for every capability that it accepts, a
-- requirement and bounds for that capability, so that every lease is held to a policy.
pub init-HasPolicy :
    (a : Arguments) (capability : String)
    → init_violation a ≡ none
    → contains capability (or_nothing a.accepted_capabilities) ≡ true
    → (requirement : CapabilityConstraintRequirement) × (bounds : CapabilityConstraintBounds)
      × (capability_text requirement.capability ≡ capability)
      × (capability_text bounds.capability ≡ capability)
      × HasPolicy (validation_of a) capability requirement bounds
unfolding init_violation validation_of
init-HasPolicy a capability h e =
    let f =
      coverage-IsCovered (or_nothing a.capability_constraint_requirements)
        (or_nothing a.capability_constraint_bounds) capability (or_nothing a.accepted_capabilities)
        (ground (arith, h)) e in
    (
      f.requirement,
      f.bounds,
      f.for_requirement,
      f.for_bounds,
      record {
        requirements = or_nothing a.capability_constraint_requirements;
        all_bounds = or_nothing a.capability_constraint_bounds;
        required = refl;
        requirement_found = f.requirement_found;
        bounded = refl;
        bounds_found = f.bounds_found;
      },
    )
