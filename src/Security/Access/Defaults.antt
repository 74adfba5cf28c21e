-- ===== src/Security/Access/Defaults.antt =====
-- The privileges on a new relation.
use rnov_modular_db.Base.{
  ℕ, ◌≡◌, refl, ◌↔◌, ◌⊎◌, inl, inr, Bool, true, false, ◌||◌, List, [], ◌∷◌, Bool-cases, arith,
}
use rnov_modular_db.Common.{ok, err, invalid_input}
use rnov_modular_db.Collections.Order.{same, same_iff, nat_order, list_order, pair_order}
use rnov_modular_db.Collections.BTreeSet
use rnov_modular_db.Collections.BTreeSet.{contains-insert, contains-remove}
use rnov_modular_db.Security.Access.{
  ObjectPrivilege, privilege_order, select, insert, update, delete, RelationGrant, Name,
  DefaultPrivilegeRule, is_blank, AccessControl, grant_relation_privilege, has_relation_privilege,
  rules_of, grant_relation_owner_privileges, grant_rules, apply_default_relation_privileges,
}

iff_or : {P : Type 0} (a b : Bool) → ((a ≡ true) ↔ P) → ((a || b) ≡ true) ↔ ((b ≡ true) ⊎ P)
iff_or a b (to, from) = ground (arith, to, from)

grant_eq :
    (r l s m : ℕ) (p q : ObjectPrivilege)
    → (same {K = RelationGrant} (r, (l, p)) (s, (m, q)) ≡ true) ↔ ((r ≡ s) × (l ≡ m) × (p ≡ q))
grant_eq r l s m p q = ground (arith, same_iff {K = RelationGrant} (r, (l, p)) (s, (m, q)))

has-grant :
    (role relation : ℕ) (privilege : ObjectPrivilege) (access : AccessControl) (r l : ℕ)
    (p : ObjectPrivilege)
    → (has_relation_privilege r l p (grant_relation_privilege role relation privilege access).1
        ≡ true)
      ↔ ((has_relation_privilege r l p access ≡ true)
          ⊎ ((r ≡ role) × (l ≡ relation) × (p ≡ privilege)))
has-grant role relation privilege access r l p =
    let is =
      contains-insert {K = RelationGrant} (r, (l, p)) (role, (relation, privilege))
        access.relation_grants in
    rw is (iff_or _ _ (grant_eq r l role relation p privilege))

-- One of the rules gives the privilege to the role.
abbrev pub gives : ℕ × ObjectPrivilege → List DefaultPrivilegeRule → Bool
gives holder [] = false
gives holder (rule ∷ rules) = same {K = ℕ × ObjectPrivilege} holder rule.1 || gives holder rules

gives-rules_of :
    (schema : Name) (holder : ℕ × ObjectPrivilege) (rules : List DefaultPrivilegeRule)
    → gives holder (rules_of schema rules)
      ≡ BTreeSet.contains {K = DefaultPrivilegeRule} (schema, holder) rules
gives-rules_of schema holder [] = refl
gives-rules_of schema holder (rule ∷ rules) = ground (
  arith,
  gives-rules_of schema holder rules,
  same_iff schema rule.0,
  same_iff rule.0 schema,
  same_iff {K = ℕ × ObjectPrivilege} holder rule.1,
  same_iff {K = DefaultPrivilegeRule} (schema, holder) rule,
)

holder_eq :
    (r s : ℕ) (p q : ObjectPrivilege)
    → (same {K = ℕ × ObjectPrivilege} (r, p) (s, q) ≡ true) ↔ ((r ≡ s) × (p ≡ q))
holder_eq r s p q = ground (arith, same_iff {K = ℕ × ObjectPrivilege} (r, p) (s, q))

-- How one grant and those after it combine.
round :
    {X N H L A B : Type 0} {e g : Bool}
    → N ↔ (H ⊎ (A × L × B))
    → X ↔ (N ⊎ (L × (g ≡ true)))
    → (e ≡ true) ↔ (A × B)
    → X ↔ (H ⊎ (L × ((e || g) ≡ true)))
round now later one = ground (arith, now.0, now.1, later.0, later.1, one.0, one.1)

has-grant_rules :
    (relation : ℕ) (rules : List DefaultPrivilegeRule) (access : AccessControl) (r l : ℕ)
    (p : ObjectPrivilege)
    → (has_relation_privilege r l p (grant_rules relation rules access) ≡ true) ↔ (
        (has_relation_privilege r l p access ≡ true)
        ⊎ ((l ≡ relation) × (gives (r, p) rules ≡ true)))
has-grant_rules relation [] access r l p = ground arith
has-grant_rules relation (rule ∷ rules) access r l p =
    let later =
      has-grant_rules relation rules (grant_relation_privilege rule.1.0 relation rule.1.1 access).1
        r l p in
    let now = has-grant rule.1.0 relation rule.1.1 access r l p in
    round now later (holder_eq r rule.1.0 p rule.1.1)

-- The privileges that an owner is given.
abbrev pub IsOwnerPrivilege : ObjectPrivilege → Type 0
IsOwnerPrivilege p = (p ≡ select) ⊎ (p ≡ insert) ⊎ (p ≡ update) ⊎ (p ≡ delete)

-- How the four grants of an owner combine.
four :
    {H I J K M R L P Q S T : Type 0}
    → I ↔ (H ⊎ (R × L × P))
    → J ↔ (I ⊎ (R × L × Q))
    → K ↔ (J ⊎ (R × L × S))
    → M ↔ (K ⊎ (R × L × T))
    → M ↔ (H ⊎ (L × R × (P ⊎ Q ⊎ S ⊎ T)))
four one two three last =
    ground (arith, one.0, one.1, two.0, two.1, three.0, three.1, last.0, last.1)

has-grant_owner :
    (owner relation : ℕ) (access : AccessControl) (r l : ℕ) (p : ObjectPrivilege)
    → (has_relation_privilege r l p (grant_relation_owner_privileges owner relation access) ≡ true)
      ↔ ((has_relation_privilege r l p access ≡ true)
          ⊎ ((l ≡ relation) × (r ≡ owner) × IsOwnerPrivilege p))
has-grant_owner owner relation access r l p =
    let a = (grant_relation_privilege owner relation select access).1 in
    let b = (grant_relation_privilege owner relation insert a).1 in
    let c = (grant_relation_privilege owner relation update b).1 in
    four (has-grant owner relation select access r l p) (has-grant owner relation insert a r l p)
      (has-grant owner relation update b r l p) (has-grant owner relation delete c r l p)

defaults-grant_rules :
    (relation : ℕ) (rules : List DefaultPrivilegeRule) (access : AccessControl)
    → (grant_rules relation rules access).default_relation_privileges
      ≡ access.default_relation_privileges
defaults-grant_rules relation [] access = refl
defaults-grant_rules relation (rule ∷ rules) access =
    defaults-grant_rules relation rules
      (grant_relation_privilege rule.1.0 relation rule.1.1 access).1

-- The grants of the owner and those by the rules.
together :
    {X O H W L : Type 0} {g c : Bool}
    → O ↔ (H ⊎ W)
    → X ↔ (O ⊎ (L × (g ≡ true)))
    → g ≡ c
    → X ↔ (H ⊎ W ⊎ (L × (c ≡ true)))
together owners rules same_rules = ground (arith, owners.0, owners.1, rules.0, rules.1, same_rules)

-- A new relation in a schema with a blank name is refused, and nothing changes. Otherwise a role
-- has a privilege afterwards exactly if it had it, or it owns the relation and the privilege is one
-- to read or change rows, or a default rule of the schema gives it; and the rules stay.
pub apply_default_relation_privileges_exact :
    (schema : Name) (relation owner : ℕ) (access : AccessControl)
    → ((is_blank schema ≡ true)
        × (apply_default_relation_privileges schema relation owner access
            ≡ (err invalid_input, access)))
      ⊎ ((is_blank schema ≡ false)
          × ((apply_default_relation_privileges schema relation owner access).0
              ≡ ok (rules_of schema access.default_relation_privileges))
          × ((apply_default_relation_privileges schema relation owner
                access).1.default_relation_privileges
              ≡ access.default_relation_privileges)
          × ((r l : ℕ) (p : ObjectPrivilege)
              → (has_relation_privilege r l p
                    (apply_default_relation_privileges schema relation owner access).1
                  ≡ true)
                ↔ ((has_relation_privilege r l p access ≡ true)
                    ⊎ ((l ≡ relation) × (r ≡ owner) × IsOwnerPrivilege p)
                    ⊎ ((l ≡ relation)
                        × (BTreeSet.contains {K = DefaultPrivilegeRule}
                              (schema, (r, p))
                              access.default_relation_privileges
                            ≡ true)))))
unfolding apply_default_relation_privileges
apply_default_relation_privileges_exact schema relation owner access =
    elim (Bool-cases (is_blank schema)) [
      | inl blank ↦ inl (blank, rw (blank, apply_default_relation_privileges) refl)
      | inr named ↦
          let owned = grant_relation_owner_privileges owner relation access in
          let rules = rules_of schema access.default_relation_privileges in
          inr (
            named,
            rw (named, apply_default_relation_privileges) refl,
            rw (named, apply_default_relation_privileges)
                (defaults-grant_rules relation rules owned),
            λ r l p.
                rw (named, apply_default_relation_privileges)
                  (together (has-grant_owner owner relation access r l p)
                    (has-grant_rules relation rules owned r l p)
                    (gives-rules_of schema (r, p) access.default_relation_privileges)),
          )
    ]
