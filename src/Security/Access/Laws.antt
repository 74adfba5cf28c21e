-- ===== src/Security/Access/Laws.antt =====
-- Who has a privilege after each operation of `AccessControl`.
use rnov_modular_db.Base.{ℕ, ◌≡◌, refl, ◌⊎◌, inl, inr, true, false, not, ◌&&◌, ◌||◌, Bool-cases}
use rnov_modular_db.Collections.Order.{same, nat_order, list_order, pair_order}
use rnov_modular_db.Collections.BTreeSet
use rnov_modular_db.Collections.BTreeSet.{contains-insert, contains-remove}
use rnov_modular_db.Security.Access.{
  ObjectPrivilege, privilege_order, RelationGrant, Name, DefaultPrivilegeRule, is_blank, rule_new,
  AccessControl, grant_relation_privilege, revoke_relation_privilege, has_relation_privilege,
  add_default_relation_privilege, revoke_default_relation_privilege,
}

-- After a grant the role has the privilege, after a revocation it has not, and nothing else changes.
-- The answers tell whether the operation changed anything.
pub grant_revoke_outcome :
    (role relation : ℕ) (privilege : ObjectPrivilege) (access : AccessControl)
    → ((r l : ℕ) (p : ObjectPrivilege)
        → (has_relation_privilege r l p (grant_relation_privilege role relation privilege access).1
            ≡ (same {K = RelationGrant} (r, (l, p)) (role, (relation, privilege))
                || has_relation_privilege r l p access))
          × (has_relation_privilege r l p
                (revoke_relation_privilege role relation privilege access).1
              ≡ (not (same {K = RelationGrant} (r, (l, p)) (role, (relation, privilege)))
                  && has_relation_privilege r l p access)))
      × ((grant_relation_privilege role relation privilege access).0
          ≡ not (has_relation_privilege role relation privilege access))
      × ((revoke_relation_privilege role relation privilege access).0
          ≡ has_relation_privilege role relation privilege access)
grant_revoke_outcome role relation privilege access = (
  λ r l p. (
    contains-insert {K = RelationGrant} (r, (l, p)) (role, (relation, privilege))
        access.relation_grants,
    contains-remove {K = RelationGrant} (r, (l, p)) (role, (relation, privilege))
        access.relation_grants,
  ),
  refl,
  refl,
)

-- A default rule for a schema with a blank name is neither added nor revoked. Otherwise the rule is
-- there after it is added and gone after it is revoked, every other rule and all grants are as
-- before, and the answers tell whether anything changed.
pub default_rule_outcome :
    (schema : Name) (role : ℕ) (privilege : ObjectPrivilege) (access : AccessControl)
    → ((is_blank schema ≡ true)
        × (add_default_relation_privilege schema role privilege access ≡ (false, access))
        × (revoke_default_relation_privilege schema role privilege access ≡ (false, access)))
      ⊎ ((is_blank schema ≡ false)
          × ((add_default_relation_privilege schema role privilege access).1.relation_grants
              ≡ access.relation_grants)
          × ((revoke_default_relation_privilege schema role privilege access).1.relation_grants
              ≡ access.relation_grants)
          × ((rule : DefaultPrivilegeRule)
              → (BTreeSet.contains rule
                    (add_default_relation_privilege schema role privilege
                      access).1.default_relation_privileges
                  ≡ (same rule (schema, (role, privilege))
                      || BTreeSet.contains rule access.default_relation_privileges))
                × (BTreeSet.contains rule
                      (revoke_default_relation_privilege schema role privilege
                        access).1.default_relation_privileges
                    ≡ (not (same rule (schema, (role, privilege)))
                        && BTreeSet.contains rule access.default_relation_privileges))))
unfolding add_default_relation_privilege revoke_default_relation_privilege rule_new
default_rule_outcome schema role privilege access = elim (Bool-cases (is_blank schema)) [
  | inl blank ↦ inl (
    blank,
    rw (blank, add_default_relation_privilege, rule_new) refl,
    rw (blank, revoke_default_relation_privilege, rule_new) refl,
  )
  | inr named ↦ inr (
    named,
    rw (named, add_default_relation_privilege, rule_new) refl,
    rw (named, revoke_default_relation_privilege, rule_new) refl,
    λ rule. (
      rw (named, add_default_relation_privilege, rule_new)
          (contains-insert rule (schema, (role, privilege)) access.default_relation_privileges),
      rw (named, revoke_default_relation_privilege, rule_new)
          (contains-remove rule (schema, (role, privilege)) access.default_relation_privileges),
    ),
  )
]
