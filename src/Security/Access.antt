-- ===== src/Security/Access.antt =====
-- crates/rnmdb-security/src/lib.rs: `AccessControl`. A name is the list of its characters, as code
-- points; their order is that of the UTF-8 bytes by which Rust compares texts.
pub mod Laws
pub mod Defaults
use rnov_modular_db.Base.{
  ℕ, ◌≡◌, refl, ap, Bool, true, false, not, ◌&&◌, ◌||◌, List, [], ◌∷◌, ◌==◌, ltb, if◌then◌else◌,
  arith,
}
use rnov_modular_db.Common.{Result, ok, err, invalid_input, reject_if, ◌>>=◌, ◌>>◌}
use rnov_modular_db.Collections.Order.{
  TotalOrder, same, nat_order, list_order, pair_order, order_by,
}
use rnov_modular_db.Collections.BTreeSet
use rnov_modular_db.Collections.BTreeSet.{BTreeSet}

pub data ObjectPrivilege : Type 0 where
  select insert update delete execute decrypt : ObjectPrivilege

-- The position of the variant, by which the derived `Ord` compares.
abbrev pub position : ObjectPrivilege → ℕ
position select = 0
position insert = 1
position update = 2
position delete = 3
position execute = 4
position decrypt = 5

pub position_injective : (p q : ObjectPrivilege) → position p ≡ position q → p ≡ q
position_injective p q e = ground arith

instance abbrev pub privilege_order : TotalOrder ObjectPrivilege
privilege_order = order_by position position_injective

-- `RelationGrant`, with its fields in the order in which the derived `Ord` compares them:
-- `role_id`, `relation_id`, `privilege`.
abbrev pub RelationGrant : Type 0
RelationGrant = ℕ × (ℕ × ObjectPrivilege)

abbrev pub Name : Type 0
Name = List ℕ

-- `DefaultPrivilegeRule`: `schema_name`, `role_id`, `privilege`.
abbrev pub DefaultPrivilegeRule : Type 0
DefaultPrivilegeRule = Name × (ℕ × ObjectPrivilege)

-- `char::is_whitespace`: the characters with the property White_Space.
abbrev pub is_whitespace : ℕ → Bool
is_whitespace c =
    not (ltb c 9) && ltb c 14
    || c == 32
    || c == 133
    || c == 160
    || c == 5760
    || not (ltb c 8192) && ltb c 8203
    || c == 8232
    || c == 8233
    || c == 8239
    || c == 8287
    || c == 12288

-- `str::trim` leaves nothing.
abbrev pub is_blank : Name → Bool
is_blank [] = true
is_blank (c ∷ cs) = is_whitespace c && is_blank cs

-- `validate_schema_name`
abbrev pub validate_schema_name : Name → Result (Unit {0})
validate_schema_name schema_name = reject_if (is_blank schema_name) invalid_input

-- `DefaultPrivilegeRule::new`
pub rule_new : Name → ℕ → ObjectPrivilege → Result DefaultPrivilegeRule
rule_new schema_name role_id privilege =
    validate_schema_name schema_name >> ok (schema_name, (role_id, privilege))

pub record AccessControl : Type 0 where
  pub relation_grants : BTreeSet RelationGrant
  pub default_relation_privileges : BTreeSet DefaultPrivilegeRule

-- `AccessControl::new`
abbrev pub new : AccessControl
new = record { relation_grants = []; default_relation_privileges = [] }

-- `AccessControl::grant_relation_privilege`: the answer is whether the grant is new.
abbrev pub grant_relation_privilege : ℕ → ℕ → ObjectPrivilege → AccessControl → Bool × AccessControl
grant_relation_privilege role relation privilege access =
    let grant : RelationGrant = (role, (relation, privilege)) in
    (
      not (BTreeSet.contains grant access.relation_grants),
      record access { relation_grants = BTreeSet.insert grant access.relation_grants },
    )

-- `AccessControl::revoke_relation_privilege`: the answer is whether there was such a grant.
abbrev pub revoke_relation_privilege :
    ℕ → ℕ → ObjectPrivilege → AccessControl → Bool × AccessControl
revoke_relation_privilege role relation privilege access =
    let grant : RelationGrant = (role, (relation, privilege)) in
    (
      BTreeSet.contains grant access.relation_grants,
      record access { relation_grants = BTreeSet.remove grant access.relation_grants },
    )

-- `AccessControl::has_relation_privilege`
abbrev pub has_relation_privilege : ℕ → ℕ → ObjectPrivilege → AccessControl → Bool
has_relation_privilege role relation privilege access =
    BTreeSet.contains (role, (relation, privilege)) access.relation_grants

-- `AccessControl::add_default_relation_privilege`
pub add_default_relation_privilege :
    Name → ℕ → ObjectPrivilege → AccessControl → Bool × AccessControl
add_default_relation_privilege schema_name role privilege access =
    elim (rule_new schema_name role privilege) [
      | err e ↦ (false, access)
      | ok rule ↦ (
        not (BTreeSet.contains rule access.default_relation_privileges),
        record access {
          default_relation_privileges = BTreeSet.insert rule access.default_relation_privileges;
        },
      )
    ]

-- `AccessControl::revoke_default_relation_privilege`
pub revoke_default_relation_privilege :
    Name → ℕ → ObjectPrivilege → AccessControl → Bool × AccessControl
revoke_default_relation_privilege schema_name role privilege access =
    elim (rule_new schema_name role privilege) [
      | err e ↦ (false, access)
      | ok rule ↦ (
        BTreeSet.contains rule access.default_relation_privileges,
        record access {
          default_relation_privileges = BTreeSet.remove rule access.default_relation_privileges;
        },
      )
    ]

-- The filter of `default_relation_privileges`.
abbrev pub rules_of : Name → List DefaultPrivilegeRule → List DefaultPrivilegeRule
rules_of schema_name [] = []
rules_of schema_name (rule ∷ rules) =
    if same rule.0 schema_name
    then rule ∷ rules_of schema_name rules
    else rules_of schema_name rules

-- `relation_owner_privileges` and the loop of `grant_relation_owner_privileges`
abbrev pub grant_relation_owner_privileges : ℕ → ℕ → AccessControl → AccessControl
grant_relation_owner_privileges owner relation access =
    (grant_relation_privilege owner relation delete
      (grant_relation_privilege owner relation update
        (grant_relation_privilege owner relation insert
          (grant_relation_privilege owner relation select access).1).1).1).1

-- The loop of `apply_default_relation_privileges`.
abbrev pub grant_rules : ℕ → List DefaultPrivilegeRule → AccessControl → AccessControl
grant_rules relation [] access = access
grant_rules relation (rule ∷ rules) access =
    grant_rules relation rules (grant_relation_privilege rule.1.0 relation rule.1.1 access).1

-- `AccessControl::apply_default_relation_privileges`
pub apply_default_relation_privileges :
    Name → ℕ → ℕ → AccessControl → Result (List DefaultPrivilegeRule) × AccessControl
apply_default_relation_privileges schema_name relation owner access =
    elim (validate_schema_name schema_name) [
      | err e ↦ (err e, access)
      | ok _ ↦
          let owned = grant_relation_owner_privileges owner relation access in
          let rules = rules_of schema_name owned.default_relation_privileges in
          (ok rules, grant_rules relation rules owned)
    ]
