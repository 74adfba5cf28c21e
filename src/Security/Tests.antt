-- ===== src/Security/Tests.antt =====
-- Instances of the theorems on access and audit.
use rnov_modular_db.Base.{
  ℕ, ◌≡◌, refl, sym, ap, ◌↔◌, ◌⊎◌, true, false, none, some, [], ◌∷◌, ◌++◌, List, length, arith,
}
use rnov_modular_db.Common.{ok, err, invalid_input, corruption, security}
use rnov_modular_db.Collections.Order.{nat_order, list_order, pair_order}
use rnov_modular_db.Collections.BTreeSet
use rnov_modular_db.Security.Access.{
  ObjectPrivilege, privilege_order, select, Name, DefaultPrivilegeRule, is_blank, AccessControl,
  has_relation_privilege, rules_of, apply_default_relation_privileges,
}
use rnov_modular_db.Security.Access.Defaults.{
  IsOwnerPrivilege, apply_default_relation_privileges_exact,
}
use rnov_modular_db.Security.Audit.{
  Bytes, AuditRecord, authentication, key_event, zero_digest, AuditInspection, inspection_valid,
  AuditChain, last_digest, audit_digest, inspect_records, chain_verify, new,
}
use rnov_modular_db.Security.Audit.Laws.{
  IsLinked, FirstBad, inspect_records_outcome, inspect_records_linked,
}
use rnov_modular_db.Security.Audit.Chain.{AppendCall, run, chain_verify-run}
use rnov_modular_db.Security.Envelope.{
  encode_column_value_envelope, ColumnValueEnvelope, decode, Cipher,
  encrypt_column_value_with_nonce, decrypt_column_value,
}
use rnov_modular_db.Security.Envelope.Laws.{IsEnvelope, decode_outcome, decrypt-encrypt}
use rnov_modular_db.Security.Audit.Tamper.{
  AllFit, AllAgree, Collision, tamper_evident, role_zero_undetected,
}

abbrev few : ℕ
few = 4

abbrev seven : ℕ
seven = 7

abbrev sales : Name
sales = 115 ∷ 97 ∷ []

abbrev guarded : AccessControl
guarded = record {
  relation_grants = (1, (4, select)) ∷ [];
  default_relation_privileges = (sales, (2, select)) ∷ [];
}

-- A function in the place of SHA-256.
abbrev hash : Bytes → Bytes
hash bytes = length bytes ∷ bytes

abbrev first_record : AuditRecord
first_record = record {
  instance_id = 7;
  role_id = none;
  sequence = 1;
  kind = authentication;
  message = sales;
  previous_digest = zero_digest;
  digest = audit_digest hash 7 none 1 authentication sales zero_digest;
}

abbrev stored : List AuditRecord
stored = first_record ∷ []

linked : IsLinked hash 7 0 zero_digest stored
linked = ((refl, refl, refl, refl), tt)

fit : AllFit stored
fit = ((omega arith, omega arith), tt)

accepted : (inspect_records hash 7 stored).valid ≡ true
accepted = ap (λ (x : AuditInspection). x.valid) (inspect_records_linked hash 7 stored linked)

abbrev chain : AuditChain
chain = record { instance_id = 7; records = stored }

abbrev twelve : Bytes
twelve = 1 ∷ 2 ∷ 3 ∷ 4 ∷ 5 ∷ 6 ∷ 7 ∷ 8 ∷ 9 ∷ 10 ∷ 11 ∷ 12 ∷ []

abbrev boxed : Bytes
boxed = encode_column_value_envelope twelve sales

-- A cipher that leaves the message as it is.
abbrev plain : Cipher
plain key nonce aad message = some message

opens :
    (key nonce aad message sealed : Bytes)
    → plain key nonce aad message ≡ some sealed
    → plain key nonce aad sealed ≡ some message
opens key nonce aad message sealed h = sym h

abbrev calls : List AppendCall
calls = (none, authentication, sales) ∷ (some 3, key_event, []) ∷ (some 3, key_event, sales) ∷ []

apply_default_relation_privileges_exact_example :
    ((is_blank sales ≡ true)
      × (apply_default_relation_privileges sales few few guarded ≡ (err invalid_input, guarded)))
    ⊎ ((is_blank sales ≡ false)
        × ((apply_default_relation_privileges sales few few guarded).0
            ≡ ok (rules_of sales guarded.default_relation_privileges))
        × ((apply_default_relation_privileges sales few few guarded).1.default_relation_privileges
            ≡ guarded.default_relation_privileges)
        × ((r l : ℕ) (p : ObjectPrivilege)
            → (has_relation_privilege r l p
                  (apply_default_relation_privileges sales few few guarded).1
                ≡ true)
              ↔ ((has_relation_privilege r l p guarded ≡ true)
                  ⊎ ((l ≡ few) × (r ≡ few) × IsOwnerPrivilege p)
                  ⊎ ((l ≡ few)
                      × (BTreeSet.contains {K = DefaultPrivilegeRule}
                            (sales, (r, p))
                            guarded.default_relation_privileges
                          ≡ true)))))
apply_default_relation_privileges_exact_example =
    apply_default_relation_privileges_exact sales few few guarded

inspect_records_outcome_example :
    (IsLinked hash seven 0 zero_digest stored
      × (inspect_records hash seven stored
          ≡ inspection_valid seven (length stored) (last_digest zero_digest stored)))
    ⊎ FirstBad hash seven 0 zero_digest stored (inspect_records hash seven stored)
inspect_records_outcome_example = inspect_records_outcome hash seven stored

chain_verify-run_example : chain_verify hash (run hash calls (new seven)) ≡ true
chain_verify-run_example = chain_verify-run hash seven calls

tamper_evident_example : Collision hash ⊎ AllAgree stored stored
tamper_evident_example = tamper_evident hash seven stored stored fit fit accepted refl

role_zero_undetected_example :
    inspect_records hash seven ([] ++ record first_record { role_id = some 0 } ∷ [])
    ≡ inspect_records hash seven ([] ++ first_record ∷ [])
role_zero_undetected_example = role_zero_undetected hash seven [] first_record [] refl accepted

decode_outcome_example :
    ((e : ColumnValueEnvelope) × (decode boxed ≡ ok e) × IsEnvelope boxed e)
    ⊎ ((decode boxed ≡ err corruption) × ¬ ((e : ColumnValueEnvelope) × IsEnvelope boxed e))
decode_outcome_example = decode_outcome boxed

decrypt-encrypt_example :
    (encrypt_column_value_with_nonce plain sales few sales sales twelve ≡ err security)
    ⊎ ((encrypted : Bytes) × (encrypt_column_value_with_nonce plain sales few sales sales twelve
          ≡ ok encrypted)
        × (decrypt_column_value plain sales few sales encrypted ≡ ok sales))
decrypt-encrypt_example = decrypt-encrypt plain plain opens sales few sales sales twelve refl
