-- ===== src/Security/Audit.antt =====
-- crates/rnmdb-security/src/lib.rs: `AuditRecord`, `AuditChain` and its inspection. SHA-256 is a
-- parameter; a digest is the list of its bytes, and so is a message.
pub mod Bytes
pub mod Laws
pub mod Chain
pub mod Tamper
use rnov_modular_db.Base.{
  ℕ, zero, suc, ◌+◌, ◌*◌, ◌/◌, ◌%◌, ◌^◌, Bool, true, false, not, Option, none, some, List, [], ◌∷◌,
  ◌++◌, ◌==◌, length, is_empty, if◌then◌else◌,
}
use rnov_modular_db.Common.{Result, ok, err, invalid_input, reject_if, ◌>>◌}
use rnov_modular_db.Collections.Order.{same, list_order, nat_order}

abbrev pub Bytes : Type 0
Bytes = List ℕ

pub data AuditEventKind : Type 0 where
  authentication authorization privilege_change policy_change : AuditEventKind
  key_event ddl backup_restore denied_access : AuditEventKind

-- `audit_kind_tag`
abbrev pub audit_kind_tag : AuditEventKind → ℕ
audit_kind_tag authentication = 0
audit_kind_tag authorization = 1
audit_kind_tag privilege_change = 2
audit_kind_tag policy_change = 3
audit_kind_tag key_event = 4
audit_kind_tag ddl = 5
audit_kind_tag backup_restore = 6
audit_kind_tag denied_access = 7

-- The last `w` bytes of a number, the most significant first.
abbrev pub be_bytes : ℕ → ℕ → Bytes
be_bytes zero n = []
be_bytes (suc w) n = be_bytes w (n / 256) ++ (n % 256) ∷ []

-- `u64::to_be_bytes`
abbrev pub to_be_bytes : ℕ → Bytes
to_be_bytes n = be_bytes 8 n

abbrev pub zeros : ℕ → Bytes
zeros zero = []
zeros (suc n) = 0 ∷ zeros n

-- `AuditDigest::zero`
abbrev pub zero_digest : Bytes
zero_digest = zeros 32

-- `RNOVDB-AUDIT-V1`
abbrev pub domain : Bytes
domain = 82 ∷ 78 ∷ 79 ∷ 86 ∷ 68 ∷ 66 ∷ 45 ∷ 65 ∷ 85 ∷ 68 ∷ 73 ∷ 84 ∷ 45 ∷ 86 ∷ 49 ∷ []

-- `role_id.map_or(0, RoleId::get)`
abbrev pub role_number : Option ℕ → ℕ
role_number none = 0
role_number (some role) = role

pub record AuditRecord : Type 0 where
  pub instance_id : ℕ
  pub role_id : Option ℕ
  pub sequence : ℕ
  pub kind : AuditEventKind
  pub message : Bytes
  pub previous_digest : Bytes
  pub digest : Bytes

-- The bytes that `audit_digest` hashes.
abbrev pub preimage : ℕ → Option ℕ → ℕ → AuditEventKind → Bytes → Bytes → Bytes
preimage instance_id role_id sequence kind message previous_digest =
    domain
    ++ (to_be_bytes instance_id
        ++ (to_be_bytes (role_number role_id)
            ++ (to_be_bytes sequence
                ++ (audit_kind_tag kind
                    ∷ (to_be_bytes (length message) ++ (message ++ previous_digest))))))

pub data AuditInspectionFailure : Type 0 where
  instance_mismatch : (record_index expected actual : ℕ) → AuditInspectionFailure
  sequence_gap : (record_index expected actual : ℕ) → AuditInspectionFailure
  previous_digest_mismatch : (record_index : ℕ) (expected actual : Bytes) → AuditInspectionFailure
  record_digest_mismatch : (record_index sequence : ℕ) → AuditInspectionFailure

pub record AuditInspection : Type 0 where
  pub instance_id : ℕ
  pub record_count : ℕ
  pub valid : Bool
  pub last_valid_digest : Bytes
  pub failure : Option AuditInspectionFailure

-- `AuditInspection::valid`
abbrev pub inspection_valid : ℕ → ℕ → Bytes → AuditInspection
inspection_valid instance_id record_count last = record {
  instance_id = instance_id;
  record_count = record_count;
  valid = true;
  last_valid_digest = last;
  failure = none;
}

-- `AuditInspection::invalid`
abbrev pub inspection_invalid : ℕ → ℕ → Bytes → AuditInspectionFailure → AuditInspection
inspection_invalid instance_id record_count last failure = record {
  instance_id = instance_id;
  record_count = record_count;
  valid = false;
  last_valid_digest = last;
  failure = some failure;
}

pub record AuditChain : Type 0 where
  pub instance_id : ℕ
  pub records : List AuditRecord

-- `AuditChain::new`
abbrev pub new : ℕ → AuditChain
new instance_id = record { instance_id = instance_id; records = [] }

-- `records.last().map_or(AuditDigest::zero(), AuditRecord::digest)`
abbrev pub last_digest : Bytes → List AuditRecord → Bytes
last_digest start [] = start
last_digest start (r ∷ rs) = last_digest r.digest rs

module _ (sha256 : Bytes → Bytes) where
  -- `audit_digest`
  pub audit_digest : ℕ → Option ℕ → ℕ → AuditEventKind → Bytes → Bytes → Bytes
  audit_digest instance_id role_id sequence kind message previous_digest =
      sha256 (preimage instance_id role_id sequence kind message previous_digest)

  -- `AuditRecord::new`
  pub record_new : ℕ → Option ℕ → ℕ → AuditEventKind → Bytes → Bytes → Result AuditRecord
  record_new instance_id role_id sequence kind message previous_digest =
      reject_if (is_empty message) invalid_input
      >> ok (record {
        instance_id = instance_id;
        role_id = role_id;
        sequence = sequence;
        kind = kind;
        message = message;
        previous_digest = previous_digest;
        digest = audit_digest instance_id role_id sequence kind message previous_digest;
      })

  -- `AuditRecord::verify`
  pub verify : AuditRecord → Bool
  verify r =
      same r.digest
        (audit_digest r.instance_id r.role_id r.sequence r.kind r.message r.previous_digest)

  -- `AuditChain::append`
  pub append : Option ℕ → AuditEventKind → Bytes → AuditChain → Result AuditRecord × AuditChain
  append role_id kind message chain =
      elim (record_new chain.instance_id role_id (length chain.records + 1) kind message
        (last_digest zero_digest chain.records)) [
          | err e ↦ (err e, chain)
          | ok r ↦ (ok r, record chain { records = chain.records ++ r ∷ [] })
        ]

  -- The loop of `AuditChain::inspect_records` from the record number `index` on.
  pub inspect_from : ℕ → ℕ → ℕ → Bytes → List AuditRecord → AuditInspection
  inspect_from instance_id total index previous [] = inspection_valid instance_id total previous
  inspect_from instance_id total index previous (r ∷ rs) =
      let rest = inspect_from instance_id total (index + 1) r.digest rs in
      if not (r.instance_id == instance_id)
      then inspection_invalid instance_id total previous
          (instance_mismatch index instance_id r.instance_id)
      else if not (r.sequence == index + 1)
      then inspection_invalid instance_id total previous (sequence_gap index (index + 1) r.sequence)
      else if not (same r.previous_digest previous)
      then inspection_invalid instance_id total previous
          (previous_digest_mismatch index previous r.previous_digest)
      else if not (verify r)
      then inspection_invalid instance_id total previous (record_digest_mismatch index r.sequence)
      else rest

  -- `AuditChain::inspect_records`
  pub inspect_records : ℕ → List AuditRecord → AuditInspection
  inspect_records instance_id records =
      inspect_from instance_id (length records) 0 zero_digest records

  -- `AuditChain::verify`
  pub chain_verify : AuditChain → Bool
  chain_verify chain = (inspect_records chain.instance_id chain.records).valid
