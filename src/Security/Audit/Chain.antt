-- ===== src/Security/Audit/Chain.antt =====
-- Appending keeps a chain linked, so that it passes its inspection.
use rnov_modular_db.Base.{
  ℕ, ◌+◌, ◌≡◌, ◌≢◌, refl, sym, ap, ◌⊎◌, inl, inr, true, Option, List, [], ◌∷◌, ◌++◌, length, subst,
  arith,
}
use rnov_modular_db.Common.{ok, err, invalid_input}
use rnov_modular_db.Collections.Order.{list_order, nat_order}
use rnov_modular_db.Security.Audit.{
  Bytes, AuditEventKind, AuditRecord, zero_digest, AuditInspection, AuditChain, last_digest,
  audit_digest, record_new, append, chain_verify, new,
}
use rnov_modular_db.Security.Audit.Laws.{IsNext, IsLinked, inspect_records_linked}

-- A call of `AuditChain::append` with its three arguments.
abbrev pub AppendCall : Type 0
AppendCall = Option ℕ × AuditEventKind × Bytes

module _ (sha256 : Bytes → Bytes) where
  IsLinked-append :
      (instance_id index : ℕ) (previous : Bytes) (rs : List AuditRecord) (r : AuditRecord)
      → IsLinked sha256 instance_id index previous rs
      → IsNext sha256 instance_id (index + length rs) (last_digest previous rs) r
      → IsLinked sha256 instance_id index previous (rs ++ r ∷ [])
  IsLinked-append instance_id index previous [] r linked n =
      (subst (λ i. IsNext sha256 instance_id i previous r) (omega arith) n, tt)
  IsLinked-append instance_id index previous (x ∷ rs) r linked n = (
    linked.0,
    IsLinked-append instance_id (index + 1) x.digest rs r linked.1
        (subst (λ i. IsNext sha256 instance_id i (last_digest x.digest rs) r) (omega arith) n),
  )

  append-instance :
      (role : Option ℕ) (kind : AuditEventKind) (message : Bytes) (chain : AuditChain)
      → (append sha256 role kind message chain).1.instance_id ≡ chain.instance_id
  unfolding append record_new
  append-instance role kind [] chain = refl
  append-instance role kind (b ∷ bs) chain = refl

  -- Appending is refused for an empty message, and then changes nothing. Otherwise the record stands
  -- at the end, and a chain that was linked still is.
  pub append_outcome :
      (role : Option ℕ) (kind : AuditEventKind) (message : Bytes) (chain : AuditChain)
      → IsLinked sha256 chain.instance_id 0 zero_digest chain.records
      → IsLinked sha256 chain.instance_id 0 zero_digest
          (append sha256 role kind message chain).1.records
        × (((message ≡ []) × (append sha256 role kind message chain ≡ (err invalid_input, chain)))
            ⊎ ((message ≢ [])
                × ((r : AuditRecord) × ((append sha256 role kind message chain).0 ≡ ok r)
                    × (r.role_id ≡ role)
                    × (r.kind ≡ kind)
                    × (r.message ≡ message)
                    × ((append sha256 role kind message chain).1.records
                        ≡ chain.records ++ r ∷ []))))
  unfolding append record_new
  append_outcome role kind [] chain linked = (linked, inl (refl, refl))
  append_outcome role kind (b ∷ bs) chain linked =
      let r : AuditRecord = record {
        instance_id = chain.instance_id;
        role_id = role;
        sequence = length chain.records + 1;
        kind = kind;
        message = b ∷ bs;
        previous_digest = last_digest zero_digest chain.records;
        digest =
            audit_digest sha256 chain.instance_id role (length chain.records + 1) kind (b ∷ bs)
              (last_digest zero_digest chain.records);
      } in
      (
        IsLinked-append chain.instance_id 0 zero_digest chain.records r linked
            (refl, omega arith, refl, refl),
        inr (λ e. absurd (cc), (r, refl, refl, refl, refl, refl)),
      )

  pub run : List AppendCall → AuditChain → AuditChain
  run [] chain = chain
  run ((role, kind, message) ∷ calls) chain = run calls (append sha256 role kind message chain).1

  run-IsLinked :
      (calls : List AppendCall) (chain : AuditChain)
      → IsLinked sha256 chain.instance_id 0 zero_digest chain.records
      → IsLinked sha256 (run calls chain).instance_id 0 zero_digest (run calls chain).records
  unfolding run
  run-IsLinked [] chain linked = linked
  run-IsLinked ((role, kind, message) ∷ calls) chain linked =
      run-IsLinked calls (append sha256 role kind message chain).1 (
        subst
          (λ i. IsLinked sha256 i 0 zero_digest (append sha256 role kind message chain).1.records)
          (sym (append-instance role kind message chain))
          (append_outcome role kind message chain linked).0)

  -- After any appends, refused ones among them, the chain verifies.
  pub chain_verify-run :
      (instance_id : ℕ) (calls : List AppendCall)
      → chain_verify sha256 (run calls (new instance_id)) ≡ true
  unfolding chain_verify
  chain_verify-run instance_id calls =
      let chain = run calls (new instance_id) in
      let linked = run-IsLinked calls (new instance_id) tt in
      ap (λ (x : AuditInspection). x.valid)
        (inspect_records_linked sha256 chain.instance_id chain.records linked)
