-- ===== src/Security/Audit/Laws.antt =====
-- What an inspection accepts and what it reports; appended records pass it.
use rnov_modular_db.Base.{
  ℕ, ◌+◌, ◌≡◌, refl, sym, ap, ◌∙◌, ◌↔◌, ◌⊎◌, inl, inr, true, false, some, List, [], ◌∷◌, ◌++◌, ◌==◌,
  length, Bool-cases, subst, arith,
}
use rnov_modular_db.Collections.Order.{same, same_iff, list_order, nat_order}
use rnov_modular_db.Security.Audit.{
  Bytes, AuditRecord, zero_digest, AuditInspectionFailure, instance_mismatch, sequence_gap,
  previous_digest_mismatch, record_digest_mismatch, AuditInspection, inspection_valid,
  inspection_invalid, last_digest, audit_digest, verify, inspect_from, inspect_records,
}

-- `AuditInspectionFailure::record_index`
abbrev pub record_index : AuditInspectionFailure → ℕ
record_index (instance_mismatch i e a) = i
record_index (sequence_gap i e a) = i
record_index (previous_digest_mismatch i e a) = i
record_index (record_digest_mismatch i s) = i

module _ (sha256 : Bytes → Bytes) where
  -- A record is of the instance, has the number that its position asks for, continues from the
  -- digest before it, and carries the digest of its own fields.
  abbrev pub IsNext : ℕ → ℕ → Bytes → AuditRecord → Type 0
  IsNext instance_id index previous r =
      (r.instance_id ≡ instance_id)
      × (r.sequence ≡ index + 1)
      × (r.previous_digest ≡ previous)
      × (r.digest
          ≡ audit_digest sha256 r.instance_id r.role_id r.sequence r.kind r.message
              r.previous_digest)

  abbrev pub IsLinked : ℕ → ℕ → Bytes → List AuditRecord → Type 0
  IsLinked instance_id index previous [] = Unit
  IsLinked instance_id index previous (r ∷ rs) =
      IsNext instance_id index previous r × IsLinked instance_id (index + 1) r.digest rs

  verify_iff :
      (r : AuditRecord)
      → (verify sha256 r ≡ true) ↔ (
          r.digest
          ≡ audit_digest sha256 r.instance_id r.role_id r.sequence r.kind r.message
              r.previous_digest)
  unfolding verify
  verify_iff r = same_iff _ _

  -- The first bad record: those before it are linked, it is not next, and the report names its
  -- position and the digest before it.
  abbrev pub FirstBad : ℕ → ℕ → Bytes → List AuditRecord → AuditInspection → Type 0
  FirstBad instance_id index previous rs report =
      (good : List AuditRecord) × (bad : AuditRecord) × (rest : List AuditRecord) × (rs
        ≡ good ++ bad ∷ rest)
      × IsLinked instance_id index previous good
      × ¬ IsNext instance_id (index + length good) (last_digest previous good) bad
      × (report.valid ≡ false)
      × (report.last_valid_digest ≡ last_digest previous good)
      × ((f : AuditInspectionFailure) × (report.failure ≡ some f)
          × (record_index f ≡ index + length good))

  -- One round of the loop: the record is next and the loop goes on, or it is reported.
  inspect_round :
      (instance_id total index : ℕ) (previous : Bytes) (r : AuditRecord) (rs : List AuditRecord)
      → (IsNext instance_id index previous r
          × (inspect_from sha256 instance_id total index previous (r ∷ rs)
              ≡ inspect_from sha256 instance_id total (index + 1) r.digest rs))
        ⊎ (¬ IsNext instance_id index previous r
            × ((f : AuditInspectionFailure) × (inspect_from sha256 instance_id total index previous
                    (r ∷ rs)
                  ≡ inspection_invalid instance_id total previous f)
                × (record_index f ≡ index)))
  unfolding inspect_from
  inspect_round instance_id total index previous r rs =
      elim (Bool-cases (r.instance_id == instance_id)) [
        | inr other ↦ inr (
          λ n. ground (arith, n),
          (instance_mismatch index instance_id r.instance_id, rw other refl, refl),
        )
        | inl here ↦ elim (Bool-cases (r.sequence == index + 1)) [
          | inr gap ↦ inr (
            λ n. ground (arith, n),
            (sequence_gap index (index + 1) r.sequence, rw (here, inspect_from, gap) refl, refl),
          )
          | inl next ↦ elim (Bool-cases (same r.previous_digest previous)) [
            | inr broken ↦ inr (
              λ n. ground (arith, n, same_iff r.previous_digest previous),
              (
                previous_digest_mismatch index previous r.previous_digest,
                rw (here, inspect_from, next, broken) refl,
                refl,
              ),
            )
            | inl joined ↦ elim (Bool-cases (verify sha256 r)) [
              | inr forged ↦ inr (
                λ n. ground (arith, n, verify_iff r),
                (
                  record_digest_mismatch index r.sequence,
                  rw (here, inspect_from, next, joined, forged) refl,
                  refl,
                ),
              )
              | inl sound ↦ inl (
                (
                  ground arith,
                  ground arith,
                  (same_iff r.previous_digest previous).0 joined,
                  (verify_iff r).0 sound,
                ),
                rw (here, inspect_from, next, joined, sound) refl,
              )
            ]
          ]
        ]
      ]

  -- A record that is next moves the first bad one a position further.
  FirstBad-next :
      (instance_id index : ℕ) (previous : Bytes) (r : AuditRecord) (rs : List AuditRecord)
      (report : AuditInspection)
      → IsNext instance_id index previous r
      → FirstBad instance_id (index + 1) r.digest rs report
      → FirstBad instance_id index previous (r ∷ rs) report
  FirstBad-next instance_id index previous r rs report n
        (good, bad, rest, e, linked, not_next, invalid, last, (f, is, at')) =
      (
        r ∷ good,
        bad,
        rest,
        ap (λ xs. r ∷ xs) e,
        (n, linked),
        subst (λ i. ¬ IsNext instance_id i (last_digest r.digest good) bad) (omega arith) not_next,
        invalid,
        last,
        (f, is, omega (arith, at')),
      )

  inspect_from_outcome :
      (instance_id total index : ℕ) (previous : Bytes) (rs : List AuditRecord)
      → (IsLinked instance_id index previous rs
          × (inspect_from sha256 instance_id total index previous rs
              ≡ inspection_valid instance_id total (last_digest previous rs)))
        ⊎ FirstBad instance_id index previous rs
            (inspect_from sha256 instance_id total index previous rs)
  unfolding inspect_from
  inspect_from_outcome instance_id total index previous [] = inl (tt, refl)
  inspect_from_outcome instance_id total index previous (r ∷ rs) =
      elim (inspect_round instance_id total index previous r rs) [
        | inr (not_next, (f, is, at')) ↦ inr (
          [],
          r,
          rs,
          refl,
          tt,
          subst (λ i. ¬ IsNext instance_id i previous r) (omega arith) not_next,
          ap (λ (x : AuditInspection). x.valid) is,
          ap (λ (x : AuditInspection). x.last_valid_digest) is,
          (f, ap (λ (x : AuditInspection). x.failure) is, omega (arith, at')),
        )
        | inl (n, goes_on) ↦ elim (inspect_from_outcome instance_id total (index + 1) r.digest rs) [
          | inl (linked, accepted) ↦ inl ((n, linked), goes_on ∙ accepted)
          | inr bad ↦ inr (
              subst (FirstBad instance_id index previous (r ∷ rs)) (sym goes_on) (
                FirstBad-next instance_id index previous r rs
                  (inspect_from sha256 instance_id total (index + 1) r.digest rs) n bad))
        ]
      ]

  -- Stored records pass the inspection exactly if each is of the instance, has the next number,
  -- continues from the digest before it and carries its own digest; the report then has their number
  -- and the last digest. Otherwise it names the position of the first record that fails, and the
  -- digest before that.
  pub inspect_records_outcome :
      (instance_id : ℕ) (rs : List AuditRecord)
      → (IsLinked instance_id 0 zero_digest rs
          × (inspect_records sha256 instance_id rs
              ≡ inspection_valid instance_id (length rs) (last_digest zero_digest rs)))
        ⊎ FirstBad instance_id 0 zero_digest rs (inspect_records sha256 instance_id rs)
  unfolding inspect_records
  inspect_records_outcome instance_id rs =
      inspect_from_outcome instance_id (length rs) 0 zero_digest rs

  inspect_from_linked :
      (instance_id total index : ℕ) (previous : Bytes) (rs : List AuditRecord)
      → IsLinked instance_id index previous rs
      → inspect_from sha256 instance_id total index previous rs
        ≡ inspection_valid instance_id total (last_digest previous rs)
  unfolding inspect_from
  inspect_from_linked instance_id total index previous [] linked = refl
  inspect_from_linked instance_id total index previous (r ∷ rs) linked =
      elim (inspect_round instance_id total index previous r rs) [
        | inr (not_next, _) ↦ absurd (not_next linked.0)
        | inl (_, goes_on) ↦
            goes_on ∙ inspect_from_linked instance_id total (index + 1) r.digest rs linked.1
      ]

  pub inspect_records_linked :
      (instance_id : ℕ) (rs : List AuditRecord)
      → IsLinked instance_id 0 zero_digest rs
      → inspect_records sha256 instance_id rs
        ≡ inspection_valid instance_id (length rs) (last_digest zero_digest rs)
  unfolding inspect_records
  inspect_records_linked instance_id rs linked =
      inspect_from_linked instance_id (length rs) 0 zero_digest rs linked
