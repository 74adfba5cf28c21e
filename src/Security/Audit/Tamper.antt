-- ===== src/Security/Audit/Tamper.antt =====
-- Tampering: stored records that end in a known digest are the ones that were appended, unless two
-- different byte strings with one SHA-256 digest have been found.
use rnov_modular_db.Base.{
  ℕ, suc, ◌+◌, ◌^◌, ◌<◌, ◌≡◌, ◌≢◌, refl, sym, ap, ◌∙◌, ◌⊎◌, inl, inr, true, Option, none, some,
  List, [], ◌∷◌, ◌++◌, length, Bool-cases, arith,
}
use rnov_modular_db.Collections.Order.{same, same_iff, list_order, nat_order}
use rnov_modular_db.Security.Audit.{
  Bytes, AuditEventKind, audit_kind_tag, to_be_bytes, domain, role_number, AuditRecord, zero_digest,
  preimage, last_digest, audit_digest, inspect_records, AuditInspection, inspection_valid,
}
use rnov_modular_db.Security.Audit.Bytes.{append_cancel, be_bytes_cancel, audit_kind_tag_injective}
use rnov_modular_db.Security.Audit.Laws.{
  IsNext, IsLinked, inspect_records_outcome, inspect_records_linked,
}

-- What the hash of a record covers of two records: all but the difference between no role and role
-- zero.
pub record Agree (r s : AuditRecord) : Type 0 where
  pub role : role_number r.role_id ≡ role_number s.role_id
  pub kind : r.kind ≡ s.kind
  pub message : r.message ≡ s.message
  pub sequence : r.sequence ≡ s.sequence

abbrev pub AllAgree : List AuditRecord → List AuditRecord → Type 0
AllAgree [] [] = Unit
AllAgree [] (s ∷ ss) = ⊥
AllAgree (r ∷ rs) [] = ⊥
AllAgree (r ∷ rs) (s ∷ ss) = Agree r s × AllAgree rs ss

-- Numbers that a record stores in eight bytes fit there.
abbrev pub Fits : AuditRecord → Type 0
Fits r = (role_number r.role_id < 2 ^ 64) × (length r.message < 2 ^ 64)

abbrev pub AllFit : List AuditRecord → Type 0
AllFit [] = Unit
AllFit (r ∷ rs) = Fits r × AllFit rs

preimage_injective :
    (i j n n' : ℕ) (o p : Option ℕ) (k l : AuditEventKind) (m m' d d' : Bytes)
    → role_number o < 2 ^ 64
    → role_number p < 2 ^ 64
    → length m < 2 ^ 64
    → length m' < 2 ^ 64
    → preimage i o n k m d ≡ preimage j p n' l m' d'
    → (role_number o ≡ role_number p) × (k ≡ l) × (m ≡ m') × (d ≡ d')
preimage_injective i j n n' o p k l m m' d d' a b c e h =
    let after_domain = (append_cancel domain domain _ _ refl h).1 in
    let after_instance = (append_cancel (to_be_bytes i) (to_be_bytes j) _ _ refl after_domain).1 in
    let (roles, after_role) =
      be_bytes_cancel (role_number o) (role_number p) _ _ a b after_instance in
    let after_number = (append_cancel (to_be_bytes n) (to_be_bytes n') _ _ refl after_role).1 in
    let (tags, after_tag) =
      append_cancel (audit_kind_tag k ∷ []) (audit_kind_tag l ∷ []) _ _ refl after_number in
    let (lengths, after_length) = be_bytes_cancel (length m) (length m') _ _ c e after_tag in
    let (messages, digests) = append_cancel m m' d d' lengths after_length in
    (roles, audit_kind_tag_injective k l (ground (arith, tags)), messages, digests)

module _ (sha256 : Bytes → Bytes) where
  -- Two different byte strings with one digest.
  abbrev pub Collision : Type 0
  Collision = (x : Bytes) × (y : Bytes) × (x ≢ y) × (sha256 x ≡ sha256 y)

  collision_or_equal : (x y : Bytes) → sha256 x ≡ sha256 y → Collision ⊎ (x ≡ y)
  collision_or_equal x y e = elim (Bool-cases (same x y)) [
    | inl one ↦ inr ((same_iff x y).0 one)
    | inr two ↦ inl (x, y, ground (arith, same_iff x y), e)
  ]

  -- Two records that are next, with equal digests, agree, and continue from one digest.
  IsNext-Agree :
      (i index : ℕ) (p q : Bytes) (r s : AuditRecord)
      → IsNext sha256 i index p r
      → IsNext sha256 i index q s
      → Fits r
      → Fits s
      → r.digest ≡ s.digest
      → Collision ⊎ ((p ≡ q) × Agree r s)
  unfolding audit_digest
  IsNext-Agree i index p q r s n m f g e =
      elim (collision_or_equal
        (preimage r.instance_id r.role_id r.sequence r.kind r.message r.previous_digest)
        (preimage s.instance_id s.role_id s.sequence s.kind s.message s.previous_digest)
        (sym n.3 ∙ e ∙ m.3)) [
          | inl found ↦ inl found
          | inr one ↦
              let (roles, kinds, messages, digests) =
                preimage_injective r.instance_id s.instance_id r.sequence s.sequence r.role_id
                  s.role_id r.kind s.kind r.message s.message r.previous_digest s.previous_digest
                  f.0 g.0 f.1 g.1 one in
              inr (
                sym n.2 ∙ digests ∙ m.2,
                record { role = roles; kind = kinds; message = messages; sequence = n.1 ∙ sym m.1 },
              )
        ]

  IsLinked-AllAgree :
      (i index : ℕ) (p q : Bytes) (rs ss : List AuditRecord)
      → IsLinked sha256 i index p rs
      → IsLinked sha256 i index q ss
      → AllFit rs
      → AllFit ss
      → length rs ≡ length ss
      → last_digest p rs ≡ last_digest q ss
      → Collision ⊎ ((p ≡ q) × AllAgree rs ss)
  IsLinked-AllAgree i index p q [] [] n m f g l e = inr (e, tt)
  IsLinked-AllAgree i index p q [] (s ∷ ss) n m f g l e = ground arith
  IsLinked-AllAgree i index p q (r ∷ rs) [] n m f g l e = ground arith
  IsLinked-AllAgree i index p q (r ∷ rs) (s ∷ ss) n m f g l e =
      elim (IsLinked-AllAgree i (index + 1) r.digest s.digest rs ss n.1 m.1 f.1 g.1
        (omega (arith, l)) e) [
          | inl found ↦ inl found
          | inr (digests, rests) ↦ elim (IsNext-Agree i index p q r s n.0 m.0 f.0 g.0 digests) [
            | inl found ↦ inl found
            | inr (starts, agree) ↦ inr (starts, (agree, rests))
          ]
        ]

  inspect_records-IsLinked :
      (i : ℕ) (rs : List AuditRecord)
      → (inspect_records sha256 i rs).valid ≡ true
      → IsLinked sha256 i 0 zero_digest rs
        × ((inspect_records sha256 i rs).last_valid_digest ≡ last_digest zero_digest rs)
        × ((inspect_records sha256 i rs).record_count ≡ length rs)
  inspect_records-IsLinked i rs h = elim (inspect_records_outcome sha256 i rs) [
    | inl (linked, is) ↦ (
      linked,
      ap (λ (x : AuditInspection). x.last_valid_digest) is,
      ap (λ (x : AuditInspection). x.record_count) is,
    )
    | inr bad ↦ absurd (cc (h, bad.6))
  ]

  -- Two lists of stored records that pass the inspection of one instance, and for which it reports
  -- the same number of records and the same last digest, hold the same events in the same order (up
  -- to the difference between no role and role zero), or two byte strings with one SHA-256 digest
  -- have been found.
  pub tamper_evident :
      (i : ℕ) (rs ss : List AuditRecord)
      → AllFit rs
      → AllFit ss
      → (inspect_records sha256 i rs).valid ≡ true
      → inspect_records sha256 i rs ≡ inspect_records sha256 i ss
      → Collision ⊎ AllAgree rs ss
  tamper_evident i rs ss f g h e =
      let (linked, last, count) = inspect_records-IsLinked i rs h in
      let (linked', last', count') =
        inspect_records-IsLinked i ss (ap (λ (x : AuditInspection). x.valid) (sym e) ∙ h) in
      elim (IsLinked-AllAgree i 0 zero_digest zero_digest rs ss linked linked' f g
        (sym count ∙ ap (λ (x : AuditInspection). x.record_count) e ∙ count')
        (sym last ∙ ap (λ (x : AuditInspection). x.last_valid_digest) e ∙ last')) [
          | inl found ↦ inl found
          | inr (_, agree) ↦ inr agree
        ]

  relinked :
      (i index : ℕ) (p : Bytes) (good : List AuditRecord) (r : AuditRecord)
      (rest : List AuditRecord)
      → r.role_id ≡ none
      → IsLinked sha256 i index p (good ++ r ∷ rest)
      → IsLinked sha256 i index p (good ++ record r { role_id = some 0 } ∷ rest)
        × (last_digest p (good ++ record r { role_id = some 0 } ∷ rest)
            ≡ last_digest p (good ++ r ∷ rest))
        × (length (good ++ record r { role_id = some 0 } ∷ rest) ≡ length (good ++ r ∷ rest))
  unfolding audit_digest
  relinked i index p [] r rest no_role linked = (rw no_role at linked, refl, refl)
  relinked i index p (x ∷ good) r rest no_role linked =
      let (linked', last, count) = relinked i (index + 1) x.digest good r rest no_role linked.1 in
      ((linked.0, linked'), last, ap suc count)

  -- A digest does not tell a record without a role from one with role zero: in stored records that
  -- pass the inspection, a record without a role can be given role zero, and the report is the same.
  pub role_zero_undetected :
      (i : ℕ) (good : List AuditRecord) (r : AuditRecord) (rest : List AuditRecord)
      → r.role_id ≡ none
      → (inspect_records sha256 i (good ++ r ∷ rest)).valid ≡ true
      → inspect_records sha256 i (good ++ record r { role_id = some 0 } ∷ rest)
        ≡ inspect_records sha256 i (good ++ r ∷ rest)
  role_zero_undetected i good r rest no_role h =
      let linked = (inspect_records-IsLinked i (good ++ r ∷ rest) h).0 in
      let (linked', last, count) = relinked i 0 zero_digest good r rest no_role linked in
      inspect_records_linked sha256 i (good ++ record r { role_id = some 0 } ∷ rest) linked'
      ∙ (ap
            (λ n.
              inspection_valid i n
                (last_digest zero_digest (good ++ record r { role_id = some 0 } ∷ rest)))
            count
          ∙ (ap (inspection_valid i (length (good ++ r ∷ rest))) last
              ∙ sym (inspect_records_linked sha256 i (good ++ r ∷ rest) linked)))
