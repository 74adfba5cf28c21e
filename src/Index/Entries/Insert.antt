-- ===== src/Index/Entries/Insert.antt =====
-- One insertion into the entries of an index.
use rnov_modular_db.Base.{
  ◌≤◌, ◌≡◌, ◌≢◌, refl, ◌↔◌, ◌⊎◌, inl, inr, Bool, true, false, ◌||◌, some, List, [], ◌∷◌, ◌++◌, In,
  length, In-append, List-cases, arith, if◌then◌else◌,
}
use rnov_modular_db.Common.{ok, err, invalid_input}
use rnov_modular_db.Collections.Order.{TotalOrder, same, same_iff}
use rnov_modular_db.Collections.BTreeMap
use rnov_modular_db.Collections.BTreeMap.{get-insert, insert-IsSorted}
use rnov_modular_db.Index.Key.{IndexPointer, pointer_eq, pointer_eq_iff, contains, contains-In}
use rnov_modular_db.Index.Entries.{Entries, push_new, point_lookup, insert_entry}

pub In-push_new :
    (q p : IndexPointer) (ps : List IndexPointer) → In q (push_new p ps) ↔ ((q ≡ p) ⊎ In q ps)
In-push_new q p ps =
    ground (arith, contains-In ps p, contains-In ps q, pointer_eq_iff q p, In-append q ps (p ∷ []))

-- No pointer is listed twice.
abbrev pub IsNodup : List IndexPointer → Type 0
IsNodup [] = Unit
IsNodup (p ∷ ps) = (contains ps p ≡ false) × IsNodup ps

contains-concat :
    (ps : List IndexPointer) (p q : IndexPointer)
    → contains (ps ++ p ∷ []) q ≡ (contains ps q || pointer_eq p q)
contains-concat [] p q = ground arith
contains-concat (r ∷ ps) p q = ground (arith, contains-concat ps p q)

pub contains-push_new :
    (p q : IndexPointer) (ps : List IndexPointer)
    → contains (push_new p ps) q ≡ (pointer_eq p q || contains ps q)
contains-push_new p q ps = ground (arith, contains-concat ps p q, pointer_eq_iff p q)

concat-IsNodup :
    (p : IndexPointer) (ps : List IndexPointer)
    → contains ps p ≡ false
    → IsNodup ps
    → IsNodup (ps ++ p ∷ [])
concat-IsNodup p [] new h = (refl, tt)
concat-IsNodup p (q ∷ ps) new h =
    ground
      (arith, concat-IsNodup p ps, contains-concat ps p q, pointer_eq_iff p q, pointer_eq_iff q p)

pub push_new-IsNodup :
    (p : IndexPointer) (ps : List IndexPointer) → IsNodup ps → IsNodup (push_new p ps)
push_new-IsNodup p ps h = ground (arith, concat-IsNodup p ps)

pub push_new-ne-nil : (p : IndexPointer) (ps : List IndexPointer) → push_new p ps ≢ []
push_new-ne-nil p [] = λ e. cc
push_new-ne-nil p (q ∷ ps) = ground arith

module _ {ℓ} {K : Type ℓ} ⦃o : TotalOrder K⦄ where
  -- An insertion is refused exactly in a unique index that has the key; the lookups then stay the
  -- same. Otherwise the pointer joins those of its key, and no other key changes.
  pub insert_entry_outcome :
      (unique : Bool) (k : K) (p : IndexPointer) (m : Entries K)
      → ((unique ≡ true)
          × (point_lookup k m ≢ [])
          × ((insert_entry unique k p m).0 ≡ err invalid_input)
          × ((j : K) → point_lookup j (insert_entry unique k p m).1 ≡ point_lookup j m))
        ⊎ (((unique ≡ false) ⊎ (point_lookup k m ≡ []))
            × ((insert_entry unique k p m).0 ≡ ok tt)
            × ((j : K)
                → point_lookup j (insert_entry unique k p m).1
                  ≡ (if same j k then push_new p (point_lookup k m) else point_lookup j m)))
  unfolding insert_entry
  insert_entry_outcome false k p m =
      inr (inl refl, refl, λ j. ground (arith, get-insert j k (push_new p (point_lookup k m)) m))
  insert_entry_outcome true k p m = elim (List-cases (point_lookup k m)) [
    | inl empty ↦ inr (
      inr empty,
      ground arith,
      λ j. ground (arith, get-insert j k (push_new p (point_lookup k m)) m),
    )
    | inr (q, qs, e) ↦ inl (
      refl,
      ground arith,
      ground arith,
      λ j. ground (arith, get-insert j k (point_lookup k m) m, same_iff j k),
    )
  ]

  -- Either way the key, and no other, is stored.
  pub insert_entry_stores :
      (unique : Bool) (k : K) (p : IndexPointer) (m : Entries K)
      → (ps : List IndexPointer) × ((insert_entry unique k p m).1 ≡ BTreeMap.insert k ps m)
  unfolding insert_entry
  insert_entry_stores false k p m = (push_new p (point_lookup k m), refl)
  insert_entry_stores true k p m = elim (List-cases (point_lookup k m)) [
    | inl empty ↦ (push_new p (point_lookup k m), ground arith)
    | inr (q, qs, e) ↦ (point_lookup k m, ground arith)
  ]

  -- The entries of an index: keys ascend, every key has pointers, none twice, and in a unique index
  -- only one.
  pub record IsValid (unique : Bool) (m : Entries K) : Type ℓ where
    pub sorted : BTreeMap.IsSorted m
    pub nodup : (k : K) → IsNodup (point_lookup k m)
    pub single : unique ≡ true → (k : K) → length (point_lookup k m) ≤ 1
    pub filled : (k : K) (ps : List IndexPointer) → BTreeMap.get k m ≡ some ps → ps ≢ []

  pub insert_entry-IsValid :
      (unique : Bool) (k : K) (p : IndexPointer) (m : Entries K)
      → IsValid unique m
      → IsValid unique (insert_entry unique k p m).1
  unfolding insert_entry
  insert_entry-IsValid unique k p m v =
      let pointers = point_lookup k m in
      record {
        sorted = ground (
          arith,
          insert-IsSorted k pointers m v.sorted,
          insert-IsSorted k (push_new p pointers) m v.sorted,
        );
        nodup = λ j. ground (
          arith,
          get-insert j k pointers m,
          get-insert j k (push_new p pointers) m,
          push_new-IsNodup p pointers,
          v.nodup j,
          v.nodup k,
        );
        single = λ u j. elim (List-cases pointers) [
          | inl empty ↦ ground (arith, get-insert j k (push_new p pointers) m, v.single u j)
          | inr (q, qs, e) ↦ ground (arith, get-insert j k pointers m, v.single u j, v.single u k)
        ];
        filled = λ j ps e. elim (List-cases pointers) [
          | inl empty ↦ ground (
            arith,
            get-insert j k (push_new p pointers) m,
            push_new-ne-nil p pointers,
            v.filled j ps,
          )
          | inr (q, qs, is) ↦ ground (
            arith,
            get-insert j k pointers m,
            get-insert j k (push_new p pointers) m,
            push_new-ne-nil p pointers,
            v.filled j ps,
          )
        ];
      }
