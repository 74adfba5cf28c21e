-- ===== src/Index/Key.antt =====
-- crates/rnmdb-index/src/lib.rs, `IndexKey` with its derived order, and `IndexPointer`.
-- A text is the list of its bytes, by which Rust compares it.
use Prim.Native.Nat.{Ordering}
use Prim.Native.Nat.Ordering.{lt, eq, gt}
use rnov_modular_db.Base.{
  ℕ, ◌≡◌, refl, ap, ◌↔◌, Bool, true, false, ◌&&◌, ◌||◌, List, [], ◌∷◌, ◌==◌, In, arith,
}
use rnov_modular_db.Base.Int.{ℤ, cmp_ℤ, eq_of_parts}
use rnov_modular_db.Collections.Order.{TotalOrder, list_order, nat_order}

pub data IndexKey : Type 0 where
  int64 : ℤ → IndexKey
  text : List ℕ → IndexKey

-- The derived `Ord`: by variant first, then by value.
abbrev pub cmp_key : IndexKey → IndexKey → Ordering
cmp_key (int64 a) (int64 b) = cmp_ℤ a b
cmp_key (int64 a) (text t) = lt
cmp_key (text s) (int64 b) = gt
cmp_key (text s) (text t) = list_order.cmp s t

pub key_refl : (a : IndexKey) → cmp_key a a ≡ eq
key_refl (int64 a) = ground arith
key_refl (text s) = list_order.cmp_refl s

pub key_eq : (a b : IndexKey) → cmp_key a b ≡ eq → a ≡ b
key_eq (int64 a) (int64 b) h = ap int64 (ground (arith, eq_of_parts a b))
key_eq (int64 a) (text t) h = absurd (cc)
key_eq (text s) (int64 b) h = absurd (cc)
key_eq (text s) (text t) h = ap text (list_order.eq_of_cmp s t h)

pub key_gt : (a b : IndexKey) → cmp_key a b ≡ gt → cmp_key b a ≡ lt
key_gt (int64 a) (int64 b) h = ground arith
key_gt (int64 a) (text t) h = absurd (cc)
key_gt (text s) (int64 b) h = refl
key_gt (text s) (text t) h = list_order.lt_of_gt s t h

pub key_lt : (a b : IndexKey) → cmp_key a b ≡ lt → cmp_key b a ≡ gt
key_lt (int64 a) (int64 b) h = ground arith
key_lt (int64 a) (text t) h = refl
key_lt (text s) (int64 b) h = absurd (cc)
key_lt (text s) (text t) h = list_order.gt_of_lt s t h

pub key_trans : (a b c : IndexKey) → cmp_key a b ≡ lt → cmp_key b c ≡ lt → cmp_key a c ≡ lt
key_trans (int64 a) (int64 b) (int64 c) h k = ground arith
key_trans (int64 a) (int64 b) (text u) h k = refl
key_trans (int64 a) (text t) (int64 c) h k = absurd (cc)
key_trans (int64 a) (text t) (text u) h k = refl
key_trans (text s) (int64 b) c h k = absurd (cc)
key_trans (text s) (text t) (int64 c) h k = absurd (cc)
key_trans (text s) (text t) (text u) h k = list_order.lt_trans s t u h k

instance abbrev pub key_order : TotalOrder IndexKey
key_order = record {
  cmp = cmp_key;
  cmp_refl = key_refl;
  eq_of_cmp = key_eq;
  lt_of_gt = key_gt;
  gt_of_lt = key_lt;
  lt_trans = key_trans;
}

-- `page_id` is a `u64` and `slot_id` a `u16`.
pub record IndexPointer : Type 0 where
  pub page_id : ℕ
  pub slot_id : ℕ

-- The derived `PartialEq`.
abbrev pub pointer_eq : IndexPointer → IndexPointer → Bool
pointer_eq p q = p.page_id == q.page_id && p.slot_id == q.slot_id

pub pointer_eq_iff : (p q : IndexPointer) → (pointer_eq p q ≡ true) ↔ (p ≡ q)
pointer_eq_iff p q = ground arith

-- `Vec::contains`
abbrev pub contains : List IndexPointer → IndexPointer → Bool
contains [] p = false
contains (q ∷ qs) p = pointer_eq q p || contains qs p

pub contains-In : (qs : List IndexPointer) (p : IndexPointer) → (contains qs p ≡ true) ↔ In p qs
contains-In [] p = ground arith
contains-In (q ∷ qs) p = ground (arith, contains-In qs p, pointer_eq_iff q p)
