-- ===== src/Security/Audit/Bytes.antt =====
-- The bytes that are hashed determine the fields of a record.
use rnov_modular_db.Base.{
  ℕ, zero, suc, ◌+◌, ◌*◌, ◌/◌, ◌%◌, ◌^◌, ◌<◌, ◌≡◌, refl, sym, ap, ◌∙◌, [], ◌∷◌, ◌++◌, length,
  length-append, arith,
}
use mathlib.Core.List.{append-nil, append_assoc}
use native.Mathlib.Nat.{mul-le-mul_right}
use rnov_modular_db.Security.Audit.{Bytes, AuditEventKind, audit_kind_tag, be_bytes}

-- The number that bytes denote, after the bytes of `n`.
abbrev pub denoted : ℕ → Bytes → ℕ
denoted n [] = n
denoted n (b ∷ bs) = denoted (256 * n + b) bs

denoted-append : (n : ℕ) (xs ys : Bytes) → denoted n (xs ++ ys) ≡ denoted (denoted n xs) ys
denoted-append n [] ys = refl
denoted-append n (x ∷ xs) ys = denoted-append (256 * n + x) xs ys

-- `256 ^ w`, by recursion on the width.
abbrev pub capacity : ℕ → ℕ
capacity zero = 1
capacity (suc w) = 256 * capacity w

pub denoted-be_bytes : (w n : ℕ) → n < capacity w → denoted 0 (be_bytes w n) ≡ n
denoted-be_bytes zero n h = ground arith
denoted-be_bytes (suc w) n h =
    ground (
      arith,
      denoted-be_bytes w (n / 256),
      denoted-append 0 (be_bytes w (n / 256)) ((n % 256) ∷ []),
    )

pub length-be_bytes : (w n : ℕ) → length (be_bytes w n) ≡ w
length-be_bytes zero n = refl
length-be_bytes (suc w) n =
    ground
      (arith, length-be_bytes w (n / 256), length-append (be_bytes w (n / 256)) ((n % 256) ∷ []))

-- Every byte is smaller than 256.
abbrev pub IsBytes : Bytes → Type 0
IsBytes [] = Unit {0}
IsBytes (b ∷ bs) = (b < 256) × IsBytes bs

be_bytes-denoted_at :
    (w k n : ℕ) (bs : Bytes)
    → w ≡ length bs + k
    → IsBytes bs
    → be_bytes w (denoted n bs) ≡ be_bytes k n ++ bs
be_bytes-denoted_at w k n [] e bytes =
    ap (λ v. be_bytes v n) {x = w} {y = k} (omega (arith, e)) ∙ sym (append-nil (be_bytes k n))
be_bytes-denoted_at w k n (b ∷ bs) e (small, bytes) =
    be_bytes-denoted_at w (suc k) (256 * n + b) bs (omega (arith, e)) bytes
    ∙ ap (λ m. (be_bytes k m ++ (256 * n + b) % 256 ∷ []) ++ bs) {x = (256 * n + b) / 256} {y = n}
        (omega (arith, small))
    ∙ ap (λ d. (be_bytes k n ++ d ∷ []) ++ bs) {x = (256 * n + b) % 256} {y = b}
        (omega (arith, small))
    ∙ append_assoc (be_bytes k n) (b ∷ []) bs

pub be_bytes-denoted :
    (w : ℕ) (bs : Bytes) → length bs ≡ w → IsBytes bs → be_bytes w (denoted 0 bs) ≡ bs
be_bytes-denoted w bs e bytes = be_bytes-denoted_at w 0 0 bs (omega (arith, e)) bytes

pub denoted-bound : (n : ℕ) (bs : Bytes) → IsBytes bs → denoted n bs < suc n * capacity (length bs)
denoted-bound n [] bytes = omega arith
denoted-bound n (b ∷ bs) (small, bytes) = omega (
  arith,
  denoted-bound (256 * n + b) bs bytes,
  mul-le-mul_right {m = suc (256 * n + b)} {n = 256 * suc n} (capacity (length bs))
      (omega (arith, small)),
)

-- Two lists with prefixes of one length agree in the prefixes and in the rests.
pub append_cancel :
    (xs ys us vs : Bytes) → length xs ≡ length ys → xs ++ us ≡ ys ++ vs → (xs ≡ ys) × (us ≡ vs)
append_cancel [] [] us vs l e = (refl, e)
append_cancel [] (y ∷ ys) us vs l e = ground arith
append_cancel (x ∷ xs) [] us vs l e = ground arith
append_cancel (x ∷ xs) (y ∷ ys) us vs l e = ground (arith, append_cancel xs ys us vs)

-- Numbers of eight bytes in front of two equal lists are equal, and so are the rests.
pub be_bytes_cancel :
    (a b : ℕ) (us vs : Bytes)
    → a < 2 ^ 64
    → b < 2 ^ 64
    → be_bytes 8 a ++ us ≡ be_bytes 8 b ++ vs
    → (a ≡ b) × (us ≡ vs)
be_bytes_cancel a b us vs small small' e =
    let (digits, rests) =
      append_cancel (be_bytes 8 a) (be_bytes 8 b) us vs
        (length-be_bytes 8 a ∙ sym (length-be_bytes 8 b)) e in
    (sym (denoted-be_bytes 8 a small) ∙ ap (denoted 0) digits ∙ denoted-be_bytes 8 b small', rests)

pub audit_kind_tag_injective : (k l : AuditEventKind) → audit_kind_tag k ≡ audit_kind_tag l → k ≡ l
audit_kind_tag_injective k l e = ground arith
