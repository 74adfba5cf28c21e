-- ===== src/Storage/Codec/Exact.antt =====
-- The bytes that `decode` accepts are those that `encode` writes.
use rnov_modular_db.Base.{
  ℕ, zero, suc, ◌+◌, ◌*◌, ◌^◌, ◌≤◌, ◌<◌, ◌≡◌, ◌↔◌, refl, sym, ap, ◌∙◌, inl, inr, [], ◌∷◌, ◌++◌,
  ◌==◌, ltb, length, Bool-cases, subst, arith,
}
use rnov_modular_db.Common.{ErrorKind, ok, err, corruption, ◌>>=◌}
use rnov_modular_db.Collections.Order.{same, same_iff, list_order, nat_order}
use rnov_modular_db.Security.Audit.{Bytes, to_be_bytes}
use rnov_modular_db.Security.Audit.Bytes.{
  denoted, IsBytes, capacity, be_bytes-denoted, denoted-bound,
}
use rnov_modular_db.Security.Envelope.{take, drop, byte_at}
use rnov_modular_db.Security.Envelope.Laws.{
  take-drop, drop_next, drop-drop, length-drop, length-take,
}
use rnov_modular_db.Storage.Page.{Page}
use rnov_modular_db.Storage.Codec.{
  Crc, page_magic, checksum_page, with_checksum, encode, validate_encoded_header, decode_header,
  decode,
}
use rnov_modular_db.Storage.Codec.Layout.{laid_out, header_of}
use rnov_modular_db.Storage.Codec.Laws.{
  IsStorable, seal, decode-laid_out, accepted_only, decode-encode,
}

IsBytes-take : (n : ℕ) (bs : Bytes) → IsBytes bs → IsBytes (take n bs)
IsBytes-take zero bs h = tt
IsBytes-take (suc n) [] h = tt
IsBytes-take (suc n) (b ∷ bs) (small, h) = (small, IsBytes-take n bs h)

IsBytes-drop : (n : ℕ) (bs : Bytes) → IsBytes bs → IsBytes (drop n bs)
IsBytes-drop zero bs h = h
IsBytes-drop (suc n) [] h = tt
IsBytes-drop (suc n) (b ∷ bs) (small, h) = IsBytes-drop n bs h

-- The eight bytes from an index on.
abbrev eight : ℕ → Bytes → Bytes
eight n bs = take 8 (drop n bs)

length-eight : (n : ℕ) (bs : Bytes) → n + 8 ≤ length bs → length (eight n bs) ≡ 8
length-eight n bs h = length-take 8 (drop n bs) (omega (arith, h, length-drop n bs))

be_bytes-eight :
    (n : ℕ) (bs : Bytes)
    → n + 8 ≤ length bs
    → IsBytes bs
    → to_be_bytes (denoted 0 (eight n bs)) ≡ eight n bs
be_bytes-eight n bs h bytes =
    be_bytes-denoted 8 (eight n bs) (length-eight n bs h)
      (IsBytes-take 8 (drop n bs) (IsBytes-drop n bs bytes))

denoted-eight :
    (n : ℕ) (bs : Bytes) → n + 8 ≤ length bs → IsBytes bs → denoted 0 (eight n bs) < 2 ^ 64
denoted-eight n bs h bytes =
    let bound =
      denoted-bound 0 (eight n bs) (IsBytes-take 8 (drop n bs) (IsBytes-drop n bs bytes)) in
    omega (arith, subst (λ w. denoted 0 (eight n bs) < 1 * capacity w) (length-eight n bs h) bound)

next_eight : (n m : ℕ) (bs : Bytes) → m ≡ 8 + n → drop n bs ≡ eight n bs ++ drop m bs
next_eight n m bs e =
    sym (take-drop 8 (drop n bs))
    ∙ ap (λ r. eight n bs ++ r) (drop-drop 8 n m bs (omega (arith, e)))

-- A long enough text with the right magic and version is laid out by its slices.
layout :
    (bs : Bytes)
    → 41 ≤ length bs
    → take 8 bs ≡ page_magic
    → byte_at 8 bs ≡ 2
    → bs ≡ laid_out (eight 9 bs) (eight 17 bs) (eight 25 bs) (eight 33 bs) (drop 41 bs)
unfolding laid_out
layout bs long magic version =
    sym (take-drop 8 bs)
    ∙ ap (λ m. m ++ drop 8 bs) magic
    ∙ ap (λ r. page_magic ++ r)
        (drop_next 8 bs (omega (arith, long))
          ∙ ap (λ v. v ∷ drop 9 bs) version
          ∙ ap (λ r. 2 ∷ r)
              (next_eight 9 17 bs refl
                ∙ ap (λ r. eight 9 bs ++ r)
                    (next_eight 17 25 bs refl
                      ∙ ap (λ r. eight 17 bs ++ r)
                          (next_eight 25 33 bs refl
                            ∙ ap (λ r. eight 25 bs ++ r) (next_eight 33 41 bs refl)))))

-- `decode` reads only such texts.
decode_guards :
    (crc : Crc) (bs : Bytes) (page : Page)
    → decode crc bs ≡ ok page
    → (41 ≤ length bs) × (take 8 bs ≡ page_magic) × (byte_at 8 bs ≡ 2)
unfolding decode decode_header validate_encoded_header
decode_guards crc bs page e = elim (Bool-cases (ltb (length bs) 41)) [
  | inl short ↦ refused corruption (rw (decode, decode_header, validate_encoded_header, short) refl)
  | inr long ↦ elim (Bool-cases (same (take 8 bs) page_magic)) [
    | inr other ↦
        refused corruption (rw (decode, decode_header, validate_encoded_header, long, other) refl)
    | inl magic ↦ elim (Bool-cases (byte_at 8 bs == 2)) [
      | inr newer ↦
          refused corruption
            (rw (decode, decode_header, validate_encoded_header, long, magic, newer) refl)
      | inl version ↦
          (ground (arith, long), (same_iff (take 8 bs) page_magic).0 magic, ground (arith, version))
    ]
  ]
]
  where
    refused : {P : Type 0} (k : ErrorKind) → decode crc bs ≡ err k → P
    refused k h = absurd (cc (e, h))

-- A page that `encode` has written.
abbrev pub IsSealed : Crc → Page → Type 0
IsSealed crc page = IsStorable page × (page ≡ seal crc page)

laid_out-agree :
    (a a' b b' c c' d d' payload : Bytes)
    → a ≡ a'
    → b ≡ b'
    → c ≡ c'
    → d ≡ d'
    → laid_out a b c d payload ≡ laid_out a' b' c' d' payload
laid_out-agree a a' b b' c c' d d' payload ea eb ec ed = rw (ea, eb, ec, ed) refl

-- What is laid out by eight bytes for each number is written for the page with these numbers.
encode-laid_out :
    (crc : Crc) (a b c d payload : Bytes)
    → (to_be_bytes (denoted 0 a) ≡ a)
    → (to_be_bytes (denoted 0 b) ≡ b)
    → (to_be_bytes (denoted 0 c) ≡ c)
    → (to_be_bytes (denoted 0 d) ≡ d)
    → denoted 0 d ≡ checksum_page crc (header_of a b c d) payload
    → (encode crc (record { header = header_of a b c d; payload = payload })
        ≡ ok (laid_out a b c d payload))
      × (record { header = header_of a b c d; payload = payload }
          ≡ seal crc (record { header = header_of a b c d; payload = payload }))
unfolding encode checksum_page laid_out
encode-laid_out crc a b c d payload wa wb wc wd checksum = (
  ap ok (
      laid_out-agree (to_be_bytes (denoted 0 a)) a (to_be_bytes (denoted 0 b)) b
        (to_be_bytes (denoted 0 c)) c (to_be_bytes (checksum_page crc (header_of a b c d) payload))
        d payload wa wb wc (ap to_be_bytes (sym checksum) ∙ wd)),
  ap (λ k. record { header = with_checksum k (header_of a b c d); payload = payload }) checksum,
)

decode_sound :
    (crc : Crc) (bs : Bytes) (page : Page)
    → IsBytes bs
    → decode crc bs ≡ ok page
    → (encode crc page ≡ ok bs) × IsSealed crc page
unfolding encode checksum_page laid_out
decode_sound crc bs page bytes e =
    let (long, magic, version) = decode_guards crc bs page e in
    let laid = layout bs long magic version in
    let (is, some_bytes, size, checksum) =
      accepted_only crc (header_of (eight 9 bs) (eight 17 bs) (eight 25 bs) (eight 33 bs))
        (drop 41 bs) page
        (sym (
            decode-laid_out crc (eight 9 bs) (eight 17 bs) (eight 25 bs) (eight 33 bs) (drop 41 bs)
              (length-eight 9 bs (omega (arith, long))) (length-eight 17 bs (omega (arith, long)))
              (length-eight 25 bs (omega (arith, long))) (length-eight 33 bs (omega (arith, long))))
          ∙ ap (decode crc) (sym laid)
          ∙ e) in
    let (written, sealed) =
      encode-laid_out crc (eight 9 bs) (eight 17 bs) (eight 25 bs) (eight 33 bs) (drop 41 bs)
        (be_bytes-eight 9 bs (omega (arith, long)) bytes)
        (be_bytes-eight 17 bs (omega (arith, long)) bytes)
        (be_bytes-eight 25 bs (omega (arith, long)) bytes)
        (be_bytes-eight 33 bs (omega (arith, long)) bytes) checksum in
    let size64 = denoted-eight 25 bs (omega (arith, long)) bytes in
    subst (λ p. (encode crc p ≡ ok bs) × IsSealed crc p) (sym is)
      (
        written ∙ ap ok (sym laid),
        (
          (
            denoted-eight 9 bs (omega (arith, long)) bytes,
            denoted-eight 17 bs (omega (arith, long)) bytes,
            some_bytes,
            subst (λ n. n < 2 ^ 64) size size64,
            size,
          ),
          sealed,
        ),
      )

pub decode_written :
    (crc : Crc)
    → ((bytes : Bytes) → crc bytes < 2 ^ 64)
    → (bs : Bytes) (page : Page) → encode crc page ≡ ok bs
    → IsSealed crc page
    → decode crc bs ≡ ok page
decode_written crc small bs page written sealed =
    ap (λ r. r >>= decode crc) (sym written)
    ∙ decode-encode crc small page sealed.0
    ∙ ap ok (sym sealed.1)

-- Whatever bytes `decode` accepts, they are what `encode` writes for the page that it returns, which
-- can be stored and has the version and the checksum set; and it accepts all such bytes.
pub decode_iff :
    (crc : Crc)
    → ((bytes : Bytes) → crc bytes < 2 ^ 64)
    → (bs : Bytes) (page : Page) → IsBytes bs
    → (decode crc bs ≡ ok page) ↔ ((encode crc page ≡ ok bs) × IsSealed crc page)
decode_iff crc small bs page bytes = (
  decode_sound crc bs page bytes,
  λ (written, sealed). decode_written crc small bs page written sealed,
)
