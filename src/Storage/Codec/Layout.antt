-- ===== src/Storage/Codec/Layout.antt =====
-- The slices that `decode` takes are the parts of a page that is laid out.
use rnov_modular_db.Base.{
  ℕ, ◌+◌, ◌≤◌, ◌≡◌, refl, sym, ap, ◌∙◌, ◌∷◌, ◌++◌, length, length-append, arith,
}
use rnov_modular_db.Common.{ok}
use rnov_modular_db.Security.Audit.{Bytes}
use rnov_modular_db.Security.Envelope.{take, drop}
use rnov_modular_db.Security.Envelope.Laws.{drop-drop, take-append, drop-append}
use rnov_modular_db.Storage.Page.{PageHeader, header_new}
use rnov_modular_db.Storage.Codec.{
  from_be_bytes, page_magic, with_checksum, read_header_array, validate_encoded_header,
  decode_header,
}

-- The bytes of a page with these four numbers and this payload.
unfoldable pub laid_out : Bytes → Bytes → Bytes → Bytes → Bytes → Bytes
laid_out a b c d payload = page_magic ++ (2 ∷ (a ++ (b ++ (c ++ (d ++ payload)))))

abbrev pub header_of : Bytes → Bytes → Bytes → Bytes → PageHeader
header_of a b c d =
    with_checksum (from_be_bytes d)
      (header_new (from_be_bytes a) (from_be_bytes b) (from_be_bytes c))

skip : (k : ℕ) (xs ys : Bytes) → length xs ≡ 8 → drop (8 + k) (xs ++ ys) ≡ drop k ys
skip k xs ys h = sym (drop-drop k 8 (8 + k) (xs ++ ys) refl) ∙ ap (drop k) (drop-append 8 xs ys h)

read_at :
    (n offset : ℕ) (bs xs : Bytes)
    → offset + n ≤ length bs
    → take n (drop offset bs) ≡ xs
    → read_header_array n offset bs ≡ ok xs
unfolding read_header_array
read_at n offset bs xs long is = ground (arith, long, is)

module _ (a b c d payload : Bytes) (la : length a ≡ 8) (lb : length b ≡ 8) (lc : length c ≡ 8)
    (ld : length d ≡ 8) where
  pub length-laid_out : length (laid_out a b c d payload) ≡ 41 + length payload
  unfolding laid_out
  length-laid_out = ground (
    arith,
    length-append a (b ++ (c ++ (d ++ payload))),
    length-append b (c ++ (d ++ payload)),
    length-append c (d ++ payload),
    length-append d payload,
  )

  reads :
      (read_header_array 8 9 (laid_out a b c d payload) ≡ ok a)
      × (read_header_array 8 17 (laid_out a b c d payload) ≡ ok b)
      × (read_header_array 8 25 (laid_out a b c d payload) ≡ ok c)
      × (read_header_array 8 33 (laid_out a b c d payload) ≡ ok d)
  unfolding laid_out
  reads = (
    read_at 8 9 (laid_out a b c d payload) a (omega (arith, length-laid_out))
        (take-append 8 a _ la),
    read_at 8 17 (laid_out a b c d payload) b (omega (arith, length-laid_out))
        (ap (take 8) (skip 0 a (b ++ (c ++ (d ++ payload))) la) ∙ take-append 8 b _ lb),
    read_at 8 25 (laid_out a b c d payload) c (omega (arith, length-laid_out)) (
        ap (take 8) (skip 8 a (b ++ (c ++ (d ++ payload))) la ∙ skip 0 b (c ++ (d ++ payload)) lb)
        ∙ take-append 8 c _ lc),
    read_at 8 33 (laid_out a b c d payload) d (omega (arith, length-laid_out)) (
        ap (take 8) (
          skip 16 a (b ++ (c ++ (d ++ payload))) la
          ∙ skip 8 b (c ++ (d ++ payload)) lb
          ∙ skip 0 c (d ++ payload) lc)
        ∙ take-append 8 d payload ld),
  )

  pub drop-laid_out : drop 41 (laid_out a b c d payload) ≡ payload
  unfolding laid_out
  drop-laid_out =
      skip 24 a (b ++ (c ++ (d ++ payload))) la
      ∙ skip 16 b (c ++ (d ++ payload)) lb
      ∙ skip 8 c (d ++ payload) lc
      ∙ skip 0 d payload ld

  validate_encoded_header-laid_out : validate_encoded_header (laid_out a b c d payload) ≡ ok tt
  unfolding validate_encoded_header laid_out
  validate_encoded_header-laid_out = ground (arith, length-laid_out)

  pub decode_header-laid_out : decode_header (laid_out a b c d payload) ≡ ok (header_of a b c d)
  unfolding decode_header
  decode_header-laid_out =
      let (ra, rb, rc, rd) = reads in
      rw (decode_header, validate_encoded_header-laid_out, ra, rb, rc, rd) refl
