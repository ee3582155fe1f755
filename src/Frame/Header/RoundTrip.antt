-- ===== src/Frame/Header/RoundTrip.antt =====
-- The codec of the header: `decode` and `encode` are inverse to one another.
use rust_yamux.Common.{
  ℕ, ◌^◌, ◌<◌, ◌≡◌, List, [], ◌∷◌, arith, All, length, ok, err, ◌≢◌, ◌↔◌, ◌≤◌, get_or,
}
use rust_yamux.Frame.Header.{Header, version, type, encode, decode, header_size}

-- The fields of a header lie within their Rust types, and the version is the one that is spoken.
pub record IsValid (h : Header) : Type 0 where
  pub spoken : h.version ≡ 0
  pub flags_u16 : h.flags < 2 ^ 16
  pub stream_id_u32 : h.stream_id < 2 ^ 32
  pub length_u32 : h.length < 2 ^ 32

-- A header within the bounds of its fields is decoded from its encoding, and the encoding has 12
-- bytes, each below 256.
pub decode-encode :
    (h : Header)
    → IsValid h
    → (decode (encode h) ≡ ok h) × (length (encode h) ≡ header_size) × All (λ b. b < 256) (encode h)
unfolding decode encode
decode-encode h v = ground arith

pub length-encode : (h : Header) → length (encode h) ≡ header_size
unfolding encode
length-encode h = ground arith

twelve :
    (b0 b1 b2 b3 b4 b5 b6 b7 b8 b9 b10 b11 : ℕ) {h : Header}
    → All (λ b. b < 256) (b0 ∷ b1 ∷ b2 ∷ b3 ∷ b4 ∷ b5 ∷ b6 ∷ b7 ∷ b8 ∷ b9 ∷ b10 ∷ b11 ∷ [])
    → decode (b0 ∷ b1 ∷ b2 ∷ b3 ∷ b4 ∷ b5 ∷ b6 ∷ b7 ∷ b8 ∷ b9 ∷ b10 ∷ b11 ∷ []) ≡ ok h
    → (encode h ≡ b0 ∷ b1 ∷ b2 ∷ b3 ∷ b4 ∷ b5 ∷ b6 ∷ b7 ∷ b8 ∷ b9 ∷ b10 ∷ b11 ∷ []) × IsValid h
unfolding decode encode
twelve b0 b1 b2 b3 b4 b5 b6 b7 b8 b9 b10 b11 bytes e = ground arith

-- A run of 12 bytes that `decode` accepts is the encoding of the header that it returns, and that
-- header is within the bounds of its fields.
pub encode-decode :
    (buf : List ℕ) {h : Header}
    → length buf ≡ header_size
    → All (λ b. b < 256) buf
    → decode buf ≡ ok h
    → (encode h ≡ buf) × IsValid h
encode-decode (b0 ∷ b1 ∷ b2 ∷ b3 ∷ b4 ∷ b5 ∷ b6 ∷ b7 ∷ b8 ∷ b9 ∷ b10 ∷ b11 ∷ []) n bytes e =
    twelve b0 b1 b2 b3 b4 b5 b6 b7 b8 b9 b10 b11 bytes e
encode-decode _ n bytes e = absurd (omega arith)

-- `decode` refuses exactly the versions other than 0, and after that exactly the types above 3,
-- naming the byte.
pub decode_errors :
    (buf : List ℕ) (b : ℕ)
    → ((decode buf ≡ err (version b)) ↔ ((b ≢ 0) × (b ≡ get_or buf 0 0)))
      × ((decode buf ≡ err (type b)) ↔ ((get_or buf 0 0 ≡ 0) × (b ≡ get_or buf 1 0) × (4 ≤ b)))
unfolding decode
decode_errors buf b =
    ((λ e. ground arith, λ h. ground arith), (λ e. ground arith, λ h. ground arith))
