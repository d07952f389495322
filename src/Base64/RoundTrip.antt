-- ===== src/Base64/RoundTrip.antt =====
-- What internal/auth/password.go relies on in base64: decoding undoes encoding, and the text has
-- no '$' to be split at.
use Prim.Native.Nat.{◌/◌, ◌%◌}
use multi_tenant_authorizati.Base.{
  ℕ, ◌+◌, ◌*◌, ◌<◌, ◌≡◌, refl, ap, false, some, [], ◌∷◌, map, ◌==◌, arith,
}
use multi_tenant_authorizati.Db.Rows.{All}
use multi_tenant_authorizati.Base64.{
  Bytes, IsByte, letter, encode, without_newlines, sextets, pack, decode, sextet-letter,
  letter-plain,
}

-- The letters' numbers.
unfoldable split_bytes : Bytes → Bytes
split_bytes [] = []
split_bytes (a ∷ []) = a / 4 ∷ a % 4 * 16 ∷ []
split_bytes (a ∷ b ∷ []) = a / 4 ∷ (a % 4 * 16 + b / 16) ∷ b % 16 * 4 ∷ []
split_bytes (a ∷ b ∷ c ∷ rest) =
    a / 4 ∷ (a % 4 * 16 + b / 16) ∷ (b % 16 * 4 + c / 64) ∷ c % 64 ∷ split_bytes rest

encode-split_bytes : (bs : Bytes) → encode bs ≡ map letter (split_bytes bs)
unfolding encode split_bytes
encode-split_bytes [] = refl
encode-split_bytes (a ∷ []) = refl
encode-split_bytes (a ∷ b ∷ []) = refl
encode-split_bytes (a ∷ b ∷ c ∷ rest) =
    ap
      (λ s.
        letter (a / 4)
        ∷ letter (a % 4 * 16 + b / 16)
        ∷ letter (b % 16 * 4 + c / 64)
        ∷ letter (c % 64)
        ∷ s)
      (encode-split_bytes rest)

split_bytes-IsSextet : (bs : Bytes) → All IsByte bs → All (λ n. n < 64) (split_bytes bs)
unfolding split_bytes
split_bytes-IsSextet [] _ = tt
split_bytes-IsSextet (a ∷ []) (ha, _) = (omega arith, (omega arith, tt))
split_bytes-IsSextet (a ∷ b ∷ []) (ha, (hb, _)) = (omega arith, (omega arith, (omega arith, tt)))
split_bytes-IsSextet (a ∷ b ∷ c ∷ rest) (ha, (hb, (hc, h))) =
    (omega arith, (omega arith, (omega arith, (omega arith, split_bytes-IsSextet rest h))))

first_byte : (a b : ℕ) → a < 256 → b < 256 → a / 4 * 4 + (a % 4 * 16 + b / 16) / 16 ≡ a
first_byte a b ha hb = omega arith

second_byte :
    (a b c : ℕ)
    → b < 256
    → c < 256
    → (a % 4 * 16 + b / 16) % 16 * 16 + (b % 16 * 4 + c / 64) / 4 ≡ b
second_byte a b c hb hc = omega arith

last_byte : (a b : ℕ) → b < 256 → (a % 4 * 16 + b / 16) % 16 * 16 + b % 16 * 4 / 4 ≡ b
last_byte a b hb = omega arith

third_byte : (b c : ℕ) → c < 256 → (b % 16 * 4 + c / 64) % 4 * 64 + c % 64 ≡ c
third_byte b c hc = omega arith

pack-split_bytes : (bs : Bytes) → All IsByte bs → pack (split_bytes bs) ≡ some bs
unfolding pack split_bytes
pack-split_bytes [] _ = refl
pack-split_bytes (a ∷ []) (ha, _) = ap (λ x. some (x ∷ [])) (omega arith)
pack-split_bytes (a ∷ b ∷ []) (ha, (hb, _)) = rw (first_byte a b ha hb, last_byte a b hb) refl
pack-split_bytes (a ∷ b ∷ c ∷ rest) (ha, (hb, (hc, h))) =
    rw (first_byte a b ha hb, second_byte a b c hb hc, third_byte b c hc, pack-split_bytes rest h)
      refl

without_newlines-letter :
    (ns : Bytes) → All (λ n. n < 64) ns → without_newlines (map letter ns) ≡ map letter ns
unfolding without_newlines
without_newlines-letter [] _ = refl
without_newlines-letter (n ∷ ns) (h, hs) =
    rw ((letter-plain n h).0, without_newlines-letter ns hs) refl

sextets-letter : (ns : Bytes) → All (λ n. n < 64) ns → sextets (map letter ns) ≡ some ns
unfolding sextets
sextets-letter [] _ = refl
sextets-letter (n ∷ ns) (h, hs) = rw (sextet-letter n h, sextets-letter ns hs) refl

-- Decoding undoes encoding, for every byte slice.
pub decode-encode : (bs : Bytes) → All IsByte bs → decode (encode bs) ≡ some bs
unfolding decode
decode-encode bs h =
    let ns = split_bytes-IsSextet bs h in
    rw
      (
        encode-split_bytes bs,
        without_newlines-letter _ ns,
        sextets-letter _ ns,
        pack-split_bytes bs h,
      )
      refl

abbrev pub IsPlain : ℕ → Type 0
IsPlain c = (c == b'$') ≡ false

map-letter-IsPlain : (ns : Bytes) → All (λ n. n < 64) ns → All IsPlain (map letter ns)
map-letter-IsPlain [] _ = tt
map-letter-IsPlain (n ∷ ns) (h, hs) = ((letter-plain n h).1, map-letter-IsPlain ns hs)

pub encode-IsPlain : (bs : Bytes) → All IsByte bs → All IsPlain (encode bs)
encode-IsPlain bs h = rw (encode-split_bytes bs) (map-letter-IsPlain _ (split_bytes-IsSextet bs h))
