-- ===== src/Auth/Password/Verifies.antt =====
-- VerifyPassword reads back what HashPassword writes.
use Prim.Native.Nat.{◌^◌, ◌%◌}
use multi_tenant_authorizati.Base.{
  ℕ, String, Bool, true, Option, some, [], ◌∷◌, ◌≡◌, ◌≤◌, ◌<◌, ◌-◌, refl, ◌↔◌, arith, ap, sym, none,
}
use multi_tenant_authorizati.Db.Rows.{All}
use multi_tenant_authorizati.Base64.{Bytes, IsByte, encode}
use multi_tenant_authorizati.Base64.RoundTrip.{decode-encode, encode-IsPlain}
use multi_tenant_authorizati.Scan.{
  Runes, runes, length, same, split, decimal, literal, scan_int, starts_with_digit, skip_space,
  digits, scan_number, scan_digits, ◌>>=◌,
}
use multi_tenant_authorizati.Text.{is_space}
use multi_tenant_authorizati.Scan.RoundTrip.{
  Without, split-append, split_last, scan_uint-decimal, digits-Without,
}
use multi_tenant_authorizati.Auth.Password.{
  Argon2, argon_version, argon_memory, argon_iterations, argon_parallelism, argon_key_length,
  version_part, params_part, phc, hash_password, scan_version, scan_params, verify_key,
  verify_password,
}

decimal-Without : (n : ℕ) (s : Runes) → Without b'$' s → Without b'$' (decimal n s)
unfolding decimal
decimal-Without n s h = digits-Without b'$' 19 n s refl h

version_part-Without : Without b'$' (version_part argon_version)
version_part-Without = (refl, (refl, decimal-Without argon_version [] tt))

scan_version-version_part : scan_version (version_part argon_version) ≡ some (argon_version, [])
unfolding scan_version decimal scan_int literal skip_space digits is_space scan_number
    starts_with_digit scan_digits
scan_version-version_part = refl

params_part-Without : (m t p : ℕ) → Without b'$' (params_part m t p)
params_part-Without m t p = (
  refl,
  (
    refl,
    decimal-Without m _
        (refl, (refl, (refl, decimal-Without t _ (refl, (refl, (refl, decimal-Without p [] tt)))))),
  ),
)

scan_params-params_part :
    (m t p : ℕ)
    → m < 2 ^ 32
    → t < 2 ^ 32
    → p < 2 ^ 8
    → scan_params (params_part m t p) ≡ some (m, t, p)
unfolding scan_params literal starts_with_digit
scan_params-params_part m t p hm ht hp =
    rw
      (
        scan_uint-decimal (2 ^ 32 - 1) m _ (omega arith) (omega arith) refl,
        scan_uint-decimal (2 ^ 32 - 1) t _ (omega arith) (omega arith) refl,
        scan_uint-decimal (2 ^ 8 - 1) p [] (omega arith) (omega arith) refl,
      )
      refl

split-phc :
    (m t p : ℕ) (salt hash : Bytes)
    → All IsByte salt
    → All IsByte hash
    → split b'$' (phc argon_version m t p salt hash) ≡ (
      [],
      runes "argon2id"
          ∷ version_part argon_version
          ∷ params_part m t p
          ∷ encode salt
          ∷ encode hash
          ∷ [],
    )
unfolding phc
split-phc m t p salt hash hs hh =
    rw
      (
        split-append b'$' [] _ tt,
        split-append b'$' (runes "argon2id") _
            (refl, (refl, (refl, (refl, (refl, (refl, (refl, (refl, tt)))))))),
        split-append b'$' (version_part argon_version) _ version_part-Without,
        split-append b'$' (params_part m t p) _ (params_part-Without m t p),
        split-append b'$' (encode salt) _ (encode-IsPlain salt hs),
        split_last b'$' (encode hash) (encode-IsPlain hash hh),
      )
      refl

-- What a PHC text is taken apart into.
stored_parts :
    (lib : Argon2) (m t p : ℕ) (salt hash : Bytes) (password : String)
    → m < 2 ^ 32
    → t < 2 ^ 32
    → p < 2 ^ 8
    → All IsByte salt
    → All IsByte hash
    → verify_password lib (phc argon_version m t p salt hash) password
      ≡ verify_key lib password salt hash (m, t, p)
unfolding verify_password
stored_parts lib m t p salt hash password hm ht hp hs hh =
    rw
      (
        split-phc m t p salt hash hs hh,
        scan_version-version_part,
        scan_params-params_part m t p hm ht hp,
        decode-encode salt hs,
        decode-encode hash hh,
      )
      refl

-- What IDKey is relied on for: it does not panic when it makes a pass and has a lane, and its key
-- is that many bytes.
abbrev pub IsIdKey : Argon2 → Type 0
IsIdKey lib =
    (password : String) (salt : Bytes) (t m p n : ℕ)
    → 1 ≤ t
    → 1 ≤ p
    → 4 ≤ n
    → (k : Bytes) × (lib.id_key password salt t m p n ≡ some k) × All IsByte k × (length k ≡ n)

-- The key of a password under the parameters that HashPassword writes.
abbrev pub key_of : Argon2 → Bytes → String → Option Bytes
key_of lib salt password =
    lib.id_key password salt argon_iterations argon_memory argon_parallelism argon_key_length

same_refl : (s : Runes) → same s s ≡ true
same_refl [] = refl
same_refl (c ∷ s) = ground (arith, same_refl s)

same_sound : (s t : Runes) → same s t ≡ true → s ≡ t
same_sound [] [] _ = refl
same_sound [] (_ ∷ _) h = ground arith
same_sound (_ ∷ _) [] h = ground arith
same_sound (a ∷ s) (b ∷ t) h = ground (arith, same_sound s t)

same_iff : (s t : Bytes) → (same s t ≡ true) ↔ (some t ≡ some s)
same_iff s t = (λ h. ap some (sym (same_sound s t h)), λ h. ground (arith, same_refl s))

-- The answer for a key that is stored as `s`, where IDKey gives `o`.
key_answer :
    (s : Bytes) (o : Option Bytes)
    → (((o >>= λ k. some (same s k)) ≡ some true) ↔ (o ≡ some s))
      × (((o >>= λ k. some (same s k)) ≡ none) ↔ (o ≡ none))
key_answer s none = ((λ h. ground arith, λ h. ground arith), (λ h. refl, λ h. refl))
key_answer s (some k) = (
  (λ h. (same_iff s k).0 (ground arith), λ h. ap some ((same_iff s k).1 h)),
  (λ h. ground arith, λ h. ground arith),
)

-- VerifyPassword on a PHC text of any parameters accepts a password exactly if IDKey, at the salt,
-- the iterations, the memory and the parallelism of the text and the length of its key, gives the
-- key of the text; it fails exactly if that call panics.
pub verify_password-phc :
    (lib : Argon2) (m t p : ℕ) (salt hash : Bytes) (password : String)
    → m < 2 ^ 32
    → t < 2 ^ 32
    → p < 2 ^ 8
    → length hash < 2 ^ 32
    → All IsByte salt
    → All IsByte hash
    → ((verify_password lib (phc argon_version m t p salt hash) password ≡ some true)
        ↔ (lib.id_key password salt t m p (length hash) ≡ some hash))
      × ((verify_password lib (phc argon_version m t p salt hash) password ≡ none)
          ↔ (lib.id_key password salt t m p (length hash) ≡ none))
verify_password-phc lib m t p salt hash password hm ht hp short hs hh =
    let fits : length hash % 2 ^ 32 ≡ length hash = omega arith in
    rw (stored_parts lib m t p salt hash password hm ht hp hs hh, fits)
      (key_answer hash (lib.id_key password salt t m p (length hash)))

stored_key :
    (lib : Argon2) (salt k k' : Bytes) (other : String)
    → All IsByte salt
    → All IsByte k
    → length k ≡ argon_key_length
    → key_of lib salt other ≡ some k'
    → verify_password lib
        (phc argon_version argon_memory argon_iterations argon_parallelism salt k)
        other
      ≡ some (same k k')
stored_key lib salt k k' other hs hk len made' =
    rw
      (
        stored_parts lib argon_memory argon_iterations argon_parallelism salt k other (omega arith)
            (omega arith) (omega arith) hs hk,
        len,
        made',
      )
      refl

-- HashPassword succeeds; VerifyPassword never fails on what it stores, and accepts exactly the
-- passwords that have the stored password's key.
pub verify_password-hash_password :
    (lib : Argon2) (salt : Bytes) (password other : String)
    → IsIdKey lib
    → All IsByte salt
    → (stored : Runes) × (b : Bool) × (hash_password lib salt password ≡ some stored)
      × (verify_password lib stored other ≡ some b)
      × ((b ≡ true) ↔ (key_of lib salt other ≡ key_of lib salt password))
unfolding hash_password
verify_password-hash_password lib salt password other law hs =
    let (k, made, hk, len) =
      law password salt argon_iterations argon_memory argon_parallelism argon_key_length
        (omega arith) (omega arith) (omega arith) in
    let (k', made', _, _) =
      law other salt argon_iterations argon_memory argon_parallelism argon_key_length (omega arith)
        (omega arith) (omega arith) in
    (
      phc argon_version argon_memory argon_iterations argon_parallelism salt k,
      same k k',
      rw (made) refl,
      stored_key lib salt k k' other hs hk len made',
      rw (made', made) (same_iff k k'),
    )
