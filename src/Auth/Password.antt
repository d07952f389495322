-- ===== src/Auth/Password.antt =====
-- internal/auth/password.go: argon2id hashes in PHC format.
pub mod Verifies
use Prim.Native.Nat.{◌%◌, ◌^◌}
use multi_tenant_authorizati.Base.{
  ℕ, String, Bool, Option, none, some, List, [], ◌∷◌, ◌++◌, if◌then◌else◌, ◌*◌, ◌-◌,
}
use multi_tenant_authorizati.Base64.{Bytes, encode, decode}
use multi_tenant_authorizati.Scan.{
  Runes, runes, length, same, split, decimal, literal, scan_int, scan_uint, ◌>>=◌,
}

-- `argon2.IDKey` of golang.org/x/crypto at a password, a salt, the iterations, the memory, the
-- parallelism and the length of the key; none is its panic.
pub record Argon2 : Type 0 where
  pub id_key : String → Bytes → ℕ → ℕ → ℕ → ℕ → Option Bytes

abbrev pub argon_version : ℕ
argon_version = 19

abbrev pub argon_memory : ℕ
argon_memory = 19 * 1024

abbrev pub argon_iterations : ℕ
argon_iterations = 2

abbrev pub argon_parallelism : ℕ
argon_parallelism = 1

abbrev pub argon_salt_length : ℕ
argon_salt_length = 16

abbrev pub argon_key_length : ℕ
argon_key_length = 32

abbrev pub version_part : ℕ → Runes
version_part version = runes "v=" ++ decimal version []

abbrev pub params_part : ℕ → ℕ → ℕ → Runes
params_part m t p = runes "m=" ++ decimal m (runes ",t=" ++ decimal t (runes ",p=" ++ decimal p []))

-- The Sprintf of HashPassword, at any parameters.
unfoldable pub phc : ℕ → ℕ → ℕ → ℕ → Bytes → Bytes → Runes
phc version m t p salt hash =
    b'$'
    ∷ (runes "argon2id"
        ++ b'$'
          ∷ (version_part version
              ++ b'$' ∷ (params_part m t p ++ b'$' ∷ (encode salt ++ b'$' ∷ encode hash))))

unfoldable pub scan_version : Runes → Option (ℕ × Runes)
scan_version s = do scan_int (← literal (runes "v=") s)

-- The memory, the iterations and the parallelism: two uint32 and a uint8.
unfoldable pub scan_params : Runes → Option (ℕ × ℕ × ℕ)
scan_params s = do
  s ← literal (runes "m=") s
  (memory, s) ← scan_uint (2 ^ 32 - 1) s
  s ← literal (runes ",t=") s
  (iterations, s) ← scan_uint (2 ^ 32 - 1) s
  s ← literal (runes ",p=") s
  (parallelism, s) ← scan_uint (2 ^ 8 - 1) s
  some (memory, iterations, parallelism)

module _ (lib : Argon2) where
  -- `HashPassword` behind `rand.Read`.
  unfoldable pub hash_password : Bytes → String → Option Runes
  hash_password salt password = do
    hash ← lib.id_key password salt argon_iterations argon_memory argon_parallelism argon_key_length
    some (phc argon_version argon_memory argon_iterations argon_parallelism salt hash)

  abbrev pub verify_key : String → Bytes → Bytes → ℕ × ℕ × ℕ → Option Bool
  verify_key password salt stored (memory, iterations, parallelism) = do
    candidate ← lib.id_key password salt iterations memory parallelism (length stored % 2 ^ 32)
    some (same stored candidate)

  abbrev pub verify_parts : String → Runes × List Runes → Option Bool
  verify_parts password (_, algorithm ∷ version ∷ params ∷ salt ∷ hash ∷ []) =
      if same algorithm (runes "argon2id")
      then (scan_version version >>= λ _. scan_params params >>= λ costs.
          decode salt >>= λ salt. decode hash >>= λ stored. verify_key password salt stored costs)
      else none
  verify_parts password _ = none

  -- `VerifyPassword`; none is its error, and the panic of IDKey.
  unfoldable pub verify_password : Runes → String → Option Bool
  unfolding scan_version scan_params
  verify_password encoded password = verify_parts password (split b'$' encoded)

  -- `dummyHash`, as the package's init computes it from a salt; none is its panic.
  unfoldable init_dummy_hash : Bytes → Option Runes
  init_dummy_hash salt = hash_password salt "correct-horse-battery-staple-dummy-seed"
