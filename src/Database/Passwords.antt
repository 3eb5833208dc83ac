-- ===== src/Database/Passwords.antt =====
-- The salted hash of a password, in `login` and `create_user` of server/db_accessor.cpp.
use Prim.Native.Nat.{bit_xor}
use niba.Prelude.{
  ℕ, zero, suc, ◌≡◌, refl, Bool, true, ◌==◌, ◌&&◌, Option, none, some, List, [], ◌∷◌, length, arith,
}
use niba.Prelude.Run.{Run, done, fault, Fault, ◌>>=◌}
use niba.Database.{Sql}

-- HASH_SIZE
abbrev pub hash_size : ℕ
hash_size = 32

-- The first `n` bytes, with zeros behind a text that is shorter.
unfoldable pub padded : ℕ → List ℕ → List ℕ
padded zero bytes = []
padded (suc n) [] = 0 ∷ padded n []
padded (suc n) (b ∷ bytes) = b ∷ padded n bytes

-- `buffer[i] ^= salt[i]` for all bytes of the buffer; `e` where the salt has no such byte.
unfoldable pub salted : Fault → List ℕ → List ℕ → Run (List ℕ)
salted e [] salt = done []
salted e (b ∷ buffer) [] = fault e
salted e (b ∷ buffer) (s ∷ salt) = do rest ← salted e buffer salt; done (bit_xor b s ∷ rest)

-- `memcmp(a, b, n) == 0`; `none`: there are fewer than `n` bytes.
unfoldable pub same_bytes : ℕ → List ℕ → List ℕ → Option Bool
same_bytes zero xs ys = some true
same_bytes (suc n) (x ∷ xs) (y ∷ ys) = elim (same_bytes n xs ys) [
  | none ↦ none
  | some b ↦ some ((x == y) && b)
]
same_bytes (suc n) _ _ = none

module _ (sql : Sql) where
  open sql use {sha256_init, sha256_update, sha256_final}

  abbrev pub finish : Option (sql.Context) → Option (List ℕ)
  finish none = none
  finish (some c) = sha256_final c

  abbrev pub hashed : List ℕ → Option (sql.Context) → Option (List ℕ)
  hashed buffer none = none
  hashed buffer (some c) = finish (sha256_update c buffer)

  -- The three calls of SHA256; `none` where one of them fails.
  unfoldable pub digest : List ℕ → Option (List ℕ)
  digest buffer = hashed buffer sha256_init

pub same_bytes_self : (n : ℕ) (xs : List ℕ) → length xs ≡ n → same_bytes n xs xs ≡ some true
unfolding same_bytes
same_bytes_self zero xs h = refl
same_bytes_self (suc n) [] h = absurd (ground (arith, h))
same_bytes_self (suc n) (x ∷ xs) h =
    let ih = same_bytes_self n xs (ground (arith, h)) in rw ih (ground arith)
