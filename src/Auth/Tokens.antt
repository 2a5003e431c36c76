-- ===== src/Auth/Tokens.antt =====
-- Opaque tokens (internal/auth/token.go).
use nearby_backend.Prelude.{◌^◌, String}
use nearby_backend.Platform.Database.{M, ◌>>=◌, return, rand_int}
use nearby_backend.Accounts.Tables.{Digest, Codec, Store}

-- `HashRefreshToken`.
unfoldable pub hash_refresh_token : Codec → String → Digest
hash_refresh_token codec token = codec.sha256 token

-- `NewRefreshToken`: 32 random bytes as a text, with the digest to store.
unfoldable pub new_refresh_token : Codec → M Store (String × Digest)
unfolding hash_refresh_token
new_refresh_token codec = rand_int (2 ^ 256) >>= λ bytes.
    return (codec.base64 bytes, hash_refresh_token codec (codec.base64 bytes))
