-- ===== src/OAuth2/Pkce.antt =====
-- Proof keys and client secrets: sa-token-core/src/oauth2/pkce.rs and secret.rs.
use sa_token_rust.Common.{String, Bool, ◌&&◌, ok, err, if◌then◌else◌, leb, length}
use sa_token_rust.Common.Text.{is_empty, starts_with, strip_prefix}
use sa_token_rust.Error.{SaTokenResult, oauth2_pkce_mismatch, oauth2_invalid_credentials}
use sa_token_rust.Memory.Shard.{bytes}
use sa_token_rust.HttpBasic.{ct_eq}
use sa_token_rust.OAuth2.{CodeChallengeMethod, PkceChallenge, s256, plain, Crypto}

-- 43 to 128 bytes.
unfoldable pub validate_verifier_len : String → SaTokenResult (Unit {0})
unfolding bytes
validate_verifier_len code_verifier =
    if leb 43 (length (bytes code_verifier)) && leb (length (bytes code_verifier)) 128
    then ok tt
    else err oauth2_pkce_mismatch

module _ (crypto : Crypto) where
  unfoldable pub from_verifier_s256 : String → SaTokenResult PkceChallenge
  unfolding validate_verifier_len
  from_verifier_s256 code_verifier = elim (validate_verifier_len code_verifier) [
    | err e ↦ err e
    | ok _ ↦
        ok
          (record { code_challenge = crypto.challenge code_verifier; code_challenge_method = s256 })
  ]

  unfoldable pub computed : CodeChallengeMethod → String → String
  computed s256 code_verifier = crypto.challenge code_verifier
  computed plain code_verifier = code_verifier

  unfoldable pub verify : PkceChallenge → String → SaTokenResult (Unit {0})
  unfolding validate_verifier_len computed ct_eq bytes
  verify self code_verifier = elim (validate_verifier_len code_verifier) [
    | err e ↦ err e
    | ok _ ↦
        if ct_eq (bytes (computed self.code_challenge_method code_verifier))
          (bytes self.code_challenge)
        then ok tt
        else err oauth2_pkce_mismatch
  ]

  unfoldable pub hash_plain_secret : String → SaTokenResult String
  unfolding is_empty
  hash_plain_secret plain_secret =
      if is_empty plain_secret
      then err oauth2_invalid_credentials
      else crypto.hash_password plain_secret

unfoldable pub is_hashed : String → Bool
unfolding strip_prefix
is_hashed stored = starts_with stored "$argon2"
