-- ===== src/Tests/SignTests.antt =====
-- Witnesses for the theorems about request signing, decimal numbers and the constant-time
-- comparison. The signature of a text is the secret before it.
use sa_token_rust.Common.{
  ℕ, ◌^◌, ◌+◌, ◌-◌, ◌*◌, ◌<◌, ◌≡◌, ◌≢◌, ◌⊎◌, ◌↔◌, refl, String, Bool, true, false, Option, none,
  some, List, [], ◌∷◌, Result, ok, err, arith,
}
use sa_token_rust.Common.Int.{ℤ, pos, negsuc}
use sa_token_rust.Common.Text.{◌<>◌}
use sa_token_rust.Common.Assoc.{Assoc, lookup}
use sa_token_rust.Common.Decimal.{parse, print}
use sa_token_rust.Common.Decimal.RoundTrip.{parse-print}
use sa_token_rust.HttpBasic.{ct_eq}
use sa_token_rust.HttpBasic.ConstantTime.{ct_eq_iff}
use sa_token_rust.Error.{sign_invalid}
use sa_token_rust.Memory.{new}
use sa_token_rust.Memory.Backend.{memory_laws}
use sa_token_rust.OAuth2.{as_u64}
use sa_token_rust.Storage.{within}
use sa_token_rust.Sign.{RequestSign, timestamp, create_signed, sign_params, verify_params}
use sa_token_rust.Sign.Arithmetic.{outside}
use sa_token_rust.Sign.Window.{Near, Wraps, outside-Wraps}
use sa_token_rust.Sign.VerifyLaws.{verify_params-checks, verify_params-once, verify_params-burns}
use sa_token_rust.Sign.RoundTrip.{create_signed-verify_params}
use sa_token_rust.Tests.{storage, storage_laws, dao}

abbrev hmac : String → String → Result String String
hmac secret text = ok (secret <> text)

abbrev signer : RequestSign
signer = record { secret = "k"; window_secs = pos 300; dao = some dao }

abbrev params : Assoc String
params = ("nonce", "n") ∷ ("timestamp", "1000") ∷ []

abbrev right : String
right = "knonce=n&timestamp=1000"

abbrev now : ℕ
now = 1100 * 10 ^ 9

right_accepted : (verify_params hmac storage signer params right now new).0 ≡ ok tt
unfolding verify_params sa_token_rust.Dao.set_if_absent sa_token_rust.Memory.set_if_absent
    sa_token_rust.Memory.write sa_token_rust.Memory.Shard.shard_index
    sa_token_rust.Common.Assoc.insert sa_token_rust.Common.Assoc.lookup new
    sa_token_rust.Keys.sign_nonce sa_token_rust.Dao.from_secs
right_accepted = refl

verify_params-checks_example :
    (text : String) × (ts : ℤ) × (lookup "timestamp" params ≡ some text)
    × (parse 63 text ≡ some ts)
    × (Near (timestamp now) ts 300 ⊎ Wraps (timestamp now) ts)
    × (sign_params hmac signer params ≡ ok right)
verify_params-checks_example =
    verify_params-checks hmac storage signer params right 300 now new refl (omega arith)
      (omega arith) right_accepted

nonce_in : lookup "nonce" params ≡ some "n"
unfolding lookup
nonce_in = refl

-- The deadline of the nonce is 300 seconds after its use.
still_there :
    within
      (storage_laws.deadline (some (sa_token_rust.Dao.from_secs (as_u64 signer.window_secs))) now)
      (1200 * 10 ^ 9)
    ≡ true
unfolding as_u64 sa_token_rust.Dao.from_secs memory_laws sa_token_rust.Memory.deadline
still_there = refl

verify_params-once_example :
    (verify_params hmac storage signer params right
      (1200 * 10 ^ 9)
      (verify_params hmac storage signer params right now new).1).0
    ≢ ok tt
verify_params-once_example =
    verify_params-once hmac storage signer storage_laws dao refl "n" params nonce_in right right
      params now (1200 * 10 ^ 9) new (verify_params hmac storage signer params right now new).1
      nonce_in (omega arith) still_there right_accepted refl

verify_params-burns_example :
    ((verify_params hmac storage signer params "forged" now new).0 ≡ err sign_invalid)
    × ((verify_params hmac storage signer params right
          (1200 * 10 ^ 9)
          (verify_params hmac storage signer params "forged" now new).1).0
        ≢ ok tt)
verify_params-burns_example =
    verify_params-burns hmac storage signer storage_laws dao refl "n" params nonce_in right "forged"
      now (1200 * 10 ^ 9) new (cc) (omega arith) still_there right_accepted

abbrev sent : Assoc String
sent =
    ("name", "x")
    ∷ ("nonce", "n")
    ∷ ("sign", "kname=x&nonce=n&timestamp=1100")
    ∷ ("timestamp", "1100")
    ∷ []

signed_params : create_signed hmac signer (("name", "x") ∷ []) now (ok "n") ≡ ok sent
unfolding create_signed sa_token_rust.Sign.Params.insert sa_token_rust.Memory.Scan.before
    sa_token_rust.Common.Decimal.print_ℕ
signed_params = refl

nonce_free : storage_laws.live (sa_token_rust.Keys.sign_nonce dao.keys "n") now new ≡ none
unfolding memory_laws sa_token_rust.Memory.Shard.shard_index sa_token_rust.Common.Assoc.lookup new
    sa_token_rust.Keys.sign_nonce sa_token_rust.Memory.Laws.live sa_token_rust.Memory.fresh
    sa_token_rust.Memory.scalar
nonce_free = refl

storage_answers :
    (sa_token_rust.Dao.set_if_absent storage
      (sa_token_rust.Keys.sign_nonce dao.keys "n")
      "1"
      (some (sa_token_rust.Dao.from_secs (as_u64 signer.window_secs)))
      now
      new).0
    ≡ ok true
unfolding as_u64 sa_token_rust.Dao.set_if_absent sa_token_rust.Memory.set_if_absent
    sa_token_rust.Memory.write sa_token_rust.Memory.Shard.shard_index
    sa_token_rust.Common.Assoc.insert sa_token_rust.Common.Assoc.lookup new
    sa_token_rust.Keys.sign_nonce sa_token_rust.Dao.from_secs
storage_answers = refl

create_signed-verify_params_example :
    (sign : String) × (lookup "sign" sent ≡ some sign)
    × ((verify_params hmac storage signer sent sign now new).0 ≡ ok tt)
create_signed-verify_params_example =
    create_signed-verify_params hmac signer storage storage_laws dao refl (("name", "x") ∷ []) sent
      "n" 300 now now new true refl (omega arith) (omega arith) (omega arith) (omega arith)
      signed_params nonce_free storage_answers

outside-Wraps_example : outside 1000 (negsuc (2 ^ 63 - 1001)) (pos 300) ≡ false
outside-Wraps_example = outside-Wraps 1000 300 (negsuc (2 ^ 63 - 1001)) (omega arith)

parse-print_example : parse 31 (print (negsuc 41)) ≡ some (negsuc 41)
parse-print_example = parse-print 31 (negsuc 41) (omega arith)

abbrev left_bytes : List ℕ
left_bytes = 1 ∷ 255 ∷ []

abbrev right_bytes : List ℕ
right_bytes = 1 ∷ 254 ∷ []

ct_eq_iff_example : (ct_eq left_bytes right_bytes ≡ true) ↔ (left_bytes ≡ right_bytes)
ct_eq_iff_example = ct_eq_iff left_bytes right_bytes (omega arith) (omega arith)
