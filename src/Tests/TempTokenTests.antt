-- ===== src/Tests/TempTokenTests.antt =====
-- Witnesses on temporary tokens.
use sa_token_rust.Common.{
  ℕ, String, ◌≡◌, refl, Bool, true, false, none, some, arith, ok, Option, ◌==◌, ◌&&◌, eqb, eq_iff,
}
use sa_token_rust.Common.Int.{pos}
use sa_token_rust.Error.{SaTokenResult}
use sa_token_rust.TempToken.RoundTrip.{create-parse}
use sa_token_rust.Memory.{MemoryStorage, set, new}
use sa_token_rust.Memory.Laws.{live}
use sa_token_rust.Keys.{temp_token, temp_index}
use sa_token_rust.Dao.{Codec}
use sa_token_rust.TempToken.{Value, TempTokenRecord, string, other, delete, create, parse}
use sa_token_rust.TempToken.IndexLaws.{delete-drops_index}
use sa_token_rust.Tests.{from_std, storage, storage_laws, dao, holding, known}

abbrev invite : TempTokenRecord
invite = record { value = string "room"; namespace = "chat"; expire_at = none }

refuse_all {ℓ} : {A : Type ℓ} → false ≡ true → A
refuse_all h = ground arith

abbrev codec : Codec TempTokenRecord
codec = known invite (λ x. false) (λ x h. refuse_all h)

abbrev digest : String → String
digest s = s

-- Two tokens for one value; the index has the newer one.
abbrev two_tokens : MemoryStorage
two_tokens =
    (set from_std (temp_index dao.keys "chat" "room") "t2" none 3
      (set from_std (temp_token dao.keys "chat" "t2") "x" none 3
        (holding (temp_token dao.keys "chat" "t1") "x")).1).1

delete-drops_index_example :
    live
      (temp_index dao.keys "chat" "room")
      9
      (delete storage codec digest dao "chat" "t1" 5 two_tokens).1
    ≡ none
unfolding delete set temp_token temp_index sa_token_rust.Memory.new
    sa_token_rust.Memory.Backend.memory_laws sa_token_rust.Dao.get_object
    sa_token_rust.Dao.get_string sa_token_rust.Dao.delete sa_token_rust.Memory.get
    sa_token_rust.Memory.delete sa_token_rust.Common.Assoc.lookup sa_token_rust.Common.Assoc.insert
    sa_token_rust.Common.Assoc.remove sa_token_rust.Memory.write
    sa_token_rust.Memory.Shard.shard_index
delete-drops_index_example =
    delete-drops_index storage storage_laws codec digest dao "chat" "t1" "room" 5 9 two_tokens
      invite (omega arith) refl refl refl refl

-- A token for a value and an hour.
abbrev guest : TempTokenRecord
guest = record { value = string "room"; namespace = "chat"; expire_at = some 3600000000005 }

abbrev is_room : Value → Bool
is_room (string v) = v == "room"
is_room (other raw) = false

is_room-eq : (v : Value) → is_room v ≡ true → guest.value ≡ v
is_room-eq (string v) h = ground (arith, eq_iff v "room")
is_room-eq (other raw) h = ground arith

abbrev is_hour : Option ℕ → Bool
is_hour none = false
is_hour (some e) = eqb e 3600000000005

abbrev is_guest : TempTokenRecord → Bool
is_guest x = is_room x.value && x.namespace == "chat" && is_hour x.expire_at

guest-eq : (x : TempTokenRecord) → is_guest x ≡ true → guest ≡ x
guest-eq x h = ground (arith, is_room-eq x.value, eq_iff x.namespace "chat")

abbrev guest_codec : Codec TempTokenRecord
guest_codec = known guest is_guest guest-eq

abbrev draw : ℕ → SaTokenResult String
draw i = ok "t9"

abbrev with_guest : MemoryStorage
with_guest =
    (create storage guest_codec digest dao draw "chat" (string "room") (pos 3600) true 5 new).1

create-parse_example : (parse storage guest_codec digest dao "chat" "t9" 60 with_guest).0 ≡ ok guest
unfolding create parse sa_token_rust.TempToken.ttl sa_token_rust.TempToken.expire_at
    sa_token_rust.TempToken.is_past set new temp_token temp_index
    sa_token_rust.Memory.Backend.memory_laws sa_token_rust.Dao.get_object
    sa_token_rust.Dao.get_string sa_token_rust.Dao.set_string sa_token_rust.Dao.set_if_absent
    sa_token_rust.Memory.set_if_absent sa_token_rust.Dao.delete sa_token_rust.Memory.get
    sa_token_rust.Memory.delete sa_token_rust.Memory.deadline sa_token_rust.Common.Text.is_empty
    sa_token_rust.Common.Assoc.lookup sa_token_rust.Common.Assoc.insert
    sa_token_rust.Common.Assoc.remove sa_token_rust.Memory.write
    sa_token_rust.Memory.Shard.shard_index
create-parse_example =
    create-parse storage storage_laws guest_codec digest dao draw "chat" (string "room") (pos 3600)
      true 5 60 new (some 3600000000000) "t9" refl refl (omega arith) refl refl
      (λ m h. ground arith)
