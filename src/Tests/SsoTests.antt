-- ===== src/Tests/SsoTests.antt =====
-- Witnesses on nonces and single sign-on.
use sa_token_rust.Common.{
  ℕ, suc, ◌≤◌, ◌+◌, String, ◌≡◌, ◌≢◌, refl, Bool, true, false, Option, none, some, List, [], ◌∷◌,
  ok, err, ◌==◌, ◌&&◌, eq_iff, eqb, if◌then◌else◌, arith, not,
}
use sa_token_rust.Common.Int.{pos}
use sa_token_rust.Memory.{MemoryStorage, new, set}
use sa_token_rust.Dao.{Codec}
use sa_token_rust.Nonce.{NonceRecord, NonceManager, validate_and_consume}
use sa_token_rust.Nonce.Once.{start, call, validate_and_consume-once}
use sa_token_rust.Sso.{SsoTicket, SsoSession, is_valid}
use sa_token_rust.Sso.Tickets.{SsoTicketStore, save, consume}
use sa_token_rust.Sso.TicketLaws.{consume-once, save-consume}
use sa_token_rust.Sso.Sessions.{upsert_client}
use sa_token_rust.Sso.SessionLaws.{Leads, Added, upsert_client-adds}
use sa_token_rust.Sso.Server.{SsoServer, validate_ticket}
use sa_token_rust.Sso.ServerLaws.{validate_ticket-once}
use sa_token_rust.Tests.{storage, storage_laws, dao, known}

-- The codec of the records of one login id at one time.
abbrev alice_now : NonceRecord
alice_now = record { login_id = "alice"; created_at = "now" }

abbrev is_alice_now : NonceRecord → Bool
is_alice_now r = r.login_id == "alice" && r.created_at == "now"

alice_now-eq : (r : NonceRecord) → is_alice_now r ≡ true → alice_now ≡ r
alice_now-eq r h = ground (arith, eq_iff r.login_id "alice", eq_iff r.created_at "now")

abbrev nonce_codec : Codec NonceRecord
nonce_codec = known alice_now is_alice_now alice_now-eq

abbrev nonces : NonceManager
nonces = record { dao = dao; timeout = pos 60 }

abbrev after_n1 : MemoryStorage
after_n1 = (validate_and_consume storage nonce_codec (λ t. "now") nonces "n1" "alice" 5 new).1

abbrev after_n2 : MemoryStorage
after_n2 = (validate_and_consume storage nonce_codec (λ t. "now") nonces "n2" "alice" 7 after_n1).1

validate_and_consume-once_example :
    (validate_and_consume storage nonce_codec (λ t. "now") nonces "n1" "alice" 9 after_n2).0 ≢ ok tt
unfolding validate_and_consume sa_token_rust.Dao.get_object sa_token_rust.Dao.get_string
    sa_token_rust.Memory.get sa_token_rust.Common.Assoc.lookup sa_token_rust.Dao.set_object
    sa_token_rust.Dao.set_string set sa_token_rust.Memory.write
    sa_token_rust.Memory.Shard.shard_index new sa_token_rust.Dao.cas
    sa_token_rust.Memory.compare_and_swap sa_token_rust.Common.Assoc.insert
    sa_token_rust.Common.Assoc.remove sa_token_rust.Dao.take_string sa_token_rust.Memory.get_del
    sa_token_rust.Dao.set_if_absent sa_token_rust.Memory.set_if_absent sa_token_rust.Dao.delete
    sa_token_rust.Memory.delete sa_token_rust.Memory.Backend.memory_laws
    sa_token_rust.Common.Text.is_empty sa_token_rust.Common.Text.trim sa_token_rust.Memory.deadline
    sa_token_rust.Keys.nonce sa_token_rust.Keys.sso_session sa_token_rust.Keys.sso_ticket
validate_and_consume-once_example =
    validate_and_consume-once storage storage_laws nonce_codec (λ t. "now") nonces "n1" "alice"
      "alice" 5 7 9 new after_n2 refl
      (call 5 after_n1 start "n2" "alice" 7 (omega arith) (λ m h. ground arith)) (omega arith) refl

abbrev ticket : SsoTicket
ticket = record {
  ticket_id = "st1";
  service = "https://app";
  login_id = "alice";
  create_time = 0;
  expire_time = 300;
  used = false;
}

abbrev is_ticket : SsoTicket → Bool
is_ticket x =
    x.ticket_id == "st1"
    && x.service == "https://app"
    && x.login_id == "alice"
    && eqb x.create_time 0
    && eqb x.expire_time 300
    && not x.used

ticket-eq : (x : SsoTicket) → is_ticket x ≡ true → ticket ≡ x
ticket-eq x h =
    ground
      (arith, eq_iff x.ticket_id "st1", eq_iff x.service "https://app", eq_iff x.login_id "alice")

abbrev ticket_codec : Codec SsoTicket
ticket_codec = known ticket is_ticket ticket-eq

abbrev tickets : SsoTicketStore
tickets = record { dao = dao; ticket_ttl_secs = pos 300 }

abbrev saved : MemoryStorage
saved = (save storage ticket_codec tickets ticket 0 new).1

save-consume_example :
    (consume storage ticket_codec tickets "st1" "https://app" 20 saved).0 ≡ ok "alice"
unfolding save consume is_valid sa_token_rust.Dao.get_object sa_token_rust.Dao.get_string
    sa_token_rust.Memory.get sa_token_rust.Common.Assoc.lookup sa_token_rust.Dao.set_object
    sa_token_rust.Dao.set_string set sa_token_rust.Memory.write
    sa_token_rust.Memory.Shard.shard_index new sa_token_rust.Dao.cas
    sa_token_rust.Memory.compare_and_swap sa_token_rust.Common.Assoc.insert
    sa_token_rust.Common.Assoc.remove sa_token_rust.Dao.take_string sa_token_rust.Memory.get_del
    sa_token_rust.Dao.set_if_absent sa_token_rust.Memory.set_if_absent sa_token_rust.Dao.delete
    sa_token_rust.Memory.delete sa_token_rust.Memory.Backend.memory_laws
    sa_token_rust.Common.Text.is_empty sa_token_rust.Common.Text.trim sa_token_rust.Memory.deadline
    sa_token_rust.Keys.nonce sa_token_rust.Keys.sso_session sa_token_rust.Keys.sso_ticket
save-consume_example =
    save-consume storage storage_laws ticket_codec tickets ticket 0 20 new (omega arith) refl refl
      refl (λ m h. ground arith)

consume-once_example :
    (consume storage ticket_codec tickets "st1" "https://app" 30
      (consume storage ticket_codec tickets "st1" "https://other" 20 saved).1).0
    ≢ ok "alice"
unfolding save consume is_valid sa_token_rust.Dao.get_object sa_token_rust.Dao.get_string
    sa_token_rust.Memory.get sa_token_rust.Common.Assoc.lookup sa_token_rust.Dao.set_object
    sa_token_rust.Dao.set_string set sa_token_rust.Memory.write
    sa_token_rust.Memory.Shard.shard_index new sa_token_rust.Dao.cas
    sa_token_rust.Memory.compare_and_swap sa_token_rust.Common.Assoc.insert
    sa_token_rust.Common.Assoc.remove sa_token_rust.Dao.take_string sa_token_rust.Memory.get_del
    sa_token_rust.Dao.set_if_absent sa_token_rust.Memory.set_if_absent sa_token_rust.Dao.delete
    sa_token_rust.Memory.delete sa_token_rust.Memory.Backend.memory_laws
    sa_token_rust.Common.Text.is_empty sa_token_rust.Common.Text.trim sa_token_rust.Memory.deadline
    sa_token_rust.Keys.nonce sa_token_rust.Keys.sso_session sa_token_rust.Keys.sso_ticket
consume-once_example =
    consume-once storage storage_laws ticket_codec tickets "st1" "https://other" "https://app"
      "alice" 20 30 saved (omega arith) (λ m h. ground arith)

abbrev session : SsoSession
session = record {
  login_id = "alice";
  clients = "https://app" ∷ [];
  create_time = 5;
  last_active_time = 5;
}

abbrev is_app : List String → Bool
is_app [] = false
is_app (a ∷ []) = a == "https://app"
is_app (a ∷ b ∷ rest) = false

is_app-eq : (xs : List String) → is_app xs ≡ true → session.clients ≡ xs
is_app-eq [] h = ground arith
is_app-eq (a ∷ []) h = ground (arith, eq_iff a "https://app")
is_app-eq (a ∷ b ∷ rest) h = ground arith

abbrev is_session : SsoSession → Bool
is_session x =
    x.login_id == "alice" && is_app x.clients && eqb x.create_time 5 && eqb x.last_active_time 5

session-eq : (x : SsoSession) → is_session x ≡ true → session ≡ x
session-eq x h = ground (arith, eq_iff x.login_id "alice", is_app-eq x.clients)

abbrev session_codec : Codec SsoSession
session_codec = known session is_session session-eq

upsert_client-adds_example :
    (n : ℕ) × (a : MemoryStorage) × Leads storage storage_laws session_codec
      (λ n s. s)
      dao
      "alice"
      "https://app"
      5
      new
      (suc n)
      a
    × Added storage storage_laws session_codec
        (λ n s. s)
        dao
        "alice"
        "https://app"
        5
        a
        (upsert_client storage session_codec (λ n s. s) dao "alice" "https://app" 5 new).1
unfolding upsert_client sa_token_rust.Dao.get_object sa_token_rust.Dao.get_string
    sa_token_rust.Memory.get sa_token_rust.Common.Assoc.lookup sa_token_rust.Dao.set_object
    sa_token_rust.Dao.set_string set sa_token_rust.Memory.write
    sa_token_rust.Memory.Shard.shard_index new sa_token_rust.Dao.cas
    sa_token_rust.Memory.compare_and_swap sa_token_rust.Common.Assoc.insert
    sa_token_rust.Common.Assoc.remove sa_token_rust.Dao.take_string sa_token_rust.Memory.get_del
    sa_token_rust.Dao.set_if_absent sa_token_rust.Memory.set_if_absent sa_token_rust.Dao.delete
    sa_token_rust.Memory.delete sa_token_rust.Memory.Backend.memory_laws
    sa_token_rust.Common.Text.is_empty sa_token_rust.Common.Text.trim sa_token_rust.Memory.deadline
    sa_token_rust.Keys.nonce sa_token_rust.Keys.sso_session sa_token_rust.Keys.sso_ticket
upsert_client-adds_example =
    upsert_client-adds storage storage_laws session_codec (λ n s. s) dao "alice" "https://app" 5 new
      refl

abbrev server : SsoServer
server = record {
  dao = dao;
  ticket_timeout = pos 300;
  allow_cross_domain = false;
  allowed_origins = [];
}

-- The ticket is saved, and its session is there.
abbrev ready : MemoryStorage
ready = (upsert_client storage session_codec (λ n s. s) dao "alice" "https://app" 5 saved).1

validate_ticket-once_example :
    (validate_ticket storage ticket_codec session_codec server "st1" "https://app" 30
      (validate_ticket storage ticket_codec session_codec server "st1" "https://app" 20 ready).1).0
    ≢ ok "alice"
unfolding validate_ticket upsert_client save sa_token_rust.Dao.get_object
    sa_token_rust.Dao.get_string sa_token_rust.Memory.get sa_token_rust.Common.Assoc.lookup
    sa_token_rust.Dao.set_object sa_token_rust.Dao.set_string set sa_token_rust.Memory.write
    sa_token_rust.Memory.Shard.shard_index new sa_token_rust.Dao.cas
    sa_token_rust.Memory.compare_and_swap sa_token_rust.Common.Assoc.insert
    sa_token_rust.Common.Assoc.remove sa_token_rust.Dao.take_string sa_token_rust.Memory.get_del
    sa_token_rust.Dao.set_if_absent sa_token_rust.Memory.set_if_absent sa_token_rust.Dao.delete
    sa_token_rust.Memory.delete sa_token_rust.Memory.Backend.memory_laws
    sa_token_rust.Common.Text.is_empty sa_token_rust.Common.Text.trim sa_token_rust.Memory.deadline
    sa_token_rust.Keys.nonce sa_token_rust.Keys.sso_session sa_token_rust.Keys.sso_ticket
validate_ticket-once_example =
    validate_ticket-once storage storage_laws ticket_codec session_codec server "st1" "https://app"
      "https://app" "alice" "alice" 20 30 ready (omega arith) refl
