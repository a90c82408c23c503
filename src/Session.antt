-- ===== src/Session.antt =====
-- Sessions and their terminals: sa-token-core/src/session/mod.rs and session/terminal.rs. A JSON
-- value is of the parameter type `Value`; `serde_json::to_value` and `from_value` are `Option`
-- parameters of what uses them.
pub mod Terminals
use sa_token_rust.Common.{
  ℕ, zero, suc, ◌+◌, ◌/◌, ◌^◌, String, Bool, true, false, Option, none, some, List, [], ◌∷◌, ◌++◌,
  map, if◌then◌else◌, ◌==◌, length, retain, eqb, is_some,
}
use sa_token_rust.Common.Int.{ℤ, pos, negsuc}
use sa_token_rust.Common.Assoc.{Assoc, lookup, insert}
use sa_token_rust.Common.Assoc

pub record SaTerminalInfo (Value : Type 0) : Type 0 where
  pub index : ℤ
  pub token_value : String
  pub device_type : String
  pub device_id : Option String
  pub extra_data : Option Value
  pub create_time : ℕ

pub record SaSession (Value : Type 0) : Type 0 where
  pub id : String
  pub create_time : ℕ
  pub terminal_list : List (SaTerminalInfo Value)
  pub history_terminal_count : ℤ
  pub entries : Assoc Value

-- `n += 1` on an `i32`, which wraps around.
unfoldable pub succ_i32 : ℤ → ℤ
succ_i32 (pos n) = if eqb (n + 1) (2 ^ 31) then negsuc n else pos (n + 1)
succ_i32 (negsuc zero) = pos 0
succ_i32 (negsuc (suc n)) = negsuc n

module _ {Value : Type 0} where
  -- `SaTerminalInfo::new`; the creation time is in milliseconds.
  unfoldable pub new_terminal : String → String → ℕ → SaTerminalInfo Value
  new_terminal token_value device_type now = record {
    index = pos 0;
    token_value = token_value;
    device_type = device_type;
    device_id = none;
    extra_data = none;
    create_time = now / 10 ^ 6;
  }

  unfoldable pub with_device_id : SaTerminalInfo Value → String → SaTerminalInfo Value
  with_device_id self device_id = record self { device_id = some device_id }

  unfoldable pub with_extra_data : SaTerminalInfo Value → Value → SaTerminalInfo Value
  with_extra_data self extra = record self { extra_data = some extra }

  unfoldable pub new : String → ℕ → SaSession Value
  new id now = record {
    id = id;
    create_time = now;
    terminal_list = [];
    history_terminal_count = pos 0;
    entries = [];
  }

  -- `set`: nothing changes if the value cannot be written as JSON.
  unfoldable pub set :
      {T : Type 0} → (T → Option Value) → SaSession Value → String → T → Option (SaSession Value)
  unfolding insert
  set to_value self key value = elim (to_value value) [
    | none ↦ none
    | some v ↦ some (record self { entries = insert key v self.entries })
  ]

  unfoldable pub get : {T : Type 0} → (Value → Option T) → SaSession Value → String → Option T
  unfolding lookup
  get from_value self key = elim (lookup key self.entries) [ none ↦ none | some v ↦ from_value v ]

  unfoldable pub remove : SaSession Value → String → SaSession Value
  remove self key = record self { entries = Assoc.remove key self.entries }

  unfoldable pub clear : SaSession Value → SaSession Value
  clear self = record self { entries = [] }

  unfoldable pub has : SaSession Value → String → Bool
  unfolding lookup
  has self key = is_some (lookup key self.entries)

  unfoldable pub add_terminal : SaSession Value → SaTerminalInfo Value → SaSession Value
  unfolding succ_i32
  add_terminal self terminal =
      let count = succ_i32 self.history_terminal_count in
      record self {
        history_terminal_count = count;
        terminal_list = self.terminal_list ++ (record terminal { index = count }) ∷ [];
      }

  unfoldable pub find : String → List (SaTerminalInfo Value) → Option (SaTerminalInfo Value)
  find token_value [] = none
  find token_value (t ∷ ts) =
      let rest = find token_value ts in if t.token_value == token_value then some t else rest

  -- `position` and `Vec::remove`: without the first terminal of the token.
  unfoldable pub drop_first : String → List (SaTerminalInfo Value) → List (SaTerminalInfo Value)
  drop_first token_value [] = []
  drop_first token_value (t ∷ ts) =
      let rest = drop_first token_value ts in if t.token_value == token_value then ts else t ∷ rest

  -- The terminal that was removed, if there was one.
  unfoldable pub remove_terminal :
      SaSession Value → String → Option (SaTerminalInfo Value) × SaSession Value
  unfolding find drop_first
  remove_terminal self token_value = (
    find token_value self.terminal_list,
    record self { terminal_list = drop_first token_value self.terminal_list },
  )

  unfoldable pub get_terminal : SaSession Value → String → Option (SaTerminalInfo Value)
  unfolding find
  get_terminal self token_value = find token_value self.terminal_list

  of_type : Option String → List (SaTerminalInfo Value) → List (SaTerminalInfo Value)
  of_type none ts = ts
  of_type (some dt) ts = retain (λ t. t.device_type == dt) ts

  unfoldable pub get_terminal_list_by_device_type :
      SaSession Value → Option String → List (SaTerminalInfo Value)
  unfolding of_type
  get_terminal_list_by_device_type self device_type = of_type device_type self.terminal_list

  unfoldable pub get_token_value_list_by_device_type : SaSession Value → Option String → List String
  unfolding get_terminal_list_by_device_type
  get_token_value_list_by_device_type self device_type =
      map (λ t. t.token_value) (get_terminal_list_by_device_type self device_type)

  unfoldable pub terminal_count : SaSession Value → ℕ
  terminal_count self = length self.terminal_list
