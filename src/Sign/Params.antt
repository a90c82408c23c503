-- ===== src/Sign/Params.antt =====
-- The parameters of a signed request, a `BTreeMap<String, String>`: an association list in the
-- order of its keys, with the map's insertion, and the canonical query of
-- sa-token-core/src/sign.rs.
use sa_token_rust.Common.{
  String, ◌≡◌, some, List, [], ◌∷◌, if◌then◌else◌, ◌==◌, eq_iff, arith, refl, ap,
}
use sa_token_rust.Common.Text.{◌<>◌}
use sa_token_rust.Common.Assoc.{Assoc, lookup}
use sa_token_rust.Memory.Scan.{before}

-- `BTreeMap::insert`: in the place of its key.
unfoldable pub insert : String → String → Assoc String → Assoc String
insert k v [] = (k, v) ∷ []
insert k v ((j, w) ∷ m) =
    let rest = insert k v m in
    if k == j then (k, v) ∷ m else if before k j then (k, v) ∷ (j, w) ∷ m else (j, w) ∷ rest

-- `join("&")`.
join_more : List String → String
join_more [] = ""
join_more (part ∷ parts) = "&" <> part <> join_more parts

unfoldable pub join : List String → String
unfolding join_more
join [] = ""
join (part ∷ parts) = part <> join_more parts

-- `filter(k != "sign").map(k=v)`.
unfoldable pub parts : Assoc String → List String
parts [] = []
parts ((k, v) ∷ m) = let rest = parts m in if k == "sign" then rest else (k <> "=" <> v) ∷ rest

unfoldable pub canonical : Assoc String → String
unfolding join parts
canonical params = join (parts params)

pub lookup-insert :
    (k j v : String) (m : Assoc String)
    → lookup j (insert k v m) ≡ (if k == j then some v else lookup j m)
unfolding lookup insert
lookup-insert k j v [] = ground arith
lookup-insert k j v ((i, w) ∷ m) =
    ground (arith, lookup-insert k j v m, eq_iff k i, eq_iff i j, eq_iff k j)

parts-sign : (v : String) (m : Assoc String) → parts (insert "sign" v m) ≡ parts m
unfolding parts insert
parts-sign v [] = refl
parts-sign v ((j, w) ∷ m) = ground (arith, parts-sign v m, eq_iff "sign" j, eq_iff j "sign")

-- The signature is no part of what is signed.
pub canonical-sign : (v : String) (m : Assoc String) → canonical (insert "sign" v m) ≡ canonical m
unfolding canonical
canonical-sign v m = ap join (parts-sign v m)
