-- ===== src/Tests/Federation.antt =====
-- A directory with one card in it.
use foundation_protocol.Prelude.{String, ◌≡◌, refl, ◌⊎◌, Bool, true, false, none, some, [], ◌∷◌}
use foundation_protocol.Prelude.Texts.{is_blank}
use foundation_protocol.Dict
use foundation_protocol.TextSet.{contains}
use foundation_protocol.Protocol.Errors.{ok, err, Error}
use foundation_protocol.Protocol.Json.{Json, str, arr, cons, nil, field, end, get_field}
use foundation_protocol.Federation.Cards.{FpServerCard, init_card}
use foundation_protocol.Federation.Directory
use foundation_protocol.Federation.Directory.{
  DirectoryEntry, refreshed, heartbeat, fresh_entry, resolve, publish, acl_items, get_valid_entry,
  get_entry, verify_signature, set_entry,
}
use foundation_protocol.Federation.Directory.Heartbeats.{IsRefreshed, heartbeat-IsRefreshed}
use foundation_protocol.Federation.Directory.Resolving.{IsResolved, resolve-IsResolved}
use foundation_protocol.Federation.Directory.Publishing.{
  IsPublished, publish_cases, resolve-publish, publish_replaces,
}

abbrev text_of : Json → String
text_of (str s) = s
text_of _ = ""

abbrev never : FpServerCard → String → String → Bool
never card signature key = false

abbrev owned_card : FpServerCard
owned_card = record {
  card_id = "c1";
  entity_id = "ann";
  fp_version = "0.1";
  rpc_url = "https://ann/rpc";
  well_known_url = "https://ann/fp";
  capabilities = end;
  metadata = field "acl_publish" (arr (cons (str "ann") nil)) end;
  sign_alg = none;
  key_ref = none;
  signature = none;
  issued_at = some 5;
  expires_at = some 90;
  ttl_seconds = none;
}

abbrev open_card : FpServerCard
open_card = record owned_card { card_id = "c2"; rpc_url = "https://eve/rpc"; metadata = end }

abbrev directory : Directory.Directory
directory = record {
  entries = ("ann", fresh_entry owned_card) ∷ [];
  public_keys = [];
  require_signature = false;
}

ann_resolves : (resolve text_of 10 "ann" none true directory).0 ≡ ok owned_card
unfolding resolve get_valid_entry get_entry Dict.get init_card is_blank get_field
ann_resolves = refl

resolve-IsResolved_example : IsResolved text_of 10 "ann" none true directory owned_card
resolve-IsResolved_example =
    resolve-IsResolved text_of 10 "ann" none true directory owned_card ann_resolves

publish_cases_example :
    ((e : Error) × (publish text_of never 10 open_card none true directory ≡ (err e, directory)))
    ⊎ IsPublished text_of never 10 open_card none true directory
publish_cases_example = publish_cases text_of never 10 open_card none true directory

eve_publishes : (publish text_of never 10 open_card none true directory).0 ≡ ok open_card
unfolding publish verify_signature set_entry Dict.get init_card is_blank get_field
eve_publishes = refl

resolve-publish_example :
    (resolve text_of 20 "ann"
      (some "bob")
      true
      (publish text_of never 10 open_card none true directory).1).0
    ≡ ok open_card
unfolding get_field
resolve-publish_example =
    resolve-publish text_of never 10 open_card none true directory 20 (some "bob") true open_card
      eve_publishes refl refl

open-checked : init_card open_card ≡ ok open_card
unfolding init_card is_blank
open-checked = refl

publish_replaces_example :
    Dict.get (publish text_of never 10 open_card (some "eve") true directory).1.entries "ann"
    ≡ some (fresh_entry open_card)
unfolding get_field acl_items contains Dict.get
publish_replaces_example =
    publish_replaces text_of never 10 open_card (some "eve") directory (fresh_entry owned_card) refl
      refl refl refl refl refl open-checked

ann_beats :
    (heartbeat text_of never 20 21 "ann" (some "ann") none directory).0
    ≡ ok (refreshed 20 owned_card)
unfolding heartbeat get_entry set_entry Dict.get init_card is_blank get_field acl_items contains
ann_beats = refl

heartbeat-IsRefreshed_example :
    IsRefreshed "ann" 20 directory
      (heartbeat text_of never 20 21 "ann" (some "ann") none directory).1
      (refreshed 20 owned_card)
heartbeat-IsRefreshed_example =
    heartbeat-IsRefreshed text_of never 20 21 "ann" (some "ann") directory (refreshed 20 owned_card)
      ann_beats
