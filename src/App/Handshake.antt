-- ===== src/App/Handshake.antt =====
-- `FPServer.initialize` (src/fp/app/server.py): the choice of a version.
use foundation_protocol.Prelude.{String, List, [], ◌∷◌, keep, Option, none, some, last?}
use foundation_protocol.TextSet.{contains}
use foundation_protocol.Stores.Paging.{sort_keys}
use foundation_protocol.Protocol.Errors.{
  Result, ok, err, fp_error, version_unsupported, lift, pure, gets, ◌>>=◌, ◌>>◌,
}
use foundation_protocol.Protocol.Json.{Fields}
use foundation_protocol.App.State.{Environment, Stores, Call, count}

-- `FPServer.SUPPORTED_VERSIONS`
abbrev pub supported : List String
supported = "0.1.0" ∷ []

pub record Handshake : Type 0 where
  pub negotiated_version : String
  pub server_entity_ref : String
  pub capabilities : Fields
  pub supported_profiles : List String

abbrev pub last_or_refuse : Option String → Result String
last_or_refuse none = err (fp_error version_unsupported)
last_or_refuse (some version) = ok version

-- `sorted(intersection)[-1]`, where the intersection is not empty
unfoldable pub negotiate : List String → Result String
unfolding sort_keys contains
negotiate versions = last_or_refuse (last? (sort_keys (keep (contains supported) versions)))

module _ (env : Environment) (stores : Stores) where
  unfoldable pub initialize : List String → Fields → List String → Call env stores Handshake
  unfolding negotiate count
  initialize supported_versions capabilities supported_profiles = do
    version ← lift (negotiate supported_versions)
    count env stores "initialize.ok"
    server ← gets (λ s. s.server_entity_id)
    pure (record {
      negotiated_version = version;
      server_entity_ref = server;
      capabilities = capabilities;
      supported_profiles = supported_profiles;
    })
