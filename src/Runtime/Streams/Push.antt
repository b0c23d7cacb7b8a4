-- ===== src/Runtime/Streams/Push.antt =====
-- The check of a push configuration, `_validate_push_config` of src/fp/runtime/event_engine.py. What
-- `urlparse` finds for the scheme of a URL is a parameter.
use foundation_protocol.Prelude.{
  String, Bool, true, false, not, ◌||◌, Option, none, some, List, [], ◌∷◌, ◌==◌,
}
use foundation_protocol.Prelude.Texts.{is_blank}
use foundation_protocol.Protocol.Errors.{Result, ok, err, fp_error, invalid_argument, check}
use foundation_protocol.Protocol.Json.{
  Json, null, str, arr, obj, Items, nil, cons, Fields, end, get_field,
}

-- The normalised configuration; a scope has its session, its activity, or both.
pub record PushConfig : Type 0 where
  pub push_config_id : String
  pub url : String
  pub scope_session : Option String
  pub scope_activity : Option String
  pub auth : Fields
  pub event_types : List String

-- a text that is not blank
abbrev text_of : Option Json → Result String
text_of (some (str s)) = check (is_blank s) invalid_argument (ok s)
text_of _ = err (fp_error invalid_argument)

-- A scope's entry: absent (or `null`), or a text that is not blank.
abbrev scope_entry : Option Json → Result (Option String)
scope_entry none = ok none
scope_entry (some null) = ok none
scope_entry (some (str s)) = check (is_blank s) invalid_argument (ok (some s))
scope_entry _ = err (fp_error invalid_argument)

abbrev object_of : Option Json → Result Fields
object_of (some (obj d)) = ok d
object_of _ = err (fp_error invalid_argument)

-- `config.get("auth", {})`, which must be an object
abbrev auth_of : Option Json → Result Fields
auth_of none = ok end
auth_of j = object_of j

unfoldable pub texts_of : Items → Result (List String)
texts_of nil = ok []
texts_of (cons (str s) items) =
    let rest = texts_of items in
    check (is_blank s) invalid_argument (elim rest [ ok texts ↦ ok (s ∷ texts) | err e ↦ err e ])
texts_of (cons _ items) = err (fp_error invalid_argument)

abbrev event_types_of : Option Json → Result (List String)
event_types_of (some (arr (cons j items))) = texts_of (cons j items)
event_types_of _ = err (fp_error invalid_argument)

infixl 5 ◌>>=◌
abbrev ◌>>=◌ : {A B : Type 0} → Result A → (A → Result B) → Result B
ok a >>= f = f a
err e >>= f = err e

abbrev neither : Option String → Option String → Bool
neither none none = true
neither _ _ = false

module _ (scheme : String → String) where
  -- the scheme is one of `http` and `https`
  unfoldable pub is_web : String → Bool
  is_web url = scheme url == "http" || scheme url == "https"

  unfoldable pub validate : Json → Result PushConfig
  unfolding is_web texts_of
  validate (obj config) = do
    config_id ← text_of (get_field config "push_config_id")
    url ← text_of (get_field config "url")
    web ← check (not (is_web url)) invalid_argument (ok url)
    scope ← object_of (get_field config "scope")
    session_id ← scope_entry (get_field scope "session_id")
    activity_id ← scope_entry (get_field scope "activity_id")
    scoped ← check (neither session_id activity_id) invalid_argument (ok scope)
    auth ← auth_of (get_field config "auth")
    event_types ← event_types_of (get_field config "event_types")
    ok (record {
      push_config_id = config_id;
      url = url;
      scope_session = session_id;
      scope_activity = activity_id;
      auth = auth;
      event_types = event_types;
    })
  validate _ = err (fp_error invalid_argument)
