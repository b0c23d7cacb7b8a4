-- ===== src/Protocol/Json.antt =====
-- The values of `dict[str, Any]` payloads: what `json.loads` gives. A number is kept as its
-- text, since the code never computes with one.
use foundation_protocol.Prelude.{String, Bool, true, false, Option, none, some, ◌==◌, if◌then◌else◌}

mutual
  pub data Json : Type 0 where
    null : Json
    bool : Bool → Json
    num : String → Json
    str : String → Json
    arr : Items → Json
    obj : Fields → Json

  pub data Items : Type 0 where
    nil : Items
    cons : Json → Items → Items

  pub data Fields : Type 0 where
    end : Fields
    field : String → Json → Fields → Fields

-- `d.get(k)` on an object
unfoldable pub get_field : Fields → String → Option Json
get_field end k = none
get_field (field j v d) k = let rest = get_field d k in if j == k then some v else rest

-- `d[k] = v`
unfoldable pub put_field : Fields → String → Json → Fields
put_field end k v = field k v end
put_field (field j w d) k v =
    let rest = put_field d k v in if j == k then field k v d else field j w rest

-- `d.update(e)`
unfoldable pub update_fields : Fields → Fields → Fields
unfolding put_field
update_fields d end = d
update_fields d (field k v e) = update_fields (put_field d k v) e

-- `not d`
unfoldable pub no_fields : Fields → Bool
no_fields end = true
no_fields (field _ _ _) = false
