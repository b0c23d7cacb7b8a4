-- ===== src/Graph/Entities.antt =====
-- src/fp/graph/entities.py: the registry of entities.

use foundation_protocol.Prelude.{
  ℕ, zero, suc, ◌+◌, ◌≡◌, refl, ◌++◌, ◌||◌, map, keep, take, nat_eq, is_empty, String, Bool, true,
  false, not, ◌&&◌, Option, none, some, List, [], ◌∷◌, arith, ◌==◌, is_none, leb, if◌then◌else◌,
}
use foundation_protocol.Prelude.Texts.{codes, strip}
use foundation_protocol.Protocol.Errors.{Exec, already_exists, raise_if, gets, pure, ◌>>=◌, ◌>>◌}
use foundation_protocol.Protocol.Models.Entities.{
  Entity, EntityKind, agent, tool, resource, human, organization, institution, service, ui,
}
use foundation_protocol.Stores.Interfaces.{EntityStore}
use foundation_protocol.Runtime.Revise.{fetch, save}

module _ (store : EntityStore) where
  unfoldable pub register : Entity → Exec store.State Entity
  unfolding save
  register entity = do
    existing ← gets (λ s. store.get s entity.entity_id)
    raise_if (not (is_none existing)) already_exists
    save store entity
    pure entity

  unfoldable pub upsert : Entity → Exec store.State Entity
  unfolding save
  upsert entity = do save store entity; pure entity

  unfoldable pub get : String → Exec store.State Entity
  unfolding fetch
  get entity_id = fetch store entity_id

-- `needle in text`
abbrev starts_with : List ℕ → List ℕ → Bool
starts_with [] text = true
starts_with (c ∷ needle) [] = false
starts_with (c ∷ needle) (d ∷ text) = nat_eq c d && starts_with needle text

unfoldable pub is_inside : List ℕ → List ℕ → Bool
is_inside needle [] = is_empty needle
is_inside needle (d ∷ text) = starts_with needle (d ∷ text) || is_inside needle text

-- `" ".join(texts)`
abbrev joined : List (List ℕ) → List ℕ
joined [] = []
joined (t ∷ []) = t
joined (t ∷ u ∷ texts) = t ++ 32 ∷ joined (u ∷ texts)

abbrev or_empty : Option String → String
or_empty none = ""
or_empty (some s) = s

-- Python's `str.lower` is a parameter.
abbrev pub haystack : (List ℕ → List ℕ) → Entity → List ℕ
haystack lower entity = lower (
    joined (
      codes entity.entity_id
      ∷ codes (or_empty entity.display_name)
      ∷ joined (map codes entity.capability_summary.purpose)
      ∷ []))

-- `EntityKind(...).value`
unfoldable pub kind_value : EntityKind → String
kind_value agent = "agent"
kind_value tool = "tool"
kind_value resource = "resource"
kind_value human = "human"
kind_value organization = "organization"
kind_value institution = "institution"
kind_value service = "service"
kind_value ui = "ui"

-- An absent or empty kind lets all pass.
abbrev pub has_kind : Option String → Entity → Bool
has_kind none entity = true
has_kind (some kind) entity = kind == "" || kind_value entity.kind == kind

-- The loop of `search`, with the number of results so far.
unfoldable pub search_from : (Entity → Bool) → (Entity → Bool) → ℕ → ℕ → List Entity → List Entity
search_from right_kind hit limit taken [] = []
search_from right_kind hit limit taken (e ∷ es) =
    let skipped = search_from right_kind hit limit taken es in
    let counted = search_from right_kind hit limit (suc taken) es in
    if not (right_kind e)
    then skipped
    else if hit e
    then e ∷ (if leb limit (suc taken) then [] else counted)
    else if leb limit taken
    then []
    else skipped

module _ (lower : List ℕ → List ℕ) (store : EntityStore) where
  unfoldable pub search : store.State → String → Option String → ℕ → List Entity
  unfolding search_from is_inside kind_value
  search s query kind limit =
      let normalized = lower (strip (codes query)) in
      search_from (has_kind kind) (λ e. is_inside normalized (haystack lower e)) limit 0
        (store.list s)

-- The loop takes the first `limit` that pass both tests.
search_from-take :
    (right_kind hit : Entity → Bool) (n taken : ℕ) (es : List Entity)
    → search_from right_kind hit (suc n + taken) taken es
      ≡ take (suc n) (keep (λ e. right_kind e && hit e) es)
unfolding search_from
search_from-take right_kind hit n taken [] = refl
search_from-take right_kind hit zero taken (e ∷ es) =
    ground (arith, search_from-take right_kind hit zero taken es)
search_from-take right_kind hit (suc n) taken (e ∷ es) = ground (
  arith,
  search_from-take right_kind hit (suc n) taken es,
  search_from-take right_kind hit n (suc taken) es,
)

module _ (lower : List ℕ → List ℕ) (store : EntityStore) where
  -- A search with a limit of at least one returns the first `limit` entities of the store, in its
  -- order, that are of the kind and whose text has the trimmed query in it, both put through
  -- `lower`, a parameter that stands for Python's `str.lower`.
  pub search-first :
      (s : store.State) (query : String) (kind : Option String) (n : ℕ)
      → search lower store s query kind (suc n)
        ≡ take (suc n) (
            keep
              (λ e. has_kind kind e && is_inside (lower (strip (codes query))) (haystack lower e))
              (store.list s))
  unfolding search
  search-first s query kind n = ground (
    arith,
    search_from-take (has_kind kind)
        (λ e. is_inside (lower (strip (codes query))) (haystack lower e)) n 0 (store.list s),
  )
