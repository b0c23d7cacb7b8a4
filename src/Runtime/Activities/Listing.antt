-- ===== src/Runtime/Activities/Listing.antt =====
-- The filtered `list_page` returns the first matching activities of the whole traversal.
use foundation_protocol.Prelude.{
  ℕ, zero, suc, ◌<◌, String, ◌≡◌, refl, ◌⊎◌, inl, inr, Bool, true, false, Option, none, some, List,
  [], ◌∷◌, ◌++◌, arith, keep, take, length, is_empty, Bool-cases, Option-cases, sym, ap, ◌∙◌,
  take_all, is_none,
}
use mathlib.Core.List.{append_assoc, append-nil}
use foundation_protocol.Protocol.Errors.{Result, ok}
use foundation_protocol.Protocol.Models.Activities.{Activity}
use foundation_protocol.Stores.Paging.{walk}
use foundation_protocol.Stores.Paging.Gaps.{NoGaps}
use foundation_protocol.Runtime.Revise.{Result-cases}
use foundation_protocol.Runtime.Activities.Pages.{gather}
use foundation_protocol.Runtime.Activities.Scanning.{keep-append, take-prefix, Filled, scan_cases}

-- What a finished traversal says of its first page.
record FirstPage (fuel : ℕ) (ask : Option String → Result (List Activity × Option String))
    (cursor : Option String) (all : List Activity) : Type 0 where
  chunk : List Activity
  next : Option String
  tail : List Activity
  asked : ask cursor ≡ ok (chunk, next)
  joins : all ≡ chunk ++ tail
  onward :
      ((next ≡ none) × (tail ≡ []))
      ⊎ ((c : String) × (next ≡ some c) × (walk fuel ask (some c) ≡ some tail))

module _ (ask : Option String → Result (List Activity × Option String)) where
  walk_first :
      (fuel : ℕ) (cursor : Option String) (all : List Activity)
      → walk (suc fuel) ask cursor ≡ some all
      → FirstPage fuel ask cursor all
  unfolding walk
  walk_first fuel cursor all h = elim (Result-cases (ask cursor)) [
    | inr (e, p) ↦ ground (arith, p)
    | inl ((chunk, none), p) ↦ record {
      chunk = chunk;
      next = none;
      tail = [];
      asked = p;
      joins = ground (arith, p, h, append-nil chunk);
      onward = inl (refl, refl);
    }
    | inl ((chunk, some c), p) ↦ elim (Option-cases (walk fuel ask (some c))) [
      | inl q ↦ ground (arith, p, q)
      | inr (tail, q) ↦ record {
        chunk = chunk;
        next = some c;
        tail = tail;
        asked = p;
        joins = ground (arith, p, q, h);
        onward = inr (c, refl, q);
      }
    ]
  ]

-- The answer of `gather`: what it shows is the beginning of what matches, up to the limit, and
-- all of it where there is no further cursor.
record Shows (limit : ℕ) (matches : List Activity)
    (answer : Option (Result (List Activity × Option String))) : Type 0 where
  shown : List Activity
  resume : Option String
  returned : answer ≡ some (ok (shown, resume))
  first_matches : shown ≡ take limit matches
  all_matches : resume ≡ none → shown ≡ matches

module _ (limit : ℕ) (pass : Activity → Bool)
    (ask : Option String → Result (List Activity × Option String)) (solid : NoGaps ask) where
  abbrev answer :
      ℕ → List Activity → Option String → Option (Result (List Activity × Option String))
  answer fuel page cursor = gather fuel limit pass ask page cursor

  joined_matches :
      (page chunk tail : List Activity)
      → page ++ keep pass (chunk ++ tail) ≡ (page ++ keep pass chunk) ++ keep pass tail
  joined_matches page chunk tail =
      ap (◌++◌ page) (keep-append pass chunk tail)
      ∙ sym (append_assoc page (keep pass chunk) (keep pass tail))

  module _ (fuel : ℕ) (page : List Activity) (cursor : Option String) (all : List Activity)
      (p : FirstPage fuel ask cursor all) where
    matches_split : page ++ keep pass all ≡ (page ++ keep pass p.chunk) ++ keep pass p.tail
    matches_split = ap (λ l. page ++ keep pass l) p.joins ∙ joined_matches page p.chunk p.tail

    last_tail : p.next ≡ none → p.tail ≡ []
    last_tail e = elim p.onward [ inl (_, t) ↦ t | inr (c, q, _) ↦ cc (e, q) ]

    -- the page is filled in this chunk
    Shows-Filled :
        is_empty p.chunk ≡ false
        → Filled limit pass p.next p.chunk page
        → Shows limit (page ++ keep pass all) (answer (suc fuel) page cursor)
    unfolding gather
    Shows-Filled solid_chunk f =
        let split : page ++ keep pass all ≡ f.taken ++ (f.rest ++ keep pass p.tail) =
          matches_split
          ∙ ap (λ l. l ++ keep pass p.tail) f.splits
          ∙ append_assoc f.taken f.rest (keep pass p.tail) in
        record {
          shown = f.taken;
          resume = f.resume;
          returned = ground (arith, p.asked, solid_chunk, f.stops);
          first_matches = sym (
              ap (take limit) split
              ∙ ap (λ n. take n (f.taken ++ (f.rest ++ keep pass p.tail))) (sym f.exact)
              ∙ take-prefix f.taken (f.rest ++ keep pass p.tail));
          all_matches = λ e.
              let (no_rest, no_next) = f.ends e in
              sym (
                split
                ∙ ap (λ l. f.taken ++ (l ++ keep pass p.tail)) no_rest
                ∙ ap (λ l. f.taken ++ keep pass l) (last_tail no_next)
                ∙ append-nil f.taken);
        }

    -- everything is on the page: there are no further chunks
    Shows-last :
        (shown : List Activity)
        → length shown < limit
        → page ++ keep pass all ≡ shown
        → answer (suc fuel) page cursor ≡ some (ok (shown, none))
        → Shows limit (page ++ keep pass all) (answer (suc fuel) page cursor)
    Shows-last shown room same e = record {
      shown = shown;
      resume = none;
      returned = e;
      first_matches = sym (ap (take limit) same ∙ take_all limit shown (omega arith));
      all_matches = λ _. sym same;
    }

  empty_list : (xs : List Activity) → is_empty xs ≡ true → xs ≡ []
  empty_list [] h = refl
  empty_list (x ∷ xs) h = cc

  shows :
      (fuel : ℕ) (page : List Activity) (cursor : Option String) (all : List Activity)
      → length page < limit
      → walk fuel ask cursor ≡ some all
      → Shows limit (page ++ keep pass all) (answer fuel page cursor)
  unfolding walk gather
  shows zero page cursor all room h = cc
  shows (suc fuel) page cursor all room h =
      let p = walk_first ask fuel cursor all h in
      let split = matches_split fuel page cursor all p in
      elim (Bool-cases (is_empty p.chunk)) [
        | inl gap ↦
            let nil = empty_list p.chunk gap in
            let no_next = solid cursor p.next (p.asked ∙ ap (λ l. ok (l, p.next)) nil) in
            let no_tail = last_tail fuel page cursor all p no_next in
            Shows-last fuel page cursor all p page room
              (split
                ∙ ap (λ l. (page ++ keep pass l) ++ keep pass p.tail) nil
                ∙ ap (λ l. (page ++ []) ++ keep pass l) no_tail
                ∙ append-nil (page ++ [])
                ∙ append-nil page)
              (ground (arith, p.asked, gap))
        | inr solid_chunk ↦ elim (scan_cases limit pass p.next p.chunk page room) [
          | inl f ↦ Shows-Filled fuel page cursor all p solid_chunk f
          | inr o ↦ elim p.onward [
            | inl (no_next, no_tail) ↦
                Shows-last fuel page cursor all p (page ++ keep pass p.chunk) o.room
                  (split
                    ∙ ap (λ l. (page ++ keep pass p.chunk) ++ keep pass l) no_tail
                    ∙ append-nil (page ++ keep pass p.chunk))
                  (ground (arith, p.asked, solid_chunk, o.goes_on, no_next))
            | inr (c, some_next, more_walk) ↦
                let later =
                  shows fuel (page ++ keep pass p.chunk) (some c) p.tail o.room more_walk in
                let step : answer (suc fuel) page cursor
                    ≡ answer fuel (page ++ keep pass p.chunk) (some c) =
                  ground (arith, p.asked, solid_chunk, o.goes_on, some_next) in
                rw (split, step) later
          ]
        ]
      ]

all_or_more :
    {P : Type 0} (resume : Option String) → (resume ≡ none → P) → (is_none resume ≡ false) ⊎ P
all_or_more none all = inr (all refl)
all_or_more (some c) all = inl refl

-- If a page is empty only where it gives no cursor, the limit is above zero and following the
-- cursors gives the activities `all` within the fuel, the filtered loop returns the first `limit`
-- matches of `all`, and all of them unless it gives a cursor.
pub gather_matches :
    (fuel limit : ℕ) (pass : Activity → Bool)
    (ask : Option String → Result (List Activity × Option String)) (cursor : Option String)
    (all : List Activity)
    → NoGaps ask
    → 0 < limit
    → walk fuel ask cursor ≡ some all
    → (shown : List Activity) × (resume : Option String) × (gather fuel limit pass ask [] cursor
        ≡ some (ok (shown, resume)))
      × (shown ≡ take limit (keep pass all))
      × ((is_none resume ≡ false) ⊎ (shown ≡ keep pass all))
gather_matches fuel limit pass ask cursor all solid above h =
    let r = shows limit pass ask solid fuel [] cursor all above h in
    (r.shown, r.resume, r.returned, r.first_matches, all_or_more r.resume r.all_matches)
