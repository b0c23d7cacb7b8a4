-- ===== src/Runtime/Activities/Scanning.antt =====
-- What one chunk of activities adds to a filtered page.
use foundation_protocol.Prelude.{
  ℕ, ◌<◌, String, ◌≡◌, refl, ◌⊎◌, inl, inr, Bool, Option, none, List, [], ◌∷◌, ◌++◌, arith, keep,
  take, length, length-append, leb, Bool-cases, sym, ap, ◌∙◌, subst,
}
use mathlib.Core.List.{append_assoc, append-nil}
use foundation_protocol.Protocol.Models.Activities.{Activity}
use foundation_protocol.Runtime.Activities.Pages.{full, more, resume_at, scan}

pub keep-append :
    {A : Type 0} (p : A → Bool) (xs ys : List A) → keep p (xs ++ ys) ≡ keep p xs ++ keep p ys
keep-append p [] ys = refl
keep-append p (x ∷ xs) ys = ground (arith, keep-append p xs ys)

pub take-prefix : {A : Type 0} (xs ys : List A) → take (length xs) (xs ++ ys) ≡ xs
take-prefix [] ys = refl
take-prefix (x ∷ xs) ys = ap (◌∷◌ x) (take-prefix xs ys)

module _ (limit : ℕ) (pass : Activity → Bool) (next : Option String) where
  resume_none :
      (chunk : List Activity) (a : Activity)
      → resume_at chunk next a ≡ none
      → (keep pass chunk ≡ []) × (next ≡ none)
  resume_none [] a h = ground arith
  resume_none (b ∷ chunk) a h = cc

  -- A chunk fills the page with the first matches, or adds all its matches and leaves room.
  pub record Filled (chunk page : List Activity) : Type 0 where
    pub taken : List Activity
    pub resume : Option String
    pub rest : List Activity
    pub stops : scan limit pass next chunk page ≡ full taken resume
    pub exact : length taken ≡ limit
    pub splits : page ++ keep pass chunk ≡ taken ++ rest
    pub ends : resume ≡ none → (rest ≡ []) × (next ≡ none)

  pub record Open (chunk page : List Activity) : Type 0 where
    pub goes_on : scan limit pass next chunk page ≡ more (page ++ keep pass chunk)
    pub room : length (page ++ keep pass chunk) < limit

  pub scan_cases :
      (chunk page : List Activity) → length page < limit → Filled chunk page ⊎ Open chunk page
  unfolding scan
  scan_cases [] page h =
      inr (record { goes_on = ap more (sym (append-nil page)); room = rw append-nil h })
  scan_cases (a ∷ chunk) page h = elim (Bool-cases (pass a)) [
    | inr skip ↦ elim (scan_cases chunk page h) [
      | inl f ↦ inl (record {
        taken = f.taken;
        resume = f.resume;
        rest = f.rest;
        stops = rw skip f.stops;
        exact = f.exact;
        splits = rw skip f.splits;
        ends = f.ends;
      })
      | inr o ↦ inr (record { goes_on = rw skip o.goes_on; room = rw skip o.room })
    ]
    | inl hit ↦ elim (Bool-cases (leb limit (length (page ++ a ∷ [])))) [
      | inl at_limit ↦ inl (record {
        taken = page ++ a ∷ [];
        resume = resume_at chunk next a;
        rest = keep pass chunk;
        stops = rw (hit, at_limit);
        exact = ground (arith, length-append page (a ∷ []));
        splits = rw hit (sym (append_assoc page (a ∷ []) (keep pass chunk)));
        ends = resume_none chunk a;
      })
      | inr below ↦ elim (scan_cases chunk (page ++ a ∷ []) (ground arith)) [
        | inl f ↦ inl (record {
          taken = f.taken;
          resume = f.resume;
          rest = f.rest;
          stops = rw (hit, below) f.stops;
          exact = f.exact;
          splits = rw hit (sym (append_assoc page (a ∷ []) (keep pass chunk)) ∙ f.splits);
          ends = f.ends;
        })
        | inr o ↦
            let same = append_assoc page (a ∷ []) (keep pass chunk) in
            inr (record {
              goes_on = rw (hit, below) (o.goes_on ∙ ap more same);
              room = rw hit (subst (λ l. length l < limit) same o.room);
            })
      ]
    ]
  ]
