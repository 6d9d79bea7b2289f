-- ===== src/UrlGroup/Assigned.antt =====
-- Which group each page gets, in whatever order the map of patterns is walked.
use seo_crawler_mcp.Prelude.{
  Bool, true, false, ◌&&◌, Option, none, some, List, [], ◌∷◌, Bytes, bytes_eq, bytes_eq_iff,
  bytes_eq_refl, ◌||◌, bytes_mem, map, if◌then◌else◌, Bool-cases, Option-cases, ◌≡◌, refl, sym, ap,
  subst, ◌∙◌, inl, inr, arith,
}
use mathlib.Core.Path.{fun_ext}
use seo_crawler_mcp.Config.{UrlGroupConfig}
use seo_crawler_mcp.UrlGroup.{
  PageEntry, extract_pattern, matches_pattern, cleared, assign_user, assign_users, is_grouped,
  is_auto_group, assign_auto, assign_autos, pattern_to_name, detect_groups,
}

abbrev pub or_else : {A : Type 0} → Option A → Option A → Option A
or_else none b = b
or_else (some a) b = some a

module _ (path_match : Bytes → Bytes → Option Bool) (path_of : Bytes → Option Bytes) where
  abbrev pub with_group : (PageEntry → Option Bytes) → PageEntry → PageEntry
  with_group g p = record p { url_group = g p }

  -- The name of the last group of the user that a URL matches.
  unfoldable pub user_name : List UrlGroupConfig → Bytes → Option Bytes
  user_name [] url = none
  user_name (ug ∷ ugs) url =
      or_else (user_name ugs url)
        (if matches_pattern path_match path_of url ug.pattern then some ug.name else none)

  -- The name that the pattern of a URL gives, if it is among some patterns and becomes a group.
  unfoldable pub auto_name :
      List UrlGroupConfig → List PageEntry → List Bytes → Bytes → Option Bytes
  auto_name ugs pages patterns url =
      let pattern = extract_pattern path_match path_of url in
      if is_grouped path_match path_of pattern
        && (bytes_mem pattern patterns && is_auto_group path_match path_of ugs pages pattern)
      then some (pattern_to_name pattern)
      else none

  map_user :
      (ug : UrlGroupConfig) (g : PageEntry → Option Bytes) (ps : List PageEntry)
      → map (assign_user path_match path_of ug) (map (with_group g) ps)
        ≡ map
            (with_group (λ p.
              if matches_pattern path_match path_of p.raw_url ug.pattern
              then some ug.name
              else g p))
            ps
  unfolding map assign_user
  map_user ug g [] = refl
  map_user ug g (p ∷ ps) =
      let ih = map_user ug g ps in
      elim (Bool-cases (matches_pattern path_match path_of p.raw_url ug.pattern)) [
        | inl e ↦ ground (arith, ih, e)
        | inr e ↦ ground (arith, ih, e)
      ]

  assign_users-map :
      (ugs : List UrlGroupConfig) (g : PageEntry → Option Bytes) (ps : List PageEntry)
      → assign_users path_match path_of ugs (map (with_group g) ps)
        ≡ map (with_group (λ p. or_else (user_name ugs p.raw_url) (g p))) ps
  unfolding assign_users user_name
  assign_users-map [] g ps = refl
  assign_users-map (ug ∷ ugs) g ps =
      let chosen = λ (p : PageEntry).
        if matches_pattern path_match path_of p.raw_url ug.pattern then some ug.name else g p in
      ap (assign_users path_match path_of ugs) (map_user ug g ps)
      ∙ assign_users-map ugs chosen ps
      ∙ ap (λ h. map (with_group h) ps)
          (fun_ext (λ p.
            chosen_last (user_name ugs p.raw_url)
              (matches_pattern path_match path_of p.raw_url ug.pattern) ug.name (g p)))
    where
      chosen_last :
          (later : Option Bytes) (b : Bool) (name : Bytes) (before : Option Bytes)
          → or_else later (if b then some name else before)
            ≡ or_else (or_else later (if b then some name else none)) before
      chosen_last none true name before = refl
      chosen_last none false name before = refl
      chosen_last (some n) b name before = refl

  abbrev named : Bytes → Bytes → Option Bytes
  named pattern url =
      if is_grouped path_match path_of pattern
        && bytes_eq (extract_pattern path_match path_of url) pattern
      then some (pattern_to_name pattern)
      else none

  map_auto :
      (pattern : Bytes) (g : PageEntry → Option Bytes) (ps : List PageEntry)
      → map (assign_auto path_match path_of pattern) (map (with_group g) ps)
        ≡ map (with_group (λ p. or_else (g p) (named pattern p.raw_url))) ps
  unfolding map assign_auto
  map_auto pattern g [] = refl
  map_auto pattern g (p ∷ ps) =
      let ih = map_auto pattern g ps in
      let b =
        is_grouped path_match path_of pattern
        && bytes_eq (extract_pattern path_match path_of p.raw_url) pattern in
      elim (Option-cases (g p)) [
        | inr (name, e) ↦ ground (arith, ih, e)
        | inl e ↦ elim (Bool-cases b) [
          | inl grouped ↦ ground (arith, ih, e, grouped)
          | inr other ↦ ground (arith, ih, e, other)
        ]
      ]

  module _ (ugs : List UrlGroupConfig) (pages : List PageEntry) where
    abbrev is_auto : Bytes → Bool
    is_auto = is_auto_group path_match path_of ugs pages

    auto_name_cons :
        (pattern : Bytes) (patterns : List Bytes) (url : Bytes)
        → auto_name ugs pages (pattern ∷ patterns) url
          ≡ or_else
              (if is_auto pattern then named pattern url else none)
              (auto_name ugs pages patterns url)
    unfolding auto_name bytes_mem
    auto_name_cons pattern patterns url =
        let own = extract_pattern path_match path_of url in
        elim (Bool-cases (bytes_eq own pattern)) [
          | inl e ↦
              subst
                (λ t.
                  (if is_grouped path_match path_of own
                      && ((bytes_eq own t || bytes_mem own patterns) && is_auto own)
                    then some (pattern_to_name own)
                    else none)
                  ≡ or_else (if is_auto t then named t url else none)
                      (auto_name ugs pages patterns url))
                ((bytes_eq_iff own pattern).0 e)
                (let self = bytes_eq_refl own in ground (arith, self))
          | inr e ↦ ground (arith, e)
        ]

    or_else_assoc :
        {A : Type 0} (a b c : Option A) → or_else (or_else a b) c ≡ or_else a (or_else b c)
    or_else_assoc none b c = refl
    or_else_assoc (some x) b c = refl

    or_else-none : {A : Type 0} (a : Option A) → or_else a none ≡ a
    or_else-none none = refl
    or_else-none (some x) = refl

    auto_name_nil : (url : Bytes) → auto_name ugs pages [] url ≡ none
    unfolding auto_name bytes_mem
    auto_name_nil url = ground arith

    -- One step of the loop, whether the pattern becomes a group or not.
    abbrev extended : (PageEntry → Option Bytes) → Bool → Bytes → PageEntry → Option Bytes
    extended g b pattern p = or_else (g p) (if b then named pattern p.raw_url else none)

    one_auto :
        (pattern : Bytes) (b : Bool) (g : PageEntry → Option Bytes) (ps : List PageEntry)
        → (if b
            then map (assign_auto path_match path_of pattern) (map (with_group g) ps)
            else map (with_group g) ps)
          ≡ map (with_group (extended g b pattern)) ps
    one_auto pattern true g ps = map_auto pattern g ps
    one_auto pattern false g ps =
        ap (λ h. map (with_group h) ps) (fun_ext (λ p. sym (or_else-none (g p))))

    assign_autos-map :
        (patterns : List Bytes) (g : PageEntry → Option Bytes) (ps : List PageEntry)
        → assign_autos path_match path_of ugs pages patterns (map (with_group g) ps)
          ≡ map (with_group (λ p. or_else (g p) (auto_name ugs pages patterns p.raw_url))) ps
    unfolding assign_autos
    assign_autos-map [] g ps =
        ap (λ h. map (with_group h) ps)
          (fun_ext (λ p. sym (ap (or_else (g p)) (auto_name_nil p.raw_url) ∙ or_else-none (g p))))
    assign_autos-map (pattern ∷ patterns) g ps =
        ap (assign_autos path_match path_of ugs pages patterns)
          (one_auto pattern (is_auto pattern) g ps)
        ∙ assign_autos-map patterns (extended g (is_auto pattern) pattern) ps
        ∙ ap (λ h. map (with_group h) ps)
            (fun_ext (λ p.
              or_else_assoc (g p) (if is_auto pattern then named pattern p.raw_url else none)
                (auto_name ugs pages patterns p.raw_url)
              ∙ ap (or_else (g p)) (sym (auto_name_cons pattern patterns p.raw_url))))

    -- However the map of patterns is walked, each page gets the name of the last group of the user that
    -- its URL matches, or else that of its own pattern, if it is in the map, has ten pages or more and is
    -- not covered by a pattern of the user, or else none; and nothing else of it changes.
    pub detect_groups_pages :
        (patterns : List Bytes)
        → (detect_groups path_match path_of ugs patterns pages).1
          ≡ map
              (with_group
                (λ p. or_else (user_name ugs p.raw_url) (auto_name ugs pages patterns p.raw_url)))
              pages
    unfolding detect_groups cleared
    detect_groups_pages patterns =
        ap (assign_autos path_match path_of ugs pages patterns)
          (assign_users-map ugs (λ p. none) pages)
        ∙ assign_autos-map patterns (λ p. or_else (user_name ugs p.raw_url) none) pages
        ∙ ap (λ h. map (with_group h) pages)
            (fun_ext (λ p.
              ap (λ o. or_else o (auto_name ugs pages patterns p.raw_url))
                (or_else-none (user_name ugs p.raw_url))))
