-- ===== src/AgentReadiness/Homepages.antt =====
-- uniqueHomepages in internal/agentreadiness/runner.go: the homepage of each seed that has one, once.
use seo_crawler_mcp.Prelude.{
  IsOnce, bytes_eq_refl, Bool, true, false, ◌||◌, Option, none, some, List, [], ◌∷◌, ◌++◌, Bytes,
  codes, bytes_mem, bytes_eq_iff, bytes_eq, is_empty, map, if◌then◌else◌, to_lower, Bool-cases,
  Option-cases, All, ◌⊎◌, ◌≡◌, refl, sym, ap, subst, ◌∙◌, inl, inr, arith,
}
use seo_crawler_mcp.UrlUtil.Normalize.{Parser}

module _ (parse : Parser) where
  unfoldable pub homepage_of : Bytes → Option Bytes
  homepage_of raw = elim (parse raw) [
    | none ↦ none
    | some u ↦
        if is_empty u.scheme || is_empty u.host
        then none
        else some (u.scheme ++ codes "://" ++ u.host ++ codes "/")
  ]

  -- The seeds that remain, with the keys that were seen.
  unfoldable pub homepages_from : List Bytes → List Bytes → List Bytes
  homepages_from seen [] = []
  homepages_from seen (raw ∷ seeds) = elim (homepage_of raw) [
    | none ↦ homepages_from seen seeds
    | some homepage ↦
        if bytes_mem (to_lower homepage) seen
        then homepages_from seen seeds
        else homepage ∷ homepages_from (to_lower homepage ∷ seen) seeds
  ]

  unfoldable pub unique_homepages : List Bytes → List Bytes
  unique_homepages seeds = homepages_from [] seeds

  -- The key of a seed's homepage is among some keys, if it has one.
  abbrev pub IsAmong : (Bytes → Bool) → Bytes → Type 0
  IsAmong among raw =
      (homepage : Bytes) → homepage_of raw ≡ some homepage → among (to_lower homepage) ≡ true

  some_injective : {A : Type 0} {a b : A} → ◌≡◌ {A = Option A} (some a) (some b) → a ≡ b
  some_injective h = cc h

  abbrev chosen : List Bytes → List Bytes → Option Bytes → List Bytes
  chosen seen seeds none = homepages_from seen seeds
  chosen seen seeds (some homepage) =
      if bytes_mem (to_lower homepage) seen
      then homepages_from seen seeds
      else homepage ∷ homepages_from (to_lower homepage ∷ seen) seeds

  homepages_from-chosen :
      (seen : List Bytes) (raw : Bytes) (seeds : List Bytes)
      → homepages_from seen (raw ∷ seeds) ≡ chosen seen seeds (homepage_of raw)
  unfolding homepages_from
  homepages_from-chosen seen raw seeds = elim (Option-cases (homepage_of raw)) [
    | inl e ↦ ground (arith, e)
    | inr (homepage, e) ↦ ground (arith, e)
  ]

  -- What is known of the homepages after some seen keys: none of them was seen, none comes twice, and
  -- each seed's was seen or is one of them.
  record IsRest (seen seeds result : List Bytes) : Type 0 where
    apart : (key : Bytes) → bytes_mem key seen ≡ true → bytes_mem key (map to_lower result) ≡ false
    once : IsOnce (map to_lower result)
    each : All (IsAmong (λ key. bytes_mem key seen || bytes_mem key (map to_lower result))) seeds

  skipped-IsRest :
      (seen : List Bytes) (raw : Bytes) (seeds result : List Bytes)
      → IsAmong (λ key. bytes_mem key seen) raw
      → IsRest seen seeds result
      → IsRest seen (raw ∷ seeds) result
  skipped-IsRest seen raw seeds result old rest = record {
    apart = rest.apart;
    once = rest.once;
    each = ((λ homepage e. let o = old homepage e in ground (arith, o)), rest.each);
  }

  put-IsRest :
      (seen : List Bytes) (raw homepage : Bytes) (seeds result : List Bytes)
      → homepage_of raw ≡ some homepage
      → bytes_mem (to_lower homepage) seen ≡ false
      → IsRest (to_lower homepage ∷ seen) seeds result
      → IsRest seen (raw ∷ seeds) (homepage ∷ result)
  unfolding bytes_mem
  put-IsRest seen raw homepage seeds result e new rest =
      let k = to_lower homepage in
      record {
        apart = λ key h. apart key h (Bool-cases (bytes_eq key k));
        once = (rest.apart k (let same = bytes_eq_refl k in ground (arith, same)), rest.once);
        each = (
          (λ h eh. let same : h ≡ homepage = some_injective (sym eh ∙ e) in first h same),
          moved seeds rest.each,
        );
      }
    where
      apart :
          (key : Bytes)
          → bytes_mem key seen ≡ true
          → (bytes_eq key (to_lower homepage) ≡ true) ⊎ (bytes_eq key (to_lower homepage) ≡ false)
          → bytes_mem key (map to_lower (homepage ∷ result)) ≡ false
      apart key h (inl same) = absurd (
          cc (
            sym (ap (λ t. bytes_mem t seen) ((bytes_eq_iff key (to_lower homepage)).0 same)) ∙ h,
            new,
          ))
      apart key h (inr other) = let later = rest.apart key in ground (arith, later, h, other)

      first :
          (h : Bytes)
          → h ≡ homepage
          → (bytes_mem (to_lower h) seen
              || bytes_mem (to_lower h) (map to_lower (homepage ∷ result)))
            ≡ true
      first h same =
          let self = bytes_eq_refl (to_lower homepage) in
          subst
            (λ t.
              (bytes_mem (to_lower t) seen
                || bytes_mem (to_lower t) (map to_lower (homepage ∷ result)))
              ≡ true)
            (sym same) (ground (arith, self))

      moved :
          (seeds : List Bytes)
          → All
              (IsAmong (λ key.
                bytes_mem key (to_lower homepage ∷ seen) || bytes_mem key (map to_lower result)))
              seeds
          → All
              (IsAmong
                (λ key. bytes_mem key seen || bytes_mem key (map to_lower (homepage ∷ result))))
              seeds
      moved [] h = tt
      moved (raw' ∷ seeds) (h, hs) =
          ((λ p ep. let among = h p ep in ground (arith, among)), moved seeds hs)

  none-IsRest : (seen : List Bytes) → IsRest seen [] (homepages_from seen [])
  unfolding homepages_from bytes_mem
  none-IsRest seen = record { apart = λ key h. refl; once = tt; each = tt }

  homepages_from-IsRest : (seen seeds : List Bytes) → IsRest seen seeds (homepages_from seen seeds)
  homepages_from-IsRest seen [] = none-IsRest seen
  homepages_from-IsRest seen (raw ∷ seeds) =
      subst (IsRest seen (raw ∷ seeds)) (sym (homepages_from-chosen seen raw seeds))
        (elim (Option-cases (homepage_of raw)) [
          | inl e ↦
              subst (λ o. IsRest seen (raw ∷ seeds) (chosen seen seeds o)) (sym e)
                (skipped-IsRest seen raw seeds (homepages_from seen seeds)
                  (λ h eh. absurd (cc (e, eh))) (homepages_from-IsRest seen seeds))
          | inr (homepage, e) ↦
              subst (λ o. IsRest seen (raw ∷ seeds) (chosen seen seeds o)) (sym e)
                (elim (Bool-cases (bytes_mem (to_lower homepage) seen)) [
                  | inl old ↦
                      subst
                        (λ b. IsRest seen (raw ∷ seeds) (
                          if b
                          then homepages_from seen seeds
                          else homepage ∷ homepages_from (to_lower homepage ∷ seen) seeds))
                        (sym old)
                        (skipped-IsRest seen raw seeds (homepages_from seen seeds)
                          (λ h eh.
                            ap (λ t. bytes_mem (to_lower t) seen) (some_injective (sym eh ∙ e))
                            ∙ old)
                          (homepages_from-IsRest seen seeds))
                  | inr new ↦
                      subst
                        (λ b. IsRest seen (raw ∷ seeds) (
                          if b
                          then homepages_from seen seeds
                          else homepage ∷ homepages_from (to_lower homepage ∷ seen) seeds))
                        (sym new)
                        (put-IsRest seen raw homepage seeds
                          (homepages_from (to_lower homepage ∷ seen) seeds) e new
                          (homepages_from-IsRest (to_lower homepage ∷ seen) seeds))
                ])
        ])

  -- The homepages that are checked differ from each other without regard to case, and the homepage of
  -- each seed that has one is one of them, without regard to case.
  pub unique_homepages-IsOnce :
      (seeds : List Bytes)
      → IsOnce (map to_lower (unique_homepages seeds))
        × All (IsAmong (λ key. bytes_mem key (map to_lower (unique_homepages seeds)))) seeds
  unfolding unique_homepages bytes_mem
  unique_homepages-IsOnce seeds =
      let rest = homepages_from-IsRest [] seeds in (rest.once, rest.each)
