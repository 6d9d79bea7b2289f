-- ===== src/Schema/Lacks.antt =====
-- Which objects a value of JSON holds, and which properties an object leaves unsaid.
use seo_crawler_mcp.Prelude.{
  Bool, true, ◌&&◌, Option, none, some, List, [], ◌∷◌, Bytes, bytes_eq, bytes_eq_iff, bytes_mem,
  keep, Bool-cases, ◌≡◌, refl, ap, ◌∙◌, ◌↔◌, ◌⊎◌, subst, inl, inr, arith,
}
use seo_crawler_mcp.Schema.{
  Json, null, boolean, number, text, array, object, Items, no_items, item, Members, no_members,
  member, is_absent, is_empty_value, lookup, insert_text, sort_texts, missing,
}

-- An object within a value, at any depth.
mutual
  pub data Within (obj : Members) : Json → Type 0 where
    itself : Within obj (object obj)
    in_array : {items : Items} → WithinItems obj items → Within obj (array items)
    in_object : {m : Members} → WithinMembers obj m → Within obj (object m)

  pub data WithinItems (obj : Members) : Items → Type 0 where
    at_item : {j : Json} {rest : Items} → Within obj j → WithinItems obj (item j rest)
    past_item : {j : Json} {rest : Items} → WithinItems obj rest → WithinItems obj (item j rest)

  pub data WithinMembers (obj : Members) : Members → Type 0 where
    at_member :
        {k : Bytes} {v : Json} {rest : Members} → Within obj v → WithinMembers obj (member k v rest)
    past_member :
        {k : Bytes} {v : Json} {rest : Members}
        → WithinMembers obj rest
        → WithinMembers obj (member k v rest)

pub lookup-Within :
    (key : Bytes) (m : Members) {v : Json} {obj : Members}
    → lookup key m ≡ some v
    → Within obj v
    → WithinMembers obj m
unfolding lookup
lookup-Within key no_members found within = absurd (cc found)
lookup-Within key (member k u rest) {v} {obj} found within = elim (Bool-cases (bytes_eq k key)) [
  | inl same ↦ at_member (subst (Within obj) (ground (arith, found, same)) within)
  | inr other ↦ past_member (lookup-Within key rest (ground (arith, found, other)) within)
]

-- A value that says nothing.
pub data IsBare : Json → Type 0 where
  bare_null : IsBare null
  bare_text : IsBare (text [])
  bare_array : IsBare (array no_items)
  bare_object : IsBare (object no_members)

-- A property that an object does not have, or with a value that says nothing.
abbrev pub IsUnsaid : Option Json → Type 0
IsUnsaid o = (o ≡ none) ⊎ ((v : Json) × (o ≡ some v) × IsBare v)

is_absent_sound : (o : Option Json) → is_absent o ≡ true → IsUnsaid o
unfolding is_absent is_empty_value
is_absent_sound none h = inl refl
is_absent_sound (some null) h = inr (null, refl, bare_null)
is_absent_sound (some (boolean b)) h = absurd (cc h)
is_absent_sound (some (number n)) h = absurd (cc h)
is_absent_sound (some (text [])) h = inr (text [], refl, bare_text)
is_absent_sound (some (text (c ∷ s))) h = absurd (cc h)
is_absent_sound (some (array no_items)) h = inr (array no_items, refl, bare_array)
is_absent_sound (some (array (item j rest))) h = absurd (cc h)
is_absent_sound (some (object no_members)) h = inr (object no_members, refl, bare_object)
is_absent_sound (some (object (member k v rest))) h = absurd (cc h)

is_absent_bare : (v : Json) → IsBare v → is_absent (some v) ≡ true
unfolding is_absent is_empty_value
is_absent_bare _ bare_null = refl
is_absent_bare _ bare_text = refl
is_absent_bare _ bare_array = refl
is_absent_bare _ bare_object = refl

is_absent_complete : (o : Option Json) → IsUnsaid o → is_absent o ≡ true
unfolding is_absent
is_absent_complete o (inl nothing) = rw nothing refl
is_absent_complete o (inr (v, found, bare)) = ap is_absent found ∙ is_absent_bare v bare

bytes_mem-insert_text :
    (p s : Bytes) (ts : List Bytes) → bytes_mem p (insert_text s ts) ≡ bytes_mem p (s ∷ ts)
unfolding bytes_mem insert_text
bytes_mem-insert_text p s [] = refl
bytes_mem-insert_text p s (t ∷ ts) = ground (arith, bytes_mem-insert_text p s ts)

bytes_mem-sort_texts : (p : Bytes) (ts : List Bytes) → bytes_mem p (sort_texts ts) ≡ bytes_mem p ts
unfolding sort_texts bytes_mem
bytes_mem-sort_texts p [] = refl
bytes_mem-sort_texts p (t ∷ ts) =
    ground (arith, bytes_mem-insert_text p t (sort_texts ts), bytes_mem-sort_texts p ts)

bytes_mem-keep :
    (q : Bytes → Bool) (p : Bytes) (ts : List Bytes)
    → bytes_mem p (keep q ts) ≡ (bytes_mem p ts && q p)
unfolding bytes_mem
bytes_mem-keep q p [] = refl
bytes_mem-keep q p (t ∷ ts) = elim (Bool-cases (bytes_eq p t)) [
  | inl same ↦
      let named = ap q ((bytes_eq_iff p t).0 same) in
      ground (arith, same, named, bytes_mem-keep q p ts)
  | inr other ↦ ground (arith, other, bytes_mem-keep q p ts)
]

-- What a result names as missing are the properties of a list that the object leaves unsaid.
abbrev pub AreLacks : Members → List Bytes → List Bytes → Type 0
AreLacks obj properties named =
    (p : Bytes)
    → (bytes_mem p named ≡ true) ↔ ((bytes_mem p properties ≡ true) × IsUnsaid (lookup p obj))

pub missing-AreLacks :
    (obj : Members) (properties : List Bytes) → AreLacks obj properties (missing obj properties)
unfolding missing
missing-AreLacks obj properties p =
    let q : Bytes → Bool = λ property. is_absent (lookup property obj) in
    let sorted = bytes_mem-sort_texts p (keep q properties) in
    let kept = bytes_mem-keep q p properties in
    (
      λ h. (
        ground (arith, sorted, kept, h),
        is_absent_sound (lookup p obj) (ground (arith, sorted, kept, h)),
      ),
      λ (among, unsaid).
          let absent = is_absent_complete (lookup p obj) unsaid in
          ground (arith, sorted, kept, among, absent),
    )
