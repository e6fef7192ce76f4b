-- ===== src/Caching/Invalidation.antt =====
-- Which entries an invalidation reaches.
use fasti_kit.Caching.{
  TagRedis, among, tag_key, add_tags, store_result, keys_to_delete, delete_some, invalidate_tags,
}
use fasti_kit.Base.{
  ℕ, ◌+◌, ◌*◌, ◌≤◌, ◌<◌, String, ◌≡◌, refl, ◌∙◌, subst, sym, Bool, true, false, Option, none, List,
  [], ◌∷◌, ◌++◌, map, arith, lt→ltb, Bool-cases, inl, inr, if◌then◌else◌, string_eq, nat_eq, ◌==◌,
}
use fasti_kit.Base.Table.{any}
use fasti_kit.Model.{DateTime}

among-left : (key : String) (a b : List String) → among key a ≡ true → among key (a ++ b) ≡ true
unfolding any
among-left key [] b h = cc
among-left key (k ∷ a) b h = ground (arith, h, among-left key a b)

among-right : (key : String) (a b : List String) → among key b ≡ true → among key (a ++ b) ≡ true
unfolding any
among-right key [] b h = h
among-right key (k ∷ a) b h = ground (arith, among-right key a b h)

-- an entry that a call stores
pub record Stored : Type 0 where
  pub cache_key : String
  pub json_data : String
  pub ttl : ℕ
  pub tags : List String

either : {A : Type 0} {x : Option A} (b : Bool) → x ≡ none → (if b then none else x) ≡ none
either true h = refl
either false h = h

chosen : {A : Type 0} (b : Bool) (x : Option A) → b ≡ true → (if b then none else x) ≡ none
chosen b x h = rw h refl

module _ (redis : TagRedis) (cache_prefix : String) where
  open redis use {Store, get, smembers, set_ex, sadd, expire, delete}

  found :
      (now : DateTime) (tag key : String) (tags : List String) (s : Store)
      → among tag tags ≡ true
      → among key (smembers s now (tag_key redis cache_prefix tag)) ≡ true
      → among key (keys_to_delete redis cache_prefix now tags s) ≡ true
  unfolding keys_to_delete any
  found now tag key [] s named held = cc
  found now tag key (other ∷ tags) s named held = elim (Bool-cases (other == tag)) [
    | inl e ↦ among-left key _ _ (
        subst (λ o. among key (smembers s now (tag_key redis cache_prefix o)) ≡ true)
          (sym ((string_eq.decides other tag).0 e)) held)
    | inr e ↦
        among-right key (smembers s now (tag_key redis cache_prefix other)) _
          (found now tag key tags s (ground (arith, e, named)) held)
  ]

  deleted :
      (now : DateTime) (key : String) (keys : List String) (s : Store) (t : DateTime)
      → now ≤ t
      → among key keys ≡ true
      → get (delete_some redis cache_prefix now keys s) t key ≡ none
  unfolding any
  deleted now key [] s t later held = cc
  deleted now key (k ∷ keys) s t later held =
      redis.get-delete now (k ∷ keys) s t key later ∙ chosen (among key (k ∷ keys)) _ held

  -- An entry whose key is in the set of one of the tags is gone after their invalidation.
  invalidated :
      (now : DateTime) (tag key : String) (tags : List String) (s : Store) (t : DateTime)
      → among tag tags ≡ true
      → among key (smembers s now (tag_key redis cache_prefix tag)) ≡ true
      → now ≤ t
      → get (invalidate_tags redis cache_prefix now tags s) t key ≡ none
  unfolding invalidate_tags any
  invalidated now tag key [] s t named held later = cc
  invalidated now tag key (other ∷ tags) s t named held later =
      redis.get-delete now (map (tag_key redis cache_prefix) (other ∷ tags)) _ t key later
      ∙ either (among key (map (tag_key redis cache_prefix) (other ∷ tags))) (
          deleted now key (keys_to_delete redis cache_prefix now (other ∷ tags) s) s t later
            (found now tag key (other ∷ tags) s named held))

  -- the key stands in the set of the tag from one time to another, if nothing more happens
  record Tagged (tag key : String) (from stop : DateTime) (s : Store) : Type 0 where
    at :
        (t : DateTime)
        → from ≤ t
        → t ≤ stop
        → among key (smembers s t (tag_key redis cache_prefix tag)) ≡ true

  -- the loop's body on one tag
  abbrev tag_once : DateTime → String → ℕ → String → Store → Store
  tag_once now cache_key ttl other s =
      expire now (tag_key redis cache_prefix other) ttl
        (sadd now (tag_key redis cache_prefix other) cache_key s)

  module _ (tag key : String) (from stop now : DateTime) (cache_key : String) (ttl : ℕ) where
    tag_once-Tagged :
        (other : String) (s : Store)
        → from ≤ now
        → stop < now + ttl * 1000000
        → Tagged tag key from stop s
        → Tagged tag key now stop (tag_once now cache_key ttl other s)
    tag_once-Tagged other s later outlives h = record {
      at = λ t a b.
          let set_key = tag_key redis cache_prefix tag in
          let own = tag_key redis cache_prefix other in
          elim (Bool-cases (own == set_key)) [
            | inl e ↦
                subst (λ ms. among key ms ≡ true)
                  (sym (
                    redis.smembers-expire now own ttl (sadd now own cache_key s) t set_key a
                    ∙ rw (e, lt→ltb t (now + ttl * 1000000) (omega (arith, b, outlives))) refl))
                  (redis.smembers-sadd now own cache_key s set_key key
                    ∙ rw (e, h.at now later (omega (arith, a, b))) (held (cache_key == key)))
            | inr e ↦
                subst (λ ms. among key ms ≡ true)
                  (sym (
                    redis.smembers-expire now own ttl (sadd now own cache_key s) t set_key a
                    ∙ rw e (redis.smembers-sadd_other now own cache_key s t set_key a e)))
                  (h.at t (omega (arith, a, later)) b)
          ];
    }
      where
        held : (b : Bool) → (if b then true else true) ≡ true
        held true = refl
        held false = refl

  module _ (tag key : String) (stop : DateTime) where
    tag_first :
        (now : DateTime) (ttl : ℕ) (s : Store)
        → stop < now + ttl * 1000000
        → Tagged tag key now stop (tag_once now key ttl tag s)
    tag_first now ttl s outlives = record {
      at = λ t a b.
          let set_key = tag_key redis cache_prefix tag in
          subst (λ ms. among key ms ≡ true)
            (sym (
              redis.smembers-expire now set_key ttl (sadd now set_key key s) t set_key a
              ∙ rw (same set_key, lt→ltb t (now + ttl * 1000000) (omega (arith, b, outlives)))
                  refl))
            (redis.smembers-sadd now set_key key s set_key key ∙ rw (same set_key, same key) refl);
    }
      where
        same : (text : String) → (text == text) ≡ true
        same text = (string_eq.decides text text).1 refl

    add_tags-Tagged :
        (from now : DateTime) (cache_key : String) (ttl : ℕ) (tags : List String) (s : Store)
        → from ≤ now
        → stop < now + ttl * 1000000
        → Tagged tag key from stop s
        → Tagged tag key now stop (add_tags redis cache_prefix now cache_key ttl tags s)
    unfolding add_tags
    add_tags-Tagged from now cache_key ttl [] s later outlives h = record {
      at = λ t a b. h.at t (omega (arith, later, a)) b;
    }
    add_tags-Tagged from now cache_key ttl (other ∷ tags) s later outlives h =
        add_tags-Tagged now now cache_key ttl tags _ (omega arith) outlives
          (tag_once-Tagged tag key from stop now cache_key ttl other s later outlives h)

    add_tags_starts :
        (now : DateTime) (ttl : ℕ) (tags : List String) (s : Store)
        → among tag tags ≡ true
        → stop < now + ttl * 1000000
        → Tagged tag key now stop (add_tags redis cache_prefix now key ttl tags s)
    unfolding add_tags any
    add_tags_starts now ttl [] s named outlives = cc
    add_tags_starts now ttl (other ∷ tags) s named outlives = elim (Bool-cases (other == tag)) [
      | inl e ↦
          subst
            (λ o.
              Tagged tag key now stop
                (add_tags redis cache_prefix now key ttl tags (tag_once now key ttl o s)))
            (sym ((string_eq.decides other tag).0 e))
            (add_tags-Tagged now now key ttl tags _ (omega arith) outlives
              (tag_first now ttl s outlives))
      | inr e ↦ add_tags_starts now ttl tags _ (ground (arith, e, named)) outlives
    ]

  -- the entries are stored in the order of their times, none before the first; each lives until after the
  -- last time, and none is stored under the key of the tag's set
  abbrev pub Outlive : String → DateTime → DateTime → List (DateTime × Stored) → Type 0
  Outlive tag from stop [] = Unit
  Outlive tag from stop ((now, entry) ∷ entries) =
      (from ≤ now)
      × (now ≤ stop)
      × (stop < now + entry.ttl * 1000000)
      × ((tag_key redis cache_prefix tag == entry.cache_key) ≡ false)
      × Outlive tag now stop entries

  unfoldable pub store_all : List (DateTime × Stored) → Store → Store
  store_all [] s = s
  store_all ((now, entry) ∷ entries) s =
      store_all entries
        (store_result redis cache_prefix now entry.cache_key entry.json_data entry.ttl entry.tags s)

  store_all-Tagged :
      (tag key : String) (from stop : DateTime) (entries : List (DateTime × Stored)) (s : Store)
      → from ≤ stop
      → Outlive tag from stop entries
      → Tagged tag key from stop s
      → among key (smembers (store_all entries s) stop (tag_key redis cache_prefix tag)) ≡ true
  unfolding store_all store_result
  store_all-Tagged tag key from stop [] s open_ outlive h = h.at stop open_ (omega arith)
  store_all-Tagged tag key from stop ((now, entry) ∷ entries) s open_
        (later, soon, outlives, apart, rest) h =
      store_all-Tagged tag key now stop entries _ soon rest (
        add_tags-Tagged tag key stop now now entry.cache_key entry.ttl entry.tags _ (omega arith)
          outlives
          (record {
            at = λ t a b.
                subst (λ ms. among key ms ≡ true)
                  (sym (
                    redis.smembers-set_ex now entry.cache_key entry.json_data entry.ttl s t
                      (tag_key redis cache_prefix tag) a apart))
                  (h.at t (omega (arith, later, a)) b);
          }))

  -- An entry that is cached under a tag is gone after an invalidation of the tag, whatever entries are
  -- cached in between: if each of them, and the entry itself, lives until after the invalidation, and none
  -- is stored under the key of the tag's own set.
  pub invalidated_gone :
      (tag : String) (now stop : DateTime) (entry : Stored) (s : Store)
      → among tag entry.tags ≡ true
      → now ≤ stop
      → stop < now + entry.ttl * 1000000
      → (entries : List (DateTime × Stored)) → Outlive tag now stop entries
      → (tags : List String) → among tag tags ≡ true
      → (t : DateTime) → stop ≤ t
      → get
          (invalidate_tags redis cache_prefix stop tags (
            store_all entries (
              store_result redis cache_prefix now entry.cache_key entry.json_data entry.ttl
                entry.tags s)))
          t
          entry.cache_key
        ≡ none
  unfolding store_result
  invalidated_gone tag now stop entry s tagged open_ outlives entries outlive tags named t later =
      invalidated stop tag entry.cache_key tags _ t named
        (store_all-Tagged tag entry.cache_key now stop entries _ open_ outlive
          (add_tags_starts tag entry.cache_key stop now entry.ttl entry.tags _ tagged outlives))
        later
