-- ===== src/Cache/Flush.antt =====
-- flush and delByPrefix of cache/cache.service.ts. `pages` has the keys that SCAN returned in its
-- successive answers, up to the one with the cursor 0 that ends the loop; for delByPrefix they are
-- those that MATCH lets through.
use typescript_starter.Common.{
  ℕ, String, none, List, [], ◌∷◌, Bool, not, ◌≡◌, refl, ◌∙◌, inl, inr, any, keep, contains,
  contains-keep, str_eq, str_ne, eq_iff, ◌&&◌, if◌then◌else◌, Bool-cases, arith,
}
use typescript_starter.Common.Text.{starts_with}
use typescript_starter.Cache.Redis.{Redis}

abbrev pub is_deletable : String → Bool
is_deletable key = not (starts_with "audit:" key)

-- The keys of all the pages.
abbrev pub is_listed : String → List (List String) → Bool
is_listed key pages = any (contains key) pages

module _ (redis : Redis) where
  -- DEL with several keys
  unfoldable pub erase_all : List String → redis.State → redis.State
  erase_all [] s = s
  erase_all (k ∷ ks) s = erase_all ks (redis.erase k s)

  unfoldable pub del_by_prefix : List (List String) → redis.State → redis.State
  unfolding erase_all
  del_by_prefix [] s = s
  del_by_prefix (keys ∷ pages) s = del_by_prefix pages (erase_all keys s)

  unfoldable pub flush : List (List String) → redis.State → redis.State
  unfolding erase_all
  flush [] s = s
  flush (keys ∷ pages) s = flush pages (erase_all (keep is_deletable keys) s)

  module _ (now : ℕ) (key : String) where
    read-erase_all :
        (ks : List String) (s : redis.State)
        → redis.read now key (erase_all ks s)
          ≡ (if contains key ks then none else redis.read now key s)
    unfolding erase_all
    read-erase_all [] s = refl
    read-erase_all (k ∷ ks) s = elim (Bool-cases (str_eq k key)) [
      | inl same ↦
          let gone : redis.read now key (redis.erase k s) ≡ none =
            rw ((eq_iff k key).0 same) (redis.read-erase now key s) in
          elim (Bool-cases (contains key ks)) [
            | inl again ↦ read-erase_all ks (redis.erase k s) ∙ rw (same, again) refl
            | inr once ↦ read-erase_all ks (redis.erase k s) ∙ rw (same, once) gone
          ]
      | inr other ↦ rw other (
          read-erase_all ks (redis.erase k s)
          ∙ rw (redis.read-erase_ne now k key s (str_ne k key other)) refl)
    ]

    -- After a flush every listed key is gone, except that the audit keys, and any key that is not
    -- listed, read as before.
    pub read-flush :
        (pages : List (List String)) (s : redis.State)
        → redis.read now key (flush pages s)
          ≡ (if is_listed key pages && is_deletable key then none else redis.read now key s)
    unfolding flush
    read-flush [] s = refl
    read-flush (keys ∷ pages) s =
        read-flush pages (erase_all (keep is_deletable keys) s)
        ∙ rw (read-erase_all (keep is_deletable keys) s, contains-keep is_deletable key keys)
            (ground arith)
