-- ===== src/Groups/Cache/Laws.antt =====
-- What the cache gives back, and what is left after an invalidation.
use split_bill_app.Prelude.{
  ℕ, ◌≡◌, refl, ◌⊎◌, inl, inr, List, [], ◌∷◌, map, Option, none, some, String, arith,
}
use split_bill_app.Keys.{group_cache_key}
use split_bill_app.Effects.{ok, World, cache_failures_total}
use split_bill_app.Effects.Inversion.{Write-cases}
use split_bill_app.Records.{SafeUser}
use split_bill_app.Groups.{Group, GroupWithMembers, GroupRepository, update_group}
use split_bill_app.Groups.Caching.{update_group_invalidates}
use split_bill_app.Groups.Cache.{
  Entry, unparsable, no_object, object, serialize, deserialize, serialize_member, read_members,
  CacheStore, CacheLaws, get_cached_group_by_id, set_cached_group_by_id, invalidate_group_cache,
  group_cache,
}

read_members-serialize :
    (members : List SafeUser) → read_members (map serialize_member members) ≡ some members
read_members-serialize [] = refl
read_members-serialize (m ∷ ms) = ground (arith, read_members-serialize ms)

-- A group that was serialized is read back whole, with its members in their order.
pub deserialize-serialize : (g : GroupWithMembers) → deserialize (serialize g) g.group.id ≡ some g
unfolding deserialize serialize
deserialize-serialize g = ground (arith, read_members-serialize g.members)

-- Whatever text the cache holds, a group that is read from it has the id that was asked for.
pub deserialize_id :
    (raw : Entry) (group_id : ℕ) (g : GroupWithMembers)
    → deserialize raw group_id ≡ some g
    → g.group.id ≡ group_id
unfolding deserialize
deserialize_id unparsable group_id g h = absurd (ground arith)
deserialize_id no_object group_id g h = absurd (ground arith)
deserialize_id (object r) group_id g h = ground arith

module _ {S : Type 0} (store : CacheStore S) (laws : CacheLaws store) (ttl_seconds group_id : ℕ)
    (w : World S) where
  -- After an invalidation the entry of the group is gone, or a cache failure was counted.
  invalidate_clears :
      (v : World S)
      → (store.cell
            (group_cache_key group_id)
            (invalidate_group_cache store ttl_seconds group_id v).db
          ≡ none)
        ⊎ ((invalidate_group_cache store ttl_seconds group_id v).metrics
            ≡ cache_failures_total ∷ v.metrics)
  unfolding invalidate_group_cache
  invalidate_clears v = elim (Write-cases (store.delete (group_cache_key group_id) v.db)) [
    | inl (u, s, removed) ↦
        inl (ground (arith, laws.delete_removes (group_cache_key group_id) v.db s))
    | inr (e, s, failed) ↦ inr (ground arith)
  ]

  -- If a group was put into the cache and the store has taken it, the next read that the store
  -- answers gives that group back.
  pub get-set_cached_group_by_id :
      (g : GroupWithMembers) (s t : S) (o : Option Entry)
      → g.group.id ≡ group_id
      → store.set (group_cache_key group_id) (serialize g) ttl_seconds w.db ≡ (ok tt, s)
      → store.get (group_cache_key group_id) s ≡ (ok o, t)
      → get_cached_group_by_id store ttl_seconds group_id
          (set_cached_group_by_id store ttl_seconds group_id g w)
        ≡ (some g, record w { db = s })
  unfolding get_cached_group_by_id set_cached_group_by_id
  get-set_cached_group_by_id g s t o same taken answered =
      let key = group_cache_key group_id in
      let written = laws.set_writes key (serialize g) ttl_seconds w.db s taken in
      let (reads, kept) = laws.get_reads key o s t answered in
      let whole = deserialize-serialize g in ground (arith, written, reads, kept, whole)

  -- After a renaming that returned, the entry of the group is gone from the cache, or a cache failure
  -- was counted.
  pub update_group_clears :
      (repository : GroupRepository S) (user_id : ℕ) (name : String) (group : Group) (w' : World S)
      → update_group repository (group_cache store ttl_seconds) user_id group_id name w
        ≡ (ok group, w')
      → (store.cell (group_cache_key group_id) w'.db ≡ none)
        ⊎ (w'.metrics ≡ cache_failures_total ∷ w.metrics)
  update_group_clears repository user_id name group w' h =
      let (db', e) =
        update_group_invalidates repository (group_cache store ttl_seconds) user_id group_id w w'
          name group h in
      rw e (invalidate_clears (record w { db = db' }))
