-- ===== src/Groups/Cache.antt =====
-- `GroupCache` (backend/src/modules/groups/group.cache.ts) over the cache store of
-- backend/src/redis/cacheStore.ts, as the cache that the service of groups is built over.
pub mod Laws
mod Tests
use split_bill_app.Prelude.{
  ℕ, ◌≡◌, List, [], ◌∷◌, map, Option, none, some, String, ◌==◌, if◌then◌else◌,
}
use split_bill_app.Keys.{Key, group_cache_key}
use split_bill_app.Effects.{Result, ok, err, Action, World, cache_failures_total}
use split_bill_app.Records.{SafeUser}
use split_bill_app.Groups.{Group, GroupWithMembers, GroupCache}

-- A member of a parsed object, by the kind of value that its reader asks for: a text (for a date,
-- the text of a valid one), a list or an object; or anything else.
pub data Field (A : Type 0) : Type 0 where
  value : A → Field A
  other : Field A

pub record RawMember : Type 0 where
  pub id : Field ℕ
  pub name : Field String
  pub email : Field String

pub record RawGroup : Type 0 where
  pub id : Field ℕ
  pub name : Field String
  pub created_by_id : Field ℕ
  pub created_at : Field ℕ
  pub updated_at : Field ℕ
  pub members : Field (List (Field RawMember))

-- A stored text: not JSON, JSON but no object, or an object by the members that are read.
pub data Entry : Type 0 where
  unparsable no_object : Entry
  object : RawGroup → Entry

abbrev pub serialize_member : SafeUser → Field RawMember
serialize_member member =
    value (record { id = value member.id; name = value member.name; email = value member.email })

unfoldable pub serialize : GroupWithMembers → Entry
serialize g = object (record {
  id = value g.group.id;
  name = value g.group.name;
  created_by_id = value g.group.created_by_id;
  created_at = value g.group.created_at;
  updated_at = value g.group.updated_at;
  members = value (map serialize_member g.members);
})

abbrev typed_member : Field ℕ → Field String → Field String → Option SafeUser
typed_member (value id) (value name) (value email) =
    some (record { id = id; name = name; email = email })
typed_member id name email = none

abbrev pub read_member : Field RawMember → Option SafeUser
read_member (value m) = typed_member m.id m.name m.email
read_member other = none

abbrev prepend : Option SafeUser → Option (List SafeUser) → Option (List SafeUser)
prepend (some member) (some rest) = some (member ∷ rest)
prepend member rest = none

-- All members, or none if one of them is not readable.
abbrev pub read_members : List (Field RawMember) → Option (List SafeUser)
read_members [] = some []
read_members (m ∷ ms) = prepend (read_member m) (read_members ms)

abbrev pub with_members : Group → Option (List SafeUser) → Option GroupWithMembers
with_members group none = none
with_members group (some members) = some (record { group = group; members = members })

abbrev typed_group :
    ℕ
    → Field ℕ
    → Field String
    → Field ℕ
    → Field ℕ
    → Field ℕ
    → Field (List (Field RawMember))
    → Option GroupWithMembers
typed_group group_id (value id) (value name) (value created_by_id) (value created_at)
      (value updated_at) (value members) =
    if id == group_id
    then with_members
        (record {
          id = id;
          name = name;
          created_by_id = created_by_id;
          created_at = created_at;
          updated_at = updated_at;
        })
        (read_members members)
    else none
typed_group group_id id name created_by_id created_at updated_at members = none

unfoldable pub deserialize : Entry → ℕ → Option GroupWithMembers
deserialize unparsable group_id = none
deserialize no_object group_id = none
deserialize (object g) group_id =
    typed_group group_id g.id g.name g.created_by_id g.created_at g.updated_at g.members

-- The store, any of whose commands can throw. `cell` is what it has under a key.
pub record CacheStore (S : Type 0) : Type 0 where
  pub get : Key → Action S (Option Entry)
  pub set : Key → Entry → ℕ → Action S (Unit {0})
  pub delete : Key → Action S (Unit {0})
  pub cell : Key → S → Option Entry

-- What the store promises of the commands that succeed.
pub record CacheLaws {S : Type 0} (store : CacheStore S) : Type 0 where
  pub get_reads :
      (k : Key) (o : Option Entry) (s s' : S)
      → store.get k s ≡ (ok o, s')
      → (o ≡ store.cell k s) × (s' ≡ s)
  pub set_writes :
      (k : Key) (e : Entry) (ttl : ℕ) (s s' : S)
      → store.set k e ttl s ≡ (ok tt, s')
      → store.cell k s' ≡ some e
  pub delete_removes :
      (k : Key) (s s' : S) → store.delete k s ≡ (ok tt, s') → store.cell k s' ≡ none

module _ {S : Type 0} (store : CacheStore S) (ttl_seconds : ℕ) where
  abbrev counting : World S → S → World S
  counting w s = record w { db = s; metrics = cache_failures_total ∷ w.metrics }

  abbrev pub after_get : ℕ → World S → Result (Option Entry) × S → Option GroupWithMembers × World S
  after_get group_id w (err e, s) = (none, counting w s)
  after_get group_id w (ok none, s) = (none, record w { db = s })
  after_get group_id w (ok (some raw), s) = (deserialize raw group_id, record w { db = s })

  abbrev pub absorb : World S → Result (Unit {0}) × S → World S
  absorb w (ok u, s) = record w { db = s }
  absorb w (err e, s) = counting w s

  unfoldable pub get_cached_group_by_id : ℕ → World S → Option GroupWithMembers × World S
  get_cached_group_by_id group_id w =
      after_get group_id w (store.get (group_cache_key group_id) w.db)

  unfoldable pub set_cached_group_by_id : ℕ → GroupWithMembers → World S → World S
  set_cached_group_by_id group_id group w =
      absorb w (store.set (group_cache_key group_id) (serialize group) ttl_seconds w.db)

  unfoldable pub invalidate_group_cache : ℕ → World S → World S
  invalidate_group_cache group_id w = absorb w (store.delete (group_cache_key group_id) w.db)

  abbrev pub group_cache : GroupCache (World S)
  group_cache = record {
    get_cached_group_by_id = get_cached_group_by_id;
    set_cached_group_by_id = set_cached_group_by_id;
    invalidate_group_cache = invalidate_group_cache;
  }
