-- ===== src/Msg/Laws.antt =====
-- What a message keeps when it is created and copied.
use rulego.Prelude.{
  ℕ, String, ◌≡◌, refl, ◌≢◌, false, [], arith, eq_iff, if◌then◌else◌, ◌==◌, string_eq, nat_key,
}
use rulego.Prelude.Dict.{get, get-put, IsMap, get-put_all, put_all-IsMap}
use rulego.Prelude.Words.{sle64}
use rulego.Msg.{Metadata, RuleMsg, Env, copy_metadata, get_value, put_value, new_msg, copy}

-- A message that has a positive timestamp and an identifier, and whose metadata is a map.
pub record IsValid (m : RuleMsg) : Type 0 where
  pub stamped : sle64 m.ts 0 ≡ false
  pub named : m.id ≢ ""
  pub keyed : IsMap m.metadata

pub copy_metadata-IsMap : (md : Metadata) → IsMap (copy_metadata md)
unfolding copy_metadata
copy_metadata-IsMap md = put_all-IsMap [] md tt

pub get-copy_metadata :
    (md : Metadata) (k : String) → IsMap md → get k (copy_metadata md) ≡ get k md
unfolding copy_metadata get
get-copy_metadata md k h = ground (arith, get-put_all k [] md h)

kept_id : (env : Env) (m : RuleMsg) → IsValid m → (if m.id == "" then env.uuid else m.id) ≡ m.id
kept_id env m v = ground (arith, eq_iff m.id "")

-- A copy of a valid message is valid, keeps the timestamp, the identifier, the type, the data type
-- and the content, and its metadata has the same value at every key. It does not depend on the
-- clock or on the UUID generator.
pub copy-IsValid :
    (env : Env) (m : RuleMsg)
    → IsValid m
    → IsValid (copy env m)
      × ((copy env m).ts ≡ m.ts)
      × ((copy env m).id ≡ m.id)
      × ((copy env m).type ≡ m.type)
      × ((copy env m).data_type ≡ m.data_type)
      × ((copy env m).content ≡ m.content)
      × ((k : String) → get k (copy env m).metadata ≡ get k m.metadata)
unfolding copy
copy-IsValid env m v =
    let ts : (if sle64 m.ts 0 then env.now else m.ts) ≡ m.ts = rw v.stamped in
    let id : (if m.id == "" then env.uuid else m.id) ≡ m.id = kept_id env m v in
    (
      record {
        stamped = rw ts v.stamped;
        named = rw id v.named;
        keyed = copy_metadata-IsMap m.metadata;
      },
      ts,
      id,
      refl,
      refl,
      refl,
      λ k. get-copy_metadata m.metadata k v.keyed,
    )

-- Every message that the constructor makes has a positive timestamp and an identifier, provided
-- that the clock is past 1970 and the generator returns no empty text.
pub new_msg-IsValid :
    (env : Env) (ts : ℕ) (msg_type data_type : String) (md : Metadata) (content : String)
    → sle64 env.now 0 ≡ false
    → env.uuid ≢ ""
    → IsMap md
    → IsValid (new_msg env ts msg_type data_type md content)
unfolding new_msg
new_msg-IsValid env ts msg_type data_type md content h u k = record {
  stamped = ground arith;
  named = ground arith;
  keyed = k;
}

-- Reading a key after a write: the written value at a key that is not empty, and what was there
-- before at every other key; a write at the empty key changes nothing.
pub get_value-put_value :
    (md : Metadata) (key k value : String)
    → get_value (put_value md key value) k
      ≡ (if key == "" then get_value md k else if key == k then value else get_value md k)
unfolding get_value put_value
get_value-put_value md key k value = ground (arith, get-put key k value md)
