-- ===== src/Mvcc/Decode.antt =====
-- decodeRecord of internal/mvcc/etcd34/revision.go: one raw record of the backend as metadata. The
-- protobuf decoder, SHA-256, the test for UTF-8 and the Kubernetes analyzer are parameters. Sizes
-- stay below 2^63.
pub mod ValueFree
use etcd_space_inspector.Prelude.{
  ℕ, ◌+◌, ◌/◌, ◌%◌, ◌≡◌, ◌↔◌, refl, Bool, true, false, Option, none, some, List, [], ◌∷◌, ◌++◌,
  length, ltb, if◌then◌else◌, arith,
}
use etcd_space_inspector.Prelude.Bytes.{Bytes, text}
use etcd_space_inspector.Revision.{Decoded, decoded, refused, KeyError, RevisionKey, decode_key}

-- mvccpb.KeyValue
pub record KeyValue : Type 0 where
  pub key : Bytes
  pub value : Bytes
  pub create_revision : ℕ
  pub mod_revision : ℕ
  pub version : ℕ
  pub lease : ℕ

pub record Revision : Type 0 where
  pub key_hash : Bytes
  pub key_text : Bytes
  pub key_bytes : ℕ
  pub main_revision : ℕ
  pub sub_revision : ℕ
  pub create_revision : ℕ
  pub mod_revision : ℕ
  pub version : ℕ
  pub lease_id : ℕ
  pub value_bytes : ℕ
  pub stored_bytes : ℕ
  pub tombstone : Bool
  pub value_hash : Bytes

-- An ObjectRevision: what the analyzer makes of a value, with the revision that is set behind it.
pub record ObjectRevision (K : Type 0) : Type 0 where
  pub object : K
  pub main_revision : ℕ
  pub sub_revision : ℕ

pub record SafeRecord (K : Type 0) : Type 0 where
  pub revision : Revision
  pub kubernetes : Option (ObjectRevision K)

pub data RecordError : Type 0 where
  bad_key : KeyError → RecordError
  bad_value : RecordError

pub data DecodedRecord (K : Type 0) : Type 0 where
  as_record : SafeRecord K → DecodedRecord K
  not_decoded : RecordError → DecodedRecord K

pub record Codec (K : Type 0) : Type 0 where
  pub unmarshal : Bytes → Option KeyValue
  pub sha256 : Bytes → Bytes
  pub is_utf8 : Bytes → Bool
  -- none where there is no analyzer
  pub analyzer : Option (Bytes → Bytes → Bytes → Option K)

abbrev pub hex_digit : ℕ → ℕ
hex_digit d = if ltb d 10 then b'0' + d else 87 + d

-- hex.EncodeToString
unfoldable pub hex : Bytes → Bytes
hex [] = []
hex (b ∷ bs) = hex_digit (b / 16) ∷ hex_digit (b % 16) ∷ hex bs

module _ {K : Type 0} (codec : Codec K) where
  unfoldable pub key_text : Bytes → Bytes
  unfolding hex
  key_text key = if codec.is_utf8 key then key else text "hex:" ++ hex key

  unfoldable pub revision_of : RevisionKey → ℕ → KeyValue → Revision
  unfolding key_text hex
  revision_of k stored kv = record {
    key_hash = hex (codec.sha256 kv.key);
    key_text = key_text kv.key;
    key_bytes = length kv.key;
    main_revision = k.main;
    sub_revision = k.sub;
    create_revision = kv.create_revision;
    mod_revision = kv.mod_revision;
    version = kv.version;
    lease_id = kv.lease;
    value_bytes = length kv.value;
    stored_bytes = stored;
    tombstone = k.tombstone;
    value_hash = hex (codec.sha256 kv.value);
  }

  abbrev pub with_revision : RevisionKey → Option K → Option (ObjectRevision K)
  with_revision k none = none
  with_revision k (some o) =
      some (record { object = o; main_revision = k.main; sub_revision = k.sub })

  abbrev pub analyzed :
      Option (Bytes → Bytes → Bytes → Option K)
      → RevisionKey
      → Bytes
      → KeyValue
      → Option (ObjectRevision K)
  analyzed none k hash kv = none
  analyzed (some analyze) k hash kv =
      if k.tombstone then none else with_revision k (analyze kv.key hash kv.value)

  abbrev pub safe_record : RevisionKey → ℕ → Option KeyValue → DecodedRecord K
  safe_record k stored none = not_decoded bad_value
  safe_record k stored (some kv) =
      let revision = revision_of k stored kv in
      as_record (record {
        revision = revision;
        kubernetes = analyzed codec.analyzer k revision.key_hash kv;
      })

  abbrev pub with_key : Decoded → ℕ → Bytes → DecodedRecord K
  with_key (refused e) stored value = not_decoded (bad_key e)
  with_key (decoded k) stored value = safe_record k stored (codec.unmarshal value)

  unfoldable pub decode_record : Bytes → Bytes → DecodedRecord K
  unfolding revision_of
  decode_record revision_key value =
      with_key (decode_key revision_key) (length revision_key + length value) value

  -- As a worker reads it: a record or an error.
  abbrev pub record_of : DecodedRecord K → Option (SafeRecord K)
  record_of (as_record r) = some r
  record_of (not_decoded e) = none
