-- ===== src/Mvcc/Decode/ValueFree.antt =====
-- What a decoded record tells of the value it was decoded from.
use etcd_space_inspector.Prelude.{
  ℕ, ◌+◌, ◌≡◌, ◌⊎◌, inr, refl, true, Option, none, some, length, arith,
}
use etcd_space_inspector.Prelude.Bytes.{Bytes}
use etcd_space_inspector.Revision.{Decoded, decoded, refused, RevisionKey, decode_key}
use etcd_space_inspector.Mvcc.Decode.{
  KeyValue, Codec, revision_of, analyzed, with_key, safe_record, decode_record, hex,
}

module _ {K : Type 0} (codec : Codec K) where
  -- What the analyzer, where there is one, makes of a value.
  abbrev pub analysis : Option (Bytes → Bytes → Bytes → Option K) → KeyValue → Bytes → Option K
  analysis none kv hash = none
  analysis (some analyze) kv hash = analyze kv.key hash kv.value

  -- Two pairs that differ in the value alone, and agree in what a record may tell of it.
  pub record Alike (k l : KeyValue) : Type 0 where
    pub key : l.key ≡ k.key
    pub create_revision : l.create_revision ≡ k.create_revision
    pub mod_revision : l.mod_revision ≡ k.mod_revision
    pub version : l.version ≡ k.version
    pub lease : l.lease ≡ k.lease
    pub size : length l.value ≡ length k.value
    pub digest : codec.sha256 l.value ≡ codec.sha256 k.value

  revision-Alike :
      (r : RevisionKey) (stored : ℕ) (k l : KeyValue)
      → Alike k l
      → revision_of codec r stored l ≡ revision_of codec r stored k
  unfolding revision_of
  revision-Alike r stored k l a =
      rw (a.key, a.create_revision, a.mod_revision, a.version, a.lease, a.size, a.digest) refl

  analyzed-Alike :
      (g : Option (Bytes → Bytes → Bytes → Option K)) (r : RevisionKey) (h : Bytes) (k l : KeyValue)
      → (r.tombstone ≡ true) ⊎ (analysis g l h ≡ analysis g k h)
      → analyzed codec g r h l ≡ analyzed codec g r h k
  analyzed-Alike none r h k l e = refl
  analyzed-Alike (some g) r h k l e = ground arith

  record-Alike :
      (r : RevisionKey) (stored : ℕ) (k l : KeyValue)
      → Alike k l
      → (r.tombstone ≡ true)
        ⊎ (analysis codec.analyzer l (revision_of codec r stored k).key_hash
            ≡ analysis codec.analyzer k (revision_of codec r stored k).key_hash)
      → safe_record codec r stored (some l) ≡ safe_record codec r stored (some k)
  record-Alike r stored k l a e =
      let same_kind =
        analyzed-Alike codec.analyzer r (revision_of codec r stored k).key_hash k l e in
      simp (revision-Alike r stored k l a, same_kind) refl

  decoded-Alike :
      (d : Decoded) (stored : ℕ) (v w : Bytes) (k l : KeyValue)
      → codec.unmarshal v ≡ some k
      → codec.unmarshal w ≡ some l
      → Alike k l
      → analysis codec.analyzer l (hex (codec.sha256 k.key))
        ≡ analysis codec.analyzer k (hex (codec.sha256 k.key))
      → with_key codec d stored w ≡ with_key codec d stored v
  unfolding revision_of
  decoded-Alike (refused x) stored v w k l p q a e = refl
  decoded-Alike (decoded r) stored v w k l p q a e = rw (p, q) (record-Alike r stored k l a (inr e))

  -- Two stored values of one size whose pairs differ in the value alone, with the same length, the
  -- same digest and the same Kubernetes analysis, decode to the same record, or to the same error:
  -- nothing else of a value is kept.
  pub decode_record-value_free :
      (revision_key v w : Bytes) (k l : KeyValue)
      → codec.unmarshal v ≡ some k
      → codec.unmarshal w ≡ some l
      → length w ≡ length v
      → Alike k l
      → analysis codec.analyzer l (hex (codec.sha256 k.key))
        ≡ analysis codec.analyzer k (hex (codec.sha256 k.key))
      → decode_record codec revision_key w ≡ decode_record codec revision_key v
  unfolding decode_record
  decode_record-value_free revision_key v w k l p q same_size a e =
      rw same_size
        (decoded-Alike (decode_key revision_key) (length revision_key + length v) v w k l p q a e)
