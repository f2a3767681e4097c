-- ===== src/Kube/Registry/Scope.antt =====
-- How the parts of a built-in key become a namespace and a name.
use etcd_space_inspector.Prelude.{
  ℕ, ◌≡◌, ◌≢◌, refl, sym, ap, ◌∙◌, Bool, true, false, Option, some, List, [], ◌∷◌, ◌++◌,
  append_assoc, if◌then◌else◌, arith, Bool-cases, inl, inr, ◌==◌,
}
use etcd_space_inspector.Prelude.Bytes.{Bytes, text, same, same-iff_eq}
use etcd_space_inspector.Prelude.Strings.{
  strip_prefix-append, split, split-part, split-plain, trim, trim-around, contains_byte,
}
use etcd_space_inspector.Kube.Registry.{
  Identity, no_identity, parse, parse_segments, redact, read_parts, read_built_in, listed,
  table_get, api_groups, cluster_scoped_resources, registry_prefix,
}

-- A part of a key: not empty, and without a slash.
pub record IsSegment (s : Bytes) : Type 0 where
  pub nonempty : s ≢ []
  pub whole : contains_byte b'/' s ≡ false

-- The first part of a key of a built-in resource: it is not a group, which has a dot, and not
-- `services`, which has two kinds of keys below it.
pub record IsBuiltIn (r : Bytes) : Type 0 where
  pub segment : IsSegment r
  pub no_group : contains_byte b'.' r ≡ false
  pub not_services : same r (text "services") ≡ false

-- Nothing is trimmed from a key between two segments.
trim_segments :
    (r mid n : Bytes) → IsSegment r → IsSegment n → trim b'/' (r ++ (mid ++ n)) ≡ r ++ (mid ++ n)
trim_segments [] mid n hr hn = absurd (hr.nonempty refl)
trim_segments (x ∷ xs) mid n hr hn = rw (← append_assoc (x ∷ xs) mid n) (
    trim-around b'/' x (xs ++ mid) n (unfold contains_byte in first_byte x xs hr.whole) hn.nonempty
      hn.whole)
  where
    first_byte : (x : ℕ) (xs : Bytes) → contains_byte b'/' (x ∷ xs) ≡ false → (x == b'/') ≡ false
    first_byte x xs h = unfold contains_byte in ground arith

segments_of_two :
    (r n : Bytes)
    → IsSegment r
    → IsSegment n
    → split b'/' (trim b'/' (r ++ (b'/' ∷ n))) ≡ r ∷ n ∷ []
segments_of_two r n hr hn =
    ap (split b'/') (trim_segments r (b'/' ∷ []) n hr hn)
    ∙ split-part b'/' r n hr.whole
    ∙ ap (λ (l : List Bytes). r ∷ l) (split-plain b'/' n hn.whole)

segments_of_three :
    (r ns n : Bytes)
    → IsSegment r
    → IsSegment ns
    → IsSegment n
    → split b'/' (trim b'/' (r ++ (b'/' ∷ (ns ++ (b'/' ∷ n))))) ≡ r ∷ ns ∷ n ∷ []
segments_of_three r ns n hr hs hn =
    ap (λ (l : Bytes). split b'/' (trim b'/' (r ++ (b'/' ∷ l))))
      (sym (append_assoc ns (b'/' ∷ []) n))
    ∙ ap (split b'/') (trim_segments r (b'/' ∷ (ns ++ b'/' ∷ [])) n hr hn)
    ∙ split-part b'/' r ((ns ++ b'/' ∷ []) ++ n) hr.whole
    ∙ ap (λ (l : Bytes). r ∷ split b'/' l) (append_assoc ns (b'/' ∷ []) n)
    ∙ ap (λ (l : List Bytes). r ∷ l)
        (split-part b'/' ns n hs.whole
          ∙ ap (λ (l : List Bytes). ns ∷ l) (split-plain b'/' n hn.whole))

-- A key of two or of three parts, as it is parsed.
parse_of_parts :
    (rest key_hash : Bytes) (first : Bytes) (others : List Bytes)
    → first ≢ []
    → split b'/' (trim b'/' rest) ≡ first ∷ others
    → parse (registry_prefix ++ rest) key_hash ≡ some (redact key_hash (read_parts first others))
unfolding parse parse_segments
parse_of_parts rest key_hash first others n e =
    rw (strip_prefix-append registry_prefix rest) (rw e (rw (not_empty first n)))
  where
    not_empty : (b : Bytes) → b ≢ [] → same b [] ≡ false
    not_empty b n = ground (arith, same-iff_eq b [])

-- What the parser says of where an object is.
pub record Located (o : Option Identity) (resource namespace name : Bytes) (cluster : Bool)
    : Type 0 where
  pub identity : Identity
  pub found : o ≡ some identity
  pub resource_eq : identity.resource ≡ resource
  pub namespace_eq : identity.namespace ≡ namespace
  pub name_eq : identity.name ≡ name
  pub scope_eq : identity.cluster_scoped ≡ cluster
  pub group_eq : identity.api_group ≡ table_get resource api_groups

built_in_parts :
    (r second : Bytes) (rest : List Bytes)
    → IsBuiltIn r
    → read_parts r (second ∷ rest) ≡ read_built_in r (second ∷ rest)
unfolding read_parts
built_in_parts r second rest h = rw (h.not_services, h.no_group)

-- The identity of a built-in object, before it is redacted.
abbrev built_in : Bytes → Bytes → Bytes → Bool → Identity
built_in r ns n cluster = record no_identity {
  storage_prefix = text "/registry/" ++ r;
  api_group = table_get r api_groups;
  resource = r;
  namespace = ns;
  name = n;
  cluster_scoped = cluster;
}

read_namespaced :
    (r ns n : Bytes)
    → listed r cluster_scoped_resources ≡ false
    → read_built_in r (ns ∷ n ∷ []) ≡ built_in r ns n false
unfolding read_built_in
read_namespaced r ns n h = rw h

read_unnamed :
    (r ns : Bytes)
    → listed r cluster_scoped_resources ≡ false
    → read_built_in r (ns ∷ []) ≡ built_in r ns [] false
unfolding read_built_in
read_unnamed r ns h = rw h

read_cluster :
    (r n : Bytes)
    → listed r cluster_scoped_resources ≡ true
    → read_built_in r (n ∷ []) ≡ built_in r [] n true
unfolding read_built_in
read_cluster r n h = rw h

-- From the parts to the identity.
located :
    (rest key_hash r second : Bytes) (others : List Bytes) (ns n : Bytes) (cluster : Bool)
    → IsBuiltIn r
    → split b'/' (trim b'/' rest) ≡ r ∷ second ∷ others
    → read_built_in r (second ∷ others) ≡ built_in r ns n cluster
    → Located (parse (registry_prefix ++ rest) key_hash) r ns n cluster
unfolding redact
located rest key_hash r second others ns n cluster hr e f = record {
  identity = redact key_hash (built_in r ns n cluster);
  found =
      parse_of_parts rest key_hash r (second ∷ others) hr.segment.nonempty e
      ∙ ap (λ (i : Identity). some (redact key_hash i)) (built_in_parts r second others hr ∙ f);
  resource_eq = refl;
  namespace_eq = refl;
  name_eq = refl;
  scope_eq = refl;
  group_eq = refl;
}

-- A key `/registry/<resource>/<namespace>/<name>` of a built-in resource that is not in the table of
-- cluster-scoped ones is read back as that resource, namespace and name, with the API group that the
-- table has for the resource.
pub parse_namespaced :
    (r ns n key_hash : Bytes)
    → IsBuiltIn r
    → IsSegment ns
    → IsSegment n
    → listed r cluster_scoped_resources ≡ false
    → Located (parse (registry_prefix ++ (r ++ (b'/' ∷ (ns ++ (b'/' ∷ n))))) key_hash) r ns n false
parse_namespaced r ns n key_hash hr hs hn scope =
    located _ key_hash r ns (n ∷ []) ns n false hr (segments_of_three r ns n hr.segment hs hn)
      (read_namespaced r ns n scope)

-- A key `/registry/<resource>/<name>` of a resource in the table of cluster-scoped ones is read
-- back as that resource and name, with no namespace; of any other built-in resource the last part
-- is taken for a namespace and the name stays empty.
pub parse_two_parts :
    (r n key_hash : Bytes)
    → IsBuiltIn r
    → IsSegment n
    → Located
        (parse (registry_prefix ++ (r ++ (b'/' ∷ n))) key_hash)
        r
        (if listed r cluster_scoped_resources then [] else n)
        (if listed r cluster_scoped_resources then n else [])
        (listed r cluster_scoped_resources)
parse_two_parts r n key_hash hr hn =
    located _ key_hash r n [] _ _ _ hr (segments_of_two r n hr.segment hn)
      (elim (Bool-cases (listed r cluster_scoped_resources)) [
        | inl cluster ↦ rw cluster (read_cluster r n cluster)
        | inr spaced ↦ rw spaced (read_unnamed r n spaced)
      ])
