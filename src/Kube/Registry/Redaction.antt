-- ===== src/Kube/Registry/Redaction.antt =====
-- What an identity shows of a sensitive object.
use etcd_space_inspector.Prelude.{
  ℕ, ◌≡◌, refl, sym, ap, Option, none, some, List, [], ◌∷◌, ◌++◌, take, length, ltb, if◌then◌else◌,
  arith, Bool-cases, inl, inr, subst, ◌≤◌, zero, suc,
}
use mathlib.Core.Option.{some-injective}
use etcd_space_inspector.Prelude.Bytes.{Bytes, text, same}
use etcd_space_inspector.Kube.Registry.{
  Identity, no_identity, parse, parse_segments, identify, redact, read_parts, listed,
  sensitive_resources, registry_prefix,
}
use etcd_space_inspector.Prelude.Strings.{strip_prefix, split, trim}

take-all : (n : ℕ) (xs : Bytes) → length xs ≤ n → take n xs ≡ xs
take-all zero [] h = refl
take-all zero (x ∷ xs) h = absurd (omega arith)
take-all (suc n) [] h = refl
take-all (suc n) (x ∷ xs) h = ap (λ (l : Bytes). x ∷ l) (take-all n xs (omega arith))

-- Which resources are sensitive, and what is shown.
pub record Shown (key_hash : Bytes) (i : Identity) : Type 0 where
  pub classified : i.sensitive ≡ listed i.resource sensitive_resources
  pub display :
      i.display_name ≡ (if i.sensitive then text "redacted:" ++ take 12 key_hash else i.name)

short_hash :
    (key_hash : Bytes)
    → (if ltb 12 (length key_hash) then take 12 key_hash else key_hash) ≡ take 12 key_hash
short_hash key_hash = elim (Bool-cases (ltb 12 (length key_hash))) [
  | inl long ↦ rw long
  | inr short ↦ rw short (sym (take-all 12 key_hash (ground arith)))
]

empty-Shown : (key_hash : Bytes) → Shown key_hash no_identity
unfolding listed same
empty-Shown key_hash = record { classified = refl; display = refl }

redact-Shown : (key_hash : Bytes) (i : Identity) → Shown key_hash (redact key_hash i)
unfolding redact
redact-Shown key_hash i = record {
  classified = refl;
  display = elim (Bool-cases (listed i.resource sensitive_resources)) [
    | inl hit ↦ rw hit (ap (λ (l : Bytes). text "redacted:" ++ l) (short_hash key_hash))
    | inr miss ↦ rw miss
  ];
}

segments-Shown :
    (key_hash : Bytes) (parts : List Bytes) → Shown key_hash (parse_segments key_hash parts)
unfolding parse_segments
segments-Shown key_hash [] = empty-Shown key_hash
segments-Shown key_hash (first ∷ rest) = elim (Bool-cases (same first [])) [
  | inl empty ↦ rw empty (empty-Shown key_hash)
  | inr given ↦ rw given (redact-Shown key_hash (read_parts first rest))
]

identify-Shown :
    (key_hash : Bytes) (o : Option Bytes) (i : Identity)
    → identify key_hash o ≡ some i
    → Shown key_hash i
unfolding identify
identify-Shown key_hash none i h = absurd (ground arith)
identify-Shown key_hash (some rest) i h =
    subst (Shown key_hash) (some-injective _ _ h)
      (segments-Shown key_hash (split b'/' (trim b'/' rest)))

-- Every identity that is parsed is marked as sensitive exactly when its resource is one of the three
-- sensitive ones. A sensitive one is shown as `redacted:` and at most twelve characters of the key's
-- hash, whatever the key itself says, and any other as its name.
pub parse-Shown :
    (key_text key_hash : Bytes) (i : Identity) → parse key_text key_hash ≡ some i → Shown key_hash i
unfolding parse
parse-Shown key_text key_hash i h =
    identify-Shown key_hash (strip_prefix registry_prefix key_text) i h
