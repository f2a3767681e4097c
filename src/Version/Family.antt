-- ===== src/Version/Family.antt =====
-- Which texts are etcd 3.4 versions.
use etcd_space_inspector.Prelude.{
  ℕ, ◌+◌, ◌*◌, ◌-◌, ◌≡◌, refl, sym, ap, ◌∙◌, ◌↔◌, true, false, not, List, [], ◌∷◌, ◌++◌, length,
  ◌==◌, if◌then◌else◌, arith,
}
use etcd_space_inspector.Prelude.Bytes.{Bytes, text, same, same-iff_eq}
use etcd_space_inspector.Prelude.Strings.{
  split, join_with, trim_prefix, contains_byte, is_some, join_with-split, split-plain, split-part,
}
use etcd_space_inspector.Version.{
  digits_value, parse_uint, is_number, all_numbers, family, is_exact, is_exact34, version_34,
  family_of,
}

digits_plain :
    (acc : ℕ) (s : Bytes) → is_some (digits_value acc s) ≡ true → contains_byte b'.' s ≡ false
unfolding digits_value contains_byte
digits_plain acc [] h = refl
digits_plain acc (c ∷ cs) h = ground (arith, digits_plain (acc * 10 + (c - b'0')) cs)

-- A part that is a number has no dot.
number_plain : (s : Bytes) → is_number s ≡ true → contains_byte b'.' s ≡ false
unfolding is_number parse_uint same
number_plain [] h = absurd (ground arith)
number_plain (c ∷ cs) h = digits_plain 0 (c ∷ cs) (ground arith)

-- The three parts of a 3.4 version.
family_parts :
    (parts : List Bytes)
    → (if not (length parts == 3) then [] else if all_numbers parts then family_of parts else [])
      ≡ version_34
    → (patch : Bytes) × (is_number patch ≡ true) × (parts ≡ text "3" ∷ text "4" ∷ patch ∷ [])
unfolding all_numbers same
family_parts [] h = absurd (ground arith)
family_parts (a ∷ []) h = absurd (ground arith)
family_parts (a ∷ b ∷ []) h = absurd (ground arith)
family_parts (a ∷ b ∷ c ∷ []) h =
    (c, ground arith, ground (arith, same-iff_eq a (text "3"), same-iff_eq b (text "4")))
family_parts (a ∷ b ∷ c ∷ d ∷ l) h = absurd (ground arith)

split_34 :
    (patch : Bytes)
    → is_number patch ≡ true
    → split b'.' (text "3.4." ++ patch) ≡ text "3" ∷ text "4" ∷ patch ∷ []
split_34 patch n =
    split-part b'.' (text "3") (text "4." ++ patch) (unfold contains_byte in refl)
    ∙ ap (λ (l : List Bytes). text "3" ∷ l)
        (split-part b'.' (text "4") patch (unfold contains_byte in refl)
          ∙ ap (λ (l : List Bytes). text "4" ∷ l) (split-plain b'.' patch (number_plain patch n)))

family_of_parts :
    (v patch : Bytes)
    → is_number patch ≡ true
    → split b'.' (trim_prefix v (text "v")) ≡ text "3" ∷ text "4" ∷ patch ∷ []
    → family v ≡ version_34
unfolding family same parse_uint
family_of_parts v patch n e = rw e (rw n)

-- A version belongs to the family 3.4 exactly when it is, behind an optional `v`, the text `3.4.`
-- followed by a decimal number below 2^32.
pub family_iff :
    (v : Bytes)
    → (family v ≡ version_34) ↔ (
        (patch : Bytes) × (is_number patch ≡ true)
        × (trim_prefix v (text "v") ≡ text "3.4." ++ patch))
family_iff v = (forward, backward)
  where
    forward :
        family v ≡ version_34
        → (patch : Bytes) × (is_number patch ≡ true)
          × (trim_prefix v (text "v") ≡ text "3.4." ++ patch)
    forward h =
        let (patch, n, e) =
          family_parts (split b'.' (trim_prefix v (text "v"))) (unfold family in h) in
        (
          patch,
          n,
          sym (join_with-split b'.' (trim_prefix v (text "v")))
              ∙ ap (join_with b'.') e
              ∙ unfold join_with in refl,
        )

    backward :
        (patch : Bytes) × (is_number patch ≡ true)
          × (trim_prefix v (text "v") ≡ text "3.4." ++ patch)
        → family v ≡ version_34
    backward (patch, n, e) = family_of_parts v patch n (ap (split b'.') e ∙ split_34 patch n)

-- A 3.4 version is an exact version.
pub is_exact-is_exact34 : (v : Bytes) → is_exact34 v ≡ true → is_exact v ≡ true
unfolding is_exact is_exact34 same
is_exact-is_exact34 v h = ground arith
