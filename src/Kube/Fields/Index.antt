-- ===== src/Kube/Fields/Index.antt =====
-- The index of a list of fields.
use etcd_space_inspector.Prelude.{
  ◌≡◌, refl, sym, ap, ◌∙◌, false, Option, none, some, List, [], ◌∷◌, if◌then◌else◌, arith,
  Bool-cases, inl, inr,
}
use etcd_space_inspector.Prelude.Bytes.{Bytes, same, same-iff_eq}
use etcd_space_inspector.Kube.Fields.{FieldStat, look, index_fields, index_on, put_field}
use etcd_space_inspector.Kube.Fields.Balance.{Unique}

look-put_field :
    (p : Bytes) (f : FieldStat) (m : List FieldStat)
    → look p (put_field f m) ≡ (if same f.path p then some f else look p m)
unfolding look put_field
look-put_field p f [] = refl
look-put_field p f (g ∷ gs) = elim (Bool-cases (same g.path f.path)) [
  | inl hit ↦ rw (hit, (same-iff_eq g.path f.path).0 hit) (ground arith)
  | inr miss ↦
      rw (miss, look-put_field p f gs)
        (ground (arith, same-iff_eq g.path p, same-iff_eq f.path p, same-iff_eq g.path f.path))
]

put_field-Unique : (f : FieldStat) (m : List FieldStat) → Unique m → Unique (put_field f m)
unfolding put_field
put_field-Unique f [] u = (unfold look in refl, tt)
put_field-Unique f (g ∷ gs) u = elim (Bool-cases (same g.path f.path)) [
  | inl hit ↦
      rw hit (ap (λ (x : Bytes). look x gs) (sym ((same-iff_eq g.path f.path).0 hit)) ∙ u.0, u.1)
  | inr miss ↦
      rw miss (look-put_field g.path f gs ∙ absent_there f g gs miss u.0, put_field-Unique f gs u.1)
]
  where
    absent_there :
        (f g : FieldStat) (gs : List FieldStat)
        → same g.path f.path ≡ false
        → look g.path gs ≡ none
        → (if same f.path g.path then some f else look g.path gs) ≡ none
    absent_there f g gs miss h =
        ground (arith, same-iff_eq g.path f.path, same-iff_eq f.path g.path)

-- The last field of a path.
unfoldable pub look_last : Bytes → List FieldStat → Option FieldStat → Option FieldStat
look_last p [] o = o
look_last p (f ∷ fs) o = look_last p fs (if same f.path p then some f else o)

index_on-look :
    (p : Bytes) (m fs : List FieldStat) → look p (index_on m fs) ≡ look_last p fs (look p m)
unfolding index_on look_last
index_on-look p m [] = refl
index_on-look p m (f ∷ fs) =
    index_on-look p (put_field f m) fs ∙ ap (look_last p fs) (look-put_field p f m)

index_on-Unique : (m fs : List FieldStat) → Unique m → Unique (index_on m fs)
unfolding index_on
index_on-Unique m [] u = u
index_on-Unique m (f ∷ fs) u = index_on-Unique (put_field f m) fs (put_field-Unique f m u)

-- The index of a list of fields has each path once, with the last field that has it.
pub index_fields-Unique :
    (fields : List FieldStat)
    → Unique (index_fields fields)
      × ((p : Bytes) → look p (index_fields fields) ≡ look_last p fields none)
unfolding index_fields
index_fields-Unique fields =
    (index_on-Unique [] fields tt, λ p. index_on-look p [] fields ∙ unfold look in refl)
