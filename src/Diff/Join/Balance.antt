-- ===== src/Diff/Join/Balance.antt =====
-- The wrapped total of a field over the pairs of a join is the difference of its totals over the
-- two sides.
use etcd_space_inspector.Prelude.{ℕ, ◌≡◌, refl, List, [], ◌∷◌, arith}
use etcd_space_inspector.Prelude.Bytes.{Bytes}
use etcd_space_inspector.Prelude.Word.{add64, sub64, total}
use etcd_space_inspector.Diff.Join.{Pair, added, removed, paired, join}

module _ {A : Type 0} (f : A → ℕ) where
  -- The change of a field; a side that has no row counts as zero.
  unfoldable pub change_of : Pair A → ℕ
  change_of (added t) = sub64 (f t) 0
  change_of (removed b) = sub64 0 (f b)
  change_of (paired b t) = sub64 (f t) (f b)

  add_right : (x y z : ℕ) → add64 (sub64 x 0) (sub64 y z) ≡ sub64 (add64 x y) z
  unfolding add64 sub64
  add_right x y z = omega arith

  add_left : (x y z : ℕ) → add64 (sub64 0 x) (sub64 y z) ≡ sub64 y (add64 x z)
  unfolding add64 sub64
  add_left x y z = omega arith

  add_both : (w x y z : ℕ) → add64 (sub64 w x) (sub64 y z) ≡ sub64 (add64 w y) (add64 x z)
  unfolding add64 sub64
  add_both w x y z = omega arith

  pub total-join :
      (key : A → Bytes) (bs ts : List A)
      → total change_of (join key bs ts) ≡ sub64 (total f ts) (total f bs)
  unfolding join total change_of
  total-join key [] [] = unfold sub64 in refl
  total-join key [] (t ∷ ts) = ground (arith, total-join key [] ts, add_right (f t) (total f ts) 0)
  total-join key (b ∷ bs) [] = ground (arith, total-join key bs [], add_left (f b) 0 (total f bs))
  total-join key (b ∷ bs) (t ∷ ts) = ground (
    arith,
    total-join key (b ∷ bs) ts,
    total-join key bs (t ∷ ts),
    total-join key bs ts,
    add_right (f t) (total f ts) (total f (b ∷ bs)),
    add_left (f b) (total f (t ∷ ts)) (total f bs),
    add_both (f t) (f b) (total f ts) (total f bs),
  )
