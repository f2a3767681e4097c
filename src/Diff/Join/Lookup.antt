-- ===== src/Diff/Join/Lookup.antt =====
-- The join under one key is the pair of what the two sides hold under it.
use etcd_space_inspector.Prelude.{
  ◌≡◌, refl, inl, inr, true, false, none, some, List, [], ◌∷◌, arith, Bool-cases, All,
}
use etcd_space_inspector.Prelude.Bytes.{
  Bytes, less, same, same-iff_eq, less_irrefl, less_trans, less-connected,
}
use etcd_space_inspector.Diff.Join.{
  Pair, added, removed, paired, join, Ascending, find, pair_key, match_up,
}

pub All-map {ℓ κ μ} :
    {A : Type ℓ} {P : A → Type κ} {Q : A → Type μ}
    → ((a : A) → P a → Q a)
    → (l : List A) → All P l
    → All Q l
All-map f [] h = tt
All-map f (x ∷ xs) h = (f x h.0, All-map f xs h.1)

module _ {A : Type 0} (key : A → Bytes) where
  abbrev Above : Bytes → List A → Type 0
  Above k l = All (λ x. less k (key x) ≡ true) l

  Above-trans : (j k : Bytes) (l : List A) → less j k ≡ true → Above k l → Above j l
  Above-trans j k l h = All-map (λ x. less_trans j k (key x) h) l

  find-Above : (k : Bytes) (l : List A) → Above k l → find key k l ≡ none
  unfolding find
  find-Above k [] h = refl
  find-Above k (a ∷ l) h =
      ground (arith, find-Above k l h.1, same-iff_eq (key a) k, less_irrefl k, h.0)

  find-head : (k : Bytes) (a : A) (l : List A) → same (key a) k ≡ true → find key k (a ∷ l) ≡ some a
  unfolding find
  find-head k a l h = rw h

  find-tail :
      (k : Bytes) (a : A) (l : List A) → same (key a) k ≡ false → find key k (a ∷ l) ≡ find key k l
  unfolding find
  find-tail k a l h = rw h

  -- A key below the head of an ascending list is not in it.
  find-below :
      (k : Bytes) (a : A) (l : List A)
      → less k (key a) ≡ true
      → Ascending key (a ∷ l)
      → find key k (a ∷ l) ≡ none
  find-below k a l h s = find-Above k (a ∷ l) (h, Above-trans k (key a) l h s.0)

  module _ (k : Bytes) where
    -- One pair in front, on either side of the equation.
    find-added :
        (t : A) (ts bs : List A) (ps : List (Pair A))
        → (same (key t) k ≡ true → find key k bs ≡ none)
        → find (pair_key key) k ps ≡ match_up (find key k bs) (find key k ts)
        → find (pair_key key) k (added t ∷ ps) ≡ match_up (find key k bs) (find key k (t ∷ ts))
    unfolding find pair_key
    find-added t ts bs ps absent ih = elim (Bool-cases (same (key t) k)) [
      | inl hit ↦ rw (hit, absent hit)
      | inr miss ↦ rw miss ih
    ]

    find-removed :
        (b : A) (bs ts : List A) (ps : List (Pair A))
        → (same (key b) k ≡ true → find key k ts ≡ none)
        → find (pair_key key) k ps ≡ match_up (find key k bs) (find key k ts)
        → find (pair_key key) k (removed b ∷ ps) ≡ match_up (find key k (b ∷ bs)) (find key k ts)
    unfolding find pair_key
    find-removed b bs ts ps absent ih = elim (Bool-cases (same (key b) k)) [
      | inl hit ↦ rw (hit, absent hit)
      | inr miss ↦ rw miss ih
    ]

    find-paired :
        (b t : A) (bs ts : List A) (ps : List (Pair A))
        → key b ≡ key t
        → find (pair_key key) k ps ≡ match_up (find key k bs) (find key k ts)
        → find (pair_key key) k (paired b t ∷ ps)
          ≡ match_up (find key k (b ∷ bs)) (find key k (t ∷ ts))
    unfolding find pair_key
    find-paired b t bs ts ps e ih =
        rw e (elim (Bool-cases (same (key t) k)) [ inl hit ↦ rw hit | inr miss ↦ rw miss ih ])

    absent_below :
        (a b : A) (bs : List A)
        → less (key a) (key b) ≡ true
        → Ascending key (b ∷ bs)
        → same (key a) k ≡ true
        → find key k (b ∷ bs) ≡ none
    absent_below a b bs lt asc hit = find-below k b bs (rw (← (same-iff_eq (key a) k).0 hit) lt) asc

  pub find-join :
      (k : Bytes) (bs ts : List A)
      → Ascending key bs
      → Ascending key ts
      → find (pair_key key) k (join key bs ts) ≡ match_up (find key k bs) (find key k ts)
  unfolding join
  find-join k [] [] hb ht = unfold find in refl
  find-join k [] (t ∷ ts) hb ht =
      find-added k t ts [] (join key [] ts) (λ _. unfold find in refl) (find-join k [] ts hb ht.1)
  find-join k (b ∷ bs) [] hb ht =
      find-removed k b bs [] (join key bs []) (λ _. unfold find in refl) (find-join k bs [] hb.1 ht)
  find-join k (b ∷ bs) (t ∷ ts) hb ht = elim (Bool-cases (less (key t) (key b))) [
    | inl lt ↦
        rw (lt, join)
          (find-added k t ts (b ∷ bs) (join key (b ∷ bs) ts) (absent_below k t b bs lt hb)
            (find-join k (b ∷ bs) ts hb ht.1))
    | inr ge ↦ elim (Bool-cases (less (key b) (key t))) [
      | inl lt ↦
          rw (ge, lt, join)
            (find-removed k b bs (t ∷ ts) (join key bs (t ∷ ts)) (absent_below k b t ts lt ht)
              (find-join k bs (t ∷ ts) hb.1 ht))
      | inr ge' ↦
          rw (ge, ge', join)
            (find-paired k b t bs ts (join key bs ts) (less-connected (key b) (key t) ge' ge)
              (find-join k bs ts hb.1 ht.1))
    ]
  ]

  Above-join :
      (k : Bytes) (bs ts : List A)
      → Above k bs
      → Above k ts
      → All (λ p. less k (pair_key key p) ≡ true) (join key bs ts)
  unfolding join pair_key
  Above-join k [] [] hb ht = tt
  Above-join k [] (t ∷ ts) hb ht = (ht.0, Above-join k [] ts hb ht.1)
  Above-join k (b ∷ bs) [] hb ht = (hb.0, Above-join k bs [] hb.1 ht)
  Above-join k (b ∷ bs) (t ∷ ts) hb ht = elim (Bool-cases (less (key t) (key b))) [
    | inl lt ↦ rw (lt, join) (ht.0, Above-join k (b ∷ bs) ts hb ht.1)
    | inr ge ↦ elim (Bool-cases (less (key b) (key t))) [
      | inl lt ↦ rw (ge, lt, join) (hb.0, Above-join k bs (t ∷ ts) hb.1 ht)
      | inr ge' ↦ rw (ge, ge', join) (hb.0, Above-join k bs ts hb.1 ht.1)
    ]
  ]

  pub join-Ascending :
      (bs ts : List A)
      → Ascending key bs
      → Ascending key ts
      → Ascending (pair_key key) (join key bs ts)
  unfolding join pair_key
  join-Ascending [] [] hb ht = tt
  join-Ascending [] (t ∷ ts) hb ht =
      (Above-join (key t) [] ts tt ht.0, join-Ascending [] ts hb ht.1)
  join-Ascending (b ∷ bs) [] hb ht =
      (Above-join (key b) bs [] hb.0 tt, join-Ascending bs [] hb.1 ht)
  join-Ascending (b ∷ bs) (t ∷ ts) hb ht = elim (Bool-cases (less (key t) (key b))) [
    | inl lt ↦
        rw (lt, join)
          (
            Above-join (key t) (b ∷ bs) ts (lt, Above-trans (key t) (key b) bs lt hb.0) ht.0,
            join-Ascending (b ∷ bs) ts hb ht.1,
          )
    | inr ge ↦ elim (Bool-cases (less (key b) (key t))) [
      | inl lt ↦
          rw (ge, lt, join)
            (
              Above-join (key b) bs (t ∷ ts) hb.0 (lt, Above-trans (key b) (key t) ts lt ht.0),
              join-Ascending bs (t ∷ ts) hb.1 ht,
            )
      | inr ge' ↦
          rw (ge, ge', join)
            (
              Above-join (key b) bs ts hb.0 (rw (less-connected (key b) (key t) ge' ge) ht.0),
              join-Ascending bs ts hb.1 ht.1,
            )
    ]
  ]
