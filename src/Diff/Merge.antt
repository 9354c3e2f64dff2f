-- ===== src/Diff/Merge.antt =====
-- What avl_diff reports is what a comparison of every item with every other gives.
use dvpn.Base.{
  ℕ, zero, suc, ◌+◌, ◌≤◌, ◌≡◌, ◌≢◌, refl, ap, ◌∙◌, sym, List, [], ◌∷◌, length, map, Option, none,
  some, Bool, true, false, ok, Ordering, if◌then◌else◌, arith, ◌⊎◌, inl, inr,
}
use dvpn.Avl.Order.{IsOrder, Each, Each-map, Sorted, first_eq, first_eq-none}
use dvpn.Diff.Trees.{Change, deleted, added, modified, after, diff_loop, avl_diff}

abbrev is_none {ℓ} : {A : Type ℓ} → Option A → Bool
is_none none = true
is_none (some a) = false

module _ {A : Type 0} where
  abbrev pub deletions : List (Change A) → List A
  deletions [] = []
  deletions (deleted a ∷ cs) = a ∷ deletions cs
  deletions (added a ∷ cs) = deletions cs
  deletions (modified a b ∷ cs) = deletions cs

  abbrev pub additions : List (Change A) → List A
  additions [] = []
  additions (deleted a ∷ cs) = additions cs
  additions (added a ∷ cs) = a ∷ additions cs
  additions (modified a b ∷ cs) = additions cs

  abbrev pub modifications : List (Change A) → List (A × A)
  modifications [] = []
  modifications (deleted a ∷ cs) = modifications cs
  modifications (added a ∷ cs) = modifications cs
  modifications (modified a b ∷ cs) = (a, b) ∷ modifications cs

  -- The items of one list that have no equal in the other.
  unfoldable pub only_in : (A → A → Ordering) → List A → List A → List A
  only_in cmp [] ys = []
  only_in cmp (x ∷ xs) ys =
      if is_none (first_eq (cmp x) ys) then x ∷ only_in cmp xs ys else only_in cmp xs ys

  -- The items that have an equal in the other, with that.
  abbrev pub pair_with : A → Option A → List (A × A) → List (A × A)
  pair_with x none l = l
  pair_with x (some y) l = (x, y) ∷ l

  unfoldable pub in_both : (A → A → Ordering) → List A → List A → List (A × A)
  in_both cmp [] ys = []
  in_both cmp (x ∷ xs) ys = pair_with x (first_eq (cmp x) ys) (in_both cmp xs ys)

  -- The calls are those for the items that are in one list only, and in both.
  abbrev pub Reports : (A → A → Ordering) → List A → List A → List (Change A) → Type 0
  Reports cmp xs ys cs =
      (deletions cs ≡ only_in cmp xs ys)
      × (additions cs ≡ only_in cmp ys xs)
      × (modifications cs ≡ in_both cmp xs ys)

  only_in-skip :
      (cmp : A → A → Ordering) (ys xs : List A) (x : A)
      → Each (λ y. cmp y x ≢ Ordering.eq) ys
      → only_in cmp ys (x ∷ xs) ≡ only_in cmp ys xs
  unfolding only_in first_eq
  only_in-skip cmp [] xs x h = refl
  only_in-skip cmp (y ∷ ys) xs x (n, h) = ground (arith, n, only_in-skip cmp ys xs x h)

  in_both-skip :
      (cmp : A → A → Ordering) (xs ys : List A) (y : A)
      → Each (λ x. cmp x y ≢ Ordering.eq) xs
      → in_both cmp xs (y ∷ ys) ≡ in_both cmp xs ys
  unfolding in_both first_eq
  in_both-skip cmp [] ys y h = refl
  in_both-skip cmp (x ∷ xs) ys y (n, h) = ground (arith, n, in_both-skip cmp xs ys y h)

  only_in-nil : (cmp : A → A → Ordering) (xs : List A) → only_in cmp xs [] ≡ xs
  unfolding only_in first_eq
  only_in-nil cmp [] = refl
  only_in-nil cmp (x ∷ xs) = ap (λ l. x ∷ l) (only_in-nil cmp xs)

  in_both-nil : (cmp : A → A → Ordering) (xs : List A) → in_both cmp xs [] ≡ []
  unfolding in_both first_eq
  in_both-nil cmp [] = refl
  in_both-nil cmp (x ∷ xs) = in_both-nil cmp xs

  all_added :
      (bs : List A)
      → (deletions (map added bs) ≡ [])
        × (additions (map added bs) ≡ bs)
        × (modifications (map added bs) ≡ [])
  all_added [] = (refl, refl, refl)
  all_added (b ∷ bs) = let (d, e, m) = all_added bs in (d, ap (λ l. b ∷ l) e, m)

  all_deleted :
      (bs : List A)
      → (deletions (map deleted bs) ≡ bs)
        × (additions (map deleted bs) ≡ [])
        × (modifications (map deleted bs) ≡ [])
  all_deleted [] = (refl, refl, refl)
  all_deleted (b ∷ bs) = let (d, e, m) = all_deleted bs in (ap (λ l. b ∷ l) d, e, m)

Ordering-cases : (o : Ordering) → (o ≡ Ordering.lt) ⊎ ((o ≡ Ordering.gt) ⊎ (o ≡ Ordering.eq))
Ordering-cases Ordering.lt = inl refl
Ordering-cases Ordering.gt = inr (inl refl)
Ordering-cases Ordering.eq = inr (inr refl)

module _ {A : Type 0} (cmp : A → A → Ordering) (order : IsOrder cmp) where
  open order use {swap, trans, same}

  apart : (x y : A) → cmp x y ≡ Ordering.lt → cmp y x ≢ Ordering.eq
  apart x y h e = ground (arith, swap x y)

  -- Where the smaller head has been reported.
  behind :
      (x y : A) (ys : List A)
      → cmp x y ≡ Ordering.lt
      → Each (λ z. cmp y z ≡ Ordering.lt) ys
      → Each (λ z. cmp x z ≡ Ordering.lt) (y ∷ ys)
  behind x y ys h k = (h, Each-map ys (λ z l. trans x y z h l) k)

  none_behind :
      (x : A) (ys : List A) → Each (λ z. cmp x z ≡ Ordering.lt) ys → first_eq (cmp x) ys ≡ none
  none_behind x ys h = first_eq-none (cmp x) ys (Each-map ys (λ z l e. ground arith) h)

  skip_below :
      (x : A) (ys : List A)
      → Each (λ z. cmp x z ≡ Ordering.lt) ys
      → Each (λ z. cmp z x ≢ Ordering.eq) ys
  skip_below x ys h = Each-map ys (λ z l. apart x z l) h

  skip_above :
      (x : A) (ys : List A)
      → Each (λ z. cmp x z ≡ Ordering.lt) ys
      → Each (λ z. cmp x z ≢ Ordering.eq) ys
  skip_above x ys h = Each-map ys (λ z l e. ground arith) h

  report_deleted :
      (x : A) (xs ys : List A) (cs : List (Change A))
      → Each (λ z. cmp x z ≡ Ordering.lt) ys
      → Reports cmp xs ys cs
      → Reports cmp (x ∷ xs) ys (deleted x ∷ cs)
  unfolding only_in in_both
  report_deleted x xs ys cs h (d, e, m) =
      let n = none_behind x ys h in
      (rw n (ap (λ l. x ∷ l) d), e ∙ sym (only_in-skip cmp ys xs x (skip_below x ys h)), rw n m)

  report_added :
      (y : A) (xs ys : List A) (cs : List (Change A))
      → Each (λ z. cmp y z ≡ Ordering.lt) xs
      → Reports cmp xs ys cs
      → Reports cmp xs (y ∷ ys) (added y ∷ cs)
  unfolding only_in in_both
  report_added y xs ys cs h (d, e, m) =
      let n = none_behind y xs h in
      (
        d ∙ sym (only_in-skip cmp xs ys y (skip_below y xs h)),
        rw n (ap (λ l. y ∷ l) e),
        m ∙ sym (in_both-skip cmp xs ys y (skip_below y xs h)),
      )

  report_modified :
      (x y : A) (xs ys : List A) (cs : List (Change A))
      → cmp x y ≡ Ordering.eq
      → Each (λ z. cmp x z ≡ Ordering.lt) xs
      → Each (λ z. cmp y z ≡ Ordering.lt) ys
      → Reports cmp xs ys cs
      → Reports cmp (x ∷ xs) (y ∷ ys) (modified x y ∷ cs)
  unfolding only_in in_both first_eq
  report_modified x y xs ys cs q h k (d, e, m) =
      let q' : cmp y x ≡ Ordering.eq = ground (arith, swap x y) in
      let h' : Each (λ z. cmp y z ≡ Ordering.lt) xs =
        Each-map xs (λ z l. ground (arith, same x y z q)) h in
      let k' : Each (λ z. cmp x z ≡ Ordering.lt) ys =
        Each-map ys (λ z l. ground (arith, same x y z q)) k in
      (
        rw q (d ∙ sym (only_in-skip cmp xs ys y (skip_below y xs h'))),
        rw q' (e ∙ sym (only_in-skip cmp ys xs x (skip_below x ys k'))),
        rw q (ap (λ l. (x, y) ∷ l) (m ∙ sym (in_both-skip cmp xs ys y (skip_below y xs h')))),
      )

  step_lt :
      (fuel : ℕ) (x y : A) (xs ys : List A)
      → cmp x y ≡ Ordering.lt
      → diff_loop cmp (suc fuel) (x ∷ xs) (y ∷ ys)
        ≡ after (deleted x) (diff_loop cmp fuel xs (y ∷ ys))
  unfolding diff_loop
  step_lt fuel x y xs ys q = rw (q, diff_loop) refl

  step_gt :
      (fuel : ℕ) (x y : A) (xs ys : List A)
      → cmp x y ≡ Ordering.gt
      → diff_loop cmp (suc fuel) (x ∷ xs) (y ∷ ys)
        ≡ after (added y) (diff_loop cmp fuel (x ∷ xs) ys)
  unfolding diff_loop
  step_gt fuel x y xs ys q = rw (q, diff_loop) refl

  step_eq :
      (fuel : ℕ) (x y : A) (xs ys : List A)
      → cmp x y ≡ Ordering.eq
      → diff_loop cmp (suc fuel) (x ∷ xs) (y ∷ ys) ≡ after (modified x y) (diff_loop cmp fuel xs ys)
  unfolding diff_loop
  step_eq fuel x y xs ys q = rw (q, diff_loop) refl

  diff_loop-Reports :
      (fuel : ℕ) (xs ys : List A)
      → length xs + length ys ≤ fuel
      → Sorted cmp xs
      → Sorted cmp ys
      → (cs : List (Change A)) × (diff_loop cmp fuel xs ys ≡ ok cs) × Reports cmp xs ys cs
  unfolding diff_loop only_in in_both
  diff_loop-Reports fuel [] ys room s t =
      let (d, e, m) = all_added ys in (map added ys, refl, (d, e ∙ sym (only_in-nil cmp ys), m))
  diff_loop-Reports fuel (x ∷ xs) [] room s t =
      let (d, e, m) = all_deleted (x ∷ xs) in
      (
        map deleted (x ∷ xs),
        refl,
        (d ∙ sym (only_in-nil cmp (x ∷ xs)), e, m ∙ sym (in_both-nil cmp (x ∷ xs))),
      )
  diff_loop-Reports zero (x ∷ xs) (y ∷ ys) room s t = absurd (omega arith)
  diff_loop-Reports (suc fuel) (x ∷ xs) (y ∷ ys) room (h, s) (k, t) =
      elim (Ordering-cases (cmp x y)) [
        | inl q ↦
            let (cs, e, r) = diff_loop-Reports fuel xs (y ∷ ys) (omega arith) s (k, t) in
            (
              deleted x ∷ cs,
              step_lt fuel x y xs ys q ∙ ap (after (deleted x)) e,
              report_deleted x xs (y ∷ ys) cs (behind x y ys q k) r,
            )
        | inr (inl q) ↦
            let (cs, e, r) = diff_loop-Reports fuel (x ∷ xs) ys (omega arith) (h, s) t in
            let p : cmp y x ≡ Ordering.lt = ground (arith, swap x y) in
            (
              added y ∷ cs,
              step_gt fuel x y xs ys q ∙ ap (after (added y)) e,
              report_added y (x ∷ xs) ys cs (behind y x xs p h) r,
            )
        | inr (inr q) ↦
            let (cs, e, r) = diff_loop-Reports fuel xs ys (omega arith) s t in
            (
              modified x y ∷ cs,
              step_eq fuel x y xs ys q ∙ ap (after (modified x y)) e,
              report_modified x y xs ys cs q h k r,
            )
      ]

  -- On two trees in order, avl_diff comes to an end, and calls item_del exactly for the items of the
  -- first that have no equal in the second, item_add for those of the second that have none in the
  -- first, and item_mod for the pairs of equal ones, each in the order of the trees.
  pub avl_diff-Reports :
      (xs ys : List A)
      → Sorted cmp xs
      → Sorted cmp ys
      → (cs : List (Change A)) × (avl_diff cmp xs ys ≡ ok cs) × Reports cmp xs ys cs
  unfolding avl_diff
  avl_diff-Reports xs ys s t = diff_loop-Reports (length xs + length ys) xs ys (omega arith) s t
