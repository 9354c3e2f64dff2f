-- ===== src/Diff/Trees.antt =====
-- avl_diff of util.c.
use dvpn.Base.{ℕ, zero, suc, ◌+◌, List, [], ◌∷◌, length, map, Result, ok, stuck, ◌>>=◌, Ordering}

-- A call of item_del, item_add or item_mod.
pub data Change {ℓ} (A : Type ℓ) : Type ℓ where
  deleted added : A → Change A
  modified : A → A → Change A

module _ {ℓ} {A : Type ℓ} where
  abbrev pub after : Change A → Result (List (Change A)) → Result (List (Change A))
  after c rest = rest >>= λ cs. ok (c ∷ cs)

  -- The three loops on the items of the trees in order; the fuel is for the first loop. The calls are
  -- in the order in which they are made.
  unfoldable pub diff_loop : (A → A → Ordering) → ℕ → List A → List A → Result (List (Change A))
  diff_loop cmp fuel [] bs = ok (map added bs)
  diff_loop cmp fuel (a ∷ as') [] = ok (map deleted (a ∷ as'))
  diff_loop cmp zero (a ∷ as') (b ∷ bs) = stuck
  diff_loop cmp (suc fuel) (a ∷ as') (b ∷ bs) =
      let without_a = diff_loop cmp fuel as' (b ∷ bs) in
      let without_b = diff_loop cmp fuel (a ∷ as') bs in
      let without_both = diff_loop cmp fuel as' bs in
      elim (cmp a b) [
        | Ordering.lt ↦ after (deleted a) without_a
        | Ordering.gt ↦ after (added b) without_b
        | Ordering.eq ↦ after (modified a b) without_both
      ]

  -- A null pointer for a tree is the tree of no items.
  unfoldable pub avl_diff : (A → A → Ordering) → List A → List A → Result (List (Change A))
  avl_diff cmp as' bs = diff_loop cmp (length as' + length bs) as' bs
