-- ===== src/Lsa/Free.antt =====
-- attr_tree_free on every tree: it brings the count down by what the tree counted, unless it meets
-- an empty nested set.
use dvpn.Base.{
  ℕ, ◌-◌, ◌≤◌, ◌≡◌, refl, ap, ◌∙◌, Bool, true, false, ◌&&◌, arith, Result, ok, fault, if◌then◌else◌,
  ◌>>=◌,
}
use dvpn.Bytes.{size_max}
use dvpn.Lsa.Types.{Attr, attr, Data, bytes, attr_set, AttrTree, empty, branch}
use dvpn.Lsa.Size.{attr_tree_free, attr_free, data_free, sub_size}
use dvpn.Lsa.Totals.{own_total, tree_total, attr_nested, nested_total, lsa_attr_size-own_total}

-- Whether every nested set, at any depth, has an attribute.
unfoldable mutual
  pub all_filled : Bool → AttrTree → Bool
  all_filled checked empty = checked
  all_filled checked (branch l a r) = all_filled true l && (all_filled true r && attr_filled a)

  pub attr_filled : Attr → Bool
  attr_filled (attr type sign key d) = data_filled d

  pub data_filled : Data → Bool
  data_filled (bytes d) = true
  data_filled (attr_set t) = all_filled false t

freed : Bool → ℕ → Result ℕ
freed filled size = if filled then ok size else fault

sub_size-le : (size n : ℕ) → n ≤ size → size ≤ size_max → sub_size size n ≡ size - n
sub_size-le size n h k = omega arith

-- Two parts of a tree, freed one after the other.
freed-bind :
    (b c : Bool) (m n : ℕ) (f : ℕ → Result ℕ)
    → f m ≡ freed c n
    → (freed b m >>= f) ≡ freed (b && c) n
unfolding freed
freed-bind true c m n f h = h
freed-bind false c m n f h = refl

mutual
  unfolding attr_tree_free all_filled tree_total freed

  free_tree :
      (checked : Bool) (t : AttrTree) (size : ℕ)
      → tree_total t ≤ size
      → size ≤ size_max
      → attr_tree_free checked t size ≡ freed (all_filled checked t) (size - tree_total t)
  free_tree true empty size h k = ap ok (omega arith)
  free_tree false empty size h k = refl
  free_tree checked (branch l a r) size h k =
      let s₀ = size - own_total a in
      let s₁ = s₀ - tree_total l in
      let s₂ = s₁ - tree_total r in
      rw (lsa_attr_size-own_total a (omega arith)) (
        rw (sub_size-le size (own_total a) (omega arith) k) (
          rw (free_tree true l s₀ (omega arith) (omega arith)) (
            freed-bind (all_filled true l) (all_filled true r && attr_filled a) s₁ _ _ (
              rw (free_tree true r s₁ (omega arith) (omega arith)) (
                freed-bind (all_filled true r) (attr_filled a) s₂ _ _ (
                  free_attr a s₂ (omega arith) (omega arith)
                  ∙ ap (freed (attr_filled a)) (omega arith)))))))

  free_attr :
      (a : Attr) (size : ℕ)
      → attr_nested a ≤ size
      → size ≤ size_max
      → attr_free a size ≡ freed (attr_filled a) (size - attr_nested a)
  free_attr (attr type sign key d) size h k = free_data d size h k

  free_data :
      (d : Data) (size : ℕ)
      → nested_total d ≤ size
      → size ≤ size_max
      → data_free d size ≡ freed (data_filled d) (size - nested_total d)
  free_data (bytes d) size h k = ap ok (omega arith)
  free_data (attr_set t) size h k = free_tree false t size h k

-- Freeing a tree, whose sizes the count covers, brings the count down by exactly what its attributes
-- count at every depth if every nested set in it has an attribute; where one has none, a null pointer
-- is read.
pub attr_tree_free-tree_total :
    (checked : Bool) (t : AttrTree) (size : ℕ)
    → tree_total t ≤ size
    → size ≤ size_max
    → attr_tree_free checked t size
      ≡ (if all_filled checked t then ok (size - tree_total t) else fault)
unfolding freed
attr_tree_free-tree_total checked t size h k = free_tree checked t size h k
