-- ===== src/Daemon/Version.antt =====
-- The version of the advertisement of this node rises with each change.
use dvpn.Base.{
  ℕ, ◌-◌, ◌*◌, ◌^◌, ◌<◌, ◌≤◌, ◌≡◌, refl, ap, ◌∙◌, sym, subst, true, false, if◌then◌else◌, [], ◌∷◌,
  length, take, Option, some, ok, List, Ordering, arith,
}
use dvpn.Bytes.{Bytes, big_endian, is_eq}
use dvpn.Avl.Order.{first_eq, erase_in}
use dvpn.Avl.Insert.{cmp_self}
use dvpn.Lsa.Types.{Attr, attr, bytes, Lsa, attr_type_version}
use dvpn.Lsa.Platform.{Platform}
use dvpn.Lsa.Compare.{lsa_attr_compare_keys, compare_keys-IsOrder}
use dvpn.Lsa.Totals.{own_total, tree_total-in_order, list_total, list_total-erase_in}
use dvpn.Lsa.Insert.{attrs, lookup_attr, find_attr-lookup_attr}
use dvpn.Lsa.Build.{
  attr_data, search_key, lsa_find_attr, lsa_add_attr, del_found, lsa_del_attr_bykey,
}
use dvpn.Lsa.Change.{IsWell, add_attr-IsWell, del_bykey-IsWell}
use dvpn.Lsa.Last.{compare_keys-payload_right}
use dvpn.Lsa.Peer.{signed_number}
use dvpn.LocRib.State.{lsa_get_version}
use dvpn.Daemon.Own.{version_bytes, version_at, next_version, lsa_add_version, lsa_update_version}

-- The number that was written is read again.
big_endian-version_bytes : (v : ℕ) → v < 2 ^ 64 → big_endian 0 (version_bytes v) ≡ v
unfolding big_endian
big_endian-version_bytes v h = omega arith

next_version_rises :
    (p : Platform) (now cur : ℕ)
    → cur < 2 ^ 64 - 1
    → now * 256 < 2 ^ 64
    → (cur < next_version p now cur)
      × (now * 256 ≤ next_version p now cur)
      × (next_version p now cur < 2 ^ 64)
next_version_rises p now cur h k = (ground arith, ground arith, ground arith)

take-length : (d : Bytes) → take (length d) d ≡ d
take-length [] = refl
take-length (b ∷ d) = ground (arith, take-length d)

module _ {A : Type 0} (probe other : A → Ordering)
    (apart : (x : A) → other x ≡ Ordering.eq → is_eq (probe x) ≡ false) where
  -- Removing one item does not change what a search for another finds.
  first_eq-erase_in : (xs : List A) → first_eq probe (erase_in other xs) ≡ first_eq probe xs
  unfolding first_eq erase_in
  first_eq-erase_in [] = refl
  first_eq-erase_in (x ∷ xs) = ground (arith, apart x, first_eq-erase_in xs)

keys_apart :
    (a b x : Attr)
    → is_eq (lsa_attr_compare_keys a b) ≡ false
    → lsa_attr_compare_keys b x ≡ Ordering.eq
    → is_eq (lsa_attr_compare_keys a x) ≡ false
keys_apart a b x n e =
    let o = compare_keys-IsOrder in ground (arith, o.swap x a, o.swap b a, o.same b x a e)

module _ (p : Platform) (now : ℕ) (lsa : Lsa) (d : Bytes) where
  abbrev old : Attr
  old = attr attr_type_version true [] (bytes d)

  abbrev newer : Bytes
  newer = version_bytes (next_version p now (big_endian 0 d))

  abbrev fresh : Attr
  fresh = attr attr_type_version true [] (bytes newer)

  version_at-length : length d ≡ 8 → version_at p old ≡ ok (big_endian 0 d)
  unfolding attr_data
  version_at-length h = rw (sym h, take-length d) (ground (arith, h))

  version_of :
      (l : Lsa) (ds : Bytes)
      → lsa_find_attr l attr_type_version [] ≡ some (attr attr_type_version true [] (bytes ds))
      → length ds ≡ 8
      → lsa_get_version p l ≡ big_endian 0 ds
  unfolding lsa_get_version signed_number attr_data
  version_of l ds find h = rw find (ground arith)

  find_version :
      (l : Lsa)
      → IsWell l
      → lsa_find_attr l attr_type_version [] ≡ lookup_attr attr_type_version [] (attrs l.root)
  unfolding lsa_find_attr
  find_version l (one, s, c) = find_attr-lookup_attr l.root attr_type_version [] s (omega arith)

  update_stages :
      (l₁ l₂ : Lsa)
      → lsa.refcount ≡ 1
      → lsa_find_attr lsa attr_type_version [] ≡ some old
      → length d ≡ 8
      → lsa_del_attr_bykey p lsa attr_type_version [] ≡ ok l₁
      → lsa_add_attr p l₁ attr_type_version true [] newer ≡ ok l₂
      → lsa_update_version p now lsa ≡ ok l₂
  unfolding lsa_update_version lsa_del_attr_bykey del_found lsa_add_version
  update_stages l₁ l₂ one find h del add = rw find (ground (arith, version_at-length h))

  same_key :
      (x : Attr)
      → lsa_attr_compare_keys x fresh ≡ lsa_attr_compare_keys x (search_key attr_type_version [])
  same_key x = compare_keys-payload_right attr_type_version true false [] (bytes newer) (bytes []) x

  found_itself :
      (r : Option Attr)
      → (if is_eq (lsa_attr_compare_keys (search_key attr_type_version []) fresh)
          then some fresh
          else r)
        ≡ some fresh
  found_itself r =
      rw
        (
          same_key (search_key attr_type_version []),
          cmp_self lsa_attr_compare_keys compare_keys-IsOrder (search_key attr_type_version []),
        )
        refl

  others_remain :
      (t : ℕ) (k : Bytes) (l : List Attr)
      → is_eq (lsa_attr_compare_keys (search_key t k) (search_key attr_type_version [])) ≡ false
      → (if is_eq (lsa_attr_compare_keys (search_key t k) fresh)
          then some fresh
          else lookup_attr t k
              (erase_in (lsa_attr_compare_keys (search_key attr_type_version [])) l))
        ≡ lookup_attr t k l
  others_remain t k l n =
      rw (same_key (search_key t k), n)
        (first_eq-erase_in (lsa_attr_compare_keys (search_key t k))
          (lsa_attr_compare_keys (search_key attr_type_version []))
          (λ x e. keys_apart (search_key t k) (search_key attr_type_version []) x n e) l)

  newer_small : own_total fresh < 2 ^ 32
  unfolding own_total
  newer_small = ground arith

  -- lsa_update_version gives a well-formed advertisement of less than 2 ^ 32 bytes, with a signed
  -- version of eight bytes that is less than 2 ^ 64 - 1, a version that is greater than the one before
  -- and not less than the time in seconds times 256, where that is less than 2 ^ 64. It stays
  -- well-formed, and everything else that a search finds in it is as before.
  pub update_version-IsWell :
      IsWell lsa
      → lsa.size < 2 ^ 32
      → lookup_attr attr_type_version [] (attrs lsa.root) ≡ some old
      → length d ≡ 8
      → lsa_get_version p lsa < 2 ^ 64 - 1
      → now * 256 < 2 ^ 64
      → (lsa' : Lsa) × (lsa_update_version p now lsa ≡ ok lsa')
        × IsWell lsa'
        × (lsa_get_version p lsa < lsa_get_version p lsa')
        × (now * 256 ≤ lsa_get_version p lsa')
        × ((t : ℕ) (k : Bytes)
            → is_eq (lsa_attr_compare_keys (search_key t k) (search_key attr_type_version []))
              ≡ false
            → lookup_attr t k (attrs lsa'.root) ≡ lookup_attr t k (attrs lsa.root))
  update_version-IsWell well room found eight below late =
      let (l₁, del, well₁, id, seen, gone) =
        del_bykey-IsWell p lsa attr_type_version [] old well (omega arith) (omega arith) found
          refl in
      let room₁ : l₁.size < 2 ^ 32 = omega (
        arith,
        well.2,
        well₁.2,
        tree_total-in_order lsa.root,
        tree_total-in_order l₁.root,
        ap list_total seen,
        list_total-erase_in (lsa_attr_compare_keys (search_key attr_type_version [])) old
            (attrs lsa.root) found,
      ) in
      let (l₂, add, well₂, after) =
        add_attr-IsWell p l₁ attr_type_version true [] newer well₁ room₁ newer_small (omega arith)
          gone in
      let find = find_version lsa well ∙ found in
      let was = version_of lsa d find eight in
      let num =
        version_of l₂ newer
          (find_version l₂ well₂
            ∙ after attr_type_version []
            ∙ found_itself (lookup_attr attr_type_version [] (attrs l₁.root)))
          refl in
      let (more, recent, fits) =
        next_version_rises p now (big_endian 0 d) (subst (λ n. n < 2 ^ 64 - 1) was below) late in
      let now_is = num ∙ big_endian-version_bytes (next_version p now (big_endian 0 d)) fits in
      (
        l₂,
        update_stages l₁ l₂ well.0 find eight del add,
        well₂,
        subst (λ n. n < lsa_get_version p l₂) (sym was)
            (subst (λ n. big_endian 0 d < n) (sym now_is) more),
        subst (λ n. now * 256 ≤ n) (sym now_is) recent,
        λ t k n.
            after t k
            ∙ ap
                (λ l.
                  if is_eq (lsa_attr_compare_keys (search_key t k) fresh)
                  then some fresh
                  else lookup_attr t k l)
                seen
            ∙ others_remain t k (attrs lsa.root) n,
      )
