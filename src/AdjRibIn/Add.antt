-- ===== src/AdjRibIn/Add.antt =====
-- adj_rib_in_add_lsa keeps the account of sizes, on every path through it.
use dvpn.Base.{
  ℕ, zero, suc, ◌+◌, ◌%◌, ◌≤◌, ◌≡◌, refl, ap, sym, subst, Bool, true, false, ltb, List, ◌∷◌, Option,
  none, some, Result, ok, arith, Bool-cases, inl, inr,
}
use mathlib.Core.Path.{fun_ext}
use dvpn.Bytes.{size_max}
use dvpn.Avl.Order.{Each, Sorted, Sorted-append, first_eq, first_eq-is_eq, Each-first_eq}
use dvpn.Avl.Insert.{cmp-IsProbe}
use dvpn.Avl.Replace.{
  replace_in, replace_in-append, replace_in-none, Each-replace_in, Sorted-replace_in,
}
use dvpn.Avl.Walk.{Tree, leaf, node, in_order, none_before, none_after}
use dvpn.Lsa.Platform.{Platform}
use dvpn.Diff.Zero.{lsa_diff-Agree}
use dvpn.AdjRibIn.Accept.{Crypto}
use dvpn.AdjRibIn.Rib.{
  Obj, AdjRibIn, compare_refs, adj_rib_in_find_ref, put_ref, mod_ref, keep_lsa, drop_ref, is_empty,
  to_size, get_obj, adj_rib_in_add_lsa,
}
use dvpn.AdjRibIn.Account.{compare_refs-IsOrder, total, total-replace_in}
use dvpn.AdjRibIn.Notify.{Sound, weight, put_obj-ok, weight-le, notified, notify-size}
use dvpn.AdjRibIn.Keep.{Accounted, found_lem, first_eq-weight, del_lsa-Accounted, add_ref-Accounted}

module _ (new : Obj) where
  abbrev others : List Obj → List Obj
  others os = replace_in (compare_refs new) (λ q. new) os

  in_order-put_ref :
      (t : Tree Obj)
      → Sorted compare_refs (in_order t)
      → in_order (put_ref new t) ≡ others (in_order t)
  unfolding put_ref in_order replace_in
  in_order-put_ref leaf s = refl
  in_order-put_ref (node l o r) s =
      let pr = cmp-IsProbe compare_refs compare_refs-IsOrder new in
      let xs = in_order l in
      let ys = in_order r in
      let (sl, before, after, sr) = Sorted-append compare_refs xs o ys s in
      ground (
        arith,
        in_order-put_ref l sl,
        in_order-put_ref r sr,
        none_before compare_refs (compare_refs new) o xs pr before,
        none_after compare_refs (compare_refs new) o ys pr after,
        replace_in-append (compare_refs new) (λ q. new) xs (o ∷ ys),
        replace_in-none (compare_refs new) (λ q. new) xs,
        replace_in-none (compare_refs new) (λ q. new) ys,
      )

module _ (p : Platform) (crypto : Crypto) (rib : AdjRibIn) (o : Obj) where
  -- Whatever the operation answers, it returns, and the account is right afterwards.
  abbrev pub Keeps : Result (AdjRibIn × Bool) → Type 0
  Keeps r = (rib' : AdjRibIn) × (b : Bool) × (r ≡ ok (rib', b)) × Accounted p crypto rib'

  mod_ref-Keeps :
      (ref : Obj) (n : ℕ)
      → Accounted p crypto rib
      → Sound o
      → first_eq (compare_refs o) (in_order rib.lsas) ≡ some ref
      → rib.size + o.lsa.size ≤ 1048576
      → Keeps (mod_ref p crypto rib ref o n)
  unfolding mod_ref
  mod_ref-Keeps ref zero acc sound f room = (rib, true, refl, acc)
  mod_ref-Keeps ref (suc n) (s, g, e, b) sound f room =
      let os = in_order rib.lsas in
      let w = weight p crypto rib.ends in
      let old = Each-first_eq Sound (compare_refs o) os ref g f in
      let (c, put) = put_obj-ok rib.counts ref old in
      let seen = in_order-put_ref o rib.lsas s in
      let sum =
        total-replace_in w (compare_refs o) o os ref s
          (cmp-IsProbe compare_refs compare_refs-IsOrder o) f in
      let left = ap (total w) seen in
      let light = weight-le p crypto rib.ends o in
      let part = first_eq-weight p crypto w (compare_refs o) ref os f in
      let told =
        notify-size p crypto rib.ends rib (some ref) (some o) refl old sound
          (omega (arith, e, part)) b (omega (arith, light)) in
      (
        record (notified p crypto rib.ends rib (some ref) (some o)) {
          counts = get_obj c o;
          lsas = put_ref o rib.lsas;
        },
        true,
        rw told (rw put refl),
        (
          subst (Sorted compare_refs) (sym seen)
              (Sorted-replace_in compare_refs compare_refs-IsOrder o os s),
          subst (Each Sound) (sym seen)
              (Each-replace_in compare_refs compare_refs-IsOrder o Sound os (λ q h k. sound) g),
          omega (arith, e, sum, left, part),
          omega (arith, b, light, part),
        ),
      )

  keep_lsa-Keeps :
      (mem : Bool) (ref : Option Obj)
      → Accounted p crypto rib
      → Sound o
      → first_eq (compare_refs o) (in_order rib.lsas) ≡ ref
      → rib.size + o.lsa.size ≤ 1048576
      → Keeps (keep_lsa p crypto mem rib o ref)
  unfolding keep_lsa
  keep_lsa-Keeps false none acc sound f room = (rib, false, refl, acc)
  keep_lsa-Keeps true none acc sound f room =
      let (rib', h, k, v) = add_ref-Accounted p crypto rib o acc sound f room in (rib', true, h, k)
  keep_lsa-Keeps mem (some ref) (s, g, e, b) (c, i, z, l, k, m) f room =
      let (c', i', z', l', k', m') =
        Each-first_eq Sound (compare_refs o) (in_order rib.lsas) ref g f in
      let (n, es, d, from, to) = lsa_diff-Agree false ref.lsa o.lsa k' k m' m in
      let (rib', b', h, a) = mod_ref-Keeps ref n (s, g, e, b) (c, i, z, l, k, m) f room in
      (rib', b', rw d h, a)

  -- What is found by an id is found by its own id.
  found_itself :
      (ref : Obj)
      → first_eq (compare_refs o) (in_order rib.lsas) ≡ some ref
      → first_eq (compare_refs ref) (in_order rib.lsas) ≡ some ref
  found_itself ref f =
      let eq = first_eq-is_eq (compare_refs o) (in_order rib.lsas) ref f in
      let same : compare_refs ref ≡ compare_refs o =
        fun_ext (λ x. sym (compare_refs-IsOrder.same o ref x eq)) in
      rw same f

  drop_ref-Keeps :
      (answer : Bool) (ref : Option Obj)
      → Accounted p crypto rib
      → first_eq (compare_refs o) (in_order rib.lsas) ≡ ref
      → Keeps (drop_ref p crypto rib answer ref)
  drop_ref-Keeps answer none acc f = (rib, false, refl, acc)
  drop_ref-Keeps answer (some ref) acc f =
      let (rib', h, a, v) = del_lsa-Accounted p crypto rib ref acc (found_itself ref f) in
      (rib', answer, rw h refl, a)

  find_ref_lem :
      Sorted compare_refs (in_order rib.lsas)
      → adj_rib_in_find_ref rib o.lsa.id ≡ first_eq (compare_refs o) (in_order rib.lsas)
  unfolding compare_refs
  find_ref_lem s = found_lem p crypto rib o.lsa.id s

  -- adj_rib_in_add_lsa keeps the account of sizes: the table is in order, and its size is the sum of the
  -- sizes of what map accepts of it, and at most 1048576. It returns, be the advertisement new, changed,
  -- unchanged, empty or too large, with memory or without. The advertisement, and all in the table,
  -- count their attributes, have a 32 byte id, at most 1048576 bytes and attributes of at most 65520,
  -- are in order, and hold no empty nested set.
  pub add_lsa-Keeps :
      (mem : Bool)
      → Accounted p crypto rib
      → Sound o
      → (rib' : AdjRibIn) × (b : Bool) × (adj_rib_in_add_lsa p crypto mem rib o ≡ ok (rib', b))
        × Accounted p crypto rib'
  unfolding adj_rib_in_add_lsa
  add_lsa-Keeps mem (s, g, e, b) sound =
      let acc : Accounted p crypto rib = (s, g, e, b) in
      let find = sym (find_ref_lem s) in
      let ref = adj_rib_in_find_ref rib o.lsa.id in
      let (c, i, z, l, k, m) = sound in
      elim (Bool-cases (is_empty o.lsa.root)) [
        | inl q ↦ rw q (drop_ref-Keeps true ref acc find)
        | inr q ↦
            elim (Bool-cases (ltb 1048576 ((to_size rib.size + o.lsa.size) % (size_max + 1)))) [
              | inl r ↦ rw (q, r) (drop_ref-Keeps false ref acc find)
              | inr r ↦ rw (q, r) (keep_lsa-Keeps mem ref acc sound find (ground arith))
            ]
      ]
