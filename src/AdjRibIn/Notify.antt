-- ===== src/AdjRibIn/Notify.antt =====
-- notify and the deletion of an advertisement keep the account of sizes.
use dvpn.Base.{
  ℕ, ◌+◌, ◌-◌, ◌≤◌, ◌≡◌, refl, ap, ◌∙◌, true, false, ◌==◌, ◌++◌, length, Option, none, some, Result,
  ok, err, aborted, fault, stuck, arith, Bool-cases, inl, inr,
}
use dvpn.Bytes.{size_max}
use dvpn.Avl.Order.{Each}
use dvpn.Lsa.Types.{AttrTree, empty, branch, node_id_len}
use dvpn.Lsa.Platform.{Platform}
use dvpn.Lsa.Totals.{IsCounted, tree_total}
use dvpn.Lsa.Free.{all_filled, attr_tree_free-tree_total}
use dvpn.Lsa.Build.{free_root}
use dvpn.Lsa.Insert.{attrs, IsKeyed}
use dvpn.Diff.Zero.{IsSmall}
use dvpn.AdjRibIn.Accept.{Crypto, Ends, accept}
use dvpn.AdjRibIn.Settled.{Settles, accept-Settles}
use dvpn.AdjRibIn.Rib.{
  Obj, AdjRibIn, put_obj, set_count, size_with, size_without, event, tell, mapped, notify, pointer,
}

-- An advertisement as it comes from the reader: it counts its attributes, its message fits a buffer of
-- 65536 bytes, it is in order, no nested set in it is empty, and its attributes can be compared.
abbrev pub Sound : Obj → Type 0
Sound o =
    IsCounted o.lsa
    × (length o.lsa.id ≡ node_id_len)
    × (o.lsa.size ≤ 1048576)
    × (all_filled true o.lsa.root ≡ true)
    × IsKeyed o.lsa.root
    × Each IsSmall (attrs o.lsa.root)

free_root-ok :
    (t : AttrTree) (size : ℕ)
    → all_filled true t ≡ true
    → tree_total t ≤ size
    → size ≤ size_max
    → free_root t size ≡ ok (size - tree_total t)
unfolding free_root all_filled tree_total
free_root-ok empty size f h k = ap ok (omega arith)
free_root-ok (branch l a r) size f h k =
    attr_tree_free-tree_total false (branch l a r) size h k ∙ rw f refl

-- lsa_put of a sound advertisement returns.
pub put_obj-ok : (counts : ℕ → ℕ) (o : Obj) → Sound o → (c : ℕ → ℕ) × (put_obj counts o ≡ ok c)
unfolding put_obj
put_obj-ok counts o (c, i, s, f, k, m) = elim (Bool-cases (counts o.addr == 1)) [
  | inl e ↦ (
    set_count counts o.addr 0,
    rw e (rw (free_root-ok o.lsa.root o.lsa.size f (omega arith) (omega arith)) refl),
  )
  | inr e ↦ (set_count counts o.addr (counts o.addr - 1), rw e refl)
]

abbrev pub worth : Result (Unit {0}) → ℕ → ℕ
worth (ok u) n = n
worth _ n = 0

abbrev pub returned : Result (Unit {0}) → Obj → Option Obj
returned (ok u) o = some o
returned _ o = none

module _ (p : Platform) (crypto : Crypto) (ends : Ends) where
  -- What an advertisement adds to the size: its own size if it is accepted.
  abbrev pub weight : Obj → ℕ
  weight o = worth (accept p crypto ends o.lsa) o.lsa.size

  abbrev pub weight_of : Option Obj → ℕ
  weight_of none = 0
  weight_of (some o) = weight o

  abbrev pub SoundOption : Option Obj → Type 0
  SoundOption none = Unit
  SoundOption (some o) = Sound o

  abbrev pub kept : Option Obj → Option Obj
  kept none = none
  kept (some o) = returned (accept p crypto ends o.lsa) o

  pub weight-le : (o : Obj) → weight o ≤ o.lsa.size
  weight-le o = by_result (accept p crypto ends o.lsa)
    where
      by_result : (r : Result (Unit {0})) → worth r o.lsa.size ≤ o.lsa.size
      by_result (ok u) = omega arith
      by_result err = omega arith
      by_result aborted = omega arith
      by_result fault = omega arith
      by_result stuck = omega arith

  pointer-returned : (o : Obj) (r : Result (Unit {0})) → Settles r → pointer o r ≡ ok (returned r o)
  unfolding pointer
  pointer-returned o (ok u) s = refl
  pointer-returned o err s = refl
  pointer-returned o aborted s = elim s [ ]
  pointer-returned o fault s = elim s [ ]
  pointer-returned o stuck s = elim s [ ]

  mapped-kept :
      (rib : AdjRibIn) (o : Option Obj)
      → rib.ends ≡ ends
      → SoundOption o
      → mapped p crypto rib o ≡ ok (kept o)
  unfolding mapped
  mapped-kept rib none e s = refl
  mapped-kept rib (some o) e (c, i, s, f, k, m) = rw e (
      pointer-returned o (accept p crypto ends o.lsa)
        (accept-Settles p crypto ends o.lsa c i (omega arith)))

  size_without-kept :
      (size : ℕ) (o : Option Obj)
      → weight_of o ≤ size
      → size ≤ 1048576
      → size_without size (kept o) ≡ size - weight_of o
  size_without-kept size none h k = omega arith
  size_without-kept size (some o) h k = by_result (accept p crypto ends o.lsa) h
    where
      by_result :
          (r : Result (Unit {0}))
          → worth r o.lsa.size ≤ size
          → size_without size (returned r o) ≡ size - worth r o.lsa.size
      by_result (ok u) h = omega arith
      by_result err h = omega arith
      by_result aborted h = omega arith
      by_result fault h = omega arith
      by_result stuck h = omega arith

  size_with-kept :
      (size : ℕ) (o : Option Obj)
      → size + weight_of o ≤ 2097152
      → size_with size (kept o) ≡ size + weight_of o
  size_with-kept size none h = omega arith
  size_with-kept size (some o) h = by_result (accept p crypto ends o.lsa) h
    where
      by_result :
          (r : Result (Unit {0}))
          → size + worth r o.lsa.size ≤ 2097152
          → size_with size (returned r o) ≡ size + worth r o.lsa.size
      by_result (ok u) h = omega arith
      by_result err h = omega arith
      by_result aborted h = omega arith
      by_result fault h = omega arith
      by_result stuck h = omega arith

  abbrev pub notified : AdjRibIn → Option Obj → Option Obj → AdjRibIn
  notified rib old new = record rib {
    size = rib.size - weight_of old + weight_of new;
    calls = rib.calls ++ tell rib.listeners (event (kept old) (kept new));
  }

  -- notify returns, and moves the size by what was and what is accepted.
  pub notify-size :
      (rib : AdjRibIn) (old new : Option Obj)
      → rib.ends ≡ ends
      → SoundOption old
      → SoundOption new
      → weight_of old ≤ rib.size
      → rib.size ≤ 1048576
      → weight_of new ≤ 1048576
      → notify p crypto rib old new ≡ ok (notified rib old new)
  unfolding notify
  notify-size rib old new e s t h k l =
      rw (mapped-kept rib old e s, mapped-kept rib new e t)
        (rw (size_without-kept rib.size old h k)
          (rw (size_with-kept (rib.size - weight_of old) new (omega arith)) refl))
