-- ===== src/ConfDiff/Swap.antt =====
-- Replacing an entry that has changed, and going back where the new one cannot be started.
use dvpn.Base.{
  ℕ, true, false, List, [], ◌∷◌, ◌++◌, ◌≡◌, refl, sym, ap, ◌∙◌, subst, Result, ok, aborted, fault,
  Ordering,
}
use dvpn.Bytes.{opposite}
use dvpn.Bytes.Lex.{lex, lex-eq, lex-swap, lex_trans}
use dvpn.Avl.Order.{IsOrder, first_eq, Sorted, insert_in, erase_in}
use dvpn.Avl.Insert.{cmp-IsProbe, cmp_self}
use dvpn.Avl.Middle.{
  Sorted-in_place, Sorted-without, erase_in_place, first_eq_in_place, first_eq_without,
  insert_in_place,
}
use dvpn.Avl.Walk.{Tree, in_order, walk-first_eq}
use dvpn.Lsa.Platform.{Platform}
use dvpn.ConfDiff.Entries.{
  ConnectEntry, ListenEntry, compare_connect_entries, compare_listen_entries, same_connect_entry,
  same_listen_entry, Call, started, removed, Sides, head_or, tail_of, put_entry, take_entry,
  start_entry, take_over, give_back, remove_entry, restarted, cce_mod, cle_mod,
}

-- It returns with these entries in the running and in the new configuration, after these calls.
abbrev pub Leaves : {E : Type 0} → Result (Sides E) → List E → List E → List (Call E) → Type 0
Leaves {E} r l m calls =
    (s' : Sides E) × (r ≡ ok s')
    × (in_order s'.conf ≡ l)
    × (in_order s'.newconf ≡ m)
    × (s'.calls ≡ calls)

module _ (p : Platform) {E : Type 0} (cmp : E → E → Ordering) (order : IsOrder cmp) where
  module _ (xs ys : List E) (d c : E) (e : cmp c d ≡ Ordering.eq)
      (s : Sorted cmp (xs ++ d ∷ ys)) where
    take_entry_at :
        (t : Tree E)
        → in_order t ≡ xs ++ d ∷ ys
        → (t' : Tree E) × (take_entry p cmp c t ≡ ok t') × (in_order t' ≡ xs ++ ys)
    unfolding take_entry
    take_entry_at t at =
        let s' = subst (Sorted cmp) (sym at) s in
        let found =
          walk-first_eq cmp (cmp c) t (cmp-IsProbe cmp order c) s'
          ∙ ap (first_eq (cmp c)) at
          ∙ first_eq_in_place cmp order d c e xs ys s in
        (
          p.trees.delete E cmp c t,
          rw found refl,
          p.trees.in_order-delete E cmp order c t s'
              ∙ ap (erase_in (cmp c)) at
              ∙ erase_in_place cmp order d c e xs ys s,
        )

    take_entry_absent : (t : Tree E) → in_order t ≡ xs ++ ys → take_entry p cmp c t ≡ fault
    unfolding take_entry
    take_entry_absent t at =
        let s' = subst (Sorted cmp) (sym at) (Sorted-without cmp order d c e xs ys s) in
        let found =
          walk-first_eq cmp (cmp c) t (cmp-IsProbe cmp order c) s'
          ∙ ap (first_eq (cmp c)) at
          ∙ first_eq_without cmp order d c e xs ys s in
        rw found refl

    put_entry_at :
        (t : Tree E) → in_order t ≡ xs ++ ys → in_order (put_entry p cmp c t) ≡ xs ++ c ∷ ys
    unfolding put_entry
    put_entry_at t at =
        let s' = subst (Sorted cmp) (sym at) (Sorted-without cmp order d c e xs ys s) in
        let free = ap (first_eq (cmp c)) at ∙ first_eq_without cmp order d c e xs ys s in
        let (t', ins, seen) = p.trees.insert_fresh E cmp order c t s' free in
        rw ins (seen ∙ ap (insert_in cmp c) at ∙ insert_in_place cmp order d c e xs ys s)

  -- `a` runs between `xs` and `ys`, and `b` is new between `us` and `vs`, under the same name.
  module _ (xs ys us vs : List E) (a b : E) (e : cmp b a ≡ Ordering.eq)
      (sa : Sorted cmp (xs ++ a ∷ ys)) (sb : Sorted cmp (us ++ b ∷ vs)) where
    abbrev pub Between : List E → List E → Sides E → Type 0
    Between l r s = (in_order s.conf ≡ l) × (in_order s.newconf ≡ r)

    e' : cmp a b ≡ Ordering.eq
    e' = order.swap b a ∙ ap opposite e

    swap_in :
        (s : Sides E)
        → Between (xs ++ a ∷ ys) (us ++ b ∷ vs) s
        → (s₁ s' : Sides E) × (remove_entry p cmp a s ≡ ok s₁)
          × (take_over p cmp b s₁ ≡ ok s')
          × Between (xs ++ b ∷ ys) (us ++ vs) s'
          × (s'.calls ≡ s.calls ++ removed a ∷ [])
          × (s'.failures ≡ s.failures)
    unfolding remove_entry take_over
    swap_in s (at, new) =
        let (conf, run, left) = take_entry_at xs ys a a (cmp_self cmp order a) sa s.conf at in
        let (newconf, run', left') =
          take_entry_at us vs b b (cmp_self cmp order b) sb s.newconf new in
        let s₁ : Sides E = record s { conf = conf; calls = s.calls ++ removed a ∷ [] } in
        (
          s₁,
          record s₁ { conf = put_entry p cmp b conf; newconf = newconf },
          rw run refl,
          rw run' refl,
          (put_entry_at xs ys a b e sa conf left, left'),
          refl,
          refl,
        )

    go_back :
        (s : Sides E)
        → Between (xs ++ b ∷ ys) (us ++ vs) s
        → (s' : Sides E) × (give_back p cmp b s ≡ ok s')
          × Between (xs ++ ys) (us ++ b ∷ vs) s'
          × (s'.calls ≡ s.calls)
          × (s'.failures ≡ s.failures)
    unfolding give_back
    go_back s (at, new) =
        let sb' = Sorted-in_place cmp order a b e xs ys sa in
        let (conf, run, left) = take_entry_at xs ys b b (cmp_self cmp order b) sb' s.conf at in
        (
          record s { conf = conf; newconf = put_entry p cmp b s.newconf },
          rw run refl,
          (left, put_entry_at us vs b b (cmp_self cmp order b) sb s.newconf new),
          refl,
          refl,
        )

    -- What starting `a` again does.
    restart_again :
        (s : Sides E)
        → Between (xs ++ ys) (us ++ b ∷ vs) s
        → (head_or s.failures ≡ false
            → (s' : Sides E) × (restarted p cmp a (record s { conf = put_entry p cmp a s.conf })
                ≡ ok s')
              × Between (xs ++ a ∷ ys) (us ++ b ∷ vs) s'
              × (s'.calls ≡ s.calls ++ started a false ∷ []))
          × (head_or s.failures ≡ true
              → restarted p cmp a (record s { conf = put_entry p cmp a s.conf }) ≡ aborted)
    unfolding start_entry
    restart_again s (at, new) = (
      λ f. (
        record s {
          conf = put_entry p cmp a s.conf;
          failures = tail_of s.failures;
          calls = s.calls ++ started a (head_or s.failures) ∷ [];
        },
        rw f refl,
        (put_entry_at xs ys a a (cmp_self cmp order a) sa s.conf at, new),
        ap (λ q. s.calls ++ started a q ∷ []) f,
      ),
      λ f. rw f refl,
    )

lex_cmp-IsOrder : {E : Type 0} (name : E → List ℕ) → IsOrder (λ (a b : E). lex (name a) (name b))
unfolding lex
lex_cmp-IsOrder name = record {
  swap = λ a b. lex-swap (name a) (name b);
  trans = λ a b c. lex_trans (name a) (name b) (name c);
  same = λ a b c h. ap (λ n. lex n (name c)) (lex-eq (name a) (name b) h);
}

connect_entries-IsOrder : IsOrder compare_connect_entries
unfolding compare_connect_entries
connect_entries-IsOrder = lex_cmp-IsOrder (λ (a : ConnectEntry). a.name)

listen_entries-IsOrder : IsOrder compare_listen_entries
unfolding compare_listen_entries
listen_entries-IsOrder = lex_cmp-IsOrder (λ (a : ListenEntry). a.name)

module _ (p : Platform) where
  module _ (xs ys us vs : List ConnectEntry) (a b : ConnectEntry) where
    -- When a connect entry has changed, cce_mod stops it and starts the new one in its place, the old one
    -- going to the new configuration; if that fails, both configurations are as before, and the old entry
    -- has been started again; and if that fails too, it aborts.
    pub cce_mod-Between :
        compare_connect_entries b a ≡ Ordering.eq
        → Sorted compare_connect_entries (xs ++ a ∷ ys)
        → Sorted compare_connect_entries (us ++ b ∷ vs)
        → same_connect_entry a b ≡ false
        → (s : Sides ConnectEntry) → in_order s.conf ≡ xs ++ a ∷ ys
        → in_order s.newconf ≡ us ++ b ∷ vs
        → (head_or s.failures ≡ false
            → Leaves
                (cce_mod p a b s)
                (xs ++ b ∷ ys)
                (us ++ a ∷ vs)
                ((s.calls ++ removed a ∷ []) ++ started b false ∷ []))
          × (head_or s.failures ≡ true
              → head_or (tail_of s.failures) ≡ false
              → Leaves
                  (cce_mod p a b s)
                  (xs ++ a ∷ ys)
                  (us ++ b ∷ vs)
                  (((s.calls ++ removed a ∷ []) ++ started b true ∷ []) ++ started a false ∷ []))
          × (head_or s.failures ≡ true
              → head_or (tail_of s.failures) ≡ true
              → cce_mod p a b s ≡ aborted)
    unfolding cce_mod start_entry
    cce_mod-Between e sa sb changed s at new =
        let cmp = compare_connect_entries in
        let o = connect_entries-IsOrder in
        let (s₁, s₂, r₁, r₂, in_place, calls, fails) =
          swap_in p cmp o xs ys us vs a b e sa sb s (at, new) in
        let first = ap head_or fails in
        let s₃ : Sides ConnectEntry = record s₂ {
          failures = tail_of s₂.failures;
          calls = s₂.calls ++ started b true ∷ [];
        } in
        let (s₄, r₄, back, calls₄, fails₄) = go_back p cmp o xs ys us vs a b e sa sb s₃ in_place in
        let second = ap head_or fails₄ ∙ ap (λ l. head_or (tail_of l)) fails in
        let again = restart_again p cmp o xs ys us vs a b e sa sb s₄ back in
        (
          λ f. (
            record s₂ {
              failures = tail_of s₂.failures;
              calls = s₂.calls ++ started b false ∷ [];
              newconf = put_entry p cmp a s₂.newconf;
            },
            rw (changed, r₁, r₂, first ∙ f) refl,
            in_place.0,
            put_entry_at p cmp o us vs b a (o.swap b a ∙ ap opposite e) sb s₂.newconf in_place.1,
            ap (λ c. c ++ started b false ∷ []) calls,
          ),
          λ f g.
              let (s₅, r₅, place, calls₅) = again.0 (second ∙ g) in
              (
                s₅,
                rw (changed, r₁, r₂, first ∙ f, r₄) r₅,
                place.0,
                place.1,
                calls₅
                    ∙ ap (λ c. c ++ started a false ∷ [])
                        (calls₄ ∙ ap (λ c. c ++ started b true ∷ []) calls),
              ),
          λ f g. rw (changed, r₁, r₂, first ∙ f, r₄) (again.1 (second ∙ g)),
        )

  module _ (xs ys us vs : List ListenEntry) (a b : ListenEntry) where
    -- When a listen entry has changed, cle_mod stops it and starts the new one in its place, the old one
    -- going to the new configuration; but if that fails, it deletes the old entry, which is in neither
    -- tree any more, where cce_mod puts it back.
    pub cle_mod_fault :
        compare_listen_entries b a ≡ Ordering.eq
        → Sorted compare_listen_entries (xs ++ a ∷ ys)
        → Sorted compare_listen_entries (us ++ b ∷ vs)
        → same_listen_entry a b ≡ false
        → (s : Sides ListenEntry) → in_order s.conf ≡ xs ++ a ∷ ys
        → in_order s.newconf ≡ us ++ b ∷ vs
        → (head_or s.failures ≡ false
            → Leaves
                (cle_mod p a b s)
                (xs ++ b ∷ ys)
                (us ++ a ∷ vs)
                ((s.calls ++ removed a ∷ []) ++ started b false ∷ []))
          × (head_or s.failures ≡ true → cle_mod p a b s ≡ fault)
    unfolding cle_mod start_entry
    cle_mod_fault e sa sb changed s at new =
        let cmp = compare_listen_entries in
        let o = listen_entries-IsOrder in
        let (s₁, s₂, r₁, r₂, in_place, calls, fails) =
          swap_in p cmp o xs ys us vs a b e sa sb s (at, new) in
        let first = ap head_or fails in
        let s₃ : Sides ListenEntry = record s₂ {
          failures = tail_of s₂.failures;
          calls = s₂.calls ++ started b true ∷ [];
        } in
        let (s₄, r₄, back, calls₄, fails₄) = go_back p cmp o xs ys us vs a b e sa sb s₃ in_place in
        (
          λ f. (
            record s₂ {
              failures = tail_of s₂.failures;
              calls = s₂.calls ++ started b false ∷ [];
              newconf = put_entry p cmp a s₂.newconf;
            },
            rw (changed, r₁, r₂, first ∙ f) refl,
            in_place.0,
            put_entry_at p cmp o us vs b a (o.swap b a ∙ ap opposite e) sb s₂.newconf in_place.1,
            ap (λ c. c ++ started b false ∷ []) calls,
          ),
          λ f.
              rw
                (
                  changed,
                  r₁,
                  r₂,
                  first ∙ f,
                  r₄,
                  take_entry_absent p cmp o xs ys a a (cmp_self cmp o a) sa s₄.conf back.0,
                )
                refl,
        )
