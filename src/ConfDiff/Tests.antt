-- ===== src/ConfDiff/Tests.antt =====
-- An entry with another cost.
use dvpn.Base.{◌≡◌, refl, true, false, [], ◌∷◌, ◌++◌, aborted, fault}
use dvpn.Avl.Walk.{leaf, node, in_order}
use dvpn.Lsa.Platform.{lp64}
use dvpn.ConfDiff.Entries.{
  any, customer, compare_connect_entries, compare_listen_entries, ConnectEntry, ListenEntry, Sides,
  removed, started, head_or, tail_of, cce_mod, cle_mod, same_connect_entry, same_listen_entry,
}
use dvpn.ConfDiff.Swap.{Leaves, cce_mod-Between, cle_mod_fault}

abbrev old_entry : ConnectEntry
old_entry = record {
  name = 97 ∷ [];
  hostname = 98 ∷ [];
  port = 49 ∷ [];
  fp_type = any;
  fingerprint = [];
  peer_type = customer;
  tunitf = 116 ∷ [];
  cost = 1;
}

abbrev new_entry : ConnectEntry
new_entry = record old_entry { cost = 2 }

abbrev sides : Sides ConnectEntry
sides = record {
  conf = node leaf old_entry leaf;
  newconf = node leaf new_entry leaf;
  failures = true ∷ false ∷ [];
  calls = [];
}

entry_changed : same_connect_entry old_entry new_entry ≡ false
unfolding same_connect_entry
entry_changed = refl

conf_in_order : in_order sides.conf ≡ [] ++ old_entry ∷ []
unfolding in_order
conf_in_order = refl

newconf_in_order : in_order sides.newconf ≡ [] ++ new_entry ∷ []
unfolding in_order
newconf_in_order = refl

cce_mod-Between_example :
    (head_or sides.failures ≡ false
      → Leaves
          (cce_mod lp64 old_entry new_entry sides)
          (new_entry ∷ [])
          (old_entry ∷ [])
          (removed old_entry ∷ started new_entry false ∷ []))
    × (head_or sides.failures ≡ true
        → head_or (tail_of sides.failures) ≡ false
        → Leaves
            (cce_mod lp64 old_entry new_entry sides)
            (old_entry ∷ [])
            (new_entry ∷ [])
            (removed old_entry ∷ started new_entry true ∷ started old_entry false ∷ []))
    × (head_or sides.failures ≡ true
        → head_or (tail_of sides.failures) ≡ true
        → cce_mod lp64 old_entry new_entry sides ≡ aborted)
unfolding compare_connect_entries
cce_mod-Between_example =
    cce_mod-Between lp64 [] [] [] [] old_entry new_entry refl (tt, tt) (tt, tt) entry_changed sides
      conf_in_order newconf_in_order

abbrev old_listen : ListenEntry
old_listen = record {
  name = 97 ∷ [];
  fp_type = any;
  fingerprint = [];
  peer_type = customer;
  tunitf = 116 ∷ [];
  cost = 1;
  conn_limit = 1;
}

abbrev new_listen : ListenEntry
new_listen = record old_listen { conn_limit = 2 }

abbrev listen_sides : Sides ListenEntry
listen_sides = record {
  conf = node leaf old_listen leaf;
  newconf = node leaf new_listen leaf;
  failures = true ∷ [];
  calls = [];
}

listen_changed : same_listen_entry old_listen new_listen ≡ false
unfolding same_listen_entry
listen_changed = refl

listen_in_order : in_order listen_sides.conf ≡ [] ++ old_listen ∷ []
unfolding in_order
listen_in_order = refl

newconf_listen_lem : in_order listen_sides.newconf ≡ [] ++ new_listen ∷ []
unfolding in_order
newconf_listen_lem = refl

cle_mod_fault_example :
    (head_or listen_sides.failures ≡ false
      → Leaves
          (cle_mod lp64 old_listen new_listen listen_sides)
          (new_listen ∷ [])
          (old_listen ∷ [])
          (removed old_listen ∷ started new_listen false ∷ []))
    × (head_or listen_sides.failures ≡ true
        → cle_mod lp64 old_listen new_listen listen_sides ≡ fault)
unfolding compare_listen_entries
cle_mod_fault_example =
    cle_mod_fault lp64 [] [] [] [] old_listen new_listen refl (tt, tt) (tt, tt) listen_changed
      listen_sides listen_in_order newconf_listen_lem
