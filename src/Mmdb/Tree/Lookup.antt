-- ===== src/Mmdb/Tree/Lookup.antt =====
-- `find_address_in_search_tree` as a whole, the jump to the start node of the IPv4 addresses included.
use qladder.Prelude.{
  ℕ, zero, suc, ◌-◌, ◌*◌, ◌≤◌, ◌≡◌, ◌⊎◌, refl, List, true, false, sym, subst, sub16, leb, ◌==◌,
  length, arith, Bool-cases, inl, inr,
}
use qladder.Mmdb.{Error, ok, error, >>=-inv, IsDefined, >>=-IsDefined}
use qladder.Mmdb.Tree.{
  Mmdb, LookupResult, Family, af_inet, af_inet6, child, right_record_offset, walk,
  maybe_populate_result, record_type-cases, ipv4_start_loop, find_ipv4_start_node,
  find_address_in_search_tree, after_start, with_db,
}
use qladder.Mmdb.Tree.Safe.{IsOpen, child-cases, walk-IsDefined}
use qladder.Mmdb.Tree.Bits.{Agree, Agree-address_bit}
use qladder.Mmdb.Tree.Prefix.{TestsAlike, walk-TestsAlike}

start_loop-suc :
    (m : Mmdb) (left value v : ℕ)
    → child m value false ≡ ok v
    → leb m.node_count v ≡ false
    → ipv4_start_loop m (suc left) value ≡ ipv4_start_loop m left v
unfolding ipv4_start_loop
start_loop-suc m left value v e node = ground arith

module _ (m : Mmdb) (o : IsOpen m) where
  start_loop-cases :
      (left value : ℕ)
      → (ipv4_start_loop m left value ≡ error Error.corrupt_search_tree)
        ⊎ ((n : ℕ × ℕ) × (ipv4_start_loop m left value ≡ ok n) × (n.1 ≤ 96))
  start_loop-cases zero value = inr ((value, 96), unfold ipv4_start_loop in refl, omega arith)
  start_loop-cases (suc left) value = elim (child-cases m o value false) [
    | inl e ↦ inl (unfold ipv4_start_loop in rw e refl)
    | inr (v, e) ↦ elim (Bool-cases (leb m.node_count v)) [
      | inl past ↦ inr ((v, 96 - suc left), unfold ipv4_start_loop in ground arith, omega arith)
      | inr node ↦ rw (start_loop-suc m left value v e node) (start_loop-cases left v)
    ]
  ]

  -- On a database as `MMDB_open` leaves it the start node is found or the tree is corrupt; in the
  -- former case the database stays as `MMDB_open` left it but
  -- for the two fields that remember the node.
  pub find_ipv4_start_node-cases :
      (find_ipv4_start_node m ≡ error Error.corrupt_search_tree)
      ⊎ ((m' : Mmdb) × (find_ipv4_start_node m ≡ ok m')
          × IsOpen m'
          × (m'.ip_version ≡ m.ip_version)
          × (m'.depth ≡ m.depth))
  unfolding find_ipv4_start_node
  find_ipv4_start_node-cases = elim (Bool-cases (m.start_node_value == 0)) [
    | inl fresh ↦ elim (start_loop-cases 96 0) [
      | inl e ↦ inl (rw (fresh, e) refl)
      | inr (n, e, small) ↦ inr (
        record m { start_node_value = n.0; start_netmask = n.1 },
        rw (fresh, e) refl,
        record { size = o.size; mapped = o.mapped; bits = o.bits; start = small },
        refl,
        refl,
      )
    ]
    | inr known ↦ inr (m, rw known refl, o, refl, refl)
  ]

module _ (m : Mmdb) (o : IsOpen m) (a : List ℕ) (result : LookupResult) where
  with_db-IsDefined :
      (c value : ℕ)
      → m.depth ≤ 8 * length a
      → c ≤ m.depth
      → IsDefined (with_db m (walk m a c value result))
  with_db-IsDefined c value h k =
      >>=-IsDefined {B = LookupResult × Mmdb} (walk m a c value result) (λ r. ok (r, m))
        (walk-IsDefined m o a c value result h k) (λ r e. tt)

  after_start-IsDefined :
      m.ip_version ≡ 6 → m.depth ≤ 8 * length a → IsDefined (after_start m a result)
  unfolding after_start maybe_populate_result
  after_start-IsDefined v6 h =
      let c : ℕ = suc (sub16 (sub16 m.depth 1) m.start_netmask) in
      let low : c ≤ m.depth = ground (arith, o.bits, o.start) in
      elim (record_type-cases m m.start_node_value) [
        | inl t ↦ rw (t, IsDefined) (with_db-IsDefined c m.start_node_value h low)
        | inr (inl t) ↦ rw (t, IsDefined) tt
        | inr (inr (inl t)) ↦ rw (t, IsDefined) tt
        | inr (inr (inr t)) ↦ rw (t, IsDefined) tt
      ]

module _ (m : Mmdb) (o : IsOpen m) (a b : List ℕ) (result r : LookupResult) (m' : Mmdb)
    (same : TestsAlike r.netmask a b) where
  with_db-TestsAlike :
      (c value : ℕ)
      → c ≤ m.depth
      → with_db m (walk m a c value result) ≡ ok (r, m')
      → with_db m (walk m b c value result) ≡ ok (r, m')
  with_db-TestsAlike c value k e =
      let (s, go, eq) =
        >>=-inv {B = LookupResult × Mmdb} (λ x. ok (x, m)) (walk m a c value result) e in
      let sr : s ≡ r = cc in
      let agree : TestsAlike s.netmask a b =
        subst (λ (x : LookupResult). TestsAlike x.netmask a b) (sym sr) same in
      let there = walk-TestsAlike m a b c value result s (ground (arith, o.bits)) k go agree in
      rw there eq

  after_start-TestsAlike :
      m.ip_version ≡ 6 → after_start m a result ≡ ok (r, m') → after_start m b result ≡ ok (r, m')
  unfolding after_start maybe_populate_result
  after_start-TestsAlike v6 e =
      let c : ℕ = suc (sub16 (sub16 m.depth 1) m.start_netmask) in
      let low : c ≤ m.depth = ground (arith, o.bits, o.start) in
      elim (record_type-cases m m.start_node_value) [
        | inl t ↦
            rw (t, after_start)
              (with_db-TestsAlike c m.start_node_value low (rw (t, after_start) at e))
        | inr (inl t) ↦ rw (t, after_start) (rw (t, after_start) at e)
        | inr (inr (inl t)) ↦ rw (t, after_start) (rw (t, after_start) at e)
        | inr (inr (inr t)) ↦ rw (t, after_start) (rw (t, after_start) at e)
      ]

eq6 : (m : Mmdb) → (m.ip_version == 6) ≡ true → m.ip_version ≡ 6
eq6 m h = ground arith

root_low : (m : Mmdb) → IsOpen m → suc (sub16 m.depth 1) ≤ m.depth
root_low m o = ground (arith, o.bits)

module _ (m : Mmdb) (o : IsOpen m) (a : List ℕ) (result : LookupResult) where
  -- On a well-formed database, as `MMDB_open` leaves it when the data section lies inside the file,
  -- that is, when the tree's size has not wrapped around, for an address with at least as many bits as
  -- the database's, no lookup reads outside the mapped file, whatever the file holds, or runs on: it
  -- ends in a result or in an error code.
  pub find_address-IsDefined :
      (family : Family)
      → m.depth ≤ 8 * length a
      → IsDefined (find_address_in_search_tree m a family result)
  unfolding find_address_in_search_tree
  find_address-IsDefined af_inet6 h = elim (Bool-cases (right_record_offset m == 0)) [
    | inl z ↦ rw (z, IsDefined) tt
    | inr nz ↦ rw (nz, IsDefined) (with_db-IsDefined m o a result _ 0 h (root_low m o))
  ]
  find_address-IsDefined af_inet h = elim (Bool-cases (right_record_offset m == 0)) [
    | inl z ↦ rw (z, IsDefined) tt
    | inr nz ↦ elim (Bool-cases (m.ip_version == 6)) [
      | inl v6 ↦ elim (find_ipv4_start_node-cases m o) [
        | inl e ↦ rw (nz, v6, e) tt
        | inr (m1, e, o1, same, deep) ↦
            rw (nz, v6, e)
              (after_start-IsDefined m1 o1 a result (omega (arith, same, eq6 m v6))
                (omega (arith, h, deep)))
      ]
      | inr v4 ↦ rw (nz, v4, IsDefined) (with_db-IsDefined m o a result _ 0 h (root_low m o))
    ]
  ]

  -- One answer for a network. On a well-formed database, as `MMDB_open` leaves it when the data
  -- section lies inside the file, that is, when the tree's size has not wrapped around, an address
  -- that has its first `netmask` bits in common with one of the same length whose lookup gave a result
  -- gets the same result.
  pub find_address-Agree :
      (b : List ℕ) (family : Family) (r : LookupResult) (m' : Mmdb)
      → find_address_in_search_tree m a family result ≡ ok (r, m')
      → Agree r.netmask a b
      → find_address_in_search_tree m b family result ≡ ok (r, m')
  unfolding find_address_in_search_tree
  find_address-Agree b af_inet6 r m' e same = elim (Bool-cases (right_record_offset m == 0)) [
    | inl z ↦ absurd (ground arith)
    | inr nz ↦ rw nz (
        with_db-TestsAlike m o a b result r m' (Agree-address_bit r.netmask a b same) _ 0
          (root_low m o) (rw nz at e))
  ]
  find_address-Agree b af_inet r m' e same = elim (Bool-cases (right_record_offset m == 0)) [
    | inl z ↦ absurd (ground arith)
    | inr nz ↦ elim (Bool-cases (m.ip_version == 6)) [
      | inl v6 ↦ elim (find_ipv4_start_node-cases m o) [
        | inl f ↦ absurd (ground arith)
        | inr (m1, f, o1, kept, deep) ↦
            rw (nz, v6, f)
              (after_start-TestsAlike m1 o1 a b result r m' (Agree-address_bit r.netmask a b same)
                (omega (arith, kept, eq6 m v6)) (rw (nz, v6, f) at e))
      ]
      | inr v4 ↦
          rw (nz, v4)
            (with_db-TestsAlike m o a b result r m' (Agree-address_bit r.netmask a b same) _ 0
              (root_low m o) (rw (nz, v4) at e))
    ]
  ]
