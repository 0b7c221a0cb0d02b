-- ===== src/Mmdb/Tree/Prefix.antt =====
-- A lookup answers for a whole network: what the netmask of a result means.
use qladder.Prelude.{
  ℕ, zero, suc, ◌-◌, ◌^◌, ◌≤◌, ◌<◌, ◌≡◌, ◌⊎◌, refl, List, Bool, true, false, sym, ◌∙◌, sub16, arith,
  inl, inr,
}
use qladder.Mmdb.{Outcome, ok, >>=-inv}
use qladder.Mmdb.Tree.{
  Mmdb, LookupResult, search_node, empty_record, data_record, child, address_bit, walk, after_child,
  maybe_populate_result, record_type, record_type-cases,
}

-- The result that a record of the tree stands for, found at `current_bit`.
abbrev Settles : Mmdb → ℕ → ℕ → LookupResult → Type 0
Settles m v current_bit r =
    (r.netmask ≡ sub16 m.depth current_bit)
    × (((record_type m v ≡ data_record) × (r.found_entry ≡ true))
        ⊎ ((record_type m v ≡ empty_record) × (r.found_entry ≡ false)))

after_child-inv :
    (m : Mmdb) (current_bit v : ℕ) (result r : LookupResult) (rest : Outcome LookupResult)
    → after_child m current_bit v result rest ≡ ok r
    → (record_type m v ≡ search_node) × (rest ≡ ok r) ⊎ Settles m v current_bit r
unfolding after_child maybe_populate_result
after_child-inv m current_bit v result r rest e = elim (record_type-cases m v) [
  | inl t ↦ ground arith
  | inr (inl t) ↦ ground arith
  | inr (inr (inl t)) ↦ ground arith
  | inr (inr (inr t)) ↦ ground arith
]

module _ (m : Mmdb) (address : List ℕ) where
  -- One step of a walk that succeeds: a bit, a child, and then a result or the next node.
  pub walk-inv :
      (current_bit value : ℕ) (result r : LookupResult)
      → walk m address (suc current_bit) value result ≡ ok r
      → (right : Bool) × (address_bit address (m.depth - 1 - current_bit) ≡ ok right)
        × ((v : ℕ) × (child m value right ≡ ok v)
            × ((record_type m v ≡ search_node) × (walk m address current_bit v result ≡ ok r)
                ⊎ Settles m v current_bit r))
  unfolding walk
  walk-inv current_bit value result r e =
      let step1 = >>=-inv _ (address_bit address (m.depth - 1 - current_bit)) e in
      let step2 = >>=-inv _ (child m value step1.0) step1.2 in
      (
        step1.0,
        step1.1,
        (step2.0, step2.1, after_child-inv m current_bit step2.0 result r _ step2.2),
      )

  -- The netmask counts the bits that the walk has read.
  walk-netmask :
      (c value : ℕ) (result r : LookupResult)
      → walk m address c value result ≡ ok r
      → m.depth < 2 ^ 16
      → c ≤ m.depth
      → (m.depth - c < r.netmask) × (r.netmask ≤ m.depth)
  walk-netmask zero value result r e d k = absurd (unfold walk in cc)
  walk-netmask (suc current_bit) value result r e d k =
      let (right, _, (v, _, next)) = walk-inv current_bit value result r e in
      elim next [
        | inl (t, rest) ↦ omega (arith, walk-netmask current_bit v result r rest d (omega arith))
        | inr s ↦ omega (arith, s.0)
      ]

after_child_mono :
    (m : Mmdb) (current_bit v : ℕ) (result r : LookupResult) (rest rest' : Outcome LookupResult)
    → (rest ≡ ok r → rest' ≡ ok r)
    → after_child m current_bit v result rest ≡ ok r
    → after_child m current_bit v result rest' ≡ ok r
unfolding after_child maybe_populate_result
after_child_mono m current_bit v result r rest rest' k e = elim (record_type-cases m v) [
  | inl t ↦ ground arith
  | inr (inl t) ↦ ground arith
  | inr (inr (inl t)) ↦ ground arith
  | inr (inr (inr t)) ↦ ground arith
]

-- A lookup tests the first `n` bits alike.
abbrev pub TestsAlike : ℕ → List ℕ → List ℕ → Type 0
TestsAlike n a b = (i : ℕ) → i < n → address_bit a i ≡ address_bit b i

walk-step :
    (m : Mmdb) (a : List ℕ) (current_bit value : ℕ) (right : Bool) (v : ℕ) (result : LookupResult)
    → address_bit a (m.depth - 1 - current_bit) ≡ ok right
    → child m value right ≡ ok v
    → walk m a (suc current_bit) value result
      ≡ after_child m current_bit v result (walk m a current_bit v result)
unfolding walk
walk-step m a current_bit value right v result bit go = rw (bit, go) refl

module _ (m : Mmdb) (a b : List ℕ) where
  pub walk-TestsAlike :
      (c value : ℕ) (result r : LookupResult)
      → m.depth < 2 ^ 16
      → c ≤ m.depth
      → walk m a c value result ≡ ok r
      → TestsAlike r.netmask a b
      → walk m b c value result ≡ ok r
  walk-TestsAlike zero value result r d k e same = absurd (unfold walk in cc)
  walk-TestsAlike (suc current_bit) value result r d k e same =
      let (right, bit, (v, go, next)) = walk-inv m a current_bit value result r e in
      let bounds = walk-netmask m a (suc current_bit) value result r e d k in
      let bit' : address_bit b (m.depth - 1 - current_bit) ≡ ok right =
        sym (same (m.depth - 1 - current_bit) (omega (arith, bounds))) ∙ bit in
      let tail = λ (x : walk m a current_bit v result ≡ ok r).
        walk-TestsAlike current_bit v result r d (omega arith) x same in
      walk-step m b current_bit value right v result bit' go
      ∙ after_child_mono m current_bit v result r _ _ tail
          (sym (walk-step m a current_bit value right v result bit go) ∙ e)
