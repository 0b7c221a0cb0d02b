-- ===== src/Mmdb/Tree/Safe.antt =====
-- Lookups read only mapped bytes.
use qladder.Prelude.{
  ℕ, zero, suc, ◌+◌, ◌-◌, ◌*◌, ◌/◌, ◌^◌, ◌≤◌, ◌<◌, ◌≡◌, ◌⊎◌, refl, List, [], ◌∷◌, Bool, u32, ltb,
  ◌==◌, if◌then◌else◌, length, arith, Bool-cases, inl, inr,
}
use qladder.Mmdb.{Error, ok, error, at, IsDefined}
use qladder.Mmdb.Tree.{
  Mmdb, LookupResult, child, read_record, right_record_offset, address_bit, walk, after_child,
  maybe_populate_result, record_type-cases,
}

-- What `MMDB_open` has checked, as far as a lookup relies on it.
pub record IsOpen (m : Mmdb) : Type 0 where
  pub size :
      (m.full_record_byte_size ≡ 6) ⊎ (m.full_record_byte_size ≡ 7) ⊎ (m.full_record_byte_size ≡ 8)
  pub mapped : m.data_section ≤ length m.file_content
  pub bits : m.depth ≡ (if m.ip_version == 4 then 32 else 128)
  pub start : m.start_netmask ≤ 96

pub at-of_lt : (mem : List ℕ) (i : ℕ) → i < length mem → (b : ℕ) × (at mem i ≡ ok b)
unfolding at
at-of_lt [] i h = absurd (omega arith)
at-of_lt (x ∷ r) zero h = (x, refl)
at-of_lt (x ∷ r) (suc i) h = at-of_lt r i (omega arith)

pub address_bit-ok :
    (address : List ℕ) (i : ℕ)
    → i / 8 < length address
    → (b : Bool) × (address_bit address i ≡ ok b)
unfolding address_bit
address_bit-ok address i h = rw (at-of_lt address (i / 2 ^ 3) h).1 (_, refl)

module _ (m : Mmdb) (o : IsOpen m) where
  -- A record whose node ends within the mapped bytes is read.
  pub read_record-ok :
      (right : Bool) (p : ℕ)
      → p + (if m.full_record_byte_size == 6 then 3 else 4) ≤ length m.file_content
      → (v : ℕ) × (read_record m right p ≡ ok v)
  unfolding read_record
  read_record-ok right p h =
      let e0 = at-of_lt m.file_content p (ground arith) in
      let e1 = at-of_lt m.file_content (p + 1) (ground arith) in
      let e2 = at-of_lt m.file_content (p + 2) (ground arith) in
      elim (Bool-cases (m.full_record_byte_size == 6)) [
        | inl six ↦ rw (six, e0.1, e1.1, e2.1) (_, refl)
        | inr other ↦
            let e3 = at-of_lt m.file_content (p + 3) (ground arith) in
            rw (other, e0.1, e1.1, e2.1, e3.1) (_, refl)
      ]

  pub child-cases :
      (value : ℕ) (right : Bool)
      → (child m value right ≡ error Error.corrupt_search_tree)
        ⊎ ((v : ℕ) × (child m value right ≡ ok v))
  unfolding child
  child-cases value right =
      let p : ℕ = u32 (value * m.full_record_byte_size) in
      elim (Bool-cases (ltb m.data_section (p + m.full_record_byte_size))) [
        | inl beyond ↦ inl (rw beyond refl)
        | inr within ↦ inr (
            rw within (
              read_record-ok right _
                (unfold right_record_offset in ground (arith, o.size, o.mapped))))
      ]

  -- A lookup reads only mapped bytes and the address, and ends in a result or an error.
  pub walk-IsDefined :
      (address : List ℕ) (c value : ℕ) (result : LookupResult)
      → m.depth ≤ 8 * length address
      → c ≤ m.depth
      → IsDefined (walk m address c value result)
  unfolding walk after_child maybe_populate_result
  walk-IsDefined address zero value result h k = tt
  walk-IsDefined address (suc current_bit) value result h k =
      let bit = address_bit-ok address (m.depth - 1 - current_bit) (omega arith) in
      rw bit.1 (elim (child-cases value bit.0) [
        | inl corrupt ↦ rw corrupt tt
        | inr (value', e) ↦ rw e (elim (record_type-cases m value') [
          | inl t ↦
              rw (t, IsDefined) (walk-IsDefined address current_bit value' result h (omega arith))
          | inr (inl t) ↦ rw (t, IsDefined) tt
          | inr (inr (inl t)) ↦ rw (t, IsDefined) tt
          | inr (inr (inr t)) ↦ rw (t, IsDefined) tt
        ])
      ])
