-- ===== src/Mmdb/Decode/Bounds.antt =====
-- Decoding stays inside the data section and moves forward.
use qladder.Prelude.{
  ℕ, zero, suc, ◌+◌, ◌^◌, ◌≤◌, ◌<◌, ◌≡◌, ◌≢◌, ◌⊎◌, refl, List, [], Bool, true, false, ◌||◌, bit_and,
  u32, sub32, ltb, ◌==◌, if◌then◌else◌, ◌>>>◌, length, arith, inl, inr, Bool-cases,
}
use qladder.Mmdb.{Error, Outcome, ok, error, bytes_at}
use qladder.Mmdb.Tree.Safe.{at-of_lt}
use qladder.Mmdb.Decode.{
  EntryData, decode_type, decode_pointer, decode_size, decode_payload, decode_value, decode_one,
  decode_one_follow, pointer_of,
}

bytes_at-of_le :
    (mem : List ℕ) (offset n : ℕ)
    → offset + n ≤ length mem
    → (b : List ℕ) × (bytes_at mem offset n ≡ ok b)
unfolding bytes_at
bytes_at-of_le mem offset zero h = ([], refl)
bytes_at-of_le mem offset (suc n) h =
    let first = at-of_lt mem offset (omega arith) in
    let rest = bytes_at-of_le mem (offset + 1) n (omega arith) in rw (first.1, rest.1) (_, refl)

-- `x` is an error, or a pair whose second part is an offset between `low` and `high`.
abbrev pub Moves : ℕ → ℕ → Outcome (ℕ × ℕ) → Type 0
Moves low high x =
    (x ≡ error Error.invalid_data) ⊎ ((t : ℕ × ℕ) × (x ≡ ok t) × (low ≤ t.1) × (t.1 ≤ high))

-- `x` is an error, or an entry whose next offset lies between `low` and `high`.
abbrev pub Advances : ℕ → ℕ → Outcome EntryData → Type 0
Advances low high x =
    (x ≡ error Error.invalid_data)
    ⊎ ((e : EntryData) × (x ≡ ok e) × (low ≤ e.offset_to_next) × (e.offset_to_next ≤ high))

abbrev Settled : Outcome EntryData → Type 0
Settled x = (x ≡ error Error.invalid_data) ⊎ ((e : EntryData) × (x ≡ ok e))

bad : Settled (error Error.invalid_data)
bad = inl refl

good : {e : EntryData} → Settled (ok e)
good {e} = inr (e, refl)

pick : (c : Bool) {x y : Outcome EntryData} → Settled x → Settled y → Settled (if c then x else y)
pick true p q = p
pick false p q = q

module _ (mem : List ℕ) (big : 3 ≤ length mem) (small : length mem < 2 ^ 32) where
  decode_type-Moves :
      (ctrl offset : ℕ)
      → offset ≤ length mem
      → Moves offset (length mem) (decode_type mem ctrl offset)
  unfolding decode_type
  decode_type-Moves ctrl offset h = elim (Bool-cases (bit_and (ctrl >>> 5) 7 == 0)) [
    | inl ext ↦ elim (Bool-cases (ltb (sub32 (length mem) 1) offset)) [
      | inl past ↦ rw (ext, past) (inl refl)
      | inr within ↦
          let lt : offset < length mem = ground arith in
          let b = at-of_lt mem offset lt in
          rw (ext, within, b.1) (inr (_, refl, omega arith, omega arith))
    ]
    | inr plain ↦ rw plain (inr (_, refl, omega arith, h))
  ]

  decode_size-Moves :
      (ctrl offset : ℕ)
      → offset ≤ length mem
      → Moves offset (length mem) (decode_size mem ctrl offset)
  unfolding decode_size
  decode_size-Moves ctrl offset h = elim (Bool-cases (bit_and ctrl 31 == 29)) [
    | inl one ↦ elim (Bool-cases (ltb (sub32 (length mem) 1) offset)) [
      | inl past ↦ rw (one, past) (inl refl)
      | inr within ↦
          let fits : offset + 1 ≤ length mem = ground arith in
          rw (one, within, (at-of_lt mem offset (omega arith)).1)
            (inr (_, refl, omega arith, omega arith))
    ]
    | inr not_one ↦ elim (Bool-cases (bit_and ctrl 31 == 30)) [
      | inl two ↦ elim (Bool-cases (ltb (sub32 (length mem) 2) offset)) [
        | inl past ↦ rw (not_one, two, past) (inl refl)
        | inr within ↦
            let fits : offset + 2 ≤ length mem = ground arith in
            rw
              (
                not_one,
                two,
                within,
                (at-of_lt mem offset (omega arith)).1,
                (at-of_lt mem (offset + 1) (omega arith)).1,
              )
              (inr (_, refl, omega arith, omega arith))
      ]
      | inr not_two ↦ elim (Bool-cases (bit_and ctrl 31 == 31)) [
        | inl three ↦ elim (Bool-cases (ltb (sub32 (length mem) 3) offset)) [
          | inl past ↦ rw (not_one, not_two, three, past) (inl refl)
          | inr within ↦
              let fits : offset + 3 ≤ length mem = ground arith in
              rw
                (
                  not_one,
                  not_two,
                  three,
                  within,
                  (at-of_lt mem offset (omega arith)).1,
                  (at-of_lt mem (offset + 1) (omega arith)).1,
                  (at-of_lt mem (offset + 2) (omega arith)).1,
                )
                (inr (_, refl, omega arith, omega arith))
        ]
        | inr not_three ↦ rw (not_one, not_two, not_three) (inr (_, refl, omega arith, h))
      ]
    ]
  ]

  -- The bounds check on `n` bytes, its guard against the underflow included.
  room :
      (offset n : ℕ)
      → (ltb (sub32 (length mem) n) offset || ltb (length mem) n) ≡ false
      → offset + n ≤ length mem
  room offset n e = ground arith

  decode_pointer-Advances :
      (ctrl offset : ℕ) (e : EntryData)
      → offset ≤ length mem
      → Advances offset (length mem) (decode_pointer mem ctrl offset e)
  unfolding decode_pointer
  decode_pointer-Advances ctrl offset e h =
      let n : ℕ = bit_and (ctrl >>> 3) 3 + 1 in
      elim (Bool-cases (ltb (sub32 (length mem) n) offset || ltb (length mem) n)) [
        | inl past ↦ rw past (inl refl)
        | inr within ↦
            let fits : offset + n ≤ length mem = room offset n within in
            rw (within, (bytes_at-of_le mem offset n fits).1)
              (inr (_, refl, omega arith, omega arith))
      ]

  decode_payload-cases :
      (ty size : ℕ) (b : List ℕ) (e : EntryData) → Settled (decode_payload mem ty size b e)
  unfolding decode_payload
  decode_payload-cases ty size b e = pick (ty == 5) (pick (ltb 2 size) bad good) (
      pick (ty == 6) (pick (ltb 4 size) bad good) (
        pick (ty == 8) (pick (ltb 4 size) bad good) (
          pick (ty == 9) (pick (ltb 8 size) bad good) (
            pick (ty == 10) (pick (ltb 16 size) bad good) (
              pick (ty == 15) (pick (size == 4) good bad) (
                pick (ty == 3) (pick (size == 8) good bad)
                  (pick (ty == 2) good (pick (ty == 4) good good))))))))

  decode_value-Advances :
      (ty size offset : ℕ) (e : EntryData)
      → offset ≤ length mem
      → Advances offset (length mem) (decode_value mem ty size offset e)
  unfolding decode_value
  decode_value-Advances ty size offset e h = elim (Bool-cases (ty == 7 || ty == 11)) [
    | inl compound ↦ rw compound (inr (_, refl, omega arith, h))
    | inr simple ↦ elim (Bool-cases (ty == 14)) [
      | inl boolean ↦ rw (simple, boolean) (inr (_, refl, omega arith, h))
      | inr sized ↦
          elim (Bool-cases (ltb (sub32 (length mem) size) offset || ltb (length mem) size)) [
            | inl past ↦ rw (simple, sized, past) (inl refl)
            | inr within ↦
                let fits : offset + size ≤ length mem = room offset size within in
                let b = bytes_at-of_le mem offset size fits in
                elim (decode_payload-cases ty size b.0 e) [
                  | inl bad ↦ rw (simple, sized, within, b.1, bad) (inl refl)
                  | inr (e', good) ↦
                      rw (simple, sized, within, b.1, good)
                        (inr (_, refl, omega arith, omega arith))
                ]
          ]
    ]
  ]

  -- `decode_one` reads nothing outside a data section of 3 bytes or more and less than 4 GB, whatever it
  -- holds: it fails with
  -- MMDB_INVALID_DATA_ERROR, or the next value begins behind this one's control byte and not behind
  -- the section's end.
  pub decode_one-Advances :
      (offset : ℕ) (e : EntryData) → Advances (offset + 1) (length mem) (decode_one mem offset e)
  unfolding decode_one
  decode_one-Advances offset e = elim (Bool-cases (ltb (sub32 (length mem) 1) offset)) [
    | inl past ↦ rw past (inl refl)
    | inr within ↦
        let lt : offset < length mem = ground arith in
        let ctrl = at-of_lt mem offset lt in
        let next : u32 (offset + 1) ≡ offset + 1 = omega arith in
        elim (decode_type-Moves ctrl.0 (u32 (offset + 1)) (omega (arith, next))) [
          | inl wrong ↦ rw (within, ctrl.1, wrong) (inl refl)
          | inr (t, is_t, low, high) ↦
              let e' : EntryData = record e { offset = offset; has_data = true; ty = t.0 } in
              elim (Bool-cases (t.0 == 1)) [
                | inl ptr ↦ elim (decode_pointer-Advances ctrl.0 t.1 e' high) [
                  | inl wrong ↦ rw (within, ctrl.1, is_t, ptr, wrong) (inl refl)
                  | inr (r, is_r, l, g) ↦
                      rw (within, ctrl.1, is_t, ptr, is_r) (inr (r, refl, omega (arith, next), g))
                ]
                | inr plain ↦ elim (decode_size-Moves ctrl.0 t.1 high) [
                  | inl wrong ↦ rw (within, ctrl.1, is_t, plain, wrong) (inl refl)
                  | inr (z, is_z, low_z, high_z) ↦
                      elim (decode_value-Advances t.0 z.0 z.1 e' high_z) [
                        | inl wrong ↦ rw (within, ctrl.1, is_t, plain, is_z, wrong) (inl refl)
                        | inr (r, is_r, l, g) ↦
                            rw (within, ctrl.1, is_t, plain, is_z, is_r)
                              (inr (r, refl, omega (arith, next), g))
                      ]
                ]
              ]
        ]
  ]

  -- Following a pointer, in a data section of 3 bytes or more and less than 4 GB: it fails with
  -- MMDB_INVALID_DATA_ERROR, or the result is never a pointer again, it lies within the section, and after
  -- a simple value decoding goes on behind the place that was asked for.
  pub decode_one_follow-cases :
      (offset : ℕ) (e : EntryData)
      → (decode_one_follow mem offset e ≡ error Error.invalid_data)
        ⊎ ((r : EntryData) × (decode_one_follow mem offset e ≡ ok r)
            × (r.ty ≢ 1)
            × (r.offset_to_next ≤ length mem)
            × ((r.ty == 7 || r.ty == 11) ≡ true ⊎ offset + 1 ≤ r.offset_to_next))
  unfolding decode_one_follow
  decode_one_follow-cases offset e = elim (decode_one-Advances offset e) [
    | inl wrong ↦ rw wrong (inl refl)
    | inr (e1, is_e1, low, high) ↦ elim (Bool-cases (e1.ty == 1)) [
      | inl ptr ↦ elim (decode_one-Advances (pointer_of e1.payload) e1) [
        | inl wrong ↦ rw (is_e1, ptr, wrong) (inl refl)
        | inr (e2, is_e2, low2, high2) ↦ elim (Bool-cases (e2.ty == 1)) [
          | inl again ↦ rw (is_e1, ptr, is_e2, again) (inl refl)
          | inr value ↦ elim (Bool-cases (e2.ty == 7 || e2.ty == 11)) [
            | inl compound ↦
                rw (is_e1, ptr, is_e2, value, compound)
                  (inr (e2, refl, ground arith, high2, inl compound))
            | inr simple ↦
                rw (is_e1, ptr, is_e2, value, simple) (inr (_, refl, ground arith, high, inr low))
          ]
        ]
      ]
      | inr value ↦ rw (is_e1, value) (inr (e1, refl, ground arith, high, inr low))
    ]
  ]
