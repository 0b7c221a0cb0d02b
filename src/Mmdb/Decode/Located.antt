-- ===== src/Mmdb/Decode/Located.antt =====
-- A decoded entry has the offset asked for, and the type that stands there.
use qladder.Prelude.{
  ℕ, ◌+◌, ◌≡◌, ap, sym, List, true, ◌||◌, ltb, ◌==◌, if◌then◌else◌, u32, sub32, length, arith,
  Bool-cases, inl, inr,
}
use qladder.Mmdb.{Error, Outcome, ok, error, ◌>>=◌, >>=-inv, at, bytes_at}
use qladder.Mmdb.Decode.{
  EntryData, pointer_of, decode_type, decode_pointer, decode_size, decode_payload, decode_value,
  decode_one, decode_one_follow,
}

-- The same place and type.
abbrev Alike : EntryData → EntryData → Type 0
Alike r e = (r.offset ≡ e.offset) × (r.ty ≡ e.ty)

module _ (mem : List ℕ) where
  -- The type of the value at an offset.
  abbrev pub type_at : ℕ → Outcome ℕ
  type_at offset = at mem offset >>= λ ctrl. decode_type mem ctrl (u32 (offset + 1)) >>= λ t. ok t.0

  abbrev pub IsAt : EntryData → Type 0
  IsAt r = type_at r.offset ≡ ok r.ty

  payload-Alike :
      (ty size : ℕ) (b : List ℕ) (e r : EntryData)
      → decode_payload mem ty size b e ≡ ok r
      → Alike r e
  unfolding decode_payload
  payload-Alike ty size b e r h = ground arith

  pointer-Alike :
      (ctrl offset : ℕ) (e r : EntryData) → decode_pointer mem ctrl offset e ≡ ok r → Alike r e
  unfolding decode_pointer
  pointer-Alike ctrl offset e r h = ground arith

  value-Alike :
      (ty size offset : ℕ) (e r : EntryData) → decode_value mem ty size offset e ≡ ok r → Alike r e
  unfolding decode_value
  value-Alike ty size offset e r h = elim (Bool-cases (ty == 7 || ty == 11)) [
    | inl compound ↦ ground arith
    | inr simple ↦ elim (Bool-cases (ty == 14)) [
      | inl boolean ↦ ground arith
      | inr sized ↦
          elim (Bool-cases (ltb (sub32 (length mem) size) offset || ltb (length mem) size)) [
            | inl past ↦ absurd (ground arith)
            | inr within ↦
                let (b, is_b, next) =
                  >>=-inv _ (bytes_at mem offset size) {last = r}
                    (rw (simple, sized, within) at h) in
                let (e', is_e, end) =
                  >>=-inv {A = EntryData} {B = EntryData}
                    (λ x. ok (record x { offset_to_next = u32 (offset + size) }))
                    (decode_payload mem ty size b e) {last = r} next in
                let same = payload-Alike ty size b e e' is_e in ground (arith, same)
          ]
    ]
  ]

  -- `decode_one` gives an entry with the offset asked for and the type that stands there.
  pub decode_one-IsAt :
      (offset : ℕ) (e r : EntryData) → decode_one mem offset e ≡ ok r → (r.offset ≡ offset) × IsAt r
  unfolding decode_one
  decode_one-IsAt offset e r h = elim (Bool-cases (ltb (sub32 (length mem) 1) offset)) [
    | inl past ↦ absurd (ground arith)
    | inr within ↦
        let (ctrl, is_ctrl, h1) = >>=-inv _ (at mem offset) {last = r} (rw within at h) in
        let (t, is_t, h2) = >>=-inv _ (decode_type mem ctrl (u32 (offset + 1))) {last = r} h1 in
        let e' : EntryData = record e { offset = offset; has_data = true; ty = t.0 } in
        let same : Alike r e' = elim (Bool-cases (t.0 == 1)) [
          | inl ptr ↦ pointer-Alike ctrl t.1 e' r (rw ptr at h2)
          | inr plain ↦
              let (s, is_s, h3) =
                >>=-inv _ (decode_size mem ctrl t.1) {last = r} (rw plain at h2) in
              value-Alike t.0 s.0 s.1 e' r h3
        ] in
        (same.0, rw (same.0, is_ctrl, is_t) (ap ok (sym same.1)))
  ]

  Alike-IsAt : (r e : EntryData) → Alike r e → IsAt e → IsAt r
  Alike-IsAt r e same h = rw (same.0, same.1) h

  followed-IsAt :
      (next : ℕ) (e r : EntryData)
      → IsAt e
      → (if e.ty == 1
          then error Error.invalid_data
          else ok (if e.ty == 7 || e.ty == 11 then e else record e { offset_to_next = next }))
        ≡ ok r
      → IsAt r
  followed-IsAt next e r there h = let same : Alike r e = ground arith in Alike-IsAt r e same there

  resolved-IsAt :
      (e1 r : EntryData)
      → IsAt e1
      → (if e1.ty == 1
          then (decode_one mem (pointer_of e1.payload) e1 >>= λ e2.
              if e2.ty == 1
              then error Error.invalid_data
              else ok (
                  if e2.ty == 7 || e2.ty == 11
                  then e2
                  else record e2 { offset_to_next = e1.offset_to_next }))
          else ok e1)
        ≡ ok r
      → IsAt r
  resolved-IsAt e1 r there h = elim (Bool-cases (e1.ty == 1)) [
    | inl ptr ↦
        let (e2, is_e2, h2) =
          >>=-inv _ (decode_one mem (pointer_of e1.payload) e1) {last = r} (rw ptr at h) in
        followed-IsAt e1.offset_to_next e2 r (decode_one-IsAt (pointer_of e1.payload) e1 e2 is_e2).1
          h2
    | inr plain ↦ let same : Alike r e1 = ground arith in Alike-IsAt r e1 same there
  ]

  -- So does `decode_one_follow`, at the offset of the entry that it ends with.
  pub decode_one_follow-IsAt :
      (offset : ℕ) (e r : EntryData) → decode_one_follow mem offset e ≡ ok r → IsAt r
  unfolding decode_one_follow
  decode_one_follow-IsAt offset e r h =
      let (e1, is_e1, h1) = >>=-inv _ (decode_one mem offset e) {last = r} h in
      resolved-IsAt e1 r (decode_one-IsAt offset e e1 is_e1).1 h1
