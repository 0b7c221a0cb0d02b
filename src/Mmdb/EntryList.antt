-- ===== src/Mmdb/EntryList.antt =====
-- `MMDB_get_entry_data_list`: a value of the data section with everything in it, as a list.
pub mod Complete
pub mod Shape
use qladder.Prelude.{
  ℕ, zero, suc, ◌+◌, List, [], ◌∷◌, ◌++◌, Bool, true, false, ◌||◌, ◌==◌, if◌then◌else◌,
}
use qladder.Mmdb.{Error, Outcome, ok, error, ◌>>=◌}
use qladder.Mmdb.Decode.{EntryData, no_entry, pointer_of, decode_one}

-- A list's first node and the nodes behind it.
abbrev pub Nodes : Type 0
Nodes = EntryData × List EntryData

-- MAXIMUM_DATA_STRUCTURE_DEPTH
abbrev pub maximum_depth : ℕ
maximum_depth = 512

-- `calloc` says whether the C library has memory for the node of the value at an offset.
module _ (calloc : ℕ → Bool) where
  -- One member: a new node, filled by the call one level down, `get`.
  pub new_member : (ℕ → Outcome Nodes) → ℕ → Outcome Nodes
  new_member get offset = if calloc offset then get offset else error Error.out_of_memory

  -- The loop over an array with `size` members to go: the offset behind it, and the nodes.
  pub array_loop : (ℕ → Outcome Nodes) → ℕ → ℕ → Outcome (ℕ × List EntryData)
  array_loop get zero offset = ok (offset, [])
  array_loop get (suc size) offset = new_member get offset >>= λ m.
      array_loop get size m.0.offset_to_next >>= λ r. ok (r.0, (m.0 ∷ m.1) ++ r.1)

  -- The loop over a map with `size` pairs to go.
  pub map_loop : (ℕ → Outcome Nodes) → ℕ → ℕ → Outcome (ℕ × List EntryData)
  map_loop get zero offset = ok (offset, [])
  map_loop get (suc size) offset = new_member get offset >>= λ k.
      new_member get k.0.offset_to_next >>= λ v.
      map_loop get size v.0.offset_to_next >>= λ r. ok (r.0, (k.0 ∷ k.1) ++ ((v.0 ∷ v.1) ++ r.1))

  -- The `switch` on the type of the decoded entry.
  pub list_entry : (ℕ → EntryData → Outcome Nodes) → List ℕ → EntryData → Outcome Nodes
  list_entry get mem e =
      if e.ty == 1
      then (decode_one mem (pointer_of e.payload) e >>= λ e2.
          if e2.ty == 1
          then error Error.invalid_data
          else ((if e2.ty == 11 || e2.ty == 7 then get (pointer_of e.payload) e2 else ok (e2, []))
              >>= λ l. ok (record l.0 { offset_to_next = e.offset_to_next }, l.1)))
      else if e.ty == 11
      then (array_loop (λ o. get o no_entry) e.data_size e.offset_to_next >>= λ r.
          ok (record e { offset_to_next = r.0 }, r.1))
      else if e.ty == 7
      then (map_loop (λ o. get o no_entry) e.data_size e.offset_to_next >>= λ r.
          ok (record e { offset_to_next = r.0 }, r.1))
      else ok (e, [])

  -- `get_entry_data_list`, its depth counted down from the limit; `e` is what the node held.
  pub list_from : List ℕ → ℕ → ℕ → EntryData → Outcome Nodes
  list_from mem zero offset e = error Error.invalid_data
  list_from mem (suc levels) offset e =
      decode_one mem offset e >>= list_entry (list_from mem levels) mem

  pub get_entry_data_list : List ℕ → ℕ → Outcome Nodes
  get_entry_data_list mem offset = new_member (λ o. list_from mem maximum_depth o no_entry) offset
