-- ===== src/Mmdb/Tree/Node.antt =====
-- `MMDB_read_node`: both records of one node.
use qladder.Prelude.{
  ℕ, ◌+◌, ◌*◌, ◌≤◌, ◌<◌, ◌^◌, ◌≡◌, refl, sym, subst, ◌⊎◌, true, false, u32, ltb, ◌==◌,
  if◌then◌else◌, arith, inl, inr,
}
use qladder.Mmdb.{Error, Outcome, ok, error, ◌>>=◌}
use qladder.Mmdb.Tree.{
  Mmdb, RecordType, record_type, data_section_offset_for_record, right_record_offset, read_record,
  child,
}
use qladder.Mmdb.Tree.Safe.{IsOpen, read_record-ok}

-- An entry is its offset.
pub record SearchNode : Type 0 where
  pub left_record : ℕ
  pub right_record : ℕ
  pub left_record_type : RecordType
  pub right_record_type : RecordType
  pub left_record_entry : ℕ
  pub right_record_entry : ℕ

-- What the function makes of the two records.
abbrev pub search_node_of : Mmdb → ℕ → ℕ → SearchNode
search_node_of m l r = record {
  left_record = l;
  right_record = r;
  left_record_type = record_type m l;
  right_record_type = record_type m r;
  left_record_entry = data_section_offset_for_record m l;
  right_record_entry = data_section_offset_for_record m r;
}

unfoldable pub read_node : Mmdb → ℕ → Outcome SearchNode
read_node m node_number =
    let p = u32 (node_number * m.full_record_byte_size) in
    if right_record_offset m == 0
    then error Error.unknown_database_format
    else if ltb m.node_count node_number
    then error Error.invalid_node_number
    else (read_record m false p >>= λ l.
        read_record m true (p + right_record_offset m) >>= λ r. ok (search_node_of m l r))

right_record_offset-IsOpen : (m : Mmdb) → IsOpen m → (right_record_offset m == 0) ≡ false
unfolding right_record_offset
right_record_offset-IsOpen m o = ground (arith, o.size)

abbrev Ends : ℕ → ℕ → ℕ → ℕ → Type 0
Ends n c d s = c * s ≤ d → ltb d (u32 (n * s) + s) ≡ false

-- A node of the tree ends before the data section.
node_end :
    (s n c d : ℕ)
    → (s ≡ 6) ⊎ (s ≡ 7) ⊎ (s ≡ 8)
    → n < c
    → c * s ≤ d
    → d < 2 ^ 32
    → ltb d (u32 (n * s) + s) ≡ false
node_end s n c d (inl e) h k b = subst (Ends n c d) (sym e) (λ t. ground arith) k
node_end s n c d (inr (inl e)) h k b = subst (Ends n c d) (sym e) (λ t. ground arith) k
node_end s n c d (inr (inr e)) h k b = subst (Ends n c d) (sym e) (λ t. ground arith) k

-- Both records of a node, with what a lookup makes of each.
abbrev pub HasRecords : Mmdb → ℕ → SearchNode → Type 0
HasRecords m node_number n =
    (read_node m node_number ≡ ok n)
    × (child m node_number false ≡ ok n.left_record)
    × (child m node_number true ≡ ok n.right_record)
    × (n.left_record_type ≡ record_type m n.left_record)
    × (n.right_record_type ≡ record_type m n.right_record)
    × (n.left_record_entry ≡ data_section_offset_for_record m n.left_record)
    × (n.right_record_entry ≡ data_section_offset_for_record m n.right_record)

-- In a well-formed database, as `MMDB_open` leaves it when the data section lies inside the file,
-- whose tree of `node_count` nodes lies before the data section, at an offset below 2^32,
-- `MMDB_read_node` of a node of the tree succeeds. Its records are those that a lookup goes on to from
-- the node for a bit that is 0 and for one that is 1, each with its type and its offset in the data
-- section.
pub read_node-child :
    (m : Mmdb) (node_number : ℕ)
    → IsOpen m
    → node_number < m.node_count
    → m.node_count * m.full_record_byte_size ≤ m.data_section
    → m.data_section < 2 ^ 32
    → (n : SearchNode) × HasRecords m node_number n
unfolding read_node child
read_node-child m node_number o h tree small =
    let p : ℕ = u32 (node_number * m.full_record_byte_size) in
    let within : ltb m.data_section (p + m.full_record_byte_size) ≡ false =
      node_end m.full_record_byte_size node_number m.node_count m.data_section o.size h tree
        small in
    let known : ltb m.node_count node_number ≡ false = ground arith in
    let left = read_record-ok m o false p (ground (arith, o.size, o.mapped, within)) in
    let right =
      read_record-ok m o true (p + right_record_offset m)
        (unfold right_record_offset in ground (arith, o.size, o.mapped, within)) in
    rw (right_record_offset-IsOpen m o, known, within, left.1, right.1)
      (search_node_of m left.0 right.0, (refl, refl, refl, refl, refl, refl, refl))
