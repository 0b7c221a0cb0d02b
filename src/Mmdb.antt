-- ===== src/Mmdb.antt =====
-- The GeoIP database reader: Carthage/Checkouts/MMDB-Swift/Sources/libmaxminddb/maxminddb.c, which the
-- tunnel's country rules call. Here are the error codes, results and bytes; the children model the
-- number readers, the search tree and the data section.
pub mod Numbers
pub mod Tree
pub mod Decode
pub mod Skip
pub mod EntryList
pub mod Metadata
pub mod Open
use qladder.Prelude.{
  ◌≡◌, refl, ℕ, zero, suc, ◌+◌, List, [], ◌∷◌, Option, none, some, get_elem?, Bool, true, false,
  if◌then◌else◌,
}

-- The MMDB_…_ERROR codes that the modelled functions return.
pub data Error : Type 0 where
  corrupt_search_tree unknown_database_format invalid_data invalid_node_number : Error
  invalid_lookup_path lookup_path_does_not_match_data ipv6_lookup_in_ipv4_database : Error
  invalid_metadata out_of_memory : Error

-- `fault`: a read outside the mapped bytes, which C leaves undefined. `spent`: the fuel ran out.
pub data Outcome {ℓ} (A : Type ℓ) : Type ℓ where
  ok : A → Outcome A
  error : Error → Outcome A
  fault spent : Outcome A

infixl 5 ◌>>=◌
abbrev pub ◌>>=◌ {ℓ κ} : {A : Type ℓ} {B : Type κ} → Outcome A → (A → Outcome B) → Outcome B
ok a >>= f = f a
error e >>= f = error e
fault >>= f = fault
spent >>= f = spent

-- `mem[offset]`.
unfoldable pub at : List ℕ → ℕ → Outcome ℕ
at mem offset = elim (get_elem? mem offset) [ none ↦ fault | some b ↦ ok b ]

-- The bytes `mem[offset] … mem[offset + n - 1]`.
unfoldable pub bytes_at : List ℕ → ℕ → ℕ → Outcome (List ℕ)
bytes_at mem offset zero = ok []
bytes_at mem offset (suc n) = do b ← at mem offset; r ← bytes_at mem (offset + 1) n; ok (b ∷ r)

module _ {ℓ κ} {A : Type ℓ} {B : Type κ} (f : A → Outcome B) where
  -- What a chain that ends well says of its first step.
  pub >>=-inv :
      (first : Outcome A) {last : B}
      → first >>= f ≡ ok last
      → (value : A) × (first ≡ ok value) × (f value ≡ ok last)
  >>=-inv spent e = cc
  >>=-inv fault e = cc
  >>=-inv (error code) e = cc
  >>=-inv (ok value) e = (value, refl, e)

-- No read outside the mapped bytes, and no loop left unfinished.
abbrev pub IsDefined {ℓ} : {A : Type ℓ} → Outcome A → Type 0
IsDefined (ok a) = Unit {0}
IsDefined (error e) = Unit {0}
IsDefined fault = ⊥
IsDefined spent = ⊥

pub >>=-IsDefined {ℓ κ} :
    {A : Type ℓ} {B : Type κ} (m : Outcome A) (f : A → Outcome B)
    → IsDefined m
    → ((a : A) → m ≡ ok a → IsDefined (f a))
    → IsDefined (m >>= f)
>>=-IsDefined (ok a) f d k = k a refl
>>=-IsDefined (error e) f d k = tt
>>=-IsDefined fault f d k = d
>>=-IsDefined spent f d k = d

-- The same, and what comes back is right.
abbrev pub Holds {ℓ} : {A : Type ℓ} → (A → Type 0) → Outcome A → Type 0
Holds P (ok a) = P a
Holds P (error e) = Unit {0}
Holds P fault = ⊥
Holds P spent = ⊥

module _ {ℓ κ} {A : Type ℓ} {B : Type κ} (P : A → Type 0) (Q : B → Type 0) where
  pub >>=-Holds :
      (x : Outcome A) (f : A → Outcome B)
      → Holds P x
      → ((a : A) → P a → Holds Q (f a))
      → Holds Q (x >>= f)
  >>=-Holds (ok a) f h k = k a h
  >>=-Holds (error e) f h k = tt
  >>=-Holds fault f h k = h
  >>=-Holds spent f h k = h

pub if-Holds {ℓ} :
    {A : Type ℓ} (P : A → Type 0) (c : Bool) (x y : Outcome A)
    → (c ≡ true → Holds P x)
    → (c ≡ false → Holds P y)
    → Holds P (if c then x else y)
if-Holds P true x y h k = h refl
if-Holds P false x y h k = k refl

pub Holds-mono {ℓ} :
    {A : Type ℓ} (P Q : A → Type 0) (x : Outcome A)
    → Holds P x
    → ((a : A) → x ≡ ok a → P a → Q a)
    → Holds Q x
Holds-mono P Q (ok a) h k = k a refl h
Holds-mono P Q (error e) h k = tt
Holds-mono P Q fault h k = h
Holds-mono P Q spent h k = h
