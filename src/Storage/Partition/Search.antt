-- ===== src/Storage/Partition/Search.antt =====
-- qedl-storage/src/partition.rs: the index agrees with a linear search.
use mathlib.Core.List.{foldl}
use qedl_rs.Prelude.{
  ℕ, zero, suc, ◌+◌, ◌≡◌, refl, sym, ap, ◌∙◌, Bool, true, false, not, ◌&&◌, Option, none, some,
  List, [], ◌∷◌, ◌++◌, append_assoc, append-nil, arith, if◌then◌else◌, length, get_elem?,
  match_option,
}
use qedl_rs.Storage.Names.{clean_name}
use qedl_rs.Storage.Gpt.Header.{bytes_eq}
use qedl_rs.Storage.Gpt.Entry.{Text, GptEntry}
use qedl_rs.Storage.Gpt.Table.{GptTable}
use qedl_rs.Storage.Partition.{
  find, Index, lookup, or_insert, PartitionMap, PartitionMap_new, index_entries, add_table,
  entry_at, all_entries_of, all_entries, same_name, GptTable_find_partition, find_in_tables,
  find_partition,
}

bytes_eq_refl : (a : Text) → bytes_eq a a ≡ true
bytes_eq_refl [] = refl
bytes_eq_refl (x ∷ a) = ground (arith, bytes_eq_refl a)

bytes_eq→eq : (a b : Text) → bytes_eq a b ≡ true → a ≡ b
bytes_eq→eq [] [] h = refl
bytes_eq→eq [] (y ∷ b) h = cc
bytes_eq→eq (x ∷ a) [] h = cc
bytes_eq→eq (x ∷ a) (y ∷ b) h = ground (arith, bytes_eq→eq a b)

-- The entry's cleaned name is this one, and is not empty.
abbrev pub named : Text → GptEntry → Bool
named name e = not (bytes_eq (clean_name e.name) []) && bytes_eq (clean_name e.name) name

find-append {ℓ} :
    {A : Type ℓ} (p : A → Bool) (xs ys : List A)
    → find p (xs ++ ys) ≡ match_option (find p xs) (find p ys) some
unfolding find
find-append p [] ys = refl
find-append p (x ∷ xs) ys = ground (arith, find-append p xs ys)

find_index : (GptEntry → Bool) → List GptEntry → Option ℕ
find_index p [] = none
find_index p (x ∷ xs) =
    let rest = match_option (find_index p xs) none (λ k. some (suc k)) in
    if p x then some 0 else rest

-- The index and the entry that a search finds belong together.
abbrev Same : List GptEntry → Option ℕ → Option GptEntry → Type 0
Same es o f =
    match_option o (f ≡ none) (λ k. (e : GptEntry) × (get_elem? es k ≡ some e) × (f ≡ some e))

Same-cons :
    (b : Bool) (o : Option ℕ) (f : Option GptEntry) (x : GptEntry) (xs : List GptEntry)
    → Same xs o f
    → Same
        (x ∷ xs)
        (if b then some 0 else match_option o none (λ k. some (suc k)))
        (if b then some x else f)
Same-cons true o f x xs h = (x, refl, refl)
Same-cons false none f x xs h = h
Same-cons false (some k) f x xs h = h

find_index_lem : (p : GptEntry → Bool) (es : List GptEntry) → Same es (find_index p es) (find p es)
unfolding find find_index
find_index_lem p [] = refl
find_index_lem p (x ∷ xs) = Same-cons (p x) (find_index p xs) (find p xs) x xs (find_index_lem p xs)

lookup-append :
    (j k : Text) (v : ℕ × ℕ) (index : Index)
    → lookup j (index ++ (k, v) ∷ [])
      ≡ match_option (lookup j index) (if bytes_eq k j then some v else none) some
unfolding lookup
lookup-append j k v [] = refl
lookup-append j k v ((i, w) ∷ rest) = ground (arith, lookup-append j k v rest)

lookup-or_insert :
    (j k : Text) (v : ℕ × ℕ) (index : Index)
    → lookup j (or_insert k v index)
      ≡ match_option (lookup j index) (if bytes_eq k j then some v else none) some
unfolding or_insert
lookup-or_insert j k v index = ground (arith, lookup-append j k v index, bytes_eq→eq k j)

lookup-index_entries :
    (j : Text) (t i : ℕ) (es : List GptEntry) (index : Index)
    → lookup j (index_entries t i es index)
      ≡ match_option
          (lookup j index)
          (match_option (find_index (named j) es) none (λ k. some (t, i + k)))
          some
unfolding index_entries find_index
lookup-index_entries j t i [] index = ground arith
lookup-index_entries j t i (e ∷ es) index = ground (
  arith,
  lookup-or_insert j (clean_name e.name) (t, i) index,
  lookup-index_entries j t (i + 1) es (
      if bytes_eq (clean_name e.name) []
      then index
      else or_insert (clean_name e.name) (t, i) index),
)

all_entries_of-append :
    (ts : List GptTable) (t : GptTable)
    → all_entries_of (ts ++ t ∷ []) ≡ all_entries_of ts ++ t.entries
unfolding all_entries_of
all_entries_of-append [] t = append-nil t.entries
all_entries_of-append (u ∷ ts) t =
    ap (λ es. u.entries ++ es) (all_entries_of-append ts t)
    ∙ sym (append_assoc u.entries (all_entries_of ts) t.entries)

-- A place in the tables stays where it is when a table is added behind them.
entry_at_old :
    (ts : List GptTable) (t : GptTable) (i k : ℕ) (e : GptEntry)
    → entry_at ts (i, k) ≡ some e
    → entry_at (ts ++ t ∷ []) (i, k) ≡ some e
unfolding entry_at
entry_at_old [] t i k e h = cc
entry_at_old (u ∷ ts) t zero k e h = h
entry_at_old (u ∷ ts) t (suc i) k e h = entry_at_old ts t i k e h

entry_at_new :
    (ts : List GptTable) (t : GptTable) (k : ℕ)
    → entry_at (ts ++ t ∷ []) (length ts, k) ≡ get_elem? t.entries k
unfolding entry_at
entry_at_new [] t k = refl
entry_at_new (u ∷ ts) t k = entry_at_new ts t k

-- What the index says of a name, and what a search of all entries says, agree.
abbrev Agrees : List GptTable → Option (ℕ × ℕ) → Option GptEntry → Type 0
Agrees ts o f =
    match_option o (f ≡ none) (λ p. (e : GptEntry) × (entry_at ts p ≡ some e) × (f ≡ some e))

abbrev IsIndexed : PartitionMap → Type 0
IsIndexed m =
    (name : Text) → Agrees m.tables (lookup name m.name_index) (find (named name) (all_entries m))

Agrees-append :
    (ts : List GptTable) (t : GptTable) (o : Option (ℕ × ℕ)) (f : Option GptEntry) (o' : Option ℕ)
    (f' : Option GptEntry)
    → Agrees ts o f
    → Same t.entries o' f'
    → Agrees
        (ts ++ t ∷ [])
        (match_option o (match_option o' none (λ k. some (length ts, 0 + k))) some)
        (match_option f f' some)
Agrees-append ts t none f none f' h k = rw h k
Agrees-append ts t none f (some i) f' h (e, a, b) = (
  e,
  ap (λ j. entry_at (ts ++ t ∷ []) (length ts, j)) (omega arith) ∙ entry_at_new ts t i ∙ a,
  rw h b,
)
Agrees-append ts t (some (i, j)) f o' f' (e, a, b) k = (e, entry_at_old ts t i j e a, rw b refl)

add_table-IsIndexed : (m : PartitionMap) (t : GptTable) → IsIndexed m → IsIndexed (add_table m t)
unfolding add_table all_entries
add_table-IsIndexed m t h name = rw lookup-index_entries (
    rw all_entries_of-append (
      rw find-append (
        Agrees-append m.tables t (lookup name m.name_index)
          (find (named name) (all_entries_of m.tables)) (find_index (named name) t.entries)
          (find (named name) t.entries) (h name) (find_index_lem (named name) t.entries))))

new-IsIndexed : IsIndexed PartitionMap_new
unfolding PartitionMap_new lookup all_entries all_entries_of find
new-IsIndexed name = refl

-- The map after these tables were added, in this order.
unfoldable pub map_of : List GptTable → PartitionMap
map_of ts = foldl add_table PartitionMap_new ts

foldl-IsIndexed :
    (ts : List GptTable) (m : PartitionMap) → IsIndexed m → IsIndexed (foldl add_table m ts)
foldl-IsIndexed [] m h = h
foldl-IsIndexed (t ∷ ts) m h = foldl-IsIndexed ts (add_table m t) (add_table-IsIndexed m t h)

module _ (to_lowercase : Text → Text) where
  find_in_tables-find :
      (name : Text) (ts : List GptTable)
      → find_in_tables to_lowercase name ts ≡ find (same_name to_lowercase name) (all_entries_of ts)
  unfolding find_in_tables GptTable_find_partition all_entries_of
  find_in_tables-find name [] = unfold find in refl
  find_in_tables-find name (t ∷ ts) =
      ap (λ o. match_option (find (same_name to_lowercase name) t.entries) o some)
        (find_in_tables-find name ts)
      ∙ sym (find-append (same_name to_lowercase name) t.entries (all_entries_of ts))

  resolve :
      (ts : List GptTable) (o : Option (ℕ × ℕ)) (f g : Option GptEntry)
      → Agrees ts o f
      → match_option o g (entry_at ts) ≡ match_option f g some
  resolve ts none f g h = rw h refl
  resolve ts (some p) f g (e, a, b) = rw b a

  -- In a map built by adding tables, a look-up returns the first entry, over all tables in the order
  -- they were added, whose cleaned name is not empty and is the name as given; if there is none, the
  -- first entry whose cleaned name and the trimmed name agree in lower case; and nothing otherwise.
  pub find_partition-map_of :
      (ts : List GptTable) (name : Text)
      → find_partition to_lowercase (map_of ts) name
        ≡ match_option
            (find (named name) (all_entries (map_of ts)))
            (find (same_name to_lowercase name) (all_entries (map_of ts)))
            some
  unfolding find_partition map_of all_entries
  find_partition-map_of ts name =
      let m = foldl add_table PartitionMap_new ts in
      rw (find_in_tables-find name m.tables) (
        resolve m.tables (lookup name m.name_index) _ _
          (foldl-IsIndexed ts PartitionMap_new new-IsIndexed name))
