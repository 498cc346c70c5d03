-- ===== src/Common/Dict.antt =====
-- Go maps with string keys, as association lists without an order of iteration of their own.
use Prim.Native.Nat.{◌+◌, ◌≤◌}
use Prim.Native.String.{String}
use mathlib.Core.Path.{◌≡◌, refl}
use mathlib.Core.Logic.{◌≢◌, inl, inr}
use mathlib.Core.Bool.{Bool, true, false, ◌||◌}
use mathlib.Core.List.{List, [], ◌∷◌, map}
use mathlib.Core.Option.{Option, none, some}
use native.Mathlib.Omega.{arith}
use text.Mathlib.Text.{◌==◌}
use text.Mathlib.TextEquality.{eq_iff}
use titanops.Common.Tests.{if◌then◌else◌, Bool-cases}
use titanops.Common.Lists.{length, select, All}

module _ {ℓ} {V : Type ℓ} where
  unfoldable pub lookup : String → List (String × V) → Option V
  lookup key [] = none
  lookup key ((at, value) ∷ rest) = if at == key then some value else lookup key rest

  abbrev pub has : String → List (String × V) → Bool
  has k [] = false
  has k ((j, v) ∷ m) = j == k || has k m

  -- `m[key] = value`
  unfoldable pub insert : String → V → List (String × V) → List (String × V)
  insert key value [] = (key, value) ∷ []
  insert key value (entry ∷ rest) =
      if entry.0 == key then (key, value) ∷ rest else entry ∷ insert key value rest

  -- `delete(m, key)`
  unfoldable pub erase : String → List (String × V) → List (String × V)
  erase key [] = []
  erase key (entry ∷ rest) = if entry.0 == key then erase key rest else entry ∷ erase key rest

  pub lookup-erase :
      (key asked : String) (m : List (String × V))
      → lookup asked (erase key m) ≡ (if key == asked then none else lookup asked m)
  unfolding lookup erase
  lookup-erase key asked [] = ground arith
  lookup-erase key asked ((at, value) ∷ rest) =
      let behind = lookup-erase key asked rest in
      ground (arith, eq_iff at asked, eq_iff at key, eq_iff key asked, behind)

  pub lookup-insert :
      (key asked : String) (value : V) (m : List (String × V))
      → lookup asked (insert key value m) ≡ (if key == asked then some value else lookup asked m)
  unfolding lookup insert
  lookup-insert key asked value [] = refl
  lookup-insert key asked value ((at, old) ∷ rest) =
      let behind = lookup-insert key asked value rest in
      ground (arith, eq_iff at asked, eq_iff at key, eq_iff key asked, behind)

  pub length-insert-le :
      (k : String) (v : V) (m : List (String × V)) → length (insert k v m) ≤ length m + 1
  unfolding insert
  length-insert-le k v [] = omega arith
  length-insert-le k v ((j, w) ∷ m) = ground (arith, length-insert-le k v m)

  pub length-insert_absent :
      (k : String) (v : V) (m : List (String × V))
      → lookup k m ≡ none
      → length (insert k v m) ≡ length m + 1
  unfolding lookup insert
  length-insert_absent k v [] h = omega arith
  length-insert_absent k v ((j, w) ∷ m) h = ground (arith, length-insert_absent k v m)

  pub length-pos_of_lookup :
      (k : String) (m : List (String × V)) {v : V} → lookup k m ≡ some v → 1 ≤ length m
  unfolding lookup
  length-pos_of_lookup k [] h = cc
  length-pos_of_lookup k (e ∷ m) h = omega arith

  -- Two keys that are not the same take two entries.
  pub length_of_two :
      (j k : String) (m : List (String × V)) {v w : V}
      → j ≢ k
      → lookup j m ≡ some v
      → lookup k m ≡ some w
      → 2 ≤ length m
  unfolding lookup
  length_of_two j k [] ne h g = cc
  length_of_two j k ((i, u) ∷ m) {v} {w} ne h g = elim (Bool-cases (i == j)) [
    | inl here ↦
        let other : (i == k) ≡ false = ground (arith, eq_iff i j, eq_iff i k) in
        omega (arith, length-pos_of_lookup k m {v = w} (rw (other, lookup) at g))
    | inr there ↦ omega (arith, length-pos_of_lookup j m {v = v} (rw (there, lookup) at h))
  ]

  -- No key stands twice.
  abbrev pub IsDict : List (String × V) → Type 0
  IsDict [] = Unit
  IsDict ((k, v) ∷ m) = (has k m ≡ false) × IsDict m

  pub has-insert :
      (k j : String) (v : V) (m : List (String × V)) → has j (insert k v m) ≡ (k == j || has j m)
  unfolding insert
  has-insert k j v [] = refl
  has-insert k j v ((i, w) ∷ m) =
      ground (arith, eq_iff k j, eq_iff i k, eq_iff i j, has-insert k j v m)

  pub insert-IsDict :
      (k : String) (v : V) (m : List (String × V)) → IsDict m → IsDict (insert k v m)
  unfolding insert
  insert-IsDict k v [] d = (refl, tt)
  insert-IsDict k v ((i, w) ∷ m) d =
      ground (arith, eq_iff i k, eq_iff k i, insert-IsDict k v m d.1, has-insert k i v m)

  skip_entry :
      (k : String) (v : V) (m xs : List (String × V))
      → has k xs ≡ false
      → All (λ (e : String × V). lookup e.0 m ≡ some e.1) xs
      → All (λ (e : String × V). lookup e.0 ((k, v) ∷ m) ≡ some e.1) xs
  unfolding lookup
  skip_entry k v m [] h all = tt
  skip_entry k v m ((j, w) ∷ xs) h (here, behind) =
      (ground (arith, eq_iff j k, eq_iff k j, here), skip_entry k v m xs (ground arith) behind)

  -- A map answers for each of its entries.
  pub lookup_of_IsDict :
      (m : List (String × V)) → IsDict m → All (λ (e : String × V). lookup e.0 m ≡ some e.1) m
  unfolding lookup
  lookup_of_IsDict [] d = tt
  lookup_of_IsDict ((k, v) ∷ m) (fresh, d) =
      (ground (arith, eq_iff k k), skip_entry k v m m fresh (lookup_of_IsDict m d))

  pub has-select :
      (keep : String × V → Bool) (k : String) (m : List (String × V))
      → has k m ≡ false
      → has k (select keep m) ≡ false
  has-select keep k [] h = refl
  has-select keep k ((i, w) ∷ m) h = ground (arith, has-select keep k m)

  pub select-IsDict :
      (keep : String × V → Bool) (m : List (String × V)) → IsDict m → IsDict (select keep m)
  select-IsDict keep [] d = tt
  select-IsDict keep ((i, w) ∷ m) d =
      ground (arith, select-IsDict keep m d.1, has-select keep i m d.0)

  pub lookup_absent : (k : String) (m : List (String × V)) → has k m ≡ false → lookup k m ≡ none
  unfolding lookup
  lookup_absent k [] h = refl
  lookup_absent k ((i, w) ∷ m) h = ground (arith, lookup_absent k m)

  -- Deleting the entries that fail a test hides those entries and no other.
  pub lookup-select :
      (keep : String × V → Bool) (k : String) (m : List (String × V))
      → IsDict m
      → lookup k (select keep m)
        ≡ elim (lookup k m) [ none ↦ none | some v ↦ if keep (k, v) then some v else none ]
  unfolding lookup
  lookup-select keep k [] d = refl
  lookup-select keep k ((i, w) ∷ m) d = elim (Bool-cases (i == k)) [
    | inl here ↦
        let same : i ≡ k = (eq_iff i k).0 here in
        let here' : (k == k) ≡ true = rw same at here in
        let gone : lookup k (select keep m) ≡ none =
          lookup_absent k (select keep m) (rw same at (has-select keep i m d.0)) in
        elim (Bool-cases (keep (k, w))) [
          | inl kept ↦ rw (same, kept) (rw (here', lookup) (rw kept))
          | inr cut ↦ rw (same, cut) (rw here' (rw cut gone))
        ]
    | inr there ↦ elim (Bool-cases (keep (i, w))) [
      | inl kept ↦ rw (kept, there, lookup) (lookup-select keep k m d.1)
      | inr cut ↦ rw (cut, there) (lookup-select keep k m d.1)
    ]
  ]

abbrev pub keys {ℓ} : {V : Type ℓ} → List (String × V) → List String
keys m = map (λ e. e.0) m
