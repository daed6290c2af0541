-- ===== src/Capacity/Index.antt =====
-- An index that follows a table: UsedCapacityByServer follows Capacity, and
-- DatabaseConnectionCounts follows DatabaseConnections (internal/simulation/types.go).
use hacker_sprint2_sim.Common.{◌≡◌, String, none, some, arith, inl, inr}
use hacker_sprint2_sim.Common.Tests.{same, if◌then◌else◌, eq_of_same, Bool-cases}
use hacker_sprint2_sim.Common.Int.{ℤ, pos, ◌+ℤ◌, ◌-ℤ◌, int_laws}
use hacker_sprint2_sim.Common.Map.{
  Map, lookup, insert, erase, total, UniqueKeys, lookup-insert, total-insert_new, total-erase,
  insert-UniqueKeys, erase-UniqueKeys,
}
use hacker_sprint2_sim.Capacity.{count_at, add_at, sub_at}

pub count_at-insert :
    (k j : String) (v : ℤ) (m : Map ℤ)
    → count_at j (insert k v m) ≡ (if same k j then v else count_at j m)
unfolding count_at
count_at-insert k j v m = ground (arith, lookup-insert k j v m)

pub count_at-sub_at :
    (k j : String) (v : ℤ) (m : Map ℤ)
    → count_at j (sub_at k v m) +ℤ (if same k j then v else pos 0) ≡ count_at j m
unfolding sub_at
count_at-sub_at k j v m =
    let now = count_at-insert k j (count_at k m -ℤ v) m in
    elim (Bool-cases (same k j)) [
      | inl e ↦ grind (int_laws, eq_of_same k j)
      | inr e ↦ grind int_laws
    ]

module _ {V : Type 0} (owner : V → String) (load : V → ℤ) where
  -- The load of an entry for one owner.
  unfoldable pub load_for : String → V → ℤ
  load_for k v = if same (owner v) k then load v else pos 0

  -- The index holds for every owner the sum of the loads of its entries.
  pub record IsIndex (m : Map V) (index : Map ℤ) : Type 0 where
    pub unique : UniqueKeys m
    pub summed : (k : String) → count_at k index ≡ total (load_for k) m

  pub add_at-IsIndex :
      (id : String) (v : V) (m : Map V) (index : Map ℤ)
      → IsIndex m index
      → lookup id m ≡ none
      → IsIndex (insert id v m) (add_at (owner v) (load v) index)
  unfolding add_at load_for
  add_at-IsIndex id v m index h new = record {
    unique = insert-UniqueKeys id v m h.unique;
    summed = λ k.
        let grown = total-insert_new (load_for k) id v m new in
        let before = h.summed k in
        let now = count_at-insert (owner v) k (count_at (owner v) index +ℤ load v) index in
        elim (Bool-cases (same (owner v) k)) [
          | inl e ↦ grind (int_laws, eq_of_same (owner v) k)
          | inr e ↦ grind (int_laws)
        ];
  }

  pub sub_at-IsIndex :
      (id : String) (v : V) (m : Map V) (index : Map ℤ)
      → IsIndex m index
      → lookup id m ≡ some v
      → IsIndex (erase id m) (sub_at (owner v) (load v) index)
  unfolding sub_at load_for
  sub_at-IsIndex id v m index h old = record {
    unique = erase-UniqueKeys id m h.unique;
    summed = λ k.
        let shrunk = total-erase (load_for k) id v m h.unique old in
        let before = h.summed k in
        let now = count_at-insert (owner v) k (count_at (owner v) index -ℤ load v) index in
        elim (Bool-cases (same (owner v) k)) [
          | inl e ↦ grind (int_laws, eq_of_same (owner v) k)
          | inr e ↦ grind (int_laws)
        ];
  }
