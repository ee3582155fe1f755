-- ===== src/Connection/StreamMap.antt =====
-- `IntMap<StreamId, Arc<Mutex<Shared>>>`: the shared state of a stream lies in a heap, and the map
-- holds its address, since the handle of the stream refers to the same state.
use rust_yamux.Common.{
  ℕ, ◌≡◌, refl, Bool, true, false, Option, none, some, List, [], ◌∷◌, ◌==◌, if◌then◌else◌, length,
  arith, ◌≤◌,
}

abbrev pub StreamMap : Type 0
StreamMap = List (ℕ × ℕ)

unfoldable pub get : ℕ → StreamMap → Option ℕ
get id [] = none
get id ((k, a) ∷ m) = if k == id then some a else get id m

unfoldable pub contains_key : ℕ → StreamMap → Bool
unfolding get
contains_key id m = elim (get id m) [ none ↦ false | some _ ↦ true ]

unfoldable pub remove : ℕ → StreamMap → StreamMap
remove id [] = []
remove id ((k, a) ∷ m) = if k == id then remove id m else (k, a) ∷ remove id m

unfoldable pub insert : ℕ → ℕ → StreamMap → StreamMap
insert id a m = (id, a) ∷ remove id m

pub get-remove :
    (j id : ℕ) (m : StreamMap) → get j (remove id m) ≡ (if j == id then none else get j m)
unfolding get remove
get-remove j id [] = ground arith
get-remove j id ((k, a) ∷ m) = ground (arith, get-remove j id m)

pub get-insert :
    (j id a : ℕ) (m : StreamMap) → get j (insert id a m) ≡ (if j == id then some a else get j m)
unfolding get insert
get-insert j id a m = ground (arith, get-remove j id m)

pub length-remove : (id : ℕ) (m : StreamMap) → length (remove id m) ≤ length m
unfolding remove
length-remove id [] = omega arith
length-remove id ((k, a) ∷ m) = ground (arith, length-remove id m)

pub remove_absent : (id : ℕ) (m : StreamMap) → get id m ≡ none → remove id m ≡ m
unfolding get remove
remove_absent id [] e = refl
remove_absent id ((k, a) ∷ m) e = ground (arith, remove_absent id m)
