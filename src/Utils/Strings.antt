-- ===== src/Utils/Strings.antt =====
-- utils/string.go. A slice is an array with the number of its elements that the slice shows: `append`
-- onto a part of the slice writes into the array that the loop is walking.
pub mod Laws
use wing.Base.{
  leb, if◌then◌else◌, length, Result, and_then, ok, panic, ℕ, zero, suc, ◌-◌, String, Bool, false,
  ◌||◌, List, [], ◌∷◌, ◌++◌, ◌==◌,
}

-- `Contains`.
unfoldable pub contains : List String → String → Bool
contains [] s = false
contains (v ∷ vs) s = v == s || contains vs s

pub record Slice : Type 0 where
  pub array : List String
  pub len : ℕ

-- `list[:n]` and `list[n:]` of a whole array.
unfoldable pub take : ℕ → List String → List String
take zero xs = []
take (suc n) [] = []
take (suc n) (x ∷ xs) = x ∷ take n xs

unfoldable pub drop : ℕ → List String → List String
drop zero xs = xs
drop (suc n) [] = []
drop (suc n) (x ∷ xs) = drop n xs

-- `append(list[:i], list[i+1:]...)`, for an `i` within the array: the second part panics where `i+1`
-- is more than the slice shows, and else moves down by one place. The array keeps its length.
unfoldable pub append_parts : ℕ → Slice → Result Slice
unfolding take drop
append_parts i l =
    if leb (suc i) l.len
    then ok (record {
      array = take i l.array ++ (drop (suc i) (take l.len l.array) ++ drop (l.len - 1) l.array);
      len = l.len - 1;
    })
    else panic

-- The loop, of which `count` rounds are left: it walks the array of the slice that it began with.
unfoldable pub remove_from : ℕ → ℕ → String → Slice → Result Slice
unfolding append_parts drop
remove_from zero i s l = ok l
remove_from (suc count) i s l =
    let rest = remove_from count (suc i) s in
    elim (drop i l.array) [
      | [] ↦ panic
      | v ∷ _ ↦ if v == s then and_then (append_parts i l) rest else rest l
    ]

-- `Remove`.
unfoldable pub remove : List String → String → Result (List String)
unfolding remove_from take
remove list s =
    and_then (remove_from (length list) 0 s (record { array = list; len = length list }))
      λ l. ok (take l.len l.array)
