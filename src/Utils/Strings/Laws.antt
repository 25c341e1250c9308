-- ===== src/Utils/Strings/Laws.antt =====
-- Laws of utils/string.go.
use wing.Base.{
  leb, if◌then◌else◌, length, length-append, All, All-append, Result, and_then, ok, panic, ℕ, zero,
  suc, ◌-◌, String, ◌≡◌, refl, sym, ap, ◌∙◌, subst, ◌⊎◌, inl, inr, true, false, List, [], ◌∷◌, ◌++◌,
  arith, ◌==◌, eq_iff,
}
use wing.Utils.Strings.{Slice, take, drop, append_parts, remove_from, remove}

-- No element is `s`.
abbrev pub Absent : String → List String → Type 0
Absent s xs = All (λ x. (x == s) ≡ false) xs

abbrev pub AtMostOnce : String → List String → Type 0
AtMostOnce s [] = Unit
AtMostOnce s (x ∷ xs) = (((x == s) ≡ true) × Absent s xs) ⊎ (((x == s) ≡ false) × AtMostOnce s xs)

-- The elements that are not `s`.
unfoldable pub without : String → List String → List String
without s [] = []
without s (x ∷ xs) = if x == s then without s xs else x ∷ without s xs

without-Absent : (s : String) (xs : List String) → Absent s xs → without s xs ≡ xs
unfolding without
without-Absent s [] h = refl
without-Absent s (x ∷ xs) (h, hs) = rw (h, without-Absent s xs hs) refl

drop-suc :
    (i : ℕ) (xs : List String) (v : String) (rest : List String)
    → drop i xs ≡ v ∷ rest
    → drop (suc i) xs ≡ rest
unfolding drop
drop-suc zero [] v rest h = cc
drop-suc zero (x ∷ xs) v rest h = cc
drop-suc (suc i) [] v rest h = cc
drop-suc (suc i) (x ∷ xs) v rest h = drop-suc i xs v rest h

take-append : (xs ys : List String) → take (length xs) (xs ++ ys) ≡ xs
unfolding take
take-append [] ys = refl
take-append (x ∷ xs) ys = ap (◌∷◌ x) (take-append xs ys)

take-length : (xs : List String) → take (length xs) xs ≡ xs
unfolding take
take-length [] = refl
take-length (x ∷ xs) = ap (◌∷◌ x) (take-length xs)

drop-append : (xs ys : List String) → drop (length xs) (xs ++ ys) ≡ ys
unfolding drop
drop-append [] ys = refl
drop-append (x ∷ xs) ys = drop-append xs ys

drop_behind :
    (xs : List String) (v : String) (ys : List String)
    → drop (suc (length xs)) (xs ++ (v ∷ ys)) ≡ ys
unfolding drop
drop_behind [] v ys = refl
drop_behind (x ∷ xs) v ys = drop_behind xs v ys

length_one_less :
    (xs : List String) (v : String) (ys : List String)
    → length (xs ++ (v ∷ ys)) - 1 ≡ length (xs ++ ys)
length_one_less xs v ys = ground (arith, length-append xs (v ∷ ys), length-append xs ys)

drop_beyond :
    (xs : List String) (v : String) (ys : List String)
    → drop (length (xs ++ ys)) (xs ++ (v ∷ ys)) ≡ drop (length ys) (v ∷ ys)
unfolding drop
drop_beyond [] v ys = refl
drop_beyond (x ∷ xs) v ys = drop_beyond xs v ys

drop_last :
    (xs : List String) (v : String) (ys : List String)
    → drop (length (xs ++ (v ∷ ys)) - 1) (xs ++ (v ∷ ys)) ≡ drop (length ys) (v ∷ ys)
drop_last xs v ys = rw (length_one_less xs v ys) (drop_beyond xs v ys)

drop-Absent : (s : String) (n : ℕ) (xs : List String) → Absent s xs → Absent s (drop n xs)
unfolding drop
drop-Absent s zero xs h = h
drop-Absent s (suc n) [] h = tt
drop-Absent s (suc n) (x ∷ xs) (_, hs) = drop-Absent s n xs hs

length-drop_last : (x : String) (xs : List String) → length (drop (length xs) (x ∷ xs)) ≡ 1
unfolding drop
length-drop_last x [] = refl
length-drop_last x (y ∷ ys) = length-drop_last y ys

-- A loop that meets no `s` leaves the slice.
remove_from-Absent :
    (rest : List String) (i : ℕ) (s : String) (l : Slice)
    → drop i l.array ≡ rest
    → Absent s rest
    → remove_from (length rest) i s l ≡ ok l
unfolding remove_from
remove_from-Absent [] i s l e h = refl
remove_from-Absent (v ∷ rest) i s l e (h, hs) =
    rw (e, h, remove_from) (remove_from-Absent rest (suc i) s l (drop-suc i l.array v rest e) hs)

-- The slice after the loop.
abbrev shown : Result Slice → Result (List String)
unfolding take
shown r = and_then r (λ l. ok (take l.len l.array))

abbrev whole : List String → Slice
whole xs = record { array = xs; len = length xs }

append_parts-whole :
    (front : List String) (v : String) (rest : List String)
    → append_parts (length front) (whole (front ++ (v ∷ rest)))
      ≡ ok (record {
        array = front ++ (rest ++ drop (length rest) (v ∷ rest));
        len = length (front ++ rest);
      })
unfolding append_parts
append_parts-whole front v rest =
    let xs = front ++ (v ∷ rest) in
    let within : leb (suc (length front)) (length xs) ≡ true =
      ground (arith, length-append front (v ∷ rest)) in
    rw
      (
        within,
        take-length xs,
        take-append front (v ∷ rest),
        drop_behind front v rest,
        length_one_less front v rest,
        drop_beyond front v rest,
      )
      refl

append_assoc : (xs ys zs : List String) → (xs ++ ys) ++ zs ≡ xs ++ (ys ++ zs)
append_assoc [] ys zs = refl
append_assoc (x ∷ xs) ys zs = ap (◌∷◌ x) (append_assoc xs ys zs)

-- Behind the element that was removed, the loop meets the rest without its first element, and the last
-- element of the array twice.
remove_from-moved :
    (front : List String) (v : String) (rest : List String) (s : String) (len : ℕ)
    → Absent s rest
    → let l : Slice = record {
      array = front ++ (rest ++ drop (length rest) (v ∷ rest));
      len = len;
    } in
      remove_from (length rest) (suc (length front)) s l ≡ ok l
unfolding remove_from drop
remove_from-moved front v [] s len h = refl
remove_from-moved front v (y ∷ rest) s len (h, hs) =
    let last = drop (length rest) (y ∷ rest) in
    let l : Slice = record { array = front ++ (y ∷ (rest ++ last)); len = len } in
    let count : length (rest ++ last) ≡ suc (length rest) =
      ground (arith, length-append rest last, length-drop_last y rest) in
    subst (λ n. remove_from n (suc (length front)) s l ≡ ok l) count
      (remove_from-Absent (rest ++ last) (suc (length front)) s l
        (drop_behind front y (rest ++ last))
        (All-append (λ x. (x == s) ≡ false) rest last hs
          (drop-Absent s (length rest) (y ∷ rest) (h, hs))))

remove_from-hit :
    (front : List String) (v : String) (rest : List String) (s : String)
    → (v == s) ≡ true
    → Absent s rest
    → shown (remove_from (suc (length rest)) (length front) s (whole (front ++ (v ∷ rest))))
      ≡ ok (front ++ rest)
unfolding remove_from
remove_from-hit front v rest s same h =
    let last = drop (length rest) (v ∷ rest) in
    let l : Slice = record { array = front ++ (rest ++ last); len = length (front ++ rest) } in
    let joined : l.array ≡ (front ++ rest) ++ last = sym (append_assoc front rest last) in
    rw
      (
        drop-append front (v ∷ rest),
        same,
        append_parts-whole front v rest,
        remove_from-moved front v rest s (length (front ++ rest)) h,
        remove_from,
      )
      (ap ok (ap (take (length (front ++ rest))) joined ∙ take-append (front ++ rest) last))

remove_from-AtMostOnce :
    (rest front : List String) (s : String)
    → AtMostOnce s rest
    → shown (remove_from (length rest) (length front) s (whole (front ++ rest)))
      ≡ ok (front ++ without s rest)
unfolding remove_from without
remove_from-AtMostOnce [] front s h = ap ok (take-length (front ++ []))
remove_from-AtMostOnce (v ∷ rest) front s (inl (same, absent)) =
    rw (same, without-Absent s rest absent) (remove_from-hit front v rest s same absent)
remove_from-AtMostOnce (v ∷ rest) front s (inr (other, once)) =
    let later = remove_from-AtMostOnce rest (front ++ (v ∷ [])) s once in
    let further : length (front ++ (v ∷ [])) ≡ suc (length front) =
      ground (arith, length-append front (v ∷ [])) in
    rw (drop-append front (v ∷ rest), other, remove_from)
      (rw (append_assoc front (v ∷ []) rest, append_assoc front (v ∷ []) (without s rest), further)
        at later)

remove_twice : (s : String) → remove (s ∷ s ∷ []) s ≡ panic
unfolding remove remove_from append_parts take drop
remove_twice s = let same : (s == s) ≡ true = (eq_iff s s).1 refl in rw same refl

-- `Remove` of a text that stands at most once leaves the other elements in their order. Of a list that
-- is the text twice it panics.
pub remove_lem :
    (list : List String) (s : String)
    → AtMostOnce s list
    → (remove list s ≡ ok (without s list)) × (remove (s ∷ s ∷ []) s ≡ panic)
unfolding remove
remove_lem list s h = (remove_from-AtMostOnce list [] s h, remove_twice s)
