-- ===== src/Examples/Text.antt =====
-- The helpers on texts.
use wing.Base.{ok, panic, String, ◌≡◌, refl, inl, inr, List, [], ◌∷◌}
use wing.Utils.Strings.{remove, remove_from, append_parts, take, drop}
use wing.Utils.Strings.Laws.{without, remove_lem}

abbrev letters : List String
letters = "a" ∷ "b" ∷ "c" ∷ []

remove_lem_example :
    (remove letters "b" ≡ ok (without "b" letters)) × (remove ("b" ∷ "b" ∷ []) "b" ≡ panic)
remove_lem_example = remove_lem letters "b" (inr (refl, inl (refl, (refl, tt))))

-- The second of two adjacent texts is left.
remove_leaves_one : remove ("a" ∷ "a" ∷ "b" ∷ []) "a" ≡ ok ("a" ∷ "b" ∷ [])
unfolding remove remove_from append_parts take drop
remove_leaves_one = refl
