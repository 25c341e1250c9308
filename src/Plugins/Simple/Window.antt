-- ===== src/Plugins/Simple/Window.antt =====
-- The stabilization window of the simple replicator: what a recommendation is, what is kept, and
-- how far a later recommendation may fall.
use wing.Base.{
  Bool-cases, ℤ, ◌≤ℤ◌, ltb_ℤ, All, Stands, Stands-append, Time, before, ℕ, zero, suc, ◌+◌, ◌≡◌,
  refl, ◌⊎◌, inl, inr, true, false, List, [], ◌∷◌, arith,
}
use wing.Plugins.Simple.{TimestampedRecommendation, Scan, scan_step, scan, replace_at, stabilized}

-- A recommendation that is not older than the cutoff.
abbrev pub IsFresh : Time → TimestampedRecommendation → Type 0
IsFresh cutoff r = before r.timestamp cutoff ≡ false

scan_bounds :
    (cutoff : Time) (i : ℕ) (rs : List TimestampedRecommendation) (s : Scan)
    → (s.max_recommendation ≤ℤ (scan cutoff i rs s).max_recommendation)
      × All (λ r. IsFresh cutoff r → r.replicas ≤ℤ (scan cutoff i rs s).max_recommendation) rs
unfolding scan
scan_bounds cutoff i [] s = omega arith
scan_bounds cutoff i (r ∷ rs) s =
    ground (arith, scan_bounds cutoff (i + 1) rs (scan_step cutoff i r s))

scan_attained :
    (cutoff : Time) (i : ℕ) (rs : List TimestampedRecommendation) (s : Scan)
    → ((scan cutoff i rs s).max_recommendation ≡ s.max_recommendation)
      ⊎ ((r : TimestampedRecommendation) × Stands r rs
          × IsFresh cutoff r
          × ((scan cutoff i rs s).max_recommendation ≡ r.replicas))
unfolding scan
scan_attained cutoff i [] s = inl refl
scan_attained cutoff i (r ∷ rs) s =
    elim (scan_attained cutoff (i + 1) rs (scan_step cutoff i r s)) [
      | inr (x, stands, fresh, e) ↦ inr (x, inr stands, fresh, e)
      | inl e ↦
          first_of_step (Bool-cases (before r.timestamp cutoff))
            (Bool-cases (ltb_ℤ s.max_recommendation r.replicas)) e
    ]
  where
    first_of_step :
        (before r.timestamp cutoff ≡ true) ⊎ (before r.timestamp cutoff ≡ false)
        → (ltb_ℤ s.max_recommendation r.replicas ≡ true)
          ⊎ (ltb_ℤ s.max_recommendation r.replicas ≡ false)
        → (scan cutoff (i + 1) rs (scan_step cutoff i r s)).max_recommendation
          ≡ (scan_step cutoff i r s).max_recommendation
        → ((scan cutoff i (r ∷ rs) s).max_recommendation ≡ s.max_recommendation)
          ⊎ ((x : TimestampedRecommendation) × Stands x (r ∷ rs)
              × IsFresh cutoff x
              × ((scan cutoff i (r ∷ rs) s).max_recommendation ≡ x.replicas))
    first_of_step (inl old) _ e = inl (ground arith)
    first_of_step (inr fresh) (inl more) e = inr (r, inl refl, fresh, ground arith)
    first_of_step (inr fresh) (inr less) e = inl (ground arith)

-- The result is the largest of the new demand and the recommendations inside the window: it is not
-- below any of them, and it is one of them.
pub stabilized_largest :
    (cutoff at : Time) (desired : ℤ) (rs : List TimestampedRecommendation)
    → let result = (stabilized cutoff at desired rs).0 in
      (desired ≤ℤ result)
      × All (λ r. IsFresh cutoff r → r.replicas ≤ℤ result) rs
      × ((result ≡ desired)
          ⊎ ((r : TimestampedRecommendation) × Stands r rs
              × IsFresh cutoff r
              × (result ≡ r.replicas)))
unfolding stabilized
stabilized_largest cutoff at desired rs =
    let start : Scan = record {
      max_recommendation = desired;
      found_old_sample = false;
      old_sample_index = 0;
    } in
    let (above, all) = scan_bounds cutoff 0 rs start in
    (above, all, scan_attained cutoff 0 rs start)

-- The entry at a position is older than the cutoff.
abbrev IsOldAt : Time → ℕ → List TimestampedRecommendation → Type 0
IsOldAt cutoff i [] = ⊥
IsOldAt cutoff zero (r ∷ rs) = before r.timestamp cutoff ≡ true
IsOldAt cutoff (suc i) (r ∷ rs) = IsOldAt cutoff i rs

-- The sample that the loop chose to replace is an old one of the list.
scan-IsOldAt :
    (cutoff : Time) (i : ℕ) (rs : List TimestampedRecommendation) (s : Scan)
    → let s' = scan cutoff i rs s in
      ((s'.found_old_sample ≡ s.found_old_sample) × (s'.old_sample_index ≡ s.old_sample_index))
      ⊎ ((p : ℕ) × (s'.old_sample_index ≡ i + p) × IsOldAt cutoff p rs)
unfolding scan
scan-IsOldAt cutoff i [] s = inl (refl, refl)
scan-IsOldAt cutoff i (r ∷ rs) s = elim (scan-IsOldAt cutoff (i + 1) rs (scan_step cutoff i r s)) [
  | inr (p, e, old) ↦ inr (suc p, omega arith, old)
  | inl (f, e) ↦ elim (Bool-cases (before r.timestamp cutoff)) [
    | inl old ↦ inr (0, ground arith, old)
    | inr fresh ↦ inl (ground arith, ground arith)
  ]
]

Stands-replace_at :
    (cutoff : Time) (p : ℕ) (new r : TimestampedRecommendation)
    (rs : List TimestampedRecommendation)
    → IsOldAt cutoff p rs
    → IsFresh cutoff r
    → Stands r rs
    → Stands r (replace_at p new rs)
unfolding replace_at
Stands-replace_at cutoff p new r [] old fresh stands = stands
Stands-replace_at cutoff zero new r (x ∷ xs) old fresh (inl e) = ground arith
Stands-replace_at cutoff zero new r (x ∷ xs) old fresh (inr stands) = inr stands
Stands-replace_at cutoff (suc p) new r (x ∷ xs) old fresh (inl e) = inl e
Stands-replace_at cutoff (suc p) new r (x ∷ xs) old fresh (inr stands) =
    inr (Stands-replace_at cutoff p new r xs old fresh stands)

replace_at-Stands :
    (cutoff : Time) (p : ℕ) (new : TimestampedRecommendation) (rs : List TimestampedRecommendation)
    → IsOldAt cutoff p rs
    → Stands new (replace_at p new rs)
unfolding replace_at
replace_at-Stands cutoff p new [] old = old
replace_at-Stands cutoff zero new (x ∷ xs) old = inl refl
replace_at-Stands cutoff (suc p) new (x ∷ xs) old = inr (replace_at-Stands cutoff p new xs old)

-- A call keeps every recommendation inside the window, and adds the new one.
pub stabilized_keeps :
    (cutoff at : Time) (desired : ℤ) (rs : List TimestampedRecommendation)
    → let rs' = (stabilized cutoff at desired rs).1 in
      Stands (record { timestamp = at; replicas = desired }) rs'
      × ((r : TimestampedRecommendation) → Stands r rs → IsFresh cutoff r → Stands r rs')
unfolding stabilized
stabilized_keeps cutoff at desired rs =
    let start : Scan = record {
      max_recommendation = desired;
      found_old_sample = false;
      old_sample_index = 0;
    } in
    let s = scan cutoff 0 rs start in
    let sample : TimestampedRecommendation = record { timestamp = at; replicas = desired } in
    elim (scan-IsOldAt cutoff 0 rs start) [
      | inl (f, e) ↦ rw f (
        Stands-append sample rs (sample ∷ []) (inr (inl refl)),
        λ r stands fresh. Stands-append r rs (sample ∷ []) (inl stands),
      )
      | inr (p, e, old) ↦ elim (Bool-cases s.found_old_sample) [
        | inr none_found ↦ rw none_found (
          Stands-append sample rs (sample ∷ []) (inr (inl refl)),
          λ r stands fresh. Stands-append r rs (sample ∷ []) (inl stands),
        )
        | inl some_found ↦
            let q : s.old_sample_index ≡ p = omega arith in
            rw (some_found, q)
              (
                replace_at-Stands cutoff p sample rs old,
                λ r stands fresh. Stands-replace_at cutoff p sample r rs old fresh stands,
              )
      ]
    ]
