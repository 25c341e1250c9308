-- ===== src/Plugins/Rabbitmq/Queues/Laws.antt =====
-- Laws of plugins/scaler_rabbitmq/api.go.
use mathlib.Core.List.{Permᴰ}
use mathlib.Core.Path.{ap₂}
use wing.Base.{
  if◌then◌else◌, ℤ, ◌≤ℤ◌, pos, add64, add64_swap, All, Float64, ◌≡◌, refl, sym, ap, ◌∙◌, List, [],
  ◌∷◌, arith,
}
use wing.Plugins.Rabbitmq.Queues.{
  QueueInfo, Composed, larger, nothing, sum_from, get_sum, maximum_from, get_maximum,
}

larger_step : (so_far v r : ℤ) → larger so_far v ≤ℤ r → (so_far ≤ℤ r) × (v ≤ℤ r)
larger_step so_far v r h = (ground arith, ground arith)

module _ (F : Type 0) ⦃f : Float64 F⦄ where
  -- A queue has in no count more than the composed one.
  abbrev pub IsWithin : Composed F → QueueInfo F → Type 0
  IsWithin c q =
      (q.messages ≤ℤ c.messages)
      × (q.message_ready ≤ℤ c.ready)
      × (q.messages_unacknowledged ≤ℤ c.unacknowledged)

  -- In no count more than the other.
  abbrev AtMost : Composed F → Composed F → Type 0
  AtMost c d =
      (c.messages ≤ℤ d.messages) × (c.ready ≤ℤ d.ready) × (c.unacknowledged ≤ℤ d.unacknowledged)

  maximum_from-bounds :
      (c : Composed F) (qs : List (QueueInfo F))
      → AtMost c (maximum_from F c qs) × All (IsWithin (maximum_from F c qs)) qs
  unfolding maximum_from
  maximum_from-bounds c [] = ((omega arith, omega arith, omega arith), tt)
  maximum_from-bounds c (q ∷ qs) =
      let c' : Composed F = record {
        messages = larger c.messages q.messages;
        ready = larger c.ready q.message_ready;
        unacknowledged = larger c.unacknowledged q.messages_unacknowledged;
        rate = if f.lt c.rate q.rate then q.rate else c.rate;
      } in
      let ((m, r, u), all) = maximum_from-bounds c' qs in
      let (m', m'') = larger_step c.messages q.messages _ m in
      let (r', r'') = larger_step c.ready q.message_ready _ r in
      let (u', u'') = larger_step c.unacknowledged q.messages_unacknowledged _ u in
      ((m', r', u'), ((m'', r'', u''), all))

  -- The maximum of many queues is in every count at least zero and at least that of every queue.
  pub get_maximum-bounds :
      (qs : List (QueueInfo F))
      → ((pos 0 ≤ℤ (get_maximum F qs).messages)
          × (pos 0 ≤ℤ (get_maximum F qs).ready)
          × (pos 0 ≤ℤ (get_maximum F qs).unacknowledged))
        × All (IsWithin (get_maximum F qs)) qs
  unfolding get_maximum
  get_maximum-bounds qs = maximum_from-bounds (nothing F) qs

  -- The sum of one count, from a start.
  abbrev total : (QueueInfo F → ℤ) → ℤ → List (QueueInfo F) → ℤ
  total field t [] = t
  total field t (q ∷ qs) = total field (add64 t (field q)) qs

  total-perm :
      (field : QueueInfo F → ℤ) {qs rs : List (QueueInfo F)} (t : ℤ)
      → Permᴰ qs rs
      → total field t qs ≡ total field t rs
  total-perm field t Permᴰ.nil = refl
  total-perm field t (Permᴰ.cons {a = a} {l₂ = l} e p) =
      total-perm field (add64 t (field a)) p
      ∙ ap (λ (x : QueueInfo F). total field (add64 t (field x)) l) e
  total-perm field t (Permᴰ.swap {a = a} {b = b} {l = l} e d) =
      ap (λ (x : ℤ). total field x l) (add64_swap t (field a) (field b))
      ∙ ap₂ (λ (x y : QueueInfo F). total field (add64 (add64 t (field x)) (field y)) l) d e
  total-perm field t (Permᴰ.trans p q) = total-perm field t p ∙ total-perm field t q

  sum_from-total :
      (qs : List (QueueInfo F)) (c : Composed F)
      → ((sum_from F c qs).messages ≡ total (λ q. q.messages) c.messages qs)
        × ((sum_from F c qs).ready ≡ total (λ q. q.message_ready) c.ready qs)
        × ((sum_from F c qs).unacknowledged
            ≡ total (λ q. q.messages_unacknowledged) c.unacknowledged qs)
  unfolding sum_from
  sum_from-total [] c = (refl, refl, refl)
  sum_from-total (q ∷ qs) c = sum_from-total qs _

  -- The sums of the counts do not depend on the order of the queues, wrap or not.
  pub get_sum-perm :
      (qs rs : List (QueueInfo F))
      → Permᴰ qs rs
      → ((get_sum F qs).messages ≡ (get_sum F rs).messages)
        × ((get_sum F qs).ready ≡ (get_sum F rs).ready)
        × ((get_sum F qs).unacknowledged ≡ (get_sum F rs).unacknowledged)
  unfolding get_sum
  get_sum-perm qs rs p =
      let (m, r, u) = sum_from-total qs (nothing F) in
      let (m', r', u') = sum_from-total rs (nothing F) in
      (
        m ∙ (total-perm (λ q. q.messages) (pos 0) p ∙ sym m'),
        r ∙ (total-perm (λ q. q.message_ready) (pos 0) p ∙ sym r'),
        u ∙ (total-perm (λ q. q.messages_unacknowledged) (pos 0) p ∙ sym u'),
      )
