-- ===== src/Plugins/Rabbitmq/Queues.antt =====
-- plugins/scaler_rabbitmq/api.go: many queues as one.
pub mod Laws
use wing.Base.{
  if◌then◌else◌, ℤ, quot, ltb_ℤ, pos, add64, length, ◌<>◌, Result, message, ok, err, Float64,
  String, List, [], ◌∷◌, ◌==◌,
}

abbrev pub operation_sum : String
operation_sum = "sum"

abbrev pub operation_avg : String
operation_avg = "avg"

abbrev pub operation_max : String
operation_max = "max"

-- An int has 64 bits. The rate stands in two nested structs of the source.
pub record QueueInfo (F : Type 0) : Type 0 where
  pub messages : ℤ
  pub messages_unacknowledged : ℤ
  pub message_ready : ℤ
  pub rate : F
  pub name : String

-- The four results of an operator.
pub record Composed (F : Type 0) : Type 0 where
  pub messages : ℤ
  pub ready : ℤ
  pub unacknowledged : ℤ
  pub rate : F

abbrev pub larger : ℤ → ℤ → ℤ
larger so_far v = if ltb_ℤ so_far v then v else so_far

module _ (F : Type 0) ⦃f : Float64 F⦄ where
  open f use {of_int, constant, add, div, lt}

  abbrev pub nothing : Composed F
  nothing = record { messages = pos 0; ready = pos 0; unacknowledged = pos 0; rate = constant 0 1 }

  unfoldable pub sum_from : Composed F → List (QueueInfo F) → Composed F
  unfolding add64
  sum_from so_far [] = so_far
  sum_from so_far (q ∷ qs) =
      sum_from
        (record {
          messages = add64 so_far.messages q.messages;
          ready = add64 so_far.ready q.message_ready;
          unacknowledged = add64 so_far.unacknowledged q.messages_unacknowledged;
          rate = add so_far.rate q.rate;
        })
        qs

  unfoldable pub get_sum : List (QueueInfo F) → Composed F
  unfolding sum_from
  get_sum qs = sum_from nothing qs

  -- The caller has at least one queue.
  unfoldable pub get_average : List (QueueInfo F) → Composed F
  unfolding get_sum quot
  get_average qs =
      let total = get_sum qs in
      let count = pos (length qs) in
      record {
        messages = quot total.messages count;
        ready = quot total.ready count;
        unacknowledged = quot total.unacknowledged count;
        rate = div total.rate (of_int count);
      }

  unfoldable pub maximum_from : Composed F → List (QueueInfo F) → Composed F
  maximum_from so_far [] = so_far
  maximum_from so_far (q ∷ qs) =
      maximum_from
        (record {
          messages = larger so_far.messages q.messages;
          ready = larger so_far.ready q.message_ready;
          unacknowledged = larger so_far.unacknowledged q.messages_unacknowledged;
          rate = if lt so_far.rate q.rate then q.rate else so_far.rate;
        })
        qs

  unfoldable pub get_maximum : List (QueueInfo F) → Composed F
  unfolding maximum_from
  get_maximum qs = maximum_from nothing qs

  abbrev queue_of : Composed F → QueueInfo F
  queue_of c = record {
    messages = c.messages;
    messages_unacknowledged = c.unacknowledged;
    message_ready = c.ready;
    rate = c.rate;
    name = "";
  }

  -- No queue gives the zero value, before the operation is looked at.
  unfoldable pub get_composed_queue : String → List (QueueInfo F) → Result (QueueInfo F)
  unfolding get_sum get_average get_maximum
  get_composed_queue operation [] = ok (queue_of nothing)
  get_composed_queue operation (q ∷ qs) =
      if operation == operation_sum
      then ok (queue_of (get_sum (q ∷ qs)))
      else if operation == operation_avg
      then ok (queue_of (get_average (q ∷ qs)))
      else if operation == operation_max
      then ok (queue_of (get_maximum (q ∷ qs)))
      else err (
          message (
            "operation mode " <> operation <> " must be one of " <> operation_sum <> ", "
            <> operation_avg <> ", " <> operation_max))
