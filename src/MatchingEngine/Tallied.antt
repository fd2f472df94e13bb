-- ===== src/MatchingEngine/Tallied.antt =====
-- include/MatchingEngine.hpp: the counters of the rejected commands.
use eigen_book.Prelude.{
  ℕ, zero, suc, ◌+◌, ◌%◌, ◌<◌, ◌≡◌, refl, ap, sym, ◌∙◌, Bool, true, false, Bool-cases, Option-cases,
  List, [], ◌∷◌, length, get_or, set, length-set, inl, inr, arith, u64_mod, ltb, lt→ltb,
  if◌then◌else◌,
}
use eigen_book.Types.Enums.{Status}
use eigen_book.Types.Results.{DispatchResult}
use eigen_book.Command.{CommandOp, Command, VenueCommand, valid_command_op, valid_venue_command}
use eigen_book.OrderBook.{OrderBook}
use eigen_book.MatchingEngine.{
  MatchingEngine, find_book, write_book, route, record_event_high_water, add_limit_order, cancel,
  modify, replace, match_market_order,
}
use eigen_book.MatchingEngine.Dispatch.{
  status_index, status_count, reject_status, next_count, make_dispatch_result, count_reject,
  finish_dispatch, count_dispatch_op, with_market_data, of_add, of_cancel, of_modify, of_replace,
  of_match, answer, dispatch_op, dispatch,
}

abbrev sum : List ℕ → ℕ
sum [] = 0
sum (x ∷ xs) = x + sum xs

-- The counter of rejects is the sum of the counters by status, in 64 bits; there is one for every status.
pub record IsTallied (e : MatchingEngine) : Type 0 where
  pub counters : length e.rejects_by_status ≡ status_count
  pub total : e.rejects ≡ sum e.rejects_by_status % u64_mod

status_index-in_range : (s : Status) → status_index s < status_count
status_index-in_range Status.accepted = omega arith
status_index-in_range Status.rejected = omega arith
status_index-in_range Status.cancelled = omega arith
status_index-in_range Status.filled = omega arith
status_index-in_range Status.partially_filled = omega arith
status_index-in_range Status.no_liquidity = omega arith
status_index-in_range Status.invalid_order_id = omega arith
status_index-in_range Status.unknown_order_id = omega arith
status_index-in_range Status.unknown_instrument = omega arith
status_index-in_range Status.invalid_quantity = omega arith
status_index-in_range Status.invalid_price = omega arith
status_index-in_range Status.duplicate_order_id = omega arith
status_index-in_range Status.pool_exhausted = omega arith
status_index-in_range Status.order_id_map_full = omega arith
status_index-in_range Status.quantity_increase_rejected = omega arith
status_index-in_range Status.invalid_configuration = omega arith
status_index-in_range Status.internal_error = omega arith
status_index-in_range Status.fok_rejected = omega arith
status_index-in_range Status.buffer_too_small = omega arith
status_index-in_range Status.snapshot_format_mismatch = omega arith
status_index-in_range Status.snapshot_version_mismatch = omega arith
status_index-in_range Status.snapshot_configuration_mismatch = omega arith
status_index-in_range Status.snapshot_capacity_exceeded = omega arith
status_index-in_range Status.invalid_command = omega arith
status_index-in_range Status.event_log_full = omega arith
status_index-in_range Status.lot_size_violation = omega arith
status_index-in_range Status.post_only_would_cross = omega arith
status_index-in_range Status.invalid_post_only_time_in_force = omega arith
status_index-in_range Status.self_trade_prevented = omega arith
status_index-in_range Status.market_data_log_full = omega arith
status_index-in_range Status.journal_format_mismatch = omega arith
status_index-in_range Status.journal_version_mismatch = omega arith
status_index-in_range Status.journal_length_mismatch = omega arith
status_index-in_range Status.journal_checksum_mismatch = omega arith
status_index-in_range Status.journal_invalid_field = omega arith
status_index-in_range Status.replay_diverged = omega arith
status_index-in_range Status.price_level_quantity_overflow = omega arith

sum-count :
    (xs : List ℕ) (i : ℕ)
    → i < length xs
    → sum (set xs i (next_count (get_or xs i 0))) % u64_mod ≡ next_count (sum xs % u64_mod)
sum-count [] i below = absurd (omega (arith, below))
sum-count (x ∷ xs) zero below = omega arith
sum-count (x ∷ xs) (suc i) below = omega (arith, sum-count xs i (omega (arith, below)))

-- The counters of rejects stand.
record SameTallies (before after : MatchingEngine) : Type 0 where
  same_rejects : after.rejects ≡ before.rejects
  same_by_status : after.rejects_by_status ≡ before.rejects_by_status

-- A command that was answered `status` is counted as that status says.
pub record Tallies (before after : MatchingEngine) (status : Status) : Type 0 where
  pub rejected :
      after.rejects ≡ (if reject_status status then next_count before.rejects else before.rejects)
  pub tallied : IsTallied after

if-SameTallies :
    (b : Bool) (e x y : MatchingEngine)
    → SameTallies e x
    → SameTallies e y
    → SameTallies e (if b then x else y)
if-SameTallies true e x y p q = p
if-SameTallies false e x y p q = q

high_water-SameTallies : (e : MatchingEngine) (n : ℕ) → SameTallies e (record_event_high_water e n)
unfolding record_event_high_water
high_water-SameTallies e n =
    if-SameTallies (ltb e.event_log_high_water_mark n) e _ e
      (record { same_rejects = refl; same_by_status = refl })
      (record { same_rejects = refl; same_by_status = refl })

then-SameTallies : (a b c : MatchingEngine) → SameTallies a b → SameTallies b c → SameTallies a c
then-SameTallies a b c x y = record {
  same_rejects = y.same_rejects ∙ x.same_rejects;
  same_by_status = y.same_by_status ∙ x.same_by_status;
}

count_dispatch_op-SameTallies :
    (e : MatchingEngine) (op : CommandOp) → SameTallies e (count_dispatch_op e op)
unfolding count_dispatch_op
count_dispatch_op-SameTallies e CommandOp.add = record {
  same_rejects = refl;
  same_by_status = refl;
}
count_dispatch_op-SameTallies e CommandOp.cancel = record {
  same_rejects = refl;
  same_by_status = refl;
}
count_dispatch_op-SameTallies e CommandOp.modify = record {
  same_rejects = refl;
  same_by_status = refl;
}
count_dispatch_op-SameTallies e CommandOp.replace = record {
  same_rejects = refl;
  same_by_status = refl;
}
count_dispatch_op-SameTallies e CommandOp.market = record {
  same_rejects = refl;
  same_by_status = refl;
}
count_dispatch_op-SameTallies e (CommandOp.raw n) = record {
  same_rejects = refl;
  same_by_status = refl;
}

route-SameTallies {ℓ} :
    {R : Type ℓ} (e : MatchingEngine) (id : ℕ) (u : R) (n : R → ℕ) (run : OrderBook → OrderBook × R)
    → SameTallies e (route e id u n run).0
unfolding route write_book
route-SameTallies e id u n run = elim (Option-cases (find_book e id)) [
  | inl p ↦ rw (route, p) (record { same_rejects = refl; same_by_status = refl })
  | inr (book, p) ↦
      let x = high_water-SameTallies (write_book e id (run book).0) (n (run book).1) in
      rw (route, p) (record { same_rejects = x.same_rejects; same_by_status = x.same_by_status })
]

count_reject-Tallies :
    (e : MatchingEngine) (s : Status) → IsTallied e → Tallies e (count_reject e s) s
unfolding count_reject
count_reject-Tallies e s t = elim (Bool-cases (reject_status s)) [
  | inr passes ↦ rw (count_reject, passes) (record { rejected = rw passes refl; tallied = t })
  | inl rejects ↦
      let inside : status_index s < length e.rejects_by_status =
        rw t.counters (status_index-in_range s) in
      let below = lt→ltb (status_index s) (length e.rejects_by_status) inside in
      rw (count_reject, rejects, below)
        (record {
          rejected = rw rejects refl;
          tallied = record {
            counters = length-set e.rejects_by_status (status_index s) _ ∙ t.counters;
            total =
                ap next_count t.total ∙ sym (sum-count e.rejects_by_status (status_index s) inside);
          };
        })
]

Tallies-SameTallies :
    (a b c : MatchingEngine) (s : Status) → SameTallies a b → Tallies b c s → Tallies a c s
Tallies-SameTallies a b c s x y = record {
  rejected = y.rejected ∙ ap (λ n. if reject_status s then next_count n else n) x.same_rejects;
  tallied = y.tallied;
}

SameTallies-IsTallied : (a b : MatchingEngine) → SameTallies a b → IsTallied a → IsTallied b
SameTallies-IsTallied a b x t = record {
  counters = ap length x.same_by_status ∙ t.counters;
  total = x.same_rejects ∙ t.total ∙ ap (λ xs. sum xs % u64_mod) (sym x.same_by_status);
}

finish_dispatch-Tallies :
    (a b : MatchingEngine) (r : DispatchResult)
    → IsTallied a
    → SameTallies a b
    → Tallies a (finish_dispatch b r).0 r.status
unfolding finish_dispatch
finish_dispatch-Tallies a b r t x =
    let high = record_event_high_water b r.events_emitted in
    let same = then-SameTallies a b high x (high_water-SameTallies b r.events_emitted) in
    Tallies-SameTallies a high (count_reject high r.status) r.status same
      (count_reject-Tallies high r.status (SameTallies-IsTallied a high same t))

answer-Tallies :
    (a b : MatchingEngine) (id : ℕ) (r : DispatchResult)
    → IsTallied a
    → SameTallies a b
    → Tallies a (answer b id r).0 (answer b id r).1.status
unfolding answer finish_dispatch
answer-Tallies a b id r t x = finish_dispatch-Tallies a b (with_market_data b id r) t x

dispatch_op-Tallies :
    (a e : MatchingEngine) (c : Command) (participant : ℕ) (post_only : Bool) (op : CommandOp)
    → IsTallied a
    → SameTallies a e
    → Tallies a
        (dispatch_op e c participant post_only op).0
        (dispatch_op e c participant post_only op).1.status
unfolding dispatch_op finish_dispatch add_limit_order cancel modify replace match_market_order
dispatch_op-Tallies a e c participant post_only CommandOp.add t x =
    answer-Tallies a _ c.instrument_id (of_add _) t
      (then-SameTallies a e _ x (route-SameTallies e c.instrument_id _ _ _))
dispatch_op-Tallies a e c participant post_only CommandOp.cancel t x =
    answer-Tallies a _ c.instrument_id (of_cancel _) t
      (then-SameTallies a e _ x (route-SameTallies e c.instrument_id _ _ _))
dispatch_op-Tallies a e c participant post_only CommandOp.modify t x =
    answer-Tallies a _ c.instrument_id (of_modify _) t
      (then-SameTallies a e _ x (route-SameTallies e c.instrument_id _ _ _))
dispatch_op-Tallies a e c participant post_only CommandOp.replace t x =
    answer-Tallies a _ c.instrument_id (of_replace _) t
      (then-SameTallies a e _ x (route-SameTallies e c.instrument_id _ _ _))
dispatch_op-Tallies a e c participant post_only CommandOp.market t x =
    answer-Tallies a _ c.instrument_id (of_match _) t
      (then-SameTallies a e _ x (route-SameTallies e c.instrument_id _ _ _))
dispatch_op-Tallies a e c participant post_only (CommandOp.raw n) t x =
    finish_dispatch-Tallies a e (make_dispatch_result Status.invalid_command) t x

-- On an engine whose counter of rejects is the sum, in 64 bits, of its counters by status, a dispatched
-- command counts as a reject exactly if its answer is a rejecting status, and the sum stays right.
pub dispatch-Tallies :
    (e : MatchingEngine) (v : VenueCommand)
    → IsTallied e
    → Tallies e (dispatch e v).0 (dispatch e v).1.status
unfolding dispatch finish_dispatch
dispatch-Tallies e v t =
    let counted = record e { dispatch_count = next_count e.dispatch_count } in
    let sorted = count_dispatch_op counted v.command.op in
    let y = count_dispatch_op-SameTallies counted v.command.op in
    let x : SameTallies e sorted = record {
      same_rejects = y.same_rejects;
      same_by_status = y.same_by_status;
    } in
    elim (Bool-cases (valid_command_op v.command.op)) [
      | inr p ↦
          rw (dispatch, p)
            (finish_dispatch-Tallies e counted (make_dispatch_result Status.invalid_command) t
              (record { same_rejects = refl; same_by_status = refl }))
      | inl p ↦ elim (Bool-cases (valid_venue_command v)) [
        | inr q ↦
            rw (dispatch, p, q)
              (finish_dispatch-Tallies e sorted (make_dispatch_result Status.invalid_command) t x)
        | inl q ↦
            rw (dispatch, p, q)
              (dispatch_op-Tallies e sorted v.command v.participant_id v.post_only v.command.op t x)
      ]
    ]
