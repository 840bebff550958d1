-- ===== src/Connectivity/Connector/Invariant/Kept.antt =====
-- Each operation of the connector keeps its invariant.
use peer_application_runtime.Connectivity.State.{
  Connection, Operation, Connector, connection, is_set, without_key, schedule_close, close_ended,
  set_stop, abandon, without_task, disposes, task_ended,
}
use peer_application_runtime.Connectivity.Connector.Invariant.Passed.{Passed}
use peer_application_runtime.Base.{
  ℕ, suc, ◌+◌, ◌≤◌, ◌≡◌, refl, List, [], ◌∷◌, Bool, true, not, Option, none, some, ◌==◌, length,
  All, arith, if◌then◌else◌, if-both, ltb→lt,
}
use peer_application_runtime.Base.Outcomes.{on_if, on_outcome}
use peer_application_runtime.Base.Fallible.{done, after_demand}
use peer_application_runtime.Connectivity.Model.{
  closed, cancelled, invalid_purpose, cleanup_failed, inflight_budget, connection_budget,
  RouteGrant, Policy,
}
use peer_application_runtime.Connectivity.Connector.{
  is_purpose, has_slot, has_room, register, end_operation, Call, check_call, operation_of,
  add_operation, close_all, drain_active, stop_all, change_network, close, disconnect,
}
use peer_application_runtime.Connectivity.Connector.Invariant.{
  gens, count, Inv, remove_active-Below, length-remove_active, remove_active_empty, count_le,
  length-gens, count_later, past-suc, gens-stop_all, discard-past, count-discard,
  count-discard_there, update-Inv, schedule_close-Inv,
}

pub register-Inv :
    (op : Operation) (now : ℕ) (c : Connection) (s : Connector)
    → Passed op now s
    → Inv s
    → Inv (register op c s)
unfolding register
register-Inv op now c s w v = record {
  fresh = (omega arith, v.fresh);
  none_after_close = λ e. cc (e, w.not_closed);
  past = discard-past _ op s.operations v.past;
  bounded =
      omega (arith, v.bounded, count-discard_there s.generation op s.operations w.found w.current);
}

pub end_operation-Inv : (op : Operation) (s : Connector) → Inv s → Inv (end_operation op s)
unfolding end_operation
end_operation-Inv op s v = record {
  fresh = v.fresh;
  none_after_close = v.none_after_close;
  past = discard-past _ op s.operations v.past;
  bounded = omega (arith, v.bounded, count-discard s.generation op s.operations);
}

-- A call is admitted only while there is room for its connection.
pub check_call-room :
    (call : Call) (s : Connector) {grants : List RouteGrant}
    → check_call call s ≡ done grants
    → suc (length s.active + length s.operations) ≤ s.policy.max_connections
unfolding check_call
check_call-room call s e = after_demand (not s.is_closed) closed e λ a rest.
    after_demand (is_purpose call.purpose) invalid_purpose rest λ b rest.
      after_demand (not (is_set call.cancel)) cancelled rest λ d rest.
        after_demand (s.cleanup_failures == 0) cleanup_failed rest λ f rest.
          after_demand (has_slot s) inflight_budget rest λ slot rest.
            after_demand (has_room s) connection_budget rest
              λ room rest. omega (arith, ltb→lt _ s.policy.max_connections room)

pub admitted-Inv :
    (call : Call) (s : Connector) {grants : List RouteGrant}
    → check_call call s ≡ done grants
    → Inv s
    → Inv (add_operation (operation_of call s) s)
unfolding add_operation operation_of
admitted-Inv call s e v = record {
  fresh = v.fresh;
  none_after_close = v.none_after_close;
  past = (omega arith, v.past);
  bounded = room;
}
  where
    room :
        length s.active
          + ((if s.generation == s.generation then 1 else 0)
              + count s.generation (gens s.operations))
        ≤ s.policy.max_connections
    room = ground (
      arith,
      check_call-room call s e,
      count_le s.generation (gens s.operations),
      length-gens s.operations,
    )

pub close_ended-Inv :
    (c : Connection) (ok : Bool) (s : Connector) → Inv s → Inv (close_ended c ok s)
unfolding close_ended
close_ended-Inv c ok s v =
    if-both Inv ok _ _ (λ e. kept)
      λ e. record {
        fresh = v.fresh;
        none_after_close = v.none_after_close;
        past = v.past;
        bounded = v.bounded;
      }
  where
    kept : Inv (record s { closing = without_key c.key s.closing })
    kept = record {
      fresh = v.fresh;
      none_after_close = v.none_after_close;
      past = v.past;
      bounded = v.bounded;
    }

pub abandon-Inv :
    (dispose : Bool) (op : Operation) (s : Connector) → Inv s → Inv (abandon dispose op s)
unfolding abandon set_stop
abandon-Inv dispose op s v =
    let w = update-Inv s op.number (λ o. record o { stop = true }) (λ o. refl) v in
    record {
      fresh = w.fresh;
      none_after_close = w.none_after_close;
      past = w.past;
      bounded = w.bounded;
    }

pub task_ended-Inv :
    (n : ℕ) (value : Option Connection) (s : Connector) → Inv s → Inv (task_ended n value s)
unfolding task_ended
task_ended-Inv n value s v = ends value
  where
    kept : Inv (record s { lingering = without_task n s.lingering })
    kept = record {
      fresh = v.fresh;
      none_after_close = v.none_after_close;
      past = v.past;
      bounded = v.bounded;
    }

    ends :
        (o : Option Connection)
        → Inv (elim o as (λ x. Connector) [
          | none ↦ record s { lingering = without_task n s.lingering }
          | some c ↦
              if disposes n s.lingering
              then schedule_close c (record s { lingering = without_task n s.lingering })
              else record s { lingering = without_task n s.lingering }
        ])
    ends none = kept
    ends (some c) =
        if-both Inv (disposes n s.lingering) _ _ (λ e. schedule_close-Inv c _ kept) λ e. kept

pub close_all-Inv : (rows : List (ℕ × Connection)) (s : Connector) → Inv s → Inv (close_all rows s)
close_all-Inv [] s v = v
close_all-Inv ((i, c) ∷ rows) s v =
    close_all-Inv rows (schedule_close c s) (schedule_close-Inv c s v)

-- Emptied of its connections, a connector of a generation no operation has reached is within any bound.
pub renewed-Inv :
    (s : Connector)
    → All (λ g. g ≤ s.generation) (gens s.operations)
    → count s.generation (gens s.operations) ≡ 0
    → Inv (drain_active s)
unfolding drain_active
renewed-Inv s past none_current = close_all-Inv s.active _ (record {
  fresh = tt;
  none_after_close = λ e. refl;
  past = past;
  bounded = omega (arith, none_current);
})

pub drain_active-Inv : (s : Connector) → Inv s → Inv (drain_active s)
unfolding drain_active
drain_active-Inv s v = close_all-Inv s.active _ (record {
  fresh = tt;
  none_after_close = λ e. refl;
  past = v.past;
  bounded = omega (arith, v.bounded);
})

pub stopped-past :
    (g : ℕ) (os : List Operation)
    → All (λ h. h ≤ g) (gens os)
    → All (λ h. h ≤ suc g) (gens (stop_all os)) × (count (suc g) (gens (stop_all os)) ≡ 0)
stopped-past g os v = rw gens-stop_all (past-suc g (gens os) v, count_later g (gens os) v)

pub change_network-Inv :
    (metered : Bool) (p : Option Policy) (s : Connector)
    → Inv s
    → Inv (change_network metered p s).0
unfolding change_network
change_network-Inv metered p s v =
    on_if Inv s.is_closed _ _ (λ e. v)
      λ e.
        let (past, none_current) = stopped-past s.generation s.operations v.past in
        renewed-Inv _ past none_current

pub close-Inv : (s : Connector) → Inv s → Inv (close s)
unfolding close
close-Inv s v =
    if-both Inv s.is_closed _ _ (λ e. drain_active-Inv s v)
      λ e.
        let (past, none_current) = stopped-past s.generation s.operations v.past in
        renewed-Inv _ past none_current

pub disconnect-Inv : (i : ℕ) (s : Connector) → Inv s → Inv (disconnect i s).0
unfolding disconnect
disconnect-Inv i s v =
    on_outcome Inv (connection i s) _ _ (λ e. v)
      λ c found. schedule_close-Inv c _ (record {
        fresh = remove_active-Below i s.next_id s.active v.fresh;
        none_after_close = λ e. remove_active_empty i s.active (v.none_after_close e);
        past = v.past;
        bounded = omega (arith, v.bounded, length-remove_active i s.active);
      })
