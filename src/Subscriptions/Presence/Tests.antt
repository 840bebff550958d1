-- ===== src/Subscriptions/Presence/Tests.antt =====
-- One peer with a hint, its expiry, and a clock that goes back.
use peer_application_runtime.Base.{ℕ, zero, suc, List, [], ◌∷◌, true, false, some, none, ◌≡◌, refl}
use peer_application_runtime.Base.Bytes.{Bytes, bytes_eq, lookup, put}
use peer_application_runtime.Base.Fallible.{done, failed}
use peer_application_runtime.Subscriptions.Presence.{
  Presence, clock_uncertain, stale_hint, recent_hint, recent_state_unknown, create, time,
  activate_now, activate, check_hint, check_row, update_now, check_update, update, get, drop_peer,
  forget, Call, activating, updating, getting, forgetting, call, calls,
}
use peer_application_runtime.Subscriptions.Presence.Limits.{IsWithin, reachable-IsWithin, calls-get}

abbrev zeros : ℕ → Bytes
zeros zero = []
zeros (suc n) = 0 ∷ zeros n

abbrev empty_presence : Presence
empty_presence = record { limit = 1; peers = []; now = none; uncertain = false }

created : create 1 ≡ done empty_presence
unfolding create
created = refl

abbrev hinted : List Call
hinted =
    activating (zeros 32) (zeros 16) (some 5)
    ∷ updating (zeros 32) (zeros 16) 1 (8 ∷ []) 10 (some 6)
    ∷ []

shown : (get (zeros 32) (some 15) (calls hinted empty_presence)).1 ≡ done (recent_hint 1 (8 ∷ []))
unfolding calls call create time activate_now activate check_hint check_row update_now check_update
    update get drop_peer forget bytes_eq lookup put
shown = refl

expired : (get (zeros 32) (some 16) (calls hinted empty_presence)).1 ≡ done recent_state_unknown
unfolding calls call create time activate_now activate check_hint check_row update_now check_update
    update get drop_peer forget bytes_eq lookup put
expired = refl

older :
    (update (zeros 32) (zeros 16) 0 [] 10 (some 7) (calls hinted empty_presence)).1
    ≡ failed stale_hint
unfolding calls call create time activate_now activate check_hint check_row update_now check_update
    update get drop_peer forget bytes_eq lookup put
older = refl

abbrev gone_back : Presence
gone_back = calls (getting (zeros 32) (some 2) ∷ []) (calls hinted empty_presence)

distrusted : gone_back.uncertain ≡ true
unfolding calls call create time activate_now activate check_hint check_row update_now check_update
    update get drop_peer forget bytes_eq lookup put
distrusted = refl

reachable-IsWithin_example : IsWithin 1 (calls hinted empty_presence)
reachable-IsWithin_example = reachable-IsWithin 1 empty_presence hinted created

calls-get_example :
    (get (zeros 32) (some 9) (calls (forgetting (zeros 32) ∷ hinted) gone_back)).1
    ≡ failed clock_uncertain
calls-get_example =
    calls-get (forgetting (zeros 32) ∷ hinted) (zeros 32) (some 9) gone_back distrusted refl
