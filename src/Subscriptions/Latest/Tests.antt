-- ===== src/Subscriptions/Latest/Tests.antt =====
-- A subscriber whose callback runs while more is published.
use peer_application_runtime.Base.{ℕ, List, [], ◌∷◌, true, false, some, ◌≡◌, refl}
use peer_application_runtime.Base.Bytes.{bytes_eq}
use peer_application_runtime.Base.Fallible.{done, failed}
use peer_application_runtime.Subscriptions.Latest.{
  Snapshot, Latest, Step, publishing, beginning, ending, closing, stale_snapshot, snapshot_conflict,
  follow, accept, publish, begin_dispatch, end_dispatch, close, create, step, deliveries,
}
use peer_application_runtime.Subscriptions.Latest.Ascending.{ascends, create-deliveries}

abbrev snapshot : ℕ → Snapshot
snapshot n = record { revision = n; value = n ∷ [] }

abbrev begun : Latest
begun = record {
  closed = false;
  dispatching = false;
  last = some (snapshot 3);
  pending = some (snapshot 3);
}

created : create 3 (3 ∷ []) ≡ done begun
unfolding create publish follow accept
created = refl

-- Two of the three publications coalesce.
abbrev steps : List Step
steps =
    beginning
    ∷ publishing 4 (4 ∷ [])
    ∷ publishing 6 (6 ∷ [])
    ∷ ending
    ∷ beginning
    ∷ ending
    ∷ closing
    ∷ beginning
    ∷ []

coalesced : deliveries steps begun ≡ snapshot 3 ∷ snapshot 6 ∷ []
unfolding deliveries step publish follow accept begin_dispatch end_dispatch close
coalesced = refl

older : publish 2 [] begun ≡ failed stale_snapshot
unfolding publish follow
older = refl

other_value : publish 3 [] begun ≡ failed snapshot_conflict
unfolding publish follow bytes_eq
other_value = refl

create-deliveries_example : ascends 0 (deliveries steps begun) ≡ true
create-deliveries_example = create-deliveries 3 (3 ∷ []) steps begun created
