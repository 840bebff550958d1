-- ===== src/Lib.antt =====
-- Peer Application Runtime: verification library.
--
-- The runtime exchanges frames between peers and keeps what they exchange. Five parts are
-- modelled, which do not call one another: the wire library of experiments/g0-wire/par_wire (a
-- deterministic CBOR codec, the frame grammar, the framing of a byte stream, the session
-- transcript, the window that refuses repeated handshakes, and the walk over the pages of an
-- inventory), the lifecycle of management records of experiments/management-record-lifecycle, the
-- history of signed controls of a Space of experiments/space-auth, the subscriptions of
-- product/wp10, and the connector of product/wp09.
--
-- Base holds what the parts share: tests on numbers (Base/Tests), lists (Base/Lists), bytes and
-- numbers in bytes (Base/Bits), byte strings and dictionaries keyed by them (Base/Bytes), texts as
-- code points (Base/Text), values or errors (Base/Fallible), and what holds in each outcome of an
-- operation (Base/Outcomes).
--
-- Wire/Error and Wire/Value are errors.py and the Python objects that the codec takes. A WireError
-- is its code; the path text that some errors carry is left out. An object is a tree, a `str` is
-- its code points and a `dict` its items in the order of insertion. An object that contains itself
-- is no such tree, so that the encoder's CYCLE check has no counterpart.
--
-- Wire/Utf8, Wire/Head, Wire/Encode and Wire/Decode are codec.py: `encode` is `encode` with `put`
-- and `item` (`put_item`), `decode` is `decode` with `take`, `argument` and `item` (`read_item`).
-- The running totals of the Python closures are the records `Output` and `Input`. The depth of the
-- source counts up to MAX_DEPTH = 32; the model counts the 33 levels that may be entered down, and
-- an item with no level left raises DEPTH. The test that the budgets are in range (ValueError) is
-- not modelled: the budgets are parameters, and the theorems hold for all of them. Python's strict
-- UTF-8 is written out in Wire/Utf8. Wire/Canonical defines the canonical bytes of an object
-- without budgets or state, and Wire/Normal an object with its dicts sorted; Wire/Codec has the
-- theorems on both directions.
--
-- Wire/Schema is `Schema.validate` of schema.py on rules that `parse_cddl` has read: the recursion
-- to depth 128 is on the 129 levels that may be entered. `parse_cddl` is not modelled: the rules
-- are a parameter. Wire/Frame is `validate_frame` of the same file, with the rules of the grammar
-- and the rule that registry.json names for each message code as parameters; its regular
-- expression for an application id is written out on the labels between the full stops.
--
-- Wire/Framing is framing.py: `encode_frame`, `decode_frame` and `FrameReader` as the record
-- `Reader`. `validate_frame` is a parameter `validate` there, since what the framing does does not
-- depend on the grammar; Wire/Frame is one value for it. A time is a number of ticks, and `none` a
-- `now` that is no finite number. The loop of `feed` runs on fuel, the length of the input, of
-- which each round takes a byte.
--
-- Wire/Replay is `ReplayWindow` of negotiation.py. The code compares its times and adds two of
-- them, in Python's numbers, whose sums round: a time is the position of its value among those
-- that occur, in ascending order, and the sum is a parameter, for which nothing is assumed. An int
-- that is too large for a float, for which `math.isfinite` raises an OverflowError, is left out.
-- Wire/Session is the rest of that file: `domain`, `Transcript` with `signing_bytes` and
-- `auth_digest`, and `build_transcript`, with `sha256` and `validate_frame` as parameters. The
-- tests of the types of its arguments are the types of the model, and `Expected` gathers its
-- keyword arguments.
--
-- Wire/Paging is `InventoryWalk` of paging.py: `append` with its checks in their order
-- (`check_scope`, `check_cursor`, `check_budget`, `check_ids`), then the assignments
-- (`take_page`), and the `except` clause (`settle`). `validate_frame` is a parameter here too.
-- `snapshot` only copies the state out.
--
-- Lifecycle is experiments/management-record-lifecycle/par_record_lifecycle. Its errors are the
-- codes of `LifecycleError` (Lifecycle/Json, with `canonical`: JSON texts are lists of code
-- points, and the plan that a `close` event carries is a JSON tree, for which no RecursionError is
-- modelled). Lifecycle/Record, Lifecycle/Inventory and Lifecycle/Plan are contracts.py:
-- `validate_record`, `validate_inventory`, whose walk over the references runs on fuel for the
-- length of its path, one more than the records, since no record is twice on a path
-- (Lifecycle/Inventory/Fuel), and `plan`. A dict that the schema checks admit is a record with its
-- fields. Lifecycle/Events and Lifecycle/Model are model.py: `_run` is `run`, `_apply` is `apply`
-- with one definition for each event, and an event that fails leaves the model as it was, since
-- `_run` works on a copy. `archive` and `compact` on a model without a pending archive, which the
-- source cannot reach, raise `fault`. Lifecycle/Model/Restore is `pin` and `restore`, which takes
-- the document that json.loads has read. The hash function is a parameter `sha`.
--
-- Authority is experiments/space-auth/par_auth. Authority/Membership is `verify_membership` of
-- membership.py, Authority/State and Authority/Chain are `AuthorityState` of chain.py: `__init__`
-- is `create`, `_inspect` is `inspect` with `check_control`, and `observe` and
-- `provide_membership` return the state beside their outcome, since both can raise after they have
-- changed it. The dicts `_nodes`, `_sequences` and `_memberships` are lists of items, and
-- `_events` the list that they record. `parse` tests the length; the canonical decoder with the
-- rules of the grammar, the hashes and the signatures are the record `Services`. The revision
-- stands for the `_stamp` of a state, and the guards against another thread and against
-- reentrance, which no call of the model meets, are left out. `fault` is any other exception (a
-- KeyError, say). Authority/Permit is `authorize` and `validate_permit`, with the seal of a permit
-- as a parameter and the revision for the stamp; the owner that a permit also holds is left out,
-- as there is one state. Authority/Activation is activation.py and `activate`, with the packages
-- and blocks as the record `Opening`. Authority/Admission is admission.py, with the signed objects
-- as the record `Signing`. `status` and the other files of the package are not modelled.
--
-- Subscriptions is product/wp10/subscriptions.py. Subscriptions/Latest is `LatestSnapshot`:
-- `dispatch` is `begin_dispatch` and `end_dispatch`, so that a callback may call the object in
-- between. Subscriptions/Presence is `PresenceHints`: a call takes the reading of the clock, and
-- returns the state beside its outcome, since it can raise after the clock has been read. The
-- checks of the owning process and thread are left out.
--
-- Connectivity is product/wp09/par_connectivity. Connectivity/Ip is what policy.py uses of the
-- library's ipaddress, written out; Connectivity/Model, Connectivity/Endpoint and
-- Connectivity/Grants are the values of model.py, the texts that are read, and the checks a value
-- makes of itself; Connectivity/Policy is the rest of policy.py. Connectivity/State is the state
-- of controller.py, and Connectivity/Connector what it does between two awaits, each an `Event`;
-- Connectivity/Connector/Awaits is `_stage`, and Connectivity/Connector/Connect is `connect` with
-- `_connect`, in a `World` that gives, for every await, the events of other tasks, the clock, and
-- how the port's task stands. Operations and tasks have numbers, and a connection its `id`. Times
-- are milliseconds. Left out are the tests of the loop and of types, cancellation of the calling
-- task, `wait_for_cleanup`, which polls, and the sockets of tcp.py.
--
-- Not modelled are the other parts above the wire: stores, exchange, migration and the host
-- services, and the front ends, tools and tests.
pub mod Base
pub mod Wire
pub mod Lifecycle
pub mod Authority
pub mod Subscriptions
pub mod Connectivity
