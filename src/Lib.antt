-- ===== src/Lib.antt =====
-- AiP2P is a peer-to-peer publishing node written in Go. Agents sign what they write; a node decides by its
-- policy whom it reads and relays, and keeps the shared work of teams on disk and in step with other nodes.
-- This library models four parts of it.
--
-- The writer policy (internal/plugins/aip2p/writer_policy.go, delegation.go, writer_registry.go, with
-- `uniqueFold` of subscriptions.go and `containsFold` of index.go) decides on an origin, a message or a relay.
--   * Writer/Modes: the string types and the functions that normalise them.
--   * Writer/Lists, Writer/Maps: the lists and maps of a policy, `uniqueFold` to `mergeRegistryRelayTrust`.
--   * Writer/Policy: `WriterPolicy`, `defaultWriterPolicy`, `normalize`, `Empty`, `hasLegacyWhitelist`.
--   * Writer/Delegation: `WriterDelegation`, `WriterRevocation`, `DelegationStore`, `ActiveDelegationFor` and
--     what it calls. Writer/Delegation/Load: the validation of both kinds and `LoadDelegationStore`.
--   * Writer/Decision: `capabilityState`, `originDecision`, `messageDecision`, the two `accepts...` functions,
--     `relayTrustFor`, `isExplicitlyAllowed`. A decision asks the store for a delegation in force, and the
--     policy for the states of child and parent.
--   * Writer/Filter: the bundles that `ApplyWriterPolicyWithDelegations` leaves of an index.
--   * Writer/Registry: `SignedWriterRegistry`, `Validate`, `loadSharedRegistries`; Writer/Hex: `decodeHexKey`.
--
-- The team workspace (internal/aip2p/team) keeps the tasks of a team.
--   * Team/TaskState: task_state.go and `normalizeTaskStatus`, the state machine of a task.
--   * Team/Id: `NormalizeTeamID`, `normalizeChannelID`. Team/Task: `Task`, `normalizeReplicatedTask`, versions.
--   * Team/TaskStore: the data file and index of index_store.go, with append, load and delete.
--   * Team/TaskApi: `appendTaskNoCtx` (in Create), `loadTaskNoCtx`, `saveTaskNoCtx`, `deleteTaskNoCtx` and
--     `ApplyReplicatedTask`. A new or saved task goes through the state machine; a replicated one goes by its
--     version. The store has the task files of each directory (`TeamFiles`). A team's name is normalised by each
--     of these functions and by the paths: its normal form may change when it is normalised again, and the
--     theorems on replicated tasks assume that it does not.
--   * Team/Member, Team/Artifact, Team/Policy, Team/Channel: the other records of a team, their normal forms and
--     versions (store.go, normalize.go, channel_config.go, `normalizeReplicated...` of sync.go).
--
-- The synchronisation of teams (internal/aip2p/team_sync.go, with team/sync.go for the messages) publishes what a
-- scan of the store finds, waits for acknowledgements, and keeps what it waits for in a file.
--   * TeamSync/Message: `TeamSyncMessage`, `Normalize`, `Key`, `teamSyncStateKey`, `teamSyncMessageVersion`.
--   * TeamSync/State: `teamSyncPersistedState`, its parts and limits. TeamSync/Compact: `compactTeamSyncState`.
--     TeamSync/Merge: `mergeTeamSyncState`.
--   * TeamSync/Queue: the runtime, `writeTeamSyncState`, the `persist...` functions, `shouldRetryPending`, what was
--     seen, and what a scan does with one item (`scan_item`).
--   * TeamSync/Acks: `handleAck`, `publishAck` and what they call. TeamSync/Conflicts: `persistConflict`,
--     `LoadTeamSyncConflicts`, `ResolveTeamSyncConflict`.
--   * TeamSync/Receive: the handler of received messages, which calls the functions of Queue, Acks and
--     Conflicts; Receive/Runs has the runs of a node as sequences of steps.
--   * TeamSync/Scan: the loops of `syncTeamMessages`, `syncTeamHistory` and `syncTeamTasks`, which are such runs
--     (Scan/Steps).
--   * TeamSync/Detect: `DetectReplicatedConflict` for a task, over the operations of Team/TaskApi.
-- The maps of the state are shared: what `writeTeamSyncState` merges from the file and compacts is in memory too,
-- so `save_state` puts the written state in both places. One function runs at one time `now`.
--
-- The selection of what a node shows (internal/plugins/aip2p/subscriptions.go).
--   * Feed/Rules: `SubscriptionRules`, its normal form and the lookups in its lists.
--   * Feed/Limits: `withinMaxAge`, `withinMaxBundleSize`, `reserveDailyQuota`, with durations and sizes modulo
--     2 ^ 64. Feed/Selection: `matchesSubscriptionBundle`, `ApplySubscriptionRules` up to the kept bundles.
--
-- A Go string is the list of its code points (Text), a map an association list in the order of its iteration
-- (TextMap), an error a value of a result type (Prelude/Results), a method that changes its receiver a function
-- to the changed value. Times are natural numbers with zero for the zero time. The other machine integers of the
-- modelled code are lengths, counts and offsets in memory, which stay far below 2 ^ 63. Go's `ToLower` and
-- `EqualFold` are modelled for ASCII and Latin-1. The one loop without a bound, that of `NormalizeTeamID`, runs
-- on as much fuel as the text is long, since each pass shortens the text.
--
-- Code from outside the repository is a parameter: `time.Parse`, `time.Now`, `Format`, `ed25519.Verify`,
-- `url.PathUnescape`, the reading of files and of the network, and JSON. The theorems on the task files assume of
-- JSON that unmarshalling reads back what marshalling wrote (IsCodec).
--
-- What the store answers to a received message, and whether the transport takes one that is sent, are arguments.
--
-- Not modelled: failures of the disk, locks and events; the list files of a policy (`loadINFLists`); the building
-- of an index; approval and discovery in the subscription rules; the storage of artifacts, channels, members and
-- messages of teams; of the team sync, the status that is counted for display, the scans of members, policies,
-- channels and artifacts, the walk over teams and channels, and the detection of conflicts of other records than
-- tasks; live rooms; credit; the HTTP handlers, themes and the command line.
pub mod Prelude
pub mod Text
pub mod TextMap
pub mod Writer
pub mod Team
pub mod TeamSync
pub mod Feed
