-- ===== src/Lib.antt =====
-- ActionRPGServer: the authentication, town and game room servers of an action role-playing game
-- (ActionRPGServer/, C++). The town server owns parties, characters and the link to the room servers;
-- a room server runs dungeons. This library models the parts of the program that keep state or
-- compute with it, and leaves out sockets, files, databases and floating-point simulation.
--
-- Parts and files:
-- - Common and its children: tests on numbers, lists measured by native numbers, `std::unordered_map`
--   as an association list (Common/Map), calls that may throw (Common/Outcome), decimal numerals.
-- - Party: ActionRPGServer/TownServer/PartyManager.h and .cpp. `Manager` of Party/State is the class's
--   fields: `parties`, `playerParties`, `invitationsByTarget` and the two counters. Each method is a
--   function from its arguments and the state to the new state, the result and the out parameter:
--   `create`, `invite`, `answer_invitation`, `join_approved`, `leave`, `kick`, `remove_player`,
--   `set_settings`, `set_leader`. Party/Seats is the array of eight slots, Party/Title the check of
--   a title as UTF-8, Party/Calls a call as data and histories of calls. Party/Invariant states the
--   invariant; Party/Preserves, Party/Leaving, Party/Safety and Party/Founding prove that the
--   operations keep it; Party/Histories, Party/Moves, Party/Answers and
--   Party/Departures hold the theorems;
--   Party/Queries and Party/Listing model the queries.
-- - Progression: ActionRPGServer/Shared/CharacterProgression.h. `add_experience` is `AddExperience`, in
--   the parts `cost` (its lambda), `search_levels` (its binary search) and `award` (its end);
--   `advance_level` is `AdvanceLevel`. Progression/Climb is the plain description of an award, one
--   level at a time; Progression/Numerals is `ExperienceValue`.
-- - RoomControl: ActionRPGServer/Shared/RoomControlProtocol.h and .cpp. RoomControl/Writer and
--   RoomControl/Reader are `PacketWriter` and `PacketReader`; Creation, Endings, Players and Quests
--   hold an encoder and a decoder for each packet, RoomControl/Packets puts them together.
-- - Sessions: ActionRPGServer/AuthServer/SessionRegistry.h, each method a function on the four maps of
--   `Registry`; Sessions/State is the state and `Prune`, Sessions/Tickets holds the theorems.
-- - Inventory: ActionRPGServer/Shared/Inventory.h. `acquire`, `remove`, `consume_items`, `equip` and
--   `unequip` are the methods on the vector of stacks, in the parts of their loops; Inventory/Stacks holds the
--   stacks and definitions, Inventory/Valid what `Inventory::Parse` checks and the bag of items that an
--   inventory stands for. Inventory/Tally, Positions and Marks carry the sums, the lists of
--   positions and the array of slots; Rooms, Fills, Places and Acquires follow `Acquire`; Consumes, Drains and Takes
--   follow `Consume`; Swaps, Equips, Gear and Unequips follow the equipment; Few
--   counts the places that stacks can lie in; Operations, Refusals and Bags are about any operation.
-- - SkillTree: ActionRPGServer/Shared/SkillTreeCatalog.h. `can_learn`, `learn`, `level_for` and
--   `validate_progression` are the methods of the class on a tree of nodes, which stand for the fields that they
--   read of the JSON; Learns and Valid are about learning, Bounds about the level that a rank asks for.
-- - Rooms: ActionRPGServer/GameRoomServer/RoomManager.h and .cpp. `RoomManager` of Rooms/State is the class's
--   fields; each handler that runs on the strand is a function from its arguments and the state to the new state
--   and the list of its actions (packets sent, sessions rejected, calls of rooms). What a room calls back is an
--   event of its own, with the callback's arguments: Rooms/Making, Rooms/Joining and Rooms/Reports hold the
--   handlers, Rooms/Events has all events, `step` and `run`. A call within a
--   handler runs at once, as `asio::dispatch` does on its own strand. Rooms/Invariant and Rooms/Histories are about
--   every history, Rooms/Stopped about those after `Stop`, Rooms/Creates and Rooms/Joins about one handler.
-- - Quests: ActionRPGServer/Shared/QuestState.h, of which `held_items` is `Held`; Quests/TurnIn compares it with
--   the inventory.
--
-- Numbers are natural numbers; every wrap-around of an unsigned type that can happen is written as a
-- remainder. Titles and packet texts are lists
-- of bytes; skill names and tokens are strings. The order of iteration of a hash map is the order of the list.
--
-- Fuel: the scan of a title takes at least a byte a round, so the length of the title is enough. The
-- binary search over levels is given twenty rounds; a million levels need no more, since each round
-- halves what is left. A decimal numeral is given twenty rounds, one for each digit of a 64-bit number.
--
-- Not modelled: JSON readers and writers, whose library is not in the
-- repository, so that the bounds they check are hypotheses on policies and characters; the town
-- instance that calls the party manager; game rooms, combat and dungeons, which the room manager only
-- calls; `ItemUse` and `QuestContext` of the room manager; the
-- progress of quests; sockets, ODBC and entry points.
pub mod Common
pub mod Party
pub mod Progression
pub mod RoomControl
pub mod Sessions
pub mod Inventory
pub mod SkillTree
pub mod Rooms
pub mod Quests
