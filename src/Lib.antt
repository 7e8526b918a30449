-- ===== src/Lib.antt =====
-- The engine of GNU Backgammon for Android, modelled and verified.
--
-- The repository is the engine of GNU Backgammon in C (engine-core), a bridge to the Android app
-- (jni-bridge) and the app in Kotlin. This library models the parts of the engine that decide what
-- may be played and what has happened: the board, the moves, the record of a game, the outcome, the
-- encodings of a position, the match clock, and what serves the evaluation without floats: the cache
-- of evaluations, the tables of escaping rolls, and the cube info. The engine plays a turn by listing
-- the moves of a roll (`GenerateMoves`), evaluating the positions that they lead to, and adding a
-- record to the game, which `CalculateBoard` replays to the match state; the app shows a position by
-- its ID and lets the clock run beside the game. The clock shares no state with the rest.
--
-- The files, with the functions that their definitions translate:
--   Clock          engine-core/timecontrol.c, timecontrol.h: tc_init, settle, tc_settle,
--                  tc_start_turn, tc_pause, tc_resume, tc_state, tc_serialize, tc_deserialize.
--                  Clock/Mobile: tc_cbg_now and the functions gnubg_mobile_clock_... of
--                  jni-bridge/src/gnubg_mobile.c, through which the app uses the clock.
--   Board          engine-core/eval.c: SwapSides, PipCount, ApplySubMove, ApplyMove, LegalMove;
--                  engine-core/positionid.c: EqualBoards.
--   Position       engine-core/positionid.c, positionid.h. Position/Key: PositionKey, PositionFromKey,
--                  PositionFromKeySwapped, EqualKeys. Position/Check: CheckPosition,
--                  ClosestLegalPosition. Position/Id: Base64, oldPositionFromKey, PositionFromID.
--                  Position/Encode: addBits, oldPositionKey, oldPositionIDFromKey, PositionID,
--                  PositionIDFromKey. Position/Xg: PositionFromXG. Position/Bearoff: InitCombination,
--                  Combination, PositionF, PositionInv, PositionBearoff, PositionFromBearoff,
--                  PositionIndex.
--   Moves          engine-core/eval.c: SaveMoves, GenerateMovesSub, GenerateMoves.
--   Escapes        engine-core/eval.c: ComputeTable0, Escapes, ComputeTable1, Escapes1.
--   CubeInfo       engine-core/eval.c, eval.h: SetCubeInfo, SetCubeInfoMoney, SetCubeInfoMatch. The
--                  gammon prices, which are floats, are the places that they are copied from.
--   Outcome        engine-core/eval.c: ClassifyPosition, EvalOver, GameStatus;
--                  engine-core/bearoff.c: isBearoff.
--   Game           engine-core/play.c: PlayMove, ApplyGameOver, ApplyMoveRecord, FixMatchState,
--                  CalculateBoard, gnubg_can_double. Game/Start: InitBoard of
--                  jni-bridge/src/android-app.c.
--   MatchId        engine-core/matchid.c: LogCube, SetBit, SetBits, GetBits, MatchID, MatchIDFromKey,
--                  MatchFromKey, MatchFromID.
--   Cache          engine-core/lib/cache.c, cache.h: GetHashKey, CacheLookupNoLocking,
--                  CacheAddNoLocking, CacheFlush. Cache/Create: CacheCreate, CacheResize, and
--                  EvalCacheResize of engine-core/eval.c.
--   LinkedList     engine-core/lib/list.c, list.h: ListCreate, ListInsert, ListDelete, ListDeleteAll,
--                  on a heap of nodes.
--   Base           lists, integers, decimal text and two-element arrays that the parts share.
-- Each part is a module with its types and operations; the modules below it prove its properties, and
-- those named Examples hold tests and witnesses.
--
-- A `TanBoard` is two rows of 25 points, row 0 the opponent, row 1 the player on roll, each counted
-- from its own side, 24 the bar. An `unsigned int` is a number with its wrap-around written out, an
-- `int` that may be negative an integer, a struct a record, a pointer that a function writes through
-- a result. `errno` and output are left out.
--
-- Loops over points and lists are structural. `GenerateMovesSub` calls itself one level deeper each
-- time and returns at depth 4, so five levels of fuel, `max_depth`, are enough. `LogCube` halves its
-- number each time and the loop of `CacheCreate` makes its number smaller, so as many rounds as the
-- number are enough. The loop of `ComputeTable1` looks for one of 12 bits, and has as many rounds.
-- `ListDeleteAll` deletes one node each time, so as many rounds as the list has nodes are enough.
-- `PositionF` and `PositionInv` call themselves with one bit less, which is their structural
-- recursion. The other loops need no fuel.
--
-- A write out of the bounds of an array is a failure where the code can make one (`PositionFromXG`), and
-- an index of a table keeps its sign (`SetCubeInfoMatch`). The list of moves is unbounded: the limit
-- `MAX_INCOMPLETE_MOVES` of its array is left out.
--
-- Not modelled: the neural networks and all evaluation with floats, which are tested and not proved;
-- the bearoff databases, which count here by the fields that `isBearoff` reads; rollouts, analysis, the
-- match equity tables; dice generators; SGF files and other import and export; the commands and the
-- settings; race counts; threads and locks, files, sound and network; the rest of the bridge and the
-- app, which are glue. Third-party code in engine-core/lib (MD5, ISAAC, SFMT) is left out.
pub mod Base
pub mod Clock
pub mod Board
pub mod Position
pub mod Moves
pub mod Outcome
pub mod Game
pub mod MatchId
pub mod Cache
pub mod LinkedList
pub mod Escapes
pub mod CubeInfo
