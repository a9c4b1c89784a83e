-- ===== src/Lib.antt =====
-- A model of the core of Attic, a USI shogi engine in Rust.
--
-- The engine is a stack of crates. crates/attic-state holds the rules: pieces, squares, hands, sets
-- of squares, the board with its derived sets, moves packed in 32 bits, the Zobrist keys, and the
-- position that plays and takes back moves. crates/attic-storage holds the transposition table, in
-- which the search keeps what it learned of a position under its key, and the opening book, which
-- maps packed positions to moves. The search, evaluation and
-- protocol crates stand on these; of the search, the history tables that order moves are modelled.
--
-- Which file models which part:
--   * State/Piece: src/color.rs and src/piece.rs of crates/attic-state (`Color`, `PieceKind`, `Piece`);
--   * State/Square: src/square.rs; an index below 81;
--   * State/Hand: src/hand.rs; the seven saturating counters;
--   * State/Bitboard: src/bitboard.rs, sets of squares on two 64-bit lanes. The set operations stand in
--     the module itself; `Rays` has the directions, rays and step tables, with the step lists of
--     src/movegen.rs, `Sliders` the attacks of lance, rook and bishop by the scalar lane operations,
--     `Geometry` the lines between squares, the masks and the promotion zones, `Iter` the iterator;
--     `Walk` is the reference that goes step by step, and the other files there prove what is stated;
--   * State/PackedSfen: src/packed_sfen.rs, pass by pass; a code that the source calls unreachable is
--     `none`. `Whole` gives the stream that the passes write, `Reading` reads its codes back;
--   * State/Board: src/board.rs; `put` is `Board::set`, and `toggle_sets` keeps the derived sets;
--   * State/Move: the encoders and readers of src/move_.rs, and `flip_move16`; a reader that panics
--     on a malformed word gives `none`;
--   * State/Sfen: src/sfen.rs. `Chars` the characters, errors and numbers, `Parser` `parse_sfen` and
--     `Position::startpos`, `Printer` `format_sfen`; the overflow of a count wraps around, and
--     a printed number has fuel for five digits, enough for a `u16`;
--   * State/Usi: `parse_usi_move` and `format_usi_move` of src/move_.rs;
--   * State/Key: src/key.rs; `build` draws the tables as the program does, so that a key can be
--     evaluated. `Tables` says which draw of the generator each cell gets;
--   * State/Position: src/position.rs. `Types` has the records, `Moves` `do_move_with_check`,
--     `do_move` and `undo_move`, `Null` the null moves, `Hash` the recomputed keys and
--     `refresh_keys`, `Repetition` the repetition queries, `Setters` the direct setters, `King`
--     `king_square` with the search for a king of src/movegen.rs; the other files there prove what is
--     stated of them;
--   * Storage/Entry and Storage/Table: crates/attic-storage/src/tt.rs, an entry with its replacement
--     policy, which `Entry/Policy` specifies on what a reader sees, and the clusters with `resize`,
--     `clear`, `new_search`, `hashfull`, `probe`, `locate`
--     and `write_at`; a `TTWriter` is the slot of the entry that it borrows.
--   * Storage/Bytes and Storage/Book: crates/attic-storage/src/book.rs, the reader of `.ybb` opening
--     books. Bytes has the slices and little-endian words; Book opens a book in memory
--     (`from_memory`) or on two files (`open_on_the_fly`) and probes it; Book/Build is the writer of the
--     source's tests, after its sort; the other files there prove what is stated of them;
--   * Search/History: crates/attic-search/src/history.rs. `apply_gravity` and the indices, `Tables` the
--     tables by their own operations, `Races` `apply_gravity_atomic` of several threads as a relation
--     of loads and stores, where a load sees the last store to its entry;
--   * Prelude: what these share: tests, arrays as lists, bits of a word, integers.
--
-- A `&mut self` method is a function from the old value to the new one. A word of w bits is a number
-- below 2 ^ w, with the wrap-around of the program written out. An array is a list of its length; a
-- vector that grows at its end is a list with the last element first. Loops are structural: over a
-- list, or over the number of rounds left, which is the bound of the program's own loop; the walk
-- back of `is_repetition` has fuel for seven rounds, the distances 4 to 16 by twos.
--
-- The check cache of a position is computed by src/search_movegen.rs, which is not modelled: the
-- position takes its operations as the record `CheckOps`, of any type of cache. No result needs a
-- hypothesis on them. The build is the release build with the default feature quick-draw: debug
-- assertions and the repetition fields of the other build are left out. `plies_from_null` is a
-- number without bound; it grows by one with each move.
--
-- The transposition table is modelled for one thread at a time: a field is an atomic, and a read that
-- another thread's save interrupts is not described. Allocation, prefetching and the checksum for
-- tests are left out.
--
-- The binary search of the book has fuel for 65 rounds, enough for any count of records below 2 ^ 64,
-- since a round halves the range. The files of a book on the fly are parameters, two handles with
-- `seek` and `read_exact`; what they do is a hypothesis where a result needs it (`Holds`). A slice
-- that the source takes of a buffer of known length is read without a check, and the lengths are
-- those that the checked slice before it gives.
--
-- A table that the source builds at compile time is a function of its index. The loops along a line
-- have fuel for nine rounds, since a line has eight squares at most. The intrinsics of SSE2 and AVX2
-- are not modelled; their scalar twins in the source are. The occupancy of a slider may be any two
-- numbers: the masks cut off what is no square.
--
-- Not modelled: move generation and check information, which stand on the attacks; static exchange and
-- mate search, the arena, search but its histories, evaluation, protocol, NUMA and the binaries.
pub mod Prelude
pub mod State
pub mod Storage
pub mod Search
