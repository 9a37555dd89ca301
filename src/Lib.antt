-- ===== src/Lib.antt =====
-- Fyra, a compiler back end with its own linker: the lexer of its language, dominators and the
-- union-find of its optimizer, the register allocator, the reader of archives, the evaluation of
-- relocations and the internal linker, with the plan of a shared library, and the numbers of
-- WebAssembly modules.
--
-- Parts, and the files that model them:
-- - Object and Target: include/target/artifact/object/ObjectArtifact.h and
--   include/target/core/TargetDescriptor.h, the data that object readers hand to the linker.
-- - Relocation: src/target/artifact/linker/TargetRelocationEvaluator.cpp. Relocation/Kind has
--   normalizeType, Relocation/Encode the instruction fields, Relocation/Evaluate evaluate and
--   getImportThunkBytes. Jumps and Pages are about the fields, Writes about the bytes that change,
--   Values and Results about what the processor reads afterwards.
-- - Linker: src/target/artifact/linker/InternalLinker.cpp with LinkedImage.h. Linker/Layout places
--   sections, Linker/Symbols resolves names, Linker/Entry adds the _start stub, Linker/Relocate
--   applies relocations and makes import thunks, Linker/Link is link as a whole, and Linker/Lazy is
--   extractLazyArchiveMembers. Symbols/Resolved is about the addresses of the symbols, Lazy/Marked about
--   where the extracted artifacts come from. Linker/Plan is createFromLinkedImage of
--   src/target/artifact/linker/DynamicLinkPlan.cpp.
-- - Wasm: the LEB128 encoders of include/target/architecture/wasm32/WasmBinary.h.
-- - Egraph: UnionFind of include/transforms/EGraph.h. Roots is about find, Merge about merge.
-- - Archive: src/target/artifact/archive/ArchiveReader.cpp. Archive/Decimal has parseDecimal,
--   Archive/Reader parse; Entries has the entries of the file format, Digits is about parseDecimal,
--   and Laid about where the members lie.
-- - Lexer: src/parser/Lexer.cpp. Lexer/Stream models the input, Lexer/Tokens the kinds of tokens and
--   the keywords, Lexer/Scan the loops, and Lexer/Next getNextToken, cut into one definition for each
--   kind of token in the order of its tests. Progress, Parts, Branches and Total are about what is
--   read, Names about what is read back, Words about the kinds of words, against the table of
--   reserved words in Reserved.
-- - Dominance: src/transforms/DominatorTree.cpp. Dominance/Solve is the iteration that run and
--   runPostDominator share, Dominance/Tree what they make of its sets, and the queries. Walks has
--   the walks of a graph, Passes what an iteration keeps, Correct what its sets are, Fuel and
--   Terminates why it ends, Immediate, Run and Post are about immediate dominators,
--   Query and Climb about the query dominates. Dominance/Frontier is
--   src/transforms/DominanceFrontier.cpp, which Runner, Meets, Entered and Frontiers
--   are about.
-- - Regalloc: src/codegen/regalloc/LinearScanAllocator.cpp. Regalloc/Pools has the free registers
--   and the choice of one, Regalloc/Scan the scan over the intervals. Counts and Members are about
--   the registers and the active intervals, Sound, Given, Taken, Disjoint and Run about the
--   invariant of the scan, Calls and Crossing about values that are live across a call.
-- - Prelude, Word and Bytes: lists, texts and maps, 64-bit words, little-endian bytes.
-- - Tests: concrete inputs.
--
-- The linker calls the evaluator for each relocation, on the bytes of one output section; the lazy
-- extraction runs before the link and hands it its artifacts; the plan is made of the linked image.
--
-- The lexer feeds the parser, whose functions the dominators are computed for, and the allocator
-- places; these parts meet in the instruction graph only, which is not modelled.
--
-- State is passed on: a link takes the artifacts and returns an image or an error. A uint64_t or
-- int64_t is a number below 2 ^ 64, with the wrap written out (add64, sub64), a signed one in two's
-- complement. A byte vector is a list of numbers, std::map an association list in the order of its
-- keys, or with pointers for keys one with the last write first, an unordered_set of names a list that is only asked for membership and emptiness. A memcpy
-- outside a vector is the error `undefined`, and a read outside one by the reader of archives the result
-- `outside`, which the C++ code does not have.
--
-- Loops are recursion on the list they run over. The loop of extractLazyArchiveMembers runs on fuel,
-- one more than the members that are not extracted: each pass that goes on extracts one of them. The
-- LEB128 encoders run on fuel 5, the groups of seven bits in a 32-bit word. The find of
-- the union-find runs on fuel, which the theorems take to exceed the steps to the root.
--
-- Blocks are numbers, with the edges of a graph as functions of them, and instructions are numbers
-- with what is asked of them. Sets of blocks are lists without an order. The iteration over the
-- dominator sets runs on one pass more than the square of the number of blocks; each pass that goes
-- on takes a block from a set. Characters are bytes, none is EOF, and the lexer runs on fuel that
-- exceeds what is left to read. The reader of archives runs on fuel for the length of the file;
-- a member takes 60 bytes and more. The climb of `dominates` and the runner
-- of the frontiers run on fuel that covers a walk to the block.
--
-- Not modelled: the readers and writers of object files and executables, the writers of archives,
-- the grammar, the IR, its transforms other than those above, the liveness analysis, the sections of WebAssembly
-- modules, and the code generators. They are file formats, text output or passes over the
-- instruction graph. Spill weights are doubles, so that their comparison is a parameter, and the
-- statistics of the allocator are left out. Of a failed link the partly filled image is not
-- modelled, and an error is its kind with the names in its message.
pub mod Prelude
pub mod Word
pub mod Bytes
pub mod Target
pub mod Object
pub mod Relocation
pub mod Linker
pub mod Wasm
pub mod Egraph
pub mod Regalloc
pub mod Archive
pub mod Lexer
pub mod Dominance
pub mod Tests
