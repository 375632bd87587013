-- ===== src/Lib.antt =====
-- DuroDBMS, a relational database library in C: its in-memory storage engine, its types,
-- operators and values, and the containers that these stand on.
--
-- The program's parts, and the files that model them:
--   duro/gen/hashtable.c, duro/gen/hashtabit.c (Gen/HashTable.antt): a hash table with open
--     addressing. `HashTable` is the struct; each function has the C name without `RDB_`.
--     Invariant and map laws: Gen/HashTable/Probe, Filled, Rehash, Table; iterator: Iterate.
--   duro/treerec/tree.c (TreeRec/Tree.antt): the AVL tree under the in-memory record maps and
--     indexes. A node carries its address and its parent pointer, so that rotations are the
--     assignments of the code; `RDB_tree_node **` in and out is a tree in and out. Heights and
--     balance: Tree/Height, Avl; parent pointers: Linked; order of the entries: Inorder, Refine;
--     the calls as map operations: Search; the default comparison: Compare.
--   TreeRec/Sorted.antt: the abstract view of a tree, a sorted list of entries, and its laws.
--   duro/treerec/field.c (TreeRec/Field.antt): keys and values as blocks of bytes. Writes into
--     blocks: Field/Store; RDB_fields_to_mem: Encode; RDB_get_field: Locate, Read; reading back:
--     Round; RDB_set_field_mem: Update.
--   duro/treerec/treeindex.c (TreeRec/Index.antt): secondary indexes and their comparison.
--   duro/treerec/treerecmap.c, the layout of duro/rec/recmap.c (TreeRec/RecMap.antt, and
--     TreeRec/RecMap/Operations.antt for update, deletion and lookup, with the calls that go
--     through an index): record maps. A call returns the state also where it fails. Insertion and
--     lookup: RecMap/Read; changes of a key: Steps, Restore; insertion with indexes: Atomic; values
--     rewritten in place: Values, Rewrite; the
--     comparison of keys: Compare.
--   duro/treerec/treecursor.c (TreeRec/Cursor.antt): cursors. Nodes in their surroundings:
--     Cursor/Context; the climb to the next node: Climb; scans: Walk.
--   duro/gen/strfns.c (Gen/Strings.antt) and duro/gen/hashmap.c (Gen/HashMap.antt): strings as lists
--     of bytes, and maps from strings to pointers over the hash table; insertion: HashMap/Put.
--   duro/dli/varmap.c (Dli/VarMap.antt): the interpreter's transient variables, a second client of
--     the hash table; insertion: VarMap/Put.
--   duro/obj/type.c (Obj/Types.antt): types and their comparison. Tuple and relation types made of
--     others: Types/Operations (EXTEND, JOIN, projection, RENAME) and Types/Nesting (WRAP, UNWRAP,
--     GROUP, UNGROUP). Attribute lists as maps: Types/Lookup; comparison: Equality; the calls:
--     Operations/Union, Renamings, Rename, Renames, Nesting/Picks, Group, Ungroup, Wrap, Unwrap.
--     Questions about one type, and the match with a parameter's type: Types/Queries.
--   duro/obj/opmap.c (Obj/OpMap.antt): the map from names to overloaded operators, over
--     RDB_hashmap_put and RDB_type_matches; calls together: OpMap/Put.
--   duro/obj/datetimeops.c (Obj/Datetime.antt): dates; against the calendar: Datetime/Fields.
--   duro/obj/key.c (Obj/Keys.antt): candidate keys; as sets of names: Keys/Sets; the checks:
--     Checks; the comparison: Equal.
--   duro/obj/tuple.c (Obj/Tuples.antt): tuples, a third client of the hash table. One attribute:
--     Tuples/Put; what the iterator returns: Entries; whole tuples: Project, Remove, Copy.
--   duro/obj/array.c (Obj/Arrays.antt): arrays. The length: Arrays/Length; copies: Copy.
--   duro/obj/builtinscops.c (Obj/Builtins.antt): operators on integers, with the C operations that
--     would overflow as undefined: Builtins/Integers, Division; on bytes of strings: Find.
--
-- How they interact: a record map encodes the fields of a record into a key and a value (Field),
-- checks the indexes, inserts into its tree (Tree) and then into the tree of each index, whose
-- entries lead from the index key to the primary key. A cursor walks the nodes of the same tree
-- by their parent pointers, so the parent pointers that Linked keeps are what Walk needs.
-- Hash maps, variable maps, operator maps and tuples are clients of the hash table, and their
-- theorems apply the map laws of Gen/HashTable/Table. An operator map chooses by the types of the
-- arguments; the renamings of a tuple type are those of a tuple.
--
-- Conventions. A block of memory is the list of its bytes; an `int` that is a result of a
-- comparison is its sign. Allocation is an argument: the Boolean or address that the allocator
-- returns. An error raised in the execution context is the error of a `Result`; `null_pointer`
-- stands for a read through a null pointer, `out_of_bounds` for an access outside a block and
-- `uninitialised` for a use of a variable without a value: the code does not check for these.
-- Loops over the slots of a hash table have the number of slots as fuel, within which a free slot
-- is reached, and a cursor's climb has the number of nodes. Counts and lengths are natural
-- numbers: `int` and `size_t` do not overflow below 2 ^ 27 entries or bytes. The integers that
-- operators compute with keep their range, as do hashes, flags and the fields of a date.
--
-- Not modelled: freeing of memory, which leaves no trace; the engines over Berkeley DB,
-- FoundationDB and PostgreSQL and their dispatch (duro/rec); the relational engine (duro/rel), the
-- interpreter (duro/dli) but for its variable maps, and the bindings. Of duro/obj: expressions, the
-- representation of objects and their conversions, floating-point operators, patterns and case
-- mapping (these rest on the C library), and the registration of built-in types and operators.
pub mod Prelude
pub mod Gen
pub mod Obj
pub mod TreeRec
pub mod Dli
pub mod Tests
