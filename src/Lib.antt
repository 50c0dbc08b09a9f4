-- ===== src/Lib.antt =====
-- A verification library for the runtime of echo-js, the C code under runtime/ that a compiled
-- JavaScript program is linked with.
--
-- The parts, and which file models which:
--
-- - Ejsval: runtime/ejsval.h, the 64-bit words that hold every value. A word is a natural number
--   below 2 ^ 64; the tests, the boxing and the unboxing are the bit operations of the header, in
--   the little-endian 64-bit layout. Ejsval.View has the values that a word stands for,
--   Ejsval.Double the doubles by sign, exponent and fraction, Ejsval.Boxing the theorems.
-- - Equality: SameValue, SameValueZero and _ejs_op_strict_eq of runtime/ejs-ops.c, on words and a
--   memory of flat strings, with ucs2_strcmp of runtime/ejs-string.c. A function that aborts, or
--   reads memory that holds no string, returns `aborted` (Base.Completion).
-- - Objects: the classes of objects and the marker of an empty entry.
-- - MapData, SetData: runtime/ejs-map.c and runtime/ejs-set.c. The chain of entries from
--   `head_insert` along `next_insert` is a list in insertion order; an entry that is deleted stays
--   on it with the marker for a key. The loops over the chain are recursions on the list, so that
--   no fuel is needed. MapData.Iterator and SetData.Iterator have the iterators, whose state is an
--   index into the live entries or values: neither counts what is deleted. The sizes, uint32_t in the
--   code, are numbers here; they differ from 2 ^ 32 live entries on. MapData.Methods has
--   the methods of Map.prototype with the tests of their receiver.
-- - PropertyMap: _ejs_propertymap_* of runtime/ejs-object.c, the hash table of the properties of an
--   object. Entries are cells with an address, both chains are lists of addresses, and the memory is
--   a function that writes change at one address. PropertyMap.Valid has the invariant,
--   PropertyMap.Abstract the list of names and descriptions that the table stands for. The names are
--   an interface, PropertyKeys, that PropertyMap.Symbols fills for symbols. The table has ten sizes;
--   a table that would have to grow beyond the last one aborts, and the theorem on insertion says
--   when.
-- - Descriptors: the property descriptors of runtime/ejs-object.c and runtime/ejs-object.h, and the
--   validation of a change to a property.
-- - ObjectHeap, Ordinary: the internal methods of ordinary objects, _ejs_object_specop_* of
--   runtime/ejs-object.c, on a heap of objects by their addresses. ObjectHeap has the prototypes and
--   the extensibility, Ordinary the properties. The loop of [[SetPrototypeOf]] and the recursion of
--   [[HasProperty]], [[Get]] and [[Set]] along the prototypes run on fuel; where the chain of
--   prototypes is finite, as many steps as it has objects are enough (one more for the loop). Every
--   object is ordinary, so that OP (o, M) is the method modelled here. A call of a getter or of a
--   setter is a result that names the function, the receiver and the value. ToString, which may call
--   JavaScript, is a parameter, and the theorems ask that it leaves the name as it is.
-- - Strings: the primitive strings of runtime/ejs-string.h and, of runtime/ejs-string.c, the
--   reading of a unit, flattening, concatenation, substrings and the hash. A string is a tree of
--   flat, rope and dependent nodes, and flattening returns the node that the string has become;
--   what a buffer holds behind its units reads as zero. Equality has the strings after flattening,
--   as lists of units.
-- - Utf: of runtime/ejs-string.c, the conversions of one character between UTF-8 and UTF-16. The bytes
--   that a function writes are its result; a buffer reads as zero behind its bytes.
-- - Arrays: the dense arrays of runtime/ejs-array.h and, of runtime/ejs-array.c, what works on their
--   buffer and the internal methods for an index and for "length". Every access is checked against the
--   size of the buffer, and one outside it is `aborted`. shift and unshift are their fast paths for
--   dense arrays. ArrayLike is the interface of an object with indices, and has the functions of
--   Array.prototype that work through Get and Put; ArrayLike.Dense fills it with the dense arrays,
--   whose indices and lengths stay below 2 ^ 31 - 32. Arrays.Sorting is the quicksort, on fuel: more
--   than there are elements is enough. The comparison function is an argument.
-- - Promise: runtime/ejs-promise.c. Each function changes an explicit realm of promises, resolving
--   functions and tasks. Promise.Run has the step relation: what JavaScript and the run loop do next
--   is any step, in any order, since runtime/ejs-runloop-libuv.c starts a timer of libuv for each
--   task and the order of the timers is libuv's. A call into JavaScript is a sequence of further
--   steps; `Get (resolution, "then")` splits the resolve function in two.
-- - Collector: a collection of runtime/ejs-gc.c, from the roots, the modules, the registers and the
--   stack, which are lists of the words that the loops visit, to the sweep of the bitmap cells. An
--   object is its address; the bitmap cell that find_page_and_cell gives for an address is a
--   function of the address, and whether it gives one is a parameter, as is what the cells hold for
--   the collector to read, which includes the values that the Scan method of an object hands over.
--   The worklist has its segments of 512 and the free list. The loop of process_worklist runs on
--   fuel: more than there are white objects and addresses on the worklist is enough.
-- - NodeList: the doubly linked lists of runtime/ejs-types.h and runtime/ejs-types.c, which the
--   collector of runtime/ejs-gc.c keeps its pages in. The links are functions of a node's address, and
--   0 is NULL. The walks run on fuel: one step more than the list has nodes is enough.
-- - NumberText: how runtime/ejs-ops.c writes an integer in a base, IntToUCS2 and IntToCString, from
--   behind into a buffer of UINT32_CHAR_BUFFER_LENGTH places; a write in front of it is `none`.
--   NumberText.ParseInt is _ejs_parseInt_impl, from the code units of the string and the integer of
--   the radix on, which the conversions ToString and ToInteger give.
-- - Base has what the files share: tests on numbers, lists with native lengths, results that may
--   fail, and the sums that bit fields are. Tests has the runs and the theorems at concrete inputs.
--
-- How they meet: Map and Set compare keys by SameValueZero, Promise compares a resolution by
-- SameValue, the property maps compare names through their interface, the objects keep their
-- properties in property maps and change them by the rules for descriptors, and all of them hold
-- words. The collector reads the words by the tests of Ejsval.
--
-- Not modelled: of the collector, the arenas and pages, allocation and finalizers, and the Scan
-- methods; of the objects, those that are neither ordinary nor arrays; of the
-- arrays, the sparse ones, shift and unshift of objects that are not dense arrays, and the functions
-- of Array that are not named; the 32-bit layout;
-- the compiler under lib/, which is JavaScript; the bindings to LLVM, libuv, Objective-C and
-- Node; the built-in objects other than those named; the constructors of Map and Set from an
-- iterable, and forEach.
mod Base
pub mod Ejsval
pub mod Equality
pub mod Objects
pub mod MapData
pub mod SetData
pub mod PropertyMap
pub mod Descriptors
pub mod ObjectHeap
pub mod Ordinary
pub mod Strings
pub mod Utf
pub mod NodeList
pub mod NumberText
pub mod Arrays
pub mod ArrayLike
pub mod Promise
pub mod Collector
mod Tests
