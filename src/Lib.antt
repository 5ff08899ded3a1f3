-- ===== src/Lib.antt =====
-- Models of the parts of zenoh-c that hold its own logic: the build-time tool that cuts the
-- generated C header into files (buildrs/splitguide.rs), the slices, strings and string arrays
-- that C code owns and borrows (src/collections.rs), the writing of the generic macros and the
-- configuration header (buildrs/cbindgen_generator.rs), the key expressions (src/keyexpr.rs),
-- the encodings (src/encoding.rs), the payloads (src/zbytes.rs), the closures and channels of
-- samples, queries and replies (src/closures), the serialization functions
-- (src/serialization.rs), the requests of sessions, publishers, queriers and queryables
-- (src/put.rs, src/publisher.rs, src/get.rs, src/querier.rs, src/queryable.rs) with the
-- enumerations of their options (src/commons.rs), and mutexes and condition variables
-- (src/platform/synchronization.rs). The key expressions, the encodings, the payloads, the
-- serialization and the requests stand on the memory model of the slices; a key expression, an
-- encoding or a serializer is a value of another crate.
--
-- The files, by the code they model:
--
-- Common: the native numbers, lists, outcomes (`Ok`, `Err`, panic, out of fuel), texts as lists
--   of code points, and the test of `str::from_utf8`.
-- ResultCodes: the codes of src/result.rs.
-- Splitguide/Token: `Token::next` and its recognizers, one function each;
--   Splitguide/Token/Fronts, Splitguide/Token/Spans and Splitguide/Token/Quoted are its proofs.
-- Splitguide/Record: `Record` and `Record::add_token`, and how a record is printed; proofs in
--   Splitguide/Record/Tallies and Splitguide/Record/Summary.
-- Splitguide/Tokenizer: the iterator and the loop of `group_tokens`; proofs in
--   Splitguide/Tokenizer/Tiling and Splitguide/Tokenizer/Grouping.
-- Splitguide/Guide: `SplitGuide::from_yaml`, `appropriate_files` and `requested_ids`; proofs in
--   Splitguide/Guide/Routing.
-- Splitguide/Split: `split_bindings`; proofs in Splitguide/Split/Writes and
--   Splitguide/Split/Delivery.
-- Generator/Signature: types, arguments and signatures of functions, and `split_type_name`;
--   proofs in Generator/Signature/Names.
-- Generator/Features: `process_feature_defines`; proofs in Generator/Features/Blocks and
--   Generator/Features/Levels.
-- Generator/Groups, Generator/Find: the signatures made of a match, and the functions that find
--   them; proofs in Generator/Find/Shapes.
-- Generator/Macros, Generator/Overloads: what is written for C and for C++; proofs in the files
--   named Written and in Generator/Overloads/Pairs.
-- Generator/Header: `create_generics_header`; proofs in Generator/Header/Found,
--   Generator/Header/Entities and Generator/Header/Completeness.
-- Generator/Configure: `configure` and the changes to the text of each file; proofs in
--   Generator/Configure/Versions. Generator/Pipeline composes these with Splitguide/Split, as
--   `generate_c_headers` does; proofs in Generator/Pipeline/Built.
-- Generator/Opaque: buildrs/opaque_types_generator.rs; proofs in Generator/Opaque/Documented,
--   and for the documentation in Generator/Opaque/Comments.
-- Collections/Memory: bytes by address, boxed slices that Rust leaked to C, and the calls of C
--   deleters.
-- Collections/Slice, Collections/Strings, Collections/Arrays: `z_slice_*`, `z_string_*` and
--   `z_string_array_*` with their views; each has its proofs below it.
-- Keyexpr: `z_keyexpr_*` and `z_view_keyexpr_*`; Keyexpr/Interface is what it uses of the zenoh
--   crate.
-- Encoding: the constructors and setters of encodings and their transfer in parts;
--   Encoding/Interface is what it uses of the zenoh crate.
-- Payload, Payload/Readers: the constructors and conversions of payloads, and their readers and
--   writers; proofs in Payload/Copies and Payload/Streams, and Payload/Interface is what they
--   use of the zenoh crate.
-- Closures, Channels: the closures and the FIFO and ring channels of samples; those of queries
--   and replies are in the files named Queries and Replies; proofs in Closures/Lifetime, and in
--   Channels/Fifos, Channels/Rings and Channels/Delivery, with the terms in Channels/Sending;
--   Channels/Interface is what the channels use of the zenoh crate.
-- Serialization: `ze_serialize_*`, `ze_deserialize_*` and the serializer; Serialization/Streams
--   the functions on a serializer or a deserializer; Serialization/Interface what they use of
--   the zenoh-ext crate.
-- Commons: the enumerations of src/commons.rs and their conversions; Commons/Names the names of
--   their values; proofs in Commons/Conversions.
-- Requests: the variables of C code that are moved into a request; Requests/Puts, Requests/Gets
--   and Requests/Replies the functions of src/put.rs and src/publisher.rs, of src/get.rs and
--   src/querier.rs, and of src/queryable.rs; Requests/Interface is what they use of the zenoh
--   crate. Requests/Taken and Requests/Sending have the rules for chains of calls,
--   Requests/Consumption and Requests/QueryConsumption which variables a call takes, and
--   Requests/Judgement, Requests/ReplyJudgement, Requests/QueryJudgement and Requests/Refusals
--   what a call does.
-- Platform/Mutex: the functions on mutexes, and `z_condvar_wait`; Platform/Mutex/Threads the
--   steps of threads that call them; proofs in Platform/Mutex/Exclusion and
--   Platform/Mutex/Progress.
-- The files named Tests hold concrete inputs and the theorems at them.
--
-- State is passed on explicitly. A function that reads or changes memory maps a memory to a
-- result and a memory, or to `none` for what is undefined in Rust: a slice from NULL, and the
-- release of a box that is not allocated. An out parameter is a result, and a variable that is
-- moved from holds the gravestone afterwards. In splitguide.rs an error is an `Err` with its
-- reason and a panic is an outcome; files are an association list from paths to contents. A
-- count of open `#if` blocks that is no `i32` is a panic, as with overflow checks; without them
-- it wraps around. In cbindgen_generator.rs a call returns or panics, and a file is its text. A
-- closure's function pointer is what its call does to the state of the program. What a request
-- moves lies in variables of C code by their addresses, so two pointers may name one variable;
-- the calls of setters on a builder of the zenoh crate are kept as a list. A mutex is Rust's
-- with a slot for its guard, and threads move in any order between the points where another
-- thread can run.
--
-- The loops of the tokenizer run on fuel, as many steps as the text has characters. Each token
-- takes a character at least, so that is enough.
--
-- Parameters stand for what is not in the repository: the Unicode tables behind
-- `char::is_whitespace` and `char::is_alphanumeric`, the enabled features that the build passes
-- in `FEATURES`, the parsed splitguide.yaml, `strlen` of the C library, the regex and evalexpr
-- crates, the key expressions, encodings, payloads, channels, builders and defaults of the zenoh
-- crate and the byte formats of the zenoh-ext crate. What is assumed of them is in the records
-- `IsStrlen`, `IsLawful`, `IsStream`, `IsQueue` and `IsRing`, and each is filled by a concrete
-- function in a Tests file.
--
-- Not modelled: the declaration of publishers, queriers, subscribers and queryables, sessions,
-- configuration and the other calls that only hand their arguments to the zenoh crate; the
-- poisoning of mutexes by panics, which do not leave the code that holds a guard; the drop of a
-- mutex while threads use it, and calls to unlock it or to wait by a thread that does not have
-- it; the closures of other values, which follow the same pattern; shared memory; clocks, sleep,
-- random numbers and tasks; the run of cargo for the sizes of the opaque types; log messages;
-- the hash order of the features in buildrs/cbindgen_generator.rs, which are taken in the order
-- of the source. Whether a foreign address may be read is up to the caller and is not modelled
-- either, and alignment and the order of files in a hash map are left out.
pub mod Common
pub mod ResultCodes
pub mod Splitguide
pub mod Collections
pub mod Keyexpr
pub mod Serialization
pub mod Encoding
pub mod Generator
pub mod Payload
pub mod Closures
pub mod Channels
pub mod Platform
pub mod Commons
pub mod Requests
