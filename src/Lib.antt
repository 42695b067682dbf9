-- ===== src/Lib.antt =====
-- SinterDB: the document codec, the wire protocol, the log's format, filters, sorting, updates, the
-- indexes with their query planner, and the cursors of the server.
--
-- SinterDB is a document database. A client and a server exchange messages in frames
-- (packages/protocol); a message's payload is a document in a canonical binary encoding, which is also
-- what the storage engine (packages/storage) compares values by and writes to its log; the server
-- (packages/server) returns the results of queries in batches, from cursors. A failed operation
-- throws, and is modelled as a result that is `err` of what is thrown; methods that change an object
-- take its state and return the state after them.
--
-- Prelude        the shared types, tests, list lemmas and results; integers; strings as the lists of
--                their UTF-16 code units; byte arrays as lists of bytes.
-- Protocol       packages/protocol/src
--   BigEndian    the big-endian reads and writes of DataView and Buffer
--   Number       JavaScript numbers, as the bit patterns of their doubles
--   Utf8         TextEncoder and a fatal TextDecoder, by the WHATWG algorithms
--   Errors       errors.ts (ProtocolErrorCode) and constants.ts
--   Writer       binary-writer.ts; Writer/Append has its abstract view, the bytes written
--   Reader       binary-reader.ts; Reader/Rest has its abstract view, the bytes that are left
--   Document     document.ts (DocumentValue, Document)
--   Encoder      document-encoder.ts (encodeDocumentValue, writeValue, writeNumber, writeDocument, ...)
--   Decoder      document-decoder.ts (decodeDocumentValue, readValue, readDocument, ...)
--   Canonical    the encoding described without the writer, and the proofs that relate it to both
--   Frame        frame.ts (encodeFrame, decodeFrame, getFrameLength)
--   Message      message-codec.ts and message-frame.ts (validateMessagePayload, encodeMessage, ...)
--   Stream       message-stream-decoder.ts (push, append, reset); Stream/Chunks has the specification,
--                the frames of a stream, and the proof that `push` implements it
--   CustomId     custom-id.ts
--   RequestId    request-id.ts
-- Storage        packages/storage/src
--   Wal          wal/format.ts (encodeRecord, scanRecord, encodeSegmentHeader, decodeSegmentHeader)
--   IndexSpec    indexing/spec.ts (normalizeIndexSpec)
--   Errors       errors.ts (StorageErrorCode)
--   Compare      comparisons, and JavaScript's `<` on numbers, bigints, strings and bytes
--   Predicate    filter.ts (resolveField, compareValues, the predicates of the operators)
--   Filter       filter.ts (compileFilter, compileClauses, compileOperatorDocument, ...); Filter/Meaning
--                says what filters mean without compiling them
--   Sort         sort.ts (compileSort, compareDocumentValues); Sort/Meaning is the order that a
--                specification means
--   Ordering     the orders of numbers, strings and bytes that Filter, Sort and Update are
--                stated in
--   Update       update.ts (compileUpdate, applyInstruction, seedDocumentFromFilter, ...);
--                Update/Effect says what each operator makes of a value, and Update/Meaning what
--                the operators' names mean, apart from the code
--   IndexValue   indexing/values.ts, and the maps, sets and sorted arrays of field-index.ts
--   FieldIndex   indexing/field-index.ts (add, remove, conflictFor, lookupEqual, lookupRange);
--                FieldIndex/Invariant and Tracks say what an index knows of the stored documents,
--                FieldIndex/Listing which documents it lists, and FieldIndex/Lives is its life,
--                bulk loading included
--   Planner      indexing/planner.ts (planQuery, candidateKeys); Planner/Sound puts filters, plans and
--                indexes together
--   Operations   engine/operations.ts (encodeOperations, decodeOperations)
-- Server         packages/server/src
--   DocumentSize document-size.ts (estimateEncodedSize)
--   Cursor       cursor-manager.ts (open, getMore, sweepExpired, close, clear, takeBatch)
--   GroupCommit  group-commit.ts (whenDurable, run)
--
-- Bounds and fuel. The decoder of documents recurs on the levels of nesting that are still allowed,
-- 101 at the top, so that it is total and fails where the source does. The loop of `push` has one round
-- of fuel more than there are bytes, which is enough because a frame has at least 16 of them. The
-- loop that looks for a free cursor id has one round more than there are cursors. The binary search of
-- an index has one round more than there are entries, since each round leaves fewer; its middle is
-- taken modulo 2 ^ 32, so there have to be less than 2 ^ 31 entries. All other recursion is on lists,
-- values and counters.
--
-- Assumptions. A value is a tree, so that the encoder's check for cycles has nothing to find. The
-- fields of a document are in the order of their creation; JavaScript lists keys that look like array
-- indices first, which no modelled operation depends on. The checksum crc32 of node:zlib is a
-- parameter of which only the range is used. An iterator of documents is the list of what it yields.
-- Clocks and random bytes are arguments, and so is the product of doubles by which an index estimates
-- the size of a range; a plan's estimate only decides between plans. A finite double is compared as the
-- integer that it is in multiples of 2 ^ -1074, and two are added as such integers and rounded, ties to
-- even, with enough fuel for the 2100 bits of a sum. A failed update's partial changes are left out,
-- since its callers drop the document. A compiled filter and a compiled sort are functions.
-- Array.prototype.sort is modelled by stable insertion. A document that the encoder accepts but the
-- decoder changes (a leading byte order mark in a string) is not lossless, and the statements about
-- encodings leave it out by a hypothesis.
--
-- Not modelled: the file operations of the storage engine (write-ahead log, checkpoints, lock, backup,
-- inspection and repair), the collection and the set of its indexes, the sessions and commands of the
-- server, the driver, the command line, the website and the tools. Messages of errors and descriptions for people are left out.
pub mod Prelude
pub mod Protocol
pub mod Storage
pub mod Server
