-- ===== src/Lib.antt =====
-- A model of the library go-gitdiff, which applies patches made by Git and reads and writes their
-- parts.
--
-- The parts and their files:
--  - `Apply` (gitdiff/apply.go): `Apply` checks a file, sorts its text fragments and gives them to
--    a text applier, or gives its binary fragment to a binary applier, or copies the source.
--    `Errors` has the errors as values, with `applyError`, which both appliers call.
--    `Apply.Patched` says what `Apply` writes.
--  - `TextApply` (gitdiff/apply_text.go, with `copyLinesFrom` of gitdiff/io.go): `TextApplier` is
--    a record that `ApplyFragment` (`apply_fragment`) and `Close` (`close`) take and return.
--    `TextApply.Lines` has the loops over lines, `TextApply.Sound` the fragment, `TextApply.Rest`
--    what `Close` writes.
--  - `Fragment` (gitdiff/gitdiff.go): lines, text fragments and `Validate`; `Fragment.Consistent`
--    describes what it accepts without its counters.
--  - `BinaryApply` and `Delta` (gitdiff/apply_binary.go): the binary applier, and the loop over a
--    delta with its sizes and opcodes. `Delta.Encode` has an encoder of copies and inserts, after
--    the format that the comments of that file describe; it is a specification and stands for no
--    code. `Delta.Step` runs the operations on one encoded instruction, `Delta.Instr` the loop on
--    all of them.
--  - `Io` (gitdiff/io.go): `isLen` and `copyFrom` over readers and writers.
--  - `Base85` (gitdiff/base85.go): the decoder and the encoder.
--  - `PatchIdentity` (gitdiff/patch_identity.go): identities, with their quoting and comments.
--    `PatchIdentity.Normal` is about the passes over white space and quoting,
--    `PatchIdentity.Scan` and `PatchIdentity.Split` about the cut at the address, and
--    `PatchIdentity.RoundTrip` about whole identities.
--  - `Parser` (gitdiff/parser.go): the parser's three lines, which every parsing method takes and
--    returns; `Parser.Advance` relates them to the lines of the input.
--  - `TextParse` (gitdiff/text.go): the lines of a fragment, `ParseTextChunk`. `TextParse.Tally`
--    and `TextParse.Sound` relate its counters to those of `Validate`; `TextParse.Ends` has its
--    fuel; `TextParse.Print`, `TextParse.Rounds` and `TextParse.RoundTrip` run it on what the
--    formatter writes. `TextFragments` has the headers of fragments and `ParseTextFragments`,
--    which attaches them to a file.
--  - `FileHeader` (gitdiff/file_header.go): the names in file headers; `FileHeader.Lines` has the
--    table of header lines and its methods, `FileHeader.Header` the whole headers and
--    `ParseNextFileHeader`, which looks for them between other lines.
--  - `BinaryParse` (gitdiff/binary.go): the binary fragments of a file and the lines of their
--    data. `BinaryParse.Line`, `BinaryParse.RoundTrip` and `BinaryParse.Fragments` run it on what
--    the formatter writes; `BinaryParse.Sound` is about any input.
--  - `Parse` (gitdiff/parser.go): the loop over the files of a patch, which calls `FileHeader`,
--    `TextFragments` and `BinaryParse`.
--  - `LineReader` (gitdiff/io.go): `lineReaderAt`, with its index as a state. `LineReader.Offsets`
--    has the offsets of lines, `LineReader.Index` the invariant of the index and `indexTo`,
--    `LineReader.Sound` the lines that `ReadLinesAt` reads.
--  - `PatchHeader` (gitdiff/patch_header.go): the preamble of a patch; `PatchHeader.Parse` has the
--    dates and the formats of the header, `PatchHeader.Subject` and `PatchHeader.Body` are about
--    the loops over the subject and the body.
--  - `Format` (gitdiff/format.go): quoted names and the text of a text fragment; `Format.Binary`
--    has that of a binary fragment, `Format.File` that of a file.
--  - `Base` has the shared names and lemmas, `Tests`, `ParseTests` and `BinaryTests` small runs.
--
-- The model. A byte is a number, a slice or a string a list of bytes. A writer is a function from
-- its state and bytes to the next state, a count and an error; a reader of type `io.ReaderAt` is a
-- function from a count and an offset to the bytes read and an error. Both are parameters, and so
-- is the line reader of `TextApply`, an interface of the program that `lineReaderAt` implements.
-- What is assumed of them is in the records `Appends`, `ReadsAt` and `ReadsLines`, after the
-- documentation of package io and of the interface; `reader_of`, `buffer_writer` and `lines_of`
-- meet it. `ReadString` of the parser's reader is a function from a state to a line, an error and
-- the next state, with its assumptions in `ReadsStrings`. `sort.Slice`, `strings.TrimSpace`,
-- `strconv.ParseInt`, `strconv.Unquote`, the test of a timestamp for the epoch, the texts of
-- numbers, zlib, package time, the mail reader, the quoted-printable reader and the functions of
-- package strings that know Unicode are parameters too. A `bufio.Scanner` is the lines that it
-- gives and the error behind them. A call that Go ends with a panic gives `panic`.
--
-- Bounds and fuel. Positions and sizes of a fragment are integers, whose wrap-around as int64 is
-- written out where the code computes with them; the words of base85 are numbers below 2^32, the
-- sizes of a delta numbers below 2^64. The copy loops go round once for each full buffer and have
-- fuel, whose end gives the error `stuck`: more fuel than the source has bytes is enough for
-- `copyFrom`. The loop over a delta has the length of the delta as fuel, since each opcode takes a
-- byte at least. A loop of the parser goes round once for each line that it reads, and the end of
-- its fuel gives `out_of_fuel`; for `ParseTextChunk` two rounds for each line of the fragment are
-- enough, its own and that of a marker. `indexTo` has fuel too, and more than the source has bytes
-- is enough; the loop of `cleanSubject` has the length of the subject.
--
-- Not modelled: the texts of errors beyond their format, the formatter over a writer that fails,
-- the `String` methods that call the formatter, the aliasing of the lines that `ReadLinesAt` cuts
-- out of one buffer, and int64 overflow of offsets and line numbers in the readers. Readers and
-- writers have no state that they share with one another.
pub mod Apply
pub mod Base
pub mod Base85
pub mod BinaryParse
pub mod BinaryTests
pub mod BinaryApply
pub mod Delta
pub mod Errors
pub mod FileHeader
pub mod Format
pub mod Fragment
pub mod Io
pub mod Parse
pub mod ParseTests
pub mod LineReader
pub mod Parser
pub mod PatchHeader
pub mod PatchIdentity
pub mod Tests
pub mod TextFragments
pub mod TextParse
pub mod TextApply
