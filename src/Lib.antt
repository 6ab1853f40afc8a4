-- ===== src/Lib.antt =====
-- GoMDF reads and writes ASAM MDF 4 measurement files. This library models the parts of it that
-- compute, and proves what they promise. Paths are the repository's.
--
-- A file is a sequence of bytes (internal/source). Blocks with a common header stand in it at
-- offsets; their decoders (internal/blocks) cut a block into links and data. A data section
-- (internal/datasection) joins the data blocks that lists of links name, decompresses them through
-- a cache, and is one byte stream to its readers. Records are cut out of that stream and each
-- channel's samples out of the records (internal/records). Bus frames among the samples are decoded
-- by a DBC database (internal/dbc). The writer (writerdata.go) writes such blocks.
--
-- Base: lists, powers of two, bit operations as arithmetic, bytes as numbers (`encoding/binary`),
--   and `Outcome`, the result of a Go function: a value, an error, or a panic (an index or a slice
--   bound out of range, or a `make` of more than the runtime's 2 ^ 48 bytes on a 64-bit machine). An
--   error keeps its cause and not its text.
-- Source: internal/source/source.go (checkBounds) and mem.go (Slice).
-- Blocks.Header: internal/blocks/block.go. Blocks.Lists: dl.go, ld.go, hl.go, dz.go.
--   Blocks.Encode: encode.go (Build and the text blocks). Blocks.Text: tx_md.go (DecodeText).
--   Blocks.Group: cg.go, and the group block of writeGroupMeta in writerdata.go.
--   Blocks.Meta: cn.go, cc.go, dg.go, hd.go, fh.go, si.go, sr.go, ch.go, at.go, ev.go, id.go.
--   Blocks.Array: ca.go.
-- Unsorted: unsorted.go (deinterleave), over the bytes of the data section. Its fuel is the length
--   of the stream, and every record takes its ID's bytes, so it lasts.
-- DataSection.Resolve: datasection.go (segments, addStored, addZipped, resolve, resolveDLChain). A
--   chain of lists is walked on fuel, one unit for a list; a chain can be endless.
-- DataSection.Reader: datasection.go (ReadAt, prefetch, NewFromBytes) and dz.go (decompressed,
--   inflate). zlib is a parameter. The fuel of a reading is the number of bytes asked for, and a
--   round reads at least one. The goroutines of the prefetch are steps on the cache in any order.
-- Writer.Stream: writer.go (writeBlock, align8) and writerdata.go (appendStream, flushChunk).
-- Vlsd: writergroup.go (the values that Append puts in a stream) and vlsd.go (resolveVLSD).
-- DataSection.Lru: internal/datasection/cache.go. DataSection.Transpose: untranspose of dz.go in
--   that package, and transpose of writerdata.go.
-- Records.BitField: internal/records/bits.go. Records.Bitset: internal/records/bitset.go.
--   Records.Column: records.go. Records.Strings: strings.go. Records.Extract: extract.go and the loop
--   of strings.go, where the conversions to float64 are a parameter (ToFloat).
-- Reading: read.go (the options, resolveRange, columnSpec, extractColumn, applyConversion, and read
--   of a channel that is neither virtual nor of variable length). A section is a function on the
--   readers' state; Reading.Sections makes one of DataSection.Reader. The loop over chunks has one
--   unit of fuel for each sample, and every round reads at least one.
-- Dbc.Decode and Dbc.Sign: internal/dbc/decode.go.
-- Conversion: internal/conversion. Float is what the code does with a float64, a parameter with the
--   laws of IEEE 754 comparisons as hypotheses. Table: numeric.go. Compile and Rules: conversion.go,
--   where a compiled function on slices is the function on one element. Formula: expr.go, its
--   recursive descent on fuel: each level has one unit more than its source has bytes.
--   Formula.Grammar: a grammar, independent of the parser, with the value of each formula.
-- Tree.Elements: tree.go (expandArray). Only what differs between elements is kept. The fuel is one
--   unit for an array block; a chain of them can be endless.
-- Examples: concrete runs.
--
-- Bytes and words are natural numbers, and arithmetic on `uint64` keeps its wrap-around. An `int64`
-- that comes from a file stands as its bit pattern, so it is negative from 2 ^ 63 on. Lengths of
-- what is in memory are natural numbers below 2 ^ 63. A mutex makes each cache operation one step.
--
-- Not modelled: an allocation below that limit that exhausts the memory, floating-point arithmetic,
-- zlib, regular expressions, memory mapping and other input and output, the chains of groups and
-- channels of a file, master values, virtual channels and reductions, the bus and event readers.
pub mod Base
pub mod Dbc
pub mod Records
pub mod DataSection
pub mod Source
pub mod Reading
pub mod Blocks
pub mod Unsorted
pub mod Writer
pub mod Vlsd
pub mod Conversion
pub mod Tree
mod Examples
