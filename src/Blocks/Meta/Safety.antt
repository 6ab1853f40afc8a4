-- ===== src/Blocks/Meta/Safety.antt =====
-- All decoders of the metadata tree together.
use go_mdf.Base.{ℕ, ◌+◌, ◌≤◌, ◌≡◌, true, ◌⊎◌, length}
use go_mdf.Base.Words.{Bytes, word_at}
use go_mdf.Blocks.Header.{same_bytes}
use go_mdf.Blocks.Meta.Laws.{Counted}
use go_mdf.Blocks.Meta.Extra.{At, Ev, IdBlock, finalized_id, unfinalized_id}

-- The announced scope behind the five fixed links and the announced attachments behind the scope, by
-- the number of links in the header.
pub record IsEv (src : Bytes) (addr : ℕ) (b : Ev) : Type 0 where
  scope_counted : Counted b.scope 5 b.scope_count (word_at src (addr + 16))
  attachments_counted :
      Counted b.at_reference (5 + length b.scope) b.attachment_count (word_at src (addr + 16))

-- The embedded bytes lie in the file, and the checksum has its sixteen bytes.
pub record IsAt (src : Bytes) (b : At) : Type 0 where
  embedded : b.embedded_addr + b.embedded_size ≤ length src
  checksum : length b.md5_checksum ≡ 16

abbrev pub IsId : IdBlock → Type 0
IsId b = (same_bytes b.file finalized_id ≡ true) ⊎ (same_bytes b.file unfinalized_id ≡ true)
