-- ===== src/Fixture/Format.antt =====
-- fixture/format.go: which schema a fixture file has, by the markers in its first 8 KiB.
pub mod Markers
use stateless_executor.Prelude.{◌*◌, ℕ, List, [], ◌∷◌, take, if◌then◌else◌}
use stateless_executor.Prelude.Text.{Text, codes, contains}
use stateless_executor.Prelude.Errors.{Result, ok, ◌>>=◌}
use stateless_executor.Prelude.Endian.{Bytes}

pub data Format : Type 0 where
  unknown corpus zkevm : Format

abbrev pub sniff_limit : ℕ
sniff_limit = 8 * 1024

abbrev pub corpus_marker : Text
corpus_marker = codes "\"stateless_input\""

abbrev pub format_markers : List (Text × Format)
format_markers =
    (corpus_marker, Format.corpus)
    ∷ (codes "\"genesisBlockHeader\"", Format.zkevm)
    ∷ (codes "\"engineNewPayloads\"", Format.zkevm)
    ∷ (codes "\"statelessInputBytes\"", Format.zkevm)
    ∷ (codes "\"blocks\"", Format.zkevm)
    ∷ []

unfoldable pub first_match : Bytes → List (Text × Format) → Format
first_match head [] = Format.unknown
first_match head ((marker, format) ∷ ms) =
    let rest = first_match head ms in if contains head marker then format else rest

-- `SniffFormat`, on the content of the file or the error of reading it.
unfoldable pub sniff_format : Result Bytes → Result Format
unfolding first_match
sniff_format content = do bytes ← content; ok (first_match (take sniff_limit bytes) format_markers)
