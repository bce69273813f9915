-- ===== src/Relay/Csv.antt =====
-- packages/relay-api/src/csv-scan.ts: the counts of one pass over a delimited file. The decoding of
-- bytes to text and the digest are the platform's; a chunk is the text that the decoder yields.
pub mod Chunks
pub mod Tests
use doc_eng_demo.Prelude.{
  ℕ, zero, suc, ◌+◌, ◌-◌, Bool, true, false, ◌&&◌, ◌||◌, not, List, [], ◌∷◌, eqb, if◌then◌else◌,
}
use doc_eng_demo.Contracts.Records.{Text}

pub record CsvScan : Type 0 where
  pub in_quotes : Bool
  pub record_has_content : Bool
  pub record_index : ℕ
  pub header_columns : ℕ
  pub current_columns : ℕ
  pub prev_was_cr : Bool

abbrev pub scan_start : CsvScan
scan_start = record {
  in_quotes = false;
  record_has_content = false;
  record_index = 0;
  header_columns = 0;
  current_columns = 1;
  prev_was_cr = false;
}

abbrev quote : ℕ
quote = 34

abbrev lf : ℕ
lf = 10

abbrev cr : ℕ
cr = 13

abbrev blank : ℕ
blank = 32

unfoldable pub end_record : CsvScan → CsvScan
end_record s = record {
  in_quotes = s.in_quotes;
  record_has_content = false;
  record_index = if s.record_has_content then s.record_index + 1 else s.record_index;
  header_columns =
      if s.record_has_content && eqb s.record_index 0 then s.current_columns else s.header_columns;
  current_columns = 1;
  prev_was_cr = s.prev_was_cr;
}

-- One round of the loop over a text, but for the second half of a CRLF.
scan_other : ℕ → ℕ → CsvScan → CsvScan
unfolding end_record
scan_other delimiter ch s =
    if eqb ch quote
    then record s { in_quotes = not s.in_quotes; record_has_content = true }
    else if not s.in_quotes && (eqb ch lf || eqb ch cr)
    then end_record (record s { prev_was_cr = eqb ch cr })
    else if not s.in_quotes && eqb ch delimiter
    then record s { current_columns = s.current_columns + 1; record_has_content = true }
    else if not (eqb ch blank) || s.record_has_content
    then record s { record_has_content = true }
    else s

pub scan_char : ℕ → ℕ → CsvScan → CsvScan
unfolding scan_other
scan_char delimiter ch s =
    if s.prev_was_cr && (eqb ch lf && not s.in_quotes)
    then record s { prev_was_cr = false }
    else scan_other delimiter ch (record s { prev_was_cr = false })

unfoldable pub scan_text : ℕ → Text → CsvScan → CsvScan
unfolding scan_char
scan_text delimiter [] s = s
scan_text delimiter (ch ∷ text) s = scan_text delimiter text (scan_char delimiter ch s)

pub record CsvCounts : Type 0 where
  pub column_count : ℕ
  pub row_count : ℕ

-- A last record with no newline behind it counts too; a header alone has no rows.
pub counts_of : CsvScan → CsvCounts
counts_of s =
    let t = end_record s in
    record {
      column_count = if eqb t.record_index 0 then 0 else t.header_columns;
      row_count = t.record_index - 1;
    }

-- The loop over the chunks of the stream.
pub scan_stream : ℕ → List Text → CsvScan → CsvScan
unfolding scan_text
scan_stream delimiter [] s = s
scan_stream delimiter (chunk ∷ chunks) s =
    scan_stream delimiter chunks (scan_text delimiter chunk s)

unfoldable pub scan_delimited_stream : ℕ → List Text → CsvCounts
unfolding scan_stream counts_of end_record
scan_delimited_stream delimiter chunks = counts_of (scan_stream delimiter chunks scan_start)
