-- ===== src/Relay/Csv/Tests.antt =====
-- An instance of the property of the scan: a file of one header and one row, with plain line ends and
-- with a CRLF that is cut.
use doc_eng_demo.Prelude.{ℕ, ◌≡◌, ◌≢◌, refl, List, [], ◌∷◌, All, arith}
use doc_eng_demo.Contracts.Records.{Text}
use doc_eng_demo.Relay.Csv.{scan_delimited_stream}
use doc_eng_demo.Relay.Csv.Chunks.{scan_delimited_stream-to_crlf}

abbrev comma : ℕ
comma = 44

abbrev plain : Text
plain = 97 ∷ 44 ∷ 98 ∷ 10 ∷ 49 ∷ 44 ∷ 50 ∷ 10 ∷ []

comma_is_no_lf : comma ≢ 10
comma_is_no_lf e = ground arith

comma_is_no_cr : comma ≢ 13
comma_is_no_cr e = ground arith

plain_has_no_cr : All (λ c. c ≢ 13) plain
plain_has_no_cr = ground arith

-- Cut between a CR and its LF.
abbrev cut : List Text
cut = (97 ∷ 44 ∷ 98 ∷ 13 ∷ []) ∷ (10 ∷ 49 ∷ 44 ∷ 50 ∷ 13 ∷ 10 ∷ []) ∷ []

scan_delimited_stream-to_crlf_example :
    scan_delimited_stream comma cut ≡ scan_delimited_stream comma (plain ∷ [])
scan_delimited_stream-to_crlf_example =
    scan_delimited_stream-to_crlf comma comma_is_no_lf comma_is_no_cr plain plain_has_no_cr cut
      (plain ∷ []) refl refl
