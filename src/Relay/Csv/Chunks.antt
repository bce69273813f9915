-- ===== src/Relay/Csv/Chunks.antt =====
-- The counts of packages/relay-api/src/csv-scan.ts and the line ends of a file.
use doc_eng_demo.Prelude.{
  ℕ, ◌≡◌, ◌≢◌, refl, sym, ◌∙◌, ap, false, List, [], ◌∷◌, ◌++◌, eqb, eqb_iff, arith, Bool-cases,
  flat_map, All, if◌then◌else◌, inl, inr,
}
use doc_eng_demo.Contracts.Records.{Text}
use doc_eng_demo.Relay.Csv.{
  CsvScan, scan_start, scan_char, scan_text, scan_stream, scan_delimited_stream, counts_of, lf, cr,
}

pub scan_text-append :
    (delimiter : ℕ) (s t : Text) (a : CsvScan)
    → scan_text delimiter (s ++ t) a ≡ scan_text delimiter t (scan_text delimiter s a)
unfolding scan_text
scan_text-append delimiter [] t a = refl
scan_text-append delimiter (c ∷ s) t a = scan_text-append delimiter s t (scan_char delimiter c a)

scan_stream-flatten :
    (delimiter : ℕ) (chunks : List Text) (a : CsvScan)
    → scan_stream delimiter chunks a ≡ scan_text delimiter (flat_map (λ c. c) chunks) a
unfolding scan_stream
scan_stream-flatten delimiter [] a = unfold scan_text in refl
scan_stream-flatten delimiter (c ∷ chunks) a =
    scan_stream-flatten delimiter chunks (scan_text delimiter c a)
    ∙ sym (scan_text-append delimiter c (flat_map (λ x. x) chunks) a)

-- The text with CRLF for every LF.
abbrev pub to_crlf : Text → Text
to_crlf [] = []
to_crlf (c ∷ t) = if eqb c lf then cr ∷ c ∷ to_crlf t else c ∷ to_crlf t

crlf_step :
    (delimiter : ℕ) (a : CsvScan)
    → a.prev_was_cr ≡ false
    → delimiter ≢ lf
    → delimiter ≢ cr
    → scan_char delimiter lf (scan_char delimiter cr a) ≡ scan_char delimiter lf a
unfolding scan_char
crlf_step delimiter a h p q = ground arith

scan_char-no_cr :
    (delimiter c : ℕ) (a : CsvScan) → c ≢ cr → (scan_char delimiter c a).prev_was_cr ≡ false
unfolding scan_char
scan_char-no_cr delimiter c a h = ground arith

to_crlf-other : (c : ℕ) (t : Text) → eqb c lf ≡ false → to_crlf (c ∷ t) ≡ c ∷ to_crlf t
to_crlf-other c t e = rw e refl

lf≢cr : lf ≢ cr
lf≢cr = ground arith

scan_text-to_crlf :
    (delimiter : ℕ)
    → delimiter ≢ lf
    → delimiter ≢ cr
    → (t : Text) → All (λ c. c ≢ cr) t
    → (a : CsvScan) → a.prev_was_cr ≡ false
    → scan_text delimiter (to_crlf t) a ≡ scan_text delimiter t a
unfolding scan_text
scan_text-to_crlf delimiter p q [] all a h = refl
scan_text-to_crlf delimiter p q (c ∷ t) (hc, all) a h = elim (Bool-cases (eqb c lf)) [
  | inl e ↦
      rw
        (
          e,
          (eqb_iff c lf).0 e,
          crlf_step delimiter a h p q,
          scan_text-to_crlf delimiter p q t all (scan_char delimiter lf a)
              (scan_char-no_cr delimiter lf a lf≢cr),
        )
        refl
  | inr e ↦
      ap (λ u. scan_text delimiter u a) (to_crlf-other c t e)
      ∙ scan_text-to_crlf delimiter p q t all (scan_char delimiter c a)
          (scan_char-no_cr delimiter c a hc)
]

-- A text that has no CR of its own has the same counts when its line ends become CRLF, for either
-- of the delimiters that the source passes, and wherever the chunks of the two streams end: also
-- between the halves of a CRLF and inside a quoted field.
pub scan_delimited_stream-to_crlf :
    (delimiter : ℕ)
    → delimiter ≢ lf
    → delimiter ≢ cr
    → (t : Text) → All (λ c. c ≢ cr) t
    → (xs ys : List Text) → flat_map (λ c. c) xs ≡ to_crlf t
    → flat_map (λ c. c) ys ≡ t
    → scan_delimited_stream delimiter xs ≡ scan_delimited_stream delimiter ys
unfolding scan_delimited_stream
scan_delimited_stream-to_crlf delimiter p q t all xs ys e f = ap counts_of (
    scan_stream-flatten delimiter xs scan_start
    ∙ (ap (λ u. scan_text delimiter u scan_start) e
        ∙ (scan_text-to_crlf delimiter p q t all scan_start refl
            ∙ (ap (λ u. scan_text delimiter u scan_start) (sym f)
                ∙ sym (scan_stream-flatten delimiter ys scan_start)))))
