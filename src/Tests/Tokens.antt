-- ===== src/Tests/Tokens.antt =====
-- Runs of the tokeniser.
use zentropy.Prelude.{ℕ, ◌≤◌, ◌≡◌, refl, some, List, [], ◌∷◌, map, arith, codes, starts_with}
use zentropy.Ir.{
  classify, classify_markup, classify_entity, classify_wiki, classify_url, classify_run, goes_on,
  is_newline, tokenize, tokenize_loop, render,
}
use zentropy.Ir.Kinds.{xml_open, word, entity, punct}
use zentropy.Ir.Scan.{
  is_letter, is_digit, is_space, is_alphanumeric, is_graphic, run, find, scan_between, scan_comment,
  scan_pi, scan_cdata, tag_loop, scan_tag, entity_loop, digits_start, scan_entity, balanced_loop,
  scan_balanced, table_loop, scan_table, scheme, scan_url,
}
use zentropy.Ir.Partition.{Covers, tokenize-Covers, render-tokenize, classify-Inside}

abbrev page : List ℕ
page = codes "<a>x&lt;[["

kinds_of_page : map (λ t. t.kind) (tokenize page) ≡ xml_open ∷ word ∷ entity ∷ punct ∷ []
unfolding tokenize tokenize_loop classify classify_markup classify_entity classify_wiki classify_url
    classify_run goes_on is_newline is_letter is_digit is_space is_alphanumeric is_graphic run find
    scan_between scan_comment scan_pi scan_cdata tag_loop scan_tag entity_loop digits_start
    scan_entity balanced_loop scan_balanced table_loop scan_table scheme scan_url starts_with
kinds_of_page = refl

render-tokenize_example : render page (tokenize page) ≡ some page
render-tokenize_example = render-tokenize page (omega arith)

tokenize-Covers_example : Covers 0 10 (tokenize page)
tokenize-Covers_example = tokenize-Covers page (omega arith)

classify-Inside_example : (1 ≤ (classify page).1) × ((classify page).1 ≤ 10)
classify-Inside_example = classify-Inside page (omega arith)
