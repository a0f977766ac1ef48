-- ===== src/Tests/Container.antt =====
-- The container at concrete inputs.
use zentropy.Prelude.{
  ℕ, ◌<◌, ◌≤◌, ◌≡◌, ◌≢◌, refl, Bool, true, false, not, none, some, List, [], ◌∷◌, ◌++◌, arith,
  length, ltb, if◌then◌else◌, counterexample, counterexample-none, starts_with, codes,
}
use zentropy.Archive.Method.{Method, id}
use zentropy.Archive.Method.Id.{method_from_id, method_from_id-id}
use zentropy.Archive.Method.Name.{name}
use zentropy.Archive.Method.FromName.{from_name, from_name-name}
use zentropy.Archive.Method.Stages.{
  reorders, reorder_parent, hoists, token_kind, reorder_kind, reorder_parent_same_stages,
}
use zentropy.Archive.Header.{
  header, header_len, max_output, peek_header, peek_len, peek_header-header, peek_header_sound,
}
use zentropy.Archive.Header.{to_le_bytes}
use zentropy.Archive.Sfx.{
  append_sfx, extract_sfx, returned, marker_at, sfx_marker, extract_sfx-append_sfx,
  extract_sfx-marker_inside,
}

method_from_id-id_example : method_from_id (id Method.residual) ≡ some Method.residual
method_from_id-id_example = method_from_id-id Method.residual

from_name-name_example : from_name (name Method.sse3) ≡ some Method.sse3
from_name-name_example = from_name-name Method.sse3

reorder_parent_same_stages_example :
    (reorders (reorder_parent Method.residual) ≡ false)
    × (hoists Method.residual ≡ hoists (reorder_parent Method.residual))
    × (token_kind Method.residual ≡ token_kind (reorder_parent Method.residual))
reorder_parent_same_stages_example =
    reorder_parent_same_stages Method.residual (unfold reorders reorder_kind in refl)

accepted_header :
    header Method.residual 51 1000
    ≡ codes "ZNT0" ++ (86 ∷ 51 ∷ 232 ∷ 3 ∷ 0 ∷ 0 ∷ 0 ∷ 0 ∷ 0 ∷ 0 ∷ [])
unfolding header to_le_bytes id
accepted_header = refl

peek_header-header_example :
    (peek_header (header Method.residual 51 1000 ++ (7 ∷ [])) ≡ some (Method.residual, 51, 1000))
    × (peek_len (header Method.residual 51 1000 ++ (7 ∷ [])) ≡ some 1000)
peek_header-header_example = peek_header-header Method.residual 51 1000 (7 ∷ []) (omega arith)

abbrev archive : List ℕ
archive = header Method.sse3 0 5

peek_header_sound_example :
    (peek_len (archive ++ []) ≡ some 5) × (5 ≤ max_output) × (header_len ≤ length (archive ++ []))
peek_header_sound_example =
    peek_header_sound (archive ++ []) Method.sse3 0 5
      (peek_header-header Method.sse3 0 5 [] (omega arith)).0

-- No marker begins behind the appended one in this file.
marker_free : ℕ → Bool
marker_free j = if ltb 2 j then not (marker_at (append_sfx (1 ∷ 2 ∷ []) (3 ∷ [])) j) else true

marker_table : counterexample marker_free 12 ≡ none
unfolding counterexample marker_free marker_at append_sfx to_le_bytes starts_with
marker_table = refl

no_later_marker : (j : ℕ) → 2 < j → j ≤ 11 → marker_at (append_sfx (1 ∷ 2 ∷ []) (3 ∷ [])) j ≡ false
unfolding marker_free
no_later_marker j low high = ground (arith, counterexample-none marker_free 12 marker_table j)

whole_length : length (append_sfx (1 ∷ 2 ∷ []) (3 ∷ [])) ≡ 26
unfolding append_sfx to_le_bytes
whole_length = refl

extract_sfx-append_sfx_example :
    extract_sfx (append_sfx (1 ∷ 2 ∷ []) (3 ∷ [])) ≡ returned (some (3 ∷ []))
extract_sfx-append_sfx_example =
    extract_sfx-append_sfx (1 ∷ 2 ∷ []) (3 ∷ []) (omega (arith, whole_length))
      (λ j low high. no_later_marker j low (omega (arith, whole_length)))

extract_sfx-marker_inside_example :
    extract_sfx (append_sfx [] sfx_marker) ≢ returned (some sfx_marker)
extract_sfx-marker_inside_example =
    extract_sfx-marker_inside [] sfx_marker 23 (omega arith)
      (unfold append_sfx to_le_bytes in omega arith)
      (unfold marker_at append_sfx to_le_bytes starts_with in refl)
