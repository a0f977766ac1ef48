-- ===== src/Tests/Transforms.antt =====
-- Runs of the transforms.
use zentropy.Prelude.{codes, ◌≡◌, refl, [], ◌∷◌, All, starts_with}
use zentropy.Transform.Hoist.{
  dict, best_match, encode, decode, encode_loop, match_loop, match_step, is_reserved,
}
use zentropy.Transform.Hoist.Match.{Fits, Covers, best_match_lem}
use zentropy.Transform.Hoist.RoundTrip.{decode-encode}

hoisted_page : encode (codes "<page>a") ≡ 1 ∷ 97 ∷ []
unfolding encode encode_loop best_match match_loop match_step is_reserved starts_with
hoisted_page = refl

decode-encode_example : decode (encode (codes "<page>&amp;[[")) ≡ codes "<page>&amp;[["
decode-encode_example = decode-encode (codes "<page>&amp;[[")

best_match_lem_example :
    Fits dict (codes "</page>") (best_match (codes "</page>"))
    × All (Covers dict (codes "</page>") (best_match (codes "</page>"))) dict
best_match_lem_example = best_match_lem (codes "</page>")
