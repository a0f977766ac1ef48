-- ===== src/Ir/Kinds.antt =====
-- src/ir/mod.rs: the token kinds, their order and their names.
use zentropy.Prelude.{ℕ, ◌≡◌, refl, Option, some, List, [], ◌∷◌, get_elem?}
use Prim.Native.String.{String}

pub data Kind : Type 0 where
  xml_open : Kind
  xml_close : Kind
  xml_empty : Kind
  xml_comment : Kind
  xml_pi : Kind
  cdata : Kind
  entity : Kind
  template : Kind
  wiki_link : Kind
  wiki_table : Kind
  word : Kind
  number : Kind
  spaces : Kind
  newlines : Kind
  url : Kind
  punct : Kind
  raw : Kind

-- `Kind::ALL`
abbrev pub kinds : List Kind
kinds =
    xml_open ∷ xml_close ∷ xml_empty ∷ xml_comment ∷ xml_pi ∷ cdata ∷ entity ∷ template ∷ wiki_link
    ∷ wiki_table ∷ word ∷ number ∷ spaces ∷ newlines ∷ url ∷ punct ∷ raw ∷ []

-- `kind as usize`, the discriminant.
unfoldable pub index : Kind → ℕ
index xml_open = 0
index xml_close = 1
index xml_empty = 2
index xml_comment = 3
index xml_pi = 4
index cdata = 5
index entity = 6
index template = 7
index wiki_link = 8
index wiki_table = 9
index word = 10
index number = 11
index spaces = 12
index newlines = 13
index url = 14
index punct = 15
index raw = 16

unfoldable pub name : Kind → String
name xml_open = "xml_open"
name xml_close = "xml_close"
name xml_empty = "xml_empty"
name xml_comment = "xml_comment"
name xml_pi = "xml_pi"
name cdata = "cdata"
name entity = "entity"
name template = "template"
name wiki_link = "wiki_link"
name wiki_table = "wiki_table"
name word = "word"
name number = "number"
name spaces = "spaces"
name newlines = "newlines"
name url = "url"
name punct = "punct"
name raw = "raw"

unfoldable pub from_index : ℕ → Option Kind
from_index i = get_elem? kinds i

-- The table of all kinds and the discriminants agree.
pub from_index-index : (k : Kind) → from_index (index k) ≡ some k
unfolding from_index index
from_index-index xml_open = refl
from_index-index _ = refl
