-- ===== src/Naming/Kinds.antt =====
-- Where the names of index keys have ":ridx:" in them.
use sluice_go.Naming.{codes, index_key, range_index_key}
use sluice_go.Naming.Decimal.{itoa}
use sluice_go.Prelude.{
  ℕ, ◌≡◌, true, ◌∷◌, ◌++◌, Bytes, contains_text, contains_text-behind, contains_text-middle,
}

-- The mark of a range index.
abbrev pub mark : Bytes
mark = codes ":ridx:"

pub range_index_key-marked :
    (ns : Bytes) (band : ℕ) (field : Bytes)
    → contains_text mark (range_index_key ns band field) ≡ true
unfolding range_index_key
range_index_key-marked ns band field =
    contains_text-middle mark (codes "sl:" ++ ns) (123 ∷ (itoa band ++ (codes "}:" ++ field)))

-- A value with the mark gives it to the name of its equality index.
pub index_key-marked :
    (ns : Bytes) (band : ℕ) (field value : Bytes)
    → contains_text mark value ≡ true
    → contains_text mark (index_key ns band field value) ≡ true
unfolding index_key
index_key-marked ns band field value h =
    let valued : Bytes = codes ":" ++ value in
    let tagged : Bytes = codes "}:" ++ (field ++ valued) in
    let kind : Bytes = codes ":idx:{" ++ (itoa band ++ tagged) in
    contains_text-behind mark (codes "sl:") (ns ++ kind) (
      contains_text-behind mark ns kind (
        contains_text-behind mark (codes ":idx:{") (itoa band ++ tagged) (
          contains_text-behind mark (itoa band) tagged (
            contains_text-behind mark (codes "}:") (field ++ valued) (
              contains_text-behind mark field valued
                (contains_text-behind mark (codes ":") value h))))))
