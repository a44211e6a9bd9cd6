-- ===== src/Identifier/Examples.antt =====
-- The theorems on identifiers at concrete ones.
use irmago.Prelude.{◌≡◌, refl, inl, suc, [], ◌∷◌, ◌++◌, arith}
use irmago.Identifier.{
  Identifier, dot, count, parent, name, parts_count, credential_type_identifier, issuer_identifier,
}
use irmago.Identifier.Parts.{parent-name, credential_type_parts}

-- "a.b.c.d"
abbrev attribute : Identifier
attribute = b'a' ∷ dot ∷ b'b' ∷ dot ∷ b'c' ∷ dot ∷ b'd' ∷ []

attribute_parts : parts_count attribute ≡ 3
unfolding parts_count count
attribute_parts = refl

parent-name_example :
    (parent attribute ++ dot ∷ name attribute ≡ attribute)
    × (parts_count (name attribute) ≡ 0)
    × (suc (parts_count (parent attribute)) ≡ parts_count attribute)
parent-name_example = parent-name attribute (omega (arith, attribute_parts))

credential_type_parts_example :
    (parts_count (credential_type_identifier attribute) ≡ 2)
    × (parts_count (issuer_identifier (credential_type_identifier attribute)) ≡ 1)
credential_type_parts_example = credential_type_parts attribute (inl attribute_parts)
