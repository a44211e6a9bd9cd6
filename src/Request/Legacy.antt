-- ===== src/Request/Legacy.antt =====
-- legacy.go: the conversion of a request to the format from before the conjunctions of disjunctions,
-- which serves clients of protocol version 2.4. The nonce and the context are not modelled.
use irmago.Prelude.{false, ℕ, suc, List, [], ◌∷◌, nat_eq, or_else}
use irmago.Prelude.Map.{lookup}
use irmago.Prelude.Outcome.{Outcome, ok, err, panic, ◌>>=◌}
use irmago.Identifier.{name}
use irmago.Request.{AttributeRequest, AttributeDisCon, AttributeConDisCon}

-- LegacyLabeledDisjunction
pub record LegacyLabeledDisjunction : Type 0 where
  pub label : List ℕ
  pub attributes : List AttributeRequest

pub data LegacyError : Type 0 where
  not_convertible : LegacyError

-- The inner loop of convertConDisCon: each conjunction must hold exactly one attribute.
unfoldable pub convert_dis : AttributeDisCon → Outcome LegacyError (List AttributeRequest)
convert_dis [] = ok []
convert_dis ([] ∷ dis) = err not_convertible
convert_dis ((attr ∷ []) ∷ dis) = do
  rest ← convert_dis dis
  ok (record { attr_type = attr.attr_type; value = attr.value; not_null = false } ∷ rest)
convert_dis ((attr ∷ attr' ∷ con) ∷ dis) = err not_convertible

-- The label, or else the name of the first attribute; without an attribute the source panics.
label_of : List ℕ → List AttributeRequest → Outcome LegacyError (List ℕ)
label_of (c ∷ cs) attributes = ok (c ∷ cs)
label_of [] [] = panic
label_of [] (attr ∷ attributes) = ok (name attr.attr_type)

-- convertConDisCon, from disjunction i on.
unfoldable pub convert_con_dis_con :
    List (ℕ × List ℕ) → ℕ → AttributeConDisCon → Outcome LegacyError (List LegacyLabeledDisjunction)
unfolding convert_dis label_of
convert_con_dis_con labels i [] = ok []
convert_con_dis_con labels i (dis ∷ cdc) = do
  attributes ← convert_dis dis
  label ← label_of (or_else (lookup i labels) []) attributes
  rest ← convert_con_dis_con labels (suc i) cdc
  ok (record { label = label; attributes = attributes } ∷ rest)
